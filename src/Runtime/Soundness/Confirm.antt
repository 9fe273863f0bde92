-- ===== src/Runtime/Soundness/Confirm.antt =====
-- Confirmation and the deadlines keep the engine sound.
use hass_geofence_journal.Prelude.{ℕ, zero, suc, ◌≡◌, refl, false, Option, none, some, ◌-◌, not}
use hass_geofence_journal.Errors.{runtime_invariant}
use hass_geofence_journal.Models.{PresenceState, unknown, is_presence, RuleDefinition}
use hass_geofence_journal.Storage.Records.{RuntimeStateRecord}
use hass_geofence_journal.Runtime.State.{direction_cooldown, Pending, pending}
use hass_geofence_journal.Runtime.Contracts.{RuntimeStorage, RuntimeDependencies}
use hass_geofence_journal.Runtime.Action.{Action}
use hass_geofence_journal.Exec.Rules.{Keeps, Leads-if, Keeps-bind, Keeps-lift_bind}
use hass_geofence_journal.Runtime.Engine.{
  in_cooldown, restore_at, restore_pending, adopt, record_transition, settle_agreed, settle_due,
  confirm_pending, confirm_at, confirm_locked,
}
use hass_geofence_journal.Runtime.Coherence.{
  IsCoherent, cancelled_state-IsCoherent, pending-known, confirmed_state-IsCoherent,
  build-IsCoherent,
}
use hass_geofence_journal.Runtime.Soundness.{
  AllCoherent, Sound, commit-Sound, done-Sound, forget_scheduled-Sound, load-Sound, next_id-Sound,
  on_transition-Sound, put_state-Sound, raise-Sound, replace_state-Sound, schedule-Sound,
  utc_now-Sound,
}

module _ (store : RuntimeStorage) (rule : RuleDefinition) (deps : RuntimeDependencies) where
  open store use {Db}

  pub adopt-Sound :
      (x : Option RuntimeStateRecord)
      → AllCoherent store rule x
      → Keeps (Sound store rule deps) (adopt store rule deps x)
  unfolding adopt
  adopt-Sound none c = raise-Sound store rule deps runtime_invariant
  adopt-Sound (some s) c = put_state-Sound store rule deps (some s) c

  pub record_transition-Sound :
      (s : RuntimeStateRecord) (now generation : ℕ)
      → IsCoherent rule s
      → Keeps (Sound store rule deps) (record_transition store rule deps s now generation)
  unfolding record_transition
  record_transition-Sound s now generation c = Keeps-bind _ _ (next_id-Sound store rule deps) λ id.
      Keeps-lift_bind _ _ λ r built.
        let facts = build-IsCoherent rule s c deps.source now generation id r.0 r.1 built in
        Keeps-bind _ _ (commit-Sound store rule deps r.1 r.0 facts.0 facts.1) λ result.
          Leads-if result.created _ _
            (λ _. Keeps-bind _ _ (put_state-Sound store rule deps (some r.0) facts.0) λ _.
              Keeps-bind _ _ (on_transition-Sound store rule deps result r.0)
                λ _. (forget_scheduled-Sound store rule deps))
            (λ _. load-Sound store rule deps _ λ x found.
              Keeps-bind _ _ (adopt-Sound x found) λ _. (forget_scheduled-Sound store rule deps))

  pub settle_agreed-Sound :
      (s : RuntimeStateRecord) (target : PresenceState) (now generation : ℕ)
      → IsCoherent rule s
      → is_presence target unknown ≡ false
      → Keeps (Sound store rule deps) (settle_agreed store rule deps s target now generation)
  unfolding settle_agreed
  settle_agreed-Sound s target now generation c known =
      Leads-if (in_cooldown (direction_cooldown s target) now) _ _
        (λ _. Keeps-lift_bind _ _ λ corrected built.
          replace_state-Sound store rule deps corrected
            (confirmed_state-IsCoherent rule s c target now none corrected known built))
        (λ _. record_transition-Sound s now generation c)

  pub settle_due-Sound :
      (s : RuntimeStateRecord) (target : PresenceState) (now generation : ℕ)
      (reevaluated : Option PresenceState)
      → IsCoherent rule s
      → is_presence target unknown ≡ false
      → Keeps
          (Sound store rule deps)
          (settle_due store rule deps s target now generation reevaluated)
  unfolding settle_due
  settle_due-Sound s target now generation none c known = (forget_scheduled-Sound store rule deps)
  settle_due-Sound s target now generation (some p) c known =
      Leads-if (not (is_presence p target)) _ _
        (λ _.
          Keeps-bind _ _
            (replace_state-Sound store rule deps _ (cancelled_state-IsCoherent rule s c now))
            λ _. (forget_scheduled-Sound store rule deps))
        (λ _. settle_agreed-Sound s target now generation c known)

  module _ (confirm : ℕ → Action Db (Unit {0}))
      (again : (g : ℕ) → Keeps (Sound store rule deps) (confirm g)) where
    pub restore_at-Sound :
        (generation : ℕ) (deadline : Option ℕ)
        → Keeps (Sound store rule deps) (restore_at store rule deps confirm generation deadline)
    unfolding restore_at
    restore_at-Sound generation none = (done-Sound store rule deps)
    restore_at-Sound generation (some deadline) =
        Keeps-bind _ _ (utc_now-Sound store rule deps) λ now.
          Leads-if _ _ _ (λ _. again generation)
            λ _. schedule-Sound store rule deps (deadline - now) generation

    pub restore_pending-Sound :
        (s : RuntimeStateRecord)
        → Keeps (Sound store rule deps) (restore_pending store rule deps confirm s)
    unfolding restore_pending
    restore_pending-Sound s = restore_at-Sound s.pending_generation s.pending_deadline

    pub confirm_pending-Sound :
        (s : RuntimeStateRecord) (generation : ℕ) (found : Option Pending)
        → IsCoherent rule s
        → pending s ≡ found
        → Keeps (Sound store rule deps) (confirm_pending store rule deps confirm s generation found)
    unfolding confirm_pending
    confirm_pending-Sound s generation none c e = (done-Sound store rule deps)
    confirm_pending-Sound s generation (some found) c e =
        Keeps-bind _ _ (utc_now-Sound store rule deps) λ now.
          Leads-if _ _ _ (λ _. restore_pending-Sound s)
            λ _.
              settle_due-Sound s found.target now generation (deps.async_evaluate s) c
                (pending-known rule s c found e)

    pub confirm_at-Sound :
        (generation : ℕ) (s : Option RuntimeStateRecord)
        → AllCoherent store rule s
        → Keeps (Sound store rule deps) (confirm_at store rule deps confirm generation s)
    unfolding confirm_at
    confirm_at-Sound generation none c = (done-Sound store rule deps)
    confirm_at-Sound generation (some s) c =
        Leads-if _ _ _ (λ _. confirm_pending-Sound s generation (pending s) c refl)
          λ _. (done-Sound store rule deps)

  pub confirm_locked-Sound :
      (fuel generation : ℕ)
      → Keeps (Sound store rule deps) (confirm_locked store rule deps fuel generation)
  unfolding confirm_locked
  confirm_locked-Sound zero generation = record { at = λ e h. h }
  confirm_locked-Sound (suc fuel) generation = record {
    at = λ e h.
        (confirm_at-Sound (confirm_locked store rule deps fuel) (confirm_locked-Sound fuel)
            generation e.state h.memory).at
          e h;
  }
