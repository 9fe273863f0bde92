-- ===== src/Runtime/Soundness/Methods.antt =====
-- The public methods keep the engine sound.
use hass_geofence_journal.Prelude.{
  ℕ, ◌≡◌, Bool, true, false, Option, none, some, inl, inr, Bool-cases,
}
use hass_geofence_journal.Models.{PresenceState, unknown, is_presence, RuleDefinition}
use hass_geofence_journal.Location.{Outcome, accepted, ignored}
use hass_geofence_journal.Geofence.{EvaluatedObservation}
use hass_geofence_journal.Storage.Records.{RuntimeStateRecord}
use hass_geofence_journal.Runtime.State.{accepted_state_update}
use hass_geofence_journal.Runtime.Contracts.{RuntimeStorage, RuntimeDependencies}
use hass_geofence_journal.Exec.Rules.{Keeps, Leads-if, Keeps-bind, Keeps-lift_bind}
use hass_geofence_journal.Runtime.Engine.{
  replace_state, pending_state, recovered_state, is_stale, is_pending, confirm_if_due,
  restore_recovered, confirm_locked, begin_pending, accept_stable, accept_pending, accept_baseline,
  accept_at, accept_locked, async_observe, deadline_callback, recover_row, async_recover,
  async_deactivate, async_suspend,
}
use hass_geofence_journal.Runtime.Coherence.{
  IsCoherent, is_usable, baseline_state-IsCoherent, accepted_state_update-IsCoherent,
  pending_state-IsCoherent, recovered_state-IsCoherent,
}
use hass_geofence_journal.Runtime.Soundness.{
  AllCoherent, Sound, cancel_scheduled-Sound, delete-Sound, done-Sound, load-Sound,
  put_accepting-Sound, put_state-Sound, replace_state-Sound, save-Sound, utc_now-Sound,
}
use hass_geofence_journal.Runtime.Soundness.Confirm.{restore_pending-Sound, confirm_locked-Sound}

module _ (store : RuntimeStorage) (rule : RuleDefinition) (deps : RuntimeDependencies) where
  open store use {Db}

  begin_pending-Sound :
      (fuel : ℕ) (s : RuntimeStateRecord) (o : EvaluatedObservation)
      → IsCoherent rule s
      → is_usable o ≡ true
      → is_presence o.presence unknown ≡ false
      → is_presence o.presence s.presence_state ≡ false
      → Keeps (Sound store rule deps) (begin_pending store rule deps fuel s o)
  unfolding begin_pending
  begin_pending-Sound fuel s o c usable known moved =
      Keeps-bind _ _ (cancel_scheduled-Sound store rule deps) λ _.
        Keeps-bind _ _ (utc_now-Sound store rule deps) λ now. Keeps-lift_bind _ _ λ deadline fits.
          Keeps-bind _ _
            (replace_state-Sound store rule deps _ (
              pending_state-IsCoherent rule o usable s now deadline deps.store_coordinates c known
                moved))
            λ _.
              restore_pending-Sound store rule deps (confirm_locked store rule deps fuel)
                (confirm_locked-Sound store rule deps fuel)
                (pending_state s o now deadline deps.store_coordinates)

  update-Sound :
      (s : RuntimeStateRecord) (o : EvaluatedObservation) (now : ℕ) (clear : Bool)
      → IsCoherent rule s
      → is_usable o ≡ true
      → Keeps (Sound store rule deps) (
          replace_state store rule deps
            (accepted_state_update s o now deps.store_coordinates clear))
  update-Sound s o now clear c usable =
      replace_state-Sound store rule deps _
        (accepted_state_update-IsCoherent rule o usable s now deps.store_coordinates clear c)

  confirm_if_due-Sound :
      (fuel generation : ℕ) (deadline : Option ℕ)
      → Keeps (Sound store rule deps) (confirm_if_due store rule deps fuel generation deadline)
  unfolding confirm_if_due
  confirm_if_due-Sound fuel generation none = (done-Sound store rule deps)
  confirm_if_due-Sound fuel generation (some deadline) =
      Keeps-bind _ _ (utc_now-Sound store rule deps) λ now.
        Leads-if _ _ _ (λ _. confirm_locked-Sound store rule deps fuel generation)
          λ _. (done-Sound store rule deps)

  accept_at-Sound :
      (fuel : ℕ) (o : EvaluatedObservation) (s : Option RuntimeStateRecord)
      → is_usable o ≡ true
      → AllCoherent store rule s
      → Keeps (Sound store rule deps) (accept_at store rule deps fuel o s)
  unfolding accept_at accept_baseline accept_stable accept_pending
  accept_at-Sound fuel o none usable c =
      Leads-if (is_presence o.presence unknown) _ _ (λ _. (done-Sound store rule deps))
        λ known. Keeps-bind _ _ (utc_now-Sound store rule deps) λ now.
          replace_state-Sound store rule deps _
            (baseline_state-IsCoherent rule o usable now deps.store_coordinates known)
  accept_at-Sound fuel o (some s) usable c =
      Leads-if (is_stale o s) _ _ (λ _. (done-Sound store rule deps))
        λ _.
          Leads-if (is_presence o.presence unknown) _ _ (λ _. (done-Sound store rule deps))
            λ known.
              Leads-if (is_presence o.presence s.presence_state) _ _
                (λ _. Keeps-bind _ _ (cancel_scheduled-Sound store rule deps) λ _.
                  Keeps-bind _ _ (utc_now-Sound store rule deps)
                    λ now. update-Sound s o now true c usable)
                λ moved.
                  Leads-if (is_pending s o.presence) _ _
                    (λ _. Keeps-bind _ _ (utc_now-Sound store rule deps) λ now.
                      let latest = accepted_state_update s o now deps.store_coordinates false in
                      Keeps-bind _ _ (update-Sound s o now false c usable) λ _.
                        confirm_if_due-Sound fuel latest.pending_generation latest.pending_deadline)
                    λ _. begin_pending-Sound fuel s o c usable known moved

  -- The sample, if it was accepted, has no NaN.
  abbrev pub Usable : Outcome EvaluatedObservation → Type 0
  Usable (ignored _) = Unit
  Usable (accepted o) = is_usable o ≡ true

  pub async_observe-IsSound :
      (fuel : ℕ) (x : Outcome EvaluatedObservation)
      → Usable x
      → Keeps (Sound store rule deps) (async_observe store rule deps fuel x)
  unfolding async_observe accept_locked
  async_observe-IsSound fuel (ignored _) usable = record { at = λ e h. h }
  async_observe-IsSound fuel (accepted o) usable = record {
    at = λ e h. elim (Bool-cases e.accepting) [
      | inl on ↦ simp on ((accept_at-Sound fuel o e.state usable h.memory).at e h)
      | inr off ↦ simp off h
    ];
  }

  pub deadline_callback-IsSound :
      (fuel generation : ℕ)
      → Keeps (Sound store rule deps) (deadline_callback store rule deps fuel generation)
  unfolding deadline_callback
  deadline_callback-IsSound fuel generation = record {
    at = λ e h. elim (Bool-cases e.accepting) [
      | inl on ↦ simp on ((confirm_locked-Sound store rule deps fuel generation).at e h)
      | inr off ↦ simp off h
    ];
  }

  restore_recovered-Sound :
      (fuel : ℕ) (s : RuntimeStateRecord) (target : Option PresenceState)
      → Keeps (Sound store rule deps) (restore_recovered store rule deps fuel s target)
  unfolding restore_recovered
  restore_recovered-Sound fuel s none = (done-Sound store rule deps)
  restore_recovered-Sound fuel s (some _) =
      restore_pending-Sound store rule deps (confirm_locked store rule deps fuel)
        (confirm_locked-Sound store rule deps fuel) s

  recover_row-Sound :
      (fuel : ℕ) (s : Option RuntimeStateRecord)
      → AllCoherent store rule s
      → Keeps (Sound store rule deps) (recover_row store rule deps fuel s)
  unfolding recover_row
  recover_row-Sound fuel none c = (done-Sound store rule deps)
  recover_row-Sound fuel (some s) c = Keeps-bind _ _ (utc_now-Sound store rule deps) λ now.
      let next = recovered_state-IsCoherent rule s c now in
      Keeps-bind _ _ (put_state-Sound store rule deps _ next) λ _.
        Keeps-bind _ _
          (Leads-if _ _ _ (λ _. save-Sound store rule deps _ next)
            λ _. (done-Sound store rule deps))
          λ _.
            restore_recovered-Sound fuel (recovered_state s now)
              (recovered_state s now).pending_transition

  pub async_recover-IsSound :
      (fuel : ℕ) → Keeps (Sound store rule deps) (async_recover store rule deps fuel)
  unfolding async_recover
  async_recover-IsSound fuel =
      Leads-if rule.enabled _ _
        (λ _.
          Keeps-bind _ _ (put_accepting-Sound store rule deps true)
            λ _. load-Sound store rule deps _ λ s c. recover_row-Sound fuel s c)
        λ _.
          Keeps-bind _ _ (put_accepting-Sound store rule deps false)
            λ _. (delete-Sound store rule deps)

  pub async_deactivate-IsSound : Keeps (Sound store rule deps) (async_deactivate store rule deps)
  unfolding async_deactivate
  async_deactivate-IsSound = Keeps-bind _ _ (put_accepting-Sound store rule deps false) λ _.
      Keeps-bind _ _ (cancel_scheduled-Sound store rule deps) λ _.
        Keeps-bind _ _ (put_state-Sound store rule deps none tt) λ _. (delete-Sound store rule deps)

  pub async_suspend-IsSound : Keeps (Sound store rule deps) (async_suspend store rule deps)
  unfolding async_suspend
  async_suspend-IsSound =
      Keeps-bind _ _ (put_accepting-Sound store rule deps false)
        λ _. (cancel_scheduled-Sound store rule deps)
