-- ===== src/Runtime/Progress/Methods.antt =====
-- What each method of the engine may add to the journal.
use hass_geofence_journal.Errors.{ok, Result-cases}
use hass_geofence_journal.Prelude.{
  ◌≡◌, ap, ◌+◌, if◌then◌else◌, ℕ, refl, true, false, Option, none, some, inl, inr, leb, Bool-cases,
}
use hass_geofence_journal.Models.{PresenceState, unknown, is_presence, RuleDefinition}
use hass_geofence_journal.Location.{Outcome, accepted, ignored}
use hass_geofence_journal.Geofence.{EvaluatedObservation}
use hass_geofence_journal.Storage.Records.{RuntimeStateRecord}
use hass_geofence_journal.Runtime.State.{accepted_state_update}
use hass_geofence_journal.Runtime.Contracts.{RuntimeStorage, RuntimeDependencies}
use hass_geofence_journal.Runtime.Action.{
  Engine, Action, put_state, put_accepting, done, ◌>>=◌, ◌>>◌,
}
use hass_geofence_journal.Exec.Rules.{
  Leads, Keeps, >>=-ok, >>=-err, Leads-then, Leads-lift_bind, Leads-bind, Leads-if, Keeps-bind,
}
use hass_geofence_journal.Runtime.Engine.{
  is_stale, is_pending, pending_state, recovered_state, recovery_changed, confirm_if_due,
  begin_pending, accept_baseline, accept_stable, accept_pending, accept_at, accept_locked,
  async_observe, restore_pending, utc_now, load, save, confirm_locked, deadline_callback,
  restore_recovered, recover_row, async_recover, async_deactivate, async_suspend,
}
use hass_geofence_journal.Runtime.Progress.{
  IsQuiet, IsHeld, IsObserved, IsLoaded, Progress, done-Quiet, put_state-Quiet, put_accepting-Quiet,
  cancel_scheduled-Quiet, utc_now-Quiet, delete-Quiet, replace_state-Quiet,
}
use hass_geofence_journal.Runtime.Progress.Confirm.{
  Quiet, Moves, Ready, quiet, ready, utc_now-Ready, save-Ready, put_state-Ready,
  replace_state-Ready, done-Ready, restore_pending-Moves, confirm_locked-Moves,
}

module _ (store : RuntimeStorage) (rule : RuleDefinition) (deps : RuntimeDependencies) where
  open store use {Db}

  -- A call of one method on the engine `e₀`, with what is said of the pending state.
  module _ (Tie : RuntimeStateRecord → Type 0) (e₀ : Engine Db) where
    abbrev Still : Engine Db → Type 0
    Still = Quiet store rule deps Tie e₀

    abbrev Steady : Engine Db → Type 0
    Steady = Ready store rule deps Tie e₀

    abbrev Goes : Engine Db → Type 0
    Goes = Moves store rule deps Tie e₀

    still : {A : Type 0} {m : Action Db A} → Keeps Still m → Leads Still Goes m
    still = quiet store rule deps Tie e₀

    steady : {A : Type 0} {m : Action Db A} → Leads Still Goes m → Leads Steady Goes m
    steady = ready store rule deps Tie e₀

    restore-Goes :
        (fuel : ℕ) (s : RuntimeStateRecord)
        → Leads Steady Goes
            (restore_pending store rule deps (confirm_locked store rule deps fuel) s)
    restore-Goes fuel s =
        restore_pending-Moves store rule deps Tie e₀ (confirm_locked store rule deps fuel)
          (confirm_locked-Moves store rule deps Tie e₀ fuel) s

    begin_pending-Goes :
        (fuel : ℕ) (s : RuntimeStateRecord) (o : EvaluatedObservation)
        → ((now deadline : ℕ) → Tie (pending_state s o now deadline deps.store_coordinates))
        → Leads Still Goes (begin_pending store rule deps fuel s o)
    unfolding begin_pending
    begin_pending-Goes fuel s o tie =
        Leads-bind _ _ (λ e h. inl h) (cancel_scheduled-Quiet store rule deps e₀)
          λ _.
            Leads-bind _ _ (λ e h. inl h) (utc_now-Quiet store rule deps e₀)
              λ now.
                Leads-lift_bind _ _ (λ e h. inl h)
                  λ deadline _.
                    let started = pending_state s o now deadline deps.store_coordinates in
                    Leads-then _ _ (λ e h. inl h.calm)
                      (replace_state-Ready store rule deps Tie e₀ started (tie now deadline))
                      λ _. restore-Goes fuel started

    confirm_if_due-Goes :
        (fuel generation : ℕ) (deadline : Option ℕ)
        → Leads Steady Goes (confirm_if_due store rule deps fuel generation deadline)
    unfolding confirm_if_due
    confirm_if_due-Goes fuel generation none = steady (still (done-Quiet store rule deps e₀))
    confirm_if_due-Goes fuel generation (some deadline) =
        Leads-bind _ _ (λ e h. inl h.calm) (utc_now-Ready store rule deps Tie e₀)
          λ now.
            Leads-if (leb deadline now) _ _
              (λ _. confirm_locked-Moves store rule deps Tie e₀ fuel generation)
              (λ _. steady (still (done-Quiet store rule deps e₀)))

    accept_pending-Goes :
        (fuel : ℕ) (o : EvaluatedObservation) (s : RuntimeStateRecord)
        → ((now : ℕ) → Tie (accepted_state_update s o now deps.store_coordinates false))
        → Leads Still Goes (accept_pending store rule deps fuel s o)
    unfolding accept_pending
    accept_pending-Goes fuel o s tie =
        Leads-bind _ _ (λ e h. inl h) (utc_now-Quiet store rule deps e₀)
          λ now.
            let latest = accepted_state_update s o now deps.store_coordinates false in
            Leads-then _ _ (λ e h. inl h.calm)
              (replace_state-Ready store rule deps Tie e₀ latest (tie now))
              λ _. confirm_if_due-Goes fuel latest.pending_generation latest.pending_deadline

    accept_at-Goes :
        (fuel : ℕ) (o : EvaluatedObservation) (x : Option RuntimeStateRecord)
        → ((s : RuntimeStateRecord) (now : ℕ)
            → x ≡ some s
            → Tie (accepted_state_update s o now deps.store_coordinates false))
        → ((s : RuntimeStateRecord) (now deadline : ℕ)
            → x ≡ some s
            → Tie (pending_state s o now deadline deps.store_coordinates))
        → Leads Still Goes (accept_at store rule deps fuel o x)
    unfolding accept_at accept_baseline accept_stable
    accept_at-Goes fuel o none latest started =
        Leads-if (is_presence o.presence unknown) _ _ (λ _. still (done-Quiet store rule deps e₀))
          λ _. still (
            Keeps-bind _ _ (utc_now-Quiet store rule deps e₀)
              λ now. replace_state-Quiet store rule deps e₀ _)
    accept_at-Goes fuel o (some s) latest started =
        Leads-if (is_stale o s) _ _ (λ _. still (done-Quiet store rule deps e₀))
          λ _.
            Leads-if (is_presence o.presence unknown) _ _
              (λ _. still (done-Quiet store rule deps e₀))
              λ _.
                Leads-if (is_presence o.presence s.presence_state) _ _
                  (λ _. still (
                    Keeps-bind _ _ (cancel_scheduled-Quiet store rule deps e₀) λ _.
                      Keeps-bind _ _ (utc_now-Quiet store rule deps e₀)
                        λ now. replace_state-Quiet store rule deps e₀ _))
                  λ _.
                    Leads-if (is_pending s o.presence) _ _
                      (λ _. accept_pending-Goes fuel o s λ now. latest s now refl)
                      λ _. begin_pending-Goes fuel s o λ now deadline. started s now deadline refl

    restore_recovered-Goes :
        (fuel : ℕ) (s : RuntimeStateRecord) (target : Option PresenceState)
        → Leads Steady Goes (restore_recovered store rule deps fuel s target)
    unfolding restore_recovered
    restore_recovered-Goes fuel s none = steady (still (done-Quiet store rule deps e₀))
    restore_recovered-Goes fuel s (some _) = restore-Goes fuel s

    -- The end of a recovery, with the clock's reading.
    abbrev recover_at : ℕ → RuntimeStateRecord → ℕ → Action Db (Unit {0})
    recover_at fuel s now =
        let next = recovered_state s now in
        do
          put_state (some next)
          (if recovery_changed next s then save store rule deps next else done)
          restore_recovered store rule deps fuel next next.pending_transition

    recover_at-Goes :
        (fuel : ℕ) (s : RuntimeStateRecord) (now : ℕ)
        → Tie (recovered_state s now)
        → Leads Still Goes (recover_at fuel s now)
    recover_at-Goes fuel s now tie =
        let next = recovered_state s now in
        Leads-then _ _ (λ e h. inl h.calm) (put_state-Ready store rule deps Tie e₀ next tie)
          λ _.
            Leads-bind _ _ (λ e h. inl h.calm)
              (Leads-if (recovery_changed next s) _ _ (λ _. save-Ready store rule deps Tie e₀ next)
                (λ _. done-Ready store rule deps Tie e₀))
              λ _. restore_recovered-Goes fuel next next.pending_transition

  same : (e : Engine Db) → IsQuiet store rule deps e e
  same e = record { same_events = refl; same_notified = refl }

  -- The guards of a state and its identity are kept by the updates of an observation.
  IsObserved-latest :
      (e : Engine Db) (o : EvaluatedObservation) (s : RuntimeStateRecord) (now : ℕ)
      → e.state ≡ some s
      → IsObserved store rule deps e (accepted_state_update s o now deps.store_coordinates false)
  unfolding accepted_state_update
  IsObserved-latest e o s now h = (s, h, refl, refl, refl, refl)

  IsObserved-started :
      (e : Engine Db) (o : EvaluatedObservation) (s : RuntimeStateRecord) (now deadline : ℕ)
      → e.state ≡ some s
      → IsObserved store rule deps e (pending_state s o now deadline deps.store_coordinates)
  unfolding pending_state
  IsObserved-started e o s now deadline h = (s, h, refl, refl, refl, refl)

  -- An observation, whether it returns or raises, adds nothing to the journal and tells nobody, or
  -- adds one event and tells the observer of it once. The event is the transition of a pending
  -- state, with the cooldowns, the presence and the last event of the engine's: its deadline has
  -- passed, a fresh re-evaluation gave its target, and no cooldown of its direction runs. Its type
  -- is enter for inside and exit for outside; the observer hears that it is new, its id, and a state
  -- with its id, its type, its presence and the instant of its confirmation.
  pub async_observe-Progress :
      (fuel : ℕ) (x : Outcome EvaluatedObservation) (e : Engine Db)
      → Progress store rule deps
          (IsObserved store rule deps e)
          e
          (async_observe store rule deps fuel x e).1
  unfolding async_observe accept_locked
  async_observe-Progress fuel (ignored _) e = inl (same e)
  async_observe-Progress fuel (accepted o) e = elim (Bool-cases e.accepting) [
    | inl on ↦ simp on (
        (accept_at-Goes (IsObserved store rule deps e) e fuel o e.state (IsObserved-latest e o)
            (IsObserved-started e o)).at
          e (same e))
    | inr off ↦ simp off (inl (same e))
  ]

  -- A deadline callback of any generation, whether it returns or raises, adds nothing to the journal
  -- and tells nobody, or adds one event and tells the observer of it once. The event is the
  -- transition of the state that the engine has, which is due, which the re-evaluation agreed to and
  -- which lies outside its cooldown. Its type is enter for inside and exit for outside; the observer
  -- hears that it is new, its id, and a state with its id, its type, its presence and the instant of
  -- its confirmation.
  pub deadline_callback-Progress :
      (fuel generation : ℕ) (e : Engine Db)
      → Progress store rule deps
          (IsHeld store rule deps e)
          e
          (deadline_callback store rule deps fuel generation e).1
  unfolding deadline_callback
  deadline_callback-Progress fuel generation e = elim (Bool-cases e.accepting) [
    | inl on ↦ simp on (
        (confirm_locked-Moves store rule deps (IsHeld store rule deps e) e fuel generation).at e
          (record { calm = same e; held = λ s h. h }))
    | inr off ↦ simp off (inl (same e))
  ]

  recover_row-Progress :
      (fuel : ℕ) (x : Option RuntimeStateRecord) (e : Engine Db)
      → store.runtime_state e.db rule.rule_id ≡ ok x
      → Progress store rule deps
          (IsLoaded store rule deps e)
          e
          (recover_row store rule deps fuel x (record e { accepting = true })).1
  unfolding recover_row utc_now done
  recover_row-Progress fuel none e h = inl (record { same_events = refl; same_notified = refl })
  recover_row-Progress fuel (some s) e h =
      let read : Engine Db = record e { accepting = true; readings = e.readings + 1 } in
      rw
        (>>=-ok (utc_now store rule deps) (recover_at (IsLoaded store rule deps e) e fuel s)
          (record e { accepting = true }) read (deps.utc_now e.readings) refl)
        ((recover_at-Goes (IsLoaded store rule deps e) e fuel s (deps.utc_now e.readings)
            (s, h, refl)).at
          read (record { same_events = refl; same_notified = refl }))

  recover_enabled-Progress :
      (fuel : ℕ) (e : Engine Db)
      → Progress store rule deps
          (IsLoaded store rule deps e)
          e
          ((load store rule deps >>= recover_row store rule deps fuel)
            (record e { accepting = true })).1
  unfolding load
  recover_enabled-Progress fuel e =
      let on : Engine Db = record e { accepting = true } in
      elim (Result-cases (store.runtime_state e.db rule.rule_id)) [
        | inl (x, read) ↦
            rw
              (>>=-ok (load store rule deps) (recover_row store rule deps fuel) on on x
                (ap (λ r. (r, on)) read))
              (recover_row-Progress fuel x e read)
        | inr (x, failed) ↦
            rw
              (>>=-err (load store rule deps) (recover_row store rule deps fuel) on on x
                (ap (λ r. (r, on)) failed))
              (inl (record { same_events = refl; same_notified = refl }))
      ]

  -- Recovery, whether it returns or raises, adds nothing to the journal and tells nobody, or adds
  -- the one event of the stored pending transition, with the cooldowns taken away that have passed,
  -- which is due, which the re-evaluation agreed to and which lies outside its cooldown, and tells
  -- the observer of it once.
  pub async_recover-Progress :
      (fuel : ℕ) (e : Engine Db)
      → Progress store rule deps
          (IsLoaded store rule deps e)
          e
          (async_recover store rule deps fuel e).1
  unfolding async_recover put_accepting
  async_recover-Progress fuel e = elim (Bool-cases rule.enabled) [
    | inl on ↦ simp on (
        rw
          (>>=-ok (put_accepting true)
            (λ _. load store rule deps >>= recover_row store rule deps fuel) e
            (record e { accepting = true }) tt refl)
          (recover_enabled-Progress fuel e))
    | inr off ↦ simp off (
        inl (
          (Keeps-bind _ _ (put_accepting-Quiet store rule deps e false)
              λ _. delete-Quiet store rule deps e).at
            e (same e)))
  ]

  -- Suspending and deactivating, whether they return or raise, add nothing to the journal and tell
  -- nobody.
  pub shutdown-IsQuiet :
      (e : Engine Db)
      → IsQuiet store rule deps e (async_suspend store rule deps e).1
        × IsQuiet store rule deps e (async_deactivate store rule deps e).1
  unfolding async_suspend async_deactivate
  shutdown-IsQuiet e = (
    (Keeps-bind _ _ (put_accepting-Quiet store rule deps e false)
          λ _. cancel_scheduled-Quiet store rule deps e).at
        e (same e),
    (Keeps-bind _ _ (put_accepting-Quiet store rule deps e false) λ _.
          Keeps-bind _ _ (cancel_scheduled-Quiet store rule deps e) λ _.
            Keeps-bind _ _ (put_state-Quiet store rule deps e none)
              λ _. delete-Quiet store rule deps e).at
        e (same e),
  )
