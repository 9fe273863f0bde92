-- ===== src/Runtime/Fuel/Methods.antt =====
-- runtime/engine.py: two nested confirmations are enough for every method.
use hass_geofence_journal.Prelude.{
  ℕ, suc, ◌≡◌, refl, sym, ◌∙◌, Option, none, some, if◌then◌else◌, Bool-cases, inl, inr,
}
use hass_geofence_journal.Models.{PresenceState, unknown, is_presence, RuleDefinition}
use hass_geofence_journal.Location.{Outcome, accepted, ignored}
use hass_geofence_journal.Geofence.{EvaluatedObservation}
use hass_geofence_journal.Storage.Records.{RuntimeStateRecord}
use hass_geofence_journal.Runtime.Contracts.{RuntimeStorage, RuntimeDependencies}
use hass_geofence_journal.Runtime.Action.{Engine, Action, done}
use hass_geofence_journal.Runtime.Engine.{
  is_stale, is_pending, accept_stable, confirm_locked, begin_pending, confirm_if_due,
  accept_pending, accept_at, accept_locked, async_observe, deadline_callback, restore_recovered,
  recover_row, async_recover,
}
use hass_geofence_journal.Runtime.Fuel.{Monotone, confirm_locked-nested}

module _ (store : RuntimeStorage) (rule : RuleDefinition) (deps : RuntimeDependencies) where
  module _ (mono : Monotone deps) (k : ℕ) where
    open store use {Db}

    abbrev fuel : ℕ
    fuel = suc (suc k)

    confirm_same : confirm_locked store rule deps fuel ≡ confirm_locked store rule deps 2
    confirm_same = λ i n e.
        (confirm_locked-nested store rule deps inner k n e mono
            ∙ sym (confirm_locked-nested store rule deps inner 0 n e mono))
          i
      where
        inner : ℕ → Action Db (Unit {0})
        inner = confirm_locked store rule deps 0

    confirm_if_due_at :
        (n : ℕ) (d : Option ℕ)
        → confirm_if_due store rule deps fuel n d ≡ confirm_if_due store rule deps 2 n d
    unfolding confirm_if_due
    confirm_if_due_at n none = refl
    confirm_if_due_at n (some d) = rw confirm_same refl

    confirm_if_due_same : confirm_if_due store rule deps fuel ≡ confirm_if_due store rule deps 2
    confirm_if_due_same = λ i n d. confirm_if_due_at n d i

    begin_pending_at :
        (s : RuntimeStateRecord) (o : EvaluatedObservation)
        → begin_pending store rule deps fuel s o ≡ begin_pending store rule deps 2 s o
    unfolding begin_pending
    begin_pending_at s o = rw confirm_same refl

    begin_pending_same : begin_pending store rule deps fuel ≡ begin_pending store rule deps 2
    begin_pending_same = λ i s o. begin_pending_at s o i

    accept_pending_at :
        (s : RuntimeStateRecord) (o : EvaluatedObservation)
        → accept_pending store rule deps fuel s o ≡ accept_pending store rule deps 2 s o
    unfolding accept_pending
    accept_pending_at s o = rw confirm_if_due_same refl

    accept_pending_same : accept_pending store rule deps fuel ≡ accept_pending store rule deps 2
    accept_pending_same = λ i s o. accept_pending_at s o i

    accept_at_same :
        (o : EvaluatedObservation) (s : Option RuntimeStateRecord)
        → accept_at store rule deps fuel o s ≡ accept_at store rule deps 2 o s
    unfolding accept_at
    accept_at_same o none = refl
    accept_at_same o (some s) = λ i.
        if is_stale o s
        then done
        else if is_presence o.presence unknown
        then done
        else if is_presence o.presence s.presence_state
        then accept_stable store rule deps s o
        else if is_pending s o.presence
        then accept_pending_same i s o
        else begin_pending_same i s o

    restore_recovered_at :
        (s : RuntimeStateRecord) (p : Option PresenceState)
        → restore_recovered store rule deps fuel s p ≡ restore_recovered store rule deps 2 s p
    unfolding restore_recovered
    restore_recovered_at s none = refl
    restore_recovered_at s (some p) = rw confirm_same refl

    restore_recovered_same :
        restore_recovered store rule deps fuel ≡ restore_recovered store rule deps 2
    restore_recovered_same = λ i s p. restore_recovered_at s p i

    recover_row_at :
        (s : Option RuntimeStateRecord)
        → recover_row store rule deps fuel s ≡ recover_row store rule deps 2 s
    unfolding recover_row
    recover_row_at none = refl
    recover_row_at (some s) = rw restore_recovered_same refl

    recover_row_same : recover_row store rule deps fuel ≡ recover_row store rule deps 2
    recover_row_same = λ i s. recover_row_at s i

    async_observe_at :
        (x : Outcome EvaluatedObservation) (e : Engine Db)
        → async_observe store rule deps fuel x e ≡ async_observe store rule deps 2 x e
    unfolding async_observe accept_locked
    async_observe_at (ignored x) e = refl
    async_observe_at (accepted o) e = elim (Bool-cases e.accepting) [
      | inl on ↦ simp on (λ i. accept_at_same o e.state i e)
      | inr off ↦ simp off refl
    ]

    deadline_callback_at :
        (n : ℕ) (e : Engine Db)
        → deadline_callback store rule deps fuel n e ≡ deadline_callback store rule deps 2 n e
    unfolding deadline_callback
    deadline_callback_at n e = elim (Bool-cases e.accepting) [
      | inl on ↦ simp on (λ i. confirm_same i n e)
      | inr off ↦ simp off refl
    ]

    async_recover_at :
        (e : Engine Db) → async_recover store rule deps fuel e ≡ async_recover store rule deps 2 e
    unfolding async_recover
    async_recover_at e = elim (Bool-cases rule.enabled) [
      | inl on ↦ simp on (rw recover_row_same refl)
      | inr off ↦ simp off refl
    ]

    -- With a clock that does not go back during the call, fuel for two nested confirmations is enough
    -- for every method: more fuel gives the same result and the same engine.
    pub methods_enough :
        (x : Outcome EvaluatedObservation) (n : ℕ) (e : Engine Db)
        → (async_observe store rule deps fuel x e ≡ async_observe store rule deps 2 x e)
          × (deadline_callback store rule deps fuel n e ≡ deadline_callback store rule deps 2 n e)
          × (async_recover store rule deps fuel e ≡ async_recover store rule deps 2 e)
    methods_enough x n e = (async_observe_at x e, deadline_callback_at n e, async_recover_at e)
