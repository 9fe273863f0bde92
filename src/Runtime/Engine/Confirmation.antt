-- ===== src/Runtime/Engine/Confirmation.antt =====
-- runtime/engine.py: `_restore_pending_locked` and `_confirm_locked`, and the calls they make.
use hass_geofence_journal.Prelude.{
  ℕ, zero, suc, ◌+◌, ◌-◌, not, Option, none, some, ltb, leb, ◌==◌, if◌then◌else◌,
}
use hass_geofence_journal.Errors.{ok, err, runtime_invariant, out_of_fuel}
use hass_geofence_journal.Models.{PresenceState, is_presence, RuleDefinition}
use hass_geofence_journal.Storage.Records.{
  RuntimeStateRecord, TransitionResult, ConfirmedTransition,
}
use hass_geofence_journal.Runtime.State.{
  direction_cooldown, confirmed_state, Pending, pending, build_confirmed_transition,
}
use hass_geofence_journal.Runtime.Contracts.{RuntimeStorage, RuntimeDependencies}
use hass_geofence_journal.Runtime.Action.{
  Action, raise, lift, ◌>>=◌, ◌>>◌, done, put_state, forget_scheduled, schedule, on_transition,
}
use hass_geofence_journal.Runtime.Engine.States.{in_cooldown, cancelled_state}

module _ (store : RuntimeStorage) (rule : RuleDefinition) (deps : RuntimeDependencies) where
  open store use {Db}

  unfoldable pub utc_now : Action Db ℕ
  utc_now e = (ok (deps.utc_now e.readings), record e { readings = e.readings + 1 })

  unfoldable pub next_id : Action Db ℕ
  next_id e = (ok (deps.next_id e.ids), record e { ids = e.ids + 1 })

  unfoldable pub load : Action Db (Option RuntimeStateRecord)
  load e = (store.runtime_state e.db rule.rule_id, e)

  unfoldable pub save : RuntimeStateRecord → Action Db (Unit {0})
  save s e = elim (store.save_runtime_state e.db s) [
    | ok d ↦ (ok tt, record e { db = d })
    | err x ↦ (err x, e)
  ]

  unfoldable pub delete : Action Db (Unit {0})
  delete e = elim (store.delete_runtime_state e.db rule.rule_id) [
    | ok d ↦ (ok tt, record e { db = d })
    | err x ↦ (err x, e)
  ]

  unfoldable pub commit : ConfirmedTransition → Action Db TransitionResult
  commit t e = elim (store.confirm_transition e.db t) [
    | ok (result, d) ↦ (ok result, record e { db = d })
    | err x ↦ (err x, e)
  ]

  -- `self._state = s` and then the save.
  unfoldable pub replace_state : RuntimeStateRecord → Action Db (Unit {0})
  replace_state s = do put_state (some s); save s

  -- `_restore_pending_locked` by the pending deadline; `confirm` is `_confirm_locked`.
  unfoldable pub restore_at : (ℕ → Action Db (Unit {0})) → ℕ → Option ℕ → Action Db (Unit {0})
  restore_at confirm generation none = done
  restore_at confirm generation (some deadline) = do
    now ← utc_now
    if leb deadline now then confirm generation else schedule (deadline - now) generation

  unfoldable pub restore_pending :
      (ℕ → Action Db (Unit {0})) → RuntimeStateRecord → Action Db (Unit {0})
  unfolding restore_at
  restore_pending confirm state = restore_at confirm state.pending_generation state.pending_deadline

  -- After a duplicate: the committed state is read again.
  unfoldable pub adopt : Option RuntimeStateRecord → Action Db (Unit {0})
  adopt none = raise runtime_invariant
  adopt (some persisted) = put_state (some persisted)

  -- From `build_confirmed_transition` to the end of `_confirm_locked`.
  unfoldable pub record_transition : RuntimeStateRecord → ℕ → ℕ → Action Db (Unit {0})
  unfolding adopt
  record_transition state now generation = do
    event_id ← next_id
    (confirmed, transition) ←
        lift (build_confirmed_transition rule deps.source state now generation event_id)
    result ← commit transition
    if result.created
        then (do put_state (some confirmed); on_transition result confirmed; forget_scheduled)
        else (do persisted ← load; adopt persisted; forget_scheduled)

  -- The target still holds: within its cooldown the presence is corrected without an event.
  unfoldable pub settle_agreed : RuntimeStateRecord → PresenceState → ℕ → ℕ → Action Db (Unit {0})
  unfolding record_transition
  settle_agreed state target now generation =
      if in_cooldown (direction_cooldown state target) now
      then (do
        corrected ← lift (confirmed_state state target now none rule)
        replace_state corrected)
      else record_transition state now generation

  -- `_confirm_locked` once the deadline has passed, with what the re-evaluation returned.
  unfoldable pub settle_due :
      RuntimeStateRecord → PresenceState → ℕ → ℕ → Option PresenceState → Action Db (Unit {0})
  unfolding settle_agreed
  settle_due state target now generation none = forget_scheduled
  settle_due state target now generation (some reevaluated) =
      if not (is_presence reevaluated target)
      then (do replace_state (cancelled_state state now); forget_scheduled)
      else settle_agreed state target now generation

  -- `_confirm_locked` at a state whose generation is the one of the callback.
  unfoldable pub confirm_pending :
      (ℕ → Action Db (Unit {0})) → RuntimeStateRecord → ℕ → Option Pending → Action Db (Unit {0})
  unfolding settle_due
  confirm_pending confirm state generation none = done
  confirm_pending confirm state generation (some found) = do
    now ← utc_now
    if ltb now found.deadline
        then restore_pending confirm state
        else settle_due state found.target now generation (deps.async_evaluate state)

  -- `_confirm_locked` at the engine's state.
  unfoldable pub confirm_at :
      (ℕ → Action Db (Unit {0})) → ℕ → Option RuntimeStateRecord → Action Db (Unit {0})
  unfolding confirm_pending
  confirm_at confirm generation none = done
  confirm_at confirm generation (some state) =
      if state.pending_generation == generation
      then confirm_pending confirm state generation (pending state)
      else done

  -- `_confirm_locked`. It and `_restore_pending_locked` call one another: that takes fuel.
  unfoldable pub confirm_locked : ℕ → ℕ → Action Db (Unit {0})
  unfolding confirm_at
  confirm_locked zero generation e = (err out_of_fuel, e)
  confirm_locked (suc fuel) generation e = confirm_at (confirm_locked fuel) generation e.state e
