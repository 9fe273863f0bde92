-- ===== src/Runtime/Engine.antt =====
-- custom_components/geofence_journal/runtime/engine.py: RuleTransitionEngine. A method is an action
-- on the engine, its storage and its timers. The lock makes each method one step.
mod States
mod Confirmation
unfoldable pub use States.{
  is_stale, is_pending, in_cooldown, pending_state, cancelled_state, recovered_state,
  recovery_changed,
}
unfoldable pub use Confirmation.{
  utc_now, next_id, load, save, delete, commit, replace_state, restore_at, restore_pending, adopt,
  record_transition, settle_agreed, settle_due, confirm_pending, confirm_at, confirm_locked,
}
use hass_geofence_journal.Prelude.{
  ℕ, zero, suc, ◌+◌, ◌-◌, Bool, true, false, not, ◌&&◌, Option, none, some, ltb, leb, ◌==◌,
  if◌then◌else◌,
}
use hass_geofence_journal.Errors.{ok, err, runtime_invariant, out_of_fuel}
use hass_geofence_journal.Models.{PresenceState, unknown, is_presence, RuleDefinition, add_seconds}
use hass_geofence_journal.Location.{Outcome, accepted, ignored}
use hass_geofence_journal.Geofence.{EvaluatedObservation}
use hass_geofence_journal.Storage.Records.{
  RuntimeStateRecord, TransitionResult, ConfirmedTransition,
}
use hass_geofence_journal.Runtime.State.{
  privacy_coordinates, baseline_state, accepted_state_update, confirmation_seconds,
  direction_cooldown, confirmed_state, active_deadline, Pending, pending,
  build_confirmed_transition,
}
use hass_geofence_journal.Runtime.Contracts.{RuntimeStorage, RuntimeDependencies}
use hass_geofence_journal.Runtime.Action.{
  Action, raise, lift, ◌>>=◌, ◌>>◌, done, put_state, put_accepting, forget_scheduled,
  cancel_scheduled, schedule, on_transition,
}

module _ (store : RuntimeStorage) (rule : RuleDefinition) (deps : RuntimeDependencies) where
  open store use {Db}

  -- `_begin_pending_locked`
  unfoldable pub begin_pending :
      ℕ → RuntimeStateRecord → EvaluatedObservation → Action Db (Unit {0})
  unfolding restore_pending
  begin_pending fuel state observation = do
    cancel_scheduled
    now ← utc_now store rule deps
    deadline ← lift (add_seconds now (confirmation_seconds rule observation.presence))
    let started = pending_state state observation now deadline deps.store_coordinates
    replace_state store rule deps started
    restore_pending store rule deps (confirm_locked store rule deps fuel) started

  -- A sample on the side that is confirmed.
  unfoldable pub accept_stable : RuntimeStateRecord → EvaluatedObservation → Action Db (Unit {0})
  accept_stable state observation = do
    cancel_scheduled
    now ← utc_now store rule deps
    replace_state store rule deps
        (accepted_state_update state observation now deps.store_coordinates true)

  -- `deadline is not None and utc_now() >= deadline`, and the confirmation then.
  unfoldable pub confirm_if_due : ℕ → ℕ → Option ℕ → Action Db (Unit {0})
  confirm_if_due fuel generation none = done
  confirm_if_due fuel generation (some deadline) = do
    now ← utc_now store rule deps
    if leb deadline now then confirm_locked store rule deps fuel generation else done

  -- A sample that agrees with the pending target.
  unfoldable pub accept_pending :
      ℕ → RuntimeStateRecord → EvaluatedObservation → Action Db (Unit {0})
  unfolding confirm_if_due
  accept_pending fuel state observation = do
    now ← utc_now store rule deps
    let latest = accepted_state_update state observation now deps.store_coordinates false
    replace_state store rule deps latest
    confirm_if_due fuel latest.pending_generation latest.pending_deadline

  -- The first sample of a rule without a state.
  unfoldable pub accept_baseline : EvaluatedObservation → Action Db (Unit {0})
  accept_baseline observation = if is_presence observation.presence unknown then done else do
    now ← utc_now store rule deps
    replace_state store rule deps (baseline_state rule observation now deps.store_coordinates)

  -- `_accept_locked`, by the engine's state.
  unfoldable pub accept_at :
      ℕ → EvaluatedObservation → Option RuntimeStateRecord → Action Db (Unit {0})
  unfolding accept_baseline accept_stable accept_pending begin_pending
  accept_at fuel observation none = accept_baseline observation
  accept_at fuel observation (some state) =
      if is_stale observation state
      then done
      else if is_presence observation.presence unknown
      then done
      else if is_presence observation.presence state.presence_state
      then accept_stable state observation
      else if is_pending state observation.presence
      then accept_pending fuel state observation
      else begin_pending fuel state observation

  unfoldable pub accept_locked : ℕ → EvaluatedObservation → Action Db (Unit {0})
  unfolding accept_at
  accept_locked fuel observation e = accept_at fuel observation e.state e

  unfoldable pub async_observe : ℕ → Outcome EvaluatedObservation → Action Db (Unit {0})
  unfolding accept_locked
  async_observe fuel (ignored _) e = (ok tt, e)
  async_observe fuel (accepted observation) e =
      if e.accepting then accept_locked fuel observation e else (ok tt, e)

  -- `_deadline_callback`, what a scheduled call runs.
  unfoldable pub deadline_callback : ℕ → ℕ → Action Db (Unit {0})
  unfolding confirm_locked
  deadline_callback fuel generation e =
      if e.accepting then confirm_locked store rule deps fuel generation e else (ok tt, e)

  unfoldable pub restore_recovered :
      ℕ → RuntimeStateRecord → Option PresenceState → Action Db (Unit {0})
  unfolding restore_pending
  restore_recovered fuel recovered none = done
  restore_recovered fuel recovered (some _) =
      restore_pending store rule deps (confirm_locked store rule deps fuel) recovered

  -- The end of `async_recover`, with the row that was loaded.
  unfoldable pub recover_row : ℕ → Option RuntimeStateRecord → Action Db (Unit {0})
  unfolding restore_recovered
  recover_row fuel none = done
  recover_row fuel (some state) = do
    now ← utc_now store rule deps
    let recovered = recovered_state state now
    put_state (some recovered)
    (if recovery_changed recovered state then save store rule deps recovered else done)
    restore_recovered fuel recovered recovered.pending_transition

  unfoldable pub async_recover : ℕ → Action Db (Unit {0})
  unfolding recover_row
  async_recover fuel =
      if rule.enabled
      then (do put_accepting true; state ← load store rule deps; recover_row fuel state)
      else (do put_accepting false; delete store rule deps)

  unfoldable pub async_deactivate : Action Db (Unit {0})
  async_deactivate = do
    put_accepting false
    cancel_scheduled
    put_state none
    delete store rule deps

  unfoldable pub async_suspend : Action Db (Unit {0})
  async_suspend = do put_accepting false; cancel_scheduled
