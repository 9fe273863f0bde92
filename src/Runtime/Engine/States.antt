-- ===== src/Runtime/Engine/States.antt =====
-- The tests of runtime/engine.py on runtime states, and its `replace` calls.
use hass_geofence_journal.Prelude.{
  ℕ, ◌+◌, Bool, true, false, not, ◌&&◌, Option, none, some, ltb, ◌==◌,
}
use hass_geofence_journal.Models.{PresenceState, is_presence}
use hass_geofence_journal.Geofence.{EvaluatedObservation}
use hass_geofence_journal.Storage.Records.{RuntimeStateRecord}
use hass_geofence_journal.Runtime.State.{privacy_coordinates, active_deadline}

-- `observation.observed_at < state.last_processed_at`, where that is known.
unfoldable pub is_stale : EvaluatedObservation → RuntimeStateRecord → Bool
is_stale observation state = elim state.last_processed_at [
  | none ↦ false
  | some last ↦ ltb observation.observed_at last
]

-- `state.pending_transition is target`
unfoldable pub is_pending : RuntimeStateRecord → PresenceState → Bool
is_pending state target = elim state.pending_transition [
  | none ↦ false
  | some p ↦ is_presence p target
]

-- `cooldown is not None and now < cooldown`
unfoldable pub in_cooldown : Option ℕ → ℕ → Bool
in_cooldown none now = false
in_cooldown (some cooldown) now = ltb now cooldown

-- The `replace` of `_begin_pending_locked`.
unfoldable pub pending_state :
    RuntimeStateRecord → EvaluatedObservation → ℕ → ℕ → Bool → RuntimeStateRecord
unfolding privacy_coordinates
pending_state state observation now deadline store_coordinates = record state {
  pending_transition = some observation.presence;
  pending_started_at = some now;
  pending_deadline = some deadline;
  pending_generation = state.pending_generation + 1;
  latest_observation_at = some observation.observed_at;
  latest_coordinates = privacy_coordinates observation store_coordinates;
  latest_accuracy_m = observation.accuracy_m;
  last_processed_at = some observation.observed_at;
  updated_at = now;
}

-- The `replace` of `_confirm_locked` for a target that no longer holds.
unfoldable pub cancelled_state : RuntimeStateRecord → ℕ → RuntimeStateRecord
cancelled_state state now = record state {
  pending_transition = none;
  pending_started_at = none;
  pending_deadline = none;
  updated_at = now;
}

-- The `replace` of `async_recover`.
unfoldable pub recovered_state : RuntimeStateRecord → ℕ → RuntimeStateRecord
unfolding active_deadline
recovered_state state now = record state {
  enter_cooldown_until = active_deadline state.enter_cooldown_until now;
  exit_cooldown_until = active_deadline state.exit_cooldown_until now;
  updated_at = now;
}

eq_option : Option ℕ → Option ℕ → Bool
eq_option none none = true
eq_option (some a) (some b) = a == b
eq_option _ _ = false

-- `recovered != state`: the other fields are the same.
unfoldable pub recovery_changed : RuntimeStateRecord → RuntimeStateRecord → Bool
unfolding eq_option
recovery_changed recovered state = not (
    eq_option recovered.enter_cooldown_until state.enter_cooldown_until
    && eq_option recovered.exit_cooldown_until state.exit_cooldown_until
    && (recovered.updated_at == state.updated_at))
