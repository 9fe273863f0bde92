-- ===== src/Runtime/State.antt =====
-- custom_components/geofence_journal/runtime/state.py and runtime/confirmation.py: how runtime
-- states and confirmed transitions are built.
use hass_geofence_journal.Prelude.{ℕ, Bool, Option, none, some, ltb, if◌then◌else◌}
use hass_geofence_journal.Errors.{Result, ok, err, runtime_invariant, ◌>>=◌}
use hass_geofence_journal.Models.{
  Coordinates, PresenceState, inside, outside, unknown, LocationEventType, enter, exit,
  LocationSource, RuleDefinition, add_seconds,
}
use hass_geofence_journal.Geofence.{EvaluatedObservation}
use hass_geofence_journal.Storage.Records.{RuntimeStateRecord, ConfirmedTransition}

unfoldable pub privacy_coordinates : EvaluatedObservation → Bool → Option Coordinates
privacy_coordinates observation store_coordinates =
    if store_coordinates then some observation.coordinates else none

unfoldable pub baseline_state :
    RuleDefinition → EvaluatedObservation → ℕ → Bool → RuntimeStateRecord
baseline_state rule observation now store_coordinates = record {
  rule_id = rule.rule_id;
  presence_state = observation.presence;
  last_event_id = none;
  last_event_type = none;
  last_event_at = none;
  enter_cooldown_until = none;
  exit_cooldown_until = none;
  pending_transition = none;
  pending_started_at = none;
  pending_deadline = none;
  pending_generation = 0;
  latest_observation_at = some observation.observed_at;
  latest_coordinates = if store_coordinates then some observation.coordinates else none;
  latest_accuracy_m = observation.accuracy_m;
  last_processed_at = some observation.observed_at;
  updated_at = now;
}

unfoldable pub accepted_state_update :
    RuntimeStateRecord → EvaluatedObservation → ℕ → Bool → Bool → RuntimeStateRecord
unfolding privacy_coordinates
accepted_state_update state observation now store_coordinates clear_pending =
    let updated = record state {
      latest_observation_at = some observation.observed_at;
      latest_coordinates = privacy_coordinates observation store_coordinates;
      latest_accuracy_m = observation.accuracy_m;
      last_processed_at = some observation.observed_at;
      updated_at = now;
    } in
    if clear_pending
    then record updated {
      pending_transition = none;
      pending_started_at = none;
      pending_deadline = none;
    }
    else updated

unfoldable pub confirmation_seconds : RuleDefinition → PresenceState → ℕ
confirmation_seconds rule inside = rule.enter_confirmation_seconds
confirmation_seconds rule outside = rule.exit_confirmation_seconds
confirmation_seconds rule unknown = 0

unfoldable pub event_type_for : PresenceState → Result LocationEventType
event_type_for inside = ok enter
event_type_for outside = ok exit
event_type_for unknown = err runtime_invariant

unfoldable pub direction_cooldown : RuntimeStateRecord → PresenceState → Option ℕ
direction_cooldown state inside = state.enter_cooldown_until
direction_cooldown state outside = state.exit_cooldown_until
direction_cooldown state unknown = none

-- The last `replace` of `confirmed_state`: the presence, and no pending work.
abbrev settle : RuntimeStateRecord → PresenceState → ℕ → RuntimeStateRecord
settle state target now = record state {
  presence_state = target;
  pending_transition = none;
  pending_started_at = none;
  pending_deadline = none;
  updated_at = now;
}

-- The cooldown of the direction that was confirmed starts; the other one stays.
start_cooldown : RuntimeStateRecord → PresenceState → ℕ → Result RuntimeStateRecord
start_cooldown state inside cooldown = ok (record state { enter_cooldown_until = some cooldown })
start_cooldown state outside cooldown = ok (record state { exit_cooldown_until = some cooldown })
start_cooldown state unknown cooldown = err runtime_invariant

-- The event data that a confirmation with an event id adds.
unfoldable pub confirmed_state :
    RuntimeStateRecord → PresenceState → ℕ → Option ℕ → RuleDefinition → Result RuntimeStateRecord
unfolding start_cooldown event_type_for add_seconds
confirmed_state state target now none rule = do
  cooldown ← add_seconds now rule.cooldown_seconds
  ok (settle state target now)
confirmed_state state target now (some event_id) rule = do
  event_type ← event_type_for target
  cooldown ← add_seconds now rule.cooldown_seconds
  cooled ← start_cooldown state target cooldown
  ok (record (settle cooled target now) {
    last_event_id = some event_id;
    last_event_type = some event_type;
    last_event_at = some now;
  })

unfoldable pub active_deadline : Option ℕ → ℕ → Option ℕ
active_deadline none now = none
active_deadline (some deadline) now = if ltb now deadline then some deadline else none

-- The fields that `build_confirmed_transition` needs: target, start and deadline.
pub record Pending : Type 0 where
  pub target : PresenceState
  pub started : ℕ
  pub deadline : ℕ

complete : Option PresenceState → Option ℕ → Option ℕ → Option Pending
complete (some target) (some started) (some deadline) =
    some (record { target = target; started = started; deadline = deadline })
complete _ _ _ = none

-- The pending transition, if all three of its fields are there.
unfoldable pub pending : RuntimeStateRecord → Option Pending
unfolding complete
pending state = complete state.pending_transition state.pending_started_at state.pending_deadline

-- `event_id` is what `dependencies.event_ids.next_id()` returned.
unfoldable pub transition_of :
    RuleDefinition
    → LocationSource
    → RuntimeStateRecord
    → Pending
    → ℕ
    → ℕ
    → ℕ
    → Result (RuntimeStateRecord × ConfirmedTransition)
unfolding confirmed_state event_type_for
transition_of rule source state found now generation event_id = do
  confirmed ← confirmed_state state found.target now (some event_id) rule
  event_type ← event_type_for found.target
  ok (
    confirmed,
    record {
      event_id = event_id;
      rule_id = rule.rule_id;
      tracker_id = rule.tracker_id;
      place_id = rule.place_id;
      journal_id = rule.journal_id;
      event_type = event_type;
      source = source;
      target_state = found.target;
      occurred_at = found.started;
      confirmed_at = now;
      generation = generation;
      confirmed_deadline = found.deadline;
      coordinates = state.latest_coordinates;
      accuracy_m = state.latest_accuracy_m;
      runtime_state = some confirmed;
    },
  )

unfoldable pub build_confirmed_transition :
    RuleDefinition
    → LocationSource
    → RuntimeStateRecord
    → ℕ
    → ℕ
    → ℕ
    → Result (RuntimeStateRecord × ConfirmedTransition)
unfolding pending transition_of
build_confirmed_transition rule source state now generation event_id = elim (pending state) [
  | none ↦ err runtime_invariant
  | some found ↦ transition_of rule source state found now generation event_id
]
