-- ===== src/Storage/Transitions.antt =====
-- storage/transitions.py: one event and its runtime row in one transaction.
pub mod Atomicity
use hass_geofence_journal.Prelude.{
  Bool, true, false, Option, none, some, [], ◌∷◌, ◌++◌, if◌then◌else◌,
}
use hass_geofence_journal.Errors.{Error, sqlite, injected_fault}
use hass_geofence_journal.Models.{EventStatus}
use hass_geofence_journal.Storage.Records.{
  RuntimeStateRecord, TransitionResult, ConfirmedTransition, EventRow, latitude_of, longitude_of,
}
use hass_geofence_journal.Storage.Tables.{
  Tables, RuntimeRow, real, find, find_transition, event_row_ok,
}
use hass_geofence_journal.Storage.Sql.{Sql, pure, raise, ◌>>=◌, ◌>>◌, write, query, transaction}
use hass_geofence_journal.Storage.RuntimeState.{put_runtime_row, write_runtime_state_row}

-- The row that `confirm_transition` inserts, as SQLite stores it.
unfoldable pub transition_event : ConfirmedTransition → EventRow
transition_event t = record {
  id = t.event_id;
  journal_id = t.journal_id;
  rule_id = some t.rule_id;
  tracker_id = t.tracker_id;
  place_id = t.place_id;
  event_type = t.event_type;
  occurred_at = t.occurred_at;
  confirmed_at = t.confirmed_at;
  latitude = real (latitude_of t.coordinates);
  longitude = real (longitude_of t.coordinates);
  accuracy_m = real t.accuracy_m;
  source = t.source;
  status = EventStatus.confirmed;
  note = none;
  original_event_id = none;
  transition_generation = some t.generation;
  confirmed_deadline = some t.confirmed_deadline;
  created_at = t.confirmed_at;
  updated_at = t.confirmed_at;
}

-- INSERT INTO location_events
unfoldable pub insert_event : EventRow → Tables → Option Tables
insert_event row tables =
    if event_row_ok tables row
    then some (record tables { events = tables.events ++ row ∷ [] })
    else none

-- The upsert without a runtime state: a new row has no more than these columns, an old one keeps
-- the others, its generation too.
unfoldable pub partial_row : ConfirmedTransition → Option RuntimeRow → RuntimeRow
partial_row t none = record {
  rule_id = t.rule_id;
  presence_state = t.target_state;
  last_event_id = some t.event_id;
  last_event_type = some t.event_type;
  last_event_at = some t.confirmed_at;
  enter_cooldown_until = none;
  exit_cooldown_until = none;
  pending_transition = none;
  pending_started_at = none;
  pending_deadline = none;
  pending_generation = some t.generation;
  latest_observation_at = none;
  latest_latitude = none;
  latest_longitude = none;
  latest_accuracy_m = none;
  last_processed_at = none;
  updated_at = t.confirmed_at;
}
partial_row t (some row) = record row {
  presence_state = t.target_state;
  last_event_id = some t.event_id;
  last_event_type = some t.event_type;
  last_event_at = some t.confirmed_at;
  updated_at = t.confirmed_at;
}

unfoldable pub write_partial : ConfirmedTransition → Sql (Unit {0})
unfolding partial_row put_runtime_row
write_partial t = write λ tables.
    put_runtime_row
      (partial_row t (find (λ (r : RuntimeRow). r.rule_id) t.rule_id tables.runtime_states)) tables

unfoldable pub write_runtime : ConfirmedTransition → Option RuntimeStateRecord → Sql (Unit {0})
unfolding write_partial write_runtime_state_row
write_runtime t none = write_partial t
write_runtime t (some state) = write_runtime_state_row state

-- `except InjectedStorageFaultError, sqlite3.Error`
abbrev pub is_fault : Error → Bool
is_fault sqlite = true
is_fault injected_fault = true
is_fault _ = false

-- `if fail_after_event_insert: _raise_injected_fault()`
unfoldable pub inject_fault : Bool → Sql (Unit {0})
inject_fault true = raise injected_fault
inject_fault false = pure tt

-- The part of `confirm_transition` under `try`.
unfoldable pub transition_body : ConfirmedTransition → Bool → Sql (Unit {0})
unfolding insert_event inject_fault write_runtime
transition_body t fail_after_event_insert = do
  write (insert_event (transition_event t))
  inject_fault fail_after_event_insert
  write_runtime t t.runtime_state

-- After the lookup of the same rule, generation and deadline.
unfoldable pub confirm_unless : ConfirmedTransition → Bool → Option EventRow → Sql TransitionResult
unfolding transition_body
confirm_unless t fail (some existing) = pure (record { event_id = existing.id; created = false })
confirm_unless t fail none = do
  transaction is_fault (transition_body t fail)
  pure (record { event_id = t.event_id; created = true })

unfoldable pub confirm_transition : ConfirmedTransition → Bool → Sql TransitionResult
unfolding confirm_unless
confirm_transition t fail = do
  existing ←
      query (λ tables. find_transition t.rule_id t.generation t.confirmed_deadline tables.events)
  confirm_unless t fail existing
