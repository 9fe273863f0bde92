-- ===== src/Storage/RuntimeState.antt =====
-- storage/runtime_state.py: the runtime row of a rule.
pub mod RoundTrip
use hass_geofence_journal.Prelude.{
  ℕ, Bool, true, false, not, ◌||◌, Option, none, some, if◌then◌else◌,
}
use hass_geofence_journal.Errors.{Error, Result, ok, err, sqlite, database_schema}
use hass_geofence_journal.Errors
use hass_geofence_journal.Float.{Float, isfinite, lt_float, of_ℕ}
use hass_geofence_journal.Models.{Coordinates}
use hass_geofence_journal.Storage.Records.{RuntimeStateRecord, latitude_of, longitude_of}
use hass_geofence_journal.Storage.Tables.{
  Tables, RuntimeRow, real, find, upsert, remove, runtime_row_ok, latitude_ok, longitude_ok,
}
use hass_geofence_journal.Storage.Sql.{Sql, lift, ◌>>=◌, ◌>>◌, write, query, transaction}

-- `except sqlite3.Error`
abbrev pub is_sqlite : Error → Bool
is_sqlite sqlite = true
is_sqlite _ = false

-- The parameters of the upsert, as SQLite stores them.
unfoldable pub runtime_row : RuntimeStateRecord → RuntimeRow
runtime_row state = record {
  rule_id = state.rule_id;
  presence_state = state.presence_state;
  last_event_id = state.last_event_id;
  last_event_type = state.last_event_type;
  last_event_at = state.last_event_at;
  enter_cooldown_until = state.enter_cooldown_until;
  exit_cooldown_until = state.exit_cooldown_until;
  pending_transition = state.pending_transition;
  pending_started_at = state.pending_started_at;
  pending_deadline = state.pending_deadline;
  pending_generation = some state.pending_generation;
  latest_observation_at = state.latest_observation_at;
  latest_latitude = real (latitude_of state.latest_coordinates);
  latest_longitude = real (longitude_of state.latest_coordinates);
  latest_accuracy_m = real state.latest_accuracy_m;
  last_processed_at = state.last_processed_at;
  updated_at = state.updated_at;
}

-- The upsert keyed by rule_id.
unfoldable pub put_runtime_row : RuntimeRow → Tables → Option Tables
put_runtime_row row tables =
    if runtime_row_ok tables row
    then some (record tables {
      runtime_states = upsert (λ (r : RuntimeRow). r.rule_id) row tables.runtime_states;
    })
    else none

unfoldable pub write_runtime_state_row : RuntimeStateRecord → Sql (Unit {0})
unfolding put_runtime_row
write_runtime_state_row state = write (put_runtime_row (runtime_row state))

unfoldable pub save_runtime_state : RuntimeStateRecord → Sql (Unit {0})
unfolding write_runtime_state_row
save_runtime_state state = transaction is_sqlite (write_runtime_state_row state)

-- `_optional_meters`
unfoldable pub optional_meters : Option Float → Result (Option Float)
optional_meters none = ok none
optional_meters (some number) = if isfinite number then ok (some number) else err database_schema

-- The last tests of `_optional_coordinates`.
unfoldable pub join_coordinates : Option Float → Option Float → Result (Option Coordinates)
join_coordinates none none = ok none
join_coordinates (some latitude) (some longitude) =
    if not (latitude_ok latitude) || not (longitude_ok longitude)
    then err database_schema
    else ok (some (record { latitude = latitude; longitude = longitude }))
join_coordinates _ _ = err database_schema

-- `_optional_coordinates`
unfoldable pub optional_coordinates : Option Float → Option Float → Result (Option Coordinates)
unfolding optional_meters join_coordinates
optional_coordinates latitude longitude = Errors.◌>>=◌ (optional_meters latitude) λ parsed_latitude.
    Errors.◌>>=◌ (optional_meters longitude)
      λ parsed_longitude. join_coordinates parsed_latitude parsed_longitude

-- `accuracy is not None and accuracy < 0`
check_accuracy : Option Float → Result (Option Float)
check_accuracy none = ok none
check_accuracy (some accuracy) =
    if lt_float accuracy (of_ℕ 0) then err database_schema else ok (some accuracy)

-- `_optional_accuracy`
unfoldable pub optional_accuracy : Option Float → Result (Option Float)
unfolding optional_meters check_accuracy
optional_accuracy value = Errors.◌>>=◌ (optional_meters value) check_accuracy

-- The record that `load_runtime_state` makes of a row.
unfoldable pub decode : RuntimeRow → Result RuntimeStateRecord
unfolding optional_coordinates optional_accuracy
decode row =
    Errors.◌>>=◌ (optional_coordinates row.latest_latitude row.latest_longitude) λ coordinates.
      Errors.◌>>=◌ (optional_accuracy row.latest_accuracy_m) λ accuracy. ok (record {
        rule_id = row.rule_id;
        presence_state = row.presence_state;
        last_event_id = row.last_event_id;
        last_event_type = row.last_event_type;
        last_event_at = row.last_event_at;
        enter_cooldown_until = row.enter_cooldown_until;
        exit_cooldown_until = row.exit_cooldown_until;
        pending_transition = row.pending_transition;
        pending_started_at = row.pending_started_at;
        pending_deadline = row.pending_deadline;
        pending_generation = elim row.pending_generation [ none ↦ 0 | some g ↦ g ];
        latest_observation_at = row.latest_observation_at;
        latest_coordinates = coordinates;
        latest_accuracy_m = accuracy;
        last_processed_at = row.last_processed_at;
        updated_at = row.updated_at;
      })

-- `None` for no row, and the decoded record.
unfoldable pub decode_row : Option RuntimeRow → Result (Option RuntimeStateRecord)
unfolding decode
decode_row none = ok none
decode_row (some row) = Errors.◌>>=◌ (decode row) λ state. ok (some state)

unfoldable pub load_runtime_state : ℕ → Sql (Option RuntimeStateRecord)
unfolding decode_row
load_runtime_state rule_id = do
  row ← query (λ t. find (λ (r : RuntimeRow). r.rule_id) rule_id t.runtime_states)
  lift (decode_row row)

unfoldable pub delete_runtime_state : ℕ → Sql (Unit {0})
delete_runtime_state rule_id = transaction is_sqlite (
    write λ t. some (record t {
      runtime_states = remove (λ (r : RuntimeRow). r.rule_id) rule_id t.runtime_states;
    }))
