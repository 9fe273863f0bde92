-- ===== src/Tests/Data.antt =====
-- A tracker, a place, a journal and a rule that joins them, in a new database.
use hass_geofence_journal.Prelude.{ℕ, ◌+◌, ◌*◌, true, some, [], ◌∷◌}
use hass_geofence_journal.Float.{of_ℕ}
use hass_geofence_journal.Models.{
  Coordinates, PresenceState, TrackerKind, LocationSource, RuleDefinition,
}
use hass_geofence_journal.Geofence.{EvaluatedObservation}
use hass_geofence_journal.Storage.Records.{RuntimeStateRecord}
use hass_geofence_journal.Storage.Tables.{Tables, from_coordinates}
use hass_geofence_journal.Runtime.Contracts.{RuntimeDependencies}

abbrev pub home : Coordinates
home = record { latitude = of_ℕ 37; longitude = of_ℕ 127 }

abbrev pub home_rule : RuleDefinition
home_rule = record {
  rule_id = 1;
  tracker_id = 2;
  place_id = 3;
  journal_id = 4;
  enabled = true;
  enter_confirmation_seconds = 60;
  exit_confirmation_seconds = 120;
  cooldown_seconds = 300;
  exit_margin_meters = of_ℕ 50;
  max_gps_accuracy_meters = of_ℕ 100;
}

abbrev pub home_tables : Tables
home_tables = record {
  trackers =
      record {
        id = 2;
        entity_id = "person.a";
        display_name = "A";
        tracker_kind = TrackerKind.person;
        enabled = true;
        created_at = 0;
        updated_at = 0;
      }
      ∷ [];
  places =
      record {
        id = 3;
        name = "Home";
        source = from_coordinates (some (of_ℕ 37)) (some (of_ℕ 127)) (some (of_ℕ 100));
        exit_margin_m = of_ℕ 50;
        enabled = true;
        created_at = 0;
        updated_at = 0;
      }
      ∷ [];
  journals = record { id = 4; name = "J"; enabled = true; created_at = 0; updated_at = 0 } ∷ [];
  rules =
      record {
        id = 1;
        name = "R";
        tracker_id = 2;
        place_id = 3;
        journal_id = 4;
        enter_confirmation_seconds = 60;
        exit_confirmation_seconds = 120;
        cooldown_seconds = 300;
        max_accuracy_m = some (of_ℕ 100);
        enabled = true;
        created_at = 0;
        updated_at = 0;
      }
      ∷ [];
  events = [];
  revisions = [];
  runtime_states = [];
  schema_version = 1 ∷ [];
}

-- A sample at a second.
abbrev pub sample : PresenceState → ℕ → EvaluatedObservation
sample presence second = record {
  presence = presence;
  distance_m = of_ℕ 10;
  observed_at = second * 1000000;
  coordinates = home;
  accuracy_m = some (of_ℕ 5);
}

-- The clock stands at a second, the identifiers count from the second, and the re-evaluation at a
-- deadline confirms what was pending.
abbrev pub at_second : ℕ → RuntimeDependencies
at_second second = record {
  utc_now = λ n. second * 1000000;
  next_id = λ n. second + n;
  async_evaluate = λ (s : RuntimeStateRecord). s.pending_transition;
  source = LocationSource.gps;
  store_coordinates = true;
}
