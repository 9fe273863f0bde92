-- ===== src/Tests/HaStates.antt =====
-- A person at home, as Home Assistant's state machine has it, and a listener for it.
use hass_geofence_journal.Prelude.{◌≡◌, refl, String, true, Option, none, some, [], ◌∷◌}
use hass_geofence_journal.Float.{Float, of_ℕ, neg_of_ℕ}
use hass_geofence_journal.Models.{Coordinates, inside, outside, TrackerKind, coordinate_place}
use hass_geofence_journal.Location.{
  aware, accepted, timestamp_error, unusable_state, finite_float, in_range,
  normalize_tracker_observation, resolve_place,
}
use hass_geofence_journal.Geofence.{EvaluatedObservation, evaluate_geofence}
use hass_geofence_journal.Storage.Records.{RuntimeStateRecord}
use hass_geofence_journal.Storage.Resources.Active.{ConfiguredResources}
use hass_geofence_journal.HaState.{HaState, real, evaluate_ha_tracker_state, async_evaluate}
use hass_geofence_journal.HaState.Decisions.{
  IsHaSample, IsBeyond, evaluate-IsHaSample, async_evaluate-IsBeyond, async_evaluate-settled,
}
use hass_geofence_journal.Tests.Data.{home, home_rule}

abbrev pub parse : String → Option Float
parse s = none

abbrev pub near : Coordinates → Coordinates → Float
near a b = of_ℕ 10

abbrev pub tracker : HaState
tracker = record {
  entity_id = "person.a";
  domain = "person";
  state = "not_home";
  last_updated = aware 20;
  attributes =
      ("latitude", real (of_ℕ 37))
      ∷ ("longitude", real (of_ℕ 127))
      ∷ ("gps_accuracy", real (of_ℕ 5))
      ∷ [];
}

abbrev pub states : String → Option HaState
states id = some tracker

abbrev pub resources : ConfiguredResources
resources = record {
  tracker = record {
    tracker_id = 2;
    entity_id = "person.a";
    kind = TrackerKind.person;
    name = "A";
    enabled = true;
  };
  place =
      coordinate_place (record { place_id = 3; name = "Home"; center = home; radius_m = of_ℕ 100 });
  journal = record { journal_id = 4; name = "J"; enabled = true };
  rule = home_rule;
}

abbrev pub away : RuntimeStateRecord
away = record {
  rule_id = 1;
  presence_state = outside;
  last_event_id = none;
  last_event_type = none;
  last_event_at = none;
  enter_cooldown_until = none;
  exit_cooldown_until = none;
  pending_transition = some inside;
  pending_started_at = some 10;
  pending_deadline = some 15;
  pending_generation = 1;
  latest_observation_at = some 10;
  latest_coordinates = none;
  latest_accuracy_m = none;
  last_processed_at = some 10;
  updated_at = 10;
}

abbrev arrived : EvaluatedObservation
arrived = record {
  presence = inside;
  distance_m = of_ℕ 10;
  observed_at = 20;
  coordinates = home;
  accuracy_m = some (of_ℕ 5);
}

arrives :
    evaluate_ha_tracker_state parse near states resources tracker (some away) ≡ accepted arrived
unfolding evaluate_ha_tracker_state normalize_tracker_observation timestamp_error unusable_state
    finite_float of_ℕ in_range neg_of_ℕ resolve_place evaluate_geofence
arrives = refl

evaluate-IsHaSample_example : IsHaSample parse near states resources tracker (some away) arrived
evaluate-IsHaSample_example =
    evaluate-IsHaSample parse near states resources tracker (some away) arrived arrives

agrees : async_evaluate parse near states resources away ≡ some inside
unfolding async_evaluate normalize_tracker_observation timestamp_error unusable_state finite_float
    of_ℕ in_range neg_of_ℕ resolve_place evaluate_geofence
agrees = refl

async_evaluate-IsBeyond_example :
    (t : HaState) × (o : EvaluatedObservation) × (states "person.a" ≡ some t)
    × (q : IsHaSample parse near states resources t (some away) o) × IsBeyond parse near states
        resources q.place o.distance_m inside
async_evaluate-IsBeyond_example =
    async_evaluate-IsBeyond parse near states resources away inside agrees refl

async_evaluate-settled_example :
    async_evaluate parse near states resources (record away { presence_state = inside })
    ≡ some inside
async_evaluate-settled_example =
    async_evaluate-settled parse near states resources away inside agrees
