-- ===== src/Tests/Samples.antt =====
-- Samples and places that the checks let pass.
use hass_geofence_journal.Prelude.{◌≡◌, refl, ◌^◌, if◌then◌else◌, String, Option, none, some}
use hass_geofence_journal.Float.{Float, of_ℕ, add_float, neg_of_ℕ}
use hass_geofence_journal.Text.{codes, eq_codes}
use hass_geofence_journal.Models.{Coordinates, inside, zone_place, ZonePlace}
use hass_geofence_journal.Location.{
  RawTrackerObservation, NormalizedObservation, ResolvedPlace, ZoneSnapshot, accepted, aware,
  number, text, missing, normalize_tracker_observation, resolve_place, timestamp_error,
  unusable_state, finite_float, in_range,
}
use hass_geofence_journal.Geofence.{EvaluatedObservation, EvaluationThresholds, evaluate_geofence}
use hass_geofence_journal.Geofence.Hysteresis.{IsEvaluated, evaluate_geofence-IsEvaluated}
use hass_geofence_journal.Tests.Data.{home}

-- A sum that is exact, and one that is a tie and goes to the even neighbour.
small_sum : add_float (of_ℕ 100) (of_ℕ 50) ≡ of_ℕ 150
unfolding add_float of_ℕ
small_sum = refl

tie_sum : add_float (of_ℕ (2 ^ 53)) (of_ℕ 1) ≡ of_ℕ (2 ^ 53)
unfolding add_float of_ℕ
tie_sum = refl

-- Only "37" is a number here.
abbrev parse : String → Option Float
parse s = if eq_codes (codes s) (codes "37") then some (of_ℕ 37) else none

abbrev raw : RawTrackerObservation
raw = record {
  observed_at = aware 20;
  latitude = text "37";
  longitude = number (of_ℕ 127);
  accuracy_m = missing;
  state = some " Home ";
}

abbrev normal : NormalizedObservation
normal = record { observed_at = 20; coordinates = home; accuracy_m = none }

normal_accepted : normalize_tracker_observation parse raw (some 10) ≡ accepted normal
unfolding normalize_tracker_observation timestamp_error unusable_state finite_float of_ℕ in_range
    neg_of_ℕ
normal_accepted = refl

abbrev zone : String → Option ZoneSnapshot
zone _ =
    some
      (record { latitude = text "37"; longitude = number (of_ℕ 127); radius_m = number (of_ℕ 100) })

abbrev place : ResolvedPlace
place = record { center = home; radius_m = of_ℕ 100 }

abbrev zone_home : ZonePlace
zone_home = record { place_id = 3; name = "Home"; entity_id = "zone.home" }

zone_accepted : resolve_place parse (zone_place zone_home) zone 20 ≡ accepted place
unfolding resolve_place finite_float of_ℕ in_range neg_of_ℕ
zone_accepted = refl

-- 120 m from a place of 100 m with a margin of 50 m: between the boundaries.
abbrev distance : Coordinates → Coordinates → Float
distance a b = of_ℕ 120

abbrev thresholds : EvaluationThresholds
thresholds = record { exit_margin_m = of_ℕ 50; max_accuracy_m = of_ℕ 100 }

abbrev kept : EvaluatedObservation
kept = record {
  presence = inside;
  distance_m = of_ℕ 120;
  observed_at = 20;
  coordinates = home;
  accuracy_m = none;
}

kept_accepted : evaluate_geofence distance normal place inside thresholds ≡ accepted kept
unfolding evaluate_geofence of_ℕ add_float
kept_accepted = refl

evaluate_geofence-IsEvaluated_example : IsEvaluated distance normal place thresholds inside kept
evaluate_geofence-IsEvaluated_example =
    evaluate_geofence-IsEvaluated distance normal place thresholds inside kept kept_accepted
