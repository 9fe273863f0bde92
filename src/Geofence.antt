-- ===== src/Geofence.antt =====
-- custom_components/geofence_journal/geofence.py: hysteresis evaluation of one sample.
pub mod Hysteresis
use hass_geofence_journal.Prelude.{ℕ, Bool, not, ◌||◌, ◌&&◌, Option, none, some, if◌then◌else◌}
use hass_geofence_journal.Float.{Float, isfinite, le_float, lt_float, add_float, of_ℕ}
use hass_geofence_journal.Models.{Coordinates, PresenceState}
use hass_geofence_journal.Location.{
  aware, IgnoreReason, NormalizedObservation, ResolvedPlace, Outcome, accepted, ignored,
}

pub record EvaluatedObservation : Type 0 where
  pub presence : PresenceState
  pub distance_m : Float
  pub observed_at : ℕ
  pub coordinates : Coordinates
  pub accuracy_m : Option Float

pub record PersistenceProjection : Type 0 where
  pub presence : PresenceState
  pub distance_m : Float
  pub observed_at : ℕ
  pub coordinates : Option Coordinates
  pub accuracy_m : Option Float

pub record EvaluationThresholds : Type 0 where
  pub exit_margin_m : Float
  pub max_accuracy_m : Float

-- The tests on a reported accuracy, with the reason to ignore the sample.
accuracy_error : Option Float → EvaluationThresholds → Option IgnoreReason
accuracy_error none thresholds = none
accuracy_error (some accuracy) thresholds =
    if not (isfinite accuracy) || lt_float accuracy (of_ℕ 0)
    then some IgnoreReason.invalid_accuracy
    else if lt_float thresholds.max_accuracy_m accuracy
    then some IgnoreReason.excessive_accuracy
    else none

-- The last ladder of `evaluate_geofence`: `>=` is `<=` with its sides exchanged.
classify : Float → ResolvedPlace → PresenceState → EvaluationThresholds → PresenceState
classify measured place confirmed thresholds =
    if le_float measured place.radius_m
    then PresenceState.inside
    else if le_float (add_float place.radius_m thresholds.exit_margin_m) measured
    then PresenceState.outside
    else confirmed

-- `distance.meters_between` is the argument `meters_between`.
unfoldable pub evaluate_geofence :
    (Coordinates → Coordinates → Float)
    → NormalizedObservation
    → ResolvedPlace
    → PresenceState
    → EvaluationThresholds
    → Outcome EvaluatedObservation
unfolding accuracy_error classify
evaluate_geofence meters_between observation place confirmed thresholds =
    elim (accuracy_error observation.accuracy_m thresholds) [
      | some reason ↦
          ignored (record { reason = reason; observed_at = aware observation.observed_at })
      | none ↦
          let measured = meters_between observation.coordinates place.center in
          if not (isfinite measured) || lt_float measured (of_ℕ 0)
          then ignored (record {
            reason = IgnoreReason.invalid_distance;
            observed_at = aware observation.observed_at;
          })
          else accepted (record {
            presence = classify measured place confirmed thresholds;
            distance_m = measured;
            observed_at = observation.observed_at;
            coordinates = observation.coordinates;
            accuracy_m = observation.accuracy_m;
          })
    ]

unfoldable pub project_for_persistence : EvaluatedObservation → Bool → PersistenceProjection
project_for_persistence evaluated store_coordinates = record {
  presence = evaluated.presence;
  distance_m = evaluated.distance_m;
  observed_at = evaluated.observed_at;
  coordinates = if store_coordinates then some evaluated.coordinates else none;
  accuracy_m = evaluated.accuracy_m;
}
