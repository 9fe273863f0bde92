-- ===== src/Geofence/Hysteresis.antt =====
-- geofence.py: what the two boundaries promise.
use hass_geofence_journal.Prelude.{
  ◌≡◌, Bool, true, false, not, ◌&&◌, Option, none, some, inl, inr, arith, Bool-cases,
}
use hass_geofence_journal.Float.{Float, isfinite, le_float, lt_float, add_float, of_ℕ}
use hass_geofence_journal.Models.{Coordinates, PresenceState}
use hass_geofence_journal.Location.{NormalizedObservation, ResolvedPlace, accepted}
use hass_geofence_journal.Geofence.{
  EvaluatedObservation, EvaluationThresholds, evaluate_geofence, accuracy_error, classify,
}

-- Not above the largest accuracy that counts.
abbrev pub accuracy_within : Option Float → Float → Bool
accuracy_within none limit = true
accuracy_within (some a) limit = isfinite a && not (lt_float a (of_ℕ 0)) && not (lt_float limit a)

-- Why a presence was decided: within the radius, beyond radius and margin, or kept between them.
pub data IsDecided (place : ResolvedPlace) (thresholds : EvaluationThresholds) (measured : Float)
    : PresenceState → PresenceState → Type 0 where
  within :
      {confirmed : PresenceState}
      → le_float measured place.radius_m ≡ true
      → IsDecided place thresholds measured confirmed PresenceState.inside
  beyond :
      {confirmed : PresenceState}
      → le_float measured place.radius_m ≡ false
      → le_float (add_float place.radius_m thresholds.exit_margin_m) measured ≡ true
      → IsDecided place thresholds measured confirmed PresenceState.outside
  between :
      {confirmed : PresenceState}
      → le_float measured place.radius_m ≡ false
      → le_float (add_float place.radius_m thresholds.exit_margin_m) measured ≡ false
      → IsDecided place thresholds measured confirmed confirmed

module _ (meters_between : Coordinates → Coordinates → Float) where
  module _ (n : NormalizedObservation) (place : ResolvedPlace) (th : EvaluationThresholds) where
    -- What an accepted evaluation carries.
    pub record IsEvaluated (confirmed : PresenceState) (o : EvaluatedObservation) : Type 0 where
      pub measured : o.distance_m ≡ meters_between n.coordinates place.center
      pub finite : isfinite o.distance_m ≡ true
      pub positive : lt_float o.distance_m (of_ℕ 0) ≡ false
      pub accuracy : accuracy_within n.accuracy_m th.max_accuracy_m ≡ true
      pub same_accuracy : o.accuracy_m ≡ n.accuracy_m
      pub same_coordinates : o.coordinates ≡ n.coordinates
      pub same_instant : o.observed_at ≡ n.observed_at
      pub decided : IsDecided place th o.distance_m confirmed o.presence

    classify-IsDecided :
        (measured : Float) (confirmed : PresenceState)
        → IsDecided place th measured confirmed (classify measured place confirmed th)
    unfolding classify
    classify-IsDecided measured confirmed = elim (Bool-cases (le_float measured place.radius_m)) [
      | inl near ↦ rw near (within near)
      | inr far ↦
          elim (Bool-cases (le_float (add_float place.radius_m th.exit_margin_m) measured)) [
            | inl out ↦ rw (far, out) (beyond far out)
            | inr mid ↦ rw (far, mid) (between far mid)
          ]
    ]

    -- An accepted evaluation carries the sample unchanged, its distance is the measured one, finite
    -- and not negative, its accuracy is not above the limit, and its presence is inside within the
    -- radius, outside from radius and margin on, and the confirmed presence between them.
    pub evaluate_geofence-IsEvaluated :
        (confirmed : PresenceState) (o : EvaluatedObservation)
        → evaluate_geofence meters_between n place confirmed th ≡ accepted o
        → IsEvaluated confirmed o
    unfolding evaluate_geofence accuracy_error
    evaluate_geofence-IsEvaluated confirmed o h =
        let same : o.presence ≡ classify o.distance_m place confirmed th = ground arith in
        record {
          measured = ground arith;
          finite = ground arith;
          positive = ground arith;
          accuracy = ground arith;
          same_accuracy = ground arith;
          same_coordinates = ground arith;
          same_instant = ground arith;
          decided = rw same (classify-IsDecided o.distance_m confirmed);
        }

    -- An evaluation is settled: once its presence is the confirmed one, the same sample gives the same
    -- evaluation again.
    pub evaluate_geofence-settled :
        (confirmed : PresenceState) (o : EvaluatedObservation)
        → evaluate_geofence meters_between n place confirmed th ≡ accepted o
        → evaluate_geofence meters_between n place o.presence th ≡ accepted o
    unfolding evaluate_geofence accuracy_error classify
    evaluate_geofence-settled confirmed o h = ground arith
