-- ===== src/Runtime/Samples.antt =====
-- location.py and geofence.py before the engine: what reaches `async_observe` has passed both.
use hass_geofence_journal.Prelude.{ℕ, ◌≡◌, String, true, Option, none, some, arith}
use hass_geofence_journal.Float.{Float, finite, inf, neg_inf, nan, isfinite}
use hass_geofence_journal.Models.{Coordinates, PresenceState}
use hass_geofence_journal.Location.{
  RawTrackerObservation, NormalizedObservation, ResolvedPlace, accepted,
  normalize_tracker_observation,
}
use hass_geofence_journal.Location.Checks.{normalize-IsNormal, accuracy_ok, not_before}
use hass_geofence_journal.Geofence.{EvaluatedObservation, EvaluationThresholds, evaluate_geofence}
use hass_geofence_journal.Geofence.Hysteresis.{evaluate_geofence-IsEvaluated}
use hass_geofence_journal.Storage.Records.{is_number, number_or_none}
use hass_geofence_journal.Runtime.Coherence.{is_usable}

finite-number : (x : Float) → isfinite x ≡ true → is_number x ≡ true
finite-number (finite a) h = ground arith
finite-number inf h = ground arith
finite-number neg_inf h = ground arith
finite-number nan h = cc

ok-number : (a : Option Float) → accuracy_ok a ≡ true → number_or_none a ≡ true
ok-number none h = ground arith
ok-number (some a) h = ground (arith, finite-number a)

-- What normalization and evaluation accept, from any raw sample and any place, is without NaN, as
-- the engine requires, and not before the last accepted instant.
pub sample-is_usable :
    (parse_float : String → Option Float) (meters_between : Coordinates → Coordinates → Float)
    (raw : RawTrackerObservation) (last : Option ℕ) (n : NormalizedObservation)
    (place : ResolvedPlace) (confirmed : PresenceState) (th : EvaluationThresholds)
    (o : EvaluatedObservation)
    → normalize_tracker_observation parse_float raw last ≡ accepted n
    → evaluate_geofence meters_between n place confirmed th ≡ accepted o
    → (is_usable o ≡ true) × (not_before last o.observed_at ≡ true)
sample-is_usable parse_float meters_between raw last n place confirmed th o h e =
    let a = normalize-IsNormal parse_float raw last n h in
    let b = evaluate_geofence-IsEvaluated meters_between n place th confirmed o e in
    let c = finite-number n.coordinates.latitude a.latitude in
    let d = finite-number n.coordinates.longitude a.longitude in
    let f = ok-number n.accuracy_m a.accuracy in
    (
      ground (arith, a.fresh, b.same_coordinates, b.same_accuracy, c, d, f),
      rw b.same_instant a.fresh,
    )
