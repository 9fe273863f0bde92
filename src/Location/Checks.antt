-- ===== src/Location/Checks.antt =====
-- location.py: what the checks let pass.
use hass_geofence_journal.Prelude.{
  ℕ, ◌≡◌, String, Bool, true, false, not, ◌&&◌, Option, none, some, arith, ltb,
}
use hass_geofence_journal.Float.{Float, isfinite, lt_float, of_ℕ}
use hass_geofence_journal.Models.{Coordinates, PlaceDefinition, coordinate_place, zone_place}
use hass_geofence_journal.Location.{
  Datetime, naive, aware, RawNumber, timestamp_error, unusable_state, in_range, valid_geometry,
  RawTrackerObservation, NormalizedObservation, ZoneSnapshot, ResolvedPlace, accepted, finite_float,
  parse_coordinates, parse_accuracy, normalize_tracker_observation, resolve_snapshot, resolve_place,
}

abbrev pub is_aware : Datetime → Bool
is_aware (naive t) = false
is_aware (aware t) = true

-- Not before the last accepted instant.
abbrev pub not_before : Option ℕ → ℕ → Bool
not_before none t = true
not_before (some last) t = not (ltb t last)

abbrev pub accuracy_ok : Option Float → Bool
accuracy_ok none = true
accuracy_ok (some a) = isfinite a && not (lt_float a (of_ℕ 0))

module _ (parse_float : String → Option Float) where
  finite_float-isfinite :
      (raw : RawNumber) (x : Float) → finite_float parse_float raw ≡ some x → isfinite x ≡ true
  unfolding finite_float
  finite_float-isfinite raw x h = ground arith

  parse_coordinates_lem :
      (lat lon : RawNumber) (c : Coordinates)
      → parse_coordinates parse_float lat lon ≡ some c
      → (isfinite c.latitude ≡ true)
        × (isfinite c.longitude ≡ true)
        × (in_range c.latitude c.longitude ≡ true)
  unfolding parse_coordinates
  parse_coordinates_lem lat lon c h =
      ground (arith, finite_float-isfinite lat c.latitude, finite_float-isfinite lon c.longitude)

  parse_accuracy_lem :
      (raw : RawNumber) (a : Option Float)
      → parse_accuracy parse_float raw ≡ some a
      → accuracy_ok a ≡ true
  unfolding parse_accuracy finite_float
  parse_accuracy_lem raw a h = ground arith

  -- What a normalized observation promises.
  pub record IsNormal (raw : RawTrackerObservation) (last : Option ℕ) (n : NormalizedObservation)
      : Type 0 where
    pub at_utc : raw.observed_at ≡ aware n.observed_at
    pub fresh : not_before last n.observed_at ≡ true
    pub state : unusable_state raw.state ≡ false
    pub latitude : isfinite n.coordinates.latitude ≡ true
    pub longitude : isfinite n.coordinates.longitude ≡ true
    pub range : in_range n.coordinates.latitude n.coordinates.longitude ≡ true
    pub accuracy : accuracy_ok n.accuracy_m ≡ true

  -- An observation that normalization accepts is aware, at its instant, not before the last accepted
  -- one, has a usable state, finite coordinates in range, and an accuracy that is absent or finite
  -- and not negative.
  pub normalize-IsNormal :
      (raw : RawTrackerObservation) (last : Option ℕ) (n : NormalizedObservation)
      → normalize_tracker_observation parse_float raw last ≡ accepted n
      → IsNormal raw last n
  unfolding normalize_tracker_observation timestamp_error
  normalize-IsNormal raw last n h = record {
    at_utc = ground arith;
    fresh = ground arith;
    state = ground arith;
    latitude = ground (arith, parse_coordinates_lem raw.latitude raw.longitude n.coordinates);
    longitude = ground (arith, parse_coordinates_lem raw.latitude raw.longitude n.coordinates);
    range = ground (arith, parse_coordinates_lem raw.latitude raw.longitude n.coordinates);
    accuracy = ground (arith, parse_accuracy_lem raw.accuracy_m n.accuracy_m);
  }

  -- A place that resolves, fixed or from a zone, has a finite center in range and a finite radius
  -- above 0.
  pub resolve_place-valid :
      (place : PlaceDefinition) (get_zone : String → Option ZoneSnapshot) (t : ℕ)
      (r : ResolvedPlace)
      → resolve_place parse_float place get_zone t ≡ accepted r
      → valid_geometry r.center.latitude r.center.longitude r.radius_m ≡ true
  unfolding resolve_place resolve_snapshot
  resolve_place-valid (coordinate_place place) get_zone t r h = ground arith
  resolve_place-valid (zone_place place) get_zone t r h = ground arith
