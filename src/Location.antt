-- ===== src/Location.antt =====
-- custom_components/geofence_journal/location.py: the checks between Home Assistant's attributes
-- and the pure evaluation.
pub mod Checks
use hass_geofence_journal.Prelude.{
  ℕ, String, Bool, true, false, not, ◌||◌, ◌&&◌, Option, none, some, List, [], ◌∷◌, ltb,
  if◌then◌else◌,
}
use hass_geofence_journal.Float.{Float, isfinite, le_float, lt_float, of_ℕ, neg_of_ℕ}
use hass_geofence_journal.Text.{codes, eq_codes, strip, lower}
use hass_geofence_journal.Models.{
  Coordinates, CoordinatePlace, ZonePlace, PlaceDefinition, coordinate_place, zone_place,
}

-- A `datetime` at the boundary: naive, or aware, as its UTC instant.
pub data Datetime : Type 0 where
  naive : ℕ → Datetime
  aware : ℕ → Datetime

-- `float | str | None`
pub data RawNumber : Type 0 where
  number : Float → RawNumber
  text : String → RawNumber
  missing : RawNumber

pub data IgnoreReason : Type 0 where
  missing_coordinates invalid_coordinates invalid_accuracy excessive_accuracy : IgnoreReason
  invalid_state invalid_timestamp stale_timestamp : IgnoreReason
  missing_zone invalid_zone invalid_distance : IgnoreReason

pub record RawTrackerObservation : Type 0 where
  pub observed_at : Datetime
  pub latitude : RawNumber
  pub longitude : RawNumber
  pub accuracy_m : RawNumber
  pub state : Option String

pub record NormalizedObservation : Type 0 where
  pub observed_at : ℕ
  pub coordinates : Coordinates
  pub accuracy_m : Option Float

pub record IgnoredObservation : Type 0 where
  pub reason : IgnoreReason
  pub observed_at : Datetime

pub record ZoneSnapshot : Type 0 where
  pub latitude : RawNumber
  pub longitude : RawNumber
  pub radius_m : RawNumber

pub record ResolvedPlace : Type 0 where
  pub center : Coordinates
  pub radius_m : Float

-- `A | IgnoredObservation`
pub data Outcome (A : Type 0) : Type 0 where
  accepted : A → Outcome A
  ignored : IgnoredObservation → Outcome A

-- MIN_LATITUDE <= latitude <= MAX_LATITUDE, and so for the longitude.
unfoldable pub in_range : Float → Float → Bool
in_range latitude longitude =
    (le_float (neg_of_ℕ 90) latitude && le_float latitude (of_ℕ 90))
    && (le_float (neg_of_ℕ 180) longitude && le_float longitude (of_ℕ 180))

unfoldable pub valid_geometry : Float → Float → Float → Bool
valid_geometry latitude longitude radius_m =
    isfinite latitude
    && isfinite longitude
    && isfinite radius_m
    && in_range latitude longitude
    && lt_float (of_ℕ 0) radius_m

unfoldable pub timestamp_error : Datetime → Option ℕ → Option IgnoreReason
timestamp_error (naive _) last_accepted_at = some IgnoreReason.invalid_timestamp
timestamp_error (aware observed_at) none = none
timestamp_error (aware observed_at) (some last) =
    if ltb observed_at last then some IgnoreReason.stale_timestamp else none

-- The instant of a datetime that `timestamp_error` has let pass.
abbrev pub instant : Datetime → ℕ
instant (naive t) = t
instant (aware t) = t

unfoldable pub is_missing : RawNumber → Bool
is_missing missing = true
is_missing _ = false

-- `raw.state.strip().lower() in {"", "unknown", "unavailable"}`
unfoldable pub unusable_state : Option String → Bool
unfolding strip lower
unusable_state none = true
unusable_state (some state) =
    let word = lower (strip (codes state)) in
    eq_codes word [] || eq_codes word (codes "unknown") || eq_codes word (codes "unavailable")

-- `parse_float` is `float` of a text, with `none` for its ValueError.
module _ (parse_float : String → Option Float) where
  unfoldable pub finite_float : RawNumber → Option Float
  finite_float (number value) = if isfinite value then some value else none
  finite_float (text value) = elim (parse_float value) [
    | none ↦ none
    | some parsed ↦ if isfinite parsed then some parsed else none
  ]
  finite_float missing = none

  -- Both coordinates, finite and in range.
  unfoldable pub parse_coordinates : RawNumber → RawNumber → Option Coordinates
  parse_coordinates raw_latitude raw_longitude = elim (finite_float raw_latitude) [
    | none ↦ none
    | some latitude ↦ elim (finite_float raw_longitude) [
      | none ↦ none
      | some longitude ↦
          if in_range latitude longitude
          then some (record { latitude = latitude; longitude = longitude })
          else none
    ]
  ]

  -- `none` is a rejected accuracy, `some none` an absent one.
  unfoldable pub parse_accuracy : RawNumber → Option (Option Float)
  parse_accuracy missing = some none
  parse_accuracy raw = elim (finite_float raw) [
    | none ↦ none
    | some accuracy ↦ if lt_float accuracy (of_ℕ 0) then none else some (some accuracy)
  ]

  unfoldable pub normalize_tracker_observation :
      RawTrackerObservation → Option ℕ → Outcome NormalizedObservation
  unfolding parse_coordinates parse_accuracy is_missing
  normalize_tracker_observation raw last_accepted_at =
      let reject : IgnoreReason → Outcome NormalizedObservation =
        λ reason. ignored (record { reason = reason; observed_at = raw.observed_at }) in
      elim (timestamp_error raw.observed_at last_accepted_at) [
        | some reason ↦ reject reason
        | none ↦
            if unusable_state raw.state
            then reject IgnoreReason.invalid_state
            else if is_missing raw.latitude || is_missing raw.longitude
            then reject IgnoreReason.missing_coordinates
            else elim (parse_coordinates raw.latitude raw.longitude) [
              | none ↦ reject IgnoreReason.invalid_coordinates
              | some coordinates ↦ elim (parse_accuracy raw.accuracy_m) [
                | none ↦ reject IgnoreReason.invalid_accuracy
                | some accuracy ↦ accepted (record {
                  observed_at = instant raw.observed_at;
                  coordinates = coordinates;
                  accuracy_m = accuracy;
                })
              ]
            ]
      ]

  -- The geometry of a zone that was found; an absent attribute is one that does not parse.
  resolve_snapshot : ZoneSnapshot → Datetime → Outcome ResolvedPlace
  unfolding valid_geometry
  resolve_snapshot snapshot observed_at =
      let invalid : Outcome ResolvedPlace =
        ignored (record { reason = IgnoreReason.invalid_zone; observed_at = observed_at }) in
      elim (finite_float snapshot.latitude) [
        | none ↦ invalid
        | some latitude ↦ elim (finite_float snapshot.longitude) [
          | none ↦ invalid
          | some longitude ↦ elim (finite_float snapshot.radius_m) [
            | none ↦ invalid
            | some radius ↦
                if valid_geometry latitude longitude radius
                then accepted (record {
                  center = record { latitude = latitude; longitude = longitude };
                  radius_m = radius;
                })
                else invalid
          ]
        ]
      ]

  -- `get_zone` is `zones.get_zone`, the fresh lookup.
  unfoldable pub resolve_place :
      PlaceDefinition → (String → Option ZoneSnapshot) → ℕ → Outcome ResolvedPlace
  unfolding resolve_snapshot
  resolve_place (coordinate_place place) get_zone observed_at =
      if valid_geometry place.center.latitude place.center.longitude place.radius_m
      then accepted (record { center = place.center; radius_m = place.radius_m })
      else ignored (record { reason = IgnoreReason.invalid_zone; observed_at = aware observed_at })
  resolve_place (zone_place place) get_zone observed_at = elim (get_zone place.entity_id) [
    | none ↦
        ignored (record { reason = IgnoreReason.missing_zone; observed_at = aware observed_at })
    | some snapshot ↦ resolve_snapshot snapshot (aware observed_at)
  ]
