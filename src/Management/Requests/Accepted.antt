-- ===== src/Management/Requests/Accepted.antt =====
-- maintenance.py and management_resources.py: an accepted request does not break its table.
use hass_geofence_journal.Prelude.{
  ℕ, ◌≡◌, String, Bool, true, ◌&&◌, some, arith, inl, inr, Option-cases,
}
use hass_geofence_journal.Float.{Float, lt_float, le_float, of_ℕ}
use hass_geofence_journal.Errors.{ok, Result-cases}
use hass_geofence_journal.Models.{PlaceDefinition}
use hass_geofence_journal.Settings.{Settings}
use hass_geofence_journal.Storage.Tables.{Tables}
use hass_geofence_journal.Storage.Resources.{put_place, source_ok, place_source}
use hass_geofence_journal.Management.Requests.{
  UpsertPlaceRequest, PlaceKind, validate_place, fields_match, optional, between,
}
use hass_geofence_journal.Management.Resources.{place_of, margin_or}

put_place-some :
    (p : PlaceDefinition) (now : ℕ) (margin : Float) (enabled : Bool) (t : Tables)
    → source_ok (place_source p) ≡ true
    → le_float (of_ℕ 0) margin ≡ true
    → (new : Tables) × (put_place p now margin enabled t ≡ some new)
unfolding put_place
put_place-some p now margin enabled t source ok_margin =
    elim (Option-cases (put_place p now margin enabled t)) [
      | inr stored ↦ stored
      | inl refused ↦ absurd (ground (arith, refused))
    ]

-- The numbers of an accepted request.
abbrev numbers_ok : UpsertPlaceRequest → Bool
numbers_ok r =
    optional (between 90) r.latitude
    && optional (between 180) r.longitude
    && optional (lt_float (of_ℕ 0)) r.radius_meters

module _ (valid_entity_id : String → Bool) where
  place_of-source_ok :
      (id : ℕ) (r : UpsertPlaceRequest) (kind : PlaceKind)
      → numbers_ok r ≡ true
      → fields_match valid_entity_id r kind ≡ true
      → (p : PlaceDefinition) × (place_of id r kind ≡ ok p) × (source_ok (place_source p) ≡ true)
  unfolding place_of fields_match
  place_of-source_ok id r kind numbers fields = elim (Result-cases (place_of id r kind)) [
    | inl (p, e) ↦ (p, e, ground arith)
    | inr (x, e) ↦ absurd (ground arith)
  ]

  -- An accepted place request stands for a place, whatever its kind, and the constraints of the schema
  -- take the place with its margin into any tables; the margin of the settings is a number, not
  -- negative.
  pub validate_place-stored :
      (raw r : UpsertPlaceRequest) (settings : Settings) (id now : ℕ) (t : Tables)
      → validate_place valid_entity_id raw ≡ some r
      → le_float (of_ℕ 0) settings.exit_margin_meters ≡ true
      → (place : PlaceDefinition) × (new : Tables) × (place_of id r r.source_type ≡ ok place)
        × (put_place place now
              (margin_or r.exit_margin_meters settings.exit_margin_meters)
              r.enabled
              t
            ≡ some new)
  unfolding validate_place
  validate_place-stored raw r settings id now t h margin =
      let (p, e, source) = place_of-source_ok id r r.source_type (ground arith) (ground arith) in
      let (new, stored) =
        put_place-some p now (margin_or r.exit_margin_meters settings.exit_margin_meters) r.enabled
          t source (ground arith) in
      (p, new, e, stored)
