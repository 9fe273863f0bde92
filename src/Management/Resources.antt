-- ===== src/Management/Resources.antt =====
-- custom_components/geofence_journal/management_resources.py: the definitions that the accepted
-- requests stand for, and their storage. `fresh` is `uuid4()` and `now` the reading of the clock.
use hass_geofence_journal.Prelude.{ℕ, Option, none, some}
use hass_geofence_journal.Prelude.Int.{ℤ, pos_part}
use hass_geofence_journal.Errors.{Result, ok, err, service_validation}
use hass_geofence_journal.Float.{Float, of_ℕ}
use hass_geofence_journal.Models.{
  TrackerDefinition, PlaceDefinition, coordinate_place, zone_place, RuleDefinition,
}
use hass_geofence_journal.Settings.{Settings}
use hass_geofence_journal.Storage.Sql.{Sql, lift, pure, ◌>>=◌, ◌>>◌}
use hass_geofence_journal.Storage.Resources.{
  upsert_tracker, upsert_place, upsert_journal, upsert_rule,
}
use hass_geofence_journal.Management.Requests.{
  UpsertTrackerRequest, UpsertPlaceRequest, PlaceKind, coordinate, ha_zone, UpsertJournalRequest,
  UpsertRuleRequest,
}

-- `request.resource_id or uuid4()`
abbrev pub identifier : Option ℕ → ℕ → ℕ
identifier none fresh = fresh
identifier (some id) fresh = id

abbrev pub tracker_of : ℕ → UpsertTrackerRequest → TrackerDefinition
tracker_of id r = record {
  tracker_id = id;
  entity_id = r.entity_id;
  kind = r.kind;
  name = r.name;
  enabled = r.enabled;
}

-- Three values, if all are there.
abbrev pub geometry : Option Float → Option Float → Option Float → Option (Float × Float × Float)
geometry (some latitude) (some longitude) (some radius) = some (latitude, longitude, radius)
geometry _ _ _ = none

unfoldable pub place_of : ℕ → UpsertPlaceRequest → PlaceKind → Result PlaceDefinition
place_of id r coordinate = elim (geometry r.latitude r.longitude r.radius_meters) [
  | none ↦ err service_validation
  | some (latitude, longitude, radius) ↦ ok (
      coordinate_place (record {
        place_id = id;
        name = r.name;
        center = record { latitude = latitude; longitude = longitude };
        radius_m = radius;
      }))
]
place_of id r ha_zone = elim r.zone_entity_id [
  | none ↦ err service_validation
  | some entity_id ↦
      ok (zone_place (record { place_id = id; name = r.name; entity_id = entity_id }))
]

abbrev pub margin_or : Option Float → Float → Float
margin_or none default = default
margin_or (some margin) default = margin

-- Seconds of the request or of the settings; neither is negative.
abbrev pub seconds_or : Option ℤ → ℤ → ℕ
seconds_or none default = pos_part default
seconds_or (some n) default = pos_part n

unfoldable pub rule_of : ℕ → Settings → UpsertRuleRequest → RuleDefinition
rule_of id settings r = record {
  rule_id = id;
  tracker_id = r.tracker_id;
  place_id = r.place_id;
  journal_id = r.journal_id;
  enabled = r.enabled;
  enter_confirmation_seconds =
      seconds_or r.enter_confirmation_seconds settings.enter_confirmation_seconds;
  exit_confirmation_seconds =
      seconds_or r.exit_confirmation_seconds settings.exit_confirmation_seconds;
  cooldown_seconds = seconds_or r.cooldown_seconds settings.cooldown_seconds;
  exit_margin_meters = of_ℕ 0;
  max_gps_accuracy_meters = r.max_gps_accuracy_meters;
}

module _ (fresh now : ℕ) where
  unfoldable pub upsert_tracker_resource : UpsertTrackerRequest → Sql ℕ
  upsert_tracker_resource r = do
    let id = identifier r.resource_id fresh
    upsert_tracker (tracker_of id r) now
    pure id

  unfoldable pub upsert_place_resource : Settings → UpsertPlaceRequest → Sql ℕ
  upsert_place_resource settings r = do
    let id = identifier r.resource_id fresh
    place ← lift (place_of id r r.source_type)
    upsert_place place now (margin_or r.exit_margin_meters settings.exit_margin_meters) r.enabled
    pure id

  unfoldable pub upsert_journal_resource : UpsertJournalRequest → Sql ℕ
  upsert_journal_resource r = do
    let id = identifier r.resource_id fresh
    upsert_journal (record { journal_id = id; name = r.name; enabled = r.enabled }) now
    pure id

  unfoldable pub upsert_rule_resource : Settings → UpsertRuleRequest → Sql ℕ
  upsert_rule_resource settings r = do
    let id = identifier r.resource_id fresh
    upsert_rule (rule_of id settings r) now r.name
    pure id
