-- ===== src/Storage/Resources/Active.antt =====
-- storage/resource_queries.py: the enabled rules with the tracker, the place and the journal that
-- they link.
use hass_geofence_journal.Prelude.{
  true, ◌&&◌, Option, none, some, List, [], ◌∷◌, leb, if◌then◌else◌,
}
use hass_geofence_journal.Errors.{Result, ok, err, database_schema, ◌>>=◌}
use hass_geofence_journal.Float.{Float}
use hass_geofence_journal.Models.{
  TrackerDefinition, PlaceDefinition, coordinate_place, zone_place, JournalDefinition,
  RuleDefinition,
}
use hass_geofence_journal.Storage.Tables.{
  Tables, TrackerRow, PlaceSource, from_zone, from_coordinates, PlaceRow, JournalRow, RuleRow, find,
}
use hass_geofence_journal.Storage.Sql.{Sql, lift, query}
use hass_geofence_journal.Storage.Sql

pub record ConfiguredResources : Type 0 where
  pub tracker : TrackerDefinition
  pub place : PlaceDefinition
  pub journal : JournalDefinition
  pub rule : RuleDefinition

-- A row of the join.
pub record Link : Type 0 where
  pub tracker : TrackerRow
  pub place : PlaceRow
  pub journal : JournalRow
  pub rule : RuleRow

-- The rows that a rule joins, if all are there and enabled; ids are unique.
unfoldable pub link_of : Tables → RuleRow → Option Link
link_of t r = elim (find (λ (x : TrackerRow). x.id) r.tracker_id t.trackers) [
  | none ↦ none
  | some tracker ↦ elim (find (λ (x : PlaceRow). x.id) r.place_id t.places) [
    | none ↦ none
    | some place ↦ elim (find (λ (x : JournalRow). x.id) r.journal_id t.journals) [
      | none ↦ none
      | some journal ↦
          if r.enabled && tracker.enabled && place.enabled && journal.enabled
          then some (record { tracker = tracker; place = place; journal = journal; rule = r })
          else none
    ]
  ]
]

unfoldable pub links : Tables → List RuleRow → List Link
unfolding link_of
links t [] = []
links t (r ∷ rules) =
    let rest = links t rules in elim (link_of t r) [ none ↦ rest | some l ↦ l ∷ rest ]

-- ORDER BY r.id
unfoldable pub insert_link : Link → List Link → List Link
insert_link l [] = l ∷ []
insert_link l (x ∷ xs) =
    let rest = insert_link l xs in if leb l.rule.id x.rule.id then l ∷ x ∷ xs else x ∷ rest

unfoldable pub sort_links : List Link → List Link
unfolding insert_link
sort_links [] = []
sort_links (l ∷ ls) = insert_link l (sort_links ls)

-- `_required_float`
abbrev pub required_float : Option Float → Result Float
required_float none = err database_schema
required_float (some x) = ok x

unfoldable pub configured_place : PlaceRow → PlaceSource → Result PlaceDefinition
configured_place p (from_zone entity_id) =
    ok (zone_place (record { place_id = p.id; name = p.name; entity_id = entity_id }))
configured_place p (from_coordinates latitude longitude radius) = do
  parsed_latitude ← required_float latitude
  parsed_longitude ← required_float longitude
  parsed_radius ← required_float radius
  ok (
      coordinate_place (record {
        place_id = p.id;
        name = p.name;
        center = record { latitude = parsed_latitude; longitude = parsed_longitude };
        radius_m = parsed_radius;
      }))

-- `_configured_resource`
unfoldable pub configured_resource : Link → Result ConfiguredResources
unfolding configured_place
configured_resource l = do
  place ← configured_place l.place l.place.source
  max_accuracy ← required_float l.rule.max_accuracy_m
  ok (record {
    tracker = record {
      tracker_id = l.tracker.id;
      entity_id = l.tracker.entity_id;
      kind = l.tracker.tracker_kind;
      name = l.tracker.display_name;
      enabled = true;
    };
    place = place;
    journal = record { journal_id = l.journal.id; name = l.journal.name; enabled = true };
    rule = record {
      rule_id = l.rule.id;
      tracker_id = l.tracker.id;
      place_id = l.place.id;
      journal_id = l.journal.id;
      enabled = true;
      enter_confirmation_seconds = l.rule.enter_confirmation_seconds;
      exit_confirmation_seconds = l.rule.exit_confirmation_seconds;
      cooldown_seconds = l.rule.cooldown_seconds;
      exit_margin_meters = l.place.exit_margin_m;
      max_gps_accuracy_meters = max_accuracy;
    };
  })

unfoldable pub configured_resources : List Link → Result (List ConfiguredResources)
unfolding configured_resource
configured_resources [] = ok []
configured_resources (l ∷ ls) = do
  x ← configured_resource l
  xs ← configured_resources ls
  ok (x ∷ xs)

unfoldable pub list_active_resources : Sql (List ConfiguredResources)
unfolding links sort_links configured_resources
list_active_resources =
    Sql.◌>>=◌ (query λ t. sort_links (links t t.rules)) λ rows. lift (configured_resources rows)
