-- ===== src/Storage/Resources.antt =====
-- storage/resources.py and storage/resource_queries.py: the configured trackers, places, journals and
-- rules, and the active links between them.
pub mod Active
pub mod Linked
use hass_geofence_journal.Prelude.{
  ℕ, String, Bool, true, false, not, ◌&&◌, ◌||◌, Option, none, some, List, [], ◌∷◌, leb, ◌==◌,
  if◌then◌else◌,
}
use hass_geofence_journal.Text.{codes, eq_codes}
use hass_geofence_journal.Errors.{Result, ok, err, database_schema, ◌>>=◌}
use hass_geofence_journal.Float.{Float, nan, lt_float, le_float, of_ℕ}
use hass_geofence_journal.Models.{
  TrackerDefinition, CoordinatePlace, ZonePlace, PlaceDefinition, coordinate_place, zone_place,
  JournalDefinition, RuleDefinition, Coordinates,
}
use hass_geofence_journal.Storage.Tables.{
  Tables, TrackerRow, PlaceSource, from_zone, from_coordinates, PlaceRow, JournalRow, RuleRow, real,
  has, find, upsert, latitude_ok, longitude_ok,
}
use hass_geofence_journal.Storage.Sql.{Sql, lift, write, query}
use hass_geofence_journal.Storage.Sql

-- A row that is there keeps its `created_at`.
abbrev pub created {ℓ} : {A : Type ℓ} → (A → ℕ) → Option A → ℕ → ℕ
created key none stamp = stamp
created key (some old) stamp = key old

abbrev pub same_text : String → String → Bool
same_text a b = eq_codes (codes a) (codes b)

-- UNIQUE: no other row has the text.
unfoldable pub is_taken {ℓ} : {A : Type ℓ} → (A → ℕ) → (A → String) → ℕ → String → List A → Bool
is_taken key text id s [] = false
is_taken key text id s (x ∷ xs) =
    (not (key x == id) && same_text (text x) s) || is_taken key text id s xs

unfoldable pub tracker_row : TrackerDefinition → ℕ → Option TrackerRow → TrackerRow
tracker_row t stamp old = record {
  id = t.tracker_id;
  entity_id = t.entity_id;
  display_name = t.name;
  tracker_kind = t.kind;
  enabled = t.enabled;
  created_at = created (λ (r : TrackerRow). r.created_at) old stamp;
  updated_at = stamp;
}

unfoldable pub put_tracker : TrackerDefinition → ℕ → Tables → Option Tables
unfolding tracker_row is_taken
put_tracker t stamp tables =
    let row = tracker_row t stamp (find (λ (r : TrackerRow). r.id) t.tracker_id tables.trackers) in
    if is_taken (λ (r : TrackerRow). r.id) (λ (r : TrackerRow). r.entity_id) t.tracker_id
      t.entity_id tables.trackers
    then none
    else some (record tables { trackers = upsert (λ (r : TrackerRow). r.id) row tables.trackers })

unfoldable pub upsert_tracker : TrackerDefinition → ℕ → Sql (Unit {0})
unfolding put_tracker
upsert_tracker t stamp = write (put_tracker t stamp)

abbrev pub place_id : PlaceDefinition → ℕ
place_id (coordinate_place p) = p.place_id
place_id (zone_place p) = p.place_id

abbrev pub place_name : PlaceDefinition → String
place_name (coordinate_place p) = p.name
place_name (zone_place p) = p.name

abbrev pub place_source : PlaceDefinition → PlaceSource
place_source (coordinate_place p) =
    from_coordinates (real (some p.center.latitude)) (real (some p.center.longitude))
      (real (some p.radius_m))
place_source (zone_place p) = from_zone p.entity_id

abbrev pub holds : (Float → Bool) → Option Float → Bool
holds p none = true
holds p (some x) = p x

-- The CHECK on the source: a part that is NULL does not fail it.
abbrev pub source_ok : PlaceSource → Bool
source_ok (from_zone s) = true
source_ok (from_coordinates latitude longitude radius) =
    holds latitude_ok latitude && holds longitude_ok longitude && holds (lt_float (of_ℕ 0)) radius

unfoldable pub place_row : PlaceDefinition → ℕ → Float → Bool → Option PlaceRow → PlaceRow
place_row p stamp exit_margin enabled old = record {
  id = place_id p;
  name = place_name p;
  source = place_source p;
  exit_margin_m = exit_margin;
  enabled = enabled;
  created_at = created (λ (r : PlaceRow). r.created_at) old stamp;
  updated_at = stamp;
}

-- exit_margin_m is NOT NULL and at least 0, so NaN fails.
unfoldable pub put_place : PlaceDefinition → ℕ → Float → Bool → Tables → Option Tables
unfolding place_row
put_place p stamp exit_margin enabled tables =
    let row =
      place_row p stamp exit_margin enabled
        (find (λ (r : PlaceRow). r.id) (place_id p) tables.places) in
    if source_ok (place_source p) && le_float (of_ℕ 0) exit_margin
    then some (record tables { places = upsert (λ (r : PlaceRow). r.id) row tables.places })
    else none

unfoldable pub upsert_place : PlaceDefinition → ℕ → Float → Bool → Sql (Unit {0})
unfolding put_place
upsert_place p stamp exit_margin enabled = write (put_place p stamp exit_margin enabled)

unfoldable pub journal_row : JournalDefinition → ℕ → Option JournalRow → JournalRow
journal_row j stamp old = record {
  id = j.journal_id;
  name = j.name;
  enabled = j.enabled;
  created_at = created (λ (r : JournalRow). r.created_at) old stamp;
  updated_at = stamp;
}

unfoldable pub put_journal : JournalDefinition → ℕ → Tables → Option Tables
unfolding journal_row is_taken
put_journal j stamp tables =
    let row = journal_row j stamp (find (λ (r : JournalRow). r.id) j.journal_id tables.journals) in
    if is_taken (λ (r : JournalRow). r.id) (λ (r : JournalRow). r.name) j.journal_id j.name
      tables.journals
    then none
    else some (record tables { journals = upsert (λ (r : JournalRow). r.id) row tables.journals })

unfoldable pub upsert_journal : JournalDefinition → ℕ → Sql (Unit {0})
unfolding put_journal
upsert_journal j stamp = write (put_journal j stamp)

-- `name or str(rule.rule_id)` is the argument `name`.
unfoldable pub rule_row : RuleDefinition → ℕ → String → Option RuleRow → RuleRow
rule_row r stamp name old = record {
  id = r.rule_id;
  name = name;
  tracker_id = r.tracker_id;
  place_id = r.place_id;
  journal_id = r.journal_id;
  enter_confirmation_seconds = r.enter_confirmation_seconds;
  exit_confirmation_seconds = r.exit_confirmation_seconds;
  cooldown_seconds = r.cooldown_seconds;
  max_accuracy_m = real (some r.max_gps_accuracy_meters);
  enabled = r.enabled;
  created_at = created (λ (x : RuleRow). x.created_at) old stamp;
  updated_at = stamp;
}

unfoldable pub rule_row_ok : Tables → RuleRow → Bool
rule_row_ok tables row =
    has (λ (t : TrackerRow). t.id) row.tracker_id tables.trackers
    && has (λ (p : PlaceRow). p.id) row.place_id tables.places
    && has (λ (j : JournalRow). j.id) row.journal_id tables.journals
    && holds (le_float (of_ℕ 0)) row.max_accuracy_m

unfoldable pub put_rule : RuleDefinition → ℕ → String → Tables → Option Tables
unfolding rule_row rule_row_ok
put_rule r stamp name tables =
    let row = rule_row r stamp name (find (λ (x : RuleRow). x.id) r.rule_id tables.rules) in
    if rule_row_ok tables row
    then some (record tables { rules = upsert (λ (x : RuleRow). x.id) row tables.rules })
    else none

unfoldable pub upsert_rule : RuleDefinition → ℕ → String → Sql (Unit {0})
unfolding put_rule
upsert_rule r stamp name = write (put_rule r stamp name)
