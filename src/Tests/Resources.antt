-- ===== src/Tests/Resources.antt =====
-- Four definitions written into an empty database, and listed.
use hass_geofence_journal.Prelude.{◌≡◌, refl, true, none, some, [], ◌∷◌}
use hass_geofence_journal.Float.{of_ℕ, neg_of_ℕ}
use hass_geofence_journal.Models.{
  TrackerKind, TrackerDefinition, PlaceDefinition, coordinate_place, JournalDefinition,
}
use hass_geofence_journal.Storage.Tables.{Tables, upsert, find, has}
use hass_geofence_journal.Storage.Resources.{
  tracker_row, put_tracker, place_row, put_place, journal_row, put_journal, rule_row, put_rule,
}
use hass_geofence_journal.Storage.Resources.Linked.{IsLinked, IsListed, upserts-IsListed}
use hass_geofence_journal.Tests.Data.{home, home_rule, home_tables}

abbrev person : TrackerDefinition
person = record {
  tracker_id = 2;
  entity_id = "person.a";
  kind = TrackerKind.person;
  name = "A";
  enabled = true;
}

abbrev place : PlaceDefinition
place =
    coordinate_place (record { place_id = 3; name = "Home"; center = home; radius_m = of_ℕ 100 })

abbrev journal : JournalDefinition
journal = record { journal_id = 4; name = "J"; enabled = true }

abbrev empty : Tables
empty = record home_tables { trackers = []; places = []; journals = []; rules = [] }

with_tracker : Tables
with_tracker = record empty { trackers = tracker_row person 10 none ∷ [] }

with_place : Tables
with_place = record with_tracker { places = place_row place 11 (of_ℕ 50) true none ∷ [] }

with_journal : Tables
with_journal = record with_place { journals = journal_row journal 12 none ∷ [] }

with_rule : Tables
with_rule = record with_journal { rules = rule_row home_rule 13 "R" none ∷ [] }

tracker_written : put_tracker person 10 empty ≡ some with_tracker
unfolding put_tracker with_tracker upsert find
tracker_written = refl

place_written : put_place place 11 (of_ℕ 50) true with_tracker ≡ some with_place
unfolding put_place of_ℕ neg_of_ℕ with_place upsert with_tracker find
place_written = refl

journal_written : put_journal journal 12 with_place ≡ some with_journal
unfolding put_journal with_place with_tracker with_journal upsert find
journal_written = refl

rule_written : put_rule home_rule 13 "R" with_journal ≡ some with_rule
unfolding put_rule has with_journal with_place with_tracker tracker_row place_row journal_row of_ℕ
    with_rule upsert find
rule_written = refl

linked : IsLinked person place journal home_rule
unfolding of_ℕ
linked = record {
  tracker = refl;
  place = refl;
  journal = refl;
  tracker_enabled = refl;
  journal_enabled = refl;
  rule_enabled = refl;
  place_plain = refl;
  accuracy_plain = refl;
}

upserts-IsListed_example : IsListed with_rule person place journal home_rule (of_ℕ 50)
upserts-IsListed_example =
    upserts-IsListed empty with_tracker with_place with_journal with_rule 10 11 12 13 "R" (of_ℕ 50)
      person place journal home_rule tracker_written place_written journal_written rule_written
      linked
