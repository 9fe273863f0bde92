-- ===== src/Storage/Resources/Linked.antt =====
-- storage/resources.py and storage/resource_queries.py: what is configured is what is listed.
use hass_geofence_journal.Prelude.{
  ℕ, ◌≡◌, refl, ◌∙◌, String, Bool, true, ◌&&◌, Option, some, List, arith,
}
use hass_geofence_journal.Errors.{ok}
use hass_geofence_journal.Float.{Float, nan, finite, inf, neg_inf}
use hass_geofence_journal.Models.{
  TrackerDefinition, PlaceDefinition, coordinate_place, zone_place, JournalDefinition,
  RuleDefinition,
}
use hass_geofence_journal.Storage.Records.{is_number}
use hass_geofence_journal.Storage.Tables.{
  Tables, TrackerRow, PlaceRow, JournalRow, RuleRow, real, find, upsert,
}
use hass_geofence_journal.Storage.Tables.Laws.{find-upsert}
use hass_geofence_journal.Storage.Resources.{
  tracker_row, put_tracker, place_id, place_source, place_row, put_place, journal_row, put_journal,
  rule_row, put_rule,
}
use hass_geofence_journal.Storage.Resources.Active.{
  Link, link_of, required_float, configured_place, configured_resource,
}

-- A place without NaN.
abbrev pub place_numbers : PlaceDefinition → Bool
place_numbers (coordinate_place p) =
    is_number p.center.latitude && is_number p.center.longitude && is_number p.radius_m
place_numbers (zone_place p) = true

found_again :
    {A : Type 0} (key : A → ℕ) (row : A) (xs : List A)
    → find key (key row) (upsert key row xs) ≡ some row
found_again key row xs = find-upsert key row (key row) xs ∙ ground arith

module _ (t : Tables) (stamp : ℕ) where
  abbrev old_tracker : TrackerDefinition → Option TrackerRow
  old_tracker d = find (λ (r : TrackerRow). r.id) d.tracker_id t.trackers

  put_tracker_lem :
      (d : TrackerDefinition) (t' : Tables)
      → put_tracker d stamp t ≡ some t'
      → t' ≡ record t {
        trackers =
            upsert (λ (r : TrackerRow). r.id) (tracker_row d stamp (old_tracker d)) t.trackers;
      }
  unfolding put_tracker
  put_tracker_lem d t' h = ground arith

  abbrev old_place : PlaceDefinition → Option PlaceRow
  old_place d = find (λ (r : PlaceRow). r.id) (place_id d) t.places

  put_place_lem :
      (d : PlaceDefinition) (m : Float) (t' : Tables)
      → put_place d stamp m true t ≡ some t'
      → t' ≡ record t {
        places = upsert (λ (r : PlaceRow). r.id) (place_row d stamp m true (old_place d)) t.places;
      }
  unfolding put_place
  put_place_lem d m t' h = ground arith

  abbrev old_journal : JournalDefinition → Option JournalRow
  old_journal d = find (λ (r : JournalRow). r.id) d.journal_id t.journals

  put_journal_lem :
      (d : JournalDefinition) (t' : Tables)
      → put_journal d stamp t ≡ some t'
      → t' ≡ record t {
        journals =
            upsert (λ (r : JournalRow). r.id) (journal_row d stamp (old_journal d)) t.journals;
      }
  unfolding put_journal
  put_journal_lem d t' h = ground arith

  abbrev old_rule : RuleDefinition → Option RuleRow
  old_rule d = find (λ (r : RuleRow). r.id) d.rule_id t.rules

  put_rule_lem :
      (d : RuleDefinition) (name : String) (t' : Tables)
      → put_rule d stamp name t ≡ some t'
      → t' ≡ record t {
        rules = upsert (λ (r : RuleRow). r.id) (rule_row d stamp name (old_rule d)) t.rules;
      }
  unfolding put_rule
  put_rule_lem d name t' h = ground arith

required_real : (x : Float) → is_number x ≡ true → required_float (real (some x)) ≡ ok x
required_real (finite a) h = refl
required_real inf h = refl
required_real neg_inf h = refl
required_real nan h = cc

place_back :
    (d : PlaceDefinition) (stamp : ℕ) (m : Float) (old : Option PlaceRow)
    → place_numbers d ≡ true
    → configured_place (place_row d stamp m true old) (place_source d) ≡ ok d
unfolding configured_place place_row
place_back (zone_place p) stamp m old h = refl
place_back (coordinate_place p) stamp m old h =
    rw
      (
        required_real p.center.latitude (ground arith),
        required_real p.center.longitude (ground arith),
        required_real p.radius_m (ground arith),
      )
      refl

-- The link of four rows of configured resources.
linked_back :
    (tr : TrackerDefinition) (p : PlaceDefinition) (j : JournalDefinition) (r : RuleDefinition)
    (s1 s2 s3 s4 : ℕ) (name : String) (margin : Float) (o1 : Option TrackerRow)
    (o2 : Option PlaceRow) (o3 : Option JournalRow) (o4 : Option RuleRow)
    → place_numbers p ≡ true
    → is_number r.max_gps_accuracy_meters ≡ true
    → tr.enabled ≡ true
    → j.enabled ≡ true
    → r.enabled ≡ true
    → r.tracker_id ≡ tr.tracker_id
    → r.place_id ≡ place_id p
    → r.journal_id ≡ j.journal_id
    → configured_resource (record {
      tracker = tracker_row tr s1 o1;
      place = place_row p s2 margin true o2;
      journal = journal_row j s3 o3;
      rule = rule_row r s4 name o4;
    })
      ≡ ok (record {
        tracker = tr;
        place = p;
        journal = j;
        rule = record r { exit_margin_meters = margin };
      })
unfolding configured_resource tracker_row place_row journal_row rule_row
linked_back tr p j r s1 s2 s3 s4 name margin o1 o2 o3 o4 n a e1 e2 e3 i1 i2 i3 =
    rw (place_back p s2 margin o2 n, required_real r.max_gps_accuracy_meters a) (ground arith)

link_found :
    (t : Tables) (r : RuleRow) (a : TrackerRow) (b : PlaceRow) (c : JournalRow)
    → find (λ (x : TrackerRow). x.id) r.tracker_id t.trackers ≡ some a
    → find (λ (x : PlaceRow). x.id) r.place_id t.places ≡ some b
    → find (λ (x : JournalRow). x.id) r.journal_id t.journals ≡ some c
    → (r.enabled && a.enabled && b.enabled && c.enabled) ≡ true
    → link_of t r ≡ some (record { tracker = a; place = b; journal = c; rule = r })
unfolding link_of
link_found t r a b c ea eb ec on = ground arith

-- The four definitions are linked and enabled, and no number is NaN.
pub record IsLinked (tr : TrackerDefinition) (p : PlaceDefinition) (j : JournalDefinition)
    (r : RuleDefinition) : Type 0 where
  pub tracker : r.tracker_id ≡ tr.tracker_id
  pub place : r.place_id ≡ place_id p
  pub journal : r.journal_id ≡ j.journal_id
  pub tracker_enabled : tr.enabled ≡ true
  pub journal_enabled : j.enabled ≡ true
  pub rule_enabled : r.enabled ≡ true
  pub place_plain : place_numbers p ≡ true
  pub accuracy_plain : is_number r.max_gps_accuracy_meters ≡ true

-- The rule's row is there, joins the rows of the others, and is read as the four definitions.
pub record IsListed (t : Tables) (tr : TrackerDefinition) (p : PlaceDefinition)
    (j : JournalDefinition) (r : RuleDefinition) (margin : Float) : Type 0 where
  pub link : Link
  pub rule : find (λ (x : RuleRow). x.id) r.rule_id t.rules ≡ some link.rule
  pub joined : link_of t link.rule ≡ some link
  pub read :
      configured_resource link
      ≡ ok (record {
        tracker = tr;
        place = p;
        journal = j;
        rule = record r { exit_margin_meters = margin };
      })

module _ (t : Tables) (s1 s2 s3 s4 : ℕ) (name : String) (margin : Float) where
  module _ (tr : TrackerDefinition) (p : PlaceDefinition) (j : JournalDefinition)
      (r : RuleDefinition) where
    abbrev row1 : TrackerRow
    row1 = tracker_row tr s1 (old_tracker t s1 tr)

    abbrev row2 : PlaceRow
    row2 = place_row p s2 margin true (old_place t s2 p)

    abbrev row3 : JournalRow
    row3 = journal_row j s3 (old_journal t s3 j)

    abbrev row4 : RuleRow
    row4 = rule_row r s4 name (old_rule t s4 r)

    abbrev configured : Tables
    configured = record t {
      trackers = upsert (λ (x : TrackerRow). x.id) row1 t.trackers;
      places = upsert (λ (x : PlaceRow). x.id) row2 t.places;
      journals = upsert (λ (x : JournalRow). x.id) row3 t.journals;
      rules = upsert (λ (x : RuleRow). x.id) row4 t.rules;
    }

    joined_rows :
        IsLinked tr p j r
        → link_of configured row4
          ≡ some (record { tracker = row1; place = row2; journal = row3; rule = row4 })
    unfolding tracker_row place_row journal_row rule_row
    joined_rows h =
        link_found configured row4 row1 row2 row3
          (rw h.tracker (found_again (λ (x : TrackerRow). x.id) row1 t.trackers))
          (rw h.place (found_again (λ (x : PlaceRow). x.id) row2 t.places))
          (rw h.journal (found_again (λ (x : JournalRow). x.id) row3 t.journals))
          (rw (h.rule_enabled, h.tracker_enabled, h.journal_enabled) refl)

    configured-IsListed : IsLinked tr p j r → IsListed configured tr p j r margin
    unfolding rule_row
    configured-IsListed h = record {
      link = record { tracker = row1; place = row2; journal = row3; rule = row4 };
      rule = found_again (λ (x : RuleRow). x.id) row4 t.rules;
      joined = joined_rows h;
      read =
          linked_back tr p j r s1 s2 s3 s4 name margin (old_tracker t s1 tr) (old_place t s2 p)
            (old_journal t s3 j) (old_rule t s4 r) h.place_plain h.accuracy_plain h.tracker_enabled
            h.journal_enabled h.rule_enabled h.tracker h.place h.journal;
    }

-- A tracker, a place, a journal and a rule that links them, enabled and without NaN, written in this
-- order into any tables whose constraints accept them, are listed: the rule's row joins the three
-- others, and the join is read back as the four definitions, the exit margin of the rule being the
-- one that its place was written with.
pub upserts-IsListed :
    (t t1 t2 t3 t4 : Tables) (s1 s2 s3 s4 : ℕ) (name : String) (margin : Float)
    (tr : TrackerDefinition) (p : PlaceDefinition) (j : JournalDefinition) (r : RuleDefinition)
    → put_tracker tr s1 t ≡ some t1
    → put_place p s2 margin true t1 ≡ some t2
    → put_journal j s3 t2 ≡ some t3
    → put_rule r s4 name t3 ≡ some t4
    → IsLinked tr p j r
    → IsListed t4 tr p j r margin
upserts-IsListed t t1 t2 t3 t4 s1 s2 s3 s4 name margin tr p j r h1 h2 h3 h4 linked =
    let e1 = put_tracker_lem t s1 tr t1 h1 in
    let e2 = put_place_lem t1 s2 p margin t2 h2 in
    let e3 = put_journal_lem t2 s3 j t3 h3 in
    let e4 = put_rule_lem t3 s4 r name t4 h4 in
    rw e4 (rw e3 (rw e2 (rw e1 (configured-IsListed t s1 s2 s3 s4 name margin tr p j r linked))))
