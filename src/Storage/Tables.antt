-- ===== src/Storage/Tables.antt =====
-- storage/schema.py: the tables of schema v1 as lists of rows in the order of insertion, and the
-- constraints that SQLite checks when a row is written. The CHECKs on enumerations and on UTC
-- texts hold by the types of the rows.
pub mod Laws
use hass_geofence_journal.Prelude.{
  ℕ, ◌*◌, ◌^◌, String, Bool, true, false, ◌&&◌, ◌||◌, not, Option, none, some, List, [], ◌∷◌, ◌==◌,
  if◌then◌else◌,
}
use hass_geofence_journal.Prelude.Int.{pos}
use hass_geofence_journal.Float.{Float, finite, nan, le_float, lt_float, of_ℕ, neg_of_ℕ}
use hass_geofence_journal.Models.{
  TrackerKind, PresenceState, unknown, LocationEventType, EventStatus,
}
use hass_geofence_journal.Storage.Records.{EventRow}

-- trackers
pub record TrackerRow : Type 0 where
  pub id : ℕ
  pub entity_id : String
  pub display_name : String
  pub tracker_kind : TrackerKind
  pub enabled : Bool
  pub created_at : ℕ
  pub updated_at : ℕ

-- The columns of places that depend on source_type: a zone, or latitude, longitude and radius.
pub data PlaceSource : Type 0 where
  from_zone : String → PlaceSource
  from_coordinates : Option Float → Option Float → Option Float → PlaceSource

pub record PlaceRow : Type 0 where
  pub id : ℕ
  pub name : String
  pub source : PlaceSource
  pub exit_margin_m : Float
  pub enabled : Bool
  pub created_at : ℕ
  pub updated_at : ℕ

pub record JournalRow : Type 0 where
  pub id : ℕ
  pub name : String
  pub enabled : Bool
  pub created_at : ℕ
  pub updated_at : ℕ

-- recording_rules; the columns that the program never writes are left out.
pub record RuleRow : Type 0 where
  pub id : ℕ
  pub name : String
  pub tracker_id : ℕ
  pub place_id : ℕ
  pub journal_id : ℕ
  pub enter_confirmation_seconds : ℕ
  pub exit_confirmation_seconds : ℕ
  pub cooldown_seconds : ℕ
  pub max_accuracy_m : Option Float
  pub enabled : Bool
  pub created_at : ℕ
  pub updated_at : ℕ

-- event_revisions; the two JSON texts hold a status and the instant of its change.
pub record RevisionRow : Type 0 where
  pub id : ℕ
  pub event_id : ℕ
  pub old_data : EventStatus × ℕ
  pub new_data : EventStatus × ℕ
  pub reason : Option String
  pub changed_by : Option String
  pub changed_at : ℕ

-- runtime_states
pub record RuntimeRow : Type 0 where
  pub rule_id : ℕ
  pub presence_state : PresenceState
  pub last_event_id : Option ℕ
  pub last_event_type : Option LocationEventType
  pub last_event_at : Option ℕ
  pub enter_cooldown_until : Option ℕ
  pub exit_cooldown_until : Option ℕ
  pub pending_transition : Option PresenceState
  pub pending_started_at : Option ℕ
  pub pending_deadline : Option ℕ
  pub pending_generation : Option ℕ
  pub latest_observation_at : Option ℕ
  pub latest_latitude : Option Float
  pub latest_longitude : Option Float
  pub latest_accuracy_m : Option Float
  pub last_processed_at : Option ℕ
  pub updated_at : ℕ

pub record Tables : Type 0 where
  pub trackers : List TrackerRow
  pub places : List PlaceRow
  pub journals : List JournalRow
  pub rules : List RuleRow
  pub events : List EventRow
  pub revisions : List RevisionRow
  pub runtime_states : List RuntimeRow
  pub schema_version : List ℕ

-- Is the id among the rows? `key` reads it.
unfoldable pub has {ℓ} : {A : Type ℓ} → (A → ℕ) → ℕ → List A → Bool
has key id [] = false
has key id (x ∷ xs) = (key x == id) || has key id xs

-- The first row with the id.
unfoldable pub find {ℓ} : {A : Type ℓ} → (A → ℕ) → ℕ → List A → Option A
find key id [] = none
find key id (x ∷ xs) = if key x == id then some x else find key id xs

-- INSERT … ON CONFLICT(id) DO UPDATE: the row is replaced where it stands, or appended.
unfoldable pub upsert {ℓ} : {A : Type ℓ} → (A → ℕ) → A → List A → List A
upsert key row [] = row ∷ []
upsert key row (x ∷ xs) = if key x == key row then row ∷ xs else x ∷ upsert key row xs

-- DELETE … WHERE id=?
unfoldable pub remove {ℓ} : {A : Type ℓ} → (A → ℕ) → ℕ → List A → List A
remove key id [] = []
remove key id (x ∷ xs) = let rest = remove key id xs in if key x == id then rest else x ∷ rest

-- A REAL column: NaN is stored as NULL.
abbrev pub real : Option Float → Option Float
real (some nan) = none
real x = x

-- A REFERENCES that may be NULL.
abbrev pub refers {ℓ} : {A : Type ℓ} → (A → ℕ) → Option ℕ → List A → Bool
refers key none xs = true
refers key (some id) xs = has key id xs

-- BETWEEN -90 AND 90, and BETWEEN -180 AND 180.
abbrev pub latitude_ok : Float → Bool
latitude_ok x = le_float (neg_of_ℕ 90) x && le_float x (of_ℕ 90)

abbrev pub longitude_ok : Float → Bool
longitude_ok x = le_float (neg_of_ℕ 180) x && le_float x (of_ℕ 180)

-- CHECK((latitude IS NULL AND longitude IS NULL) OR (both in range)): a comparison with NULL is
-- NULL, and a CHECK that is NULL passes.
abbrev pub coordinates_check : Option Float → Option Float → Bool
coordinates_check none none = true
coordinates_check none (some longitude) = longitude_ok longitude
coordinates_check (some latitude) none = latitude_ok latitude
coordinates_check (some latitude) (some longitude) = latitude_ok latitude && longitude_ok longitude

-- 1.0e308, as binary64 has it.
unfoldable pub max_accuracy : Float
max_accuracy = finite (pos (156575653125701 * 2 ^ 976 * 2 ^ 1074))

abbrev pub accuracy_check : Option Float → Bool
accuracy_check none = true
accuracy_check (some a) = le_float (of_ℕ 0) a && lt_float a max_accuracy

abbrev pub pending_check : Option PresenceState → Bool
pending_check (some unknown) = false
pending_check _ = true

-- The constraints of a runtime_states row.
unfoldable pub runtime_row_ok : Tables → RuntimeRow → Bool
unfolding has
runtime_row_ok tables row =
    pending_check row.pending_transition
    && coordinates_check row.latest_latitude row.latest_longitude
    && accuracy_check row.latest_accuracy_m
    && has (λ (r : RuleRow). r.id) row.rule_id tables.rules
    && refers (λ (e : EventRow). e.id) row.last_event_id tables.events

-- The key of the unique index uq_events_transition, where no part is NULL.
unfoldable pub transition_key : EventRow → Option (ℕ × ℕ × ℕ)
transition_key row = elim row.rule_id [
  | none ↦ none
  | some r ↦ elim row.transition_generation [
    | none ↦ none
    | some g ↦ elim row.confirmed_deadline [ none ↦ none | some d ↦ some (r, g, d) ]
  ]
]

unfoldable pub same_key : ℕ → ℕ → ℕ → EventRow → Bool
unfolding transition_key
same_key rule generation deadline row = elim (transition_key row) [
  | none ↦ false
  | some (r, g, d) ↦ (r == rule) && (g == generation) && (d == deadline)
]

-- SELECT … WHERE rule_id=? AND transition_generation=? AND confirmed_deadline=?
unfoldable pub find_transition : ℕ → ℕ → ℕ → List EventRow → Option EventRow
unfolding same_key
find_transition rule generation deadline [] = none
find_transition rule generation deadline (e ∷ events) =
    if same_key rule generation deadline e
    then some e
    else find_transition rule generation deadline events

abbrev pub is_new_key : Option (ℕ × ℕ × ℕ) → List EventRow → Bool
is_new_key none events = true
is_new_key (some (r, g, d)) events = elim (find_transition r g d events) [
  | none ↦ true
  | some _ ↦ false
]

-- The constraints of a location_events row that is inserted.
unfoldable pub event_row_ok : Tables → EventRow → Bool
unfolding has transition_key find_transition
event_row_ok tables row =
    not (has (λ (e : EventRow). e.id) row.id tables.events)
    && has (λ (j : JournalRow). j.id) row.journal_id tables.journals
    && refers (λ (r : RuleRow). r.id) row.rule_id tables.rules
    && has (λ (t : TrackerRow). t.id) row.tracker_id tables.trackers
    && has (λ (p : PlaceRow). p.id) row.place_id tables.places
    && refers (λ (e : EventRow). e.id) row.original_event_id tables.events
    && is_new_key (transition_key row) tables.events
