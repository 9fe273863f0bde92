-- ===== src/Models.antt =====
-- custom_components/geofence_journal/models.py: the domain types. An identifier is a UUID's text
-- of fixed width, which the program compares and sorts only: it is the UUID's number. Instants
-- are aware UTC datetimes, as microseconds since 0001-01-01T00:00:00Z.
use hass_geofence_journal.Prelude.{
  ℕ, ◌+◌, ◌*◌, ◌≡◌, arith, String, Bool, true, false, leb, if◌then◌else◌,
}
use hass_geofence_journal.Float.{Float}
use hass_geofence_journal.Errors.{Result, ok, err, overflow}

pub data TrackerKind : Type 0 where
  person device_tracker : TrackerKind

pub data PresenceState : Type 0 where
  inside outside unknown : PresenceState

pub data LocationEventType : Type 0 where
  enter exit manual : LocationEventType

pub data EventStatus : Type 0 where
  confirmed excluded : EventStatus

pub data LocationSource : Type 0 where
  gps ha_zone manual : LocationSource

-- `is`, on members of the enumerations.
abbrev pub is_presence : PresenceState → PresenceState → Bool
is_presence PresenceState.inside PresenceState.inside = true
is_presence PresenceState.outside PresenceState.outside = true
is_presence PresenceState.unknown PresenceState.unknown = true
is_presence _ _ = false

abbrev pub is_tracker_kind : TrackerKind → TrackerKind → Bool
is_tracker_kind TrackerKind.person TrackerKind.person = true
is_tracker_kind TrackerKind.device_tracker TrackerKind.device_tracker = true
is_tracker_kind _ _ = false

abbrev pub is_status : EventStatus → EventStatus → Bool
is_status EventStatus.confirmed EventStatus.confirmed = true
is_status EventStatus.excluded EventStatus.excluded = true
is_status _ _ = false

pub record Coordinates : Type 0 where
  pub latitude : Float
  pub longitude : Float

pub record TrackerDefinition : Type 0 where
  pub tracker_id : ℕ
  pub entity_id : String
  pub kind : TrackerKind
  pub name : String
  pub enabled : Bool

pub record CoordinatePlace : Type 0 where
  pub place_id : ℕ
  pub name : String
  pub center : Coordinates
  pub radius_m : Float

pub record ZonePlace : Type 0 where
  pub place_id : ℕ
  pub name : String
  pub entity_id : String

pub data PlaceDefinition : Type 0 where
  coordinate_place : CoordinatePlace → PlaceDefinition
  zone_place : ZonePlace → PlaceDefinition

pub record JournalDefinition : Type 0 where
  pub journal_id : ℕ
  pub name : String
  pub enabled : Bool

-- The three intervals are whole seconds, 0 or more: the services and the schema check that.
pub record RuleDefinition : Type 0 where
  pub rule_id : ℕ
  pub tracker_id : ℕ
  pub place_id : ℕ
  pub journal_id : ℕ
  pub enabled : Bool
  pub enter_confirmation_seconds : ℕ
  pub exit_confirmation_seconds : ℕ
  pub cooldown_seconds : ℕ
  pub exit_margin_meters : Float
  pub max_gps_accuracy_meters : Float

-- `datetime.max`, 9999-12-31T23:59:59.999999.
max_instant : ℕ
max_instant = 315537897599999999

-- `instant + timedelta(seconds=n)`, which raises OverflowError past `datetime.max`.
unfoldable pub add_seconds : ℕ → ℕ → Result ℕ
unfolding max_instant
add_seconds instant n =
    let later = instant + n * 1000000 in if leb later max_instant then ok later else err overflow

pub is_presence→eq : (a b : PresenceState) → is_presence a b ≡ true → a ≡ b
is_presence→eq a b h = ground arith
