-- ===== src/Management/Requests.antt =====
-- custom_components/geofence_journal/maintenance.py: the requests of the services and their
-- validators. A request comes with fields of the right Python types; `none` is a ValidationError.
pub mod Accepted
use Prim.Native.String
use hass_geofence_journal.Prelude.{
  ℕ, String, Bool, true, false, not, ◌&&◌, ◌||◌, Option, none, some, List, [], ◌∷◌, ◌==◌,
  if◌then◌else◌, is_some,
}
use hass_geofence_journal.Prelude.Int.{ℤ, pos, negsuc}
use hass_geofence_journal.Float.{Float, isfinite, le_float, lt_float, of_ℕ, neg_of_ℕ}
use hass_geofence_journal.Text.{codes, eq_codes, strip_text}
use hass_geofence_journal.Models.{TrackerKind, person, device_tracker}
use hass_geofence_journal.Location.{Datetime, naive, aware}
use hass_geofence_journal.HaState.{kind_value, same_text}
use hass_geofence_journal.Storage.Reset.{is_confirmed}

pub record UpsertTrackerRequest : Type 0 where
  pub resource_id : Option ℕ
  pub entity_id : String
  pub kind : TrackerKind
  pub name : String
  pub enabled : Bool

pub data PlaceKind : Type 0 where
  coordinate ha_zone : PlaceKind

pub record UpsertPlaceRequest : Type 0 where
  pub resource_id : Option ℕ
  pub name : String
  pub source_type : PlaceKind
  pub zone_entity_id : Option String
  pub latitude : Option Float
  pub longitude : Option Float
  pub radius_meters : Option Float
  pub exit_margin_meters : Option Float
  pub enabled : Bool

pub record UpsertJournalRequest : Type 0 where
  pub resource_id : Option ℕ
  pub name : String
  pub enabled : Bool

-- The seconds are integers before validation, and not negative after it.
pub record UpsertRuleRequest : Type 0 where
  pub resource_id : Option ℕ
  pub name : String
  pub tracker_id : ℕ
  pub place_id : ℕ
  pub journal_id : ℕ
  pub enter_confirmation_seconds : Option ℤ
  pub exit_confirmation_seconds : Option ℤ
  pub cooldown_seconds : Option ℤ
  pub max_gps_accuracy_meters : Float
  pub enabled : Bool

pub record AddEventRequest : Type 0 where
  pub journal_id : ℕ
  pub tracker_id : ℕ
  pub place_id : ℕ
  pub occurred_at : Datetime
  pub latitude : Option Float
  pub longitude : Option Float
  pub accuracy_m : Option Float
  pub note : Option String

pub record PurgeEventsRequest : Type 0 where
  pub before : Datetime
  pub journal_id : ℕ
  pub dry_run : Bool
  pub confirm : Bool

-- `Field(min_length=1)`, behind str_strip_whitespace.
abbrev pub is_named : String → Bool
is_named s = elim (codes s) [ [] ↦ false | _ ∷ _ ↦ true ]

-- `partition(".")[0]`
abbrev pub before_dot : List ℕ → List ℕ
before_dot [] = []
before_dot (c ∷ s) = let rest = before_dot s in if c == 46 then [] else c ∷ rest

abbrev pub has_domain : String → String → Bool
has_domain entity_id domain = eq_codes (before_dot (codes entity_id)) (codes domain)

abbrev pub strip_option : Option String → Option String
strip_option none = none
strip_option (some s) = some (strip_text s)

-- A constraint of an optional number; allow_inf_nan is off.
abbrev pub optional : (Float → Bool) → Option Float → Bool
optional p none = true
optional p (some x) = isfinite x && p x

abbrev pub between : ℕ → Float → Bool
between n x = le_float (neg_of_ℕ n) x && le_float x (of_ℕ n)

abbrev pub not_negative : Option ℤ → Bool
not_negative none = true
not_negative (some (pos n)) = true
not_negative (some (negsuc n)) = false

-- Both are there, or neither is.
abbrev pub together : Option Float → Option Float → Bool
together none none = true
together (some _) (some _) = true
together _ _ = false

unfoldable pub validate_journal : UpsertJournalRequest → Option UpsertJournalRequest
validate_journal r =
    let stripped = record r { name = strip_text r.name } in
    if is_named stripped.name then some stripped else none

unfoldable pub validate_rule : UpsertRuleRequest → Option UpsertRuleRequest
validate_rule r =
    let stripped = record r { name = strip_text r.name } in
    if is_named stripped.name
      && not_negative r.enter_confirmation_seconds
      && not_negative r.exit_confirmation_seconds
      && not_negative r.cooldown_seconds
      && isfinite r.max_gps_accuracy_meters
      && lt_float (of_ℕ 0) r.max_gps_accuracy_meters
    then some stripped
    else none

-- `coordinates_are_complete`
abbrev pub is_complete : AddEventRequest → Bool
is_complete r =
    together r.latitude r.longitude && (not (is_some r.accuracy_m) || is_some r.latitude)

abbrev pub is_aware : Datetime → Bool
is_aware (naive t) = false
is_aware (aware t) = true

unfoldable pub validate_event : AddEventRequest → Option AddEventRequest
validate_event r =
    if optional (between 90) r.latitude
      && optional (between 180) r.longitude
      && optional (le_float (of_ℕ 0)) r.accuracy_m
      && is_aware r.occurred_at
      && is_complete r
    then some (record r { note = strip_option r.note })
    else none

unfoldable pub validate_purge : PurgeEventsRequest → Option PurgeEventsRequest
validate_purge r = if is_aware r.before then some r else none

-- The confirmation of a reset, a literal.
unfoldable pub validate_reset : String → Option String
validate_reset confirmation = if is_confirmed confirmation then some confirmation else none

-- `valid_entity_id` is Home Assistant's.
module _ (valid_entity_id : String → Bool) where
  unfoldable pub validate_tracker : UpsertTrackerRequest → Option UpsertTrackerRequest
  validate_tracker r =
      let stripped = record r { entity_id = strip_text r.entity_id; name = strip_text r.name } in
      if is_named stripped.entity_id
        && is_named stripped.name
        && has_domain stripped.entity_id (kind_value r.kind)
        && valid_entity_id stripped.entity_id
      then some stripped
      else none

  abbrev pub is_zone : Option String → Bool
  is_zone none = false
  is_zone (some entity_id) = valid_entity_id entity_id && has_domain entity_id "zone"

  -- `source_fields_match_kind`
  unfoldable pub fields_match : UpsertPlaceRequest → PlaceKind → Bool
  fields_match r coordinate =
      not (is_some r.zone_entity_id)
      && is_some r.latitude
      && is_some r.longitude
      && is_some r.radius_meters
  fields_match r ha_zone =
      is_zone r.zone_entity_id
      && not (is_some r.latitude)
      && not (is_some r.longitude)
      && not (is_some r.radius_meters)

  unfoldable pub validate_place : UpsertPlaceRequest → Option UpsertPlaceRequest
  validate_place r =
      let stripped = record r {
        name = strip_text r.name;
        zone_entity_id = strip_option r.zone_entity_id;
      } in
      if is_named stripped.name
        && optional (between 90) r.latitude
        && optional (between 180) r.longitude
        && optional (lt_float (of_ℕ 0)) r.radius_meters
        && optional (le_float (of_ℕ 0)) r.exit_margin_meters
        && fields_match stripped r.source_type
      then some stripped
      else none
