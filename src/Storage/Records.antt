-- ===== src/Storage/Records.antt =====
-- custom_components/geofence_journal/storage/records.py, and the event row that storage/schema.py
-- declares as location_events.
use hass_geofence_journal.Prelude.{ℕ, String, Bool, true, false, ◌&&◌, Option, none, some}
use hass_geofence_journal.Float.{Float, nan}
use hass_geofence_journal.Models.{
  Coordinates, PresenceState, LocationEventType, LocationSource, EventStatus,
}

pub record RuntimeStateRecord : Type 0 where
  pub rule_id : ℕ
  pub presence_state : PresenceState
  pub last_event_id : Option ℕ
  pub last_event_type : Option LocationEventType
  pub last_event_at : Option ℕ
  pub enter_cooldown_until : Option ℕ
  pub exit_cooldown_until : Option ℕ
  pub pending_transition : Option PresenceState
  pub pending_started_at : Option ℕ
  pub pending_deadline : Option ℕ
  pub pending_generation : ℕ
  pub latest_observation_at : Option ℕ
  pub latest_coordinates : Option Coordinates
  pub latest_accuracy_m : Option Float
  pub last_processed_at : Option ℕ
  pub updated_at : ℕ

abbrev pub is_number : Float → Bool
is_number nan = false
is_number _ = true

abbrev pub numbers : Option Coordinates → Bool
numbers none = true
numbers (some c) = is_number c.latitude && is_number c.longitude

abbrev pub number_or_none : Option Float → Bool
number_or_none none = true
number_or_none (some a) = is_number a

-- SQLite stores NaN as NULL, so only a state without NaN comes back as it was.
unfoldable pub no_nan : RuntimeStateRecord → Bool
no_nan state = numbers state.latest_coordinates && number_or_none state.latest_accuracy_m

abbrev pub latitude_of : Option Coordinates → Option Float
latitude_of none = none
latitude_of (some c) = some c.latitude

abbrev pub longitude_of : Option Coordinates → Option Float
longitude_of none = none
longitude_of (some c) = some c.longitude

pub record TransitionResult : Type 0 where
  pub event_id : ℕ
  pub created : Bool

-- `runtime_state` is optional in the source; the engine always gives it.
pub record ConfirmedTransition : Type 0 where
  pub event_id : ℕ
  pub rule_id : ℕ
  pub tracker_id : ℕ
  pub place_id : ℕ
  pub journal_id : ℕ
  pub event_type : LocationEventType
  pub source : LocationSource
  pub target_state : PresenceState
  pub occurred_at : ℕ
  pub confirmed_at : ℕ
  pub generation : ℕ
  pub confirmed_deadline : ℕ
  pub coordinates : Option Coordinates
  pub accuracy_m : Option Float
  pub runtime_state : Option RuntimeStateRecord

-- A row of location_events. `original_event_id` is never written by the program but to clear it.
pub record EventRow : Type 0 where
  pub id : ℕ
  pub journal_id : ℕ
  pub rule_id : Option ℕ
  pub tracker_id : ℕ
  pub place_id : ℕ
  pub event_type : LocationEventType
  pub occurred_at : ℕ
  pub confirmed_at : ℕ
  pub latitude : Option Float
  pub longitude : Option Float
  pub accuracy_m : Option Float
  pub source : LocationSource
  pub status : EventStatus
  pub note : Option String
  pub original_event_id : Option ℕ
  pub transition_generation : Option ℕ
  pub confirmed_deadline : Option ℕ
  pub created_at : ℕ
  pub updated_at : ℕ
