-- ===== src/Tests/Services.antt =====
-- The settings, an accepted place and calls of the event services, on the test database.
use hass_geofence_journal.Storage.Transitions.{insert_event}
use hass_geofence_journal.Export.Rows.{join_event}
use hass_geofence_journal.Storage.Events.{
  add_event, add_body, change_body, change_status, changes, exclude_event, found_event,
  insert_revision, manual_event, require, require_reference, restore_event, revision_of, roll_back,
  set_status, settle_change,
}
use hass_geofence_journal.Text.{strip, strip_text, lstrip_text, rstrip_text}
use hass_geofence_journal.Prelude.{
  Option, String, Bool, ◌≡◌, refl, true, false, none, some, [], ◌∷◌,
}
use hass_geofence_journal.Prelude.Int.{ℤ, pos, negsuc}
use hass_geofence_journal.Float.{Float, of_ℕ, neg_of_ℕ}
use hass_geofence_journal.Errors.{ok}
use hass_geofence_journal.Location.{naive, aware}
use hass_geofence_journal.Models.{PlaceDefinition}
use hass_geofence_journal.Storage.Tables.{
  Tables, has, event_row_ok, find, find_transition, same_key, transition_key,
}
use hass_geofence_journal.Storage.Resources.{put_place}
use hass_geofence_journal.Storage.Sql.{
  Connection, ◌>>=◌, transaction, begin_immediate, query, pure, raise, close_body, rollback, update,
  write,
}
use hass_geofence_journal.Settings
use hass_geofence_journal.Settings.{
  Field, conf_store_coordinates, conf_enter_confirmation_seconds, conf_exit_confirmation_seconds,
  conf_cooldown_seconds, conf_exit_margin_meters, conf_database_path, Mapping, bool, int, float,
  str, other, Settings, from_mapping, valid, invalid, read_bool, read_int, read_float, read_str,
  post_init,
}
use hass_geofence_journal.Settings.Parsed.{Answers, from_mapping-Answers}
use hass_geofence_journal.Management.Requests
use hass_geofence_journal.Management.Requests.{UpsertPlaceRequest, PlaceKind, validate_place}
use hass_geofence_journal.Management.Requests.Accepted.{validate_place-stored}
use hass_geofence_journal.Management.Resources.{place_of, margin_or}
use hass_geofence_journal.Management.Events.{
  Services, adds, async_add_manual_event, dispatch_event, dispatch_action, dispatch_add,
  async_add_event, run, add_and_read, manual_request, event_payload, fire_if_changed, found_payload,
  mutate_and_read, mutation, payload_of, publish, respond, select_event,
}
use hass_geofence_journal.Management.Events.Told.{IsTold, Makes, told_times, dispatch_event-IsTold}
use hass_geofence_journal.Management.Events.Privacy.{
  StoresNoPosition, async_add_manual_event-StoresNoPosition,
}
use hass_geofence_journal.Tests.Data.{home_tables}

-- `float`, on the integers of the tests.
abbrev small_float : ℤ → Option Float
small_float (pos n) = some (of_ℕ n)
small_float (negsuc n) = none

abbrev raw : Mapping
raw conf_store_coordinates = bool true
raw conf_enter_confirmation_seconds = int (pos 60)
raw conf_exit_confirmation_seconds = int (pos 120)
raw conf_cooldown_seconds = int (pos 300)
raw conf_exit_margin_meters = int (pos 50)
raw conf_database_path = str "j.db"

abbrev home_settings : Settings
home_settings = record {
  store_coordinates = true;
  enter_confirmation_seconds = pos 60;
  exit_confirmation_seconds = pos 120;
  cooldown_seconds = pos 300;
  exit_margin_meters = of_ℕ 50;
  database_path = "j.db";
}

from_mapping-Answers_example : Answers small_float raw (from_mapping small_float raw)
from_mapping-Answers_example = from_mapping-Answers small_float raw

raw_parsed : from_mapping small_float raw ≡ valid home_settings
unfolding from_mapping Settings.◌>>=◌ Settings.converted read_bool read_int read_float read_str
    post_init of_ℕ strip
raw_parsed = refl

abbrev bad_raw : Mapping
bad_raw conf_cooldown_seconds = bool true
bad_raw field = raw field

-- A bool is no number of seconds.
bool_refused : from_mapping small_float bad_raw ≡ invalid conf_cooldown_seconds
unfolding from_mapping Settings.◌>>=◌ Settings.converted read_bool read_int
bool_refused = refl

abbrev any_entity : String → Bool
any_entity s = true

abbrev office : UpsertPlaceRequest
office = record {
  resource_id = none;
  name = "Office";
  source_type = PlaceKind.coordinate;
  zone_entity_id = none;
  latitude = some (of_ℕ 37);
  longitude = some (of_ℕ 127);
  radius_meters = some (of_ℕ 100);
  exit_margin_meters = none;
  enabled = true;
}

validate_place-stored_example :
    (place : PlaceDefinition) × (new : Tables) × (place_of 8 office office.source_type ≡ ok place)
    × (put_place place 5
          (margin_or office.exit_margin_meters home_settings.exit_margin_meters)
          office.enabled
          home_tables
        ≡ some new)
unfolding validate_place strip_text of_ℕ neg_of_ℕ Requests.fields_match
validate_place-stored_example =
    validate_place-stored any_entity office office home_settings 8 5 home_tables refl refl

abbrev visit : Requests.AddEventRequest
visit = record {
  journal_id = 4;
  tracker_id = 2;
  place_id = 3;
  occurred_at = aware 50;
  latitude = some (of_ℕ 37);
  longitude = some (of_ℕ 127);
  accuracy_m = some (of_ℕ 5);
  note = some " by hand ";
}

abbrev store : Connection
store = record { tables = home_tables; before = none; faults = [] }

abbrev services : Services
services = record { connection = store; fired = []; published = [] }

dispatch_event-IsTold_example :
    IsTold
      (Makes true none 9 60 (adds visit))
      9
      (told_times (adds visit))
      services
      (dispatch_event true none 9 60 (adds visit) services)
dispatch_event-IsTold_example = dispatch_event-IsTold true none 9 60 (adds visit) services refl

async_add_manual_event-StoresNoPosition_example :
    StoresNoPosition home_tables (async_add_manual_event 9 60 false visit store).1.tables
async_add_manual_event-StoresNoPosition_example =
    async_add_manual_event-StoresNoPosition 9 60 visit store refl

-- A naive instant is refused.
naive_told : told_times (adds (record visit { occurred_at = naive 50 })) ≡ []
unfolding Requests.validate_event of_ℕ neg_of_ℕ
naive_told = refl

visit_told : told_times (adds visit) ≡ 50 ∷ []
unfolding Requests.validate_event of_ℕ neg_of_ℕ
visit_told = refl

visit_fired : (dispatch_event true none 9 60 (adds visit) services).1.published ≡ 50 ∷ []
unfolding dispatch_event ◌>>=◌ dispatch_action dispatch_add Requests.validate_event of_ℕ neg_of_ℕ
    async_add_event run async_add_manual_event add_and_read add_event transaction begin_immediate
    query has manual_request pure raise join_event event_payload fire_if_changed found_payload
    mutate_and_read mutation payload_of publish respond select_event add_body change_body
    change_status changes exclude_event found_event insert_revision manual_event require
    require_reference restore_event revision_of roll_back set_status settle_change close_body
    rollback update write event_row_ok find find_transition same_key transition_key insert_event
    lstrip_text rstrip_text strip_text
visit_fired = refl
