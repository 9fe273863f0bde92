-- ===== src/Management/Events.antt =====
-- custom_components/geofence_journal/management_events.py, the payloads of maintenance.py,
-- ha_observer.py, and the dispatch of the event services in service_dispatch.py. A text of the
-- payload that stands for an identifier, an enumeration or an instant is that value.
pub mod Privacy
pub mod Told
use hass_geofence_journal.Prelude.{
  ℕ, String, Bool, true, false, ◌&&◌, Option, none, some, List, [], ◌∷◌, ◌++◌, if◌then◌else◌,
  is_some,
}
use hass_geofence_journal.Errors.{
  Result, ok, err, runtime_invariant, event_not_found, service_validation,
}
use hass_geofence_journal.Float.{Float}
use hass_geofence_journal.Models.{
  LocationEventType, EventStatus, PlaceDefinition, coordinate_place, zone_place,
}
use hass_geofence_journal.Location.{instant}
use hass_geofence_journal.Storage.Records.{EventRow, TransitionResult, RuntimeStateRecord}
use hass_geofence_journal.Storage.Tables.{Tables, find}
use hass_geofence_journal.Storage.Sql.{Connection, Sql, pure, raise, query, ◌>>=◌}
use hass_geofence_journal.Storage.Sql
use hass_geofence_journal.Exec.{Exec}
use hass_geofence_journal.Storage.Resources.{place_id, place_name}
use hass_geofence_journal.Storage.Resources.Active.{ConfiguredResources}
use hass_geofence_journal.Storage.Events.{
  EventMutation, EventMutationResult, add_event, exclude_event, restore_event,
}
use hass_geofence_journal.Storage.Events
use hass_geofence_journal.Export.Rows.{Joined, join_event}
use hass_geofence_journal.Management.Requests.{AddEventRequest, strip_option, validate_event}

pub record JournalEventPayload : Type 0 where
  pub event_id : ℕ
  pub journal_id : ℕ
  pub journal_name : String
  pub rule_id : Option ℕ
  pub tracker_id : ℕ
  pub tracker_name : String
  pub place_id : ℕ
  pub place_name : String
  pub event_type : LocationEventType
  pub status : EventStatus
  pub timestamp : ℕ

pub record EventResponse : Type 0 where
  pub changed : Bool
  pub payload : JournalEventPayload

unfoldable pub payload_at :
    TransitionResult
    → ConfiguredResources
    → Option LocationEventType
    → Option ℕ
    → Result JournalEventPayload
payload_at result resources (some event_type) (some timestamp) = ok (record {
  event_id = result.event_id;
  journal_id = resources.journal.journal_id;
  journal_name = resources.journal.name;
  rule_id = some resources.rule.rule_id;
  tracker_id = resources.tracker.tracker_id;
  tracker_name = resources.tracker.name;
  place_id = place_id resources.place;
  place_name = place_name resources.place;
  event_type = event_type;
  status = EventStatus.confirmed;
  timestamp = timestamp;
})
payload_at result resources _ _ = err runtime_invariant

unfoldable pub transition_event_payload :
    TransitionResult → RuntimeStateRecord → ConfiguredResources → Result JournalEventPayload
transition_event_payload result s resources =
    payload_at result resources s.last_event_type s.last_event_at

-- A row of the query of `_event_payload`.
unfoldable pub payload_of : Joined → JournalEventPayload
payload_of x = record {
  event_id = x.event.id;
  journal_id = x.event.journal_id;
  journal_name = x.journal_name;
  rule_id = x.event.rule_id;
  tracker_id = x.event.tracker_id;
  tracker_name = x.tracker_name;
  place_id = x.event.place_id;
  place_name = x.place_name;
  event_type = x.event.event_type;
  status = x.event.status;
  timestamp = x.event.occurred_at;
}

unfoldable pub select_event : ℕ → Tables → Option Joined
select_event id t = elim (find (λ (e : EventRow). e.id) id t.events) [
  | none ↦ none
  | some e ↦ join_event t e
]

unfoldable pub found_payload : Option Joined → Sql JournalEventPayload
found_payload none = raise event_not_found
found_payload (some x) = pure (payload_of x)

-- `_event_payload`
unfoldable pub event_payload : ℕ → Sql JournalEventPayload
event_payload id = do row ← query (select_event id); found_payload row

-- The storage request of `async_add_manual_event`; `fresh` is `uuid4()`, `now` the clock's reading.
unfoldable pub manual_request : ℕ → ℕ → Bool → AddEventRequest → Events.AddEventRequest
manual_request fresh now store_coordinates r =
    let coordinates = store_coordinates && is_some r.latitude in
    record {
      event_id = fresh;
      journal_id = r.journal_id;
      tracker_id = r.tracker_id;
      place_id = r.place_id;
      occurred_at = instant r.occurred_at;
      confirmed_at = now;
      latitude = if coordinates then r.latitude else none;
      longitude = if coordinates then r.longitude else none;
      accuracy_m = if coordinates then r.accuracy_m else none;
      note = r.note;
    }

-- What a change of an event answers with.
unfoldable pub respond : Bool → ℕ → Sql EventResponse
respond changed event_id = do
  payload ← event_payload event_id
  pure (record { changed = changed; payload = payload })

-- `_add_and_read`
unfoldable pub add_and_read : Events.AddEventRequest → Sql EventResponse
add_and_read request = do result ← add_event request; respond true result.event_id

unfoldable pub async_add_manual_event : ℕ → ℕ → Bool → AddEventRequest → Sql EventResponse
async_add_manual_event fresh now store_coordinates r =
    add_and_read (manual_request fresh now store_coordinates r)

-- `mutate_and_read`
unfoldable pub mutate_and_read : Sql EventMutationResult → Sql EventResponse
mutate_and_read operation = do result ← operation; respond result.changed result.event_id

-- A call of an event service, with its request before validation; the excluding and restoring
-- services have no validator that refuses.
pub data EventAction : Type 0 where
  adds : AddEventRequest → EventAction
  excludes restores : ℕ → Option String → EventAction

-- The store, the events that were fired on Home Assistant's bus, and what `on_event` was told.
pub record Services : Type 0 where
  pub connection : Connection
  pub fired : List JournalEventPayload
  pub published : List ℕ

-- `async_run_operation`, on the open store.
unfoldable pub run : {A : Type 0} → Sql A → Exec Services A
run operation w = let (r, c) = operation w.connection in (r, record w { connection = c })

-- `if response.changed: async_fire_journal_event(…)`
unfoldable pub fire_if_changed : EventResponse → Exec Services EventResponse
fire_if_changed response w =
    if response.changed
    then (ok response, record w { fired = w.fired ++ response.payload ∷ [] })
    else (ok response, w)

-- `self._on_event(request.occurred_at)`, in the backend.
unfoldable pub publish : ℕ → EventResponse → Exec Services EventResponse
publish occurred_at response w =
    if response.changed
    then (ok response, record w { published = w.published ++ occurred_at ∷ [] })
    else (ok response, w)

-- `user_id` is the context's user; `revision_id` is the new identifier of an audit row.
module _ (store_coordinates : Bool) (user_id : Option String) (fresh now : ℕ) where
  unfoldable pub mutation : ℕ → Option String → EventMutation
  mutation event_id reason = record {
    event_id = event_id;
    changed_at = now;
    changed_by = user_id;
    reason = reason;
  }

  -- `SQLiteManagementBackend.async_add_event`
  unfoldable pub async_add_event : AddEventRequest → Exec Services EventResponse
  async_add_event r =
      run (async_add_manual_event fresh now store_coordinates r) >>= publish (instant r.occurred_at)

  unfoldable pub dispatch_add : Option AddEventRequest → Exec Services EventResponse
  dispatch_add none = raise service_validation
  dispatch_add (some r) = async_add_event r

  unfoldable pub dispatch_action : EventAction → Exec Services EventResponse
  dispatch_action (adds r) = dispatch_add (validate_event r)
  dispatch_action (excludes id reason) =
      run (mutate_and_read (exclude_event (mutation id (strip_option reason)) fresh))
  dispatch_action (restores id reason) =
      run (mutate_and_read (restore_event (mutation id (strip_option reason)) fresh))

  -- `_dispatch_event`
  unfoldable pub dispatch_event : EventAction → Exec Services EventResponse
  dispatch_event action = dispatch_action action >>= fire_if_changed
