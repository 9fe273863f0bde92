-- ===== src/Management/Observer.antt =====
-- custom_components/geofence_journal/ha_observer.py: HomeAssistantTransitionObserver.
use hass_geofence_journal.Prelude.{◌++◌, [], ◌∷◌}
use hass_geofence_journal.Errors.{Result, ok, err}
use hass_geofence_journal.Exec.{Exec}
use hass_geofence_journal.Storage.Records.{TransitionResult, RuntimeStateRecord}
use hass_geofence_journal.Storage.Resources.Active.{ConfiguredResources}
use hass_geofence_journal.Management.Events.{
  JournalEventPayload, transition_event_payload, Services,
}

-- The payload is fired on the bus, and its timestamp is recorded.
unfoldable pub publish_payload : Result JournalEventPayload → Exec Services (Unit {0})
publish_payload (err x) w = (err x, w)
publish_payload (ok payload) w = (
  ok tt,
  record w { fired = w.fired ++ payload ∷ []; published = w.published ++ payload.timestamp ∷ [] },
)

-- `HomeAssistantTransitionObserver.on_transition`
unfoldable pub observe_transition :
    ConfiguredResources → TransitionResult → RuntimeStateRecord → Exec Services (Unit {0})
observe_transition resources result s =
    publish_payload (transition_event_payload result s resources)
