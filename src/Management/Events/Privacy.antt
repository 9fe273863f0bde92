-- ===== src/Management/Events/Privacy.antt =====
-- management_events.py: what is stored of a manual event's coordinates.
use mathlib.Core.Path.{subst}
use hass_geofence_journal.Prelude.{
  ℕ, ◌≡◌, refl, sym, Bool, true, false, ◌⊎◌, inl, inr, none, [], ◌∷◌, ◌++◌,
}
use hass_geofence_journal.Errors.{Result, ok, err}
use hass_geofence_journal.Storage.Records.{EventRow}
use hass_geofence_journal.Storage.Tables.{Tables}
use hass_geofence_journal.Storage.Sql.{Connection, ◌>>=◌, lift}
use hass_geofence_journal.Storage.Sql.Laws.{Atomic}
use hass_geofence_journal.Storage.Events
use hass_geofence_journal.Storage.Events.{AddEventResult, manual_event, add_event, is_add_fault}
use hass_geofence_journal.Storage.Events.Addition.{IsAdded, Adds, add_event-IsAtomic}
use hass_geofence_journal.Management.Requests.{AddEventRequest}
use hass_geofence_journal.Management.Events.{
  EventResponse, respond, manual_request, add_and_read, async_add_manual_event,
}
use hass_geofence_journal.Management.Events.Told.{IsResponse, unread, read, respond-IsResponse}

-- The tables are the old ones, or they have one event more, which has no coordinates.
abbrev pub StoresNoPosition : Tables → Tables → Type 0
StoresNoPosition old new =
    (new ≡ old)
    ⊎ ((e : EventRow) × (new ≡ record old { events = old.events ++ e ∷ [] })
        × (e.latitude ≡ none)
        × (e.longitude ≡ none)
        × (e.accuracy_m ≡ none))

IsResponse-tables :
    (changed : Bool) (id : ℕ) (t : Tables) (p : Result EventResponse × Connection)
    → IsResponse changed id t p
    → p.1.tables ≡ t
IsResponse-tables changed id t _ (unread e) = e
IsResponse-tables changed id t _ (read e h) = e

module _ (fresh now : ℕ) (r : AddEventRequest) where
  abbrev request : Events.AddEventRequest
  request = manual_request fresh now false r

  added-StoresNoPosition : (old new : Tables) → IsAdded request old new → StoresNoPosition old new
  unfolding manual_event manual_request
  added-StoresNoPosition old new h = inr (manual_event request, h.tables, refl, refl, refl)

  after-StoresNoPosition :
      (old : Tables) (res : Result AddEventResult) (c : Connection)
      → Atomic (Adds request) old res c.tables
      → StoresNoPosition old
          ((lift res >>= λ (a : AddEventResult). respond true a.event_id) c).1.tables
  unfolding lift ◌>>=◌
  after-StoresNoPosition old (ok a) c h =
      subst (StoresNoPosition old)
        (sym (IsResponse-tables true a.event_id c.tables _ (respond-IsResponse true a.event_id c)))
        (added-StoresNoPosition old c.tables h.1)
  after-StoresNoPosition old (err x) c h = inl h

  -- Where coordinates are not to be stored, adding a manual event on an idle store, whichever
  -- statements fail and whatever the request says, leaves the tables as they were or with exactly
  -- one event more, and this event has no latitude, no longitude and no accuracy.
  pub async_add_manual_event-StoresNoPosition :
      (c : Connection)
      → c.before ≡ none
      → StoresNoPosition c.tables (async_add_manual_event fresh now false r c).1.tables
  unfolding async_add_manual_event add_and_read ◌>>=◌ lift
  async_add_manual_event-StoresNoPosition c idle =
      after-StoresNoPosition c.tables (add_event request c).0 (add_event request c).1
        (add_event-IsAtomic request c idle).whole
