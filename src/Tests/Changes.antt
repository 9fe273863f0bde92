-- ===== src/Tests/Changes.antt =====
-- Manual events and purges in the test database.
use hass_geofence_journal.Prelude.{◌≡◌, refl, true, false, none, some, [], ◌∷◌}
use hass_geofence_journal.Errors.{ok}
use hass_geofence_journal.Models.{EventStatus}
use hass_geofence_journal.Storage.Tables.{Tables, find, has, event_row_ok, transition_key}
use hass_geofence_journal.Storage.Sql.{
  Connection, ◌>>=◌, transaction, begin_immediate, query, pure, update, write, close_body,
}
use hass_geofence_journal.Storage.Sql.Laws.{IsAtomic}
use hass_geofence_journal.Storage.Events.{
  AddEventRequest, EventMutation, manual_event, is_add_fault, add_event, is_change_fault,
  change_status, revision_of, add_body, require_reference, require,
}
use hass_geofence_journal.Storage.Events.Addition.{Adds, add_event-IsAtomic}
use hass_geofence_journal.Storage.Events.Atomicity.{Changes, change_status-IsAtomic}
use hass_geofence_journal.Storage.Events.Repetition.{change_status_once}
use hass_geofence_journal.Storage.Maintenance.{
  PurgeRequest, is_purge_fault, purge_events, purge_result, count_if,
}
use hass_geofence_journal.Storage.Maintenance.Purge.{counts, purged}
use hass_geofence_journal.Storage.Maintenance.Purged.{
  Answers, IsExact, purge_events-IsAtomic, purge_succeeds, purge_events-IsExact,
}
use hass_geofence_journal.Storage.Transitions.{insert_event}
use hass_geofence_journal.Storage.Reset.{is_reset_fault, reset_database}
use hass_geofence_journal.Storage.Reset.Emptied.{Resets, reset_database-IsAtomic}
use hass_geofence_journal.Tests.Data.{home_tables}

abbrev visit : AddEventRequest
visit = record {
  event_id = 9;
  journal_id = 4;
  tracker_id = 2;
  place_id = 3;
  occurred_at = 50;
  confirmed_at = 60;
  latitude = none;
  longitude = none;
  accuracy_m = none;
  note = some "by hand";
}

abbrev with_visit : Tables
unfolding manual_event
with_visit = record home_tables { events = manual_event visit ∷ [] }

abbrev calm : Tables → Connection
calm t = record { tables = t; before = none; faults = [] }

-- The fourth statement fails.
abbrev shaky : Tables → Connection
shaky t = record { tables = t; before = none; faults = false ∷ false ∷ false ∷ true ∷ [] }

add_event-IsAtomic_example :
    IsAtomic is_add_fault (Adds visit) (shaky home_tables) (add_event visit (shaky home_tables))
add_event-IsAtomic_example = add_event-IsAtomic visit (shaky home_tables) refl

visit_added : add_event visit (calm home_tables) ≡ (ok (record { event_id = 9 }), calm with_visit)
unfolding add_event add_body require_reference require transaction begin_immediate close_body query
    write insert_event event_row_ok transition_key manual_event ◌>>=◌ pure
visit_added = refl

abbrev mistake : EventMutation
mistake = record { event_id = 9; changed_at = 70; changed_by = none; reason = some "mistake" }

abbrev later : EventMutation
later = record { event_id = 9; changed_at = 80; changed_by = some "b"; reason = none }

change_status-IsAtomic_example :
    IsAtomic is_change_fault
      (Changes mistake EventStatus.excluded 20)
      (shaky with_visit)
      (change_status mistake EventStatus.excluded 20 (shaky with_visit))
change_status-IsAtomic_example =
    change_status-IsAtomic mistake EventStatus.excluded 20 (shaky with_visit) refl

excluded_once : Connection
excluded_once = (change_status mistake EventStatus.excluded 20 (calm with_visit)).1

excluded_made : change_status mistake EventStatus.excluded 20 (calm with_visit) ≡ (
  ok (record {
    event_id = 9;
    revision_id = some 20;
    status = EventStatus.excluded;
    changed = true;
  }),
  excluded_once,
)
unfolding change_status ◌>>=◌ transaction begin_immediate query find with_visit pure update write
    has revision_of excluded_once
excluded_made = refl

excluded_calm : excluded_once.faults ≡ []
unfolding excluded_once change_status ◌>>=◌ transaction begin_immediate query find with_visit pure
    update write has revision_of
excluded_calm = refl

change_status_once_example : change_status later EventStatus.excluded 21 excluded_once ≡ (
  ok (record { event_id = 9; revision_id = none; status = EventStatus.excluded; changed = false }),
  excluded_once,
)
change_status_once_example =
    change_status_once mistake later EventStatus.excluded 20 21 (calm with_visit) excluded_once
      (record {
        event_id = 9;
        revision_id = some 20;
        status = EventStatus.excluded;
        changed = true;
      })
      refl excluded_made excluded_calm refl

abbrev old_events : PurgeRequest
old_events = record { before = 55; journal_id = some 4; dry_run = false; confirm = true }

purge_events-IsAtomic_example :
    IsAtomic is_purge_fault
      (Answers old_events)
      (shaky with_visit)
      (purge_events old_events (shaky with_visit))
purge_events-IsAtomic_example = purge_events-IsAtomic old_events (shaky with_visit) refl

purge_succeeds_example :
    purge_events old_events (calm with_visit)
    ≡ (ok (purge_result (counts old_events with_visit)), calm (purged old_events with_visit))
purge_succeeds_example = purge_succeeds old_events with_visit refl refl

-- One event, and it is gone.
purged_test : counts old_events with_visit ≡ (1, 0)
unfolding count_if with_visit
purged_test = refl

purge_events-IsExact_example :
    IsExact old_events
      (purge_result (counts old_events with_visit))
      with_visit
      (purged old_events with_visit)
purge_events-IsExact_example =
    purge_events-IsExact old_events (calm with_visit) (calm (purged old_events with_visit))
      (purge_result (counts old_events with_visit)) refl purge_succeeds_example refl

reset_database-IsAtomic_example :
    IsAtomic is_reset_fault Resets
      (shaky with_visit)
      (reset_database "DELETE ALL GEOFENCE JOURNAL DATA" (shaky with_visit))
reset_database-IsAtomic_example =
    reset_database-IsAtomic "DELETE ALL GEOFENCE JOURNAL DATA" (shaky with_visit) refl
