-- ===== src/Storage/Events.antt =====
-- storage/events.py: manual events, and the exclusion and restoration of events with an audit trail.
pub mod Atomicity
pub mod Repetition
pub mod Addition
use hass_geofence_journal.Prelude.{
  ℕ, ◌+◌, String, Bool, true, false, not, ◌&&◌, Option, none, some, List, [], ◌∷◌, ◌++◌, ◌==◌, leb,
  if◌then◌else◌,
}
use hass_geofence_journal.Errors.{
  Error, ok, err, sqlite, database_schema, missing_reference, event_not_found,
}
use hass_geofence_journal.Float.{Float}
use hass_geofence_journal.Models.{LocationEventType, EventStatus, LocationSource, is_status}
use hass_geofence_journal.Storage.Records.{EventRow}
use hass_geofence_journal.Storage.Tables.{
  Tables, TrackerRow, PlaceRow, JournalRow, RevisionRow, real, has, find,
}
use hass_geofence_journal.Storage.Sql.{
  Connection, Sql, pure, raise, ◌>>=◌, ◌>>◌, fails, later, write, query, update, begin_immediate,
  rollback, close_body, transaction,
}
use hass_geofence_journal.Storage.Transitions.{insert_event}

pub record AddEventRequest : Type 0 where
  pub event_id : ℕ
  pub journal_id : ℕ
  pub tracker_id : ℕ
  pub place_id : ℕ
  pub occurred_at : ℕ
  pub confirmed_at : ℕ
  pub latitude : Option Float
  pub longitude : Option Float
  pub accuracy_m : Option Float
  pub note : Option String

pub record AddEventResult : Type 0 where
  pub event_id : ℕ

pub record EventMutation : Type 0 where
  pub event_id : ℕ
  pub changed_at : ℕ
  pub changed_by : Option String
  pub reason : Option String

pub record EventMutationResult : Type 0 where
  pub event_id : ℕ
  pub revision_id : Option ℕ
  pub status : EventStatus
  pub changed : Bool

-- The row that `add_event` inserts.
unfoldable pub manual_event : AddEventRequest → EventRow
manual_event r = record {
  id = r.event_id;
  journal_id = r.journal_id;
  rule_id = none;
  tracker_id = r.tracker_id;
  place_id = r.place_id;
  event_type = LocationEventType.manual;
  occurred_at = r.occurred_at;
  confirmed_at = r.confirmed_at;
  latitude = real r.latitude;
  longitude = real r.longitude;
  accuracy_m = real r.accuracy_m;
  source = LocationSource.manual;
  status = EventStatus.confirmed;
  note = r.note;
  original_event_id = none;
  transition_generation = none;
  confirmed_deadline = none;
  created_at = r.confirmed_at;
  updated_at = r.confirmed_at;
}

unfoldable pub require : Bool → Sql (Unit {0})
require true = pure tt
require false = raise missing_reference

-- `_require_reference`
unfoldable pub require_reference : (Tables → Bool) → Sql (Unit {0})
unfolding require
require_reference present = do found ← query present; require found

abbrev pub has_journal : ℕ → Tables → Bool
has_journal id t = has (λ (j : JournalRow). j.id) id t.journals

abbrev pub has_tracker : ℕ → Tables → Bool
has_tracker id t = has (λ (x : TrackerRow). x.id) id t.trackers

abbrev pub has_place : ℕ → Tables → Bool
has_place id t = has (λ (p : PlaceRow). p.id) id t.places

-- `except MissingEventReferenceError, sqlite3.Error`
abbrev pub is_add_fault : Error → Bool
is_add_fault missing_reference = true
is_add_fault sqlite = true
is_add_fault _ = false

unfoldable pub add_body : AddEventRequest → Sql (Unit {0})
unfolding require_reference
add_body request = do
  require_reference (has_journal request.journal_id)
  require_reference (has_tracker request.tracker_id)
  require_reference (has_place request.place_id)
  write (insert_event (manual_event request))

unfoldable pub add_event : AddEventRequest → Sql AddEventResult
unfolding add_body
add_event request = do
  transaction is_add_fault (add_body request)
  pure (record { event_id = request.event_id })

-- Does the UPDATE's WHERE match: the id, and another status?
abbrev pub differs : ℕ → EventStatus → EventRow → Bool
differs id target e = (e.id == id) && not (is_status e.status target)

-- UPDATE location_events SET status=?,updated_at=? WHERE id=? AND status<>?
unfoldable pub set_status : ℕ → EventStatus → ℕ → List EventRow → List EventRow
set_status id target at [] = []
set_status id target at (e ∷ events) =
    let rest = set_status id target at events in
    (if differs id target e then record e { status = target; updated_at = at } else e) ∷ rest

-- The rows that the UPDATE changes: SELECT changes().
unfoldable pub changes : ℕ → EventStatus → List EventRow → ℕ
changes id target [] = 0
changes id target (e ∷ events) =
    let rest = changes id target events in if differs id target e then rest + 1 else rest

-- INSERT INTO event_revisions
unfoldable pub insert_revision : RevisionRow → Tables → Option Tables
insert_revision row tables =
    if not (has (λ (r : RevisionRow). r.id) row.id tables.revisions)
      && has (λ (e : EventRow). e.id) row.event_id tables.events
    then some (record tables { revisions = tables.revisions ++ row ∷ [] })
    else none

-- The audit row of a change from `old`.
unfoldable pub revision_of : EventMutation → EventStatus → ℕ → EventRow → RevisionRow
revision_of mutation target revision_id old = record {
  id = revision_id;
  event_id = mutation.event_id;
  old_data = (old.status, old.updated_at);
  new_data = (target, mutation.changed_at);
  reason = mutation.reason;
  changed_by = mutation.changed_by;
  changed_at = mutation.changed_at;
}

-- `except DatabaseSchemaError, EventNotFoundError, sqlite3.Error`
abbrev pub is_change_fault : Error → Bool
is_change_fault database_schema = true
is_change_fault event_not_found = true
is_change_fault sqlite = true
is_change_fault _ = false

-- `_event_audit_state`, once the row was read.
unfoldable pub found_event : Option EventRow → Sql EventRow
found_event none = raise event_not_found
found_event (some old) = pure old

-- `connection.rollback()`
unfoldable pub roll_back : Sql (Unit {0})
roll_back c = (ok tt, rollback c)

-- After `SELECT changes()`: nothing changed, or a revision is due; `false` is the early return.
unfoldable pub settle_change : EventMutation → EventStatus → ℕ → EventRow → ℕ → Sql Bool
unfolding roll_back insert_revision
settle_change mutation target revision_id old n =
    if n == 0
    then (do roll_back; pure false)
    else (do write (insert_revision (revision_of mutation target revision_id old)); pure true)

-- The part of `_change_status` under `try`.
unfoldable pub change_body : EventMutation → EventStatus → ℕ → Sql Bool
unfolding found_event set_status changes settle_change
change_body mutation target revision_id = do
  row ← query (λ t. find (λ (e : EventRow). e.id) mutation.event_id t.events)
  old ← found_event row
  updated ← update (λ t. (
    changes mutation.event_id target t.events,
    record t { events = set_status mutation.event_id target mutation.changed_at t.events },
  ))
  n ← query (λ _. updated)
  settle_change mutation target revision_id old n

-- What the caller gets: no revision where nothing changed.
abbrev pub mutation_result : EventMutation → EventStatus → ℕ → Bool → EventMutationResult
mutation_result mutation target revision_id changed = record {
  event_id = mutation.event_id;
  revision_id = if changed then some revision_id else none;
  status = target;
  changed = changed;
}

-- `revision_id` is what `uuid4` returns, if it is reached.
unfoldable pub change_status : EventMutation → EventStatus → ℕ → Sql EventMutationResult
unfolding change_body
change_status mutation target revision_id = do
  changed ← transaction is_change_fault (change_body mutation target revision_id)
  pure (mutation_result mutation target revision_id changed)

unfoldable pub exclude_event : EventMutation → ℕ → Sql EventMutationResult
unfolding change_status
exclude_event mutation revision_id = change_status mutation EventStatus.excluded revision_id

unfoldable pub restore_event : EventMutation → ℕ → Sql EventMutationResult
unfolding change_status
restore_event mutation revision_id = change_status mutation EventStatus.confirmed revision_id

-- `ORDER BY occurred_at DESC,id DESC LIMIT 1`
unfoldable pub latest : List EventRow → Option ℕ
latest [] = none
latest (e ∷ events) = elim (latest events) [
  | none ↦ some e.occurred_at
  | some t ↦ some (if leb t e.occurred_at then e.occurred_at else t)
]

unfoldable pub latest_event_at : Sql (Option ℕ)
latest_event_at = query λ t. latest t.events
