-- ===== src/Lib.antt =====
-- Geofence Journal, a Home Assistant integration (custom_components/geofence_journal) that records
-- when a tracker has entered or left a place.
--
-- A tracker sample is parsed (location.py), evaluated against a place with two boundaries
-- (geofence.py), and given to the engine of each rule (runtime/engine.py). The engine holds a
-- runtime state, schedules a deadline for a change of presence, re-evaluates at the deadline, and
-- commits an event together with its new state (storage/transitions.py) to SQLite.
--
-- Prelude, Exec, Errors, Float, Text: shared helpers. Exec is state with exceptions; Exec/Rules has
--   rules for what an action does to a predicate, also when it raises. Float is binary64: a finite
--   number is an integer multiple of 2 ^ -1074. Text is str.strip and str.lower over code points.
-- Models: models.py. Location, Location/Checks: location.py. Geofence, Geofence/Hysteresis:
--   geofence.py.
-- Storage/Records, Storage/Tables: storage/records.py and the schema of storage/schema.py with its
--   constraints. Storage/Sql: storage/db_types.py, a connection and the shape of the transactions.
-- Storage/RuntimeState, Storage/Transitions: storage/runtime_state.py, storage/transitions.py.
-- Storage/Events: storage/events.py. Storage/Maintenance, Storage/Reset: the
--   purge and the reset of storage/maintenance.py.
-- Storage/Resources and Resources/Active: storage/resources.py, storage/resource_queries.py.
-- Runtime/State: runtime/state.py and runtime/confirmation.py. Runtime/Contracts:
--   runtime/contracts.py; the storage is an interface with laws, and Runtime/SqliteStore fills it
--   with the SQLite operations. Runtime/Action, Runtime/Engine and its children: runtime/engine.py,
--   one definition per method, with the guards and the order of the calls of the source.
-- Runtime/Coherence, Soundness, Lifecycle, Progress, Fuel, Samples: what is shown of them.
-- Storage/Repository and its children: opening, creating and closing the database file in
--   storage/repository.py, with bootstrap_v1 of storage/schema.py. Storage/Adapter:
--   storage/async_adapter.py, the gate before it.
-- HaState, HaState/Decisions: listener.py up to the listener, and ha_confirmation.py. Listener and
--   its children: GeofenceTrackerListener of listener.py, over the engines of the rules.
-- Export/Csv, Export/Rows, Export/Registry and their children: export.py. Export/Csv/Reader is a
--   CSV reader as RFC 4180 has it, which the program does not contain.
-- Settings, Settings/Parsed: settings.py. Management/Requests: the requests and validators of
--   maintenance.py. Management/Resources: management_resources.py. Management/Events and its
--   children: management_events.py, the payloads of maintenance.py, and what service_dispatch.py
--   and management_backend.py do for the event services. Management/Backend: the pauses of
--   management_backend.py around upserts, purge and reset, and the dispatch of the upserts.
--   Management/Observer: ha_observer.py.
-- Manager and its children: manager.py, the generation of engines and listener over the open store.
--   Manager/Kept has what a new generation does to the recorded events.
-- Tests: the theorems at concrete inputs, and runs.
--
-- Conventions. An identifier is the UUID's number. An instant is an aware UTC datetime, in
-- microseconds since 0001-01-01; location.py alone meets naive ones. Seconds are natural numbers:
-- the services and the schema reject others. A datetime past datetime.max raises OverflowError.
-- float of a text and the distance between coordinates (haversine, with the trigonometry of the C
-- library) are parameters. SQLite follows its documentation: a statement that fails changes
-- nothing, a CHECK that is NULL passes, NaN is stored as NULL; a list of faults says which
-- statements fail for other reasons, and COMMIT does not fail. An engine's method holds its lock, so
-- it is one step; the clock, the identifiers and the re-evaluation are functions of the number of
-- the call in that step. The scheduler is its list of live calls, the observer a log. A call of the
-- listener, of the store's adapter or of the export registry is one step too. An attribute of a
-- Home Assistant state is a number, a text, None or something else, and states.get is a function.
-- A text of an export is its code points; str of a float, of a UUID and of an instant are
-- parameters, and a list of faults says which writes to the directory fail. A file that is held cannot
-- be removed, where an export or a reset removes it; the file of a single download can be.
-- A request of a service comes with fields of the right Python types, as pydantic has parsed them;
-- valid_entity_id of Home Assistant and float of an int, which can overflow, are parameters. A text of an event payload
-- that stands for an identifier, an enumeration or an instant is that value.
-- _confirm_locked and _restore_pending_locked call one another, which takes fuel. Fuel 2 is enough
-- for a clock that does not go back during a call (Runtime/Fuel); with less, the step raises.
--
-- A call of the manager and of the backend over it is one step on an open store, which is idle
-- between the operations; its faults are the same list in each of them.
--
-- Closing a connection gives up its open transaction and keeps what was committed. The file of a
-- database is empty, foreign, or has this schema: a foreign file with a schema_version table of its own
-- is not among them.
--
-- Not modelled: Home Assistant's glue (entities, forms, views, registration, setup of the entry), the
-- worker thread of the SQLite adapter, the manager's start and stop and its diagnostic snapshot, the
-- export service between the registry and the file, compaction, and the release scripts.
pub mod Prelude
pub mod Float
pub mod Models
pub mod Errors
pub mod Exec
pub mod Text
pub mod Location
pub mod Geofence
pub mod Storage
pub mod Runtime
pub mod HaState
pub mod Listener
pub mod Export
pub mod Settings
pub mod Management
pub mod Manager
pub mod Tests
