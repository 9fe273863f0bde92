-- ===== src/Storage/Adapter.antt =====
-- storage/async_adapter.py: the store behind its lifecycle gate, which lets one call through at a
-- time.
pub mod Closed
use hass_geofence_journal.Prelude.{
  ℕ, Bool, true, false, not, ◌||◌, List, Option, none, if◌then◌else◌,
}
use hass_geofence_journal.Errors.{Result, ok, err, storage_closed}
use hass_geofence_journal.Storage.Records.{
  RuntimeStateRecord, ConfirmedTransition, TransitionResult,
}
use hass_geofence_journal.Storage.Sql.{Sql}
use hass_geofence_journal.Storage.Repository.{
  SqliteStore, DatabaseFile, Pragmas, open_store, close, run_operation,
}
use hass_geofence_journal.Storage.RuntimeState.{
  load_runtime_state, save_runtime_state, delete_runtime_state,
}
use hass_geofence_journal.Storage.Transitions.{confirm_transition}

pub record AsyncStore : Type 0 where
  pub store : SqliteStore
  pub opened : Bool
  pub closing : Bool

-- `__init__`, on a file.
unfoldable pub new_store : DatabaseFile → AsyncStore
new_store file = record {
  store = record { file = file; connection = none };
  opened = false;
  closing = false;
}

unfoldable pub async_open : Pragmas → List Bool → AsyncStore → Result (Unit {0}) × AsyncStore
async_open pragmas faults a =
    if a.closing
    then (err storage_closed, a)
    else if a.opened
    then (ok tt, a)
    else (let (r, s) = open_store false pragmas faults a.store in
        elim r [
          | ok _ ↦ (ok tt, record a { store = s; opened = true })
          | err x ↦ (err x, record a { store = s })
        ])

-- `_ensure_accepting`, and the operation in the worker thread.
unfoldable pub async_run_operation : {A : Type 0} → Sql A → AsyncStore → Result A × AsyncStore
async_run_operation operation a =
    if not a.opened || a.closing
    then (err storage_closed, a)
    else (let (r, s) = run_operation operation a.store in (r, record a { store = s }))

unfoldable pub async_runtime_state :
    ℕ → AsyncStore → Result (Option RuntimeStateRecord) × AsyncStore
async_runtime_state rule_id = async_run_operation (load_runtime_state rule_id)

unfoldable pub async_save_runtime_state :
    RuntimeStateRecord → AsyncStore → Result (Unit {0}) × AsyncStore
async_save_runtime_state s = async_run_operation (save_runtime_state s)

unfoldable pub async_delete_runtime_state : ℕ → AsyncStore → Result (Unit {0}) × AsyncStore
async_delete_runtime_state rule_id = async_run_operation (delete_runtime_state rule_id)

unfoldable pub async_confirm_transition :
    ConfirmedTransition → AsyncStore → Result TransitionResult × AsyncStore
async_confirm_transition t = async_run_operation (confirm_transition t false)

unfoldable pub async_close : AsyncStore → AsyncStore
async_close a =
    if a.opened
    then record { store = close a.store; opened = false; closing = true }
    else record a { closing = true }
