-- ===== src/Management/Backend.antt =====
-- custom_components/geofence_journal/management_backend.py, with the resource services of
-- service_dispatch.py: the operations that pause the manager, and the downloads.
pub mod Reset
use hass_geofence_journal.Prelude.{
  ℕ, String, Bool, true, false, Option, none, some, List, if◌then◌else◌,
}
use hass_geofence_journal.Errors.{Result, ok, err, service_validation}
use hass_geofence_journal.Float.{Float}
use hass_geofence_journal.Models.{Coordinates}
use hass_geofence_journal.Location.{instant}
use hass_geofence_journal.Storage.Sql.{Sql}
use hass_geofence_journal.Storage.Events.{require_reference, has_journal}
use hass_geofence_journal.Storage.Maintenance.{PurgeRequest, PurgeResult, purge_events}
use hass_geofence_journal.Storage.Reset.{ResetResult, reset_database}
use hass_geofence_journal.Storage.Resources.Active.{ConfiguredResources}
use hass_geofence_journal.Runtime.Contracts.{RuntimeDependencies}
use hass_geofence_journal.HaState.{HaState}
use hass_geofence_journal.Export.Registry.{FileName, Registry, discard_all}
use hass_geofence_journal.Manager.{Manager, is_ok, at_rest, with_db, pause_and_drain}
use hass_geofence_journal.Settings.{Settings}
use hass_geofence_journal.Management.Requests.{
  UpsertTrackerRequest, UpsertPlaceRequest, UpsertJournalRequest, UpsertRuleRequest,
  PurgeEventsRequest, validate_tracker, validate_place, validate_journal, validate_rule,
}
use hass_geofence_journal.Management.Resources.{
  upsert_tracker_resource, upsert_place_resource, upsert_journal_resource, upsert_rule_resource,
}

-- The manager is the coordinator, and has the database of the store.
pub record Backend : Type 0 where
  pub manager : Manager
  pub exports : Registry

-- A call of a resource service, with its request before validation.
pub data ResourceAction : Type 0 where
  upserts_tracker : UpsertTrackerRequest → ResourceAction
  upserts_place : UpsertPlaceRequest → ResourceAction
  upserts_journal : UpsertJournalRequest → ResourceAction
  upserts_rule : UpsertRuleRequest → ResourceAction

-- `_require_journal`
unfoldable pub require_journal : ℕ → Sql (Unit {0})
require_journal journal_id = require_reference (has_journal journal_id)

abbrev pub purge_request : PurgeEventsRequest → PurgeRequest
purge_request r = record {
  before = instant r.before;
  journal_id = some r.journal_id;
  dry_run = r.dry_run;
  confirm = r.confirm;
}

abbrev pub managed : {A : Type 0} → Backend → Result A × Manager → Result A × Backend
managed b (r, m) = (r, record b { manager = m })

-- The error of the second step, unless the end of the pause has raised.
abbrev pub raised_by : {A : Type 0} → Result (Unit {0}) → Result A → Result A
raised_by (ok _) r = r
raised_by (err x) (ok _) = err x
raised_by (err x) (err y) = err y

-- `discard_all` behind an operation that returned, in the scope that ended as given.
unfoldable pub then_discard :
    {A : Type 0} → (FileName → Bool) → Result A → Registry → Result A × Backend → Result A × Backend
then_discard held (err x) exports (r, after) = (r, after)
then_discard held (ok _) exports (r, after) =
    let (discarded, exports') = discard_all held exports in
    (raised_by discarded r, record after { exports = exports' })

module _ (faults : List Bool) (parse_float : String → Option Float)
    (meters_between : Coordinates → Coordinates → Float) (fuel : ℕ)
    (deps : ConfiguredResources → RuntimeDependencies) (states : String → Option HaState) where
  -- `async with self._coordinator.pause_and_drain()`, around an operation of the store.
  unfoldable pub paused : {A : Type 0} → Sql A → Backend → Result A × Backend
  paused operation b =
      managed b
        (pause_and_drain faults parse_float meters_between fuel deps states operation b.manager)

  -- An operation of the store outside a pause.
  unfoldable pub run_now : {A : Type 0} → Sql A → Backend → Result A × Backend
  run_now operation b =
      let (r, c) =
        operation
          (at_rest faults parse_float meters_between fuel deps states b.manager.generation.db) in
      (r, record b { manager = with_db b.manager c.tables })

  unfoldable pub purge_checked :
      PurgeEventsRequest → Result (Unit {0}) × Backend → Result PurgeResult × Backend
  purge_checked r (err x, b) = (err x, b)
  purge_checked r (ok _, b) =
      if r.dry_run
      then run_now (purge_events (purge_request r)) b
      else paused (purge_events (purge_request r)) b

  unfoldable pub async_purge_events : PurgeEventsRequest → Backend → Result PurgeResult × Backend
  async_purge_events r b = purge_checked r (run_now (require_journal r.journal_id) b)

  -- The downloads are discarded within the pause, once the reset has returned; `held` says which files
  -- cannot be removed.
  unfoldable pub async_reset_database :
      (FileName → Bool) → String → Backend → Result ResetResult × Backend
  async_reset_database held confirmation b =
      let reset = reset_database confirmation in
      let (operated, _) =
        reset
          (at_rest faults parse_float meters_between fuel deps states b.manager.generation.db) in
      then_discard held operated b.exports (paused reset b)

  -- `valid_entity_id` is Home Assistant's, `fresh` is `uuid4()`, and `now` the reading of the clock.
  module _ (valid_entity_id : String → Bool) (settings : Settings) (fresh now : ℕ) where
    unfoldable pub upsert_if : {R : Type 0} → Option R → (R → Sql ℕ) → Backend → Result ℕ × Backend
    upsert_if none upsert b = (err service_validation, b)
    upsert_if (some r) upsert b = paused (upsert r) b

    -- `_dispatch_resource`, with the backend's upserts.
    unfoldable pub dispatch_resource : ResourceAction → Backend → Result ℕ × Backend
    dispatch_resource (upserts_tracker r) b =
        upsert_if (validate_tracker valid_entity_id r) (upsert_tracker_resource fresh now) b
    dispatch_resource (upserts_place r) b =
        upsert_if (validate_place valid_entity_id r) (upsert_place_resource fresh now settings) b
    dispatch_resource (upserts_journal r) b =
        upsert_if (validate_journal r) (upsert_journal_resource fresh now) b
    dispatch_resource (upserts_rule r) b =
        upsert_if (validate_rule r) (upsert_rule_resource fresh now settings) b
