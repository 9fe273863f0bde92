-- ===== src/Tests/Managers.antt =====
-- A manager and the backend over it on the test database, and an engine that it has built.
use hass_geofence_journal.Prelude.{none, ℕ, ◌≡◌, ◌⊎◌, refl, ◌+◌, Bool, true, false, [], ◌∷◌}
use hass_geofence_journal.Storage.Sql.{Sql}
use hass_geofence_journal.Storage.Resources.Active.{ConfiguredResources}
use hass_geofence_journal.Storage.Reset.{ResetResult, reset_database}
use hass_geofence_journal.Runtime.Contracts.{RuntimeDependencies}
use hass_geofence_journal.Runtime.Action.{Engine}
use hass_geofence_journal.Runtime.Engine.{async_observe, deadline_callback, async_recover}
use hass_geofence_journal.Runtime.Lifecycle.{new_engine}
use hass_geofence_journal.Runtime.SqliteStore.{sqlite_store}
use hass_geofence_journal.Listener.{new_listener}
use hass_geofence_journal.Export.Registry.{FileName, csv}
use hass_geofence_journal.Management.Backend.{Backend, async_reset_database}
use hass_geofence_journal.Management.Backend.Reset.{IsReset, async_reset_database-IsReset}
use hass_geofence_journal.Runtime.Progress.{IsHeld, IsObserved, IsLoaded}
use hass_geofence_journal.Manager.{
  Manager, is_ok, at_rest, async_refresh_resources, pause_and_drain, build_dependencies,
}
use hass_geofence_journal.Manager.Kept.{IsAdded}
use hass_geofence_journal.Manager.Observing.{
  IsSettled, active_in, async_refresh_resources-IsSettled, pause_and_drain-IsSettled,
}
use hass_geofence_journal.Manager.Sampled.{IsSampled, methods-IsSampled}
use hass_geofence_journal.Geofence.{EvaluatedObservation}
use hass_geofence_journal.Location.{Outcome, accepted}
use hass_geofence_journal.Models.{inside}
use hass_geofence_journal.Tests.Data.{home_tables, sample}
use hass_geofence_journal.Tests.HaStates.{states, resources, parse, near}

abbrev ten_seconds : ℕ → ℕ
ten_seconds n = 10000000

abbrev numbers : ℕ → ℕ
numbers n = 10 + n

abbrev deps_of : ConfiguredResources → RuntimeDependencies
deps_of c = build_dependencies parse near ten_seconds numbers true states c

abbrev manager : Manager
manager = record { generation = new_listener [] home_tables; installed = false; paused = false }

async_refresh_resources-IsSettled_example :
    IsSettled
      (active_in [] parse near 2 deps_of states home_tables)
      (async_refresh_resources [] parse near 2 deps_of states manager)
unfolding new_listener
async_refresh_resources-IsSettled_example =
    async_refresh_resources-IsSettled [] parse near 2 deps_of states manager refl

abbrev reset : Sql ResetResult
reset = reset_database "DELETE ALL GEOFENCE JOURNAL DATA"

-- A reset within a pause; the fourth statement fails.
pause_and_drain-IsSettled_example :
    let faults = false ∷ false ∷ false ∷ true ∷ [] in
    let (r, c) = reset (at_rest faults parse near 2 deps_of states home_tables) in
    let p = pause_and_drain faults parse near 2 deps_of states reset manager in
    IsSettled (active_in faults parse near 2 deps_of states c.tables) p
    × ((p.0 ≡ r) ⊎ (is_ok p.0 ≡ false))
    × IsAdded c.tables.events p.1.generation.db.events
unfolding new_listener
pause_and_drain-IsSettled_example =
    pause_and_drain-IsSettled (false ∷ false ∷ false ∷ true ∷ []) parse near 2 deps_of states reset
      manager

abbrev backend : Backend
backend = record {
  manager = manager;
  exports = record {
    artifacts =
        record {
          export_id = 97 ∷ [];
          path = record { stem = 97 ∷ []; suffix = csv };
          created_at = 0;
          expires_at = 5;
        }
        ∷ [];
    directory = none;
  };
}

-- No file is held.
abbrev any_file : FileName → Bool
any_file name = false

async_reset_database-IsReset_example :
    let faults = false ∷ false ∷ false ∷ true ∷ [] in
    let (_, c) = reset (at_rest faults parse near 2 deps_of states home_tables) in
    let p =
      async_reset_database faults parse near 2 deps_of states any_file
        "DELETE ALL GEOFENCE JOURNAL DATA" backend in
    IsReset any_file backend p
    × IsSettled (active_in faults parse near 2 deps_of states c.tables) (p.0, p.1.manager)
unfolding new_listener
async_reset_database-IsReset_example =
    async_reset_database-IsReset (false ∷ false ∷ false ∷ true ∷ []) parse near 2 deps_of states
      any_file "DELETE ALL GEOFENCE JOURNAL DATA" backend

abbrev engine : Engine (sqlite_store []).Db
unfolding sqlite_store
engine = new_engine (sqlite_store []) resources.rule home_tables

abbrev arrival : Outcome EvaluatedObservation
arrival = accepted (sample inside 5)

methods-IsSampled_example :
    let built = build_dependencies parse near ten_seconds numbers true states resources in
    IsSampled
      (sqlite_store [])
      parse
      near
      ten_seconds
      numbers
      true
      states
      resources
      (IsObserved (sqlite_store []) resources.rule built engine)
      engine
      (async_observe (sqlite_store []) resources.rule built 2 arrival engine).1
    × IsSampled
        (sqlite_store [])
        parse
        near
        ten_seconds
        numbers
        true
        states
        resources
        (IsHeld (sqlite_store []) resources.rule built engine)
        engine
        (deadline_callback (sqlite_store []) resources.rule built 2 1 engine).1
    × IsSampled
        (sqlite_store [])
        parse
        near
        ten_seconds
        numbers
        true
        states
        resources
        (IsLoaded (sqlite_store []) resources.rule built engine)
        engine
        (async_recover (sqlite_store []) resources.rule built 2 engine).1
methods-IsSampled_example =
    methods-IsSampled (sqlite_store []) parse near ten_seconds numbers true states resources 2
      engine arrival 1
