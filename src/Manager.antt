-- ===== src/Manager.antt =====
-- custom_components/geofence_journal/manager.py: the generation of engines and listener over the
-- open store, its refresh, and the pause around maintenance. A call holds the refresh lock, so it is
-- one step; the diagnostic snapshot is left out.
pub mod Kept
pub mod Observing
pub mod Sampled
use hass_geofence_journal.Prelude.{
  ℕ, String, Bool, true, false, Option, none, List, [], ◌∷◌, ◌||◌, ◌==◌, if◌then◌else◌,
}
use hass_geofence_journal.Errors.{Result, ok, err}
use hass_geofence_journal.Float.{Float}
use hass_geofence_journal.Models.{Coordinates, LocationSource}
use hass_geofence_journal.Storage.Tables.{Tables}
use hass_geofence_journal.Storage.Sql.{Connection, Sql, query}
use hass_geofence_journal.Storage.Events.{latest_event_at}
use hass_geofence_journal.Storage.Resources.Active.{ConfiguredResources, list_active_resources}
use hass_geofence_journal.Runtime.Contracts.{RuntimeStorage, RuntimeDependencies}
use hass_geofence_journal.Runtime.Action.{Engine}
use hass_geofence_journal.Runtime.Engine.{async_recover, async_deactivate, async_suspend}
use hass_geofence_journal.Runtime.Lifecycle.{new_engine}
use hass_geofence_journal.Runtime.SqliteStore.{sqlite_store}
use hass_geofence_journal.HaState.{HaState, async_evaluate}
use hass_geofence_journal.Listener.{RuleRuntime, Listener, new_listener, async_start, async_stop}

-- `generation` has `_runtimes`, the database, and the listener's registration; `installed` says
-- that `_listener` is there.
pub record Manager : Type 0 where
  pub generation : Listener Tables
  pub installed : Bool
  pub paused : Bool

abbrev pub with_db : Manager → Tables → Manager
with_db m d =
    let g : Listener Tables = m.generation in record m { generation = record g { db = d } }

-- `str(runtime.resources.rule.rule_id) in active_rule_ids`
unfoldable pub is_active_rule : ℕ → List ConfiguredResources → Bool
is_active_rule id [] = false
is_active_rule id (c ∷ resources) = (c.rule.rule_id == id) || is_active_rule id resources

unfoldable pub keep_runtime :
    ConfiguredResources
    → Engine Tables
    → Result (List (RuleRuntime Tables)) × Tables
    → Result (List (RuleRuntime Tables)) × Tables
keep_runtime c e (ok runtimes, d) = (ok (record { resources = c; engine = e } ∷ runtimes), d)
keep_runtime c e (err x, d) = (err x, d)

-- A call that returned.
abbrev pub is_ok : {A : Type 0} → Result A → Bool
is_ok (ok _) = true
is_ok (err _) = false

-- An error in `finally` replaces that of the scope.
unfoldable pub outcome : {A : Type 0} → Result A → Result (Unit {0}) × Manager → Result A × Manager
outcome r (ok _, m) = (r, m)
outcome r (err x, m) = (err x, m)

-- What `_async_build_resources_locked` builds an engine with; the n-th reading of the clock in a call
-- and the n-th identifier are given.
unfoldable pub build_dependencies :
    (String → Option Float)
    → (Coordinates → Coordinates → Float)
    → (ℕ → ℕ)
    → (ℕ → ℕ)
    → Bool
    → (String → Option HaState)
    → ConfiguredResources
    → RuntimeDependencies
build_dependencies parse_float meters_between utc_now next_id store_coordinates states c = record {
  utc_now = utc_now;
  next_id = next_id;
  async_evaluate = async_evaluate parse_float meters_between states c;
  source = LocationSource.gps;
  store_coordinates = store_coordinates;
}

-- The store's statements fail as `faults` say. `deps` gives what the engine of a rule is built with,
-- and `states` is `hass.states.get`.
module _ (faults : List Bool) (parse_float : String → Option Float)
    (meters_between : Coordinates → Coordinates → Float) (fuel : ℕ)
    (deps : ConfiguredResources → RuntimeDependencies) (states : String → Option HaState) where
  abbrev pub store : RuntimeStorage
  store = sqlite_store faults

  abbrev pub at_rest : Tables → Connection
  at_rest d = record { tables = d; before = none; faults = faults }

  -- Suspending an engine raises nothing.
  unfoldable pub suspend_each : List (RuleRuntime Tables) → List (RuleRuntime Tables)
  unfolding sqlite_store
  suspend_each [] = []
  suspend_each (r ∷ runtimes) =
      record r { engine = (async_suspend store r.resources.rule (deps r.resources) r.engine).1 }
      ∷ suspend_each runtimes

  -- `_async_stop_observations_locked`
  unfoldable pub stop_observations : Manager → List (RuleRuntime Tables) × Manager
  stop_observations m =
      let stopped : Listener Tables =
        if m.installed then async_stop m.generation else m.generation in
      (
        suspend_each stopped.runtimes,
        record m { generation = record stopped { runtimes = [] }; installed = false },
      )

  -- The engines of rules that are not active any more.
  unfoldable pub deactivate_missing :
      List ConfiguredResources → List (RuleRuntime Tables) → Tables → Result (Unit {0}) × Tables
  unfolding sqlite_store
  deactivate_missing resources [] d = (ok tt, d)
  deactivate_missing resources (r ∷ runtimes) d =
      if is_active_rule r.resources.rule.rule_id resources
      then deactivate_missing resources runtimes d
      else (let (res, e) =
            async_deactivate store r.resources.rule (deps r.resources)
              (record r.engine { db = d }) in
          elim res [ ok _ ↦ deactivate_missing resources runtimes e.db | err x ↦ (err x, e.db) ])

  -- The new engines, each recovered on what the one before left.
  unfoldable pub build_runtimes :
      List ConfiguredResources → Tables → Result (List (RuleRuntime Tables)) × Tables
  unfolding sqlite_store
  build_runtimes [] d = (ok [], d)
  build_runtimes (c ∷ resources) d =
      let (res, e) = async_recover store c.rule (deps c) fuel (new_engine store c.rule d) in
      elim res [ ok _ ↦ keep_runtime c e (build_runtimes resources e.db) | err x ↦ (err x, e.db) ]

  -- `await listener.async_start()`, once the listener is installed.
  unfoldable pub start_listener : Manager → Result (Unit {0}) × Manager
  unfolding sqlite_store
  start_listener m =
      let (res, started) =
        async_start store parse_float meters_between fuel deps states m.generation in
      (res, record m { generation = started })

  -- What follows the loop that builds the engines.
  unfoldable pub install :
      Manager → Result (List (RuleRuntime Tables)) × Tables → Result (Unit {0}) × Manager
  install m (err x, d) = (err x, with_db m d)
  install m (ok runtimes, d) =
      let m' : Manager = record m { generation = new_listener runtimes d } in
      elim (latest_event_at (at_rest d)).0 [
        | ok _ ↦ start_listener (record m' { installed = true })
        | err x ↦ (err x, m')
      ]

  -- `_async_build_resources_locked`
  unfoldable pub build_resources : List ConfiguredResources → Manager → Result (Unit {0}) × Manager
  build_resources resources m = install m (build_runtimes resources m.generation.db)

  unfoldable pub replace_runtimes :
      List ConfiguredResources → Manager → Result (Unit {0}) × Tables → Result (Unit {0}) × Manager
  replace_runtimes resources m (ok _, d) = build_resources resources (with_db m d)
  replace_runtimes resources m (err x, d) = (err x, with_db m d)

  unfoldable pub refresh_from :
      List (RuleRuntime Tables)
      → Manager
      → Result (List ConfiguredResources)
      → Result (Unit {0}) × Manager
  refresh_from old m (err x) = (err x, m)
  refresh_from old m (ok resources) =
      replace_runtimes resources m (deactivate_missing resources old m.generation.db)

  -- `async_refresh_resources`
  unfoldable pub async_refresh_resources : Manager → Result (Unit {0}) × Manager
  async_refresh_resources m =
      let (old, stopped) = stop_observations m in
      if stopped.paused
      then (ok tt, stopped)
      else refresh_from old stopped (list_active_resources (at_rest stopped.generation.db)).0

  -- The `finally` of `pause_and_drain`.
  unfoldable pub resume :
      {A : Type 0} → Result A → Manager → Result (List ConfiguredResources) → Result A × Manager
  resume r m (err x) = (err x, m)
  resume r m (ok resources) = outcome r (build_resources resources m)

  -- `pause_and_drain` around an operation of the store.
  unfoldable pub pause_and_drain : {A : Type 0} → Sql A → Manager → Result A × Manager
  pause_and_drain operation m =
      let stopped = (stop_observations (record m { paused = true })).1 in
      let (r, c) = operation (at_rest stopped.generation.db) in
      let resumed = with_db (record stopped { paused = false }) c.tables in
      resume r resumed (list_active_resources (at_rest c.tables)).0
