-- ===== src/Manager/Observing.antt =====
-- manager.py: what the manager observes after a refresh and after a pause.
use mathlib.Core.Path.{subst}
use hass_geofence_journal.Prelude.{
  ℕ, ◌≡◌, refl, ap, ◌∙◌, String, Bool, true, false, Option, some, List, [], ◌∷◌, ◌⊎◌, inl, inr,
  arith,
}
use hass_geofence_journal.Errors.{Result, ok, err, Result-cases}
use hass_geofence_journal.Float.{Float}
use hass_geofence_journal.Models.{Coordinates}
use hass_geofence_journal.Storage.Tables.{Tables}
use hass_geofence_journal.Storage.Sql.{Sql, Connection, query}
use hass_geofence_journal.Storage.Events.{latest_event_at}
use hass_geofence_journal.Storage.Resources.Active.{ConfiguredResources, list_active_resources}
use hass_geofence_journal.Runtime.Contracts.{RuntimeDependencies}
use hass_geofence_journal.Runtime.Action.{Engine}
use hass_geofence_journal.Runtime.Engine.{async_recover}
use hass_geofence_journal.Runtime.Lifecycle.{new_engine}
use hass_geofence_journal.Runtime.SqliteStore.{sqlite_store}
use hass_geofence_journal.HaState.{HaState}
use hass_geofence_journal.Listener.{
  RuleRuntime, new_listener, entity_ids, synchronize, async_start, async_stop,
}
use hass_geofence_journal.Manager.{
  is_ok, Manager, keep_runtime, build_runtimes, start_listener, install, build_resources,
  replace_runtimes, refresh_from, stop_observations, async_refresh_resources, outcome, resume,
  pause_and_drain, with_db, at_rest,
}
use hass_geofence_journal.Listener.Started.{resources_of, watched, async_start-IsStarted}
use hass_geofence_journal.Manager.Kept.{IsAdded, outcome-manager, resume-IsAdded}

-- A new generation is there, over these active rules.
pub record IsObserving (resources : List ConfiguredResources) (m : Manager) : Type 0 where
  pub installed : m.installed ≡ true
  pub active : m.generation.active ≡ true
  pub registered : m.generation.registered ≡ some (watched resources)
  pub current : resources_of m.generation.runtimes ≡ resources

-- The manager is not paused. It observes the active rules that were read, or it has raised and has
-- no listener.
pub record IsSettled {A : Type 0} (read : Result (List ConfiguredResources))
    (p : Result A × Manager) : Type 0 where
  pub resumed : p.1.paused ≡ false
  pub observing :
      ((resources : List ConfiguredResources) × (read ≡ ok resources) × IsObserving resources p.1)
      ⊎ ((p.1.installed ≡ false) × (is_ok p.0 ≡ false))

abbrev Built : List ConfiguredResources → Result (List (RuleRuntime Tables)) × Tables → Type 0
Built resources (ok runtimes, d) = resources_of runtimes ≡ resources
Built resources (err x, d) = Unit {0}

keep_runtime-Built :
    (c : ConfiguredResources) (resources : List ConfiguredResources) (e : Engine Tables)
    (p : Result (List (RuleRuntime Tables)) × Tables)
    → Built resources p
    → Built (c ∷ resources) (keep_runtime c e p)
unfolding keep_runtime
keep_runtime-Built c resources e (ok runtimes, d) h = ap (λ l. c ∷ l) h
keep_runtime-Built c resources e (err x, d) h = tt

-- Reading the active rules finds none, or raises.
abbrev pub ReadsNone : Result (List ConfiguredResources) → Type 0
ReadsNone (ok []) = Unit {0}
ReadsNone (ok (c ∷ resources)) = ⊥
ReadsNone (err x) = Unit {0}

module _ (faults : List Bool) (parse_float : String → Option Float)
    (meters_between : Coordinates → Coordinates → Float) (fuel : ℕ)
    (deps : ConfiguredResources → RuntimeDependencies) (states : String → Option HaState) where
  recovered-Built :
      (c : ConfiguredResources) (resources : List ConfiguredResources)
      (p : Result (Unit {0}) × Engine Tables)
      → ((d : Tables)
          → Built resources
              (build_runtimes faults parse_float meters_between fuel deps states resources d))
      → Built (c ∷ resources) (elim p.0 as (λ _. Result (List (RuleRuntime Tables)) × Tables) [
        | ok _ ↦
            keep_runtime c p.1
              (build_runtimes faults parse_float meters_between fuel deps states resources p.1.db)
        | err x ↦ (err x, p.1.db)
      ])
  recovered-Built c resources (ok _, e) rest = keep_runtime-Built c resources e _ (rest e.db)
  recovered-Built c resources (err x, e) rest = tt

  build_runtimes-Built :
      (resources : List ConfiguredResources) (d : Tables)
      → Built resources
          (build_runtimes faults parse_float meters_between fuel deps states resources d)
  unfolding build_runtimes sqlite_store
  build_runtimes-Built [] d = refl
  build_runtimes-Built (c ∷ resources) d =
      recovered-Built c resources
        (async_recover (sqlite_store faults) c.rule (deps c) fuel
          (new_engine (sqlite_store faults) c.rule d))
        (build_runtimes-Built resources)

  start_listener-IsObserving :
      (m : Manager)
      → m.installed ≡ true
      → m.generation.active ≡ false
      → let started = (start_listener faults parse_float meters_between fuel deps states m).1 in
        IsObserving (resources_of m.generation.runtimes) started × (started.paused ≡ m.paused)
  unfolding start_listener sqlite_store
  start_listener-IsObserving m installed idle =
      let (active, registered, current) =
        async_start-IsStarted (sqlite_store faults) parse_float meters_between fuel deps states
          m.generation idle in
      (
        record {
          installed = installed;
          active = active;
          registered = registered;
          current = current;
        },
        refl,
      )

  new_listener-IsObserving :
      (resources : List ConfiguredResources) (m : Manager) (runtimes : List (RuleRuntime Tables))
      (d : Tables)
      → resources_of runtimes ≡ resources
      → let started =
          (start_listener faults parse_float meters_between fuel deps states
            (record m { generation = new_listener runtimes d; installed = true })).1 in
        IsObserving resources started × (started.paused ≡ m.paused)
  unfolding new_listener
  new_listener-IsObserving resources m runtimes d h =
      let built : Manager = record m { generation = new_listener runtimes d; installed = true } in
      let (observing, paused) = start_listener-IsObserving built refl refl in
      (
        subst
            (λ cs.
              IsObserving cs
                (start_listener faults parse_float meters_between fuel deps states built).1)
            h observing,
        paused,
      )

  install-IsSettled :
      (resources : List ConfiguredResources) (m : Manager)
      (p : Result (List (RuleRuntime Tables)) × Tables)
      → m.paused ≡ false
      → m.installed ≡ false
      → Built resources p
      → IsSettled (ok resources) (install faults parse_float meters_between fuel deps states m p)
  unfolding install latest_event_at query
  install-IsSettled resources m (err x, d) running empty h = record {
    resumed = running;
    observing = inr (empty, refl);
  }
  install-IsSettled resources m (ok runtimes, d) running empty h =
      elim (Result-cases
        (latest_event_at (at_rest faults parse_float meters_between fuel deps states d)).0) [
          | inr (x, failed) ↦
              simp (failed) (record { resumed = running; observing = inr (empty, refl) })
          | inl (t, read) ↦
              let (observing, paused) = new_listener-IsObserving resources m runtimes d h in
              simp (read) (record {
                resumed = paused ∙ running;
                observing = inl (resources, refl, observing);
              })
        ]

  build_resources-IsSettled :
      (resources : List ConfiguredResources) (m : Manager)
      → m.paused ≡ false
      → m.installed ≡ false
      → IsSettled
          (ok resources)
          (build_resources faults parse_float meters_between fuel deps states resources m)
  unfolding build_resources
  build_resources-IsSettled resources m running empty =
      install-IsSettled resources m _ running empty (build_runtimes-Built resources m.generation.db)

  stop_observations-empty :
      (m : Manager)
      → let stopped = (stop_observations faults parse_float meters_between fuel deps states m).1 in
        (stopped.installed ≡ false)
        × (stopped.paused ≡ m.paused)
        × (stopped.generation.db ≡ m.generation.db)
  unfolding stop_observations async_stop
  stop_observations-empty m = (refl, refl, ground arith)

  replaced-IsSettled :
      (resources : List ConfiguredResources) (m : Manager) (p : Result (Unit {0}) × Tables)
      → m.paused ≡ false
      → m.installed ≡ false
      → IsSettled
          (ok resources)
          (replace_runtimes faults parse_float meters_between fuel deps states resources m p)
  unfolding replace_runtimes
  replaced-IsSettled resources m (ok _, d) running empty =
      build_resources-IsSettled resources (with_db m d) running empty
  replaced-IsSettled resources m (err x, d) running empty = record {
    resumed = running;
    observing = inr (empty, refl);
  }

  refresh_from-IsSettled :
      (old : List (RuleRuntime Tables)) (m : Manager) (read : Result (List ConfiguredResources))
      → m.paused ≡ false
      → m.installed ≡ false
      → IsSettled read (refresh_from faults parse_float meters_between fuel deps states old m read)
  unfolding refresh_from
  refresh_from-IsSettled old m (ok resources) running empty =
      replaced-IsSettled resources m _ running empty
  refresh_from-IsSettled old m (err x) running empty = record {
    resumed = running;
    observing = inr (empty, refl);
  }

  -- The active rules that the store has.
  abbrev pub active_in : Tables → Result (List ConfiguredResources)
  active_in d =
      (list_active_resources (at_rest faults parse_float meters_between fuel deps states d)).0

  -- A refresh of a manager that is not paused reads the active rules of its database, and in the end
  -- there is an active listener over exactly these rules, registered for their trackers, or the
  -- refresh has raised and there is no listener.
  pub async_refresh_resources-IsSettled :
      (m : Manager)
      → m.paused ≡ false
      → IsSettled
          (active_in m.generation.db)
          (async_refresh_resources faults parse_float meters_between fuel deps states m)
  unfolding async_refresh_resources
  async_refresh_resources-IsSettled m running =
      let (empty, paused, db) = stop_observations-empty m in
      let p = stop_observations faults parse_float meters_between fuel deps states m in
      let now_running = paused ∙ running in
      simp (now_running) (
        subst
          (λ d. IsSettled (active_in d) (
            refresh_from faults parse_float meters_between fuel deps states p.0 p.1
              (active_in p.1.generation.db)))
          db (refresh_from-IsSettled p.0 p.1 (active_in p.1.generation.db) now_running empty))

  outcome-IsSettled :
      {A : Type 0} (r : Result A) (read : Result (List ConfiguredResources))
      (p : Result (Unit {0}) × Manager)
      → IsSettled read p
      → IsSettled read (outcome r p) × (((outcome r p).0 ≡ r) ⊎ (is_ok (outcome r p).0 ≡ false))
  unfolding outcome
  outcome-IsSettled r read (ok _, m) h = (
    record {
      resumed = h.resumed;
      observing = elim h.observing [
        | inl observing ↦ inl observing
        | inr (empty, raised) ↦ absurd (ground (arith, raised))
      ];
    },
    inl refl,
  )
  outcome-IsSettled r read (err x, m) h =
      (record { resumed = h.resumed; observing = h.observing }, inr refl)

  resume-IsSettled :
      {A : Type 0} (r : Result A) (m : Manager) (read : Result (List ConfiguredResources))
      → m.paused ≡ false
      → m.installed ≡ false
      → let p = resume faults parse_float meters_between fuel deps states r m read in
        IsSettled read p × ((p.0 ≡ r) ⊎ (is_ok p.0 ≡ false))
  unfolding resume
  resume-IsSettled r m (ok resources) running empty =
      outcome-IsSettled r (ok resources) _ (build_resources-IsSettled resources m running empty)
  resume-IsSettled r m (err x) running empty =
      (record { resumed = running; observing = inr (empty, refl) }, inr refl)

  -- An operation of the store within a pause runs on the manager's database, and whether it returns
  -- or raises, the manager is not paused in the end. Its database then has the events that the
  -- operation left, with what the new generation recorded behind them. There is an active listener over
  -- exactly the rules that are active after the operation, and the scope ends as the operation did,
  -- unless it has raised; only where it has raised can there be no listener.
  pub pause_and_drain-IsSettled :
      {A : Type 0} (operation : Sql A) (m : Manager)
      → let (r, c) =
          operation (at_rest faults parse_float meters_between fuel deps states m.generation.db) in
        let p = pause_and_drain faults parse_float meters_between fuel deps states operation m in
        IsSettled (active_in c.tables) p
        × ((p.0 ≡ r) ⊎ (is_ok p.0 ≡ false))
        × IsAdded c.tables.events p.1.generation.db.events
  unfolding pause_and_drain
  pause_and_drain-IsSettled {A = A} operation m =
      let stopped =
        (stop_observations faults parse_float meters_between fuel deps states
          (record m { paused = true })).1 in
      let (empty, _, db) = stop_observations-empty (record m { paused = true }) in
      let run : Tables → Result A × Connection =
        λ d. operation (at_rest faults parse_float meters_between fuel deps states d) in
      let p = pause_and_drain faults parse_float meters_between fuel deps states operation m in
      let (r, c) = run stopped.generation.db in
      let resumed = with_db (record stopped { paused = false }) c.tables in
      let (settled, ended) = resume-IsSettled r resumed (active_in c.tables) refl empty in
      let added =
        resume-IsAdded faults parse_float meters_between fuel deps states r resumed
          (active_in c.tables) in
      subst
        (λ d.
          IsSettled (active_in (run d).1.tables) p
          × ((p.0 ≡ (run d).0) ⊎ (is_ok p.0 ≡ false))
          × IsAdded (run d).1.tables.events p.1.generation.db.events)
        db (settled, ended, added)

  -- With no active rule a new generation leaves the database as it was.
  resume_none-db :
      {A : Type 0} (r : Result A) (m : Manager)
      → (resume faults parse_float meters_between fuel deps states r m (ok [])).1.generation.db
        ≡ m.generation.db
  unfolding resume build_resources build_runtimes install latest_event_at query start_listener
      new_listener async_start synchronize entity_ids sqlite_store
  resume_none-db r m =
      ap (λ m. m.generation.db)
        (outcome-manager faults parse_float meters_between fuel deps states r _)
      ∙ elim (Result-cases
          (latest_event_at
            (at_rest faults parse_float meters_between fuel deps states m.generation.db)).0) [
              | inr (x, failed) ↦ simp failed refl
              | inl (t, read) ↦ simp read refl
            ]

  resume-db :
      {A : Type 0} (r : Result A) (m : Manager) (read : Result (List ConfiguredResources))
      → ReadsNone read
      → (resume faults parse_float meters_between fuel deps states r m read).1.generation.db
        ≡ m.generation.db
  unfolding resume
  resume-db r m (ok []) h = resume_none-db r m
  resume-db r m (ok (c ∷ resources)) h = absurd h
  resume-db r m (err x) h = refl

  -- An operation that leaves no active rule has the last word on the database.
  pub pause_and_drain-db :
      {A : Type 0} (operation : Sql A) (m : Manager)
      → let (r, c) =
          operation (at_rest faults parse_float meters_between fuel deps states m.generation.db) in
        ReadsNone (active_in c.tables)
        → (pause_and_drain faults parse_float meters_between fuel deps states operation
            m).1.generation.db
          ≡ c.tables
  unfolding pause_and_drain
  pause_and_drain-db {A = A} operation m nothing =
      let stopped =
        (stop_observations faults parse_float meters_between fuel deps states
          (record m { paused = true })).1 in
      let (_, _, db) = stop_observations-empty (record m { paused = true }) in
      let run : Tables → Result A × Connection =
        λ d. operation (at_rest faults parse_float meters_between fuel deps states d) in
      let p = pause_and_drain faults parse_float meters_between fuel deps states operation m in
      let (r, c) = run stopped.generation.db in
      let resumed = with_db (record stopped { paused = false }) c.tables in
      subst (λ d. ReadsNone (active_in (run d).1.tables) → p.1.generation.db ≡ (run d).1.tables) db
        (resume-db r resumed (active_in c.tables)) nothing
