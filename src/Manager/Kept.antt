-- ===== src/Manager/Kept.antt =====
-- manager.py and listener.py: what a new generation does to the events of its database.
use mathlib.Core.List.{append-nil, append_assoc}
use hass_geofence_journal.Prelude.{
  ℕ, ◌≡◌, refl, sym, ap, ◌∙◌, String, Bool, true, Option, some, List, [], ◌∷◌, ◌++◌, inl, inr,
  Bool-cases, Option-cases,
}
use hass_geofence_journal.Errors.{Result, ok, err, Result-cases}
use hass_geofence_journal.Float.{Float}
use hass_geofence_journal.Models.{Coordinates}
use hass_geofence_journal.Storage.Records.{EventRow}
use hass_geofence_journal.Storage.Tables.{Tables}
use hass_geofence_journal.Storage.Sql.{query}
use hass_geofence_journal.Storage.Events.{latest_event_at}
use hass_geofence_journal.Storage.Transitions.{transition_event}
use hass_geofence_journal.Storage.Resources.Active.{ConfiguredResources}
use hass_geofence_journal.Runtime.Contracts.{RuntimeStorage, RuntimeDependencies}
use hass_geofence_journal.Runtime.Action.{Engine}
use hass_geofence_journal.Runtime.Engine.{async_recover}
use hass_geofence_journal.Runtime.Lifecycle.{new_engine}
use hass_geofence_journal.Runtime.SqliteStore.{sqlite_store}
use hass_geofence_journal.Runtime.Progress.Methods.{async_recover-Progress}
use hass_geofence_journal.HaState.{HaState}
use hass_geofence_journal.Listener.{
  RuleRuntime, Listener, new_listener, entity_ids, async_process_state, synchronize, async_start,
}
use hass_geofence_journal.Listener.Generation.{process_all-IsPass, Pass-IsExtension}
use hass_geofence_journal.Manager.{
  Manager, keep_runtime, build_runtimes, start_listener, install, build_resources, outcome, resume,
  at_rest,
}

-- The events are those of before, with the new ones behind them.
pub record IsAdded (old later : List EventRow) : Type 0 where
  pub new : List EventRow
  pub appended : later ≡ old ++ new

IsAdded-refl : (xs : List EventRow) → IsAdded xs xs
IsAdded-refl xs = record { new = []; appended = sym (append-nil xs) }

IsAdded-trans : {xs ys zs : List EventRow} → IsAdded xs ys → IsAdded ys zs → IsAdded xs zs
IsAdded-trans {xs} p q = record {
  new = p.new ++ q.new;
  appended = q.appended ∙ ap (λ l. l ++ q.new) p.appended ∙ append_assoc xs p.new q.new;
}

module _ (store : RuntimeStorage) (parse_float : String → Option Float)
    (meters_between : Coordinates → Coordinates → Float) (fuel : ℕ)
    (deps : ConfiguredResources → RuntimeDependencies) (states : String → Option HaState) where
  open store use {Db}

  async_process_state-IsAdded :
      (s : HaState) (l : Listener Db)
      → IsAdded (store.events l.db) (
          store.events
            (async_process_state store parse_float meters_between fuel deps states s l).1.db)
  unfolding async_process_state
  async_process_state-IsAdded s l = elim (Bool-cases l.active) [
    | inr idle ↦ simp idle (IsAdded-refl (store.events l.db))
    | inl active ↦
        let q = Pass-IsExtension store parse_float meters_between fuel deps states (
          process_all-IsPass store parse_float meters_between fuel deps states s l.runtimes l.db) in
        simp active (record { new = q.new; appended = q.appended })
  ]

  synchronized-IsAdded :
      (ids : List String) (l : Listener Db) (p : Result (Unit {0}) × Listener Db)
      → IsAdded (store.events l.db) (store.events p.1.db)
      → ((l' : Listener Db)
          → IsAdded (store.events l'.db) (
              store.events
                (synchronize store parse_float meters_between fuel deps states ids l').1.db))
      → IsAdded (store.events l.db) (
          store.events
            (elim p.0 as (λ _. Result (Unit {0}) × Listener Db) [
              | ok _ ↦ synchronize store parse_float meters_between fuel deps states ids p.1
              | err x ↦ (err x, p.1)
            ]).1.db)
  synchronized-IsAdded ids l (ok _, l') h rest = IsAdded-trans h (rest l')
  synchronized-IsAdded ids l (err x, l') h rest = h

  synchronize-IsAdded :
      (ids : List String) (l : Listener Db)
      → IsAdded
          (store.events l.db)
          (store.events (synchronize store parse_float meters_between fuel deps states ids l).1.db)
  unfolding synchronize
  synchronize-IsAdded [] l = IsAdded-refl (store.events l.db)
  synchronize-IsAdded (id ∷ ids) l = elim (Option-cases (states id)) [
    | inl absent ↦ rw (absent, synchronize) (synchronize-IsAdded ids l)
    | inr (s, there) ↦
        rw (there, synchronize)
          (synchronized-IsAdded ids l
            (async_process_state store parse_float meters_between fuel deps states s l)
            (async_process_state-IsAdded s l) (synchronize-IsAdded ids))
  ]

  async_start-IsAdded :
      (l : Listener Db)
      → IsAdded
          (store.events l.db)
          (store.events (async_start store parse_float meters_between fuel deps states l).1.db)
  unfolding async_start
  async_start-IsAdded l = elim (Bool-cases l.active) [
    | inl active ↦ simp active (IsAdded-refl (store.events l.db))
    | inr idle ↦ simp idle (
        synchronize-IsAdded (entity_ids l.runtimes)
          (record l { active = true; registered = some (entity_ids l.runtimes) }))
  ]

  recover-IsAdded :
      (c : ConfiguredResources) (e : Engine Db)
      → IsAdded (store.events e.db) (store.events (async_recover store c.rule (deps c) fuel e).1.db)
  recover-IsAdded c e = elim (async_recover-Progress store c.rule (deps c) fuel e) [
    | inl q ↦ record { new = []; appended = q.same_events ∙ sym (append-nil _) }
    | inr q ↦ record { new = transition_event q.t ∷ []; appended = q.appended }
  ]

module _ (faults : List Bool) (parse_float : String → Option Float)
    (meters_between : Coordinates → Coordinates → Float) (fuel : ℕ)
    (deps : ConfiguredResources → RuntimeDependencies) (states : String → Option HaState) where
  keep_runtime-events :
      (c : ConfiguredResources) (e : Engine Tables)
      (p : Result (List (RuleRuntime Tables)) × Tables)
      → (keep_runtime c e p).1 ≡ p.1
  unfolding keep_runtime
  keep_runtime-events c e (ok runtimes, d) = refl
  keep_runtime-events c e (err x, d) = refl

  recovered-IsAdded :
      (c : ConfiguredResources) (resources : List ConfiguredResources) (d : Tables)
      (p : Result (Unit {0}) × Engine Tables)
      → IsAdded d.events p.1.db.events
      → ((d' : Tables)
          → IsAdded d'.events
              (build_runtimes faults parse_float meters_between fuel deps states resources
                d').1.events)
      → IsAdded d.events
          (elim p.0 as (λ _. Result (List (RuleRuntime Tables)) × Tables) [
            | ok _ ↦
                keep_runtime c p.1 (
                  build_runtimes faults parse_float meters_between fuel deps states resources
                    p.1.db)
            | err x ↦ (err x, p.1.db)
          ]).1.events
  recovered-IsAdded c resources d (ok _, e) h rest =
      rw (keep_runtime-events c e _) (IsAdded-trans h (rest e.db))
  recovered-IsAdded c resources d (err x, e) h rest = h

  build_runtimes-IsAdded :
      (resources : List ConfiguredResources) (d : Tables)
      → IsAdded d.events
          (build_runtimes faults parse_float meters_between fuel deps states resources d).1.events
  unfolding build_runtimes sqlite_store new_engine
  build_runtimes-IsAdded [] d = IsAdded-refl d.events
  build_runtimes-IsAdded (c ∷ resources) d =
      let e = new_engine (sqlite_store faults) c.rule d in
      recovered-IsAdded c resources d (async_recover (sqlite_store faults) c.rule (deps c) fuel e)
        (recover-IsAdded (sqlite_store faults) parse_float meters_between fuel deps states c e)
        (build_runtimes-IsAdded resources)

  start_listener-IsAdded :
      (m : Manager)
      → IsAdded m.generation.db.events
          (start_listener faults parse_float meters_between fuel deps states
            m).1.generation.db.events
  unfolding start_listener sqlite_store
  start_listener-IsAdded m =
      async_start-IsAdded (sqlite_store faults) parse_float meters_between fuel deps states
        m.generation

  install-IsAdded :
      (m : Manager) (p : Result (List (RuleRuntime Tables)) × Tables)
      → IsAdded p.1.events
          (install faults parse_float meters_between fuel deps states m p).1.generation.db.events
  unfolding install latest_event_at query new_listener
  install-IsAdded m (err x, d) = IsAdded-refl d.events
  install-IsAdded m (ok runtimes, d) =
      elim (Result-cases
        (latest_event_at (at_rest faults parse_float meters_between fuel deps states d)).0) [
          | inr (x, failed) ↦ simp failed (IsAdded-refl d.events)
          | inl (t, read) ↦ simp read (
              start_listener-IsAdded
                (record m { generation = new_listener runtimes d; installed = true }))
        ]

  build_resources-IsAdded :
      (resources : List ConfiguredResources) (m : Manager)
      → IsAdded m.generation.db.events
          (build_resources faults parse_float meters_between fuel deps states resources
            m).1.generation.db.events
  unfolding build_resources
  build_resources-IsAdded resources m =
      IsAdded-trans (build_runtimes-IsAdded resources m.generation.db) (install-IsAdded m _)

  pub outcome-manager :
      {A : Type 0} (r : Result A) (p : Result (Unit {0}) × Manager) → (outcome r p).1 ≡ p.1
  unfolding outcome
  outcome-manager r (ok _, m) = refl
  outcome-manager r (err x, m) = refl

  pub resume-IsAdded :
      {A : Type 0} (r : Result A) (m : Manager) (read : Result (List ConfiguredResources))
      → IsAdded m.generation.db.events
          (resume faults parse_float meters_between fuel deps states r m
            read).1.generation.db.events
  unfolding resume
  resume-IsAdded r m (ok resources) = rw (outcome-manager r _) (build_resources-IsAdded resources m)
  resume-IsAdded r m (err x) = IsAdded-refl m.generation.db.events
