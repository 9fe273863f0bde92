-- ===== src/Listener.antt =====
-- custom_components/geofence_journal/listener.py: GeofenceTrackerListener, one generation of the
-- listener over the engines of the enabled rules, which share one database. A call runs to its
-- end before the next begins.
pub mod EntityIds
pub mod Generation
pub mod Started
use hass_geofence_journal.Prelude.{
  ℕ, String, Bool, true, false, Option, none, some, List, [], ◌∷◌, ltb, ◌==◌, if◌then◌else◌, suc,
}
use hass_geofence_journal.Errors.{
  Error, Result, ok, err, runtime_invariant, overflow, service_validation, missing_reference,
  event_not_found, purge_confirmation, reset_confirmation, out_of_fuel,
}
use hass_geofence_journal.Float.{Float}
use hass_geofence_journal.Text.{codes, eq_codes}
use hass_geofence_journal.Models.{Coordinates}
use hass_geofence_journal.Storage.Resources.Active.{ConfiguredResources}
use hass_geofence_journal.Runtime.Contracts.{RuntimeStorage, RuntimeDependencies}
use hass_geofence_journal.Runtime.Action.{Engine}
use hass_geofence_journal.Runtime.Engine.{async_observe}
use hass_geofence_journal.HaState.{HaState, same_text, evaluate_ha_tracker_state}

pub record RuleRuntime (Db : Type 0) : Type 0 where
  pub resources : ConfiguredResources
  pub engine : Engine Db

-- The listener and what it works on: its runtimes, the database, the entities that it is
-- registered for, and how often it has reported a database error.
pub record Listener (Db : Type 0) : Type 0 where
  pub runtimes : List (RuleRuntime Db)
  pub active : Bool
  pub registered : Option (List String)
  pub db : Db
  pub database_errors : ℕ

-- `<` of two texts.
abbrev pub before : List ℕ → List ℕ → Bool
before _ [] = false
before [] (_ ∷ _) = true
before (x ∷ xs) (y ∷ ys) = let rest = before xs ys in if x == y then rest else ltb x y

-- A set of texts, kept sorted.
unfoldable pub insert_id : String → List String → List String
insert_id id [] = id ∷ []
insert_id id (x ∷ xs) =
    let rest = insert_id id xs in
    if before (codes id) (codes x) then id ∷ x ∷ xs else if same_text id x then x ∷ xs else x ∷ rest

-- OSError, sqlite3.Error or StorageError
abbrev pub is_database_error : Error → Bool
is_database_error runtime_invariant = false
is_database_error overflow = false
is_database_error service_validation = false
is_database_error missing_reference = false
is_database_error event_not_found = false
is_database_error purge_confirmation = false
is_database_error reset_confirmation = false
is_database_error out_of_fuel = false
is_database_error _ = true

module _ {Db : Type 0} where
  unfoldable pub new_listener : List (RuleRuntime Db) → Db → Listener Db
  new_listener runtimes d = record {
    runtimes = runtimes;
    active = false;
    registered = none;
    db = d;
    database_errors = 0;
  }

  unfoldable pub entity_ids : List (RuleRuntime Db) → List String
  unfolding insert_id
  entity_ids [] = []
  entity_ids (r ∷ runtimes) = insert_id r.resources.tracker.entity_id (entity_ids runtimes)

  unfoldable pub async_stop : Listener Db → Listener Db
  async_stop l = record l { active = false; registered = none }

-- `deps` gives what the engine of a rule was built with; `states` is `hass.states.get`.
module _ (store : RuntimeStorage) (parse_float : String → Option Float)
    (meters_between : Coordinates → Coordinates → Float) (fuel : ℕ)
    (deps : ConfiguredResources → RuntimeDependencies) (states : String → Option HaState) where
  open store use {Db}

  -- `_async_process_runtime`
  unfoldable pub process_runtime : RuleRuntime Db → HaState → Db → Result (Unit {0}) × Engine Db
  process_runtime r s d =
      async_observe store r.resources.rule (deps r.resources) fuel
        (evaluate_ha_tracker_state parse_float meters_between states r.resources s r.engine.state)
        (record r.engine { db = d })

  -- The loop over the runtimes: an error leaves those behind it as they were.
  unfoldable pub process_all :
      HaState → List (RuleRuntime Db) → Db → Result (Unit {0}) × List (RuleRuntime Db) × Db
  unfolding process_runtime
  process_all s [] d = (ok tt, [], d)
  process_all s (r ∷ rest) d =
      if same_text r.resources.tracker.entity_id s.entity_id
      then (let (res, e) = process_runtime r s d in
          elim res [
            | ok _ ↦
                let (res', rest', d') = process_all s rest e.db in
                (res', record r { engine = e } ∷ rest', d')
            | err x ↦ (err x, record r { engine = e } ∷ rest, e.db)
          ])
      else let (res', rest', d') = process_all s rest d in (res', r ∷ rest', d')

  unfoldable pub async_process_state : HaState → Listener Db → Result (Unit {0}) × Listener Db
  unfolding process_all
  async_process_state s l =
      if l.active
      then (let (res, runtimes, d) = process_all s l.runtimes l.db in
          (res, record l { runtimes = runtimes; db = d }))
      else (ok tt, l)

  -- The states that are there when the listener starts.
  unfoldable pub synchronize : List String → Listener Db → Result (Unit {0}) × Listener Db
  unfolding async_process_state
  synchronize [] l = (ok tt, l)
  synchronize (id ∷ ids) l = elim (states id) [
    | none ↦ synchronize ids l
    | some s ↦
        let (res, l') = async_process_state s l in
        elim res [ ok _ ↦ synchronize ids l' | err x ↦ (err x, l') ]
  ]

  unfoldable pub async_start : Listener Db → Result (Unit {0}) × Listener Db
  unfolding synchronize
  async_start l =
      if l.active
      then (ok tt, l)
      else (let ids = entity_ids l.runtimes in
          synchronize ids (record l { active = true; registered = some ids }))

  -- `_async_handle_event`, with the new state of the event.
  unfoldable pub async_handle_event : Option HaState → Listener Db → Result (Unit {0}) × Listener Db
  unfolding async_process_state
  async_handle_event none l = (ok tt, l)
  async_handle_event (some s) l =
      let (res, l') = async_process_state s l in
      elim res [
        | ok _ ↦ (ok tt, l')
        | err x ↦
            if is_database_error x
            then (err x, record l' { database_errors = suc l'.database_errors })
            else (err x, l')
      ]
