-- ===== src/Tests/Listeners.antt =====
-- A listener with one runtime, and the store behind its gate.
use hass_geofence_journal.Prelude.{◌≡◌, refl, String, true, false, Option, none, some, [], ◌∷◌}
use hass_geofence_journal.Float.{Float, of_ℕ}
use hass_geofence_journal.Errors.{err, storage_closed}
use hass_geofence_journal.Models.{Coordinates}
use hass_geofence_journal.Storage.Sql.{query}
use hass_geofence_journal.Storage.Resources.Active.{ConfiguredResources}
use hass_geofence_journal.Storage.Repository.{empty, open_store}
use hass_geofence_journal.Storage.Repository.Opened.{IsOpening, available, open_store-IsOpening}
use hass_geofence_journal.Storage.Adapter.{new_store, async_close}
use hass_geofence_journal.Storage.Adapter.Closed.{Call, opens, runs, call, after, async_close-final}
use hass_geofence_journal.Runtime.Contracts.{RuntimeStorage, RuntimeDependencies}
use hass_geofence_journal.Runtime.SqliteStore.{sqlite_store}
use hass_geofence_journal.Runtime.Lifecycle.{new_engine}
use hass_geofence_journal.Listener.{
  RuleRuntime, Listener, new_listener, async_process_state, async_handle_event,
}
use hass_geofence_journal.Listener.Generation.{
  IsPass, IsExtension, async_process_state-IsPass, async_handle_event-IsExtension,
}
use hass_geofence_journal.Tests.Data.{home_rule, home_tables, at_second}
use hass_geofence_journal.Tests.HaStates.{tracker, states, resources}

abbrev store : RuntimeStorage
store = sqlite_store []

abbrev parse : String → Option Float
parse s = none

abbrev near : Coordinates → Coordinates → Float
near a b = of_ℕ 10

abbrev deps : ConfiguredResources → RuntimeDependencies
deps r = at_second 10

abbrev runtime : RuleRuntime store.Db
unfolding sqlite_store
runtime = record { resources = resources; engine = new_engine store home_rule home_tables }

abbrev listener : Listener store.Db
unfolding sqlite_store
listener = record (new_listener (runtime ∷ []) home_tables) {
  active = true;
  registered = some ("person.a" ∷ []);
}

async_process_state-IsPass_example :
    let (res, l') = async_process_state store parse near 2 deps states tracker listener in
    IsPass store parse near 2 deps states tracker (runtime ∷ []) listener.db res l'.runtimes l'.db
    × (l'.active ≡ true)
    × (l'.registered ≡ some ("person.a" ∷ []))
unfolding listener new_listener
async_process_state-IsPass_example =
    async_process_state-IsPass store parse near 2 deps states tracker listener refl

async_handle_event-IsExtension_example :
    IsExtension 1 (store.events listener.db) (
      store.events (async_handle_event store parse near 2 deps states (some tracker) listener).1.db)
unfolding listener new_listener
async_handle_event-IsExtension_example =
    async_handle_event-IsExtension store parse near 2 deps states (some tracker) listener

-- The third statement of the creation fails.
open_store-IsOpening_example : IsOpening empty (
    open_store false available
      (false ∷ false ∷ false ∷ true ∷ [])
      (record { file = empty; connection = none }))
open_store-IsOpening_example =
    open_store-IsOpening false available (false ∷ false ∷ false ∷ true ∷ []) empty

abbrev reads : Call
reads = runs (query λ t. t.events)

async_close-final_example :
    (after (opens available [] ∷ reads ∷ []) (async_close (new_store empty))
      ≡ async_close (new_store empty))
    × (call reads (after (opens available [] ∷ reads ∷ []) (async_close (new_store empty)))
        ≡ (err storage_closed, async_close (new_store empty)))
async_close-final_example =
    async_close-final (new_store empty) (opens available [] ∷ reads ∷ []) reads
