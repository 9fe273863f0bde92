-- ===== src/Runtime/Lifecycle.antt =====
-- The engine in time: observations, deadlines, recovery and shutdown in any order, each with its
-- own answers of the environment, and a database that others may change in between.
use hass_geofence_journal.Prelude.{ℕ, Bool, [], none}
use mathlib.Core.List.{Memᴰ}
use hass_geofence_journal.Models.{RuleDefinition}
use hass_geofence_journal.Location.{Outcome}
use hass_geofence_journal.Geofence.{EvaluatedObservation}
use hass_geofence_journal.Runtime.Contracts.{RuntimeStorage, RuntimeDependencies}
use hass_geofence_journal.Runtime.Action.{Engine, ScheduledCall, cancel}
use hass_geofence_journal.Runtime.Engine.{
  async_observe, deadline_callback, async_recover, async_deactivate, async_suspend,
}
use hass_geofence_journal.Runtime.Soundness.{AllCoherent, IsSound}
use hass_geofence_journal.Runtime.Soundness.Methods.{
  Usable, async_observe-IsSound, deadline_callback-IsSound, async_recover-IsSound,
  async_deactivate-IsSound, async_suspend-IsSound,
}

module _ (store : RuntimeStorage) (rule : RuleDefinition) where
  open store use {Db}

  -- `__init__`, on the shared database.
  unfoldable pub new_engine : Db → Engine Db
  new_engine d = record {
    state = none;
    scheduled = none;
    accepting = Bool.true;
    db = d;
    calls = [];
    next_handle = 0;
    readings = 0;
    ids = 0;
    notified = [];
  }

  -- `fire` starts any live call. `elsewhere` is a change of the database by other parts.
  pub data Step : Engine Db → Engine Db → Type 0 where
    observe :
        (e : Engine Db) (deps : RuntimeDependencies) (fuel : ℕ) (x : Outcome EvaluatedObservation)
        → Usable store rule deps x
        → Step e (async_observe store rule deps fuel x e).1
    fire :
        (e : Engine Db) (deps : RuntimeDependencies) (fuel : ℕ) (call : ScheduledCall)
        → Memᴰ call e.calls
        → Step e
            (deadline_callback store rule deps fuel call.generation
              (record e { calls = cancel call.handle e.calls })).1
    recover :
        (e : Engine Db) (deps : RuntimeDependencies) (fuel : ℕ)
        → Step e (async_recover store rule deps fuel e).1
    deactivate :
        (e : Engine Db) (deps : RuntimeDependencies) → Step e (async_deactivate store rule deps e).1
    suspend :
        (e : Engine Db) (deps : RuntimeDependencies) → Step e (async_suspend store rule deps e).1
    elsewhere :
        (e : Engine Db) (d : Db)
        → AllCoherent store rule (store.row d rule.rule_id)
        → Step e (record e { db = d })

  pub data Reach (s : Engine Db) : Engine Db → Type 0 where
    here : Reach s s
    next : {t u : Engine Db} → Reach s t → Step t u → Reach s u

  Step-IsSound : {t u : Engine Db} → Step t u → IsSound store rule t → IsSound store rule u
  Step-IsSound (observe e deps fuel x usable) h =
      (async_observe-IsSound store rule deps fuel x usable).at e h
  Step-IsSound (fire e deps fuel call live) h =
      (deadline_callback-IsSound store rule deps fuel call.generation).at _
        (record { memory = h.memory; stored = h.stored })
  Step-IsSound (recover e deps fuel) h = (async_recover-IsSound store rule deps fuel).at e h
  Step-IsSound (deactivate e deps) h = (async_deactivate-IsSound store rule deps).at e h
  Step-IsSound (suspend e deps) h = (async_suspend-IsSound store rule deps).at e h
  Step-IsSound (elsewhere e d c) h = record { memory = h.memory; stored = c }

  -- From a sound engine, whatever the order of observations, deadlines, recoveries and shutdowns,
  -- whichever calls raise, and though others write coherent rows in between: the engine's state and
  -- the stored row stay coherent. They belong to the rule, the presence is known, a pending
  -- transition has a known target away from the presence with its start and deadline, the last
  -- event is whole, and no number is NaN.
  pub Reach-IsSound : {s t : Engine Db} → Reach s t → IsSound store rule s → IsSound store rule t
  Reach-IsSound here h = h
  Reach-IsSound (next r st) h = Step-IsSound st (Reach-IsSound r h)
