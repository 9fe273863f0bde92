-- ===== src/Manager/Sampled.antt =====
-- manager.py and ha_confirmation.py: what an engine of the manager records.
use hass_geofence_journal.Prelude.{ℕ, String, Bool, Option, some, ◌≡◌, inl, inr}
use hass_geofence_journal.Float.{Float}
use hass_geofence_journal.Models.{Coordinates}
use hass_geofence_journal.Location.{Outcome}
use hass_geofence_journal.Geofence.{EvaluatedObservation}
use hass_geofence_journal.Storage.Records.{RuntimeStateRecord}
use hass_geofence_journal.Storage.Resources.Active.{ConfiguredResources}
use hass_geofence_journal.Runtime.Contracts.{RuntimeStorage, RuntimeDependencies}
use hass_geofence_journal.Runtime.Action.{Engine}
use hass_geofence_journal.Runtime.Engine.{async_observe, deadline_callback, async_recover}
use hass_geofence_journal.Runtime.Progress.{
  IsQuiet, IsRecorded, IsHeld, IsObserved, IsLoaded, Progress,
}
use hass_geofence_journal.Runtime.Progress.Methods.{
  async_observe-Progress, deadline_callback-Progress, async_recover-Progress,
}
use hass_geofence_journal.HaState.{HaState}
use hass_geofence_journal.HaState.Decisions.{IsHaSample, evaluate-IsHaSample, evaluator-sample}
use hass_geofence_journal.Manager.{build_dependencies}

module _ (store : RuntimeStorage) (parse_float : String → Option Float)
    (meters_between : Coordinates → Coordinates → Float) (utc_now next_id : ℕ → ℕ)
    (store_coordinates : Bool) (states : String → Option HaState) (c : ConfiguredResources) where
  open store use {Db}

  abbrev pub deps : RuntimeDependencies
  deps = build_dependencies parse_float meters_between utc_now next_id store_coordinates states c

  -- Nothing was recorded, or one event was, and the tracker was then in an accepted state of Home
  -- Assistant whose evaluation, on the state that was pending, gave the event's presence.
  pub data IsSampled (Tie : RuntimeStateRecord → Type 0) (e e' : Engine Db) : Type 0 where
    quiet : IsQuiet store c.rule deps e e' → IsSampled Tie e e'
    sampled :
        (q : IsRecorded store c.rule deps Tie e e') (tracker : HaState) (o : EvaluatedObservation)
        → states c.tracker.entity_id ≡ some tracker
        → IsHaSample parse_float meters_between states c tracker (some q.s) o
        → o.presence ≡ q.t.target_state
        → IsSampled Tie e e'

  recorded-IsSampled :
      (Tie : RuntimeStateRecord → Type 0) (e e' : Engine Db)
      → Progress store c.rule deps Tie e e'
      → IsSampled Tie e e'
  unfolding build_dependencies
  recorded-IsSampled Tie e e' (inl q) = quiet q
  recorded-IsSampled Tie e e' (inr q) =
      let (tracker, o, found, accepts, same) =
        evaluator-sample parse_float meters_between states c q.s q.t.target_state q.agreed in
      sampled q tracker o found
        (evaluate-IsHaSample parse_float meters_between states c tracker (some q.s) o accepts) same

  -- An engine that the manager has built, whatever its state: an observation, a deadline and a
  -- recovery each record and tell nothing, or one event of the direction of its presence, which is
  -- due and outside its cooldown. Its presence is that of the tracker's state in Home Assistant at
  -- that time: a usable one of the tracker's kind, not before the last processed instant, evaluated
  -- against the place. The pending state is the engine's at a deadline, has its cooldowns and
  -- presence at an observation, and is the stored row, without the cooldowns that have passed, at a
  -- recovery.
  pub methods-IsSampled :
      (fuel : ℕ) (e : Engine Db) (x : Outcome EvaluatedObservation) (generation : ℕ)
      → IsSampled (IsObserved store c.rule deps e) e (async_observe store c.rule deps fuel x e).1
        × IsSampled
            (IsHeld store c.rule deps e)
            e
            (deadline_callback store c.rule deps fuel generation e).1
        × IsSampled (IsLoaded store c.rule deps e) e (async_recover store c.rule deps fuel e).1
  methods-IsSampled fuel e x generation = (
    recorded-IsSampled _ e _ (async_observe-Progress store c.rule deps fuel x e),
    recorded-IsSampled _ e _ (deadline_callback-Progress store c.rule deps fuel generation e),
    recorded-IsSampled _ e _ (async_recover-Progress store c.rule deps fuel e),
  )
