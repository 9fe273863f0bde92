-- ===== src/Listener/Generation.antt =====
-- listener.py: what one sample does to the runtimes, and what a stopped generation does.
use hass_geofence_journal.Prelude.{
  ℕ, ◌+◌, ◌≤◌, ◌≡◌, refl, String, true, false, Option, none, some, List, [], ◌∷◌, ◌++◌, inl, inr,
  arith, Bool-cases, suc, length, length-append, if◌then◌else◌, ap, sym, ◌∙◌,
}
use mathlib.Core.Path.{subst}
use hass_geofence_journal.Runtime.Engine.{async_observe}
use mathlib.Core.List.{append-nil, append_assoc}
use hass_geofence_journal.Errors.{Error, Result, ok, err, Result-cases}
use hass_geofence_journal.Float.{Float}
use hass_geofence_journal.Models.{Coordinates}
use hass_geofence_journal.Storage.Records.{EventRow}
use hass_geofence_journal.Storage.Transitions.{transition_event}
use hass_geofence_journal.Storage.Resources.Active.{ConfiguredResources}
use hass_geofence_journal.Runtime.Contracts.{RuntimeStorage, RuntimeDependencies}
use hass_geofence_journal.Runtime.Action.{Engine}
use hass_geofence_journal.Runtime.Progress.{IsObserved, Progress}
use hass_geofence_journal.Runtime.Progress.Methods.{async_observe-Progress}
use hass_geofence_journal.HaState.{HaState, same_text, evaluate_ha_tracker_state}
use hass_geofence_journal.Listener.{
  RuleRuntime, Listener, process_runtime, process_all, async_process_state, async_handle_event,
  async_stop,
}

module _ (store : RuntimeStorage) (parse_float : String → Option Float)
    (meters_between : Coordinates → Coordinates → Float) (fuel : ℕ)
    (deps : ConfiguredResources → RuntimeDependencies) (states : String → Option HaState) where
  open store use {Db}

  -- The observation of a sample by the engine of a rule, on a database.
  abbrev pub heard : RuleRuntime Db → HaState → Db → Result (Unit {0}) × Engine Db
  heard r s d =
      async_observe store r.resources.rule (deps r.resources) fuel
        (evaluate_ha_tracker_state parse_float meters_between states r.resources s r.engine.state)
        (record r.engine { db = d })

  -- One sample's way through the runtimes, with its result: those of other entities stay, and the
  -- engine of each of its own observes it, evaluated for that rule, on what the one before left. An
  -- error of an observation is the result and ends the way.
  pub data IsPass (s : HaState)
      : List (RuleRuntime Db) → Db → Result (Unit {0}) → List (RuleRuntime Db) → Db → Type 0 where
    finished : {d : Db} → IsPass s [] d (ok tt) [] d
    skipped :
        {r : RuleRuntime Db} {rs rs' : List (RuleRuntime Db)} {d d' : Db} {res : Result (Unit {0})}
        → same_text r.resources.tracker.entity_id s.entity_id ≡ false
        → IsPass s rs d res rs' d'
        → IsPass s (r ∷ rs) d res (r ∷ rs') d'
    observed :
        {r : RuleRuntime Db} {rs rs' : List (RuleRuntime Db)} {d d' : Db} {e : Engine Db}
        {res : Result (Unit {0})}
        → same_text r.resources.tracker.entity_id s.entity_id ≡ true
        → heard r s d ≡ (ok tt, e)
        → IsPass s rs e.db res rs' d'
        → IsPass s (r ∷ rs) d res (record r { engine = e } ∷ rs') d'
    stopped :
        {r : RuleRuntime Db} {rs : List (RuleRuntime Db)} {d : Db} {e : Engine Db} {x : Error}
        → same_text r.resources.tracker.entity_id s.entity_id ≡ true
        → heard r s d ≡ (err x, e)
        → IsPass s (r ∷ rs) d (err x) (record r { engine = e } ∷ rs) e.db

module _ (store : RuntimeStorage) (deps : ConfiguredResources → RuntimeDependencies) where
  open store use {Db}

  -- The runtimes that watch the entity of a state.
  abbrev pub watchers : HaState → List (RuleRuntime Db) → ℕ
  watchers s [] = 0
  watchers s (r ∷ rs) =
      let rest = watchers s rs in
      elim (same_text r.resources.tracker.entity_id s.entity_id) [ true ↦ suc rest | false ↦ rest ]

-- Events that were added behind others, with a bound on their number.
pub record IsExtension (n : ℕ) (old later : List EventRow) : Type 0 where
  pub new : List EventRow
  pub appended : later ≡ old ++ new
  pub bounded : length new ≤ n

module _ (store : RuntimeStorage) (parse_float : String → Option Float)
    (meters_between : Coordinates → Coordinates → Float) (fuel : ℕ)
    (deps : ConfiguredResources → RuntimeDependencies) (states : String → Option HaState) where
  open store use {Db}

  abbrev Pass :
      HaState → List (RuleRuntime Db) → Db → Result (Unit {0}) → List (RuleRuntime Db) → Db → Type 0
  Pass = IsPass store parse_float meters_between fuel deps states

  pub process_all-IsPass :
      (s : HaState) (rs : List (RuleRuntime Db)) (d : Db)
      → let out = process_all store parse_float meters_between fuel deps states s rs d in
        IsPass store parse_float meters_between fuel deps states s rs d out.0 out.1 out.2
  unfolding process_all process_runtime
  process_all-IsPass s [] d = finished
  process_all-IsPass s (r ∷ rs) d =
      elim (Bool-cases (same_text r.resources.tracker.entity_id s.entity_id)) [
        | inr other ↦ simp other (skipped other (process_all-IsPass s rs d))
        | inl same ↦
            let p = process_runtime store parse_float meters_between fuel deps states r s d in
            elim (Result-cases p.0) [
              | inl (_, returned) ↦
                  simp (same, returned)
                    (observed same (ap (λ q. (q, p.1)) returned) (process_all-IsPass s rs p.1.db))
              | inr (_, raised) ↦ simp (same, raised) (stopped same (ap (λ q. (q, p.1)) raised))
            ]
      ]

  IsExtension-trans :
      {xs ys zs : List EventRow} {m n : ℕ}
      → IsExtension m xs ys
      → IsExtension n ys zs
      → IsExtension (m + n) xs zs
  IsExtension-trans {xs} p q = record {
    new = p.new ++ q.new;
    appended = q.appended ∙ ap (λ l. l ++ q.new) p.appended ∙ append_assoc xs p.new q.new;
    bounded = omega (arith, length-append p.new q.new, p.bounded, q.bounded);
  }

  IsExtension-le :
      {xs ys : List EventRow} {m n : ℕ} → IsExtension m xs ys → m ≤ n → IsExtension n xs ys
  IsExtension-le p h = record {
    new = p.new;
    appended = p.appended;
    bounded = omega (arith, p.bounded, h);
  }

  Progress-IsExtension :
      (r : RuleRuntime Db) {e₀ e : Engine Db}
      → Progress store r.resources.rule
          (deps r.resources)
          (IsObserved store r.resources.rule (deps r.resources) e₀)
          e₀
          e
      → IsExtension 1 (store.events e₀.db) (store.events e.db)
  Progress-IsExtension r (inl q) = record {
    new = [];
    appended = q.same_events ∙ sym (append-nil _);
    bounded = omega arith;
  }
  Progress-IsExtension r (inr q) = record {
    new = transition_event q.t ∷ [];
    appended = q.appended;
    bounded = omega arith;
  }

  same-IsExtension : (xs : List EventRow) → IsExtension 0 xs xs
  same-IsExtension xs = record { new = []; appended = sym (append-nil xs); bounded = omega arith }

  heard-IsExtension :
      (s : HaState) (r : RuleRuntime Db) (d : Db) (res : Result (Unit {0})) (e : Engine Db)
      → heard store parse_float meters_between fuel deps states r s d ≡ (res, e)
      → IsExtension 1 (store.events d) (store.events e.db)
  heard-IsExtension s r d res e h =
      subst (λ p. IsExtension 1 (store.events d) (store.events p.1.db)) h
        (Progress-IsExtension r (
          async_observe-Progress store r.resources.rule (deps r.resources) fuel
            (evaluate_ha_tracker_state parse_float meters_between states r.resources s
              r.engine.state)
            (record r.engine { db = d })))

  pub Pass-IsExtension :
      {s : HaState} {rs rs' : List (RuleRuntime Db)} {d d' : Db} {res : Result (Unit {0})}
      → Pass s rs d res rs' d'
      → IsExtension (watchers store deps s rs) (store.events d) (store.events d')
  Pass-IsExtension (finished {d}) = same-IsExtension (store.events d)
  Pass-IsExtension (skipped other p) = rw (other, watchers) (Pass-IsExtension p)
  Pass-IsExtension {s} {d = d} (observed {r = r} {e = e} same q p) =
      rw (same, watchers)
        (IsExtension-le
          (IsExtension-trans (heard-IsExtension s r d (ok tt) e q) (Pass-IsExtension p))
          (omega arith))
  Pass-IsExtension {s} {d = d} (stopped {r = r} {e = e} {x = x} same q) =
      rw (same, watchers) (IsExtension-le (heard-IsExtension s r d (err x) e q) (omega arith))

  -- A sample for an active listener passes through its runtimes in their order: those of other
  -- entities stay as they were, the engine of each of its entity's observes it, evaluated for that
  -- rule, on the database that the one before left, and the first error is the result and leaves those
  -- behind it. The listener stays active and registered as it was.
  pub async_process_state-IsPass :
      (s : HaState) (l : Listener Db)
      → l.active ≡ true
      → let (res, l') = async_process_state store parse_float meters_between fuel deps states s l in
        IsPass store parse_float meters_between fuel deps states s l.runtimes l.db res l'.runtimes
          l'.db
        × (l'.active ≡ true)
        × (l'.registered ≡ l.registered)
  unfolding async_process_state
  async_process_state-IsPass s l on = simp on (process_all-IsPass s l.runtimes l.db, refl, refl)

  async_handle_event-db :
      (s : HaState) (l : Listener Db)
      → (async_handle_event store parse_float meters_between fuel deps states (some s) l).1.db
        ≡ (async_process_state store parse_float meters_between fuel deps states s l).1.db
  unfolding async_handle_event
  async_handle_event-db s l =
      elim (Result-cases
        (async_process_state store parse_float meters_between fuel deps states s l).0) [
          | inl (_, e) ↦ ground (arith, e)
          | inr (x, e) ↦ ground (arith, e)
        ]

  -- An event of Home Assistant leaves the recorded events in front and adds at most one for each
  -- runtime of its entity, and none if the listener is inactive or there is no new state.
  pub async_handle_event-IsExtension :
      (x : Option HaState) (l : Listener Db)
      → IsExtension
          (elim x [ none ↦ 0 | some s ↦ if l.active then watchers store deps s l.runtimes else 0 ])
          (store.events l.db)
          (store.events
            (async_handle_event store parse_float meters_between fuel deps states x l).1.db)
  unfolding async_process_state
  async_handle_event-IsExtension none l =
      unfold async_handle_event in same-IsExtension (store.events l.db)
  async_handle_event-IsExtension (some s) l =
      let kept = async_handle_event-db s l in
      elim (Bool-cases l.active) [
        | inl on ↦ rw (kept) (simp on (Pass-IsExtension (process_all-IsPass s l.runtimes l.db)))
        | inr off ↦ rw (kept) (simp off (same-IsExtension (store.events l.db)))
      ]

  -- The events that a listener hears, one after the other, whatever each of them raised.
  unfoldable pub hear : List (Option HaState) → Listener Db → Listener Db
  hear [] l = l
  hear (x ∷ xs) l =
      hear xs (async_handle_event store parse_float meters_between fuel deps states x l).1

  silent :
      (l : Listener Db) (x : Option HaState)
      → async_handle_event store parse_float meters_between fuel deps states x (async_stop l)
        ≡ (ok tt, async_stop l)
  unfolding async_handle_event async_process_state async_stop
  silent l none = refl
  silent l (some s) = refl

  silent-hear :
      (l : Listener Db) (xs : List (Option HaState)) → hear xs (async_stop l) ≡ async_stop l
  unfolding hear
  silent-hear l [] = refl
  silent-hear l (x ∷ xs) = rw (silent l x) (silent-hear l xs)

  -- A stopped listener is registered for nothing, and callbacks that were queued before it stopped,
  -- however many come, change nothing and raise nothing.
  pub async_stop-IsSilent :
      (l : Listener Db) (x : Option HaState) (xs : List (Option HaState))
      → (hear xs (async_stop l) ≡ async_stop l)
        × (async_handle_event store parse_float meters_between fuel deps states x (async_stop l)
            ≡ (ok tt, async_stop l))
        × ((async_stop l).registered ≡ none)
  unfolding async_stop
  async_stop-IsSilent l x xs = (silent-hear l xs, silent l x, refl)
