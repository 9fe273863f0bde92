-- ===== src/Listener/Started.antt =====
-- listener.py: a listener that starts is active and registered for its runtimes' trackers.
use hass_geofence_journal.Prelude.{
  ℕ, ◌≡◌, refl, sym, ap, ◌∙◌, String, true, false, Option, some, List, [], ◌∷◌, inl, inr,
  Bool-cases, Option-cases,
}
use hass_geofence_journal.Errors.{Result, ok, err}
use hass_geofence_journal.Float.{Float}
use hass_geofence_journal.Models.{Coordinates}
use hass_geofence_journal.Storage.Resources.Active.{ConfiguredResources}
use hass_geofence_journal.Runtime.Contracts.{RuntimeStorage, RuntimeDependencies}
use hass_geofence_journal.HaState.{HaState}
use hass_geofence_journal.Listener.{
  RuleRuntime, Listener, insert_id, entity_ids, async_process_state, synchronize, async_start,
}
use hass_geofence_journal.Listener.Generation.{
  IsPass, finished, skipped, observed, stopped, process_all-IsPass,
}

module _ {Db : Type 0} where
  abbrev pub resources_of : List (RuleRuntime Db) → List ConfiguredResources
  resources_of [] = []
  resources_of (r ∷ runtimes) = r.resources ∷ resources_of runtimes

-- The trackers of some rules, each once and in order.
abbrev pub watched : List ConfiguredResources → List String
watched [] = []
watched (c ∷ resources) = insert_id c.tracker.entity_id (watched resources)

entity_ids-watched :
    {Db : Type 0} (rs : List (RuleRuntime Db)) → entity_ids rs ≡ watched (resources_of rs)
unfolding entity_ids
entity_ids-watched [] = refl
entity_ids-watched (r ∷ rs) = ap (insert_id r.resources.tracker.entity_id) (entity_ids-watched rs)

-- A listener with the same registration, whose engines may have gone on.
record Alike {Db : Type 0} (l l' : Listener Db) : Type 0 where
  same_active : l'.active ≡ l.active
  same_registered : l'.registered ≡ l.registered
  same_resources : resources_of l'.runtimes ≡ resources_of l.runtimes

Alike-trans : {Db : Type 0} {l l' l'' : Listener Db} → Alike l l' → Alike l' l'' → Alike l l''
Alike-trans p q = record {
  same_active = q.same_active ∙ p.same_active;
  same_registered = q.same_registered ∙ p.same_registered;
  same_resources = q.same_resources ∙ p.same_resources;
}

module _ (store : RuntimeStorage) (parse_float : String → Option Float)
    (meters_between : Coordinates → Coordinates → Float) (fuel : ℕ)
    (deps : ConfiguredResources → RuntimeDependencies) (states : String → Option HaState) where
  open store use {Db}

  IsPass-resources :
      {s : HaState} {rs rs' : List (RuleRuntime Db)} {d d' : Db} {res : Result (Unit {0})}
      → IsPass store parse_float meters_between fuel deps states s rs d res rs' d'
      → resources_of rs' ≡ resources_of rs
  IsPass-resources finished = refl
  IsPass-resources (skipped {r = r} e p) = ap (λ l. r.resources ∷ l) (IsPass-resources p)
  IsPass-resources (observed {r = r} e g p) = ap (λ l. r.resources ∷ l) (IsPass-resources p)
  IsPass-resources (stopped e g) = refl

  process_state-Alike :
      (s : HaState) (l : Listener Db)
      → Alike l (async_process_state store parse_float meters_between fuel deps states s l).1
  unfolding async_process_state
  process_state-Alike s l = elim (Bool-cases l.active) [
    | inr idle ↦
        simp (idle) (record { same_active = refl; same_registered = refl; same_resources = refl })
    | inl active ↦ simp (active) (record {
      same_active = sym active;
      same_registered = refl;
      same_resources =
          IsPass-resources (
            process_all-IsPass store parse_float meters_between fuel deps states s l.runtimes l.db);
    })
  ]

  synchronized-Alike :
      (ids : List String) (l : Listener Db) (p : Result (Unit {0}) × Listener Db)
      → Alike l p.1
      → ((l' : Listener Db)
          → Alike l' (synchronize store parse_float meters_between fuel deps states ids l').1)
      → Alike l
          (elim p.0 as (λ _. Result (Unit {0}) × Listener Db) [
            | ok _ ↦ synchronize store parse_float meters_between fuel deps states ids p.1
            | err x ↦ (err x, p.1)
          ]).1
  synchronized-Alike ids l (ok _, l') h rest = Alike-trans h (rest l')
  synchronized-Alike ids l (err x, l') h rest = h

  synchronize-Alike :
      (ids : List String) (l : Listener Db)
      → Alike l (synchronize store parse_float meters_between fuel deps states ids l).1
  unfolding synchronize
  synchronize-Alike [] l = record {
    same_active = refl;
    same_registered = refl;
    same_resources = refl;
  }
  synchronize-Alike (id ∷ ids) l = elim (Option-cases (states id)) [
    | inl absent ↦ rw (absent, synchronize) (synchronize-Alike ids l)
    | inr (s, there) ↦
        rw (there, synchronize)
          (synchronized-Alike ids l
            (async_process_state store parse_float meters_between fuel deps states s l)
            (process_state-Alike s l) (synchronize-Alike ids))
  ]

  -- An inactive listener that starts is active and registered for its runtimes' trackers.
  pub async_start-IsStarted :
      (l : Listener Db)
      → l.active ≡ false
      → let started = (async_start store parse_float meters_between fuel deps states l).1 in
        (started.active ≡ true)
        × (started.registered ≡ some (watched (resources_of l.runtimes)))
        × (resources_of started.runtimes ≡ resources_of l.runtimes)
  unfolding async_start
  async_start-IsStarted l idle =
      let h =
        synchronize-Alike (entity_ids l.runtimes)
          (record l { active = true; registered = some (entity_ids l.runtimes) }) in
      simp (idle) (
        h.same_active,
        h.same_registered ∙ ap (λ ids. some ids) (entity_ids-watched l.runtimes),
        h.same_resources,
      )
