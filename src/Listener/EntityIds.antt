-- ===== src/Listener/EntityIds.antt =====
-- listener.py: the entities that a listener registers for.
use hass_geofence_journal.Prelude.{
  ℕ, ◌≡◌, refl, String, Bool, true, false, ◌&&◌, ◌||◌, List, [], ◌∷◌, inl, inr, arith, ap, ◌∙◌,
  Bool-cases,
}
use hass_geofence_journal.Text.{codes, eq_codes, eq_codes→eq}
use hass_geofence_journal.HaState.{same_text}
use hass_geofence_journal.Listener.{RuleRuntime, before, insert_id, entity_ids}

-- Each text before the next one, so none twice.
abbrev pub ascends : String → List String → Bool
ascends x [] = true
ascends x (y ∷ ys) = before (codes x) (codes y) && ascends y ys

abbrev pub ascending : List String → Bool
ascending [] = true
ascending (x ∷ xs) = ascends x xs

abbrev pub listed : String → List String → Bool
listed id [] = false
listed id (x ∷ xs) = same_text id x || listed id xs

-- Does a runtime watch the entity?
abbrev pub watched : {Db : Type 0} → String → List (RuleRuntime Db) → Bool
watched id [] = false
watched id (r ∷ rs) = same_text id r.resources.tracker.entity_id || watched id rs

before-total : (a b : List ℕ) → before a b ≡ false → eq_codes a b ≡ false → before b a ≡ true
before-total [] [] h k = cc
before-total [] (y ∷ ys) h k = cc
before-total (x ∷ xs) [] h k = refl
before-total (x ∷ xs) (y ∷ ys) h k = ground (arith, before-total xs ys)

insert-ascends :
    (id x : String) (xs : List String)
    → before (codes x) (codes id) ≡ true
    → ascends x xs ≡ true
    → ascends x (insert_id id xs) ≡ true
unfolding insert_id
insert-ascends id x [] h k = ground arith
insert-ascends id x (y ∷ ys) h k =
    ground (arith, insert-ascends id y ys, before-total (codes id) (codes y))

insert-ascending :
    (id : String) (xs : List String) → ascending xs ≡ true → ascending (insert_id id xs) ≡ true
unfolding insert_id
insert-ascending id [] h = refl
insert-ascending id (x ∷ xs) h =
    ground (arith, insert-ascends id x xs, before-total (codes id) (codes x))

listed-insert_id :
    (id k : String) (xs : List String)
    → listed k (insert_id id xs) ≡ (same_text k id || listed k xs)
unfolding insert_id
listed-insert_id id k [] = refl
listed-insert_id id k (x ∷ xs) = elim (Bool-cases (same_text id x)) [
  | inl same ↦
      let e = ap (eq_codes (codes k)) (eq_codes→eq (codes id) (codes x) same) in
      ground (arith, same, e)
  | inr other ↦ ground (arith, other, listed-insert_id id k xs)
]

-- The listener registers each entity that some runtime watches and no other, each once, in the
-- order of the texts, whatever the order and the repetitions among the runtimes.
pub entity_ids-exact :
    {Db : Type 0} (id : String) (rs : List (RuleRuntime Db))
    → (ascending (entity_ids rs) ≡ true) × (listed id (entity_ids rs) ≡ watched id rs)
unfolding entity_ids
entity_ids-exact id [] = (refl, refl)
entity_ids-exact id (r ∷ rs) =
    let (sorted, same) = entity_ids-exact id rs in
    let watch = r.resources.tracker.entity_id in
    (
      insert-ascending watch (entity_ids rs) sorted,
      listed-insert_id watch id (entity_ids rs) ∙ ap (λ b. same_text id watch || b) same,
    )
