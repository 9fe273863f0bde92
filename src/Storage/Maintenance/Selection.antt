-- ===== src/Storage/Maintenance/Selection.antt =====
-- storage/maintenance.py: what the statements of a purge leave; no event that is deleted is still
-- referred to.
use hass_geofence_journal.Prelude.{
  ℕ, ◌+◌, ◌≡◌, refl, sym, ◌∙◌, Bool, true, false, ◌&&◌, List, [], ◌∷◌, arith, ◌==◌, inl, inr,
  Bool-cases, length,
}
use hass_geofence_journal.Storage.Records.{EventRow}
use hass_geofence_journal.Storage.Tables.{Tables, RevisionRow, RuntimeRow}
use hass_geofence_journal.Storage.Maintenance.{
  PurgeRequest, count_if, without, any, map_rows, selects, selects_id, clear_last_event,
  clear_original, is_id, is_referenced,
}

module _ {ℓ} {A : Type ℓ} (p : A → Bool) where
  pub without-count_if : (xs : List A) → length (without p xs) + count_if p xs ≡ length xs
  unfolding without count_if
  without-count_if [] = refl
  without-count_if (x ∷ xs) = ground (arith, without-count_if xs)

  pub any-without : (xs : List A) → any p (without p xs) ≡ false
  unfolding without any
  any-without [] = refl
  any-without (x ∷ xs) = ground (arith, any-without xs)

module _ (r : PurgeRequest) (events : List EventRow) where
  pub selects_id-cleared :
      (xs : List EventRow) (id : ℕ)
      → selects_id r (map_rows (clear_original r events) xs) id ≡ selects_id r xs id
  unfolding selects_id map_rows
  selects_id-cleared [] id = refl
  selects_id-cleared (x ∷ xs) id = ground (arith, selects_id-cleared xs id)

  module _ (id : ℕ) (selected : selects_id r events id ≡ true) where
    pub no_revision :
        (xs : List RevisionRow)
        → any
            (λ (x : RevisionRow). x.event_id == id)
            (without (λ (x : RevisionRow). selects_id r events x.event_id) xs)
          ≡ false
    unfolding any without
    no_revision [] = refl
    no_revision (x ∷ xs) = ground (arith, no_revision xs)

    pub no_runtime :
        (xs : List RuntimeRow)
        → any
            (λ (x : RuntimeRow). is_id id x.last_event_id)
            (map_rows (clear_last_event r events) xs)
          ≡ false
    unfolding any map_rows
    no_runtime [] = refl
    no_runtime (x ∷ xs) = ground (arith, no_runtime xs)

    pub no_original :
        (xs : List EventRow)
        → any
            (λ (x : EventRow). is_id id x.original_event_id)
            (map_rows (clear_original r events) xs)
          ≡ false
    unfolding any map_rows
    no_original [] = refl
    no_original (x ∷ xs) = ground (arith, no_original xs)

-- Where no selected id is referred to, the deletion is allowed.
none_referred :
    (r : PurgeRequest) (refers : ℕ → Bool) (events : List EventRow)
    → ((id : ℕ) → selects_id r events id ≡ true → refers id ≡ false)
    → any (λ (e : EventRow). selects r e && refers e.id) events ≡ false
unfolding any selects_id
none_referred r refers [] h = refl
none_referred r refers (e ∷ events) h =
    let rest = none_referred r refers events λ id s. h id (ground arith) in
    elim (Bool-cases (selects r e)) [
      | inl s ↦ ground (arith, h e.id)
      | inr u ↦ ground (arith, rest)
    ]

-- What a purge leaves.
abbrev pub cleared : PurgeRequest → Tables → Tables
cleared r t = record t {
  revisions = without (λ (x : RevisionRow). selects_id r t.events x.event_id) t.revisions;
  runtime_states = map_rows (clear_last_event r t.events) t.runtime_states;
  events = map_rows (clear_original r t.events) t.events;
}

pub cleared-unreferenced :
    (r : PurgeRequest) (t : Tables)
    → any (λ (e : EventRow). selects r e && is_referenced (cleared r t) e.id) (cleared r t).events
      ≡ false
unfolding is_referenced
cleared-unreferenced r t =
    none_referred r (is_referenced (cleared r t)) (cleared r t).events λ id s.
      let s' = sym (selects_id-cleared r t.events t.events id) ∙ s in
      rw
        (
          no_revision r t.events id s' t.revisions,
          no_runtime r t.events id s' t.runtime_states,
          no_original r t.events id s' t.events,
        )
        refl
