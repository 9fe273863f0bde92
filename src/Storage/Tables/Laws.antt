-- ===== src/Storage/Tables/Laws.antt =====
-- What the table operations do to the rows that are found.
use hass_geofence_journal.Prelude.{
  ℕ, ◌≡◌, refl, none, some, List, [], ◌∷◌, ◌++◌, arith, ◌==◌, if◌then◌else◌,
}
use hass_geofence_journal.Storage.Records.{EventRow}
use hass_geofence_journal.Storage.Tables.{find, upsert, remove, find_transition, transition_key}

module _ {ℓ} {A : Type ℓ} (key : A → ℕ) where
  pub find-upsert :
      (row : A) (id : ℕ) (xs : List A)
      → find key id (upsert key row xs) ≡ (if key row == id then some row else find key id xs)
  unfolding find upsert
  find-upsert row id [] = refl
  find-upsert row id (x ∷ xs) = ground (arith, find-upsert row id xs)

  pub find-remove :
      (k id : ℕ) (xs : List A)
      → find key id (remove key k xs) ≡ (if k == id then none else find key id xs)
  unfolding find remove
  find-remove k id [] = ground arith
  find-remove k id (x ∷ xs) = ground (arith, find-remove k id xs)

-- A row with the key is found once it has been appended.
pub find_transition-append :
    (r g d : ℕ) (e : EventRow) (events : List EventRow)
    → transition_key e ≡ some (r, g, d)
    → find_transition r g d events ≡ none
    → find_transition r g d (events ++ e ∷ []) ≡ some e
unfolding find_transition
find_transition-append r g d e [] k n = ground arith
find_transition-append r g d e (x ∷ events) k n =
    ground (arith, find_transition-append r g d e events k)
