-- ===== src/Exec.antt =====
-- Code that reads and changes a state and may raise: what was written before a raise stays written.
pub mod Rules
use hass_geofence_journal.Errors.{Error, Result, ok, err}

abbrev pub Exec : Type 0 → Type 0 → Type 0
Exec S A = S → Result A × S

module _ {S : Type 0} where
  unfoldable pub raise : {A : Type 0} → Error → Exec S A
  raise x s = (err x, s)

  unfoldable pub lift : {A : Type 0} → Result A → Exec S A
  lift r s = (r, s)

  unfoldable pub pure : {A : Type 0} → A → Exec S A
  pure a s = (ok a, s)

  unfoldable pub done : Exec S (Unit {0})
  done s = (ok tt, s)

  infixl 5 ◌>>=◌ ◌>>◌
  unfoldable pub ◌>>=◌ : {A B : Type 0} → Exec S A → (A → Exec S B) → Exec S B
  ◌>>=◌ m f s = let (r, s') = m s in elim r [ ok a ↦ f a s' | err x ↦ (err x, s') ]

  abbrev pub ◌>>◌ : {B : Type 0} → Exec S (Unit {0}) → Exec S B → Exec S B
  m >> k = m >>= λ _. k
