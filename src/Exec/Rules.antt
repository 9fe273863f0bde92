-- ===== src/Exec/Rules.antt =====
-- Rules for what an action does to a predicate on the state, whether it returns or raises.
use hass_geofence_journal.Prelude.{◌≡◌, refl, ap, Bool, true, false, if◌then◌else◌}
use hass_geofence_journal.Errors.{Error, Result, ok, err}
use hass_geofence_journal.Exec.{Exec, lift, ◌>>=◌}

-- From a state with `P`, the action ends in a state with `Q`, also if it raises.
pub record Leads {S A : Type 0} (P Q : S → Type 0) (m : Exec S A) : Type 0 where
  pub at : (e : S) → P e → Q (m e).1

-- The action keeps `P`.
abbrev pub Keeps : {S A : Type 0} → (S → Type 0) → Exec S A → Type 0
Keeps P m = Leads P P m

module _ {S : Type 0} {P Q : S → Type 0} where
  pub Leads-lift_bind :
      {A B : Type 0} (r : Result A) (f : A → Exec S B)
      → ((e : S) → P e → Q e)
      → ((a : A) → r ≡ ok a → Leads P Q (f a))
      → Leads P Q (lift r >>= f)
  unfolding ◌>>=◌ lift
  Leads-lift_bind (ok a) f weaken step = record { at = λ e h. (step a refl).at e h }
  Leads-lift_bind (err x) f weaken step = record { at = λ e h. weaken e h }

  -- The first action keeps `P`; the weakening is for a raise.
  pub Leads-bind :
      {A B : Type 0} (m : Exec S A) (f : A → Exec S B)
      → ((e : S) → P e → Q e)
      → Keeps P m
      → ((a : A) → Leads P Q (f a))
      → Leads P Q (m >>= f)
  unfolding ◌>>=◌ lift
  Leads-bind m f weaken keep step = record {
    at = λ e h.
        let (r, e') = m e in (Leads-lift_bind r f weaken (λ a _. step a)).at e' (keep.at e h);
  }

  pub Leads-if :
      {A : Type 0} (b : Bool) (m n : Exec S A)
      → (b ≡ true → Leads P Q m)
      → (b ≡ false → Leads P Q n)
      → Leads P Q (if b then m else n)
  Leads-if true m n hm hn = hm refl
  Leads-if false m n hm hn = hn refl

-- The first action leads from `P` to `R`, whether it returns or raises.
pub Leads-then :
    {S A B : Type 0} {P R Q : S → Type 0} (m : Exec S A) (f : A → Exec S B)
    → ((e : S) → R e → Q e)
    → Leads P R m
    → ((a : A) → Leads R Q (f a))
    → Leads P Q (m >>= f)
unfolding ◌>>=◌ lift
Leads-then m f weaken first step = record {
  at =
      λ e h. let (r, e') = m e in (Leads-lift_bind r f weaken (λ a _. step a)).at e' (first.at e h);
}

pub Keeps-bind :
    {S A B : Type 0} {P : S → Type 0} (m : Exec S A) (f : A → Exec S B)
    → Keeps P m
    → ((a : A) → Keeps P (f a))
    → Keeps P (m >>= f)
Keeps-bind m f keep step = Leads-bind m f (λ e h. h) keep step

pub Keeps-lift_bind :
    {S A B : Type 0} {P : S → Type 0} (r : Result A) (f : A → Exec S B)
    → ((a : A) → r ≡ ok a → Keeps P (f a))
    → Keeps P (lift r >>= f)
Keeps-lift_bind r f step = Leads-lift_bind r f (λ e h. h) step

-- A bind computes through the equation of its first action.
module _ {S A B : Type 0} (m : Exec S A) (f : A → Exec S B) where
  pub >>=-ok : (e e' : S) (a : A) → m e ≡ (ok a, e') → (m >>= f) e ≡ f a e'
  unfolding ◌>>=◌
  >>=-ok e e' a h = rw (h, ◌>>=◌) (ap (λ p. f a p.1) h)

  pub >>=-err : (e e' : S) (x : Error) → m e ≡ (err x, e') → (m >>= f) e ≡ (err x, e')
  unfolding ◌>>=◌
  >>=-err e e' x h = rw (h, ◌>>=◌) (ap (λ p. (err x, p.1)) h)
