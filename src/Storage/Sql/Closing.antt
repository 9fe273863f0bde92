-- ===== src/Storage/Sql/Closing.antt =====
-- Bodies that may end their transaction themselves before they return: a guarded transaction of such
-- a body is all or nothing too.
use hass_geofence_journal.Prelude.{
  ◌≡◌, refl, ap, ◌∙◌, none, some, arith, inl, inr, Bool, true, ℕ, ◌⊎◌, Bool-cases,
}
use hass_geofence_journal.Errors.{Error, Result, ok, err, sqlite}
use hass_geofence_journal.Exec.Rules.{>>=-ok, >>=-err}
use hass_geofence_journal.Storage.Tables.{Tables}
use hass_geofence_journal.Storage.Sql.{
  Connection, Sql, lift, pure, ◌>>=◌, fails, update, begin_immediate, rollback, close_body,
  transaction,
}
use hass_geofence_journal.Storage.Sql.Laws.{next, Ended, Atomic, IsBody, IsAtomic, begin-cases}

-- The transaction is open where the body raises.
abbrev pub Open : {A : Type 0} → Connection → Result A → Connection → Type 0
Open c (ok a) c' = Unit
Open c (err x) c' = c'.before ≡ c.before

module _ {A : Type 0} (handled : Error → Bool) (Done : A → Tables → Tables → Type 0) where
  -- From tables with `Pre`, in a transaction that began at `old`.
  pub record IsClosing (Pre : Tables → Tables → Type 0) (body : Sql A) : Type 0 where
    pub closes :
        (c : Connection) (old : Tables)
        → c.before ≡ some old
        → Pre old c.tables
        → Open c (body c).0 (body c).1 × Ended handled Done old (body c).0 (body c).1.tables

  guarded :
      (old : Tables) (r : Result A) (c c' : Connection)
      → c.before ≡ some old
      → Open c r c'
      → Ended handled Done old r c'.tables
      → let (r', d) = close_body handled r c' in (d.before ≡ none) × Atomic Done old r' d.tables
  unfolding close_body rollback
  guarded old (ok a) c c' b o done = (refl, done)
  guarded old (err x) c c' b o known = ground arith

  pub closing-IsAtomic :
      (body : Sql A) (c : Connection)
      → IsClosing (λ old t. t ≡ old) body
      → c.before ≡ none
      → IsAtomic handled Done c (transaction handled body c)
  unfolding transaction
  closing-IsAtomic body c closing idle = elim (begin-cases c idle) [
    | inl failed ↦
        rw (>>=-err begin_immediate _ c _ sqlite failed) (record { idle = idle; whole = refl })
    | inr begun ↦
        let opened : Connection = record (next c c.tables) { before = some c.tables } in
        let (closed, whole) =
          guarded c.tables (body opened).0 opened (body opened).1 refl
            (closing.closes opened c.tables refl refl).0
            (closing.closes opened c.tables refl refl).1 in
        rw (>>=-ok begin_immediate _ c opened tt begun) (record { idle = closed; whole = whole })
  ]

-- A body that keeps the transaction open, and then one that may end it.
module _ {A B : Type 0} (handled : Error → Bool) (Pre : Tables → Tables → Type 0) where
  module _ (Mid : A → Tables → Tables → Type 0) (Done : B → Tables → Tables → Type 0) where
    rest_closes :
        (f : A → Sql B) (r : Result A) (c c' : Connection) (old mid : Tables)
        → ((a : A) → IsClosing handled Done (Mid a) (f a))
        → c.before ≡ some old
        → c'.before ≡ c.before
        → Pre old mid
        → Ended handled (λ a mid new. (old : Tables) → Pre old mid → Mid a old new) mid r c'.tables
        → let (s, d) = (lift r >>= f) c' in Open c s d × Ended handled Done old s d.tables
    unfolding lift ◌>>=◌
    rest_closes f (err x) c c' old mid hf b o p h = (o, h)
    rest_closes f (ok a) c c' old mid hf b o p h =
        let (still, done) = (hf a).closes c' old (o ∙ b) (h old p) in
        (reopen (f a c').0 (f a c').1 still, done)
      where
        reopen : (r : Result B) (d : Connection) → Open c' r d → Open c r d
        reopen (ok b) d h = h
        reopen (err x) d h = h ∙ o

    pub bind-IsClosing :
        (m : Sql A) (f : A → Sql B)
        → IsBody handled (λ a mid new. (old : Tables) → Pre old mid → Mid a old new) m
        → ((a : A) → IsClosing handled Done (Mid a) (f a))
        → IsClosing handled Done Pre (m >>= f)
    unfolding ◌>>=◌ lift rest_closes
    bind-IsClosing m f hm hf = record {
      closes = λ c old b p.
          rest_closes f (m c).0 c (m c).1 old c.tables hf b (hm.before c) p (hm.ended c);
    }

update-cases :
    (change : Tables → ℕ × Tables) (c : Connection)
    → (update change c ≡ (err sqlite, next c c.tables))
      ⊎ (update change c ≡ (ok (change c.tables).0, next c (change c.tables).1))
unfolding update
update-cases change c = elim (Bool-cases (fails c.faults)) [
  | inl failing ↦ inl (rw failing)
  | inr running ↦ inr (rw running)
]

-- An UPDATE.
pub update-IsBody :
    (handled : Error → Bool) (Done : ℕ → Tables → Tables → Type 0) (change : Tables → ℕ × Tables)
    → handled sqlite ≡ true
    → ((old : Tables) → Done (change old).0 old (change old).1)
    → IsBody handled Done (update change)
update-IsBody handled Done change h d = record {
  before = λ c. elim (update-cases change c) [
    | inl failed ↦ ap (λ p. p.1.before) failed
    | inr done ↦ ap (λ p. p.1.before) done
  ];
  ended = λ c. elim (update-cases change c) [
    | inl failed ↦ rw failed h
    | inr done ↦ rw done (d c.tables)
  ];
}

module _ {A : Type 0} (handled : Error → Bool) (Pre : Tables → Tables → Type 0) where
  -- A body that keeps the transaction open is such a body.
  pub body-IsClosing :
      (Done : A → Tables → Tables → Type 0) (m : Sql A)
      → IsBody handled (λ a mid new. (old : Tables) → Pre old mid → Done a old new) m
      → IsClosing handled Done Pre m
  body-IsClosing Done m h = record {
    closes = λ c old b p. last_closes (m c).0 c (m c).1 old c.tables (h.before c) p (h.ended c);
  }
    where
      last_closes :
          (r : Result A) (c c' : Connection) (old mid : Tables)
          → c'.before ≡ c.before
          → Pre old mid
          → Ended handled
              (λ a mid new. (old : Tables) → Pre old mid → Done a old new)
              mid
              r
              c'.tables
          → Open c r c' × Ended handled Done old r c'.tables
      last_closes (ok a) c c' old mid o p h = (tt, h old p)
      last_closes (err x) c c' old mid o p h = (o, h)

  pub pure-IsClosing :
      (Done : A → Tables → Tables → Type 0) (a : A)
      → ((old t : Tables) → Pre old t → Done a old t)
      → IsClosing handled Done Pre (pure a)
  unfolding pure
  pure-IsClosing Done a h = record { closes = λ c old b p. (tt, h old c.tables p) }
