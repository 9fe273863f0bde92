-- ===== src/Storage/Sql/Laws.antt =====
-- How each statement can end, and that a guarded transaction is all or nothing.
use hass_geofence_journal.Prelude.{
  ◌≡◌, refl, ap, ◌∙◌, [], Bool, true, Option, none, some, ◌⊎◌, inl, inr, arith, Bool-cases,
  Option-cases,
}
use hass_geofence_journal.Errors.{Error, Result, ok, err, sqlite}
use hass_geofence_journal.Exec.Rules.{>>=-ok, >>=-err}
use hass_geofence_journal.Storage.Tables.{Tables}
use hass_geofence_journal.Storage.Sql.{
  raise, lift, pure, ◌>>=◌, Connection, Sql, fails, later, write, query, begin_immediate, rollback,
  close_body, transaction,
}

-- The connection after a statement, with the tables that it left.
abbrev pub next : Connection → Tables → Connection
next c t = record c { tables = t; faults = later c.faults }

pub write-cases :
    (change : Tables → Option Tables) (c : Connection)
    → (write change c ≡ (err sqlite, next c c.tables))
      ⊎ ((t : Tables) × (change c.tables ≡ some t) × (write change c ≡ (ok tt, next c t)))
unfolding write
write-cases change c = elim (Bool-cases (fails c.faults)) [
  | inl failing ↦ inl (rw failing)
  | inr running ↦ elim (Option-cases (change c.tables)) [
    | inl broken ↦ inl (ground arith)
    | inr (t, changed) ↦ inr (t, changed, ground arith)
  ]
]

pub query-cases :
    {A : Type 0} (select : Tables → A) (c : Connection)
    → (query select c ≡ (err sqlite, next c c.tables))
      ⊎ (query select c ≡ (ok (select c.tables), next c c.tables))
unfolding query
query-cases select c = elim (Bool-cases (fails c.faults)) [
  | inl failing ↦ inl (rw failing)
  | inr running ↦ inr (rw running)
]

pub begin-cases :
    (c : Connection)
    → c.before ≡ none
    → (begin_immediate c ≡ (err sqlite, next c c.tables))
      ⊎ (begin_immediate c ≡ (ok tt, record (next c c.tables) { before = some c.tables }))
unfolding begin_immediate
begin-cases c idle = elim (Bool-cases (fails c.faults)) [
  | inl failing ↦ inl (rw failing)
  | inr running ↦ inr (ground arith)
]

-- What a body may leave inside a transaction: its success satisfies `Done`, its errors are handled.
abbrev pub Ended :
    {A : Type 0}
    → (Error → Bool)
    → (A → Tables → Tables → Type 0)
    → Tables
    → Result A
    → Tables
    → Type 0
Ended handled Done old (ok a) new = Done a old new
Ended handled Done old (err x) new = handled x ≡ true

-- All or nothing: `Done`, or an error and the tables of before.
abbrev pub Atomic :
    {A : Type 0} → (A → Tables → Tables → Type 0) → Tables → Result A → Tables → Type 0
Atomic Done old (ok a) new = Done a old new
Atomic Done old (err x) new = new ≡ old

module _ {A : Type 0} (handled : Error → Bool) (Done : A → Tables → Tables → Type 0) where
  -- A body that keeps the transaction open, from any connection.
  pub record IsBody (body : Sql A) : Type 0 where
    pub before : (c : Connection) → (body c).1.before ≡ c.before
    pub ended : (c : Connection) → Ended handled Done c.tables (body c).0 (body c).1.tables

  -- The connection is idle again, and the change was made whole or not at all.
  pub record IsAtomic (c : Connection) (p : Result A × Connection) : Type 0 where
    pub idle : p.1.before ≡ none
    pub whole : Atomic Done c.tables p.0 p.1.tables

  guarded :
      (old : Tables) (r : Result A) (c : Connection)
      → c.before ≡ some old
      → Ended handled Done old r c.tables
      → let (r', c') = close_body handled r c in (c'.before ≡ none) × Atomic Done old r' c'.tables
  unfolding close_body rollback
  guarded old (ok a) c b done = (refl, done)
  guarded old (err x) c b known = ground arith

  pub transaction-IsAtomic :
      (body : Sql A) (c : Connection)
      → IsBody body
      → c.before ≡ none
      → IsAtomic c (transaction handled body c)
  unfolding transaction
  transaction-IsAtomic body c ok_body idle = elim (begin-cases c idle) [
    | inl failed ↦
        rw (>>=-err begin_immediate _ c _ sqlite failed) (record { idle = idle; whole = refl })
    | inr begun ↦
        let opened : Connection = record (next c c.tables) { before = some c.tables } in
        let (closed, whole) =
          guarded c.tables (body opened).0 (body opened).1 (ok_body.before opened)
            (ok_body.ended opened) in
        rw (>>=-ok begin_immediate _ c opened tt begun) (record { idle = closed; whole = whole })
  ]

module _ {A : Type 0} (handled : Error → Bool) where
  pub raise-IsBody :
      (Done : A → Tables → Tables → Type 0) (x : Error)
      → handled x ≡ true
      → IsBody handled Done (raise x)
  unfolding raise
  raise-IsBody Done x h = record { before = λ c. refl; ended = λ c. h }

  pub lift-IsBody :
      (Done : A → Tables → Tables → Type 0) (r : Result A)
      → ((old : Tables) → Ended handled Done old r old)
      → IsBody handled Done (lift r)
  unfolding lift
  lift-IsBody Done r h = record { before = λ c. refl; ended = λ c. h c.tables }

  pub query-IsBody :
      (Done : A → Tables → Tables → Type 0) (select : Tables → A)
      → handled sqlite ≡ true
      → ((old : Tables) → Done (select old) old old)
      → IsBody handled Done (query select)
  query-IsBody Done select h d = record {
    before = λ c. elim (query-cases select c) [
      | inl failed ↦ ap (λ p. p.1.before) failed
      | inr read ↦ ap (λ p. p.1.before) read
    ];
    ended = λ c. elim (query-cases select c) [
      | inl failed ↦ rw failed h
      | inr read ↦ rw read (d c.tables)
    ];
  }

pub write-IsBody :
    (handled : Error → Bool) (Done : Unit {0} → Tables → Tables → Type 0)
    (change : Tables → Option Tables)
    → handled sqlite ≡ true
    → ((old new : Tables) → change old ≡ some new → Done tt old new)
    → IsBody handled Done (write change)
write-IsBody handled Done change h d = record {
  before = λ c. elim (write-cases change c) [
    | inl failed ↦ ap (λ p. p.1.before) failed
    | inr (t, changed, wrote) ↦ ap (λ p. p.1.before) wrote
  ];
  ended = λ c. elim (write-cases change c) [
    | inl failed ↦ rw failed h
    | inr (t, changed, wrote) ↦ rw wrote (d c.tables t changed)
  ];
}

-- Steps in sequence: `Mid` describes the first.
module _ {A B : Type 0} (handled : Error → Bool) (Mid : A → Tables → Tables → Type 0) where
  module _ (Done : B → Tables → Tables → Type 0) (m : Sql A) (f : A → Sql B) where
    abbrev Then : A → Type 0
    Then a = IsBody handled (λ b mid new. (old : Tables) → Mid a old mid → Done b old new) (f a)

    then_before :
        (r : Result A) (c : Connection)
        → ((a : A) → Then a)
        → ((lift r >>= f) c).1.before ≡ c.before
    unfolding lift ◌>>=◌
    then_before (ok a) c hf = (hf a).before c
    then_before (err x) c hf = refl

    then_ended :
        (r : Result A) (c : Connection) (old : Tables)
        → ((a : A) → Then a)
        → Ended handled Mid old r c.tables
        → Ended handled Done old ((lift r >>= f) c).0 ((lift r >>= f) c).1.tables
    unfolding lift ◌>>=◌
    then_ended (ok a) c old hf h = use_mid (f a c).0 (f a c).1.tables ((hf a).ended c)
      where
        use_mid :
            (r : Result B) (new : Tables)
            → Ended handled
                (λ b mid new. (old : Tables) → Mid a old mid → Done b old new)
                c.tables
                r
                new
            → Ended handled Done old r new
        use_mid (ok b) new d = d old h
        use_mid (err x) new d = d
    then_ended (err x) c old hf h = h

    pub bind-IsBody : IsBody handled Mid m → ((a : A) → Then a) → IsBody handled Done (m >>= f)
    unfolding then_before then_ended ◌>>=◌ lift
    bind-IsBody hm hf = record {
      before = λ c. then_before (m c).0 (m c).1 hf ∙ hm.before c;
      ended = λ c. then_ended (m c).0 (m c).1 c.tables hf (hm.ended c);
    }

Ended-map :
    {A : Type 0} (handled : Error → Bool) (D E : A → Tables → Tables → Type 0) (old new : Tables)
    (r : Result A)
    → ((a : A) → D a old new → E a old new)
    → Ended handled D old r new
    → Ended handled E old r new
Ended-map handled D E old new (ok a) f h = f a h
Ended-map handled D E old new (err x) f h = h

pub weaken-IsBody :
    {A : Type 0} (handled : Error → Bool) (D E : A → Tables → Tables → Type 0) (m : Sql A)
    → ((a : A) (old new : Tables) → D a old new → E a old new)
    → IsBody handled D m
    → IsBody handled E m
weaken-IsBody handled D E m f h = record {
  before = h.before;
  ended = λ c.
      Ended-map handled D E c.tables (m c).1.tables (m c).0 (λ a. f a c.tables (m c).1.tables)
        (h.ended c);
}

-- A result that is made of what an atomic change returned.
module _ {A B : Type 0} (handled : Error → Bool) (D : A → Tables → Tables → Type 0) where
  module _ (E : B → Tables → Tables → Type 0) (f : A → B) where
    pure_after :
        (c c' : Connection) (r : Result A)
        → ((a : A) → D a c.tables c'.tables → E (f a) c.tables c'.tables)
        → c'.before ≡ none
        → Atomic D c.tables r c'.tables
        → IsAtomic handled E c ((lift r >>= λ a. pure (f a)) c')
    unfolding lift ◌>>=◌ pure
    pure_after c c' (ok a) g b h = record { idle = b; whole = g a h }
    pure_after c c' (err x) g b h = record { idle = b; whole = h }

    pub bind_pure-IsAtomic :
        (m : Sql A) (c : Connection)
        → ((a : A) (new : Tables) → D a c.tables new → E (f a) c.tables new)
        → IsAtomic handled D c (m c)
        → IsAtomic handled E c ((m >>= λ a. pure (f a)) c)
    unfolding ◌>>=◌ lift
    bind_pure-IsAtomic m c g h =
        pure_after c (m c).1 (m c).0 (λ a. g a (m c).1.tables) h.idle h.whole

-- Without faults a query returns what it selects and changes nothing.
pub query-calm :
    {A : Type 0} (select : Tables → A) (c : Connection)
    → c.faults ≡ []
    → query select c ≡ (ok (select c.tables), c)
unfolding query
query-calm select c calm = ground arith
