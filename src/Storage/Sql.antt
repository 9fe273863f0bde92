-- ===== src/Storage/Sql.antt =====
-- The connection that the storage modules share (storage/db_types.py) in autocommit mode, as
-- SQLite documents it: a statement that fails changes nothing, BEGIN fails inside a transaction,
-- and ROLLBACK brings back what BEGIN saw. `faults` says of the next statements whether they fail
-- for a reason outside the program, as a full disk or a locked file. COMMIT does not fail here.
pub mod Laws
pub mod Closing
unfoldable pub use hass_geofence_journal.Exec.{raise, lift, pure, ◌>>=◌, ◌>>◌}
use hass_geofence_journal.Exec.{Exec}
use hass_geofence_journal.Prelude.{ℕ, Bool, false, Option, none, some, List, [], ◌∷◌, if◌then◌else◌}
use hass_geofence_journal.Errors.{Error, Result, ok, err, sqlite}
use hass_geofence_journal.Storage.Tables.{Tables}

pub record Connection : Type 0 where
  pub tables : Tables
  pub before : Option Tables  -- what ROLLBACK restores, inside a transaction
  pub faults : List Bool

abbrev pub Sql : Type 0 → Type 0
Sql A = Exec Connection A

-- Does the next statement fail?
abbrev pub fails : List Bool → Bool
fails [] = false
fails (b ∷ _) = b

abbrev pub later : List Bool → List Bool
later [] = []
later (_ ∷ rest) = rest

-- A statement that writes: the new tables, or a constraint that it breaks.
unfoldable pub write : (Tables → Option Tables) → Sql (Unit {0})
write change c =
    let c' = record c { faults = later c.faults } in
    if fails c.faults then (err sqlite, c') else elim (change c.tables) [
      | none ↦ (err sqlite, c')
      | some t ↦ (ok tt, record c' { tables = t })
    ]

-- An UPDATE or DELETE: the number of rows that it changes, which SELECT changes() reads, and the new
-- tables.
unfoldable pub update : (Tables → ℕ × Tables) → Sql ℕ
update change c =
    let c' = record c { faults = later c.faults } in
    if fails c.faults
    then (err sqlite, c')
    else let (n, t) = change c.tables in (ok n, record c' { tables = t })

-- A statement that reads.
unfoldable pub query : {A : Type 0} → (Tables → A) → Sql A
query select c =
    let c' = record c { faults = later c.faults } in
    if fails c.faults then (err sqlite, c') else (ok (select c.tables), c')

-- BEGIN IMMEDIATE
unfoldable pub begin_immediate : Sql (Unit {0})
begin_immediate c =
    let c' = record c { faults = later c.faults } in
    if fails c.faults then (err sqlite, c') else elim c.before [
      | none ↦ (ok tt, record c' { before = some c.tables })
      | some _ ↦ (err sqlite, c')
    ]

unfoldable pub rollback : Connection → Connection
rollback c = elim c.before [ none ↦ c | some t ↦ record c { tables = t; before = none } ]

-- `except handled: rollback; raise`, and COMMIT where the body returned.
unfoldable pub close_body : {A : Type 0} → (Error → Bool) → Result A → Sql A
unfolding rollback
close_body handled (ok a) c = (ok a, record c { before = none })
close_body handled (err x) c = (err x, if handled x then rollback c else c)

-- The shape of every transaction in the storage modules: BEGIN IMMEDIATE, the body under `try`, the
-- rollback under `except`, and COMMIT.
unfoldable pub transaction : {A : Type 0} → (Error → Bool) → Sql A → Sql A
unfolding close_body
transaction handled body =
    begin_immediate >>= λ _. λ c. let (r, c') = body c in close_body handled r c'
