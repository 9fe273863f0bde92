-- ===== src/Storage/Repository/Opening.antt =====
-- storage/schema.py: `bootstrap_v1`; storage/repository.py: the checks of a new connection.
use hass_geofence_journal.Prelude.{
  ℕ, zero, suc, ◌+◌, String, Bool, ◌&&◌, Option, none, some, List, [], ◌∷◌, ltb, ◌==◌,
  if◌then◌else◌,
}
use hass_geofence_journal.Text.{codes, lower, eq_codes}
use hass_geofence_journal.Errors.{
  Result, ok, err, sqlite, database_schema, injected_fault, unsupported_schema_version,
}
use hass_geofence_journal.Exec.{Exec, lift, ◌>>◌}
use hass_geofence_journal.Storage.Tables.{Tables}
use hass_geofence_journal.Storage.Sql.{fails, later}
use hass_geofence_journal.Storage.Reset.{read_schema_version}

-- A file without tables, one with tables of another program, or the tables of the schema.
pub data DatabaseFile : Type 0 where
  empty foreign : DatabaseFile
  schema : Tables → DatabaseFile

-- What the transaction of `bootstrap_v1` has done: the schema statements and the version rows.
pub record Bootstrap : Type 0 where
  pub created : ℕ
  pub versions : List ℕ
  pub faults : List Bool

-- The loop over SCHEMA_STATEMENTS, from a position, with the statements that are left.
unfoldable pub create_all : Bool → ℕ → ℕ → Exec Bootstrap (Unit {0})
create_all inject position zero b = (ok tt, b)
create_all inject position (suc n) b =
    let after = record b { created = b.created + 1; faults = later b.faults } in
    let rest = create_all inject (position + 1) n after in
    if fails b.faults
    then (err sqlite, record b { faults = later b.faults })
    else if inject && (position == 2)
    then (err injected_fault, after)
    else rest

unfoldable pub statement : (Bootstrap → Bootstrap) → Exec Bootstrap (Unit {0})
statement change b =
    let b' = record b { faults = later b.faults } in
    if fails b.faults then (err sqlite, b') else (ok tt, change b')

-- `len(SCHEMA_STATEMENTS)`
abbrev pub schema_statements : ℕ
schema_statements = 13

unfoldable pub bootstrap_body : Bool → Exec Bootstrap (Unit {0})
unfolding create_all statement
bootstrap_body inject b =
    let (r, b') = create_all inject 0 schema_statements b in
    elim r [
      | err x ↦ (err x, b')
      | ok _ ↦ statement (λ b. record b { versions = 1 ∷ b.versions }) b'
    ]

abbrev pub fresh : Tables
fresh = record {
  trackers = [];
  places = [];
  journals = [];
  rules = [];
  events = [];
  revisions = [];
  runtime_states = [];
  schema_version = [];
}

-- The file that COMMIT leaves: the tables of the schema once every statement has run.
unfoldable pub committed : Bootstrap → DatabaseFile
committed b =
    if b.created == schema_statements
    then schema (record fresh { schema_version = b.versions })
    else if b.created == 0
    then empty
    else foreign

-- On an empty file, with the file and the faults that are left. Both errors that the statements
-- raise are rolled back.
unfoldable pub bootstrap_v1 : Bool → List Bool → Result (Unit {0}) × DatabaseFile × List Bool
unfolding bootstrap_body committed
bootstrap_v1 inject faults =
    if fails faults
    then (err sqlite, empty, later faults)
    else (let start : Bootstrap = record { created = 0; versions = []; faults = later faults } in
        let (r, b) = bootstrap_body inject start in
        elim r [ ok _ ↦ (ok tt, committed b, b.faults) | err x ↦ (err x, empty, b.faults) ])

-- `read_schema_version` on any file: the names of its tables come first.
unfoldable pub read_version : DatabaseFile → List Bool → Result (Option ℕ) × List Bool
unfolding read_schema_version
read_version empty faults = (if fails faults then err sqlite else ok none, later faults)
read_version foreign faults =
    (if fails faults then err sqlite else err database_schema, later faults)
read_version (schema t) faults =
    let (r, c) = read_schema_version (record { tables = t; before = none; faults = faults }) in
    (elim r [ ok v ↦ ok (some v) | err x ↦ err x ], c.faults)

unfoldable pub validated : Option ℕ → Result (Option ℕ)
validated none = ok none
validated (some v) =
    if ltb 1 v
    then err unsupported_schema_version
    else if ltb v 1
    then err database_schema
    else ok (some v)

-- `_validated_version`
unfoldable pub validated_version : DatabaseFile → List Bool → Result (Option ℕ) × List Bool
unfolding read_version validated
validated_version file faults =
    let (r, rest) = read_version file faults in
    (elim r [ ok v ↦ validated v | err x ↦ err x ], rest)

-- The rows that SQLite answers to PRAGMA journal_mode=WAL and PRAGMA foreign_keys.
pub record Pragmas : Type 0 where
  pub journal_mode : Option String
  pub foreign_keys : Option ℕ

unfoldable pub pragma : Exec (List Bool) (Unit {0})
pragma faults = (if fails faults then err sqlite else ok tt, later faults)

unfoldable pub check_journal_mode : Option String → Result (Unit {0})
unfolding lower
check_journal_mode none = err database_schema
check_journal_mode (some mode) =
    if eq_codes (lower (codes mode)) (codes "wal") then ok tt else err database_schema

unfoldable pub check_foreign_keys : Option ℕ → Result (Unit {0})
check_foreign_keys none = err database_schema
check_foreign_keys (some n) = if n == 1 then ok tt else err database_schema

-- `_configure_connection`
unfoldable pub configure_connection : Pragmas → Exec (List Bool) (Unit {0})
unfolding pragma check_journal_mode check_foreign_keys
configure_connection pragmas = do
  pragma
  pragma
  pragma
  lift (check_journal_mode pragmas.journal_mode)
  pragma
  lift (check_foreign_keys pragmas.foreign_keys)
