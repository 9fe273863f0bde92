-- ===== src/Storage/Repository.antt =====
-- storage/repository.py: opening, checking, creating and closing the database file, and
-- `bootstrap_v1` of storage/schema.py. `faults` says of the statements of a call which fail.
mod Opening
pub mod Opened
unfoldable pub use Opening.{
  statement, create_all, bootstrap_body, committed, bootstrap_v1, read_version, validated,
  validated_version, pragma, check_journal_mode, check_foreign_keys, configure_connection,
}
pub use Opening.{fresh, schema_statements, Bootstrap, DatabaseFile, empty, foreign, schema, Pragmas}
use hass_geofence_journal.Prelude.{ℕ, Bool, Option, none, some, List}
use hass_geofence_journal.Errors.{Result, ok, err, storage_closed}
use hass_geofence_journal.Storage.Tables.{Tables}
use hass_geofence_journal.Storage.Sql.{Connection, Sql, rollback}

-- `_connection`, and the file as the last `close` left it: an open connection has what is newer.
pub record SqliteStore : Type 0 where
  pub file : DatabaseFile
  pub connection : Option Connection

abbrev pub tables_in : DatabaseFile → Tables
tables_in empty = fresh
tables_in foreign = fresh
tables_in (schema t) = t

-- The end of `open`: a connection that could not be configured is closed again.
unfoldable pub finish_open :
    DatabaseFile → Result (Unit {0}) × List Bool → Result (Unit {0}) × SqliteStore
finish_open file (err x, rest) = (err x, record { file = file; connection = none })
finish_open file (ok _, rest) = (
  ok tt,
  record {
    file = file;
    connection = some (record { tables = tables_in file; before = none; faults = rest });
  },
)

unfoldable pub bootstrap_at :
    Pragmas → Result (Unit {0}) × DatabaseFile × List Bool → Result (Unit {0}) × SqliteStore
bootstrap_at pragmas (err x, file, faults) = (err x, record { file = file; connection = none })
bootstrap_at pragmas (ok _, file, faults) = finish_open file (configure_connection pragmas faults)

-- `open`, once the version was checked.
unfoldable pub open_checked :
    Bool → Pragmas → DatabaseFile → Result (Option ℕ) × List Bool → Result (Unit {0}) × SqliteStore
open_checked inject pragmas file (err x, rest) = (err x, record { file = file; connection = none })
open_checked inject pragmas file (ok none, rest) = bootstrap_at pragmas (bootstrap_v1 inject rest)
open_checked inject pragmas file (ok (some _), rest) =
    finish_open file (configure_connection pragmas rest)

-- `inject` is `inject_migration_failure`.
unfoldable pub open_store :
    Bool → Pragmas → List Bool → SqliteStore → Result (Unit {0}) × SqliteStore
open_store inject pragmas faults s = elim s.connection [
  | some _ ↦ (ok tt, s)
  | none ↦ open_checked inject pragmas s.file (validated_version s.file faults)
]

-- Closing a connection rolls an open transaction back.
unfoldable pub close : SqliteStore → SqliteStore
close s = elim s.connection [
  | none ↦ s
  | some c ↦ record { file = schema (rollback c).tables; connection = none }
]

-- `_require_connection` and the operation on it.
unfoldable pub run_operation : {A : Type 0} → Sql A → SqliteStore → Result A × SqliteStore
run_operation operation s = elim s.connection [
  | none ↦ (err storage_closed, s)
  | some c ↦ let (r, c') = operation c in (r, record s { connection = some c' })
]
