-- ===== src/Storage/Reset.antt =====
-- storage/maintenance.py: `reset_database`, and the version that storage/schema.py reads.
pub mod Emptied
use hass_geofence_journal.Prelude.{
  ℕ, ◌+◌, String, Bool, true, false, not, ◌&&◌, ◌||◌, Option, none, some, List, [], ◌∷◌, ◌++◌, ◌==◌,
  if◌then◌else◌,
}
use hass_geofence_journal.Text.{codes, eq_codes}
use hass_geofence_journal.Errors.{Error, sqlite, database_schema, reset_confirmation}
use hass_geofence_journal.Storage.Records.{EventRow}
use hass_geofence_journal.Storage.Tables.{
  Tables, TrackerRow, PlaceRow, JournalRow, RuleRow, RevisionRow, RuntimeRow,
}
use hass_geofence_journal.Storage.Sql.{Sql, pure, raise, ◌>>=◌, ◌>>◌, write, query, transaction}
use hass_geofence_journal.Storage.Maintenance.{any, is_id, delete_events}

pub record ResetResult : Type 0 where
  pub deleted_trackers : ℕ
  pub deleted_places : ℕ
  pub deleted_journals : ℕ
  pub deleted_rules : ℕ
  pub deleted_events : ℕ
  pub deleted_revisions : ℕ
  pub deleted_runtime_states : ℕ
  pub schema_version : ℕ

-- SELECT COUNT(*)
abbrev pub size {ℓ} : {A : Type ℓ} → List A → ℕ
size [] = 0
size (x ∷ xs) = size xs + 1

-- `_reset_counts`, with the version of the result.
abbrev pub counted : Tables → ResetResult
counted t = record {
  deleted_trackers = size t.trackers;
  deleted_places = size t.places;
  deleted_journals = size t.journals;
  deleted_rules = size t.rules;
  deleted_events = size t.events;
  deleted_revisions = size t.revisions;
  deleted_runtime_states = size t.runtime_states;
  schema_version = 1;
}

-- ON DELETE RESTRICT of the other tables: does a rule or an event refer to the row?
unfoldable pub delete_rules : Tables → Option Tables
unfolding any
delete_rules t =
    if any
      (λ (r : RuleRow).
        any (λ (e : EventRow). is_id r.id e.rule_id) t.events
        || any (λ (s : RuntimeRow). s.rule_id == r.id) t.runtime_states)
      t.rules
    then none
    else some (record t { rules = [] })

unfoldable pub delete_journals : Tables → Option Tables
unfolding any
delete_journals t =
    if any
      (λ (j : JournalRow).
        any (λ (e : EventRow). e.journal_id == j.id) t.events
        || any (λ (r : RuleRow). r.journal_id == j.id) t.rules)
      t.journals
    then none
    else some (record t { journals = [] })

unfoldable pub delete_places : Tables → Option Tables
unfolding any
delete_places t =
    if any
      (λ (p : PlaceRow).
        any (λ (e : EventRow). e.place_id == p.id) t.events
        || any (λ (r : RuleRow). r.place_id == p.id) t.rules)
      t.places
    then none
    else some (record t { places = [] })

unfoldable pub delete_trackers : Tables → Option Tables
unfolding any
delete_trackers t =
    if any
      (λ (x : TrackerRow).
        any (λ (e : EventRow). e.tracker_id == x.id) t.events
        || any (λ (r : RuleRow). r.tracker_id == x.id) t.rules)
      t.trackers
    then none
    else some (record t { trackers = [] })

-- The statements of the loop, and the INSERT after it.
unfoldable pub statements : List (Tables → Option Tables)
unfolding delete_events delete_rules delete_journals delete_places delete_trackers
statements =
    (λ t. some (record t { revisions = [] }))
    ∷ (λ t. some (record t { runtime_states = [] }))
    ∷ delete_events (λ e. true)
    ∷ delete_rules
    ∷ delete_journals
    ∷ delete_places
    ∷ delete_trackers
    ∷ (λ t. some (record t { schema_version = [] }))
    ∷ (λ t. some (record t { schema_version = t.schema_version ++ 1 ∷ [] }))
    ∷ []

unfoldable pub execute_all : List (Tables → Option Tables) → Sql (Unit {0})
execute_all [] = pure tt
execute_all (s ∷ rest) = do write s; execute_all rest

-- `except DatabaseSchemaError, sqlite3.Error`
abbrev pub is_reset_fault : Error → Bool
is_reset_fault database_schema = true
is_reset_fault sqlite = true
is_reset_fault _ = false

unfoldable pub reset_body : Sql ResetResult
unfolding statements execute_all
reset_body = do counts ← query counted; execute_all statements; pure counts

-- The end of `read_schema_version`, on a database that has the tables.
unfoldable pub one_version : List ℕ → Sql ℕ
one_version (v ∷ []) = pure v
one_version _ = raise database_schema

-- `read_schema_version` on the tables of the schema: their names, and then the version.
unfoldable pub read_schema_version : Sql ℕ
unfolding one_version
read_schema_version = do
  names ← query (λ t. tt)
  versions ← query (λ t. t.schema_version)
  one_version versions

unfoldable pub reset_at : ℕ → Sql ResetResult
unfolding reset_body
reset_at version =
    if version == 1 then transaction is_reset_fault reset_body else raise database_schema

-- `request.confirmation != RESET_CONFIRMATION_PHRASE`, the other way round.
unfoldable pub is_confirmed : String → Bool
is_confirmed confirmation = eq_codes (codes confirmation) (codes "DELETE ALL GEOFENCE JOURNAL DATA")

unfoldable pub reset_database : String → Sql ResetResult
unfolding read_schema_version reset_at
reset_database confirmation =
    if is_confirmed confirmation
    then (do version ← read_schema_version; reset_at version)
    else raise reset_confirmation
