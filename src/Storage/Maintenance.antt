-- ===== src/Storage/Maintenance.antt =====
-- storage/maintenance.py: purge and reset.
pub mod Selection
pub mod Purge
pub mod Purged
use hass_geofence_journal.Prelude.{
  ℕ, zero, suc, ◌+◌, String, Bool, true, false, not, ◌&&◌, ◌||◌, Option, none, some, List, [], ◌∷◌,
  ltb, ◌==◌, if◌then◌else◌,
}
use hass_geofence_journal.Text.{codes, eq_codes}
use hass_geofence_journal.Errors.{
  Error, sqlite, database_schema, purge_confirmation, reset_confirmation,
}
use hass_geofence_journal.Storage.Records.{EventRow}
use hass_geofence_journal.Storage.Tables.{
  Tables, TrackerRow, PlaceRow, JournalRow, RuleRow, RevisionRow, RuntimeRow, has,
}
use hass_geofence_journal.Storage.Sql.{Sql, pure, raise, ◌>>=◌, ◌>>◌, write, query, transaction}

pub record PurgeRequest : Type 0 where
  pub before : ℕ
  pub journal_id : Option ℕ
  pub dry_run : Bool
  pub confirm : Bool

pub record PurgeResult : Type 0 where
  pub matched_events : ℕ
  pub matched_revisions : ℕ
  pub deleted_events : ℕ
  pub deleted_revisions : ℕ
  pub dry_run : Bool

-- SELECT COUNT(*) … WHERE
unfoldable pub count_if {ℓ} : {A : Type ℓ} → (A → Bool) → List A → ℕ
count_if p [] = 0
count_if p (x ∷ xs) = let rest = count_if p xs in if p x then rest + 1 else rest

-- DELETE … WHERE: what is left.
unfoldable pub without {ℓ} : {A : Type ℓ} → (A → Bool) → List A → List A
without p [] = []
without p (x ∷ xs) = let rest = without p xs in if p x then rest else x ∷ rest

unfoldable pub any {ℓ} : {A : Type ℓ} → (A → Bool) → List A → Bool
any p [] = false
any p (x ∷ xs) = p x || any p xs

unfoldable pub map_rows {ℓ} : {A : Type ℓ} → (A → A) → List A → List A
map_rows f [] = []
map_rows f (x ∷ xs) = f x ∷ map_rows f xs

-- journal_id = ?, where the parameter may be NULL
abbrev pub in_journal : Option ℕ → EventRow → Bool
in_journal none e = true
in_journal (some j) e = e.journal_id == j

-- WHERE occurred_at < ? AND (? IS NULL OR journal_id = ?): the texts have fixed width, and compare
-- as their instants.
abbrev pub selects : PurgeRequest → EventRow → Bool
selects r e = ltb e.occurred_at r.before && in_journal r.journal_id e

-- IN (SELECT id FROM location_events WHERE …)
unfoldable pub selects_id : PurgeRequest → List EventRow → ℕ → Bool
selects_id r [] id = false
selects_id r (e ∷ events) id = (selects r e && (e.id == id)) || selects_id r events id

abbrev pub selects_option : PurgeRequest → List EventRow → Option ℕ → Bool
selects_option r events none = false
selects_option r events (some id) = selects_id r events id

-- _DELETE_REVISIONS_SQL
unfoldable pub delete_revisions : PurgeRequest → Tables → Tables
delete_revisions r t = record t {
  revisions = without (λ (x : RevisionRow). selects_id r t.events x.event_id) t.revisions;
}

abbrev pub clear_last_event : PurgeRequest → List EventRow → RuntimeRow → RuntimeRow
clear_last_event r events row =
    if selects_option r events row.last_event_id
    then record row { last_event_id = none; last_event_type = none; last_event_at = none }
    else row

-- _CLEAR_RUNTIME_EVENT_SQL
unfoldable pub clear_runtime_event : PurgeRequest → Tables → Tables
clear_runtime_event r t = record t {
  runtime_states = map_rows (clear_last_event r t.events) t.runtime_states;
}

abbrev pub clear_original : PurgeRequest → List EventRow → EventRow → EventRow
clear_original r events e =
    if selects_option r events e.original_event_id then record e { original_event_id = none } else e

-- _CLEAR_ORIGINAL_EVENT_SQL
unfoldable pub clear_original_event : PurgeRequest → Tables → Tables
clear_original_event r t = record t { events = map_rows (clear_original r t.events) t.events }

abbrev pub is_id : ℕ → Option ℕ → Bool
is_id id none = false
is_id id (some x) = x == id

-- ON DELETE RESTRICT: does a row refer to the event?
unfoldable pub is_referenced : Tables → ℕ → Bool
unfolding any
is_referenced t id =
    any (λ (x : RevisionRow). x.event_id == id) t.revisions
    || any (λ (x : RuntimeRow). is_id id x.last_event_id) t.runtime_states
    || any (λ (e : EventRow). is_id id e.original_event_id) t.events

-- DELETE FROM location_events WHERE
unfoldable pub delete_events : (EventRow → Bool) → Tables → Option Tables
unfolding any is_referenced
delete_events p t =
    if any (λ (e : EventRow). p e && is_referenced t e.id) t.events
    then none
    else some (record t { events = without p t.events })

-- `_purge_counts`
unfoldable pub purge_counts : PurgeRequest → Sql (ℕ × ℕ)
unfolding count_if selects_id
purge_counts r = do
  events ← query (λ t. count_if (selects r) t.events)
  revisions ←
      query (λ t. count_if (λ (x : RevisionRow). selects_id r t.events x.event_id) t.revisions)
  pure (events, revisions)

-- `except DatabaseSchemaError, sqlite3.Error`
abbrev pub is_purge_fault : Error → Bool
is_purge_fault database_schema = true
is_purge_fault sqlite = true
is_purge_fault _ = false

-- The part of `purge_events` under `try`.
unfoldable pub purge_body : PurgeRequest → Sql (ℕ × ℕ)
unfolding purge_counts delete_revisions clear_runtime_event clear_original_event delete_events
purge_body r = do
  counts ← purge_counts r
  write (λ t. some (delete_revisions r t))
  write (λ t. some (clear_runtime_event r t))
  write (λ t. some (clear_original_event r t))
  write (delete_events (selects r))
  pure counts

abbrev pub dry_result : ℕ × ℕ → PurgeResult
dry_result (events, revisions) = record {
  matched_events = events;
  matched_revisions = revisions;
  deleted_events = 0;
  deleted_revisions = 0;
  dry_run = true;
}

abbrev pub purge_result : ℕ × ℕ → PurgeResult
purge_result (events, revisions) = record {
  matched_events = events;
  matched_revisions = revisions;
  deleted_events = events;
  deleted_revisions = revisions;
  dry_run = false;
}

unfoldable pub purge_dry : PurgeRequest → Sql PurgeResult
unfolding purge_counts
purge_dry r = do counts ← purge_counts r; pure (dry_result counts)

unfoldable pub purge_confirmed : PurgeRequest → Sql PurgeResult
unfolding purge_body
purge_confirmed r = do
  counts ← transaction is_purge_fault (purge_body r)
  pure (purge_result counts)

unfoldable pub purge_events : PurgeRequest → Sql PurgeResult
unfolding purge_dry purge_confirmed
purge_events r =
    if r.dry_run
    then purge_dry r
    else if not r.confirm
    then raise purge_confirmation
    else purge_confirmed r
