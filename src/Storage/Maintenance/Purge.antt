-- ===== src/Storage/Maintenance/Purge.antt =====
-- storage/maintenance.py: a confirmed purge deletes exactly the selected events with their
-- revisions, or nothing.
use hass_geofence_journal.Prelude.{ℕ, ◌≡◌, refl, ap, sym, ◌∙◌, Option, none, some, arith}
use hass_geofence_journal.Storage.Tables.{Tables, RevisionRow}
use hass_geofence_journal.Storage.Sql.{Connection, pure, transaction}
use hass_geofence_journal.Storage.Sql.Laws.{
  IsBody, IsAtomic, write-IsBody, query-IsBody, bind-IsBody, bind_pure-IsAtomic, weaken-IsBody,
}
use hass_geofence_journal.Storage.Sql.Closing.{
  IsClosing, closing-IsAtomic, bind-IsClosing, pure-IsClosing,
}
use hass_geofence_journal.Storage.Maintenance.{
  PurgeRequest, PurgeResult, count_if, without, selects, selects_id, delete_revisions,
  clear_runtime_event, clear_original_event, delete_events, purge_counts, is_purge_fault,
  purge_body, purge_result, purge_confirmed,
}
use hass_geofence_journal.Storage.Maintenance.Selection.{cleared, cleared-unreferenced}

module _ (r : PurgeRequest) where
  abbrev pub counts : Tables → ℕ × ℕ
  counts t = (
    count_if (selects r) t.events,
    count_if (λ (x : RevisionRow). selects_id r t.events x.event_id) t.revisions,
  )

  abbrev pub purged : Tables → Tables
  purged t = record (cleared r t) { events = without (selects r) (cleared r t).events }

  abbrev Purged : ℕ × ℕ → Tables → Tables → Type 0
  Purged n old new = (n ≡ counts old) × (new ≡ purged old)

  pub delete_events-cleared :
      (t : Tables) → delete_events (selects r) (cleared r t) ≡ some (purged t)
  unfolding delete_events
  delete_events-cleared t = rw (cleared-unreferenced r t) refl

  abbrev AtStart : Tables → Tables → Type 0
  AtStart old t = t ≡ old

  abbrev EventsCounted : ℕ → Tables → Tables → Type 0
  EventsCounted k old t = (k ≡ (counts old).0) × (t ≡ old)

  abbrev Counted : ℕ × ℕ → Tables → Tables → Type 0
  Counted n old t = (n ≡ counts old) × (t ≡ old)

  -- After each of the first statements.
  abbrev Left : (Tables → Tables) → ℕ × ℕ → Unit {0} → Tables → Tables → Type 0
  Left step n _ old t = (n ≡ counts old) × (t ≡ step old)

  abbrev without_runtime : Tables → Tables
  without_runtime t = clear_runtime_event r (delete_revisions r t)

  pair :
      (k l : ℕ) (old mid : Tables)
      → k ≡ (counts old).0
      → mid ≡ old
      → l ≡ (counts mid).1
      → (k, l) ≡ counts old
  pair k l old mid a e b =
      ap (λ x. (x, l)) a ∙ ap (λ x. ((counts old).0, x)) (b ∙ ap (λ t. (counts t).1) e)

  purge_counts-IsBody : IsBody is_purge_fault Counted (purge_counts r)
  unfolding purge_counts pure
  purge_counts-IsBody =
      bind-IsBody is_purge_fault EventsCounted Counted _ _
        (query-IsBody is_purge_fault EventsCounted (λ t. (counts t).0) refl λ old. (refl, refl))
        λ k.
          bind-IsBody is_purge_fault (λ l mid new. (l ≡ (counts mid).1) × (new ≡ mid))
            (λ n mid new. (old : Tables) → EventsCounted k old mid → Counted n old new) _ _
            (query-IsBody is_purge_fault _ (λ t. (counts t).1) refl λ old. (refl, refl))
            λ l. record {
              before = λ c. refl;
              ended = λ c mid f old e. (pair k l old mid e.0 e.1 f.0, f.1 ∙ e.1);
            }

  purge_body-IsClosing : IsClosing is_purge_fault Purged AtStart (purge_body r)
  unfolding purge_body delete_revisions clear_runtime_event clear_original_event
  purge_body-IsClosing =
      bind-IsClosing is_purge_fault AtStart Counted Purged _ _
        (weaken-IsBody is_purge_fault Counted _ _
          (λ n mid new h old e. (h.0 ∙ ap counts e, h.1 ∙ e)) purge_counts-IsBody)
        λ n.
          bind-IsClosing is_purge_fault (Counted n) (Left (delete_revisions r) n) Purged _ _
            (write-IsBody is_purge_fault _ (λ t. some (delete_revisions r t)) refl
              λ mid new made old h.
                (h.0, step (delete_revisions r) mid new made ∙ ap (delete_revisions r) h.1))
            λ _.
              bind-IsClosing is_purge_fault (Left (delete_revisions r) n tt)
                (Left without_runtime n) Purged _ _
                (write-IsBody is_purge_fault _ (λ t. some (clear_runtime_event r t)) refl
                  λ mid new made old h. (
                    h.0,
                    step (clear_runtime_event r) mid new made ∙ ap (clear_runtime_event r) h.1,
                  ))
                λ _.
                  bind-IsClosing is_purge_fault (Left without_runtime n tt) (Left (cleared r) n)
                    Purged _ _
                    (write-IsBody is_purge_fault _ (λ t. some (clear_original_event r t)) refl
                      λ mid new made old h. (
                        h.0,
                        step (clear_original_event r) mid new made
                            ∙ ap (clear_original_event r) h.1,
                      ))
                    λ _.
                      bind-IsClosing is_purge_fault (Left (cleared r) n tt) (Left purged n) Purged _
                        _
                        (write-IsBody is_purge_fault _ (delete_events (selects r)) refl
                          λ mid new made old h. (h.0, last mid new old made h.1))
                        λ _. pure-IsClosing is_purge_fault (Left purged n tt) Purged n λ old t h. h
    where
      step : (f : Tables → Tables) (mid new : Tables) → Option.some (f mid) ≡ some new → new ≡ f mid
      step f mid new made = ground arith

      last :
          (mid new old : Tables)
          → delete_events (selects r) mid ≡ some new
          → mid ≡ cleared r old
          → new ≡ purged old
      last mid new old made e =
          step purged old new
            (sym (delete_events-cleared old) ∙ sym (ap (delete_events (selects r)) e) ∙ made)

  -- What the caller is told, and what happened to the tables.
  abbrev pub Purges : PurgeResult → Tables → Tables → Type 0
  Purges res old new = (res ≡ purge_result (counts old)) × (new ≡ purged old)

  pub purge_confirmed-IsAtomic :
      (c : Connection) → c.before ≡ none → IsAtomic is_purge_fault Purges c (purge_confirmed r c)
  unfolding purge_confirmed
  purge_confirmed-IsAtomic c idle =
      bind_pure-IsAtomic is_purge_fault Purged Purges purge_result
        (transaction is_purge_fault (purge_body r)) c (λ n new h. (ap purge_result h.0, h.1))
        (closing-IsAtomic is_purge_fault Purged (purge_body r) c purge_body-IsClosing idle)
