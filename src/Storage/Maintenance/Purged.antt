-- ===== src/Storage/Maintenance/Purged.antt =====
-- storage/maintenance.py: what the caller of `purge_events` may rely on.
use hass_geofence_journal.Prelude.{
  length, ℕ, ◌+◌, ◌≡◌, refl, ap, sym, ◌∙◌, true, false, Option, none, some, List, [], ◌∷◌, arith,
  ◌⊎◌, inl, inr, Bool-cases,
}
use hass_geofence_journal.Errors.{Result, ok, err, sqlite, purge_confirmation}
use hass_geofence_journal.Exec.Rules.{>>=-ok, >>=-err}
use hass_geofence_journal.Storage.Records.{EventRow}
use hass_geofence_journal.Storage.Tables.{Tables, RevisionRow}
use hass_geofence_journal.Storage.Sql.{
  Connection, pure, raise, ◌>>=◌, query, write, begin_immediate, close_body, transaction,
}
use hass_geofence_journal.Storage.Sql.Laws.{IsAtomic, query-cases, next}
use hass_geofence_journal.Storage.Maintenance.{
  PurgeRequest, PurgeResult, count_if, without, any, map_rows, selects, selects_id, clear_original,
  delete_revisions, clear_runtime_event, clear_original_event, delete_events, purge_counts,
  is_purge_fault, purge_body, purge_result, dry_result, purge_dry, purge_confirmed, purge_events,
}
use hass_geofence_journal.Storage.Maintenance.Selection.{cleared, without-count_if, any-without}
use hass_geofence_journal.Storage.Maintenance.Purge.{
  counts, purged, Purges, purge_confirmed-IsAtomic, delete_events-cleared,
}

module _ (r : PurgeRequest) where
  -- What a purge that returned has done: a dry run counts, a confirmed run deletes.
  abbrev pub Answers : PurgeResult → Tables → Tables → Type 0
  Answers res old new =
      ((r.dry_run ≡ true) × (res ≡ dry_result (counts r old)) × (new ≡ old))
      ⊎ ((r.dry_run ≡ false) × (r.confirm ≡ true) × Purges r res old new)

  -- The two counts, each a statement that may fail; the tables stay.
  counts_cases :
      (c : Connection)
      → (d : Connection) × (d.tables ≡ c.tables)
        × (d.before ≡ c.before)
        × ((purge_counts r c ≡ (err sqlite, d)) ⊎ (purge_counts r c ≡ (ok (counts r c.tables), d)))
  unfolding purge_counts pure
  counts_cases c = elim (query-cases (λ t. (counts r t).0) c) [
    | inl failed ↦ (next c c.tables, refl, refl, inl (>>=-err _ _ c _ sqlite failed))
    | inr read ↦
        let d = next c c.tables in
        elim (query-cases (λ t. (counts r t).1) d) [
          | inl failed ↦ (
            next d d.tables,
            refl,
            refl,
            inl (>>=-ok _ _ c d _ read ∙ >>=-err _ _ d _ sqlite failed),
          )
          | inr read' ↦
              (next d d.tables, refl, refl, inr (>>=-ok _ _ c d _ read ∙ >>=-ok _ _ d _ _ read'))
        ]
  ]

  dry-IsAtomic :
      (c : Connection)
      → c.before ≡ none
      → r.dry_run ≡ true
      → IsAtomic is_purge_fault Answers c (purge_dry r c)
  unfolding purge_dry pure
  dry-IsAtomic c idle dry =
      let (d, same, open_too, cases) = counts_cases c in
      elim cases [
        | inl failed ↦
            rw (>>=-err _ _ c d sqlite failed) (record { idle = open_too ∙ idle; whole = same })
        | inr counted ↦
            rw (>>=-ok _ _ c d _ counted)
              (record { idle = open_too ∙ idle; whole = inl (dry, refl, same) })
      ]

  confirmed-Answers :
      (c : Connection) (p : Result PurgeResult × Connection)
      → r.dry_run ≡ false
      → r.confirm ≡ true
      → IsAtomic is_purge_fault (Purges r) c p
      → IsAtomic is_purge_fault Answers c p
  confirmed-Answers c (ok a, d) run sure h = record {
    idle = h.idle;
    whole = inr (run, sure, h.whole);
  }
  confirmed-Answers c (err x, d) run sure h = record { idle = h.idle; whole = h.whole }

  refused :
      (c : Connection)
      → c.before ≡ none
      → IsAtomic is_purge_fault Answers c (raise purge_confirmation c)
  unfolding raise
  refused c idle = record { idle = idle; whole = refl }

  -- On an idle connection, whichever statements fail, a purge leaves the connection idle. If it
  -- raises, no table has changed. If it returns, it was a dry run, which tells the counts of the
  -- selection and changes nothing; or it was confirmed, tells the same counts, and has deleted the
  -- selection with its revisions and cleared the references to it.
  pub purge_events-IsAtomic :
      (c : Connection) → c.before ≡ none → IsAtomic is_purge_fault Answers c (purge_events r c)
  unfolding purge_events
  purge_events-IsAtomic c idle = elim (Bool-cases r.dry_run) [
    | inl dry ↦ simp dry (dry-IsAtomic c idle dry)
    | inr run ↦ elim (Bool-cases r.confirm) [
      | inl sure ↦
          simp (run, sure) (confirmed-Answers c _ run sure (purge_confirmed-IsAtomic r c idle))
      | inr unsure ↦ simp (run, unsure) (refused c idle)
    ]
  ]

  count_if-cleared :
      (events xs : List EventRow)
      → count_if (selects r) (map_rows (clear_original r events) xs) ≡ count_if (selects r) xs
  unfolding count_if map_rows
  count_if-cleared events [] = refl
  count_if-cleared events (x ∷ xs) = ground (arith, count_if-cleared events xs)

  length-map_rows :
      (f : EventRow → EventRow) (xs : List EventRow) → length (map_rows f xs) ≡ length xs
  unfolding map_rows
  length-map_rows f [] = refl
  length-map_rows f (x ∷ xs) = ground (arith, length-map_rows f xs)

  -- The selected events are gone, and as many events and revisions as were counted.
  pub record IsExact (res : PurgeResult) (old new : Tables) : Type 0 where
    pub none_left : any (selects r) new.events ≡ false
    pub events : length new.events + res.deleted_events ≡ length old.events
    pub revisions : length new.revisions + res.deleted_revisions ≡ length old.revisions
    pub same_rules : new.rules ≡ old.rules
    pub same_trackers : new.trackers ≡ old.trackers

  purged-IsExact : (t : Tables) → IsExact (purge_result (counts r t)) t (purged r t)
  purged-IsExact t =
      let events = map_rows (clear_original r t.events) t.events in
      record {
        none_left = any-without (selects r) events;
        events =
            ap (λ n. length (without (selects r) events) + n)
              (sym (count_if-cleared t.events t.events))
            ∙ without-count_if (selects r) events
            ∙ length-map_rows (clear_original r t.events) t.events;
        revisions =
            without-count_if (λ (x : RevisionRow). selects_id r t.events x.event_id) t.revisions;
        same_rules = refl;
        same_trackers = refl;
      }

  -- Inside a transaction that began at `old`, without faults.
  abbrev inside : Tables → Tables → Connection
  inside old t = record { tables = t; before = some old; faults = [] }

  abbrev outside : Tables → Connection
  outside t = record { tables = t; before = none; faults = [] }

  write-inside :
      (change : Tables → Option Tables) (old t t' : Tables)
      → change t ≡ some t'
      → write change (inside old t) ≡ (ok tt, inside old t')
  unfolding write
  write-inside change old t t' e = rw e refl

  counts-inside : (t : Tables) → purge_counts r (inside t t) ≡ (ok (counts r t), inside t t)
  unfolding purge_counts query ◌>>=◌ pure
  counts-inside t = refl

  body_inside : (t : Tables) → purge_body r (inside t t) ≡ (ok (counts r t), inside t (purged r t))
  unfolding purge_body pure delete_revisions clear_runtime_event clear_original_event
  body_inside t =
      let t1 = delete_revisions r t in
      let t2 = clear_runtime_event r t1 in
      >>=-ok _ _ (inside t t) (inside t t) (counts r t) (counts-inside t)
      ∙ >>=-ok _ _ (inside t t) (inside t t1) tt
          (write-inside (λ t. some (delete_revisions r t)) t t t1 refl)
      ∙ >>=-ok _ _ (inside t t1) (inside t t2) tt
          (write-inside (λ t. some (clear_runtime_event r t)) t t1 t2 refl)
      ∙ >>=-ok _ _ (inside t t2) (inside t (cleared r t)) tt
          (write-inside (λ t. some (clear_original_event r t)) t t2 (cleared r t) refl)
      ∙ >>=-ok _ _ (inside t (cleared r t)) (inside t (purged r t)) tt (
          write-inside (delete_events (selects r)) t (cleared r t) (purged r t)
            (delete_events-cleared r t))

  began : (t : Tables) → begin_immediate (outside t) ≡ (ok tt, inside t t)
  unfolding begin_immediate
  began t = refl

  committed :
      (p : Result (ℕ × ℕ) × Connection) (t : Tables)
      → p ≡ (ok (counts r t), inside t (purged r t))
      → close_body is_purge_fault p.0 p.1 ≡ (ok (counts r t), outside (purged r t))
  unfolding close_body
  committed p t e = rw e refl

  confirmed_succeeds :
      (t : Tables)
      → purge_confirmed r (outside t) ≡ (ok (purge_result (counts r t)), outside (purged r t))
  unfolding purge_confirmed transaction pure
  confirmed_succeeds t =
      >>=-ok _ _ (outside t) (outside (purged r t)) (counts r t)
        (>>=-ok _ _ (outside t) (inside t t) tt (began t) ∙ committed _ t (body_inside t))

  -- Without faults a confirmed purge succeeds, whatever refers to the selected events: no foreign key
  -- stands in its way. Its counts are those of the selection, and its tables are without the selected
  -- events and their revisions, with the references to them cleared.
  pub purge_succeeds :
      (t : Tables)
      → r.dry_run ≡ false
      → r.confirm ≡ true
      → purge_events r (record { tables = t; before = none; faults = [] }) ≡ (
        ok (purge_result (counts r t)),
        record { tables = purged r t; before = none; faults = [] },
      )
  unfolding purge_events
  purge_succeeds t run sure = simp (run, sure) (confirmed_succeeds t)

  Answers-IsExact :
      (res : PurgeResult) (old new : Tables)
      → res.dry_run ≡ false
      → Answers res old new
      → IsExact res old new
  Answers-IsExact res old new run (inl (_, told, _)) = cc
  Answers-IsExact res old new run (inr (_, _, done)) = rw (done.0, done.1) (purged-IsExact old)

  -- A purge on an idle connection that returned and was no dry run has left no selected event, and
  -- its counts are exactly the events and revisions that are gone; rules and trackers stay.
  pub purge_events-IsExact :
      (c d : Connection) (res : PurgeResult)
      → c.before ≡ none
      → purge_events r c ≡ (ok res, d)
      → res.dry_run ≡ false
      → IsExact res c.tables d.tables
  purge_events-IsExact c d res idle returned run =
      let h = rw returned at (purge_events-IsAtomic c idle) in
      Answers-IsExact res c.tables d.tables run h.whole
