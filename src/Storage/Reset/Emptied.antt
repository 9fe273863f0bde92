-- ===== src/Storage/Reset/Emptied.antt =====
-- storage/maintenance.py: a reset empties every table, or none.
use hass_geofence_journal.Prelude.{
  ℕ, ◌≡◌, refl, ap, ◌∙◌, true, Option, none, some, List, [], ◌∷◌, arith, inl, inr, Bool-cases, ◌==◌,
  ◌⊎◌, String,
}
use mathlib.Core.Path.{subst}
use hass_geofence_journal.Exec.Rules.{>>=-ok, >>=-err}
use hass_geofence_journal.Errors.{Result, err, sqlite}
use hass_geofence_journal.Storage.Records.{EventRow}
use hass_geofence_journal.Storage.Tables.{Tables}
use hass_geofence_journal.Storage.Sql.{Connection, Sql, pure, lift, raise, ◌>>=◌}
use hass_geofence_journal.Storage.Sql.Laws.{
  IsBody, IsAtomic, Atomic, query-cases, next, transaction-IsAtomic, write-IsBody, query-IsBody,
  bind-IsBody, weaken-IsBody,
}
use hass_geofence_journal.Storage.Maintenance.{without, delete_events}
use hass_geofence_journal.Storage.Reset.{
  ResetResult, counted, delete_rules, delete_journals, delete_places, delete_trackers, statements,
  execute_all, is_reset_fault, reset_body, one_version, read_schema_version, reset_at, is_confirmed,
  reset_database,
}

-- The tables after the statements, if each is allowed.
unfoldable applied : List (Tables → Option Tables) → Tables → Option Tables
applied [] t = some t
applied (s ∷ rest) t = elim (s t) [ none ↦ none | some u ↦ applied rest u ]

abbrev pub emptied : Tables → Tables
emptied t = record {
  trackers = [];
  places = [];
  journals = [];
  rules = [];
  events = [];
  revisions = [];
  runtime_states = [];
  schema_version = 1 ∷ [];
}

abbrev Applied : List (Tables → Option Tables) → Unit {0} → Tables → Tables → Type 0
Applied ss _ old new = applied ss old ≡ some new

execute_all-IsBody :
    (ss : List (Tables → Option Tables)) → IsBody is_reset_fault (Applied ss) (execute_all ss)
unfolding execute_all applied pure
execute_all-IsBody [] = record { before = λ c. refl; ended = λ c. refl }
execute_all-IsBody (s ∷ rest) =
    bind-IsBody is_reset_fault (λ _ old mid. s old ≡ some mid) (Applied (s ∷ rest)) _ _
      (write-IsBody is_reset_fault _ s refl λ old new made. made)
      λ _.
        weaken-IsBody is_reset_fault (Applied rest) _ _ (λ u mid new done old made. rw made done)
          (execute_all-IsBody rest)

without_all : (xs : List EventRow) → without (λ (e : EventRow). true) xs ≡ []
unfolding without
without_all [] = refl
without_all (x ∷ xs) = without_all xs

statements-emptied : (old new : Tables) → applied statements old ≡ some new → new ≡ emptied old
unfolding applied statements delete_events delete_rules delete_journals delete_places
    delete_trackers
statements-emptied old new h = ground (arith, without_all old.events)

-- What a reset that returned has done.
abbrev pub Resets : ResetResult → Tables → Tables → Type 0
Resets res old new = (res ≡ counted old) × (new ≡ emptied old)

reset_body-IsBody : IsBody is_reset_fault Resets reset_body
unfolding reset_body pure
reset_body-IsBody =
    bind-IsBody is_reset_fault (λ n old new. (n ≡ counted old) × (new ≡ old)) Resets _ _
      (query-IsBody is_reset_fault _ counted refl λ old. (refl, refl))
      λ n.
        bind-IsBody is_reset_fault (Applied statements)
          (λ res mid new. (old : Tables) → (n ≡ counted old) × (mid ≡ old) → Resets res old new) _ _
          (execute_all-IsBody statements)
          λ _. record {
            before = λ c. refl;
            ended =
                λ c mid made old h. (h.0, statements-emptied mid c.tables made ∙ ap emptied h.1);
          }

reset_at-IsAtomic :
    (version : ℕ) (c : Connection)
    → c.before ≡ none
    → IsAtomic is_reset_fault Resets c (reset_at version c)
unfolding reset_at raise
reset_at-IsAtomic version c idle = elim (Bool-cases (version == 1)) [
  | inl current ↦
      simp current (transaction-IsAtomic is_reset_fault Resets reset_body c reset_body-IsBody idle)
  | inr other ↦ simp other (record { idle = idle; whole = refl })
]

version_of-IsAtomic :
    (versions : List ℕ) (c : Connection)
    → c.before ≡ none
    → IsAtomic is_reset_fault Resets c ((one_version versions >>= reset_at) c)
unfolding one_version raise pure ◌>>=◌
version_of-IsAtomic [] c idle = record { idle = idle; whole = refl }
version_of-IsAtomic (v ∷ []) c idle = reset_at-IsAtomic v c idle
version_of-IsAtomic (v ∷ w ∷ rest) c idle = record { idle = idle; whole = refl }

-- The rest of a chain depends on what the first action returned and left only.
pub bind_same :
    {A B : Type 0} (m m' : Sql A) (f : A → Sql B) (c d : Connection)
    → m c ≡ m' d
    → (m >>= f) c ≡ (m' >>= f) d
unfolding ◌>>=◌ lift
bind_same m m' f c d e = ap (λ p. (lift p.0 >>= f) p.1) e

pub read_cases :
    (c : Connection)
    → (d : Connection) × (d.tables ≡ c.tables)
      × (d.before ≡ c.before)
      × ((read_schema_version c ≡ (err sqlite, d))
          ⊎ (read_schema_version c ≡ one_version c.tables.schema_version d))
unfolding read_schema_version
read_cases c = elim (query-cases (λ (t : Tables). tt {0}) c) [
  | inl failed ↦ (next c c.tables, refl, refl, inl (>>=-err _ _ c _ sqlite failed))
  | inr named ↦
      let d = next c c.tables in
      elim (query-cases (λ t. t.schema_version) d) [
        | inl failed ↦ (
          next d d.tables,
          refl,
          refl,
          inl (>>=-ok _ _ c d _ named ∙ >>=-err _ _ d _ sqlite failed),
        )
        | inr read ↦
            (next d d.tables, refl, refl, inr (>>=-ok _ _ c d _ named ∙ >>=-ok _ _ d _ _ read))
      ]
]

-- From other tables that are the same.
moved :
    (c d : Connection) (p : Result ResetResult × Connection)
    → d.tables ≡ c.tables
    → IsAtomic is_reset_fault Resets d p
    → IsAtomic is_reset_fault Resets c p
moved c d p e h = record {
  idle = h.idle;
  whole = subst (λ t. Atomic Resets t p.0 p.1.tables) e h.whole;
}

checked-IsAtomic :
    (c : Connection)
    → c.before ≡ none
    → IsAtomic is_reset_fault Resets c ((read_schema_version >>= reset_at) c)
checked-IsAtomic c idle =
    let (d, same, open_too, cases) = read_cases c in
    elim cases [
      | inl failed ↦
          rw (>>=-err _ _ c d sqlite failed) (record { idle = open_too ∙ idle; whole = same })
      | inr read ↦
          rw (bind_same read_schema_version (one_version c.tables.schema_version) reset_at c d read)
            (moved c d _ same (version_of-IsAtomic c.tables.schema_version d (open_too ∙ idle)))
    ]

-- On an idle connection, whatever the phrase and the stored versions, and whichever statements fail,
-- a reset leaves the connection idle. If it raises, no table has changed. If it returns, its counts
-- are those of the rows that were there, and every table is empty but for the schema version 1.
pub reset_database-IsAtomic :
    (confirmation : String) (c : Connection)
    → c.before ≡ none
    → IsAtomic is_reset_fault Resets c (reset_database confirmation c)
unfolding reset_database raise
reset_database-IsAtomic confirmation c idle = elim (Bool-cases (is_confirmed confirmation)) [
  | inl sure ↦ simp sure (checked-IsAtomic c idle)
  | inr unsure ↦ simp unsure (record { idle = idle; whole = refl })
]
