-- ===== src/Storage/Repository/Opened.antt =====
-- storage/repository.py: what `open` leaves of the file, and what comes back after `close`.
use hass_geofence_journal.Prelude.{
  ℕ, zero, suc, ◌+◌, ◌≡◌, refl, sym, ap, ◌∙◌, Bool, ◌⊎◌, inl, inr, Option, none, some, List, [],
  ◌∷◌, arith, ltb, Bool-cases,
}
use hass_geofence_journal.Errors.{Error, Result, ok, err, sqlite, database_schema, Result-cases}
use hass_geofence_journal.Exec.{raise}
use hass_geofence_journal.Storage.Tables.{Tables}
use hass_geofence_journal.Storage.Sql.{Connection, fails, later, pure}
use hass_geofence_journal.Storage.Reset.{read_schema_version, one_version}
use hass_geofence_journal.Storage.Reset.Emptied.{read_cases}
use mathlib.Core.Path.{subst}
use hass_geofence_journal.Storage.Repository.{
  fresh, schema_statements, Bootstrap, DatabaseFile, empty, foreign, schema, Pragmas, SqliteStore,
  statement, create_all, bootstrap_body, committed, bootstrap_v1, read_version, validated,
  validated_version, finish_open, bootstrap_at, open_checked, open_store,
}

-- The tables of a new database.
abbrev pub new_tables : Tables
new_tables = record fresh { schema_version = 1 ∷ [] }

create_all-counts :
    (inject : Bool) (position n : ℕ) (b : Bootstrap)
    → (create_all inject position n b).0 ≡ ok tt
    → let b' = (create_all inject position n b).1 in
      (b'.created ≡ b.created + n) × (b'.versions ≡ b.versions)
unfolding create_all
create_all-counts inject position zero b h = (omega arith, refl)
create_all-counts inject position (suc n) b h =
    let b₁ = record b { created = b.created + 1; faults = later b.faults } in
    ground (arith, create_all-counts inject (position + 1) n b₁)

-- The transaction of `bootstrap_v1` makes the whole schema with its version, or nothing.
bootstrap_v1-whole :
    (inject : Bool) (faults : List Bool)
    → let (r, file, _) = bootstrap_v1 inject faults in
      ((r ≡ ok tt) × (file ≡ schema new_tables)) ⊎ ((x : Error) × (r ≡ err x) × (file ≡ empty))
unfolding bootstrap_v1 bootstrap_body statement committed
bootstrap_v1-whole inject faults =
    let b : Bootstrap = record { created = 0; versions = []; faults = later faults } in
    let made = create_all-counts inject 0 schema_statements b in
    elim (Bool-cases (fails faults)) [
      | inl failing ↦ inr (sqlite, ground (arith, failing), ground (arith, failing))
      | inr running ↦ elim (Result-cases (create_all inject 0 schema_statements b).0) [
        | inr (x, raised) ↦
            inr (x, ground (arith, running, raised), ground (arith, running, raised))
        | inl (u, returned) ↦
            let (count, versions) = made returned in
            elim (Bool-cases (fails (create_all inject 0 schema_statements b).1.faults)) [
              | inl last ↦ inr (
                sqlite,
                ground (arith, running, returned, last),
                ground (arith, running, returned, last),
              )
              | inr on ↦ inl (
                ground (arith, running, returned, on),
                ground (arith, running, returned, on, count, versions),
              )
            ]
      ]
    ]

-- What `open` may leave, by the file that it found.
pub data IsOpening (file : DatabaseFile) : Result (Unit {0}) × SqliteStore → Type 0 where
  refused : {x : Error} → IsOpening file (err x, record { file = file; connection = none })
  unfinished :
      {x : Error}
      → file ≡ empty
      → IsOpening file (err x, record { file = schema new_tables; connection = none })
  opened :
      {t : Tables} {faults : List Bool}
      → t.schema_version ≡ 1 ∷ []
      → (file ≡ schema t) ⊎ ((file ≡ empty) × (t ≡ new_tables))
      → IsOpening file (
        ok tt,
        record {
          file = schema t;
          connection = some (record { tables = t; before = none; faults = faults });
        },
      )

-- What the check of the version lets pass.
abbrev Passes : DatabaseFile → Result (Option ℕ) → Type 0
Passes file (err x) = Unit
Passes file (ok none) = file ≡ empty
Passes file (ok (some v)) = (t : Tables) × (file ≡ schema t) × (t.schema_version ≡ 1 ∷ [])

schema-Passes :
    (t : Tables) (r : Result ℕ)
    → ((v : ℕ) → r ≡ ok v → t.schema_version ≡ v ∷ [])
    → Passes
        (schema t)
        (elim (elim r as (λ _. Result (Option ℕ)) [ ok v ↦ ok (some v) | err x ↦ err x ]) [
          | ok v ↦ validated v
          | err x ↦ err x
        ])
unfolding validated
schema-Passes t (ok v) h = elim (Bool-cases (ltb 1 v)) [
  | inl newer ↦ rw newer tt
  | inr not_newer ↦ elim (Bool-cases (ltb v 1)) [
    | inl older ↦ rw (not_newer, older) tt
    | inr not_older ↦
        let one : v ≡ 1 = ground arith in
        rw (not_newer, not_older) (t, refl, h v refl ∙ ap (λ n. n ∷ []) one)
  ]
]
schema-Passes t (err x) h = tt

one_version-sole :
    (versions : List ℕ) (c : Connection) (v : ℕ)
    → (one_version versions c).0 ≡ ok v
    → versions ≡ v ∷ []
unfolding one_version pure raise
one_version-sole [] c v h = cc
one_version-sole (x ∷ []) c v h = ground arith
one_version-sole (x ∷ y ∷ ys) c v h = cc

read_schema_version-sole :
    (t : Tables) (faults : List Bool) (v : ℕ)
    → (read_schema_version (record { tables = t; before = none; faults = faults })).0 ≡ ok v
    → t.schema_version ≡ v ∷ []
read_schema_version-sole t faults v h =
    let c : Connection = record { tables = t; before = none; faults = faults } in
    let (d, _, _, cases) = read_cases c in
    elim cases [
      | inl failed ↦ absurd (ground (arith, failed, h))
      | inr read ↦ one_version-sole t.schema_version d v (ap (λ p. p.0) (sym read) ∙ h)
    ]

validated_version-Passes :
    (file : DatabaseFile) (faults : List Bool) → Passes file (validated_version file faults).0
unfolding validated_version read_version validated
validated_version-Passes empty faults = elim (Bool-cases (fails faults)) [
  | inl failing ↦
      let e : (validated_version empty faults).0 ≡ err sqlite = ground (arith, failing) in
      subst (Passes empty) (sym e) tt
  | inr running ↦
      let e : (validated_version empty faults).0 ≡ ok none = ground (arith, running) in
      subst (Passes empty) (sym e) refl
]
validated_version-Passes foreign faults = elim (Bool-cases (fails faults)) [
  | inl failing ↦
      let e : (validated_version foreign faults).0 ≡ err sqlite = ground (arith, failing) in
      subst (Passes foreign) (sym e) tt
  | inr running ↦
      let e : (validated_version foreign faults).0 ≡ err database_schema =
        ground (arith, running) in
      subst (Passes foreign) (sym e) tt
]
validated_version-Passes (schema t) faults = schema-Passes t _ (read_schema_version-sole t faults)

finish-IsOpening :
    (file : DatabaseFile) (t : Tables) (r : Result (Unit {0}) × List Bool)
    → t.schema_version ≡ 1 ∷ []
    → (file ≡ schema t) ⊎ ((file ≡ empty) × (t ≡ new_tables))
    → IsOpening file (finish_open (schema t) r)
unfolding finish_open
finish-IsOpening file t (ok _, rest) version from = opened version from
finish-IsOpening file t (err x, rest) version (inl found) = rw (← found) refused
finish-IsOpening file t (err x, rest) version (inr (new, same)) = rw same (unfinished new)

bootstrap-IsOpening :
    (pragmas : Pragmas) (p : Result (Unit {0}) × DatabaseFile × List Bool)
    → ((p.0 ≡ ok tt) × (p.1 ≡ schema new_tables)) ⊎ ((x : Error) × (p.0 ≡ err x) × (p.1 ≡ empty))
    → IsOpening empty (bootstrap_at pragmas p)
unfolding bootstrap_at
bootstrap-IsOpening pragmas (ok _, file, rest) (inl (_, whole)) =
    rw whole (finish-IsOpening empty new_tables _ refl (inr (refl, refl)))
bootstrap-IsOpening pragmas (ok _, file, rest) (inr (x, e, _)) = cc
bootstrap-IsOpening pragmas (err x, file, rest) (inl (e, _)) = cc
bootstrap-IsOpening pragmas (err x, file, rest) (inr (_, _, back)) = rw back refused

checked-IsOpening :
    (inject : Bool) (pragmas : Pragmas) (file : DatabaseFile) (p : Result (Option ℕ) × List Bool)
    → Passes file p.0
    → IsOpening file (open_checked inject pragmas file p)
unfolding open_checked
checked-IsOpening inject pragmas file (err x, rest) h = refused
checked-IsOpening inject pragmas file (ok none, rest) h =
    rw h (bootstrap-IsOpening pragmas (bootstrap_v1 inject rest) (bootstrap_v1-whole inject rest))
checked-IsOpening inject pragmas file (ok (some v), rest) (t, found, version) =
    rw found (finish-IsOpening (schema t) t _ version (inl refl))

-- `open` of a store that is closed, whichever statements fail and whatever SQLite answers to the
-- pragmas: it raises and stays closed, with the file as it was, or with the new schema in a file that
-- was empty; or it is open, outside any transaction, on tables of schema version 1, which are the
-- file's or, for an empty file, the new ones.
pub open_store-IsOpening :
    (inject : Bool) (pragmas : Pragmas) (faults : List Bool) (file : DatabaseFile)
    → IsOpening file (open_store inject pragmas faults (record { file = file; connection = none }))
unfolding open_store
open_store-IsOpening inject pragmas faults file =
    checked-IsOpening inject pragmas file _ (validated_version-Passes file faults)

-- What SQLite answers where WAL and foreign keys are available.
abbrev pub available : Pragmas
available = record { journal_mode = some "wal"; foreign_keys = some 1 }
