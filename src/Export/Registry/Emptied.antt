-- ===== src/Export/Registry/Emptied.antt =====
-- export.py: what discard_all leaves.
use hass_geofence_journal.Prelude.{
  ℕ, ◌≡◌, refl, Bool, true, false, not, ◌&&◌, Option, none, some, List, [], ◌∷◌, arith,
  Option-cases, Bool-cases, inl, inr,
}
use hass_geofence_journal.Text.{eq_codes_refl}
use hass_geofence_journal.Errors.{Result, ok, err}
use hass_geofence_journal.Export.Registry.{
  ExportArtifact, Entry, FileName, Registry, is_export_suffix, get, pop, discard, is_held,
  discard_held, ids_of, is_protected, is_orphan, one_more, remove_orphans, cleanup_orphaned_files,
  uncounted, then_orphans, discard_all,
}
use hass_geofence_journal.Export.Registry.Expiry.{listed, discard-pop}

-- Every artifact has one of the ids.
abbrev among : List (List ℕ) → List ExportArtifact → Bool
among ids [] = true
among ids (a ∷ artifacts) = listed a.export_id ids && among ids artifacts

among-pop :
    (id : List ℕ) (ids : List (List ℕ)) (artifacts : List ExportArtifact)
    → among (id ∷ ids) artifacts ≡ true
    → among ids (pop id artifacts) ≡ true
unfolding pop
among-pop id ids [] h = refl
among-pop id ids (a ∷ artifacts) h = ground (arith, among-pop id ids artifacts)

among_more :
    (id : List ℕ) (ids : List (List ℕ)) (artifacts : List ExportArtifact)
    → among ids artifacts ≡ true
    → among (id ∷ ids) artifacts ≡ true
among_more id ids [] h = refl
among_more id ids (a ∷ artifacts) h = ground (arith, among_more id ids artifacts)

among-ids_of : (artifacts : List ExportArtifact) → among (ids_of artifacts) artifacts ≡ true
among-ids_of [] = refl
among-ids_of (a ∷ artifacts) =
    let rest = among_more a.export_id (ids_of artifacts) artifacts (among-ids_of artifacts) in
    ground (arith, rest, eq_codes_refl a.export_id)

among_none : (artifacts : List ExportArtifact) → among [] artifacts ≡ true → artifacts ≡ []
among_none [] h = refl
among_none (a ∷ artifacts) h = absurd (ground arith)

-- No file of an export is there.
abbrev pub no_exports : List Entry → Bool
no_exports [] = true
no_exports (e ∷ entries) = not (is_export_suffix e.name.suffix && e.is_file) && no_exports entries

abbrev pub is_clean : Option (List Entry) → Bool
is_clean none = true
is_clean (some entries) = no_exports entries

-- Some file cannot be removed.
abbrev pub IsStuck : (FileName → Bool) → Type 0
IsStuck held = (name : FileName) × (held name ≡ true)

-- A clean-up that returns leaves no artifact and no file; one that raises has met a held file.
abbrev pub Empties : {A : Type 0} → (FileName → Bool) → Result A × Registry → Type 0
Empties held (ok _, r) = (r.artifacts ≡ []) × (is_clean r.directory ≡ true)
Empties held (err x, r) = IsStuck held

module _ (held : FileName → Bool) where
  abbrev Removes : Result ℕ × List Entry → Type 0
  Removes (ok n, rest) = no_exports rest ≡ true
  Removes (err x, rest) = IsStuck held

  one_more-Removes : (p : Result ℕ × List Entry) → Removes p → Removes (one_more p.0, p.1)
  one_more-Removes (ok n, rest) h = h
  one_more-Removes (err x, rest) h = h

  stays-Removes :
      (e : Entry) (p : Result ℕ × List Entry)
      → is_orphan [] e ≡ false
      → Removes p
      → Removes (p.0, e ∷ p.1)
  unfolding is_orphan is_protected
  stays-Removes e (ok n, rest) free h = ground (arith, h, free)
  stays-Removes e (err x, rest) free h = h

  remove_orphans-Removes : (entries : List Entry) → Removes (remove_orphans held [] entries)
  unfolding remove_orphans
  remove_orphans-Removes [] = refl
  remove_orphans-Removes (e ∷ entries) =
      let p = remove_orphans held [] entries in
      elim (Bool-cases (is_orphan [] e)) [
        | inr stays ↦ simp stays (stays-Removes e p stays (remove_orphans-Removes entries))
        | inl goes ↦ elim (Bool-cases (held e.name)) [
          | inl stuck ↦ simp (goes, stuck) (e.name, stuck)
          | inr removed ↦ simp (goes, removed) (one_more-Removes p (remove_orphans-Removes entries))
        ]
      ]

  listed-Empties :
      (p : Result ℕ × List Entry)
      → Removes p
      → Empties held (p.0, record { artifacts = []; directory = some p.1 })
  listed-Empties (ok n, rest) h = (refl, h)
  listed-Empties (err x, rest) h = h

  cleanup-Empties : (r : Registry) → r.artifacts ≡ [] → Empties held (cleanup_orphaned_files held r)
  unfolding cleanup_orphaned_files
  cleanup-Empties r h = elim (Option-cases r.directory) [
    | inl absent ↦ rw (absent, cleanup_orphaned_files) (h, rw absent refl)
    | inr (entries, there) ↦
        rw (there, h, cleanup_orphaned_files)
          (listed-Empties (remove_orphans held [] entries) (remove_orphans-Removes entries))
  ]

  held-IsStuck :
      (id : List ℕ) (artifacts : List ExportArtifact)
      → is_held held id artifacts ≡ true
      → IsStuck held
  unfolding is_held
  held-IsStuck id artifacts h = elim (Option-cases (get id artifacts)) [
    | inl absent ↦ absurd (ground (arith, absent))
    | inr (a, there) ↦ (a.path, ground (arith, there))
  ]

  abbrev Discards : Result (Unit {0}) × Registry → Type 0
  Discards (ok _, r) = r.artifacts ≡ []
  Discards (err x, r) = IsStuck held

  discard_held-Discards :
      (ids : List (List ℕ)) (r : Registry)
      → among ids r.artifacts ≡ true
      → Discards (discard_held held ids r)
  unfolding discard_held
  discard_held-Discards [] r h = among_none r.artifacts h
  discard_held-Discards (id ∷ ids) r h = elim (Bool-cases (is_held held id r.artifacts)) [
    | inl stuck ↦ simp stuck (held-IsStuck id r.artifacts stuck)
    | inr removed ↦ simp removed (
        discard_held-Discards ids (discard id r)
          (rw (discard-pop id r) (among-pop id ids r.artifacts h)))
  ]

  uncounted-Empties : (p : Result ℕ × Registry) → Empties held p → Empties held (uncounted p)
  uncounted-Empties (ok n, r) h = h
  uncounted-Empties (err x, r) h = h

  then_orphans-Empties :
      (p : Result (Unit {0}) × Registry) → Discards p → Empties held (then_orphans held p)
  then_orphans-Empties (ok _, r) h =
      uncounted-Empties (cleanup_orphaned_files held r) (cleanup-Empties r h)
  then_orphans-Empties (err x, r) h = h

  -- If discard_all returns, no artifact is registered, so that no request for a download gets a file,
  -- and the directory has no file with the suffix of an export; it raises only if a file is held.
  pub discard_all-Empties : (r : Registry) → Empties held (discard_all held r)
  unfolding discard_all
  discard_all-Empties r =
      then_orphans-Empties (discard_held held (ids_of r.artifacts) r)
        (discard_held-Discards (ids_of r.artifacts) r (among-ids_of r.artifacts))
