-- ===== src/Export/Registry/Expiry.antt =====
-- export.py: which downloads a registry gives out, and what it leaves behind.
use hass_geofence_journal.Prelude.{
  ℕ, suc, ◌≡◌, refl, sym, ◌∙◌, Bool, true, false, not, ◌&&◌, ◌||◌, inl, inr, Option, none, some,
  List, [], ◌∷◌, ◌⊎◌, arith, leb, ltb, ◌≤◌, Bool-cases, Option-cases,
}
use hass_geofence_journal.Text.{eq_codes, eq_codes_refl, eq_codes→eq, eq_codes_sym}
use hass_geofence_journal.Export.Registry.{
  ExportArtifact, Registry, get, pop, is_file, discard, is_export_id, resolve, expired,
  discard_each, cleanup_expired, ids_of,
}

get-pop : (id : List ℕ) (artifacts : List ExportArtifact) → get id (pop id artifacts) ≡ none
unfolding get pop
get-pop id [] = refl
get-pop id (a ∷ artifacts) = ground (arith, get-pop id artifacts)

get-discard : (id : List ℕ) (r : Registry) → get id (discard id r).artifacts ≡ none
unfolding discard
get-discard id r = elim (Option-cases (get id r.artifacts)) [
  | inl none_there ↦ rw (none_there, discard) none_there
  | inr (a, there) ↦ rw (there, discard) (get-pop id r.artifacts)
]

-- What a request for a download gets: the artifact of that id, before its expiry and with its file,
-- from a registry that stays as it was; or nothing, and then the text is no id, or the id is no longer
-- registered.
pub data IsResolved (id : List ℕ) (now : ℕ) (r : Registry)
    : Option ExportArtifact × Registry → Type 0 where
  found :
      {a : ExportArtifact}
      → is_export_id id ≡ true
      → get id r.artifacts ≡ some a
      → ltb now a.expires_at ≡ true
      → is_file a.path r.directory ≡ true
      → IsResolved id now r (some a, r)
  malformed : is_export_id id ≡ false → IsResolved id now r (none, r)
  gone : {r' : Registry} → get id r'.artifacts ≡ none → IsResolved id now r (none, r')

-- A request for a download gets the registered artifact of its id only before its expiry and while
-- its file is there, and changes nothing then. Otherwise it gets nothing, and if the text is an id
-- at all, that id is not registered afterwards.
pub resolve-IsResolved :
    (id : List ℕ) (now : ℕ) (r : Registry) → IsResolved id now r (resolve id now r)
unfolding resolve
resolve-IsResolved id now r = elim (Bool-cases (is_export_id id)) [
  | inr bad ↦ simp bad (malformed bad)
  | inl good ↦ elim (Option-cases (get id r.artifacts)) [
    | inl none_there ↦ simp (good, none_there) (gone none_there)
    | inr (a, there) ↦
        elim (Bool-cases (leb a.expires_at now || not (is_file a.path r.directory))) [
          | inl stale ↦ simp (good, there, stale) (gone (get-discard id r))
          | inr fresh ↦ simp (good, there, fresh) (found good there (ground arith) (ground arith))
        ]
  ]
]

-- Is the id one of these?
abbrev pub listed : List ℕ → List (List ℕ) → Bool
listed id [] = false
listed id (x ∷ xs) = eq_codes id x || listed id xs

-- Each artifact is before its expiry.
abbrev pub all_current : ℕ → List ExportArtifact → Bool
all_current now [] = true
all_current now (a ∷ artifacts) = ltb now a.expires_at && all_current now artifacts

-- Each artifact is before its expiry, or its id is one of these.
abbrev covered : ℕ → List (List ℕ) → List ExportArtifact → Bool
covered now ids [] = true
covered now ids (a ∷ artifacts) =
    (ltb now a.expires_at || listed a.export_id ids) && covered now ids artifacts

covered-more :
    (now : ℕ) (id : List ℕ) (ids : List (List ℕ)) (artifacts : List ExportArtifact)
    → covered now ids artifacts ≡ true
    → covered now (id ∷ ids) artifacts ≡ true
covered-more now id ids [] h = refl
covered-more now id ids (a ∷ artifacts) h = ground (arith, covered-more now id ids artifacts)

covered-pop :
    (now : ℕ) (id : List ℕ) (ids : List (List ℕ)) (artifacts : List ExportArtifact)
    → covered now (id ∷ ids) artifacts ≡ true
    → covered now ids (pop id artifacts) ≡ true
unfolding pop
covered-pop now id ids [] h = refl
covered-pop now id ids (a ∷ artifacts) h = ground (arith, covered-pop now id ids artifacts)

pop_absent :
    (id : List ℕ) (artifacts : List ExportArtifact)
    → get id artifacts ≡ none
    → pop id artifacts ≡ artifacts
unfolding pop get
pop_absent id [] h = refl
pop_absent id (a ∷ artifacts) h = ground (arith, pop_absent id artifacts)

pub discard-pop : (id : List ℕ) (r : Registry) → (discard id r).artifacts ≡ pop id r.artifacts
unfolding discard pop
discard-pop id r = elim (Option-cases (get id r.artifacts)) [
  | inl none_there ↦ rw (none_there, discard) (sym (pop_absent id r.artifacts none_there))
  | inr (a, there) ↦ rw (there, discard) refl
]

covered-none :
    (now : ℕ) (artifacts : List ExportArtifact)
    → covered now [] artifacts ≡ true
    → all_current now artifacts ≡ true
covered-none now [] h = refl
covered-none now (a ∷ artifacts) h = ground (arith, covered-none now artifacts)

discard_each-covered :
    (now : ℕ) (ids : List (List ℕ)) (r : Registry)
    → covered now ids r.artifacts ≡ true
    → all_current now (discard_each ids r).artifacts ≡ true
unfolding discard_each
discard_each-covered now [] r h = covered-none now r.artifacts h
discard_each-covered now (id ∷ ids) r h =
    discard_each-covered now ids (discard id r)
      (rw (discard-pop id r) (covered-pop now id ids r.artifacts h))

expired-covered :
    (clock : ℕ → ℕ) (now n : ℕ) (artifacts : List ExportArtifact)
    → ((k : ℕ) → now ≤ clock k)
    → covered now (expired clock n artifacts) artifacts ≡ true
unfolding expired
expired-covered clock now n [] later = refl
expired-covered clock now n (a ∷ artifacts) later =
    let rest = expired-covered clock now (suc n) artifacts later in
    let more = covered-more now a.export_id (expired clock (suc n) artifacts) artifacts rest in
    ground (arith, later n, rest, more, eq_codes_refl a.export_id)

-- The ids are different.
abbrev pub distinct : List ExportArtifact → Bool
distinct [] = true
distinct (a ∷ artifacts) = not (listed a.export_id (ids_of artifacts)) && distinct artifacts

get-pop_other :
    (id k : List ℕ) (artifacts : List ExportArtifact)
    → eq_codes k id ≡ false
    → get k (pop id artifacts) ≡ get k artifacts
unfolding get pop
get-pop_other id k [] h = refl
get-pop_other id k (a ∷ artifacts) h = elim (Bool-cases (eq_codes a.export_id id)) [
  | inr stays ↦ ground (arith, stays, get-pop_other id k artifacts h)
  | inl goes ↦
      let e = eq_codes→eq a.export_id id goes in
      let other : eq_codes a.export_id k ≡ false = rw e (eq_codes_sym id k ∙ h) in
      ground (arith, goes, other, get-pop_other id k artifacts h)
]

get-discard_each :
    (k : List ℕ) (ids : List (List ℕ)) (r : Registry)
    → listed k ids ≡ false
    → get k (discard_each ids r).artifacts ≡ get k r.artifacts
unfolding discard_each
get-discard_each k [] r h = refl
get-discard_each k (id ∷ ids) r h =
    get-discard_each k ids (discard id r) (ground arith)
    ∙ rw (discard-pop id r) (get-pop_other id k r.artifacts (ground arith))

listed-expired :
    (clock : ℕ → ℕ) (n : ℕ) (k : List ℕ) (artifacts : List ExportArtifact)
    → listed k (ids_of artifacts) ≡ false
    → listed k (expired clock n artifacts) ≡ false
unfolding expired
listed-expired clock n k [] h = refl
listed-expired clock n k (a ∷ artifacts) h =
    ground (arith, listed-expired clock (suc n) k artifacts)

expired-reading :
    (clock : ℕ → ℕ) (n : ℕ) (k : List ℕ) (artifacts : List ExportArtifact)
    → distinct artifacts ≡ true
    → listed k (expired clock n artifacts) ≡ true
    → (a : ExportArtifact) × (i : ℕ) × (get k artifacts ≡ some a) × (a.expires_at ≤ clock i)
unfolding expired get
expired-reading clock n k [] d h = absurd (ground arith)
expired-reading clock n k (b ∷ artifacts) d h = elim (Bool-cases (eq_codes b.export_id k)) [
  | inr differs ↦
      let (a, i, there, over) =
        expired-reading clock (suc n) k artifacts (ground arith)
          (ground (arith, differs, eq_codes_sym k b.export_id)) in
      (a, i, rw differs there, over)
  | inl same ↦
      let e = eq_codes→eq b.export_id k same in
      let free : listed b.export_id (ids_of artifacts) ≡ false = ground arith in
      let later = listed-expired clock (suc n) k artifacts (rw (← e) free) in
      (b, n, rw same refl, ground (arith, later))
]

-- What is registered under an id afterwards: what was, unless that has expired at some reading.
abbrev pub Survives : (ℕ → ℕ) → List ℕ → Registry → Registry → Type 0
Survives clock k r r' =
    (get k r'.artifacts ≡ get k r.artifacts)
    ⊎ ((a : ExportArtifact) × (i : ℕ) × (get k r.artifacts ≡ some a) × (a.expires_at ≤ clock i))

-- Cleaning up, while the clock does not fall below its first reading, leaves no artifact that was
-- expired at the start; and what any id is registered for stays, unless it was expired at some
-- reading. The ids of the artifacts are different.
pub cleanup_expired-exact :
    (clock : ℕ → ℕ) (r : Registry) (k : List ℕ)
    → ((i : ℕ) → clock 0 ≤ clock i)
    → distinct r.artifacts ≡ true
    → (all_current (clock 0) (cleanup_expired clock r).1.artifacts ≡ true)
      × Survives clock k r (cleanup_expired clock r).1
unfolding cleanup_expired
cleanup_expired-exact clock r k runs d = (
  discard_each-covered (clock 0) (expired clock 0 r.artifacts) r
      (expired-covered clock (clock 0) 0 r.artifacts runs),
  elim (Bool-cases (listed k (expired clock 0 r.artifacts))) [
    | inr other ↦ inl (get-discard_each k (expired clock 0 r.artifacts) r other)
    | inl was_over ↦ inr (expired-reading clock 0 k r.artifacts d was_over)
  ],
)
