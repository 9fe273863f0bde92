-- ===== src/Export/Registry.antt =====
-- custom_components/geofence_journal/export.py: ExportRegistry, the downloads and their files. The
-- lock makes each method one step. Creating the directory does not fail here, nor does removing the file
-- of one download; where all files are removed, any of them can be held.
pub mod Emptied
pub mod Expiry
use hass_geofence_journal.Prelude.{
  ℕ, ◌+◌, suc, Bool, true, false, not, ◌&&◌, ◌||◌, Option, none, some, List, [], ◌∷◌, leb, ◌==◌,
  if◌then◌else◌, length,
}
use hass_geofence_journal.Errors.{Result, ok, err, os_error}
use hass_geofence_journal.Text.{eq_codes}
use hass_geofence_journal.Models.{add_seconds}

-- `path.suffix`
pub data Suffix : Type 0 where
  csv tmp other : Suffix

-- A path below the export directory.
pub record FileName : Type 0 where
  pub stem : List ℕ
  pub suffix : Suffix

pub record ExportArtifact : Type 0 where
  pub export_id : List ℕ
  pub path : FileName
  pub created_at : ℕ
  pub expires_at : ℕ

-- An entry of the directory: a file, or something else.
pub record Entry : Type 0 where
  pub name : FileName
  pub is_file : Bool

-- The artifacts in the order of their insertion, and the directory, if it is there.
pub record Registry : Type 0 where
  pub artifacts : List ExportArtifact
  pub directory : Option (List Entry)

abbrev pub is_suffix : Suffix → Suffix → Bool
is_suffix csv csv = true
is_suffix tmp tmp = true
is_suffix other other = true
is_suffix _ _ = false

unfoldable pub same_name : FileName → FileName → Bool
same_name a b = eq_codes a.stem b.stem && is_suffix a.suffix b.suffix

-- `_artifacts.get`
unfoldable pub get : List ℕ → List ExportArtifact → Option ExportArtifact
get id [] = none
get id (a ∷ artifacts) = if eq_codes a.export_id id then some a else get id artifacts

-- `_artifacts.pop`
unfoldable pub pop : List ℕ → List ExportArtifact → List ExportArtifact
pop id [] = []
pop id (a ∷ artifacts) =
    let rest = pop id artifacts in if eq_codes a.export_id id then rest else a ∷ rest

-- `_artifacts[export_id] = artifact`
unfoldable pub put : ExportArtifact → List ExportArtifact → List ExportArtifact
put a [] = a ∷ []
put a (b ∷ artifacts) =
    let rest = put a artifacts in
    if eq_codes b.export_id a.export_id then a ∷ artifacts else b ∷ rest

unfoldable pub is_file_in : FileName → List Entry → Bool
is_file_in name [] = false
is_file_in name (e ∷ entries) = (same_name e.name name && e.is_file) || is_file_in name entries

unfoldable pub is_file : FileName → Option (List Entry) → Bool
is_file name none = false
is_file name (some entries) = is_file_in name entries

-- `unlink(missing_ok=True)`
unfoldable pub unlink_in : FileName → List Entry → List Entry
unlink_in name [] = []
unlink_in name (e ∷ entries) =
    let rest = unlink_in name entries in
    if same_name e.name name && e.is_file then rest else e ∷ rest

unfoldable pub unlink : FileName → Option (List Entry) → Option (List Entry)
unlink name none = none
unlink name (some entries) = some (unlink_in name entries)

abbrev pub make_directory : Option (List Entry) → Option (List Entry)
make_directory none = some []
make_directory (some entries) = some entries

-- `uuid4().hex` and the clock's reading are the arguments; the lifetime is 24 hours.
unfoldable pub allocate : List ℕ → ℕ → Registry → Result ExportArtifact × Registry
allocate export_id created_at r =
    let directory = make_directory r.directory in
    elim (add_seconds created_at 86400) [
      | err x ↦ (err x, record r { directory = directory })
      | ok expires_at ↦
          let artifact : ExportArtifact = record {
            export_id = export_id;
            path = record { stem = export_id; suffix = csv };
            created_at = created_at;
            expires_at = expires_at;
          } in
          (ok artifact, record { artifacts = put artifact r.artifacts; directory = directory })
    ]

unfoldable pub discard : List ℕ → Registry → Registry
discard export_id r = elim (get export_id r.artifacts) [
  | none ↦ r
  | some a ↦ record { artifacts = pop export_id r.artifacts; directory = unlink a.path r.directory }
]

abbrev pub is_hex : ℕ → Bool
is_hex c = (leb 48 c && leb c 57) || (leb 97 c && leb c 102)

abbrev pub all_hex : List ℕ → Bool
all_hex [] = true
all_hex (c ∷ s) = is_hex c && all_hex s

-- EXPORT_ID_LENGTH characters of "0123456789abcdef"
unfoldable pub is_export_id : List ℕ → Bool
is_export_id s = (length s == 32) && all_hex s

-- `now` is the reading of the clock.
unfoldable pub resolve : List ℕ → ℕ → Registry → Option ExportArtifact × Registry
resolve export_id now r =
    if not (is_export_id export_id) then (none, r) else elim (get export_id r.artifacts) [
      | none ↦ (none, r)
      | some a ↦
          if leb a.expires_at now || not (is_file a.path r.directory)
          then (none, discard export_id r)
          else (some a, r)
    ]

-- The artifacts that are expired at their reading of the clock.
unfoldable pub expired : (ℕ → ℕ) → ℕ → List ExportArtifact → List (List ℕ)
expired clock n [] = []
expired clock n (a ∷ artifacts) =
    let rest = expired clock (suc n) artifacts in
    if leb a.expires_at (clock n) then a.export_id ∷ rest else rest

unfoldable pub discard_each : List (List ℕ) → Registry → Registry
discard_each [] r = r
discard_each (id ∷ ids) r = discard_each ids (discard id r)

-- `clock n` is the n-th reading of the clock.
unfoldable pub cleanup_expired : (ℕ → ℕ) → Registry → ℕ × Registry
cleanup_expired clock r = let ids = expired clock 0 r.artifacts in (length ids, discard_each ids r)

-- The path of an artifact, and the same with the suffix .tmp.
unfoldable pub is_protected : FileName → List ExportArtifact → Bool
is_protected name [] = false
is_protected name (a ∷ artifacts) =
    same_name name a.path
    || same_name name (record a.path { suffix = tmp })
    || is_protected name artifacts

abbrev pub is_export_suffix : Suffix → Bool
is_export_suffix csv = true
is_export_suffix tmp = true
is_export_suffix other = false

unfoldable pub is_orphan : List ExportArtifact → Entry → Bool
is_orphan artifacts e =
    not (is_protected e.name artifacts) && is_export_suffix e.name.suffix && e.is_file

abbrev pub one_more : Result ℕ → Result ℕ
one_more (ok n) = ok (n + 1)
one_more (err x) = err x

-- The orphans are removed and counted; `held` says which files cannot be removed: their `unlink` raises
-- OSError, which leaves the entries from there on.
unfoldable pub remove_orphans :
    (FileName → Bool) → List ExportArtifact → List Entry → Result ℕ × List Entry
remove_orphans held artifacts [] = (ok 0, [])
remove_orphans held artifacts (e ∷ entries) =
    let (n, rest) = remove_orphans held artifacts entries in
    if is_orphan artifacts e
    then (if held e.name then (err os_error, e ∷ entries) else (one_more n, rest))
    else (n, e ∷ rest)

unfoldable pub cleanup_orphaned_files : (FileName → Bool) → Registry → Result ℕ × Registry
cleanup_orphaned_files held r = elim r.directory [
  | none ↦ (ok 0, r)
  | some entries ↦
      let (n, rest) = remove_orphans held r.artifacts entries in
      (n, record r { directory = some rest })
]

abbrev pub ids_of : List ExportArtifact → List (List ℕ)
ids_of [] = []
ids_of (a ∷ artifacts) = a.export_id ∷ ids_of artifacts

-- The file of an artifact is held.
unfoldable pub is_held : (FileName → Bool) → List ℕ → List ExportArtifact → Bool
is_held held export_id artifacts = elim (get export_id artifacts) [
  | none ↦ false
  | some a ↦ held a.path
]

-- The artifact of a file that cannot be removed is forgotten, and the loop ends.
unfoldable pub discard_held :
    (FileName → Bool) → List (List ℕ) → Registry → Result (Unit {0}) × Registry
discard_held held [] r = (ok tt, r)
discard_held held (id ∷ ids) r =
    let rest = discard_held held ids (discard id r) in
    if is_held held id r.artifacts
    then (err os_error, record r { artifacts = pop id r.artifacts })
    else rest

abbrev pub uncounted : Result ℕ × Registry → Result (Unit {0}) × Registry
uncounted (ok _, r) = (ok tt, r)
uncounted (err x, r) = (err x, r)

abbrev pub then_orphans :
    (FileName → Bool) → Result (Unit {0}) × Registry → Result (Unit {0}) × Registry
then_orphans held (ok _, r) = uncounted (cleanup_orphaned_files held r)
then_orphans held (err x, r) = (err x, r)

unfoldable pub discard_all : (FileName → Bool) → Registry → Result (Unit {0}) × Registry
discard_all held r = then_orphans held (discard_held held (ids_of r.artifacts) r)
