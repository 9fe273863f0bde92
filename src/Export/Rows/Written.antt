-- ===== src/Export/Rows/Written.antt =====
-- export.py: what an export leaves in the directory, and what a CSV reader finds in it.
use mathlib.Core.List.{append-nil, append_assoc}
use hass_geofence_journal.Prelude.{
  ℕ, ◌≡◌, refl, Bool, true, false, ◌⊎◌, inl, inr, Option, none, some, List, [], ◌∷◌, ◌++◌, length,
  Bool-cases,
}
use hass_geofence_journal.Errors.{Result, ok, err, os_error}
use hass_geofence_journal.Exec.{Exec, done, ◌>>=◌}
use hass_geofence_journal.Exec.Rules.{>>=-ok, >>=-err}
use hass_geofence_journal.Float.{Float}
use hass_geofence_journal.Storage.Sql.{fails, later}
use hass_geofence_journal.Export.Csv.{Value, csv_line, csv_lines}
use hass_geofence_journal.Export.Csv.Reader.{read_csv}
use hass_geofence_journal.Export.Csv.RoundTrip.{all_full, text_rows, read_csv-csv_lines}
use hass_geofence_journal.Export.Rows.{
  ExportRequest, Joined, ExportFile, open_temporary, append_text, write_text, replace, row_values,
  exported_row, exported_rows, headers, clean_up, counting, write_lines, write_file, write_export,
  export_selected, take,
}

abbrev later_on : ExportFile → ExportFile
later_on f = record f { faults = later f.faults }

write_text-cases :
    (s : List ℕ) (f : ExportFile)
    → (write_text s f ≡ (err os_error, later_on f))
      ⊎ (write_text s f ≡ (ok tt, record (later_on f) { temporary = append_text f.temporary s }))
unfolding write_text
write_text-cases s f = elim (Bool-cases (fails f.faults)) [
  | inl failing ↦ inl (rw failing refl)
  | inr running ↦ inr (rw running refl)
]

open-cases :
    (f : ExportFile)
    → (open_temporary f ≡ (err os_error, later_on f))
      ⊎ (open_temporary f ≡ (ok tt, record (later_on f) { temporary = some [] }))
unfolding open_temporary
open-cases f = elim (Bool-cases (fails f.faults)) [
  | inl failing ↦ inl (rw failing refl)
  | inr running ↦ inr (rw running refl)
]

replace-cases :
    (f : ExportFile)
    → (replace f ≡ (err os_error, later_on f))
      ⊎ (replace f ≡ (ok tt, record (later_on f) { final = f.temporary; temporary = none }))
unfolding replace
replace-cases f = elim (Bool-cases (fails f.faults)) [
  | inl failing ↦ inl (rw failing refl)
  | inr running ↦ inr (rw running refl)
]

module _ (str_float : Float → List ℕ) where
  -- What the lines leave behind a text, with the final file that was there.
  data IsLines (old : Option (List ℕ)) (text : List ℕ)
      : Result (Unit {0}) × ExportFile → Type 0 where
    written :
        {f : ExportFile} → f.final ≡ old → f.temporary ≡ some text → IsLines old text (ok tt, f)
    broken : {f : ExportFile} → f.final ≡ old → IsLines old text (err os_error, f)

  write_lines-IsLines :
      (rows : List (List Value)) (f : ExportFile) (text : List ℕ)
      → f.temporary ≡ some text
      → IsLines f.final (text ++ csv_lines str_float rows) (write_lines str_float rows f)
  unfolding write_lines append_text csv_lines done
  write_lines-IsLines [] f text at = written refl (rw append-nil at)
  write_lines-IsLines (row ∷ rows) f text at = elim (write_text-cases (csv_line str_float row) f) [
    | inl failed ↦ rw (>>=-err _ _ f _ os_error failed) (broken refl)
    | inr wrote ↦
        let more = text ++ csv_line str_float row in
        let f₁ = record (later_on f) {
          temporary = append_text f.temporary (csv_line str_float row);
        } in
        rw
          (
            >>=-ok _ _ f f₁ _ wrote,
            ← append_assoc text (csv_line str_float row) (csv_lines str_float rows),
          )
          (write_lines-IsLines rows f₁ more (rw at refl))
  ]

  -- What an export of some lines leaves, from the file that was there.
  pub data IsExport (held : Bool) (rows : List (List Value)) (old : Option (List ℕ))
      : Result (Unit {0}) × ExportFile → Type 0 where
    replaced :
        {f : ExportFile}
        → f.final ≡ some (csv_lines str_float rows)
        → f.temporary ≡ none
        → IsExport held rows old (ok tt, f)
    kept :
        {f : ExportFile}
        → f.final ≡ old
        → (f.temporary ≡ none) ⊎ (held ≡ true)
        → IsExport held rows old (err os_error, f)

  clean_up-IsExport :
      (held : Bool) (rows : List (List Value)) (f : ExportFile)
      → IsExport held rows f.final (clean_up held (err os_error, f))
  unfolding clean_up
  clean_up-IsExport true rows f = kept refl (inr refl)
  clean_up-IsExport false rows f = kept refl (inl refl)

  replace-IsExport :
      (held : Bool) (rows : List (List Value)) (old : Option (List ℕ))
      (m : Exec ExportFile (Unit {0})) (f : ExportFile) {p : Result (Unit {0}) × ExportFile}
      → IsLines old (csv_lines str_float rows) p
      → m f ≡ p
      → IsExport held rows old (clean_up held ((m >>= λ _. replace) f))
  unfolding clean_up
  replace-IsExport held rows old m f (broken {f = f₁} same) e =
      rw (>>=-err m (λ _. replace) f f₁ os_error e, ← same) (clean_up-IsExport held rows f₁)
  replace-IsExport held rows old m f (written {f = f₁} same text) e =
      rw (>>=-ok m (λ _. replace) f f₁ tt e) (elim (replace-cases f₁) [
        | inl failed ↦ rw (failed, ← same) (clean_up-IsExport held rows (later_on f₁))
        | inr moved ↦ rw moved (replaced text refl)
      ])

  write_export-IsExport :
      (held : Bool) (rows : List (List Value)) (f : ExportFile)
      → IsExport held rows f.final (write_export str_float held rows f)
  unfolding write_export write_file clean_up
  write_export-IsExport held rows f = elim (open-cases f) [
    | inl failed ↦
        rw (>>=-err _ _ f (later_on f) os_error failed) (clean_up-IsExport held rows (later_on f))
    | inr opened ↦
        let f₁ = record (later_on f) { temporary = some [] } in
        rw (>>=-ok _ _ f f₁ tt opened) (
          replace-IsExport held rows f.final (write_lines str_float rows) f₁
            (write_lines-IsLines rows f₁ [] refl) refl)
  ]

module _ (str_float : Float → List ℕ) (id_text time_text : ℕ → List ℕ) where
  -- The lines of an export, the headers first.
  abbrev pub lines_of : ExportRequest → List Joined → List (List Value)
  lines_of request rows =
      let include = request.include_coordinates in
      headers include ∷ exported_rows str_float id_text time_text include rows

  -- What an export leaves, and what a CSV reader finds in the file that it returned for.
  pub data IsExported (held : Bool) (request : ExportRequest) (rows : List Joined)
      (old : Option (List ℕ)) : Result ℕ × ExportFile → Type 0 where
    exported :
        {f : ExportFile} {content : List ℕ}
        → f.final ≡ some content
        → read_csv content ≡ some (text_rows str_float (lines_of request rows))
        → f.temporary ≡ none
        → IsExported held request rows old (ok (length rows), f)
    unchanged :
        {f : ExportFile}
        → f.final ≡ old
        → (f.temporary ≡ none) ⊎ (held ≡ true)
        → IsExported held request rows old (err os_error, f)

  exported_rows-full :
      (include : Bool) (rows : List Joined)
      → all_full (exported_rows str_float id_text time_text include rows) ≡ true
  unfolding exported_rows exported_row row_values take
  exported_rows-full include [] = refl
  exported_rows-full true (x ∷ rows) = exported_rows-full true rows
  exported_rows-full false (x ∷ rows) = exported_rows-full false rows

  lines_of-full :
      (request : ExportRequest) (rows : List Joined) → all_full (lines_of request rows) ≡ true
  unfolding headers
  lines_of-full request rows = elim (Bool-cases request.include_coordinates) [
    | inl on ↦ rw on (exported_rows-full true rows)
    | inr off ↦ rw off (exported_rows-full false rows)
  ]

  counting-IsExported :
      (held : Bool) (request : ExportRequest) (rows : List Joined) (old : Option (List ℕ))
      {p : Result (Unit {0}) × ExportFile}
      → IsExport str_float held (lines_of request rows) old p
      → IsExported held request rows old (counting (length rows) p)
  unfolding counting
  counting-IsExported held request rows old (replaced final clean) =
      exported final
        (read_csv-csv_lines str_float (lines_of request rows) (lines_of-full request rows)) clean
  counting-IsExported held request rows old (kept final clean) = unchanged final clean

  -- Whichever steps of an export fail, no temporary file stays, unless it cannot be removed. If the
  -- export raises, the final file is the one from before. If it returns, it returns the number of its
  -- rows, and a CSV reader finds in the final file the headers and the cells of each row, in their
  -- order, as texts.
  pub export_selected-IsExported :
      (held : Bool) (request : ExportRequest) (rows : List Joined) (f : ExportFile)
      → IsExported held request rows f.final
          (export_selected str_float id_text time_text held request rows f)
  unfolding export_selected
  export_selected-IsExported held request rows f =
      counting-IsExported held request rows f.final
        (write_export-IsExport str_float held (lines_of request rows) f)
