-- ===== src/Export/Csv/RoundTrip.antt =====
-- export.py: another program reads back the cells that were written, and none is a formula.
use mathlib.Core.List.{append-nil, append_assoc}
use hass_geofence_journal.Prelude.{
  ℕ, ◌≡◌, refl, ◌∙◌, Bool, true, false, ◌||◌, Option, none, some, sym, if◌then◌else◌, List, [], ◌∷◌,
  ◌++◌, ◌==◌, inl, inr, ◌⊎◌, arith, Bool-cases, ==→eq,
}
use hass_geofence_journal.Float.{Float}
use hass_geofence_journal.Export.Csv.{
  Value, word, is_special, is_formula, any_special, double_quotes, cell_text, quote_cell, csv_cell,
  join_cells, csv_line, csv_lines,
}
use hass_geofence_journal.Export.Csv.Reader.{
  Reading, Place, start, plain, quoted, closing, step_plain, step_at, read_from, finished, read_csv,
}

read_step :
    (r r' : Reading) (c : ℕ) (s : List ℕ)
    → step_at r.place r c ≡ some r'
    → read_from r (c ∷ s) ≡ read_from r' s
unfolding read_from
read_step r r' c s h = ground arith

abbrev at : Place → List (List (List ℕ)) → List (List ℕ) → List ℕ → Reading
at p lines cells cell = record { place = p; lines = lines; cells = cells; cell = cell }

module _ (lines : List (List (List ℕ))) (cells : List (List ℕ)) where
  step-quoted :
      (c : ℕ) (cell rest : List ℕ)
      → (c == 34) ≡ false
      → read_from (at quoted lines cells cell) (c ∷ rest)
        ≡ read_from (at quoted lines cells (cell ++ c ∷ [])) rest
  unfolding read_from step_at
  step-quoted c cell rest h = ground arith

  -- Inside quotes, the doubled text is read as the text.
  read-double_quotes :
      (s cell rest : List ℕ)
      → read_from (at quoted lines cells cell) (double_quotes s ++ rest)
        ≡ read_from (at quoted lines cells (cell ++ s)) rest
  unfolding double_quotes read_from step_at
  read-double_quotes [] cell rest = rw append-nil refl
  read-double_quotes (c ∷ s) cell rest = elim (Bool-cases (c == 34)) [
    | inl quote ↦
        let same = ==→eq c 34 quote in
        rw quote (
          read-double_quotes s (cell ++ 34 ∷ []) rest
          ∙ rw (same, append_assoc cell (34 ∷ []) s) refl)
    | inr other ↦ rw other (
        step-quoted c cell _ other
        ∙ read-double_quotes s (cell ++ c ∷ []) rest
        ∙ rw (append_assoc cell (c ∷ []) s) refl)
  ]

  -- A character that is not special is kept outside quotes.
  step-kept :
      (c : ℕ) (p : Place) (cell rest : List ℕ)
      → (p ≡ start) ⊎ (p ≡ plain)
      → is_special c ≡ false
      → read_from (at p lines cells cell) (c ∷ rest)
        ≡ read_from (at plain lines cells (cell ++ c ∷ [])) rest
  unfolding read_from step_at step_plain
  step-kept c p cell rest from h = ground arith

  -- Outside quotes, a text without special characters is read as it is.
  read_plain :
      (s cell rest : List ℕ) (p : Place)
      → (p ≡ start) ⊎ (p ≡ plain)
      → any_special s ≡ false
      → (q : Place) × ((q ≡ start) ⊎ (q ≡ plain))
        × (read_from (at p lines cells cell) (s ++ rest)
            ≡ read_from (at q lines cells (cell ++ s)) rest)
  unfolding any_special
  read_plain [] cell rest p from h = (p, from, rw append-nil refl)
  read_plain (c ∷ s) cell rest p from h =
      let (q, after, same) = read_plain s (cell ++ c ∷ []) rest plain (inr refl) (ground arith) in
      (
        q,
        after,
        step-kept c p cell _ from (ground arith) ∙ same ∙ rw (append_assoc cell (c ∷ []) s) refl,
      )

  -- Where the reader may be behind a cell.
  data IsOver : Place → Type 0 where
    at_start : IsOver start
    at_plain : IsOver plain
    at_closing : IsOver closing

  read-comma :
      {q : Place} (cell rest : List ℕ)
      → IsOver q
      → read_from (at q lines cells cell) (44 ∷ rest)
        ≡ read_from (at start lines (cells ++ cell ∷ []) []) rest
  unfolding read_from step_at step_plain
  read-comma cell rest at_start = refl
  read-comma cell rest at_plain = refl
  read-comma cell rest at_closing = refl

  read_end :
      {q : Place} (cell rest : List ℕ)
      → IsOver q
      → read_from (at q lines cells cell) (13 ∷ 10 ∷ rest)
        ≡ read_from (at start (lines ++ (cells ++ cell ∷ []) ∷ []) [] []) rest
  unfolding read_from step_at step_plain
  read_end cell rest at_start = refl
  read_end cell rest at_plain = refl
  read_end cell rest at_closing = refl

  plain-IsOver : (q : Place) → (q ≡ start) ⊎ (q ≡ plain) → IsOver q
  plain-IsOver q (inl e) = rw e at_start
  plain-IsOver q (inr e) = rw e at_plain

  open-quote :
      (rest : List ℕ)
      → read_from (at start lines cells []) (34 ∷ rest) ≡ read_from (at quoted lines cells []) rest
  unfolding read_from step_at
  open-quote rest = refl

  close-quote :
      (cell rest : List ℕ)
      → read_from (at quoted lines cells cell) (34 ∷ rest)
        ≡ read_from (at closing lines cells cell) rest
  unfolding read_from step_at
  close-quote cell rest = refl

  read-quote_cell :
      (s rest : List ℕ)
      → (q : Place) × IsOver q
        × (read_from (at start lines cells []) (quote_cell s ++ rest)
            ≡ read_from (at q lines cells s) rest)
  unfolding quote_cell
  read-quote_cell s rest = elim (Bool-cases (any_special s)) [
    | inr free ↦
        let (q, over, same) = read_plain s [] rest start (inl refl) free in
        (q, plain-IsOver q over, rw free same)
    | inl special ↦ (
      closing,
      at_closing,
      rw (special, append_assoc (double_quotes s) (34 ∷ []) rest)
          (open-quote (double_quotes s ++ 34 ∷ rest)
            ∙ read-double_quotes s [] (34 ∷ rest)
            ∙ close-quote s rest),
    )
  ]

-- No line is without a cell.
abbrev pub all_full : List (List Value) → Bool
all_full [] = true
all_full ([] ∷ rows) = false
all_full ((v ∷ vs) ∷ rows) = all_full rows

module _ (str_float : Float → List ℕ) where
  abbrev texts : List Value → List (List ℕ)
  texts [] = []
  texts (v ∷ vs) = cell_text str_float v ∷ texts vs

  abbrev pub text_rows : List (List Value) → List (List (List ℕ))
  text_rows [] = []
  text_rows (row ∷ rows) = texts row ∷ text_rows rows

  read-join_cells :
      (v : Value) (vs : List Value) (lines : List (List (List ℕ))) (cells : List (List ℕ))
      (rest : List ℕ)
      → read_from (at start lines cells []) (join_cells str_float (v ∷ vs) ++ 13 ∷ 10 ∷ rest)
        ≡ read_from (at start (lines ++ (cells ++ texts (v ∷ vs)) ∷ []) [] []) rest
  unfolding join_cells csv_cell
  read-join_cells v [] lines cells rest =
      let (q, over, same) = read-quote_cell lines cells (cell_text str_float v) (13 ∷ 10 ∷ rest) in
      same ∙ read_end lines cells (cell_text str_float v) rest over
  read-join_cells v (w ∷ vs) lines cells rest =
      let cell = cell_text str_float v in
      let others = join_cells str_float (w ∷ vs) in
      let (q, over, same) = read-quote_cell lines cells cell (44 ∷ (others ++ 13 ∷ 10 ∷ rest)) in
      rw (append_assoc (csv_cell str_float v) (44 ∷ others) (13 ∷ 10 ∷ rest)) (
        same
        ∙ read-comma lines cells cell _ over
        ∙ read-join_cells w vs lines (cells ++ cell ∷ []) rest
        ∙ rw (append_assoc cells (cell ∷ []) (texts (w ∷ vs))) refl)

  read-csv_lines :
      (rows : List (List Value)) (lines : List (List (List ℕ)))
      → all_full rows ≡ true
      → read_from (at start lines [] []) (csv_lines str_float rows)
        ≡ some (at start (lines ++ text_rows rows) [] [])
  unfolding csv_lines csv_line read_from
  read-csv_lines [] lines h = rw append-nil refl
  read-csv_lines ([] ∷ rows) lines h = cc
  read-csv_lines ((v ∷ vs) ∷ rows) lines h =
      let row = join_cells str_float (v ∷ vs) in
      rw (append_assoc row (13 ∷ 10 ∷ []) (csv_lines str_float rows)) (
        read-join_cells v vs lines [] (csv_lines str_float rows)
        ∙ read-csv_lines rows (lines ++ texts (v ∷ vs) ∷ []) h
        ∙ rw (append_assoc lines (texts (v ∷ vs) ∷ []) (text_rows rows)) refl)

  -- A CSV reader, which refuses a bare quote, carriage return or line feed in a cell without quotes,
  -- gets back every cell of every line that was written, as its text, whatever commas, quotes and line
  -- ends the texts have; no line is without a cell.
  pub read_csv-csv_lines :
      (rows : List (List Value))
      → all_full rows ≡ true
      → read_csv (csv_lines str_float rows) ≡ some (text_rows rows)
  unfolding read_csv finished
  read_csv-csv_lines rows h = rw (read-csv_lines rows [] h) refl

abbrev has_code : ℕ → List ℕ → Bool
has_code c [] = false
has_code c (x ∷ xs) = (c == x) || has_code c xs

-- The first character that is not a space, a tab, a carriage return or a line feed.
abbrev first_visible : List ℕ → Option ℕ
first_visible [] = none
first_visible (c ∷ s) =
    let later = first_visible s in if has_code c (32 ∷ 9 ∷ 13 ∷ 10 ∷ []) then later else some c

-- A spreadsheet runs a text whose first visible character is one of = + - @.
abbrev pub runs : List ℕ → Bool
runs s = elim (first_visible s) [ none ↦ false | some c ↦ has_code c (61 ∷ 43 ∷ 45 ∷ 64 ∷ []) ]

runs-is_formula : (s : List ℕ) → is_formula s ≡ runs s
unfolding is_formula
runs-is_formula [] = refl
runs-is_formula (c ∷ s) = ground (arith, runs-is_formula s)

module _ (str_float : Float → List ℕ) where
  -- No text is written that a spreadsheet runs: behind spaces, tabs and line ends, no text cell
  -- begins with = + - or @. A text is written unchanged, or it would be run and stands behind an
  -- apostrophe.
  pub cell_text-IsSafe :
      (s : List ℕ)
      → (runs (cell_text str_float (word s)) ≡ false)
        × ((cell_text str_float (word s) ≡ s)
            ⊎ ((runs s ≡ true) × (cell_text str_float (word s) ≡ 39 ∷ s)))
  unfolding cell_text
  cell_text-IsSafe s = elim (Bool-cases (is_formula s)) [
    | inl formula ↦ (rw formula refl, inr (sym (runs-is_formula s) ∙ formula, rw formula refl))
    | inr harmless ↦ (rw harmless (sym (runs-is_formula s) ∙ harmless), inl (rw harmless refl))
  ]
