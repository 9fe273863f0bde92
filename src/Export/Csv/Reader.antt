-- ===== src/Export/Csv/Reader.antt =====
-- A reader of CSV files as RFC 4180 describes them, independent of the program: what any other
-- program sees in an exported file.
use hass_geofence_journal.Prelude.{
  ℕ, Option, none, some, List, [], ◌∷◌, ◌++◌, ◌==◌, ◌||◌, if◌then◌else◌,
}

-- Where the reader is: at the start of a cell, in a plain one, in a quoted one, behind a quote in a
-- quoted one, behind the carriage return of a line.
pub data Place : Type 0 where
  start plain quoted closing turned : Place

-- The lines that are complete, the cells of the current line, and the current cell.
pub record Reading : Type 0 where
  pub place : Place
  pub lines : List (List (List ℕ))
  pub cells : List (List ℕ)
  pub cell : List ℕ

abbrev pub keep : Reading → ℕ → Place → Reading
keep r c p = record r { cell = r.cell ++ c ∷ []; place = p }

abbrev pub end_cell : Reading → Place → Reading
end_cell r p = record r { cells = r.cells ++ r.cell ∷ []; cell = []; place = p }

abbrev pub end_line : Reading → Reading
end_line r = record r { lines = r.lines ++ r.cells ∷ []; cells = []; place = start }

-- A character outside quotes: a bare line feed and a quote within the cell are refused.
unfoldable pub step_plain : Reading → ℕ → Option Reading
step_plain r c =
    if c == 44
    then some (end_cell r start)
    else if c == 13
    then some (end_cell r turned)
    else if (c == 10) || (c == 34)
    then none
    else some (keep r c plain)

unfoldable pub step_at : Place → Reading → ℕ → Option Reading
step_at start r c = if c == 34 then some (record r { place = quoted }) else step_plain r c
step_at plain r c = step_plain r c
step_at quoted r c = if c == 34 then some (record r { place = closing }) else some (keep r c quoted)
step_at closing r c =
    if c == 34
    then some (keep r 34 quoted)
    else if c == 44
    then some (end_cell r start)
    else if c == 13
    then some (end_cell r turned)
    else none
step_at turned r c = if c == 10 then some (end_line r) else none

unfoldable pub read_from : Reading → List ℕ → Option Reading
read_from r [] = some r
read_from r (c ∷ s) = elim (step_at r.place r c) [ none ↦ none | some r' ↦ read_from r' s ]

abbrev pub begin : Reading
begin = record { place = start; lines = []; cells = []; cell = [] }

-- The lines of a file that ends with its last line.
unfoldable pub finished : Option Reading → Option (List (List (List ℕ)))
finished (some r) = elim r.place [ start ↦ some r.lines | _ ↦ none ]
finished none = none

unfoldable pub read_csv : List ℕ → Option (List (List (List ℕ)))
read_csv s = finished (read_from begin s)
