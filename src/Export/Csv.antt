-- ===== src/Export/Csv.antt =====
-- custom_components/geofence_journal/export.py: the cells and lines of the CSV file, as code points.
pub mod Reader
pub mod RoundTrip
use hass_geofence_journal.Prelude.{
  ℕ, Bool, true, false, ◌||◌, List, [], ◌∷◌, ◌++◌, ◌==◌, if◌then◌else◌,
}
use hass_geofence_journal.Float.{Float}

-- `SQLiteValue`, as the exported columns have it: NULL, a text, or a REAL.
pub data Value : Type 0 where
  null : Value
  word : List ℕ → Value
  real : Float → Value

-- One of the characters of " \t\r\n".
abbrev pub is_blank : ℕ → Bool
is_blank c = (c == 32) || (c == 9) || (c == 13) || (c == 10)

-- One of SPREADSHEET_FORMULA_PREFIXES, = + - @
abbrev pub is_prefix : ℕ → Bool
is_prefix c = (c == 61) || (c == 43) || (c == 45) || (c == 64)

-- `value.lstrip(" \t\r\n").startswith(SPREADSHEET_FORMULA_PREFIXES)`
unfoldable pub is_formula : List ℕ → Bool
is_formula [] = false
is_formula (c ∷ s) = let rest = is_formula s in if is_blank c then rest else is_prefix c

-- One of the characters , " \r \n
abbrev pub is_special : ℕ → Bool
is_special c = (c == 44) || (c == 34) || (c == 13) || (c == 10)

unfoldable pub any_special : List ℕ → Bool
any_special [] = false
any_special (c ∷ s) = is_special c || any_special s

-- `text.replace('"', '""')`
unfoldable pub double_quotes : List ℕ → List ℕ
double_quotes [] = []
double_quotes (c ∷ s) = let rest = double_quotes s in if c == 34 then 34 ∷ 34 ∷ rest else c ∷ rest

unfoldable pub quote_cell : List ℕ → List ℕ
quote_cell s = if any_special s then 34 ∷ (double_quotes s ++ 34 ∷ []) else s

-- `str_float` is `str` of a float.
module _ (str_float : Float → List ℕ) where
  -- The text of a cell: a text that a spreadsheet would run is put behind an apostrophe.
  unfoldable pub cell_text : Value → List ℕ
  cell_text null = []
  cell_text (word s) = if is_formula s then 39 ∷ s else s
  cell_text (real x) = str_float x

  -- `_csv_cell`
  unfoldable pub csv_cell : Value → List ℕ
  csv_cell v = quote_cell (cell_text v)

  -- `",".join`
  unfoldable pub join_cells : List Value → List ℕ
  join_cells [] = []
  join_cells (v ∷ []) = csv_cell v
  join_cells (v ∷ w ∷ vs) = csv_cell v ++ 44 ∷ join_cells (w ∷ vs)

  -- `_csv_line`
  unfoldable pub csv_line : List Value → List ℕ
  csv_line values = join_cells values ++ 13 ∷ 10 ∷ []

  -- The lines that are written, one after the other.
  unfoldable pub csv_lines : List (List Value) → List ℕ
  csv_lines [] = []
  csv_lines (values ∷ rows) = csv_line values ++ csv_lines rows
