-- ===== src/Export/Rows.antt =====
-- custom_components/geofence_journal/export.py: the request, the rows of one journal, and the file.
pub mod Selected
pub mod Written
use hass_geofence_journal.Prelude.{
  ℕ, suc, zero, String, Bool, true, false, ◌&&◌, ◌||◌, Option, none, some, List, [], ◌∷◌, ◌++◌, ltb,
  leb, ◌==◌, if◌then◌else◌, length,
}
use hass_geofence_journal.Errors.{Result, ok, err, os_error}
use hass_geofence_journal.Exec.{Exec, done, ◌>>=◌, ◌>>◌}
use hass_geofence_journal.Float.{Float}
use hass_geofence_journal.Text.{codes}
use hass_geofence_journal.Models.{
  LocationEventType, enter, exit, LocationSource, gps, ha_zone, EventStatus, confirmed, excluded,
}
use hass_geofence_journal.Location.{Datetime, naive, aware}
use hass_geofence_journal.Storage.Records.{EventRow}
use hass_geofence_journal.Storage.Tables.{Tables, TrackerRow, PlaceRow, JournalRow, find}
use hass_geofence_journal.Storage.Sql.{Sql, query, fails, later}
use hass_geofence_journal.Export.Csv.{Value, null, word, real, csv_line}

pub record ExportRequest : Type 0 where
  pub journal_id : ℕ
  pub start_at : Option ℕ
  pub end_at : Option ℕ
  pub include_coordinates : Bool

-- `normalize_filter_time`; the outer `none` is the refusal of a naive time.
abbrev pub normalize_filter_time : Option Datetime → Option (Option ℕ)
normalize_filter_time none = some none
normalize_filter_time (some (naive _)) = none
normalize_filter_time (some (aware t)) = some (some t)

-- `ordered_interval`
abbrev pub ordered_interval : Option ℕ → Option ℕ → Bool
ordered_interval (some a) (some b) = leb a b
ordered_interval _ _ = true

-- The validators of ExportRequest; `none` is a ValidationError.
unfoldable pub export_request : ℕ → Option Datetime → Option Datetime → Bool → Option ExportRequest
export_request journal_id start_at end_at include_coordinates =
    elim (normalize_filter_time start_at) [
      | none ↦ none
      | some from ↦ elim (normalize_filter_time end_at) [
        | none ↦ none
        | some till ↦
            if ordered_interval from till
            then some (record {
              journal_id = journal_id;
              start_at = from;
              end_at = till;
              include_coordinates = include_coordinates;
            })
            else none
      ]
    ]

-- A row of the join.
pub record Joined : Type 0 where
  pub event : EventRow
  pub journal_name : String
  pub tracker_name : String
  pub place_name : String

unfoldable pub join_event : Tables → EventRow → Option Joined
join_event t e = elim (find (λ (x : JournalRow). x.id) e.journal_id t.journals) [
  | none ↦ none
  | some j ↦ elim (find (λ (x : TrackerRow). x.id) e.tracker_id t.trackers) [
    | none ↦ none
    | some k ↦ elim (find (λ (x : PlaceRow). x.id) e.place_id t.places) [
      | none ↦ none
      | some p ↦ some (record {
        event = e;
        journal_name = j.name;
        tracker_name = k.display_name;
        place_name = p.name;
      })
    ]
  ]
]

-- (? IS NULL OR e.occurred_at>=?), and so for the end.
abbrev pub from_start : Option ℕ → ℕ → Bool
from_start none t = true
from_start (some a) t = leb a t

abbrev pub till_end : Option ℕ → ℕ → Bool
till_end none t = true
till_end (some b) t = leb t b

-- The WHERE of the query.
unfoldable pub is_selected : ExportRequest → EventRow → Bool
is_selected r e =
    (e.journal_id == r.journal_id)
    && from_start r.start_at e.occurred_at
    && till_end r.end_at e.occurred_at

unfoldable pub joined : Tables → ExportRequest → List EventRow → List Joined
joined t r [] = []
joined t r (e ∷ events) =
    let rest = joined t r events in
    if is_selected r e then elim (join_event t e) [ none ↦ rest | some x ↦ x ∷ rest ] else rest

-- ORDER BY e.occurred_at,e.id
unfoldable pub not_after : Joined → Joined → Bool
not_after a b =
    ltb a.event.occurred_at b.event.occurred_at
    || (a.event.occurred_at == b.event.occurred_at && leb a.event.id b.event.id)

unfoldable pub insert_row : Joined → List Joined → List Joined
insert_row x [] = x ∷ []
insert_row x (y ∷ ys) = let rest = insert_row x ys in if not_after x y then x ∷ y ∷ ys else y ∷ rest

unfoldable pub sort_rows : List Joined → List Joined
sort_rows [] = []
sort_rows (x ∷ xs) = insert_row x (sort_rows xs)

unfoldable pub export_rows : ExportRequest → Tables → List Joined
export_rows r t = sort_rows (joined t r t.events)

abbrev pub event_type_value : LocationEventType → String
event_type_value LocationEventType.enter = "enter"
event_type_value LocationEventType.exit = "exit"
event_type_value LocationEventType.manual = "manual"

abbrev pub source_value : LocationSource → String
source_value LocationSource.gps = "gps"
source_value LocationSource.ha_zone = "ha_zone"
source_value LocationSource.manual = "manual"

abbrev pub status_value : EventStatus → String
status_value EventStatus.confirmed = "confirmed"
status_value EventStatus.excluded = "excluded"

abbrev pub text_value : String → Value
text_value s = word (codes s)

abbrev pub real_value : Option Float → Value
real_value none = null
real_value (some x) = real x

unfoldable pub take {ℓ} : {A : Type ℓ} → ℕ → List A → List A
take zero xs = []
take (suc n) [] = []
take (suc n) (x ∷ xs) = x ∷ take n xs

-- BASE_HEADERS and COORDINATE_HEADERS
abbrev pub base_headers : List Value
base_headers =
    text_value "event_id"
    ∷ text_value "journal_id"
    ∷ text_value "journal_name"
    ∷ text_value "rule_id"
    ∷ text_value "tracker_id"
    ∷ text_value "tracker_name"
    ∷ text_value "place_id"
    ∷ text_value "place_name"
    ∷ text_value "event_type"
    ∷ text_value "occurred_at"
    ∷ text_value "confirmed_at"
    ∷ text_value "source"
    ∷ text_value "status"
    ∷ text_value "note"
    ∷ []

abbrev pub coordinate_headers : List Value
coordinate_headers = text_value "latitude" ∷ text_value "longitude" ∷ text_value "accuracy_m" ∷ []

unfoldable pub headers : Bool → List Value
headers include = if include then base_headers ++ coordinate_headers else base_headers

-- The temporary file and the one that it replaces, and which steps fail.
pub record ExportFile : Type 0 where
  pub final : Option (List ℕ)
  pub temporary : Option (List ℕ)
  pub faults : List Bool

unfoldable pub open_temporary : Exec ExportFile (Unit {0})
open_temporary f =
    let f' = record f { faults = later f.faults } in
    if fails f.faults then (err os_error, f') else (ok tt, record f' { temporary = some [] })

unfoldable pub append_text : Option (List ℕ) → List ℕ → Option (List ℕ)
append_text none s = some s
append_text (some text) s = some (text ++ s)

unfoldable pub write_text : List ℕ → Exec ExportFile (Unit {0})
write_text s f =
    let f' = record f { faults = later f.faults } in
    if fails f.faults
    then (err os_error, f')
    else (ok tt, record f' { temporary = append_text f.temporary s })

unfoldable pub replace : Exec ExportFile (Unit {0})
replace f =
    let f' = record f { faults = later f.faults } in
    if fails f.faults
    then (err os_error, f')
    else (ok tt, record f' { final = f.temporary; temporary = none })

-- `except OSError`: the temporary file is removed, which raises OSError itself when the file is held.
unfoldable pub clean_up : Bool → Result (Unit {0}) × ExportFile → Result (Unit {0}) × ExportFile
clean_up held (ok _, f) = (ok tt, f)
clean_up true (err x, f) = (err os_error, f)
clean_up false (err x, f) = (err x, record f { temporary = none })

-- The number of rows is returned.
unfoldable pub counting : ℕ → Result (Unit {0}) × ExportFile → Result ℕ × ExportFile
counting n (ok _, f) = (ok n, f)
counting n (err x, f) = (err x, f)

-- `str_float` is `str` of a float.
module _ (str_float : Float → List ℕ) where
  unfoldable pub write_lines : List (List Value) → Exec ExportFile (Unit {0})
  write_lines [] = done
  write_lines (row ∷ rows) = do write_text (csv_line str_float row); write_lines rows

  -- The `try` of `export_journal_csv`.
  unfoldable pub write_file : List (List Value) → Exec ExportFile (Unit {0})
  write_file rows = do open_temporary; write_lines rows; replace

  -- `held` says that the temporary file cannot be removed.
  unfoldable pub write_export : Bool → List (List Value) → Exec ExportFile (Unit {0})
  write_export held rows f = clean_up held (write_file rows f)

-- `str_float`, `id_text` and `time_text` are `str` of a float, of a UUID, and `utc_text`.
module _ (str_float : Float → List ℕ) (id_text time_text : ℕ → List ℕ) where
  abbrev pub optional_id : Option ℕ → Value
  optional_id none = null
  optional_id (some id) = word (id_text id)

  abbrev pub note_value : Option String → Value
  note_value none = null
  note_value (some s) = text_value s

  -- The columns of the query, in its order.
  unfoldable pub row_values : Joined → List Value
  row_values x =
      word (id_text x.event.id)
      ∷ word (id_text x.event.journal_id)
      ∷ text_value x.journal_name
      ∷ optional_id x.event.rule_id
      ∷ word (id_text x.event.tracker_id)
      ∷ text_value x.tracker_name
      ∷ word (id_text x.event.place_id)
      ∷ text_value x.place_name
      ∷ text_value (event_type_value x.event.event_type)
      ∷ word (time_text x.event.occurred_at)
      ∷ word (time_text x.event.confirmed_at)
      ∷ text_value (source_value x.event.source)
      ∷ text_value (status_value x.event.status)
      ∷ note_value x.event.note
      ∷ real_value x.event.latitude
      ∷ real_value x.event.longitude
      ∷ real_value x.event.accuracy_m
      ∷ []

  unfoldable pub exported_row : Bool → Joined → List Value
  exported_row include x = if include then row_values x else take 14 (row_values x)

  unfoldable pub exported_rows : Bool → List Joined → List (List Value)
  exported_rows include [] = []
  exported_rows include (x ∷ xs) = exported_row include x ∷ exported_rows include xs

  -- `export_journal_csv`, behind the query.
  unfoldable pub export_selected : Bool → ExportRequest → List Joined → Exec ExportFile ℕ
  export_selected held request rows f =
      let include = request.include_coordinates in
      counting (length rows)
        (write_export str_float held (headers include ∷ exported_rows include rows) f)
