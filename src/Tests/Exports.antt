-- ===== src/Tests/Exports.antt =====
-- A small export, and a registry with one download.
use hass_geofence_journal.Prelude.{
  ℕ, ◌+◌, ◌≡◌, refl, true, false, ◌&&◌, ◌⊎◌, none, some, List, [], ◌∷◌, arith, ◌==◌,
}
use hass_geofence_journal.Float.{Float, of_ℕ}
use hass_geofence_journal.Text.{codes}
use hass_geofence_journal.Models.{EventStatus, LocationEventType, LocationSource}
use hass_geofence_journal.Storage.Records.{EventRow}
use hass_geofence_journal.Storage.Tables.{Tables, find}
use hass_geofence_journal.Storage.Maintenance.{count_if}
use hass_geofence_journal.Export.Csv.{Value, word, null, real, cell_text, csv_lines, is_formula}
use hass_geofence_journal.Export.Csv.Reader.{read_csv}
use hass_geofence_journal.Export.Csv.RoundTrip.{read_csv-csv_lines, runs, cell_text-IsSafe}
use hass_geofence_journal.Export.Rows.{
  ExportRequest, Joined, ExportFile, export_rows, exported_rows, export_selected, join_event,
}
use hass_geofence_journal.Export.Rows.Selected.{
  ordered, moved_tables, wanted, export_rows-exact, export_rows-private,
}
use hass_geofence_journal.Export.Rows.Written.{IsExported, export_selected-IsExported}
use hass_geofence_journal.Export.Registry.{
  ExportArtifact, FileName, csv, Registry, resolve, cleanup_expired,
}
use hass_geofence_journal.Export.Registry.Expiry.{
  IsResolved, all_current, Survives, resolve-IsResolved, cleanup_expired-exact,
}
use hass_geofence_journal.Tests.Data.{home_tables}

abbrev number : Float → List ℕ
number x = codes "37.0"

abbrev id_text : ℕ → List ℕ
id_text n = (48 + n) ∷ []

abbrev time_text : ℕ → List ℕ
time_text n = codes "2024-01-01T00:00:00.000000Z"

-- A text with a comma, quotes and a line end, a number and a missing value.
abbrev lines : List (List Value)
lines = (word (codes "a,\"b\"\r\n") ∷ real (of_ℕ 37) ∷ null ∷ []) ∷ (word (codes "=1+1") ∷ []) ∷ []

read_csv-csv_lines_example :
    read_csv (csv_lines number lines)
    ≡ some ((codes "a,\"b\"\r\n" ∷ codes "37.0" ∷ [] ∷ []) ∷ (codes "'=1+1" ∷ []) ∷ [])
unfolding cell_text is_formula
read_csv-csv_lines_example = read_csv-csv_lines number lines refl

cell_text-IsSafe_example :
    (runs (cell_text number (word (codes " @sum"))) ≡ false)
    × ((cell_text number (word (codes " @sum")) ≡ codes " @sum")
        ⊎ ((runs (codes " @sum") ≡ true)
            × (cell_text number (word (codes " @sum")) ≡ codes "' @sum")))
cell_text-IsSafe_example = cell_text-IsSafe number (codes " @sum")

abbrev event : EventRow
event = record {
  id = 9;
  journal_id = 4;
  rule_id = none;
  tracker_id = 2;
  place_id = 3;
  event_type = LocationEventType.manual;
  occurred_at = 50;
  confirmed_at = 60;
  latitude = some (of_ℕ 37);
  longitude = some (of_ℕ 127);
  accuracy_m = none;
  source = LocationSource.manual;
  status = EventStatus.confirmed;
  note = none;
  original_event_id = none;
  transition_generation = none;
  confirmed_deadline = none;
  created_at = 60;
  updated_at = 60;
}

abbrev tables : Tables
tables = record home_tables { events = event ∷ [] }

abbrev request : ExportRequest
request = record { journal_id = 4; start_at = some 50; end_at = none; include_coordinates = false }

export_rows-exact_example :
    (ordered (export_rows request tables) ≡ true)
    × (count_if (λ (x : Joined). x.event.id == 9) (export_rows request tables)
        ≡ count_if (λ (e : EventRow). wanted request e && (e.id == 9)) tables.events)
unfolding join_event find
export_rows-exact_example = export_rows-exact request tables (λ e. e.id == 9) refl

export_rows-private_example :
    exported_rows number id_text time_text false
      (export_rows request (moved_tables (λ e. (none, none, none)) tables))
    ≡ exported_rows number id_text time_text false (export_rows request tables)
export_rows-private_example =
    export_rows-private (λ e. (none, none, none)) number id_text time_text request tables

abbrev file : ExportFile
file = record { final = none; temporary = none; faults = false ∷ false ∷ true ∷ [] }

export_selected-IsExported_example :
    IsExported number id_text time_text false request
      (export_rows request tables)
      none
      (export_selected number id_text time_text false request (export_rows request tables) file)
export_selected-IsExported_example =
    export_selected-IsExported number id_text time_text false request (export_rows request tables)
      file

abbrev export_id : List ℕ
export_id = codes "0123456789abcdef0123456789abcdef"

abbrev path : FileName
path = record { stem = export_id; suffix = csv }

abbrev artifact : ExportArtifact
artifact = record { export_id = export_id; path = path; created_at = 0; expires_at = 86400000000 }

abbrev registry : Registry
registry = record {
  artifacts = artifact ∷ [];
  directory = some (record { name = path; is_file = true } ∷ []);
}

resolve-IsResolved_example : IsResolved export_id 7 registry (resolve export_id 7 registry)
resolve-IsResolved_example = resolve-IsResolved export_id 7 registry

-- A second artifact, which is expired at 7.
abbrev two_artifacts : Registry
two_artifacts = record registry {
  artifacts =
      artifact
      ∷ record {
        export_id = codes "f";
        path = record path { stem = codes "f" };
        created_at = 0;
        expires_at = 5;
      }
      ∷ [];
}

cleanup_expired-exact_example :
    (all_current 7 (cleanup_expired (λ n. 7) two_artifacts).1.artifacts ≡ true)
    × Survives (λ n. 7) export_id two_artifacts (cleanup_expired (λ n. 7) two_artifacts).1
cleanup_expired-exact_example =
    cleanup_expired-exact (λ n. 7) two_artifacts export_id (λ i. omega arith) refl
