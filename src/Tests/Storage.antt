-- ===== src/Tests/Storage.antt =====
-- A confirmation of an arrival in the test database, made twice.
use hass_geofence_journal.Prelude.{◌≡◌, refl, true, false, none, some, [], ◌∷◌}
use hass_geofence_journal.Errors.{ok}
use hass_geofence_journal.Models.{inside, outside, enter, gps}
use hass_geofence_journal.Float.{of_ℕ, neg_of_ℕ}
use hass_geofence_journal.Storage.Records.{RuntimeStateRecord, ConfirmedTransition, no_nan}
use hass_geofence_journal.Storage.Tables.{
  runtime_row_ok, max_accuracy, find_transition, event_row_ok,
}
use hass_geofence_journal.Storage.Sql.{
  Connection, ◌>>=◌, query, transaction, begin_immediate, write, pure,
}
use hass_geofence_journal.Storage.Sql.Laws.{IsAtomic}
use hass_geofence_journal.Storage.RuntimeState.{runtime_row, decode}
use hass_geofence_journal.Storage.RuntimeState.RoundTrip.{decode-runtime_row}
use hass_geofence_journal.Storage.Transitions.{is_fault, confirm_transition, transition_event}
use hass_geofence_journal.Storage.Transitions.Atomicity.{
  Confirms, confirm_transition-IsAtomic, confirm_once,
}
use hass_geofence_journal.Tests.Data.{home, home_tables}

-- Fails at the third statement, which is the insertion of the event.
abbrev shaky : Connection
shaky = record { tables = home_tables; before = none; faults = false ∷ false ∷ true ∷ [] }

abbrev calm : Connection
calm = record { tables = home_tables; before = none; faults = [] }

abbrev at_home : RuntimeStateRecord
at_home = record {
  rule_id = 1;
  presence_state = inside;
  last_event_id = none;
  last_event_type = none;
  last_event_at = none;
  enter_cooldown_until = some 380;
  exit_cooldown_until = none;
  pending_transition = some outside;
  pending_started_at = some 70;
  pending_deadline = some 80;
  pending_generation = 1;
  latest_observation_at = some 20;
  latest_coordinates = some home;
  latest_accuracy_m = some (of_ℕ 5);
  last_processed_at = some 20;
  updated_at = 80;
}

abbrev arrival : ConfirmedTransition
arrival = record {
  event_id = 9;
  rule_id = 1;
  tracker_id = 2;
  place_id = 3;
  journal_id = 4;
  event_type = enter;
  source = gps;
  target_state = inside;
  occurred_at = 20;
  confirmed_at = 80;
  generation = 1;
  confirmed_deadline = 80;
  coordinates = some home;
  accuracy_m = some (of_ℕ 5);
  runtime_state = some at_home;
}

abbrev again : ConfirmedTransition
again = record arrival { event_id = 10; confirmed_at = 90 }

decode-runtime_row_example : decode (runtime_row at_home) ≡ ok at_home
unfolding no_nan of_ℕ runtime_row_ok runtime_row neg_of_ℕ max_accuracy
decode-runtime_row_example = decode-runtime_row home_tables at_home refl refl

confirm_transition-IsAtomic_example :
    IsAtomic is_fault (Confirms arrival) shaky (confirm_transition arrival false shaky)
confirm_transition-IsAtomic_example = confirm_transition-IsAtomic arrival false shaky refl

recorded : Connection
recorded = (confirm_transition arrival false calm).1

made :
    confirm_transition arrival false calm ≡ (ok (record { event_id = 9; created = true }), recorded)
unfolding confirm_transition ◌>>=◌ query find_transition transaction begin_immediate write
    event_row_ok transition_event pure runtime_row_ok runtime_row of_ℕ neg_of_ℕ max_accuracy
    recorded
made = refl

confirm_once_example :
    confirm_transition again false recorded
    ≡ (ok (record { event_id = 9; created = false }), recorded)
unfolding recorded confirm_transition ◌>>=◌ query find_transition transaction begin_immediate write
    event_row_ok transition_event pure runtime_row_ok runtime_row of_ℕ neg_of_ℕ max_accuracy
confirm_once_example =
    confirm_once arrival again false calm recorded (record { event_id = 9; created = true }) refl
      made refl refl refl refl
