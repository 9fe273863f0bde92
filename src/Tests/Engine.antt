-- ===== src/Tests/Engine.antt =====
-- An engine that sees the tracker away, then at home, and confirms the arrival.
use hass_geofence_journal.Prelude.{ℕ, ◌≡◌, refl, true, [], ◌∷◌, map, arith}
use mathlib.Core.List.{Memᴰ}
use hass_geofence_journal.Models.{inside, outside, LocationEventType, enter, add_seconds}
use hass_geofence_journal.Float.{of_ℕ, neg_of_ℕ}
use hass_geofence_journal.Location.{accepted}
use hass_geofence_journal.Storage.Records.{EventRow}
use hass_geofence_journal.Storage.Tables.{find, event_row_ok, runtime_row_ok, max_accuracy}
use hass_geofence_journal.Storage.RuntimeState.{decode_row, save_runtime_state, runtime_row}
use hass_geofence_journal.Runtime.Contracts.{RuntimeStorage}
use hass_geofence_journal.Runtime.SqliteStore.{sqlite_store, stored}
use hass_geofence_journal.Runtime.Action.{
  Engine, ScheduledCall, Notification, cancel, cancel_scheduled, forget_scheduled, put_state,
  schedule, on_transition, raise,
}
use hass_geofence_journal.Runtime.Engine.{
  async_observe, deadline_callback, async_recover, in_cooldown, save, is_stale, replace_state,
  utc_now, is_pending, commit, pending_state, next_id, confirm_locked,
}
use hass_geofence_journal.Runtime.Soundness.{IsSound}
use hass_geofence_journal.Runtime.Lifecycle.{new_engine, observe, fire, Reach, Reach-IsSound}
use hass_geofence_journal.Runtime.Progress.{IsHeld, IsObserved, Progress}
use hass_geofence_journal.Runtime.Progress.Methods.{
  async_observe-Progress, deadline_callback-Progress,
}
use hass_geofence_journal.Exec.{lift, pure, ◌>>=◌}
use hass_geofence_journal.Storage.Sql.{begin_immediate, query, transaction, write}
use hass_geofence_journal.Storage.Transitions.{confirm_transition, transition_event}
use hass_geofence_journal.Runtime.State.{
  baseline_state, build_confirmed_transition, confirmation_seconds, direction_cooldown,
}
use hass_geofence_journal.Runtime.Fuel.{Monotone, confirm_with, confirm_locked-nested}
use hass_geofence_journal.Runtime.Fuel.Methods.{methods_enough}
use hass_geofence_journal.Errors.{sqlite}
use hass_geofence_journal.Tests.Data.{home_rule, home_tables, sample, at_second}

abbrev store : RuntimeStorage
store = sqlite_store []

abbrev start : Engine store.Db
unfolding sqlite_store
start = new_engine store home_rule home_tables

abbrev away : Engine store.Db
unfolding sqlite_store async_observe
away = (async_observe store home_rule (at_second 10) 2 (accepted (sample outside 10)) start).1

at_home : Engine store.Db
unfolding sqlite_store async_observe
at_home = (async_observe store home_rule (at_second 20) 2 (accepted (sample inside 20)) away).1

-- The call that the engine has scheduled.
abbrev deadline : ScheduledCall
deadline = record { handle = 0; generation = 1; delay = 60000000 }

arrived : Engine store.Db
unfolding sqlite_store deadline_callback
arrived =
    (deadline_callback store home_rule (at_second 80) 2 1
      (record at_home { calls = cancel 0 at_home.calls })).1

-- The arrival is one event, of that moment, and the observer was told.
arrived_test :
    (map {B = ℕ × LocationEventType × ℕ × ℕ}
        (λ (r : EventRow). (r.id, r.event_type, r.occurred_at, r.confirmed_at))
        (store.events arrived.db)
      ≡ (80, enter, 20000000, 80000000) ∷ [])
    × (map (λ (n : Notification). n.result) arrived.notified
        ≡ record { event_id = 80; created = true } ∷ [])
unfolding at_home arrived lift pure ◌>>=◌ of_ℕ neg_of_ℕ max_accuracy runtime_row_ok event_row_ok
    write query begin_immediate transaction runtime_row save_runtime_state transition_event
    confirm_transition baseline_state confirmation_seconds direction_cooldown
    build_confirmed_transition put_state forget_scheduled cancel_scheduled schedule on_transition
    is_stale is_pending in_cooldown pending_state utc_now next_id save commit replace_state
    new_engine
arrived_test = (refl, refl)

start-IsSound : IsSound store home_rule start
unfolding sqlite_store start new_engine stored decode_row find
start-IsSound = record { memory = tt; stored = tt }

live : Memᴰ deadline at_home.calls
unfolding at_home lift ◌>>=◌ of_ℕ neg_of_ℕ max_accuracy runtime_row_ok write begin_immediate
    transaction runtime_row save_runtime_state baseline_state confirmation_seconds put_state
    cancel_scheduled schedule is_stale is_pending pending_state utc_now save replace_state
    new_engine add_seconds
live = Memᴰ.head refl

Reach-IsSound_example : IsSound store home_rule arrived
unfolding sqlite_store start away at_home arrived of_ℕ
Reach-IsSound_example =
    Reach-IsSound store home_rule
      (Reach.next
        (Reach.next
          (Reach.next Reach.here
            (observe start (at_second 10) 2 (accepted (sample outside 10)) refl))
          (observe away (at_second 20) 2 (accepted (sample inside 20)) refl))
        (fire at_home (at_second 80) 2 deadline live))
      start-IsSound

async_observe-Progress_example :
    Progress store home_rule
      (at_second 10)
      (IsObserved store home_rule (at_second 10) start)
      start
      (async_observe store home_rule (at_second 10) 2 (accepted (sample outside 10)) start).1
async_observe-Progress_example =
    async_observe-Progress store home_rule (at_second 10) 2 (accepted (sample outside 10)) start

deadline_callback-Progress_example :
    Progress store home_rule
      (at_second 80)
      (IsHeld store home_rule (at_second 80) at_home)
      at_home
      (deadline_callback store home_rule (at_second 80) 2 1 at_home).1
deadline_callback-Progress_example =
    deadline_callback-Progress store home_rule (at_second 80) 2 1 at_home

-- The test clock stands still.
still : (second : ℕ) → Monotone (at_second second)
still second i j h = omega arith

confirm_locked-nested_example :
    confirm_locked store home_rule (at_second 80) 3 1 at_home
    ≡ confirm_with store home_rule
        (at_second 80)
        (confirm_with store home_rule (at_second 80) (λ n. raise sqlite))
        1
        at_home
confirm_locked-nested_example =
    confirm_locked-nested store home_rule (at_second 80) (λ n. raise sqlite) 1 1 at_home (still 80)

methods_enough_example :
    (async_observe store home_rule (at_second 80) 5 (accepted (sample inside 70)) at_home
      ≡ async_observe store home_rule (at_second 80) 2 (accepted (sample inside 70)) at_home)
    × (deadline_callback store home_rule (at_second 80) 5 1 at_home
        ≡ deadline_callback store home_rule (at_second 80) 2 1 at_home)
    × (async_recover store home_rule (at_second 80) 5 at_home
        ≡ async_recover store home_rule (at_second 80) 2 at_home)
methods_enough_example =
    methods_enough store home_rule (at_second 80) (still 80) 3 (accepted (sample inside 70)) 1
      at_home
