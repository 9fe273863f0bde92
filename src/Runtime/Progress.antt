-- ===== src/Runtime/Progress.antt =====
-- What one call of the engine may add to the journal: nothing, or one event that is due, that the
-- re-evaluation confirmed and that lies outside its cooldown; and the observer hears of just that.
pub mod Confirm
pub mod Methods
use hass_geofence_journal.Prelude.{
  ℕ, zero, suc, ◌-◌, ◌≤◌, ◌≡◌, refl, Bool, true, false, not, Option, none, some, List, [], ◌∷◌,
  ◌++◌, inl, inr, ◌⊎◌, arith, ltb, leb, ◌==◌, if◌then◌else◌, Bool-cases,
}
use hass_geofence_journal.Errors.{Error, ok, err, Result-cases}
use hass_geofence_journal.Models.{
  LocationEventType, enter, exit, inside, outside, PresenceState, is_presence, RuleDefinition,
}
use hass_geofence_journal.Storage.Records.{
  RuntimeStateRecord, TransitionResult, ConfirmedTransition, EventRow,
}
use hass_geofence_journal.Runtime.State.{
  direction_cooldown, Pending, pending, confirmed_state, build_confirmed_transition, transition_of,
}
use hass_geofence_journal.Storage.Transitions.{transition_event}
use hass_geofence_journal.Runtime.Contracts.{RuntimeStorage, RuntimeDependencies}
use hass_geofence_journal.Runtime.Action.{
  Engine, Notification, Action, raise, lift, ◌>>=◌, ◌>>◌, done, put_state, put_accepting,
  forget_scheduled, cancel_scheduled, schedule, on_transition,
}
use hass_geofence_journal.Exec.Rules.{
  Leads, Keeps, Leads-lift_bind, Leads-bind, Leads-if, Keeps-bind, Keeps-lift_bind,
}
use hass_geofence_journal.Runtime.Engine.{
  in_cooldown, recovered_state, utc_now, next_id, load, save, delete, commit, replace_state,
  cancelled_state, restore_at, restore_pending, adopt, record_transition, settle_agreed, settle_due,
  confirm_pending, confirm_at, confirm_locked,
}

-- The transition into a presence has the event type of that direction.
pub data IsTypeOf : PresenceState → LocationEventType → Type 0 where
  entered : IsTypeOf inside enter
  left : IsTypeOf outside exit

module _ (store : RuntimeStorage) (rule : RuleDefinition) (deps : RuntimeDependencies) where
  open store use {Db}

  -- Nothing was recorded since `e₀`, and nobody was told anything.
  pub record IsQuiet (e₀ e : Engine Db) : Type 0 where
    pub same_events : store.events e.db ≡ store.events e₀.db
    pub same_notified : e.notified ≡ e₀.notified

  -- One event was recorded since `e₀`, and told to the observer: the transition `t`, built from the
  -- pending state `s`, of which `Tie` says where it comes from.
  pub record IsRecorded (Tie : RuntimeStateRecord → Type 0) (e₀ e : Engine Db) : Type 0 where
    pub s : RuntimeStateRecord
    pub t : ConfirmedTransition
    pub note : Notification
    pub appended : store.events e.db ≡ store.events e₀.db ++ transition_event t ∷ []
    pub notified : e.notified ≡ e₀.notified ++ note ∷ []
    pub told : e.state ≡ some note.state
    pub told_result : note.result ≡ record { event_id = t.event_id; created = true }
    pub told_id : note.state.last_event_id ≡ some t.event_id
    pub told_type : note.state.last_event_type ≡ some t.event_type
    pub told_at : note.state.last_event_at ≡ some t.confirmed_at
    pub told_presence : note.state.presence_state ≡ t.target_state
    pub typed : IsTypeOf t.target_state t.event_type
    pub tied : Tie s
    pub target : s.pending_transition ≡ some t.target_state
    pub started : s.pending_started_at ≡ some t.occurred_at
    pub deadline : s.pending_deadline ≡ some t.confirmed_deadline
    pub due : t.confirmed_deadline ≤ t.confirmed_at
    pub agreed : deps.async_evaluate s ≡ some t.target_state
    pub cooled : in_cooldown (direction_cooldown s t.target_state) t.confirmed_at ≡ false

  abbrev pub Progress : (RuntimeStateRecord → Type 0) → Engine Db → Engine Db → Type 0
  Progress Tie e₀ e = IsQuiet e₀ e ⊎ IsRecorded Tie e₀ e

  -- Where the pending state of a call on the engine `e` comes from: the callback confirms the state
  -- that the engine has; an observation keeps its cooldowns, its presence and its last event; and a
  -- recovery takes the stored row, with the cooldowns that have passed taken away.
  abbrev pub IsHeld : Engine Db → RuntimeStateRecord → Type 0
  IsHeld e s = e.state ≡ some s

  abbrev pub IsObserved : Engine Db → RuntimeStateRecord → Type 0
  IsObserved e s =
      (held : RuntimeStateRecord) × (e.state ≡ some held)
      × (s.presence_state ≡ held.presence_state)
      × (s.enter_cooldown_until ≡ held.enter_cooldown_until)
      × (s.exit_cooldown_until ≡ held.exit_cooldown_until)
      × (s.last_event_id ≡ held.last_event_id)

  abbrev pub IsLoaded : Engine Db → RuntimeStateRecord → Type 0
  IsLoaded e s =
      (row : RuntimeStateRecord) × (store.runtime_state e.db rule.rule_id ≡ ok (some row))
      × (s ≡ recovered_state row (deps.utc_now e.readings))

  module _ (e₀ : Engine Db) where
    abbrev pub Quiet : Engine Db → Type 0
    Quiet e = IsQuiet e₀ e

    pub done-Quiet : Keeps Quiet done
    unfolding done
    done-Quiet = record { at = λ e h. h }

    pub raise-Quiet : {A : Type 0} (x : Error) → Keeps Quiet (raise {A = A} x)
    unfolding raise
    raise-Quiet x = record { at = λ e h. h }

    pub put_state-Quiet : (s : Option RuntimeStateRecord) → Keeps Quiet (put_state s)
    unfolding put_state
    put_state-Quiet s = record { at = λ e h. ground arith }

    pub put_accepting-Quiet : (b : Bool) → Keeps Quiet (put_accepting b)
    unfolding put_accepting
    put_accepting-Quiet b = record { at = λ e h. ground arith }

    pub forget_scheduled-Quiet : Keeps Quiet forget_scheduled
    unfolding forget_scheduled
    forget_scheduled-Quiet = record { at = λ e h. ground arith }

    pub cancel_scheduled-Quiet : Keeps Quiet cancel_scheduled
    unfolding cancel_scheduled
    cancel_scheduled-Quiet = record { at = λ e h. ground arith }

    pub schedule-Quiet : (delay generation : ℕ) → Keeps Quiet (schedule delay generation)
    unfolding schedule
    schedule-Quiet delay generation = record { at = λ e h. ground arith }

    pub utc_now-Quiet : Keeps Quiet (utc_now store rule deps)
    unfolding utc_now
    utc_now-Quiet = record { at = λ e h. ground arith }

    pub next_id-Quiet : Keeps Quiet (next_id store rule deps)
    unfolding next_id
    next_id-Quiet = record { at = λ e h. ground arith }

    pub load-Quiet : Keeps Quiet (load store rule deps)
    unfolding load
    load-Quiet = record { at = λ e h. h }

    pub save-Quiet : (s : RuntimeStateRecord) → Keeps Quiet (save store rule deps s)
    unfolding save
    save-Quiet s = record {
      at = λ e h. elim (Result-cases (store.save_runtime_state e.db s)) [
        | inl (d, saved) ↦ ground (arith, store.events-save e.db d s saved)
        | inr (x, failed) ↦ ground arith
      ];
    }

    pub delete-Quiet : Keeps Quiet (delete store rule deps)
    unfolding delete
    delete-Quiet = record {
      at = λ e h. elim (Result-cases (store.delete_runtime_state e.db rule.rule_id)) [
        | inl (d, deleted) ↦ ground (arith, store.events-delete e.db d rule.rule_id deleted)
        | inr (x, failed) ↦ ground arith
      ];
    }

    pub replace_state-Quiet :
        (s : RuntimeStateRecord) → Keeps Quiet (replace_state store rule deps s)
    unfolding replace_state
    replace_state-Quiet s = Keeps-bind _ _ (put_state-Quiet (some s)) λ _. save-Quiet s

    pub adopt-Quiet : (x : Option RuntimeStateRecord) → Keeps Quiet (adopt store rule deps x)
    unfolding adopt
    adopt-Quiet none = raise-Quiet _
    adopt-Quiet (some s) = put_state-Quiet (some s)
