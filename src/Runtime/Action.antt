-- ===== src/Runtime/Action.antt =====
-- The actions of an engine: what its methods read and change, in `do` blocks.
unfoldable pub use hass_geofence_journal.Exec.{raise, lift, done, ◌>>=◌, ◌>>◌}
use hass_geofence_journal.Exec.{Exec}
use hass_geofence_journal.Prelude.{
  ℕ, ◌+◌, Bool, Option, none, some, List, [], ◌∷◌, ◌++◌, ◌==◌, if◌then◌else◌,
}
use hass_geofence_journal.Errors.{ok}
use hass_geofence_journal.Storage.Records.{RuntimeStateRecord, TransitionResult}

-- A live callback of the scheduler: it calls `_deadline_callback(generation)` after the delay.
pub record ScheduledCall : Type 0 where
  pub handle : ℕ
  pub generation : ℕ
  pub delay : ℕ

-- What the observer was told: `on_transition(result, state)`.
pub record Notification : Type 0 where
  pub result : TransitionResult
  pub state : RuntimeStateRecord

-- The fields of the engine, the database that it shares, the scheduler's live calls, and counts of
-- the clock readings and of the identifiers taken during the call.
pub record Engine (Db : Type 0) : Type 0 where
  pub state : Option RuntimeStateRecord
  pub scheduled : Option ℕ
  pub accepting : Bool
  pub db : Db
  pub calls : List ScheduledCall
  pub next_handle : ℕ
  pub readings : ℕ
  pub ids : ℕ
  pub notified : List Notification

-- `cancel` of a call that has not started.
unfoldable pub cancel : ℕ → List ScheduledCall → List ScheduledCall
cancel h [] = []
cancel h (c ∷ calls) = let rest = cancel h calls in if c.handle == h then rest else c ∷ rest

abbrev pub Action : Type 0 → Type 0 → Type 0
Action Db A = Exec (Engine Db) A

module _ {Db : Type 0} where
  unfoldable pub put_state : Option RuntimeStateRecord → Action Db (Unit {0})
  put_state s e = (ok tt, record e { state = s })

  unfoldable pub put_accepting : Bool → Action Db (Unit {0})
  put_accepting b e = (ok tt, record e { accepting = b })

  unfoldable pub forget_scheduled : Action Db (Unit {0})
  forget_scheduled e = (ok tt, record e { scheduled = none })

  -- `_cancel_scheduled`
  unfoldable pub cancel_scheduled : Action Db (Unit {0})
  cancel_scheduled e = elim e.scheduled [
    | none ↦ (ok tt, e)
    | some h ↦ (ok tt, record e { calls = cancel h e.calls; scheduled = none })
  ]

  -- `self._scheduled = scheduler.schedule(delay, …)`
  unfoldable pub schedule : ℕ → ℕ → Action Db (Unit {0})
  schedule delay generation e = (
    ok tt,
    record e {
      calls = record { handle = e.next_handle; generation = generation; delay = delay } ∷ e.calls;
      scheduled = some e.next_handle;
      next_handle = e.next_handle + 1;
    },
  )

  unfoldable pub on_transition : TransitionResult → RuntimeStateRecord → Action Db (Unit {0})
  on_transition result state e =
      (ok tt, record e { notified = e.notified ++ record { result = result; state = state } ∷ [] })
