-- ===== src/Runtime/Contracts.antt =====
-- custom_components/geofence_journal/runtime/contracts.py: what an engine is given. The storage
-- is an interface with its laws: the engine's theorems rest on these alone, and
-- Runtime.SqliteStore shows that the SQLite operations meet them.
use hass_geofence_journal.Prelude.{
  ℕ, ◌≡◌, Bool, true, false, Option, none, some, List, [], ◌∷◌, ◌++◌, ◌==◌, if◌then◌else◌,
}
use hass_geofence_journal.Errors.{Result, ok}
use hass_geofence_journal.Models.{PresenceState, LocationSource}
use hass_geofence_journal.Storage.Records.{no_nan}
use hass_geofence_journal.Storage.Transitions.{transition_event}
use hass_geofence_journal.Storage.Records.{
  RuntimeStateRecord, TransitionResult, ConfirmedTransition, EventRow,
}

-- A failed operation raises and has changed nothing: it was rolled back.
pub record RuntimeStorage : Type 1 where
  pub Db : Type 0
  pub runtime_state : Db → ℕ → Result (Option RuntimeStateRecord)
  pub save_runtime_state : Db → RuntimeStateRecord → Result Db
  pub delete_runtime_state : Db → ℕ → Result Db
  pub confirm_transition : Db → ConfirmedTransition → Result (TransitionResult × Db)
  -- What a database holds: the state of a rule, and the events in the order of insertion.
  pub row : Db → ℕ → Option RuntimeStateRecord
  pub events : Db → List EventRow
  pub row-runtime_state :
      (d : Db) (r : ℕ) (x : Option RuntimeStateRecord) → runtime_state d r ≡ ok x → x ≡ row d r
  pub row-save :
      (d d' : Db) (s : RuntimeStateRecord) (r : ℕ)
      → save_runtime_state d s ≡ ok d'
      → no_nan s ≡ true
      → row d' r ≡ (if s.rule_id == r then some s else row d r)
  pub events-save :
      (d d' : Db) (s : RuntimeStateRecord) → save_runtime_state d s ≡ ok d' → events d' ≡ events d
  pub row-delete :
      (d d' : Db) (k r : ℕ)
      → delete_runtime_state d k ≡ ok d'
      → row d' r ≡ (if k == r then none else row d r)
  pub events-delete : (d d' : Db) (k : ℕ) → delete_runtime_state d k ≡ ok d' → events d' ≡ events d
  pub row-confirm :
      (d d' : Db) (t : ConfirmedTransition) (s : RuntimeStateRecord) (res : TransitionResult)
      (r : ℕ)
      → confirm_transition d t ≡ ok (res, d')
      → res.created ≡ true
      → t.runtime_state ≡ some s
      → no_nan s ≡ true
      → row d' r ≡ (if s.rule_id == r then some s else row d r)
  pub events-confirm :
      (d d' : Db) (t : ConfirmedTransition) (res : TransitionResult)
      → confirm_transition d t ≡ ok (res, d')
      → res.created ≡ true
      → (events d' ≡ events d ++ transition_event t ∷ []) × (res.event_id ≡ t.event_id)
  pub confirm_duplicate :
      (d d' : Db) (t : ConfirmedTransition) (res : TransitionResult)
      → confirm_transition d t ≡ ok (res, d')
      → res.created ≡ false
      → d' ≡ d

-- The answers of the other capabilities during one call of the engine: the n-th reading of the
-- clock, the n-th new identifier, and the re-evaluation at a deadline.
pub record RuntimeDependencies : Type 0 where
  pub utc_now : ℕ → ℕ
  pub next_id : ℕ → ℕ
  pub async_evaluate : RuntimeStateRecord → Option PresenceState
  pub source : LocationSource
  pub store_coordinates : Bool
