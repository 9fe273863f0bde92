-- ===== src/Runtime/SqliteStore.antt =====
-- storage/repository.py as the storage of an engine: the operations of storage/runtime_state.py and
-- storage/transitions.py on a connection that is idle between calls, and the laws that
-- Runtime.Contracts asks of them. `faults` says which statements of a call fail.
use hass_geofence_journal.Prelude.{
  ℕ, ◌≡◌, refl, ap, sym, ◌∙◌, Bool, true, false, Option, none, some, List, ◌∷◌, [], ◌++◌, ◌==◌, inl,
  inr, if◌then◌else◌, arith, Bool-cases,
}
use mathlib.Core.Path.{subst}
use hass_geofence_journal.Errors.{Error, Result, ok, err, sqlite}
use hass_geofence_journal.Storage.Records.{
  RuntimeStateRecord, TransitionResult, ConfirmedTransition, EventRow, no_nan,
}
use hass_geofence_journal.Storage.Tables.{Tables, RuntimeRow, find, upsert, remove, runtime_row_ok}
use hass_geofence_journal.Storage.Tables.Laws.{find-upsert, find-remove}
use hass_geofence_journal.Storage.Sql.{Connection, lift, write}
use hass_geofence_journal.Storage.Sql.Laws.{
  IsAtomic, transaction-IsAtomic, write-IsBody, query-cases,
}
use hass_geofence_journal.Exec.Rules.{>>=-ok, >>=-err}
use hass_geofence_journal.Storage.RuntimeState.{
  is_sqlite, runtime_row, put_runtime_row, write_runtime_state_row, save_runtime_state,
  load_runtime_state, delete_runtime_state, decode, decode_row,
}
use hass_geofence_journal.Storage.RuntimeState.RoundTrip.{decode-runtime_row}
use hass_geofence_journal.Storage.Transitions.{transition_event, confirm_transition, is_fault}
use hass_geofence_journal.Storage.Transitions.Atomicity.{
  Confirms, IsWritten, put_facts, confirm_transition-IsAtomic,
}
use hass_geofence_journal.Runtime.Contracts.{RuntimeStorage}

-- A saved row is the only change, or nothing has changed.
pub save_runtime_state-IsAtomic :
    (s : RuntimeStateRecord) (c : Connection)
    → c.before ≡ none
    → IsAtomic is_sqlite
        (λ _ old new. put_runtime_row (runtime_row s) old ≡ some new)
        c
        (save_runtime_state s c)
unfolding save_runtime_state write_runtime_state_row
save_runtime_state-IsAtomic s c idle =
    transaction-IsAtomic is_sqlite (λ _ old new. put_runtime_row (runtime_row s) old ≡ some new)
      (write (put_runtime_row (runtime_row s))) c
      (write-IsBody is_sqlite _ (put_runtime_row (runtime_row s)) refl λ old new put. put) idle

abbrev without : ℕ → Tables → Tables
without id t = record t {
  runtime_states = remove (λ (r : RuntimeRow). r.rule_id) id t.runtime_states;
}

delete_runtime_state-IsAtomic :
    (id : ℕ) (c : Connection)
    → c.before ≡ none
    → IsAtomic is_sqlite (λ _ old new. new ≡ without id old) c (delete_runtime_state id c)
unfolding delete_runtime_state
delete_runtime_state-IsAtomic id c idle =
    transaction-IsAtomic is_sqlite (λ _ old new. new ≡ without id old)
      (write λ t. some (without id t)) c
      (write-IsBody is_sqlite _ (λ t. some (without id t)) refl λ old new made. ground arith) idle

-- What the caller sees of a call: the value and the tables it left, or the error.
abbrev pub seen : {A : Type 0} → Result A × Connection → Result (A × Tables)
seen (ok a, c) = ok (a, c.tables)
seen (err x, c) = err x

abbrev pub tables_of : {A : Type 0} → Result (A × Tables) → Result Tables
tables_of (ok (_, t)) = ok t
tables_of (err x) = err x

-- The state that a row holds; a row that cannot be decoded holds none.
abbrev held : Result (Option RuntimeStateRecord) → Option RuntimeStateRecord
held (ok x) = x
held (err x) = none

unfoldable pub stored : Tables → ℕ → Option RuntimeStateRecord
stored d r = held (decode_row (find (λ (x : RuntimeRow). x.rule_id) r d.runtime_states))

abbrev Seen : {A : Type 0} → (A → Tables → Tables → Type 0) → Tables → Result (A × Tables) → Type 0
Seen Done old (ok (a, new)) = Done a old new
Seen Done old (err x) = Unit

-- A call that returned has made its change.
seen-IsAtomic :
    {A : Type 0} (handled : Error → Bool) (Done : A → Tables → Tables → Type 0) (c : Connection)
    (p : Result A × Connection) (a : A) (d : Tables)
    → IsAtomic handled Done c p
    → seen p ≡ ok (a, d)
    → Done a c.tables d
seen-IsAtomic handled Done c (ok b, c') a d h e = subst (Seen Done c.tables) e h.whole
seen-IsAtomic handled Done c (err x, c') a d h e = cc

done-IsAtomic :
    (handled : Error → Bool) (Done : Unit {0} → Tables → Tables → Type 0) (c : Connection)
    (p : Result (Unit {0}) × Connection) (d : Tables)
    → IsAtomic handled Done c p
    → tables_of (seen p) ≡ ok d
    → Done tt c.tables d
done-IsAtomic handled Done c (ok b, c') d h e =
    subst (λ (r : Result Tables). elim r [ ok new ↦ Done tt c.tables new | err x ↦ Unit {0} ]) e
      h.whole
done-IsAtomic handled Done c (err x, c') d h e = cc

stored_if :
    (s : RuntimeStateRecord) (x : Option RuntimeRow) (r : ℕ)
    → decode (runtime_row s) ≡ ok s
    → held (decode_row (if (runtime_row s).rule_id == r then some (runtime_row s) else x))
      ≡ (if s.rule_id == r then some s else held (decode_row x))
unfolding decode_row runtime_row
stored_if s x r back = elim (Bool-cases (s.rule_id == r)) [
  | inl same ↦ rw same (rw back refl)
  | inr other ↦ rw other refl
]

-- A row that has been written is found, and the others are as they were.
stored-put :
    (d d' : Tables) (s : RuntimeStateRecord) (r : ℕ) (events : List EventRow)
    → no_nan s ≡ true
    → runtime_row_ok (record d { events = events }) (runtime_row s) ≡ true
    → d' ≡ record d {
      events = events;
      runtime_states = upsert (λ (x : RuntimeRow). x.rule_id) (runtime_row s) d.runtime_states;
    }
    → stored d' r ≡ (if s.rule_id == r then some s else stored d r)
unfolding stored decode_row
stored-put d d' s r events n fits made =
    rw
      (
        ap (λ (t : Tables). t.runtime_states) made,
        find-upsert (λ (x : RuntimeRow). x.rule_id) (runtime_row s) r d.runtime_states,
      )
      (stored_if s (find (λ (x : RuntimeRow). x.rule_id) r d.runtime_states) r
        (decode-runtime_row _ s n fits))

module _ (faults : List Bool) where
  abbrev pub idle : Tables → Connection
  idle d = record { tables = d; before = none; faults = faults }

  abbrev pub runtime_state : Tables → ℕ → Result (Option RuntimeStateRecord)
  runtime_state d r = (load_runtime_state r (idle d)).0

  abbrev pub save : Tables → RuntimeStateRecord → Result Tables
  save d s = tables_of (seen (save_runtime_state s (idle d)))

  abbrev pub delete : Tables → ℕ → Result Tables
  delete d r = tables_of (seen (delete_runtime_state r (idle d)))

  abbrev pub confirm : Tables → ConfirmedTransition → Result (TransitionResult × Tables)
  confirm d t = seen (confirm_transition t false (idle d))

  pub stored-load :
      (d : Tables) (r : ℕ) (x : Option RuntimeStateRecord)
      → runtime_state d r ≡ ok x
      → x ≡ stored d r
  unfolding load_runtime_state stored lift
  stored-load d r x h =
      elim (query-cases (λ t. find (λ (y : RuntimeRow). y.rule_id) r t.runtime_states) (idle d)) [
        | inl failed ↦ absurd sqlite _ (ap (λ p. p.0) (>>=-err _ _ (idle d) _ sqlite failed)) h
        | inr read ↦ loaded _ (sym (ap (λ p. p.0) (>>=-ok _ _ (idle d) _ _ read)) ∙ h)
      ]
    where
      -- An error is not the `ok` that was returned.
      loaded : (res : Result (Option RuntimeStateRecord)) → res ≡ ok x → x ≡ held res
      loaded (ok y) e = ground arith
      loaded (err z) e = cc

      absurd :
          (z : Error)
          → (res : Result (Option RuntimeStateRecord)) → res ≡ err z
          → res ≡ ok x
          → x ≡ stored d r
      absurd z (ok y) e f = cc
      absurd z (err w) e f = cc

  saved :
      (d d' : Tables) (s : RuntimeStateRecord)
      → save d s ≡ ok d'
      → put_runtime_row (runtime_row s) d ≡ some d'
  saved d d' s h =
      done-IsAtomic is_sqlite _ (idle d) _ d' (save_runtime_state-IsAtomic s (idle d) refl) h

  pub stored-save :
      (d d' : Tables) (s : RuntimeStateRecord) (r : ℕ)
      → save d s ≡ ok d'
      → no_nan s ≡ true
      → stored d' r ≡ (if s.rule_id == r then some s else stored d r)
  stored-save d d' s r h n =
      let (fits, made) = put_facts (runtime_row s) d d' (saved d d' s h) in
      stored-put d d' s r d.events n fits made

  pub events-saved :
      (d d' : Tables) (s : RuntimeStateRecord) → save d s ≡ ok d' → d'.events ≡ d.events
  events-saved d d' s h =
      ap (λ (t : Tables). t.events) (put_facts (runtime_row s) d d' (saved d d' s h)).1

  deleted : (d d' : Tables) (k : ℕ) → delete d k ≡ ok d' → d' ≡ without k d
  deleted d d' k h =
      done-IsAtomic is_sqlite _ (idle d) _ d' (delete_runtime_state-IsAtomic k (idle d) refl) h

  pub stored-delete :
      (d d' : Tables) (k r : ℕ)
      → delete d k ≡ ok d'
      → stored d' r ≡ (if k == r then none else stored d r)
  unfolding stored decode_row
  stored-delete d d' k r h =
      rw
        (
          ap (λ (t : Tables). t.runtime_states) (deleted d d' k h),
          find-remove (λ (x : RuntimeRow). x.rule_id) k r d.runtime_states,
        )
        (elim (Bool-cases (k == r)) [ inl same ↦ rw same refl | inr other ↦ rw other refl ])

  pub events-deleted : (d d' : Tables) (k : ℕ) → delete d k ≡ ok d' → d'.events ≡ d.events
  events-deleted d d' k h = ap (λ (t : Tables). t.events) (deleted d d' k h)

  confirmed :
      (d d' : Tables) (t : ConfirmedTransition) (res : TransitionResult)
      → confirm d t ≡ ok (res, d')
      → Confirms t res d d'
  confirmed d d' t res h =
      seen-IsAtomic is_fault (Confirms t) (idle d) _ res d'
        (confirm_transition-IsAtomic t false (idle d) refl) h

  written :
      (d d' : Tables) (t : ConfirmedTransition) (res : TransitionResult)
      → res.created ≡ true
      → Confirms t res d d'
      → IsWritten t d d'
  written d d' t res c (inl (_, _, _, w)) = w
  written d d' t res c (inr (_, n, _, _, _)) = cc

  pub stored-confirm :
      (d d' : Tables) (t : ConfirmedTransition) (s : RuntimeStateRecord) (res : TransitionResult)
      (r : ℕ)
      → confirm d t ≡ ok (res, d')
      → res.created ≡ true
      → t.runtime_state ≡ some s
      → no_nan s ≡ true
      → stored d' r ≡ (if s.rule_id == r then some s else stored d r)
  stored-confirm d d' t s res r h c e n =
      let w = written d d' t res c (confirmed d d' t res h) in
      stored-put d d' s r _ n (rw e at w.runtime_allowed) (rw e at w.tables)

  named :
      (d d' : Tables) (t : ConfirmedTransition) (res : TransitionResult)
      → res.created ≡ true
      → Confirms t res d d'
      → res.event_id ≡ t.event_id
  named d d' t res c (inl (_, id, _, _)) = id
  named d d' t res c (inr (_, n, _, _, _)) = cc

  pub events-confirmed :
      (d d' : Tables) (t : ConfirmedTransition) (res : TransitionResult)
      → confirm d t ≡ ok (res, d')
      → res.created ≡ true
      → (d'.events ≡ d.events ++ transition_event t ∷ []) × (res.event_id ≡ t.event_id)
  events-confirmed d d' t res h c =
      let made = confirmed d d' t res h in
      (ap (λ (t : Tables). t.events) (written d d' t res c made).tables, named d d' t res c made)

  unchanged :
      (d d' : Tables) (t : ConfirmedTransition) (res : TransitionResult)
      → res.created ≡ false
      → Confirms t res d d'
      → d' ≡ d
  unchanged d d' t res c (inl (y, _, _, _)) = cc
  unchanged d d' t res c (inr (_, _, _, _, same)) = same

  pub confirmed_before :
      (d d' : Tables) (t : ConfirmedTransition) (res : TransitionResult)
      → confirm d t ≡ ok (res, d')
      → res.created ≡ false
      → d' ≡ d
  confirmed_before d d' t res h c = unchanged d d' t res c (confirmed d d' t res h)

  -- The storage of an engine on SQLite.
  unfoldable pub sqlite_store : RuntimeStorage
  sqlite_store = record {
    Db = Tables;
    runtime_state = runtime_state;
    save_runtime_state = save;
    delete_runtime_state = delete;
    confirm_transition = confirm;
    row = stored;
    events = λ d. d.events;
    row-runtime_state = stored-load;
    row-save = stored-save;
    events-save = events-saved;
    row-delete = stored-delete;
    events-delete = events-deleted;
    row-confirm = stored-confirm;
    events-confirm = events-confirmed;
    confirm_duplicate = confirmed_before;
  }
