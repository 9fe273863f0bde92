-- ===== src/Storage/Transitions/Atomicity.antt =====
-- A confirmation is all or nothing, and happens once.
use hass_geofence_journal.Prelude.{
  ℕ, ◌≡◌, refl, ap, sym, Bool, true, false, Option, none, some, [], ◌∷◌, ◌++◌, ◌⊎◌, inl, inr, arith,
}
use mathlib.Core.Path.{subst}
use hass_geofence_journal.Errors.{ok, sqlite}
use hass_geofence_journal.Exec.Rules.{>>=-ok, >>=-err}
use hass_geofence_journal.Storage.Records.{
  RuntimeStateRecord, TransitionResult, ConfirmedTransition, EventRow,
}
use hass_geofence_journal.Storage.Tables.{
  Tables, RuntimeRow, find, upsert, find_transition, event_row_ok, runtime_row_ok, transition_key,
}
use hass_geofence_journal.Storage.Tables.Laws.{find_transition-append}
use hass_geofence_journal.Storage.Sql.{Connection, transaction, pure, raise}
use hass_geofence_journal.Storage.Sql.Laws.{
  IsBody, IsAtomic, transaction-IsAtomic, write-IsBody, bind-IsBody, weaken-IsBody,
  bind_pure-IsAtomic, query-cases, query-calm, next,
}
use hass_geofence_journal.Storage.RuntimeState.{runtime_row, put_runtime_row}
use hass_geofence_journal.Storage.Transitions.{
  transition_event, insert_event, partial_row, is_fault, inject_fault, write_runtime,
  transition_body, confirm_unless, confirm_transition,
}

-- The runtime row that goes with the event.
abbrev pub new_runtime_row : ConfirmedTransition → Option RuntimeStateRecord → Tables → RuntimeRow
new_runtime_row t (some s) tables = runtime_row s
new_runtime_row t none tables =
    partial_row t (find (λ (r : RuntimeRow). r.rule_id) t.rule_id tables.runtime_states)

-- Event and runtime row have been written, both within the constraints, and nothing else.
pub record IsWritten (t : ConfirmedTransition) (old new : Tables) : Type 0 where
  pub event_allowed : event_row_ok old (transition_event t) ≡ true
  pub runtime_allowed :
      runtime_row_ok
        (record old { events = old.events ++ transition_event t ∷ [] })
        (new_runtime_row t t.runtime_state old)
      ≡ true
  pub tables : new ≡ record old {
    events = old.events ++ transition_event t ∷ [];
    runtime_states =
        upsert
          (λ (r : RuntimeRow). r.rule_id)
          (new_runtime_row t t.runtime_state old)
          old.runtime_states;
  }

new_runtime_row-with_event :
    (t : ConfirmedTransition) (s : Option RuntimeStateRecord) (old : Tables)
    → new_runtime_row t s (record old { events = old.events ++ transition_event t ∷ [] })
      ≡ new_runtime_row t s old
new_runtime_row-with_event t none old = refl
new_runtime_row-with_event t (some s) old = refl

abbrev Inserted : ConfirmedTransition → Unit {0} → Tables → Tables → Type 0
Inserted t _ old mid = insert_event (transition_event t) old ≡ some mid

abbrev Written : ConfirmedTransition → Unit {0} → Tables → Tables → Type 0
Written t _ old new = IsWritten t old new

abbrev AfterInsert : ConfirmedTransition → Unit {0} → Tables → Tables → Type 0
AfterInsert t _ mid new = (old : Tables) → Inserted t tt old mid → IsWritten t old new

abbrev with_event : ConfirmedTransition → Tables → Tables
with_event t old = record old { events = old.events ++ transition_event t ∷ [] }

insert_facts :
    (t : ConfirmedTransition) (old mid : Tables)
    → insert_event (transition_event t) old ≡ some mid
    → (event_row_ok old (transition_event t) ≡ true) × (with_event t old ≡ mid)
unfolding insert_event
insert_facts t old mid h = ground arith

pub put_facts :
    (row : RuntimeRow) (old new : Tables)
    → put_runtime_row row old ≡ some new
    → (runtime_row_ok old row ≡ true)
      × (new ≡ record old {
        runtime_states = upsert (λ (r : RuntimeRow). r.rule_id) row old.runtime_states;
      })
unfolding put_runtime_row
put_facts row old new h = ground arith

runtime_IsWritten :
    (t : ConfirmedTransition) (old mid new : Tables)
    → put_runtime_row (new_runtime_row t t.runtime_state mid) mid ≡ some new
    → Inserted t tt old mid
    → IsWritten t old new
runtime_IsWritten t old mid new p i =
    let (allowed, same) = insert_facts t old mid i in
    let p' : put_runtime_row (new_runtime_row t t.runtime_state (with_event t old))
          (with_event t old)
        ≡ some new =
      subst (λ m. put_runtime_row (new_runtime_row t t.runtime_state m) m ≡ some new) (sym same)
        p in
    let same_row = new_runtime_row-with_event t t.runtime_state old in
    let (fits, made) = put_facts _ (with_event t old) new p' in
    record {
      event_allowed = allowed;
      runtime_allowed = rw same_row at fits;
      tables = rw same_row at made;
    }

write_runtime-IsBody :
    (t : ConfirmedTransition) (s : Option RuntimeStateRecord)
    → t.runtime_state ≡ s
    → IsBody is_fault (AfterInsert t) (write_runtime t s)
unfolding write_runtime
write_runtime-IsBody t none e =
    write-IsBody is_fault (AfterInsert t) _ refl
      λ mid new p old i. runtime_IsWritten t old mid new (rw e p) i
write_runtime-IsBody t (some s) e =
    write-IsBody is_fault (AfterInsert t) _ refl
      λ mid new p old i. runtime_IsWritten t old mid new (rw e p) i

inject_fault-IsBody : (fail : Bool) → IsBody is_fault (λ _ old new. new ≡ old) (inject_fault fail)
unfolding inject_fault raise pure
inject_fault-IsBody true = record { before = λ c. refl; ended = λ c. refl }
inject_fault-IsBody false = record { before = λ c. refl; ended = λ c. refl }

transition_body-IsBody :
    (t : ConfirmedTransition) (fail : Bool) → IsBody is_fault (Written t) (transition_body t fail)
unfolding transition_body
transition_body-IsBody t fail =
    bind-IsBody is_fault (Inserted t) (Written t) _ _
      (write-IsBody is_fault (Inserted t) (insert_event (transition_event t)) refl
        (λ old new made. made))
      λ _.
        bind-IsBody is_fault (λ _ old new. new ≡ old) (AfterInsert t) _ _ (inject_fault-IsBody fail)
          λ _.
            weaken-IsBody is_fault (AfterInsert t) _ _
              (λ u mid new w old same. subst (λ m. AfterInsert t u m new) same w)
              (write_runtime-IsBody t t.runtime_state refl)

-- The event was new and is written whole, or one with the same rule, generation and deadline was
-- there and nothing has changed.
abbrev pub Confirms : ConfirmedTransition → TransitionResult → Tables → Tables → Type 0
Confirms t res old new =
    ((res.created ≡ true)
      × (res.event_id ≡ t.event_id)
      × (find_transition t.rule_id t.generation t.confirmed_deadline old.events ≡ none)
      × IsWritten t old new)
    ⊎ ((e : EventRow) × (res.created ≡ false)
        × (find_transition t.rule_id t.generation t.confirmed_deadline old.events ≡ some e)
        × (res.event_id ≡ e.id)
        × (new ≡ old))

confirm_unless-IsAtomic :
    (t : ConfirmedTransition) (fail : Bool) (c : Connection) (x : Option EventRow)
    → find_transition t.rule_id t.generation t.confirmed_deadline c.tables.events ≡ x
    → c.before ≡ none
    → IsAtomic is_fault (Confirms t) c (confirm_unless t fail x c)
unfolding confirm_unless pure
confirm_unless-IsAtomic t fail c (some e) found idle = record {
  idle = idle;
  whole = inr (e, refl, found, refl, refl);
}
confirm_unless-IsAtomic t fail c none found idle =
    bind_pure-IsAtomic is_fault (Written t) (Confirms t)
      (λ _. record { event_id = t.event_id; created = true })
      (transaction is_fault (transition_body t fail)) c (λ u new w. inl (refl, refl, found, w))
      (transaction-IsAtomic is_fault (Written t) (transition_body t fail) c
        (transition_body-IsBody t fail) idle)

-- Whichever statements fail, a confirmation on an idle connection leaves it idle. If it raises, no
-- table has changed. If it returns, either the event was not there, and the tables have exactly
-- one new event and the runtime row that goes with it; or an event with the same rule, generation
-- and deadline was there, its id is returned, and no table has changed.
pub confirm_transition-IsAtomic :
    (t : ConfirmedTransition) (fail : Bool) (c : Connection)
    → c.before ≡ none
    → IsAtomic is_fault (Confirms t) c (confirm_transition t fail c)
unfolding confirm_transition
confirm_transition-IsAtomic t fail c idle =
    elim (query-cases
      (λ tables. find_transition t.rule_id t.generation t.confirmed_deadline tables.events) c) [
        | inl failed ↦ rw (>>=-err _ _ c _ sqlite failed) (record { idle = idle; whole = refl })
        | inr read ↦ rw (>>=-ok _ _ c _ _ read) (
            let h = confirm_unless-IsAtomic t fail (next c c.tables) _ refl idle in
            record { idle = h.idle; whole = h.whole })
      ]

-- The event of a confirmation is found afterwards.
recorded :
    (t : ConfirmedTransition) (res : TransitionResult) (old new : Tables)
    → Confirms t res old new
    → (e : EventRow) × (find_transition t.rule_id t.generation t.confirmed_deadline new.events
        ≡ some e)
      × (e.id ≡ res.event_id)
unfolding transition_event transition_key
recorded t res old new (inl (_, id, absent, w)) = (
  transition_event t,
  rw (ap (λ (x : Tables). x.events) w.tables)
      (find_transition-append _ _ _ (transition_event t) old.events refl absent),
  sym id,
)
recorded t res old new (inr (e, _, found, id, same)) = (e, rw same found, sym id)

seen :
    (u : ConfirmedTransition) (fail : Bool) (d : Connection) (e : EventRow) (id : ℕ)
    → e.id ≡ id
    → confirm_unless u fail (some e) d ≡ (ok (record { event_id = id; created = false }), d)
unfolding confirm_unless pure
seen u fail d e id same = ground arith

-- A confirmation that returned is not made twice: the same transition again, even under another
-- event id and with other data, changes nothing, and its result is the first event's id.
pub confirm_once :
    (t u : ConfirmedTransition) (fail : Bool) (c d : Connection) (res : TransitionResult)
    → c.before ≡ none
    → confirm_transition t fail c ≡ (ok res, d)
    → d.faults ≡ []
    → u.rule_id ≡ t.rule_id
    → u.generation ≡ t.generation
    → u.confirmed_deadline ≡ t.confirmed_deadline
    → confirm_transition u fail d ≡ (ok (record { event_id = res.event_id; created = false }), d)
unfolding confirm_transition
confirm_once t u fail c d res idle first calm r g dl =
    let h = rw first at (confirm_transition-IsAtomic t fail c idle) in
    let (e, found, same_id) = recorded t res c.tables d.tables h.whole in
    rw (>>=-ok _ _ d d _ (query-calm _ d calm))
      (rw (r, g, dl, found) (seen u fail d e res.event_id same_id))
