-- ===== src/Storage/Events/Repetition.antt =====
-- storage/events.py: excluding twice, or restoring twice, is done once.
use hass_geofence_journal.Prelude.{
  ℕ, ◌≡◌, refl, ap, sym, ◌∙◌, Bool, false, Option, none, some, [], arith,
}
use mathlib.Core.Path.{subst}
use hass_geofence_journal.Errors.{Result, ok}
use hass_geofence_journal.Models.{EventStatus}
use hass_geofence_journal.Storage.Records.{EventRow}
use hass_geofence_journal.Storage.Tables.{Tables}
use hass_geofence_journal.Storage.Sql.{
  Connection, pure, ◌>>=◌, query, update, rollback, begin_immediate, close_body, transaction,
}
use hass_geofence_journal.Storage.Sql.Laws.{query-calm}
use hass_geofence_journal.Exec.Rules.{>>=-ok}
use hass_geofence_journal.Storage.Events.{
  EventMutation, EventMutationResult, found_event, roll_back, settle_change, change_body,
  mutation_result, change_status, is_change_fault,
}
use hass_geofence_journal.Storage.Events.Atomicity.{
  read, count, updated, IsChanged, same, written, change_status-IsAtomic, set_status-changes,
  find-set_status,
}

-- The event is there with the status.
abbrev Settled : EventMutation → EventStatus → Tables → Type 0
Settled m target t = (e : EventRow) × (read m target 0 t ≡ some e) × (count m target 0 t ≡ 0)

module _ (m : EventMutation) (target : EventStatus) (rid : ℕ) where
  IsChanged-Settled :
      (old new : Tables) (b : Bool) → IsChanged m target rid old new b → Settled m target new
  IsChanged-Settled old new b (same e found zero eq) = (e, rw eq found, rw eq zero)
  IsChanged-Settled old new b (written e found some_changes eq) =
      let (e', found') = find-set_status m.event_id m.changed_at target old.events e found in
      (
        e',
        rw (ap (λ (t : Tables). t.events) eq) found',
        rw (ap (λ (t : Tables). t.events) eq)
            (set_status-changes m.event_id m.changed_at target old.events),
      )

  -- Inside a transaction that began at `old`.
  abbrev inside : Tables → Tables → Connection
  inside old t = record { tables = t; before = some old; faults = [] }

  abbrev outside : Tables → Connection
  outside t = record { tables = t; before = none; faults = [] }

  ended_early :
      (old t : Tables) (e : EventRow) (n : ℕ)
      → n ≡ 0
      → settle_change m target rid e n (inside old t) ≡ (ok false, outside old)
  unfolding settle_change roll_back rollback pure ◌>>=◌
  ended_early old t e n zero = rw zero refl

  after_read :
      (t : Tables) (row : Option EventRow) (e : EventRow)
      → row ≡ some e
      → count m target rid t ≡ 0
      → (found_event row >>= λ e.
            update (λ t. (count m target rid t, updated m target rid t)) >>= λ u.
            query (λ _. u) >>= λ n. settle_change m target rid e n)
          (inside t t)
        ≡ (ok false, outside t)
  unfolding found_event update query ◌>>=◌ pure
  after_read t none e there zero = cc
  after_read t (some x) e there zero = ended_early t (updated m target rid t) x _ zero

  change_body-settled :
      (t : Tables) (e : EventRow)
      → read m target rid t ≡ some e
      → count m target rid t ≡ 0
      → change_body m target rid (inside t t) ≡ (ok false, outside t)
  unfolding change_body
  change_body-settled t e found zero =
      >>=-ok _ _ (inside t t) (inside t t) (read m target rid t)
        (query-calm (read m target rid) (inside t t) refl)
      ∙ after_read t (read m target rid t) e found zero

  began : (t : Tables) → begin_immediate (outside t) ≡ (ok tt, inside t t)
  unfolding begin_immediate
  began t = refl

  closed :
      (p : Result Bool × Connection) (t : Tables)
      → p ≡ (ok false, outside t)
      → close_body is_change_fault p.0 p.1 ≡ (ok false, outside t)
  unfolding close_body
  closed p t e = rw e refl

  change_status-settled :
      (t : Tables) (e : EventRow)
      → read m target rid t ≡ some e
      → count m target rid t ≡ 0
      → change_status m target rid (outside t)
        ≡ (ok (mutation_result m target rid false), outside t)
  unfolding change_status transaction pure
  change_status-settled t e found zero = >>=-ok _ _ (outside t) (outside t) false (
      >>=-ok _ _ (outside t) (inside t t) tt (began t)
      ∙ closed _ t (change_body-settled t e found zero))

again :
    (m m' : EventMutation) (target : EventStatus) (rid rid' : ℕ) (d : Connection)
    → d.before ≡ none
    → d.faults ≡ []
    → m'.event_id ≡ m.event_id
    → Settled m target d.tables
    → change_status m' target rid' d ≡ (ok (mutation_result m' target rid' false), d)
again m m' target rid rid' d idle calm e (row, found, zero) =
    let whole : d ≡ record { tables = d.tables; before = none; faults = [] } = ground arith in
    subst (λ c. change_status m' target rid' c ≡ (ok (mutation_result m' target rid' false), c))
      (sym whole) (change_status-settled m' target rid' d.tables row (rw e found) (rw e zero))

-- A change of status that returned is not made twice: on a connection without faults, the same
-- status again for that event, whoever asks and when, changes no table, adds no audit row, and
-- reports no change.
pub change_status_once :
    (m m' : EventMutation) (target : EventStatus) (rid rid' : ℕ) (c d : Connection)
    (res : EventMutationResult)
    → c.before ≡ none
    → change_status m target rid c ≡ (ok res, d)
    → d.faults ≡ []
    → m'.event_id ≡ m.event_id
    → change_status m' target rid' d ≡ (
      ok (record { event_id = m.event_id; revision_id = none; status = target; changed = false }),
      d,
    )
change_status_once m m' target rid rid' c d res idle first calm e =
    let h = rw first at (change_status-IsAtomic m target rid c idle) in
    let (b, changed, told) = h.whole in
    again m m' target rid rid' d h.idle calm e
      (IsChanged-Settled m target rid c.tables d.tables b changed)
    ∙ ap
        (λ id.
          (ok (record { event_id = id; revision_id = none; status = target; changed = false }), d))
        e
