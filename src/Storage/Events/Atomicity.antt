-- ===== src/Storage/Events/Atomicity.antt =====
-- An event's change of status and its audit row are one: both are written, or neither.
use hass_geofence_journal.Prelude.{
  ℕ, ◌≡◌, refl, ap, sym, ◌∙◌, Bool, true, false, Option, none, some, List, [], ◌∷◌, ◌++◌, inl, inr,
  arith, ◌==◌, Bool-cases,
}
use hass_geofence_journal.Errors.{sqlite}
use hass_geofence_journal.Exec.Rules.{>>=-ok, >>=-err}
use hass_geofence_journal.Models.{EventStatus, is_status}
use hass_geofence_journal.Storage.Records.{EventRow}
use hass_geofence_journal.Storage.Tables.{Tables, find}
use hass_geofence_journal.Storage.Sql.{
  Connection, pure, raise, ◌>>=◌, ◌>>◌, write, rollback, transaction,
}
use hass_geofence_journal.Storage.Sql.Laws.{
  IsBody, IsAtomic, query-IsBody, write-cases, bind_pure-IsAtomic,
}
use hass_geofence_journal.Storage.Events.{
  EventMutation, EventMutationResult, set_status, changes, differs, insert_revision, revision_of,
  is_change_fault, found_event, roll_back, settle_change, change_body, mutation_result,
  change_status,
}
use hass_geofence_journal.Storage.Sql.Closing.{
  IsClosing, closing-IsAtomic, bind-IsClosing, update-IsBody,
}

module _ (m : EventMutation) (target : EventStatus) (rid : ℕ) where
  abbrev pub read : Tables → Option EventRow
  read t = find (λ (e : EventRow). e.id) m.event_id t.events

  abbrev pub count : Tables → ℕ
  count t = changes m.event_id target t.events

  abbrev pub updated : Tables → Tables
  updated t = record t { events = set_status m.event_id target m.changed_at t.events }

  -- The event was there. Either it had the status and nothing has changed, or its status and one
  -- audit row of the old and the new status have been written, and nothing else.
  pub data IsChanged (old new : Tables) : Bool → Type 0 where
    same : (e : EventRow) → read old ≡ some e → count old ≡ 0 → new ≡ old → IsChanged old new false
    written :
        (e : EventRow)
        → read old ≡ some e
        → (count old == 0) ≡ false
        → new ≡ record old {
          events = set_status m.event_id target m.changed_at old.events;
          revisions = old.revisions ++ revision_of m target rid e ∷ [];
        }
        → IsChanged old new true

  abbrev Done : Bool → Tables → Tables → Type 0
  Done b old new = IsChanged old new b

  abbrev AtStart : Tables → Tables → Type 0
  AtStart old t = t ≡ old

  abbrev Read : Option EventRow → Tables → Tables → Type 0
  Read row old t = (read old ≡ row) × (t ≡ old)

  abbrev Found : EventRow → Tables → Tables → Type 0
  Found e old t = (read old ≡ some e) × (t ≡ old)

  abbrev Updated : EventRow → ℕ → Tables → Tables → Type 0
  Updated e n old t = (read old ≡ some e) × (n ≡ count old) × (t ≡ updated old)

  found_event-IsBody :
      (row : Option EventRow)
      → IsBody is_change_fault
          (λ e mid new. (old : Tables) → Read row old mid → Found e old new)
          (found_event row)
  unfolding found_event raise pure
  found_event-IsBody none = record { before = λ c. refl; ended = λ c. refl }
  found_event-IsBody (some e) = record { before = λ c. refl; ended = λ c old h. h }

  abbrev with_revision : EventRow → Tables → Tables
  with_revision e t = record t { revisions = t.revisions ++ revision_of m target rid e ∷ [] }

  insert_facts :
      (e : EventRow) (old new : Tables)
      → insert_revision (revision_of m target rid e) old ≡ some new
      → new ≡ with_revision e old
  unfolding insert_revision
  insert_facts e old new h = ground arith

  unchanged :
      (e : EventRow) (n : ℕ)
      → (n == 0) ≡ true
      → IsClosing is_change_fault Done (Updated e n) (do roll_back; pure false)
  unfolding roll_back rollback pure ◌>>=◌
  unchanged e n z = record { closes = λ c old b h. (tt, same e h.0 (ground arith) (ground arith)) }

  audited :
      (e : EventRow) (n : ℕ)
      → (n == 0) ≡ false
      → IsClosing is_change_fault Done
          (Updated e n)
          (do write (insert_revision (revision_of m target rid e)); pure true)
  unfolding pure
  audited e n z = record {
    closes = λ c old b h. elim (write-cases (insert_revision (revision_of m target rid e)) c) [
      | inl failed ↦ rw (>>=-err _ _ c _ sqlite failed) (refl, refl)
      | inr (t, made, wrote) ↦ rw (>>=-ok _ _ c _ tt wrote) (
        tt,
        written e h.0 (ground arith) (insert_facts e c.tables t made ∙ ap (with_revision e) h.2),
      )
    ];
  }

  settle_change-IsClosing :
      (e : EventRow) (n : ℕ)
      → IsClosing is_change_fault Done (Updated e n) (settle_change m target rid e n)
  unfolding settle_change
  settle_change-IsClosing e n = elim (Bool-cases (n == 0)) [
    | inl z ↦ rw z (unchanged e n z)
    | inr nz ↦ rw nz (audited e n nz)
  ]

  change_body-IsClosing : IsClosing is_change_fault Done AtStart (change_body m target rid)
  unfolding change_body
  change_body-IsClosing =
      bind-IsClosing is_change_fault AtStart Read Done _ _
        (query-IsBody is_change_fault _ read refl λ t old h. (ap read (sym h), h))
        λ row.
          bind-IsClosing is_change_fault (Read row) Found Done _ _ (found_event-IsBody row) λ e.
            bind-IsClosing is_change_fault (Found e) (Updated e) Done _ _
              (update-IsBody is_change_fault _ (λ t. (count t, updated t)) refl
                λ t old h. (h.0, ap count h.1, ap updated h.1))
              λ n.
                bind-IsClosing is_change_fault (Updated e n) (Updated e) Done _ _
                  (query-IsBody is_change_fault _ (λ _. n) refl λ t old h. h)
                  λ k. settle_change-IsClosing e k

  -- What the caller is told, and what happened to the tables.
  abbrev pub Changes : EventMutationResult → Tables → Tables → Type 0
  Changes res old new = (b : Bool) × IsChanged old new b × (res ≡ mutation_result m target rid b)

  -- On an idle connection, whichever statements fail, a change of status leaves the connection idle.
  -- If it raises, no table has changed. If it returns, the event was there, and either it had the
  -- status, no table has changed and the result says so, or its new status and instant and exactly
  -- one audit row with the old and the new status have been written, and the result names that row.
  pub change_status-IsAtomic :
      (c : Connection)
      → c.before ≡ none
      → IsAtomic is_change_fault Changes c (change_status m target rid c)
  unfolding change_status
  change_status-IsAtomic c idle =
      bind_pure-IsAtomic is_change_fault Done Changes (mutation_result m target rid)
        (transaction is_change_fault (change_body m target rid)) c (λ b new h. (b, h, refl))
        (closing-IsAtomic is_change_fault Done (change_body m target rid) c change_body-IsClosing
          idle)

is_status_refl : (s : EventStatus) → is_status s s ≡ true
is_status_refl s = ground arith

pub set_status-changes :
    (id at : ℕ) (target : EventStatus) (events : List EventRow)
    → changes id target (set_status id target at events) ≡ 0
unfolding changes set_status
set_status-changes id at target [] = refl
set_status-changes id at target (e ∷ events) =
    ground (arith, set_status-changes id at target events, is_status_refl target)

pub find-set_status :
    (id at : ℕ) (target : EventStatus) (events : List EventRow) (e : EventRow)
    → find (λ (x : EventRow). x.id) id events ≡ some e
    → (e' : EventRow) × (find (λ (x : EventRow). x.id) id (set_status id target at events)
        ≡ some e')
unfolding find set_status
find-set_status id at target [] e h = cc
find-set_status id at target (x ∷ events) e h = elim (Bool-cases (x.id == id)) [
  | inl here ↦ elim (Bool-cases (differs id target x)) [
    | inl d ↦ (record x { status = target; updated_at = at }, ground arith)
    | inr s ↦ (x, ground arith)
  ]
  | inr other ↦
      let (e', found) = find-set_status id at target events e (ground arith) in (e', ground arith)
]
