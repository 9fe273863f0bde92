-- ===== src/Management/Events/Told.antt =====
-- management_events.py and service_dispatch.py: which changes of events are told, and what is stored
-- of coordinates.
use mathlib.Core.Path.{subst}
use mathlib.Core.List.{append-nil}
use hass_geofence_journal.Prelude.{
  ℕ, ◌≡◌, refl, sym, ap, ◌∙◌, String, Bool, true, false, ◌⊎◌, inl, inr, Option, none, some, List,
  [], ◌∷◌, ◌++◌,
}
use hass_geofence_journal.Errors.{Error, Result, ok, err, sqlite}
use hass_geofence_journal.Models.{EventStatus}
use hass_geofence_journal.Storage.Tables.{Tables}
use hass_geofence_journal.Storage.Sql.{Connection, Sql, query, ◌>>=◌, lift, pure, raise}
use hass_geofence_journal.Storage.Sql.Laws.{IsAtomic, Atomic, query-cases, next}
use hass_geofence_journal.Storage.Reset.Emptied.{bind_same}
use hass_geofence_journal.Exec.{Exec}
use hass_geofence_journal.Location.{instant}
use hass_geofence_journal.Exec.Rules.{>>=-ok, >>=-err}
use hass_geofence_journal.Storage.Events
use hass_geofence_journal.Storage.Events.{
  add_event, change_status, exclude_event, restore_event, EventMutation, EventMutationResult,
  is_add_fault, is_change_fault,
}
use hass_geofence_journal.Storage.Events.Addition.{IsAdded, Adds, add_event-IsAtomic}
use hass_geofence_journal.Storage.Events.Atomicity.{
  IsChanged, same, written, Changes, change_status-IsAtomic,
}
use hass_geofence_journal.Export.Rows.{Joined}
use hass_geofence_journal.Management.Requests.{AddEventRequest, strip_option, validate_event}
use hass_geofence_journal.Management.Events.{
  EventResponse, payload_of, select_event, found_payload, event_payload, manual_request, respond,
  add_and_read, async_add_manual_event, mutate_and_read, EventAction, adds, excludes, restores,
  Services, run, fire_if_changed, publish, mutation, async_add_event, dispatch_add, dispatch_action,
  dispatch_event,
}

-- The answer is read from the row of the event, or the reading raises; no table changes.
pub data IsResponse (changed : Bool) (id : ℕ) (t : Tables)
    : Result EventResponse × Connection → Type 0 where
  unread : {x : Error} {c : Connection} → c.tables ≡ t → IsResponse changed id t (err x, c)
  read :
      {x : Joined} {c : Connection}
      → c.tables ≡ t
      → select_event id t ≡ some x
      → IsResponse changed id t (ok (record { changed = changed; payload = payload_of x }), c)

found-IsResponse :
    (changed : Bool) (id : ℕ) (row : Option Joined) (c : Connection)
    → select_event id c.tables ≡ row
    → IsResponse changed id c.tables (
        (found_payload row >>= λ payload. pure (record { changed = changed; payload = payload })) c)
unfolding found_payload raise pure ◌>>=◌
found-IsResponse changed id none c h = unread refl
found-IsResponse changed id (some x) c h = read refl h

pub respond-IsResponse :
    (changed : Bool) (id : ℕ) (c : Connection)
    → IsResponse changed id c.tables (respond changed id c)
unfolding respond event_payload
respond-IsResponse changed id c = elim (query-cases (select_event id) c) [
  | inl failed ↦
      let e = >>=-err (query (select_event id)) found_payload c (next c c.tables) sqlite failed in
      rw (>>=-err (event_payload id) _ c (next c c.tables) sqlite e) (unread refl)
  | inr row ↦
      let d = next c c.tables in
      let e = >>=-ok (query (select_event id)) found_payload c d (select_event id c.tables) row in
      rw (bind_same (event_payload id) (found_payload (select_event id c.tables)) _ c d e)
        (found-IsResponse changed id (select_event id c.tables) d refl)
]

-- What is said of the tables: the change was made, or they are the old ones.
abbrev Changed : (Tables → Tables → Type 0) → Bool → Tables → Tables → Type 0
Changed Made changed old new = ((changed ≡ true) × Made old new) ⊎ ((changed ≡ false) × (new ≡ old))

-- What a change of the event `id` and the reading of its answer leave.
data IsAnswered (Made : Tables → Tables → Type 0) (id : ℕ) (old : Tables)
    : Result EventResponse × Connection → Type 0 where
  lost : {x : Error} {c : Connection} → IsAnswered Made id old (err x, c)
  answered :
      {r : EventResponse} {c : Connection} (x : Joined)
      → Changed Made r.changed old c.tables
      → select_event id c.tables ≡ some x
      → r.payload ≡ payload_of x
      → IsAnswered Made id old (ok r, c)

module _ (Made : Tables → Tables → Type 0) (id : ℕ) where
  response-IsAnswered :
      (old t : Tables) (changed : Bool) (p : Result EventResponse × Connection)
      → Changed Made changed old t
      → IsResponse changed id t p
      → IsAnswered Made id old p
  response-IsAnswered old t changed _ s (unread e) = lost
  response-IsAnswered old t changed _ s (read e h) =
      answered _ (subst (Changed Made changed old) (sym e) s) (ap (select_event id) e ∙ h) refl

  module _ {A : Type 0} (handled : Error → Bool) (Done : A → Tables → Tables → Type 0)
      (changed : A → Bool) (event_id : A → ℕ) where
    after-IsAnswered :
        (old : Tables) (r : Result A) (c : Connection)
        → ((a : A) (new : Tables)
            → Done a old new
            → (event_id a ≡ id) × Changed Made (changed a) old new)
        → Atomic Done old r c.tables
        → IsAnswered Made id old ((lift r >>= λ a. respond (changed a) (event_id a)) c)
    unfolding lift ◌>>=◌
    after-IsAnswered old (ok a) c g h =
        let (same_id, made) = g a c.tables h in
        rw same_id (
          response-IsAnswered old c.tables (changed a) _ made (respond-IsResponse (changed a) id c))
    after-IsAnswered old (err x) c g h = lost

    operation-IsAnswered :
        (m : Sql A) (c : Connection)
        → ((a : A) (new : Tables)
            → Done a c.tables new
            → (event_id a ≡ id) × Changed Made (changed a) c.tables new)
        → IsAtomic handled Done c (m c)
        → IsAnswered Made id c.tables ((m >>= λ a. respond (changed a) (event_id a)) c)
    unfolding ◌>>=◌ lift
    operation-IsAnswered m c g h = after-IsAnswered c.tables (m c).0 (m c).1 g h.whole

  add_and_read-IsAnswered :
      (request : Events.AddEventRequest) (c : Connection)
      → c.before ≡ none
      → request.event_id ≡ id
      → ((old new : Tables) → IsAdded request old new → Made old new)
      → IsAnswered Made id c.tables (add_and_read request c)
  unfolding add_and_read
  add_and_read-IsAnswered request c idle named made =
      operation-IsAnswered is_add_fault (Adds request) (λ _. true) (λ res. res.event_id)
        (add_event request) c (λ a new h. (h.0 ∙ named, inl (refl, made c.tables new h.1)))
        (add_event-IsAtomic request c idle)

  Changed-Changed :
      (m : EventMutation) (target : EventStatus) (rid : ℕ) (old new : Tables) (b : Bool)
      → ((o n : Tables) → IsChanged m target rid o n true → Made o n)
      → IsChanged m target rid old new b
      → Changed Made b old new
  Changed-Changed m target rid old new b made (same e found zero eq) = inr (refl, eq)
  Changed-Changed m target rid old new b made (written e found some_changes eq) =
      inl (refl, made old new (written e found some_changes eq))

  change_and_read-IsAnswered :
      (m : EventMutation) (target : EventStatus) (rid : ℕ) (c : Connection)
      → c.before ≡ none
      → m.event_id ≡ id
      → ((o n : Tables) → IsChanged m target rid o n true → Made o n)
      → IsAnswered Made id c.tables (mutate_and_read (change_status m target rid) c)
  unfolding mutate_and_read
  change_and_read-IsAnswered m target rid c idle named made =
      operation-IsAnswered is_change_fault (Changes m target rid) (λ res. res.changed)
        (λ res. res.event_id) (change_status m target rid) c
        (λ a new h. (
          ap (λ (res : EventMutationResult). res.event_id) h.2 ∙ named,
          rw (ap (λ (res : EventMutationResult). res.changed) h.2)
              (Changed-Changed m target rid c.tables new h.0 made h.1),
        ))
        (change_status-IsAtomic m target rid c idle)

-- The instants of which a call tells `on_event`, when it changes something.
abbrev pub told_times : EventAction → List ℕ
told_times (adds r) = elim (validate_event r) [ none ↦ [] | some r' ↦ instant r'.occurred_at ∷ [] ]
told_times (excludes id reason) = []
told_times (restores id reason) = []

-- What a service call for the event `id` leaves, from what was there; `Made` is the change.
pub data IsTold (Made : Tables → Tables → Type 0) (id : ℕ) (times : List ℕ) (w : Services)
    : Result EventResponse × Services → Type 0 where
  raised :
      {x : Error} {w' : Services}
      → w'.fired ≡ w.fired
      → w'.published ≡ w.published
      → IsTold Made id times w (err x, w')
  unchanged :
      {r : EventResponse} {w' : Services}
      → r.changed ≡ false
      → w'.connection.tables ≡ w.connection.tables
      → w'.fired ≡ w.fired
      → w'.published ≡ w.published
      → IsTold Made id times w (ok r, w')
  told :
      {r : EventResponse} {w' : Services} (x : Joined)
      → r.changed ≡ true
      → Made w.connection.tables w'.connection.tables
      → select_event id w'.connection.tables ≡ some x
      → r.payload ≡ payload_of x
      → w'.fired ≡ w.fired ++ r.payload ∷ []
      → w'.published ≡ w.published ++ times
      → IsTold Made id times w (ok r, w')

abbrev placed : Services → Result EventResponse × Connection → Exec Services EventResponse
placed w p _ = (p.0, record w { connection = p.1 })

told_if :
    (r : EventResponse) (w : Services)
    → r.changed ≡ true
    → fire_if_changed r w ≡ (ok r, record w { fired = w.fired ++ r.payload ∷ [] })
unfolding fire_if_changed
told_if r w c = simp (c) refl

not_told : (r : EventResponse) (w : Services) → r.changed ≡ false → fire_if_changed r w ≡ (ok r, w)
unfolding fire_if_changed
not_told r w c = simp (c) refl

published_if :
    (t : ℕ) (r : EventResponse) (w : Services)
    → r.changed ≡ true
    → publish t r w ≡ (ok r, record w { published = w.published ++ t ∷ [] })
unfolding publish
published_if t r w c = simp (c) refl

not_published :
    (t : ℕ) (r : EventResponse) (w : Services) → r.changed ≡ false → publish t r w ≡ (ok r, w)
unfolding publish
not_published t r w c = simp (c) refl

published-IsTold :
    (Made : Tables → Tables → Type 0) (id : ℕ) (w : Services) (t : ℕ)
    (p : Result EventResponse × Connection)
    → IsAnswered Made id w.connection.tables p
    → IsTold Made id (t ∷ []) w ((placed w p >>= publish t >>= fire_if_changed) w)
published-IsTold Made id w t _ (lost {x = x} {c = c}) =
    let e' = >>=-err (placed w (err x, c)) (publish t) w _ x refl in
    rw (>>=-err (placed w (err x, c) >>= publish t) fire_if_changed w _ x e') (raised refl refl)
published-IsTold Made id w t _ (answered {r = r} {c = c} x (inl (h, made)) found e) =
    let placed_at : Services = record w { connection = c } in
    let e' = >>=-ok (placed w (ok r, c)) (publish t) w placed_at r refl in
    rw
      (
        >>=-ok (placed w (ok r, c) >>= publish t) fire_if_changed w _ r
            (e' ∙ published_if t r placed_at h),
        told_if r _ h,
      )
      (told x h made found e refl refl)
published-IsTold Made id w t _ (answered {r = r} {c = c} x (inr (h, kept)) found e) =
    let placed_at : Services = record w { connection = c } in
    let e' = >>=-ok (placed w (ok r, c)) (publish t) w placed_at r refl in
    rw
      (
        >>=-ok (placed w (ok r, c) >>= publish t) fire_if_changed w placed_at r
            (e' ∙ not_published t r placed_at h),
        not_told r placed_at h,
      )
      (unchanged h kept refl refl)

fired-IsTold :
    (Made : Tables → Tables → Type 0) (id : ℕ) (w : Services)
    (p : Result EventResponse × Connection)
    → IsAnswered Made id w.connection.tables p
    → IsTold Made id [] w ((placed w p >>= fire_if_changed) w)
unfolding ◌>>=◌
fired-IsTold Made id w _ lost = raised refl refl
fired-IsTold Made id w _ (answered {r = r} {c = c} x (inl (h, made)) found e) =
    rw (told_if r (record w { connection = c }) h)
      (told x h made found e refl (sym (append-nil w.published)))
fired-IsTold Made id w _ (answered {r = r} {c = c} x (inr (h, kept)) found e) =
    rw (not_told r (record w { connection = c }) h) (unchanged h kept refl refl)

module _ (store_coordinates : Bool) (user_id : Option String) (fresh now : ℕ) where
  -- The change of an action: the new event with the number `fresh`, or the new status of the named
  -- event, which is another than its old one, with one audit row of the number `fresh`.
  pub data IsMade (old new : Tables) : EventAction → Type 0 where
    added :
        {r r' : AddEventRequest}
        → validate_event r ≡ some r'
        → IsAdded (manual_request fresh now store_coordinates r') old new
        → IsMade old new (adds r)
    excluded :
        {id : ℕ} {reason : Option String}
        → IsChanged
            (mutation store_coordinates user_id fresh now id (strip_option reason))
            EventStatus.excluded
            fresh
            old
            new
            true
        → IsMade old new (excludes id reason)
    restored :
        {id : ℕ} {reason : Option String}
        → IsChanged
            (mutation store_coordinates user_id fresh now id (strip_option reason))
            EventStatus.confirmed
            fresh
            old
            new
            true
        → IsMade old new (restores id reason)

  abbrev pub changed_id : EventAction → ℕ
  changed_id (adds r) = fresh
  changed_id (excludes id reason) = id
  changed_id (restores id reason) = id

  abbrev pub Makes : EventAction → Tables → Tables → Type 0
  Makes action old new = IsMade old new action

  add-IsTold :
      (w : Services) (r : AddEventRequest) (valid : Option AddEventRequest)
      → validate_event r ≡ valid
      → w.connection.before ≡ none
      → IsTold
          (Makes (adds r))
          fresh
          (elim valid [ none ↦ [] | some r' ↦ instant r'.occurred_at ∷ [] ])
          w
          ((dispatch_add store_coordinates user_id fresh now valid >>= fire_if_changed) w)
  unfolding dispatch_add async_add_event run raise ◌>>=◌ async_add_manual_event manual_request
  add-IsTold w r none h idle = raised refl refl
  add-IsTold w r (some r') h idle =
      let request = manual_request fresh now store_coordinates r' in
      published-IsTold (Makes (adds r)) fresh w (instant r'.occurred_at)
        (add_and_read request w.connection)
        (add_and_read-IsAnswered (Makes (adds r)) fresh request w.connection idle refl
          (λ old new k. added h k))

  -- A call of an event service on an idle store, whichever statements fail. If it raises, it fires
  -- no event and tells `on_event` nothing. If its answer says that nothing has changed, no table
  -- has, and again nothing is fired or told. If its answer says that something has changed, the
  -- action's change has been made: the new event added, or the other status and its audit row
  -- written. Its payload is then read from the rows stored now of the event that the action is
  -- about, it is the one event that is fired, and `on_event` is told of a validated new event's
  -- instant and of nothing for another action.
  pub dispatch_event-IsTold :
      (action : EventAction) (w : Services)
      → w.connection.before ≡ none
      → IsTold
          (Makes action)
          (changed_id action)
          (told_times action)
          w
          (dispatch_event store_coordinates user_id fresh now action w)
  unfolding dispatch_event dispatch_action run exclude_event restore_event mutation mutate_and_read
      ◌>>=◌
  dispatch_event-IsTold (adds r) w idle = add-IsTold w r (validate_event r) refl idle
  dispatch_event-IsTold (excludes id reason) w idle =
      fired-IsTold (Makes (excludes id reason)) id w _ (
        change_and_read-IsAnswered (Makes (excludes id reason)) id _ EventStatus.excluded fresh
          w.connection idle refl (λ old new k. excluded k))
  dispatch_event-IsTold (restores id reason) w idle =
      fired-IsTold (Makes (restores id reason)) id w _ (
        change_and_read-IsAnswered (Makes (restores id reason)) id _ EventStatus.confirmed fresh
          w.connection idle refl (λ old new k. restored k))
