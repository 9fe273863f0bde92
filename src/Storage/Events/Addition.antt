-- ===== src/Storage/Events/Addition.antt =====
-- storage/events.py: a manual event is added whole or not at all.
use hass_geofence_journal.Prelude.{◌≡◌, refl, Bool, true, false, none, some, [], ◌∷◌, ◌++◌, arith}
use mathlib.Core.Path.{subst}
use hass_geofence_journal.Storage.Tables.{Tables, event_row_ok}
use hass_geofence_journal.Storage.Sql.{Connection, pure, raise, transaction}
use hass_geofence_journal.Storage.Sql.Laws.{
  IsBody, IsAtomic, transaction-IsAtomic, write-IsBody, query-IsBody, bind-IsBody,
  bind_pure-IsAtomic,
}
use hass_geofence_journal.Storage.Transitions.{insert_event}
use hass_geofence_journal.Storage.Events.{
  AddEventRequest, AddEventResult, manual_event, require, require_reference, is_add_fault, add_body,
  add_event, has_journal, has_tracker, has_place,
}

abbrev Kept : Unit {0} → Tables → Tables → Type 0
Kept _ old new = new ≡ old

abbrev After : Unit {0} → Tables → Tables → Type 0
After _ mid new = (old : Tables) → mid ≡ old → new ≡ old

require-IsBody : (b : Bool) → IsBody is_add_fault After (require b)
unfolding require pure raise
require-IsBody true = record { before = λ c. refl; ended = λ c old h. h }
require-IsBody false = record { before = λ c. refl; ended = λ c. refl }

require_reference-IsBody :
    (present : Tables → Bool) → IsBody is_add_fault Kept (require_reference present)
unfolding require_reference
require_reference-IsBody present =
    bind-IsBody is_add_fault (λ _ old new. new ≡ old) Kept _ _
      (query-IsBody is_add_fault _ present refl λ old. refl) require-IsBody

module _ (request : AddEventRequest) where
  -- One event has been appended, within the constraints, and nothing else has changed.
  pub record IsAdded (old new : Tables) : Type 0 where
    pub allowed : event_row_ok old (manual_event request) ≡ true
    pub tables : new ≡ record old { events = old.events ++ manual_event request ∷ [] }

  abbrev Added : Unit {0} → Tables → Tables → Type 0
  Added _ old new = IsAdded old new

  abbrev AfterKept : Unit {0} → Tables → Tables → Type 0
  AfterKept _ mid new = (old : Tables) → mid ≡ old → IsAdded old new

  insert_facts :
      (old new : Tables) → insert_event (manual_event request) old ≡ some new → IsAdded old new
  unfolding insert_event
  insert_facts old new h = record { allowed = ground arith; tables = ground arith }

  weaken : (old mid new : Tables) → mid ≡ old → IsAdded mid new → IsAdded old new
  weaken old mid new e h = subst (λ t. IsAdded t new) e h

  add_body-IsBody : IsBody is_add_fault Added (add_body request)
  unfolding add_body
  add_body-IsBody =
      bind-IsBody is_add_fault Kept Added _ _
        (require_reference-IsBody (has_journal request.journal_id))
        λ _.
          bind-IsBody is_add_fault Kept AfterKept _ _
            (require_reference-IsBody (has_tracker request.tracker_id))
            λ _.
              bind-IsBody is_add_fault Kept
                (λ _ mid new. (old : Tables) → mid ≡ old → AfterKept tt old new) _ _
                (require_reference-IsBody (has_place request.place_id))
                λ _.
                  write-IsBody is_add_fault _ (insert_event (manual_event request)) refl
                    λ old new made a e b f c g.
                      weaken c b new g
                        (weaken b a new f (weaken a old new e (insert_facts old new made)))

  abbrev pub Adds : AddEventResult → Tables → Tables → Type 0
  Adds res old new = (res.event_id ≡ request.event_id) × IsAdded old new

  -- On an idle connection, whichever statements fail, adding a manual event leaves the connection
  -- idle. If it raises, no table has changed. If it returns, its journal, tracker and place were
  -- there and its id was new, and exactly this event has been appended.
  pub add_event-IsAtomic :
      (c : Connection) → c.before ≡ none → IsAtomic is_add_fault Adds c (add_event request c)
  unfolding add_event
  add_event-IsAtomic c idle =
      bind_pure-IsAtomic is_add_fault Added Adds (λ _. record { event_id = request.event_id })
        (transaction is_add_fault (add_body request)) c (λ u new h. (refl, h))
        (transaction-IsAtomic is_add_fault Added (add_body request) c add_body-IsBody idle)
