-- ===== src/Export/Rows/Selected.antt =====
-- export.py: which events are exported, in which order, and that coordinates stay out unless they
-- are asked for.
use hass_geofence_journal.Prelude.{
  ℕ, ◌≡◌, refl, ap, ◌∙◌, Bool, true, false, not, ◌&&◌, ◌||◌, ltb, leb, ◌==◌, if◌then◌else◌, Option,
  none, some, List, [], ◌∷◌, arith, inl, inr, is_some, Option-cases, map,
}
use hass_geofence_journal.Float.{Float}
use hass_geofence_journal.Storage.Records.{EventRow}
use hass_geofence_journal.Storage.Tables.{Tables}
use hass_geofence_journal.Storage.Maintenance.{count_if}
use hass_geofence_journal.Export.Csv.{Value}
use hass_geofence_journal.Export.Rows.{
  ExportRequest, Joined, join_event, is_selected, joined, not_after, insert_row, sort_rows,
  export_rows, row_values, exported_row, exported_rows, take,
}

-- The earlier row comes first, and of two at one time the one with the smaller id.
abbrev pub in_time : Joined → Joined → Bool
in_time x y =
    if x.event.occurred_at == y.event.occurred_at
    then leb x.event.id y.event.id
    else leb x.event.occurred_at y.event.occurred_at

-- An event of the journal at an instant that no bound excludes.
abbrev pub wanted : ExportRequest → EventRow → Bool
wanted r e =
    if e.journal_id == r.journal_id
    then not (
        elim r.start_at [ none ↦ false | some first ↦ ltb e.occurred_at first ]
        || elim r.end_at [ none ↦ false | some last ↦ ltb last e.occurred_at ])
    else false

in_time-not_after : (x y : Joined) → not_after x y ≡ in_time x y
unfolding not_after
in_time-not_after x y = ground arith

wanted-is_selected : (r : ExportRequest) (e : EventRow) → is_selected r e ≡ wanted r e
unfolding is_selected
wanted-is_selected r e = ground arith

-- Each row in time with the next.
abbrev pub ordered_after : Joined → List Joined → Bool
ordered_after x [] = true
ordered_after x (y ∷ ys) = in_time x y && ordered_after y ys

abbrev pub ordered : List Joined → Bool
ordered [] = true
ordered (x ∷ xs) = ordered_after x xs

-- Every event has its journal, tracker and place, as the foreign keys demand.
abbrev pub all_joined : Tables → List EventRow → Bool
all_joined t [] = true
all_joined t (e ∷ events) = is_some (join_event t e) && all_joined t events

in_time-total : (x y : Joined) → in_time x y ≡ false → in_time y x ≡ true
in_time-total x y h = ground arith

insert_row-after :
    (x y : Joined) (ys : List Joined)
    → in_time y x ≡ true
    → ordered_after y ys ≡ true
    → ordered_after y (insert_row x ys) ≡ true
unfolding insert_row
insert_row-after x y [] h k = ground arith
insert_row-after x y (z ∷ zs) h k =
    let rest = insert_row-after x z zs in
    ground (arith, rest, in_time-total x z, in_time-not_after x z)

insert_row-ordered :
    (x : Joined) (xs : List Joined) → ordered xs ≡ true → ordered (insert_row x xs) ≡ true
unfolding insert_row
insert_row-ordered x [] h = refl
insert_row-ordered x (y ∷ ys) h =
    ground (arith, insert_row-after x y ys, in_time-total x y, in_time-not_after x y)

count-insert_row :
    (p : Joined → Bool) (x : Joined) (xs : List Joined)
    → count_if p (insert_row x xs) ≡ count_if p (x ∷ xs)
unfolding insert_row count_if
count-insert_row p x [] = refl
count-insert_row p x (y ∷ ys) = ground (arith, count-insert_row p x ys)

count-sort_rows : (p : Joined → Bool) (xs : List Joined) → count_if p (sort_rows xs) ≡ count_if p xs
unfolding sort_rows count_if
count-sort_rows p [] = refl
count-sort_rows p (x ∷ xs) =
    count-insert_row p x (sort_rows xs) ∙ ground (arith, count-sort_rows p xs)

joined-event : (t : Tables) (e : EventRow) (x : Joined) → join_event t e ≡ some x → x.event ≡ e
unfolding join_event
joined-event t e x h = ground arith

count-joined :
    (t : Tables) (r : ExportRequest) (p : EventRow → Bool) (events : List EventRow)
    → all_joined t events ≡ true
    → count_if (λ (x : Joined). p x.event) (joined t r events)
      ≡ count_if (λ e. wanted r e && p e) events
unfolding joined count_if
count-joined t r p [] h = refl
count-joined t r p (e ∷ events) h = elim (Option-cases (join_event t e)) [
  | inl lost ↦ absurd (ground (arith, lost))
  | inr (x, found) ↦
      let rest = count-joined t r p events in
      let event = ap p (joined-event t e x found) in
      ground (arith, found, rest, event, wanted-is_selected r e)
]

insert_row-sorted : (xs : List Joined) → ordered (sort_rows xs) ≡ true
unfolding sort_rows
insert_row-sorted [] = refl
insert_row-sorted (x ∷ xs) = insert_row-ordered x (sort_rows xs) (insert_row-sorted xs)

-- An export holds its rows in the order of their times and, at one time, of their ids; and it holds
-- exactly the events of the journal within the interval, ends included: whatever one counts among
-- the events, there are as many in the export as there are such events. Every event refers to a
-- journal, a tracker and a place that are there.
pub export_rows-exact :
    (r : ExportRequest) (t : Tables) (p : EventRow → Bool)
    → all_joined t t.events ≡ true
    → (ordered (export_rows r t) ≡ true)
      × (count_if (λ (x : Joined). p x.event) (export_rows r t)
          ≡ count_if (λ e. wanted r e && p e) t.events)
unfolding export_rows
export_rows-exact r t p h =
    let rows = joined t r t.events in
    (
      insert_row-sorted rows,
      count-sort_rows (λ (x : Joined). p x.event) rows ∙ count-joined t r p t.events h,
    )

-- Other coordinates and accuracies for the events.
module _ (f : EventRow → Option Float × Option Float × Option Float) where
  abbrev pub moved : EventRow → EventRow
  moved e = record e { latitude = (f e).0; longitude = (f e).1; accuracy_m = (f e).2 }

  abbrev pub moved_tables : Tables → Tables
  moved_tables t = record t { events = map moved t.events }

  abbrev moved_row : Joined → Joined
  moved_row x = record x { event = moved x.event }

  abbrev moved_option : Option Joined → Option Joined
  moved_option none = none
  moved_option (some x) = some (moved_row x)

  join_event-moved :
      (t : Tables) (e : EventRow)
      → join_event (moved_tables t) (moved e) ≡ moved_option (join_event t e)
  unfolding join_event
  join_event-moved t e = ground arith

  is_selected-moved : (r : ExportRequest) (e : EventRow) → is_selected r (moved e) ≡ is_selected r e
  unfolding is_selected
  is_selected-moved r e = refl

  not_after-moved : (x y : Joined) → not_after (moved_row x) (moved_row y) ≡ not_after x y
  unfolding not_after
  not_after-moved x y = refl

  joined-moved :
      (t : Tables) (r : ExportRequest) (events : List EventRow)
      → joined (moved_tables t) r (map moved events) ≡ map moved_row (joined t r events)
  unfolding joined
  joined-moved t r [] = refl
  joined-moved t r (e ∷ events) =
      ground (arith, joined-moved t r events, join_event-moved t e, is_selected-moved r e)

  insert_row-moved :
      (x : Joined) (xs : List Joined)
      → insert_row (moved_row x) (map moved_row xs) ≡ map moved_row (insert_row x xs)
  unfolding insert_row
  insert_row-moved x [] = refl
  insert_row-moved x (y ∷ ys) = ground (arith, insert_row-moved x ys, not_after-moved x y)

  sort_rows-moved : (xs : List Joined) → sort_rows (map moved_row xs) ≡ map moved_row (sort_rows xs)
  unfolding sort_rows
  sort_rows-moved [] = refl
  sort_rows-moved (x ∷ xs) =
      ap (insert_row (moved_row x)) (sort_rows-moved xs) ∙ insert_row-moved x (sort_rows xs)

  module _ (str_float : Float → List ℕ) (id_text time_text : ℕ → List ℕ) where
    abbrev cells : List Joined → List (List Value)
    cells = exported_rows str_float id_text time_text false

    cells-moved : (xs : List Joined) → cells (map moved_row xs) ≡ cells xs
    unfolding exported_rows exported_row row_values take
    cells-moved [] = refl
    cells-moved (x ∷ xs) =
        ap (λ rest. exported_row str_float id_text time_text false x ∷ rest) (cells-moved xs)

    -- Without include_coordinates, an export is the same whatever coordinates and accuracies the
    -- events have: nothing of them is written.
    pub export_rows-private :
        (r : ExportRequest) (t : Tables)
        → exported_rows str_float id_text time_text false (export_rows r (moved_tables t))
          ≡ exported_rows str_float id_text time_text false (export_rows r t)
    unfolding export_rows
    export_rows-private r t =
        ap (λ rows. cells (sort_rows rows)) (joined-moved t r t.events)
        ∙ ap cells (sort_rows-moved (joined t r t.events))
        ∙ cells-moved (sort_rows (joined t r t.events))
