-- ===== src/Enumerator.antt =====
-- SDNSDK/Data/EventsEnumerator/MXEventsEnumeratorOnArray.m and MXEventsByTypesEnumeratorOnArray.m:
-- the messages of a room in batches, from the newest on. The data source is the lookup of an event
-- by its id. A list that the code builds from the newest event on and then reverses is built here
-- in its final order.
pub mod Batches
pub mod InThread
mod Tests
use sendingnetwork_ios.Common.{
  ℕ, zero, suc, ◌+◌, String, Bool, true, false, Option, none, some, List, [], ◌∷◌, ◌&&◌, ◌||◌, not,
  is_some, equal_ids, if◌then◌else◌, ltb, leb, length, get_elem?, take,
}
use sendingnetwork_ios.RoomStore.{Event, is_in_thread, thread_id, contains_object}

abbrev pub DataSource : Type 0
DataSource = String → Option Event

pub record EventsEnumerator : Type 0 where
  pub event_ids : List String
  pub pagination_position : ℕ

abbrev pub init : List String → EventsEnumerator
init event_ids = record { event_ids = event_ids; pagination_position = length event_ids }

-- The event of the id at a position, as `nextEvent` finds it.
unfoldable pub event_at : DataSource → List String → ℕ → Option Event
event_at source ids i = elim (get_elem? ids i) [ none ↦ none | some id ↦ source id ]

unfoldable pub next_event : DataSource → EventsEnumerator → Option Event × EventsEnumerator
unfolding event_at
next_event source e = elim e.pagination_position [
  | zero ↦ (none, e)
  | suc i ↦ (event_at source e.event_ids i, record e { pagination_position = i })
]

abbrev pub add_event : Option Event → List Event → List Event
add_event none events = events
add_event (some event) events = event ∷ events

-- Ids with no event are left out.
unfoldable pub events_for_event_ids : DataSource → List String → List Event
events_for_event_ids source [] = []
events_for_event_ids source (id ∷ ids) = add_event (source id) (events_for_event_ids source ids)

abbrev pub in_thread_or_root : String → Event → Bool
in_thread_or_root thread event =
    equal_ids (thread_id event) (some thread) || equal_ids event.event_id (some thread)

-- The loop of a batch in a thread: until it is full or there is no next event.
unfoldable pub collect_in_thread :
    DataSource → List String → String → ℕ → ℕ → List Event → List Event × ℕ
unfolding event_at
collect_in_thread source ids thread count zero result = (result, 0)
collect_in_thread source ids thread count (suc i) result =
    let more : List Event × ℕ = elim (event_at source ids i) [
      | none ↦ (result, i)
      | some event ↦
          collect_in_thread source ids thread count i
            (if in_thread_or_root thread event then event ∷ result else result)
    ] in
    if ltb (length result) count then more else (result, suc i)

-- The loop of a batch with no thread: events in a thread are taken and not counted.
unfoldable pub collect : DataSource → List String → ℕ → ℕ → ℕ → List Event → List Event × ℕ
unfolding event_at
collect source ids events_count count zero result = (result, 0)
collect source ids events_count count (suc i) result =
    let more : List Event × ℕ = elim (event_at source ids i) [
      | none ↦ (result, i)
      | some event ↦
          collect source ids events_count (if is_in_thread event then count else suc count) i
            (event ∷ result)
    ] in
    if ltb count events_count then more else (result, suc i)

unfoldable pub collect_batch : DataSource → List String → Option String → ℕ → ℕ → List Event × ℕ
unfolding collect collect_in_thread
collect_batch source ids none events_count position = collect source ids events_count 0 position []
collect_batch source ids (some thread) events_count position =
    collect_in_thread source ids thread events_count position []

-- nil where nothing is left; all that is left where it is no more than asked for, in a thread too.
unfoldable pub next_events_batch :
    DataSource → ℕ → Option String → EventsEnumerator → Option (List Event) × EventsEnumerator
unfolding events_for_event_ids collect_batch
next_events_batch source events_count thread e =
    let position = e.pagination_position in
    let collected = collect_batch source e.event_ids thread events_count position in
    if leb position 0
    then (none, e)
    else if leb position events_count
    then (
      some (events_for_event_ids source (take position e.event_ids)),
      record e { pagination_position = 0 },
    )
    else (some collected.0, record e { pagination_position = collected.1 })

-- MXEventsByTypesEnumeratorOnArray: the next event of the wanted types.
abbrev wanted : Option (List String) → Event → Bool
wanted none event = is_some event.event_id
wanted (some types) event = is_some event.event_id && contains_object types event.type

unfoldable pub next_event_of_types :
    DataSource → Option (List String) → List String → ℕ → Option Event × ℕ
unfolding event_at
next_event_of_types source types ids zero = (none, 0)
next_event_of_types source types ids (suc i) =
    let rest = next_event_of_types source types ids i in
    elim (event_at source ids i) [
      | none ↦ (none, i)
      | some event ↦ if wanted types event then (some event, i) else rest
    ]

-- The newest event comes first in these batches.
unfoldable pub collect_of_types :
    DataSource → Option (List String) → List String → ℕ → ℕ → List Event × ℕ
unfolding next_event_of_types
collect_of_types source types ids zero position = ([], position)
collect_of_types source types ids (suc count) position =
    let (event, i) = next_event_of_types source types ids position in
    elim event [
      | none ↦ ([], i)
      | some event ↦
          let (events, j) = collect_of_types source types ids count i in (event ∷ events, j)
    ]

abbrev or_nil : List Event → Option (List Event)
or_nil [] = none
or_nil (event ∷ events) = some (event ∷ events)

unfoldable pub next_events_batch_of_types :
    DataSource
    → Option (List String)
    → ℕ
    → EventsEnumerator
    → Option (List Event) × EventsEnumerator
unfolding collect_of_types
next_events_batch_of_types source types events_count e =
    let (events, i) =
      collect_of_types source types e.event_ids events_count e.pagination_position in
    (or_nil events, record e { pagination_position = i })
