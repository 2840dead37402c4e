-- ===== src/RoomStore/Tests.antt =====
-- A room store with a thread.
use sendingnetwork_ios.Common.{ℕ, String, false, ◌≡◌, refl, Option, none, some, List, [], ◌∷◌}
use sendingnetwork_ios.RoomStore.{
  Event, RoomStore, RelatesTo, forwards, backwards, init, replace_event, events_in_thread,
  allowed_in_thread,
}
use sendingnetwork_ios.RoomStore.Index.{Call, stores, replaces, run}
use sendingnetwork_ios.RoomStore.Threads.{filter, after_last, has_id, events_in_thread-filter}
use sendingnetwork_ios.RoomStore.Replace.{replaced, replace_event-last}

abbrev message : ℕ → String → Option RelatesTo → Event
message object event_id relates_to = record {
  object = object;
  event_id = some event_id;
  type = some "m.room.message";
  sender = some "@a";
  relates_to = relates_to;
  is_redacted_event = false;
  redacts = none;
  origin_server_ts = 0;
}

abbrev in_thread : Option RelatesTo
in_thread = some (record { event_id = some "$1"; relation_type = some "m.thread" })

abbrev calls : List Call
calls =
    stores (message 1 "$1" none) forwards
    ∷ stores (message 2 "$2" in_thread) forwards
    ∷ stores (message 0 "$0" none) backwards
    ∷ replaces (message 3 "$2" in_thread)
    ∷ []

events_in_thread-filter_example :
    events_in_thread (some "$1") none none (run init calls)
    ≡ filter (allowed_in_thread "$1" none none) (after_last (some "$1") (run init calls).messages)
events_in_thread-filter_example = events_in_thread-filter "$1" none none (run init calls) refl

abbrev one_room : RoomStore
one_room = record init { messages = message 1 "$1" none ∷ message 2 "$2" none ∷ [] }

replace_event-last_example :
    replace_event (message 3 "$1" none) one_room
    ≡ replaced (message 3 "$1" none) [] (message 2 "$2" none ∷ []) one_room
unfolding has_id
replace_event-last_example =
    replace_event-last (message 3 "$1" none) (message 1 "$1" none) [] (message 2 "$2" none ∷ [])
      one_room refl refl refl
