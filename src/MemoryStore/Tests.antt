-- ===== src/MemoryStore/Tests.antt =====
-- A store with two rooms.
use sendingnetwork_ios.Common.{
  Bool, length, ltb, ℕ, String, true, false, ◌≡◌, ◌↔◌, refl, Option, none, some, List, [], ◌∷◌, In,
  arith,
}
use sendingnetwork_ios.Common.Dict.{lookup}
use sendingnetwork_ios.RoomStore.{
  events_after, events_down_to, thread_id, is_in_thread, Event, forwards, allowed_after,
  timeline_thread, store_event, event_with_event_id,
}
use sendingnetwork_ios.RoomStore as Room
use sendingnetwork_ios.RoomStore.Threads.{filter}
use sendingnetwork_ios.MemoryStore.{
  receipts_store, new_incoming_events, ReceiptData, MemoryStore, init, room_store,
  event_exists_in_room, store_receipt, local_unread_event_count, count_not_redacted,
}
use sendingnetwork_ios.MemoryStore.Unread.{is_unread, not_read, local_unread_event_count-filter}
use sendingnetwork_ios.MemoryStore.Places.{receipt_at}
use sendingnetwork_ios.MemoryStore.Receipts.{
  receipt_at-store_receipt, store_receipts, NotBefore, store_receipts-NotBefore,
}
use sendingnetwork_ios.MemoryStore.Rooms.{
  RoomCall, stores_event, deletes_room, call_rooms, effects, room_store-call_rooms,
  event_exists_in_room-call_rooms,
}

abbrev message : ℕ → String → Event
message object event_id = record {
  object = object;
  event_id = some event_id;
  type = some "m.room.message";
  sender = some "@b";
  relates_to = none;
  is_redacted_event = false;
  redacts = none;
  origin_server_ts = 0;
}

abbrev in_thread : ℕ → String → Bool → Event
in_thread object event_id is_redacted = record (message object event_id) {
  relates_to = some (record { event_id = some "$t"; relation_type = some "m.thread" });
  is_redacted_event = is_redacted;
}

abbrev receipt : String → ℕ → Option String → ReceiptData
receipt event_id ts thread_id = record {
  user_id = "@a";
  event_id = some event_id;
  thread_id = thread_id;
  ts = ts;
}

abbrev calls : List (String × RoomCall)
calls =
    ("!r", stores_event (message 1 "$1") forwards)
    ∷ ("!q", stores_event (message 2 "$2") forwards)
    ∷ ("!q", deletes_room)
    ∷ []

abbrev store : MemoryStore
store = record {
  user_id = "@a";
  room_stores = ("!r", record Room.init { messages = message 1 "$1" ∷ message 2 "$2" ∷ [] }) ∷ [];
  room_outgoing_messages_stores = [];
  room_threaded_receipts_stores = ("!r", ("main", ("@a", receipt "$2" 5 none) ∷ []) ∷ []) ∷ [];
  room_unreaded = [];
  max_upload_size = (init "@a").max_upload_size;
}

room_store-call_rooms_example :
    room_store "!q" (call_rooms (init "@a") calls)
    ≡ effects "!q" calls (room_store "!q" (init "@a"))
room_store-call_rooms_example = room_store-call_rooms calls "!q" (init "@a")

event_exists_in_room-call_rooms_example :
    ((event_exists_in_room "$1" "!r" (call_rooms (init "@a") calls)).1 ≡ true) ↔ (
      (e : Event) × In e (room_store "!r" (call_rooms (init "@a") calls)).messages
      × (e.event_id ≡ some "$1"))
event_exists_in_room-call_rooms_example = event_exists_in_room-call_rooms "@a" calls "!r" "$1"

receipt_at-store_receipt_example :
    receipt_at "!r" "main" "@a" (store_receipt (receipt "$1" 9 none) "!r" store).0
    ≡ some (receipt "$1" 9 none)
unfolding lookup
receipt_at-store_receipt_example =
    receipt_at-store_receipt (receipt "$1" 9 none) "!r" "!r" "main" "@a" store

store_receipts-NotBefore_example :
    NotBefore 5
      (receipt_at "!r" "main" "@a" (store_receipts ((receipt "$1" 3 none, "!r") ∷ []) store))
unfolding lookup
store_receipts-NotBefore_example =
    store_receipts-NotBefore ((receipt "$1" 3 none, "!r") ∷ []) "!r" "main" "@a" 5 store
      (omega arith)

-- A thread with two messages, of which the user has read the first.
abbrev thread_store : MemoryStore
thread_store = record store {
  room_stores =
      (
        "!r",
        record Room.init {
          messages =
              message 1 "$t"
              ∷ in_thread 2 "$2" false
              ∷ in_thread 3 "$3" true
              ∷ in_thread 4 "$4" false
              ∷ [];
        },
      )
      ∷ [];
  room_threaded_receipts_stores = ("!r", ("$t", ("@a", receipt "$2" 5 none) ∷ []) ∷ []) ∷ [];
}

one_unread : (local_unread_event_count "!r" (some "$t") ("m.room.message" ∷ []) thread_store).1 ≡ 1
unfolding local_unread_event_count new_incoming_events events_after events_down_to
    count_not_redacted lookup allowed_after thread_id is_in_thread
one_unread = refl

local_unread_event_count-filter_example :
    (local_unread_event_count "!r" (some "$t") ("m.room.message" ∷ []) thread_store).1 ≡ (
      let receipts = receipts_store "!r" "$t" thread_store in
      length (
        filter (is_unread "$t" "@a" ("m.room.message" ∷ [])) (
          not_read "$t"
            (ltb 0 (length receipts))
            (lookup "@a" receipts)
            (room_store "!r" thread_store).messages)))
local_unread_event_count-filter_example =
    local_unread_event_count-filter "!r" "$t" ("m.room.message" ∷ []) thread_store refl
