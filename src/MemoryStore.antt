-- ===== src/MemoryStore.antt =====
-- SDNSDK/Data/Store/MXMemoryStore/MXMemoryStore.m: the stores of all rooms, their outgoing messages
-- and their receipts. A reader creates the store of a room that has none, so it returns the new
-- state too. Objects that are shared are written back. The user is the credentials' one.
pub mod Readers
pub mod Places
pub mod Receipts
pub mod Unread
pub mod Rooms
mod Tests
use sendingnetwork_ios.Common.{
  equal_ids, ℕ, suc, ◌+◌, String, Bool, true, false, Option, none, some, List, [], ◌∷◌, ◌++◌, ◌&&◌,
  ◌||◌, not, is_some, if◌then◌else◌, ◌==◌, ltb, length,
}
use sendingnetwork_ios.Common.Int.{ℤ, pos, negsuc}
use sendingnetwork_ios.Common.Dict.{Dict, lookup, insert, remove, keys}
use sendingnetwork_ios.RoomStore.{
  Event, RoomStore, TimelineDirection, OutgoingMessagesStore, event_with_event_id, store_event,
  replace_event, remove_all_messages, events_in_thread, events_after, relations_for_event,
  store_outgoing_message, remove_outgoing_message, remove_all_outgoing_messages,
}
use sendingnetwork_ios.RoomStore as Room

-- MXReceiptData
pub record ReceiptData : Type 0 where
  pub user_id : String
  pub event_id : Option String
  pub thread_id : Option String
  pub ts : ℕ

abbrev pub RoomReceiptsStore : Type 0
RoomReceiptsStore = Dict ReceiptData

abbrev pub RoomThreadedReceiptsStore : Type 0
RoomThreadedReceiptsStore = Dict RoomReceiptsStore

pub record MemoryStore : Type 0 where
  pub user_id : String
  pub room_stores : Dict RoomStore
  pub room_outgoing_messages_stores : Dict OutgoingMessagesStore
  pub room_threaded_receipts_stores : Dict RoomThreadedReceiptsStore
  pub room_unreaded : List String
  pub max_upload_size : ℤ

abbrev pub init : String → MemoryStore
init user_id = record {
  user_id = user_id;
  room_stores = [];
  room_outgoing_messages_stores = [];
  room_threaded_receipts_stores = [];
  room_unreaded = [];
  max_upload_size = negsuc 0;
}

abbrev pub or_new {ℓ} : {A : Type ℓ} → A → Option A → A
or_new fresh none = fresh
or_new fresh (some a) = a

-- The store of a room, as `getOrCreateRoomStore:` returns it.
abbrev pub room_store : String → MemoryStore → RoomStore
room_store room_id s = or_new Room.init (lookup room_id s.room_stores)

abbrev pub put_room : String → RoomStore → MemoryStore → MemoryStore
put_room room_id room s = record s { room_stores = insert room_id room s.room_stores }

unfoldable pub get_or_create_room_store : String → MemoryStore → MemoryStore
get_or_create_room_store room_id s = elim (lookup room_id s.room_stores) [
  | none ↦ put_room room_id Room.init s
  | some _ ↦ s
]

unfoldable pub store_event_for_room : String → Event → TimelineDirection → MemoryStore → MemoryStore
store_event_for_room room_id event direction s =
    put_room room_id (store_event event direction (room_store room_id s)) s

unfoldable pub replace_event_in_room : Event → String → MemoryStore → MemoryStore
replace_event_in_room event room_id s =
    put_room room_id (replace_event event (room_store room_id s)) s

unfoldable pub event_in_room : String → String → MemoryStore → MemoryStore × Option Event
unfolding get_or_create_room_store
event_in_room event_id room_id s =
    (get_or_create_room_store room_id s, event_with_event_id event_id (room_store room_id s))

unfoldable pub event_exists_in_room : String → String → MemoryStore → MemoryStore × Bool
unfolding event_in_room
event_exists_in_room event_id room_id s =
    let (s', event) = event_in_room event_id room_id s in (s', is_some event)

unfoldable pub delete_all_messages_in_room : String → MemoryStore → MemoryStore
delete_all_messages_in_room room_id s =
    put_room room_id
      (record (remove_all_messages (room_store room_id s)) {
        pagination_token = none;
        has_reached_node_pagination_end = false;
      })
      s

-- The summary of the room is deleted with it, in the summary store.
unfoldable pub delete_room : String → MemoryStore → MemoryStore
delete_room room_id s = record s {
  room_stores = remove room_id s.room_stores;
  room_threaded_receipts_stores = remove room_id s.room_threaded_receipts_stores;
}

unfoldable pub delete_all_data : MemoryStore → MemoryStore
delete_all_data s = record s { room_stores = [] }

unfoldable pub store_pagination_token : String → Option String → MemoryStore → MemoryStore
store_pagination_token room_id token s =
    put_room room_id (record (room_store room_id s) { pagination_token = token }) s

unfoldable pub store_has_reached_node_pagination_end : String → Bool → MemoryStore → MemoryStore
store_has_reached_node_pagination_end room_id value s =
    put_room room_id (record (room_store room_id s) { has_reached_node_pagination_end = value }) s

unfoldable pub store_has_loaded_all_room_members : String → Bool → MemoryStore → MemoryStore
store_has_loaded_all_room_members room_id value s =
    put_room room_id
      (record (room_store room_id s) { has_loaded_all_room_members_for_room = value }) s

unfoldable pub store_partial_text_message : String → Option String → MemoryStore → MemoryStore
store_partial_text_message room_id text s =
    put_room room_id (record (room_store room_id s) { partial_attributed_text_message = text }) s

-- `getOrCreateRoomThreadedReceiptsStore:`
abbrev pub threaded_store : String → MemoryStore → RoomThreadedReceiptsStore
threaded_store room_id s = or_new [] (lookup room_id s.room_threaded_receipts_stores)

abbrev pub thread_key : Option String → String
thread_key none = "main"
thread_key (some thread_id) = thread_id

-- `getOrCreateReceiptsStoreForRoomWithId:threadId:`
abbrev pub receipts_store : String → String → MemoryStore → RoomReceiptsStore
receipts_store room_id thread s = or_new [] (lookup thread (threaded_store room_id s))

abbrev pub put_receipts : String → String → RoomReceiptsStore → MemoryStore → MemoryStore
put_receipts room_id thread receipts s = record s {
  room_threaded_receipts_stores =
      insert room_id (insert thread receipts (threaded_store room_id s))
        s.room_threaded_receipts_stores;
}

-- A receipt is taken for the first event of a user, or for another event at a later time.
abbrev pub takes : ReceiptData → Option ReceiptData → Bool
takes receipt none = true
takes receipt (some current) =
    not (equal_ids receipt.event_id current.event_id) && ltb current.ts receipt.ts

unfoldable pub store_receipt_for_thread :
    ReceiptData → String → String → MemoryStore → MemoryStore × Bool
store_receipt_for_thread receipt room_id thread s =
    let receipts = receipts_store room_id thread s in
    if takes receipt (lookup receipt.user_id receipts)
    then (put_receipts room_id thread (insert receipt.user_id receipt receipts) s, true)
    else (put_receipts room_id thread receipts s, false)

-- `isStored |= ...` for each thread of the room.
unfoldable pub store_receipt_for_threads :
    ReceiptData → String → List String → MemoryStore × Bool → MemoryStore × Bool
unfolding store_receipt_for_thread
store_receipt_for_threads receipt room_id [] r = r
store_receipt_for_threads receipt room_id (thread ∷ threads) (s, is_stored) =
    let (s', stored) = store_receipt_for_thread receipt room_id thread s in
    store_receipt_for_threads receipt room_id threads (s', is_stored || stored)

-- A receipt with no thread is stored for the main one and all the threads that there are.
unfoldable pub store_receipt_in :
    Option String → ReceiptData → String → MemoryStore → MemoryStore × Bool
unfolding store_receipt_for_threads
store_receipt_in none receipt room_id s =
    let (s', is_stored) = store_receipt_for_thread receipt room_id "main" s in
    store_receipt_for_threads receipt room_id (keys (threaded_store room_id s')) (s', is_stored)
store_receipt_in (some thread) receipt room_id s = store_receipt_for_thread receipt room_id thread s

unfoldable pub store_receipt : ReceiptData → String → MemoryStore → MemoryStore × Bool
unfolding store_receipt_in
store_receipt receipt room_id s = store_receipt_in receipt.thread_id receipt room_id s

unfoldable pub get_receipt :
    String → Option String → String → MemoryStore → MemoryStore × Option ReceiptData
get_receipt room_id thread_id user_id s =
    let receipts = receipts_store room_id (thread_key thread_id) s in
    (put_receipts room_id (thread_key thread_id) receipts s, lookup user_id receipts)

-- A set without order; an id stands in it once.
abbrev pub contains : String → List String → Bool
contains x [] = false
contains x (y ∷ ys) = (y == x) || contains x ys

abbrev pub without : String → List String → List String
without x [] = []
without x (y ∷ ys) = let rest = without x ys in if y == x then rest else y ∷ rest

unfoldable pub set_unread_for_room : String → MemoryStore → MemoryStore
set_unread_for_room room_id s = record s {
  room_unreaded =
      if contains room_id s.room_unreaded then s.room_unreaded else room_id ∷ s.room_unreaded;
}

unfoldable pub reset_unread_for_room : String → MemoryStore → MemoryStore
reset_unread_for_room room_id s = record s { room_unreaded = without room_id s.room_unreaded }

unfoldable pub is_room_marked_as_unread : String → MemoryStore → Bool
is_room_marked_as_unread room_id s = contains room_id s.room_unreaded

-- The types are given: the sets are made of an array that is not nil.
unfoldable pub new_incoming_events :
    String → Option String → List String → MemoryStore → MemoryStore × List Event
unfolding get_or_create_room_store
new_incoming_events room_id thread_id types s =
    let room = room_store room_id s in
    let receipts = receipts_store room_id (thread_key thread_id) s in
    let s' =
      put_receipts room_id (thread_key thread_id) receipts (get_or_create_room_store room_id s) in
    let events : List Event = elim (lookup s.user_id receipts) [
      | some receipt ↦ events_after receipt.event_id thread_id (some s.user_id) (some types) room
      | none ↦
          if ltb 0 (length receipts)
          then events_in_thread thread_id (some s.user_id) (some types) room
          else []
    ] in
    (s', events)

unfoldable pub count_not_redacted : List Event → ℕ
count_not_redacted [] = 0
count_not_redacted (event ∷ events) =
    (if not event.is_redacted_event then 1 else 0) + count_not_redacted events

unfoldable pub local_unread_event_count :
    String → Option String → List String → MemoryStore → MemoryStore × ℕ
unfolding new_incoming_events count_not_redacted
local_unread_event_count room_id thread_id types s =
    let (s', events) = new_incoming_events room_id thread_id types s in
    (s', count_not_redacted events)

-- `getOrCreateRoomOutgoingMessagesStore:`
abbrev pub outgoing_store : String → MemoryStore → OutgoingMessagesStore
outgoing_store room_id s = or_new [] (lookup room_id s.room_outgoing_messages_stores)

abbrev pub put_outgoing : String → OutgoingMessagesStore → MemoryStore → MemoryStore
put_outgoing room_id messages s = record s {
  room_outgoing_messages_stores = insert room_id messages s.room_outgoing_messages_stores;
}

unfoldable pub store_outgoing_message_for_room : String → Event → MemoryStore → MemoryStore
store_outgoing_message_for_room room_id event s =
    put_outgoing room_id (store_outgoing_message event (outgoing_store room_id s)) s

unfoldable pub remove_outgoing_message_from_room : String → String → MemoryStore → MemoryStore
remove_outgoing_message_from_room room_id event_id s =
    put_outgoing room_id (remove_outgoing_message event_id (outgoing_store room_id s)) s

unfoldable pub remove_all_outgoing_messages_from_room : String → MemoryStore → MemoryStore
remove_all_outgoing_messages_from_room room_id s =
    put_outgoing room_id (remove_all_outgoing_messages (outgoing_store room_id s)) s

unfoldable pub outgoing_messages_in_room : String → MemoryStore → MemoryStore × List Event
outgoing_messages_in_room room_id s =
    (put_outgoing room_id (outgoing_store room_id s) s, outgoing_store room_id s)
