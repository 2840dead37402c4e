-- ===== src/MemoryStore/Readers.antt =====
-- SDNSDK/Data/Store/MXMemoryStore/MXMemoryStore.m: the readers of what is kept for a room. Each
-- creates the store that it reads from.
use sendingnetwork_ios.Common.{ℕ, String, Bool, Option, none, some, List, [], ◌∷◌}
use sendingnetwork_ios.Common.Dict.{Dict, lookup, keys, insert}
use sendingnetwork_ios.MemoryStore.{
  MemoryStore, ReceiptData, RoomThreadedReceiptsStore, room_store, get_or_create_room_store,
  threaded_store, local_unread_event_count,
}

unfoldable pub pagination_token_of_room : String → MemoryStore → MemoryStore × Option String
pagination_token_of_room room_id s =
    (get_or_create_room_store room_id s, (room_store room_id s).pagination_token)

unfoldable pub has_reached_node_pagination_end_for_room : String → MemoryStore → MemoryStore × Bool
has_reached_node_pagination_end_for_room room_id s =
    (get_or_create_room_store room_id s, (room_store room_id s).has_reached_node_pagination_end)

unfoldable pub has_loaded_all_room_members_for_room : String → MemoryStore → MemoryStore × Bool
has_loaded_all_room_members_for_room room_id s = (
  get_or_create_room_store room_id s,
  (room_store room_id s).has_loaded_all_room_members_for_room,
)

unfoldable pub partial_text_message_of_room : String → MemoryStore → MemoryStore × Option String
partial_text_message_of_room room_id s =
    (get_or_create_room_store room_id s, (room_store room_id s).partial_attributed_text_message)

unfoldable pub get_or_create_threaded_store : String → MemoryStore → MemoryStore
get_or_create_threaded_store room_id s = record s {
  room_threaded_receipts_stores =
      insert room_id (threaded_store room_id s) s.room_threaded_receipts_stores;
}

abbrev with_receipt : String → Option ReceiptData → Dict ReceiptData → Dict ReceiptData
with_receipt thread_id none receipts = receipts
with_receipt thread_id (some receipt) receipts = (thread_id, receipt) ∷ receipts

abbrev receipts_of_user : String → RoomThreadedReceiptsStore → Dict ReceiptData
receipts_of_user user_id [] = []
receipts_of_user user_id ((thread_id, receipts) ∷ threads) =
    with_receipt thread_id (lookup user_id receipts) (receipts_of_user user_id threads)

-- The receipts of a user by thread.
unfoldable pub get_receipts_in_room : String → String → MemoryStore → MemoryStore × Dict ReceiptData
get_receipts_in_room room_id user_id s =
    (get_or_create_threaded_store room_id s, receipts_of_user user_id (threaded_store room_id s))

-- The counts of a list of threads, one after the other.
unfoldable pub local_unread_event_counts :
    String → List String → List String → MemoryStore → MemoryStore × Dict ℕ
local_unread_event_counts room_id types [] s = (s, [])
local_unread_event_counts room_id types (thread_id ∷ threads) s =
    let (s', count) = local_unread_event_count room_id (some thread_id) types s in
    let (s'', counts) = local_unread_event_counts room_id types threads s' in
    (s'', (thread_id, count) ∷ counts)

unfoldable pub local_unread_event_count_per_thread :
    String → List String → MemoryStore → MemoryStore × Dict ℕ
unfolding local_unread_event_counts
local_unread_event_count_per_thread room_id types s =
    local_unread_event_counts room_id types (keys (threaded_store room_id s))
      (get_or_create_threaded_store room_id s)
