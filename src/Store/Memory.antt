-- ===== src/Store/Memory.antt =====
-- The memory store, SDNSDK/Data/Store/MXMemoryStore/MXMemoryStore.m, as an instance of the interface.
use sendingnetwork_ios.Common.{
  true, false, some, Bool-cases, inl, inr, ◌||◌, not, length, String, Bool, false, ◌≡◌, refl, ap,
  ◌∙◌, Option, none, List, [], ◌∷◌, ◌==◌, is_some, eq_iff, eq_refl, if◌then◌else◌, arith,
}
use sendingnetwork_ios.Common.Dict.{lookup-remove_same, lookup, lookup-insert_same}
use sendingnetwork_ios.RoomStore.{
  has_object, store_outgoing_message, OutgoingMessagesStore, replace_below, Event, RoomStore,
  TimelineDirection, event_with_event_id, store_event, index_event, remove_all_messages,
  remove_all_outgoing_messages, replace_event,
}
use sendingnetwork_ios.RoomStore as Room
use sendingnetwork_ios.MemoryStore.{
  outgoing_store, put_outgoing, thread_key, store_receipt, get_receipt, MemoryStore, or_new,
  room_store, store_event_for_room, replace_event_in_room, event_exists_in_room, event_in_room,
  delete_all_messages_in_room, delete_room, delete_all_data, store_pagination_token,
  store_has_reached_node_pagination_end, store_has_loaded_all_room_members,
  store_partial_text_message, set_unread_for_room, reset_unread_for_room, is_room_marked_as_unread,
  store_outgoing_message_for_room, remove_all_outgoing_messages_from_room,
  remove_outgoing_message_from_room, outgoing_messages_in_room, contains,
}
use sendingnetwork_ios.MemoryStore.Readers.{
  pagination_token_of_room, has_reached_node_pagination_end_for_room,
  has_loaded_all_room_members_for_room, partial_text_message_of_room,
}
use sendingnetwork_ios.MemoryStore.Rooms.{room_store-delete, room_store-put}
use sendingnetwork_ios.Store.{Store, IsStore, event_of}
use sendingnetwork_ios.MemoryStore.Receipts.{receipt_at-store_receipt}
use sendingnetwork_ios.Store.Rooms.{
  in_room, same_room, replaced_elsewhere, has_object-store_outgoing_message, outgoing_store-put,
  kept, here, contains-without, stored_in, room_store-get_or_create, replaced_keeps_event,
  replace_below_end, store_receipt_rooms,
}

abbrev pub memory_store : Store MemoryStore
memory_store = record {
  messages = record {
    store_event_for_room = store_event_for_room;
    replace_event_in_room = replace_event_in_room;
    event_exists_with_event_id = event_exists_in_room;
    event_with_event_id = event_in_room;
    delete_all_messages_in_room = delete_all_messages_in_room;
    delete_room = delete_room;
    delete_all_data = delete_all_data;
  };
  pagination = record {
    store_pagination_token = store_pagination_token;
    pagination_token = pagination_token_of_room;
    store_has_reached_node_pagination_end = store_has_reached_node_pagination_end;
    has_reached_node_pagination_end = has_reached_node_pagination_end_for_room;
    store_has_loaded_all_room_members = store_has_loaded_all_room_members;
    has_loaded_all_room_members = has_loaded_all_room_members_for_room;
  };
  marks = record {
    set_unread_for_room = set_unread_for_room;
    reset_unread_for_room = reset_unread_for_room;
    is_room_marked_as_unread = is_room_marked_as_unread;
  };
  partial = record {
    store_partial_text_message = store_partial_text_message;
    partial_text_message = partial_text_message_of_room;
  };
  outgoing = record {
    store_outgoing_message_for_room = store_outgoing_message_for_room;
    remove_all_outgoing_messages_from_room = remove_all_outgoing_messages_from_room;
    remove_outgoing_message_from_room = remove_outgoing_message_from_room;
    outgoing_messages_in_room = outgoing_messages_in_room;
  };
  receipts = record { store_receipt = store_receipt; get_receipt_in_room = get_receipt };
}

-- What the writes make of the store of a room.
abbrev without_messages : RoomStore → RoomStore
without_messages r = record (remove_all_messages r) {
  pagination_token = none;
  has_reached_node_pagination_end = false;
}

abbrev with_token : Option String → RoomStore → RoomStore
with_token t r = record r { pagination_token = t }

abbrev with_end : Bool → RoomStore → RoomStore
with_end b r = record r { has_reached_node_pagination_end = b }

deleted_room_is_new :
    (room : String) (s : MemoryStore) → room_store room (delete_room room s) ≡ Room.init
deleted_room_is_new room s = room_store-delete room room s ∙ rw (eq_refl room) refl

marked_in :
    (other room : String) (ids : List String)
    → contains other (if contains room ids then ids else room ∷ ids)
      ≡ ((room == other) || contains other ids)
marked_in other room ids = ground (arith, eq_iff room other)

no_event :
    (k : String) (b : Bool) (r : RoomStore)
    → lookup k (if b then Room.init else r).messages_by_event_ids
      ≡ (if b then none else lookup k r.messages_by_event_ids)
unfolding lookup
no_event k true r = refl
no_event k false r = refl

outgoing_elsewhere :
    (room other : String) (es : OutgoingMessagesStore) (s : MemoryStore)
    → (let s' = put_outgoing room es s in
        outgoing_store other s'
        ≡ (if room == other then outgoing_store other s' else outgoing_store other s))
outgoing_elsewhere room other es s = elim (Bool-cases (room == other)) [
  | inl same ↦ rw same refl
  | inr apart ↦ rw apart (outgoing_store-put room other es s ∙ rw apart refl)
]

pub memory_store-IsStore : IsStore memory_store
unfolding event_exists_in_room event_in_room event_with_event_id store_event_for_room
    delete_all_messages_in_room store_pagination_token store_has_reached_node_pagination_end
    store_has_loaded_all_room_members store_partial_text_message pagination_token_of_room
    has_reached_node_pagination_end_for_room has_loaded_all_room_members_for_room
    partial_text_message_of_room set_unread_for_room reset_unread_for_room is_room_marked_as_unread
    remove_all_outgoing_messages_from_room outgoing_messages_in_room remove_all_outgoing_messages
    store_event remove_all_messages lookup replace_event replace_event_in_room store_receipt
    delete_all_data delete_room get_receipt store_outgoing_message_for_room replace_below
memory_store-IsStore = record {
  exists = λ k room s. refl;
  stored = λ k other room e d s.
      ap (λ r. lookup k r.messages_by_event_ids) (room_store-put room other (store_event e d) s)
      ∙ stored_in (room == other) k e d (room_store other s);
  read_event = λ j k room other s.
      ap (λ r. lookup j r.messages_by_event_ids) (room_store-get_or_create room other s);
  read_end = λ k room s.
      ap (λ r. r.has_reached_node_pagination_end) (room_store-get_or_create room room s);
  asked_event = λ j k room other s.
      ap (λ r. lookup j r.messages_by_event_ids) (room_store-get_or_create room other s);
  asked_end = λ k room s.
      ap (λ r. r.has_reached_node_pagination_end) (room_store-get_or_create room room s);
  replaced_keeps = λ k room e s.
      ap (λ found. not (is_some (event_of memory_store k room s)) || is_some found)
        (here (λ r. lookup k r.messages_by_event_ids) (replace_event e) room s)
      ∙ replaced_keeps_event k e (room_store room s);
  replaced_end = λ room e s.
      kept (λ r. r.has_reached_node_pagination_end) (replace_event e) room room s
        (λ r. replace_below_end (length r.messages) e r);
  stored_token =
      λ room e d s. kept (λ r. r.pagination_token) (store_event e d) room room s (λ r. refl);
  stored_end = λ room e d s.
      kept (λ r. r.has_reached_node_pagination_end) (store_event e d) room room s (λ r. refl);
  deleted = λ k other room s.
      in_room (λ r. lookup k r.messages_by_event_ids) without_messages room other s;
  deleted_token = λ room s. here (λ r. r.pagination_token) without_messages room s;
  deleted_end = λ room s. here (λ r. r.has_reached_node_pagination_end) without_messages room s;
  deleted_room = λ k other room s.
      ap (λ r. lookup k r.messages_by_event_ids) (room_store-delete room other s)
      ∙ no_event k (room == other) (room_store other s);
  deleted_room_token = λ room s. ap (λ r. r.pagination_token) (deleted_room_is_new room s);
  deleted_room_end =
      λ room s. ap (λ r. r.has_reached_node_pagination_end) (deleted_room_is_new room s);
  deleted_room_receipts = λ room user thread s.
      ap (λ o. lookup user (or_new [] (lookup (thread_key thread) (or_new [] o))))
        (lookup-remove_same room room s.room_threaded_receipts_stores (eq_refl room));
  deleted_data = λ k room s. refl;
  deleted_data_token = λ room s. refl;
  deleted_data_end = λ room s. refl;
  replaced_deleted = λ k room e s.
      here (λ r. lookup k r.messages_by_event_ids) (replace_event e) room
        (delete_all_messages_in_room room s)
      ∙ ap (λ r. lookup k (replace_event e r).messages_by_event_ids)
          (same_room room without_messages s);
  replaced_other = λ k other room e s. replaced_elsewhere k other room e s;
  token_stored = λ room t s. here (λ r. r.pagination_token) (with_token t) room s;
  token_event = λ k other room t s.
      kept (λ r. lookup k r.messages_by_event_ids) (with_token t) room other s (λ r. refl);
  token_end = λ room t s.
      kept (λ r. r.has_reached_node_pagination_end) (with_token t) room room s (λ r. refl);
  end_stored = λ room b s. here (λ r. r.has_reached_node_pagination_end) (with_end b) room s;
  end_event = λ k other room b s.
      kept (λ r. lookup k r.messages_by_event_ids) (with_end b) room other s (λ r. refl);
  members_stored = λ room b s.
      here (λ r. r.has_loaded_all_room_members_for_room)
        (λ r. record r { has_loaded_all_room_members_for_room = b }) room s;
  partial_stored = λ room t s.
      here (λ r. r.partial_attributed_text_message)
        (λ r. record r { partial_attributed_text_message = t }) room s;
  marked = λ other room s. marked_in other room s.room_unreaded;
  unmarked = λ other room s. contains-without other room s.room_unreaded;
  receipt_event = λ k other room r s.
      ap (λ rooms. lookup k (or_new Room.init (lookup other rooms)).messages_by_event_ids)
        (store_receipt_rooms r.thread_id r room s);
  receipt_end = λ other room r s.
      ap (λ rooms. (or_new Room.init (lookup other rooms)).has_reached_node_pagination_end)
        (store_receipt_rooms r.thread_id r room s);
  receipt_read = λ receipt own thread room other user s.
      receipt_at-store_receipt (record receipt { thread_id = some own }) room other thread user s;
  outgoing_stored = λ room e s.
      ap (has_object e) (
        outgoing_store-put room room (store_outgoing_message e (outgoing_store room s)) s
        ∙ rw (eq_refl room) refl)
      ∙ has_object-store_outgoing_message e (outgoing_store room s);
  outgoing_other_room = λ room other e s.
      outgoing_elsewhere room other (store_outgoing_message e (outgoing_store room s)) s;
  none_outgoing = λ room s.
      ap (or_new [])
        (lookup-insert_same room room [] s.room_outgoing_messages_stores (eq_refl room));
}
