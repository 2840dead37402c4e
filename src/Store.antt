-- ===== src/Store.antt =====
-- The interface of stores, SDNSDK/Data/Store/MXStore.h: its operations over a state, a record for each
-- part, and a record of laws that a store keeps of what its comments say. A reader returns the state
-- too, since a store may create what is read. Opening, loading and permanent storage are left out.
pub mod Rooms
pub mod Memory
use sendingnetwork_ios.Common.{
  ℕ, String, Bool, true, false, ◌≡◌, Option, none, some, List, [], ◌==◌, is_some, not, ◌||◌, ◌&&◌,
  equal_ids, if◌then◌else◌,
}
use sendingnetwork_ios.RoomStore.{has_object, Event, TimelineDirection}
use sendingnetwork_ios.MemoryStore.{ReceiptData}
use sendingnetwork_ios.MemoryStore.Places.{newer}

pub record RoomMessages (S : Type 0) : Type 0 where
  pub store_event_for_room : String → Event → TimelineDirection → S → S
  pub replace_event_in_room : Event → String → S → S
  pub event_exists_with_event_id : String → String → S → S × Bool
  pub event_with_event_id : String → String → S → S × Option Event
  pub delete_all_messages_in_room : String → S → S
  pub delete_room : String → S → S
  pub delete_all_data : S → S

pub record RoomPagination (S : Type 0) : Type 0 where
  pub store_pagination_token : String → Option String → S → S
  pub pagination_token : String → S → S × Option String
  pub store_has_reached_node_pagination_end : String → Bool → S → S
  pub has_reached_node_pagination_end : String → S → S × Bool
  pub store_has_loaded_all_room_members : String → Bool → S → S
  pub has_loaded_all_room_members : String → S → S × Bool

pub record UnreadMarks (S : Type 0) : Type 0 where
  pub set_unread_for_room : String → S → S
  pub reset_unread_for_room : String → S → S
  pub is_room_marked_as_unread : String → S → Bool

pub record PartialMessages (S : Type 0) : Type 0 where
  pub store_partial_text_message : String → Option String → S → S
  pub partial_text_message : String → S → S × Option String

pub record OutgoingMessages (S : Type 0) : Type 0 where
  pub store_outgoing_message_for_room : String → Event → S → S
  pub remove_all_outgoing_messages_from_room : String → S → S
  pub remove_outgoing_message_from_room : String → String → S → S
  pub outgoing_messages_in_room : String → S → S × List Event

pub record Receipts (S : Type 0) : Type 0 where
  pub store_receipt : ReceiptData → String → S → S × Bool
  pub get_receipt_in_room : String → Option String → String → S → S × Option ReceiptData

pub record Store (S : Type 0) : Type 0 where
  pub messages : RoomMessages S
  pub pagination : RoomPagination S
  pub marks : UnreadMarks S
  pub partial : PartialMessages S
  pub outgoing : OutgoingMessages S
  pub receipts : Receipts S

module _ {S : Type 0} (o : Store S) where
  open o use {messages, pagination, marks, partial, outgoing, receipts}

  -- What is read of the messages and of the pagination of a room.
  abbrev pub event_of : String → String → S → Option Event
  event_of event_id room_id s = (messages.event_with_event_id event_id room_id s).1

  abbrev pub exists_in : String → String → S → Bool
  exists_in event_id room_id s = (messages.event_exists_with_event_id event_id room_id s).1

  abbrev pub token_of : String → S → Option String
  token_of room_id s = (pagination.pagination_token room_id s).1

  abbrev pub reached_end : String → S → Bool
  reached_end room_id s = (pagination.has_reached_node_pagination_end room_id s).1

  abbrev pub receipt_of : String → Option String → String → S → Option ReceiptData
  receipt_of room_id thread user_id s = (receipts.get_receipt_in_room room_id thread user_id s).1

  abbrev pub outgoing_of : String → S → List Event
  outgoing_of room_id s = (outgoing.outgoing_messages_in_room room_id s).1

  -- The laws of the interface, which clients rely on. They ask less than the comments of MXStore.h in
  -- three places. deleteAllData is asked to erase messages and pagination, not all data; deleteRoom
  -- these and the receipts of the room, not all related data; and that replaceEvent is ignored where
  -- no event has the id is asked of a room without messages. Receipts without a thread, receipts of an
  -- event, and which outgoing message is removed are left out.
  pub record IsStore : Type 0 where
    pub exists : (k room : String) (s : S) → exists_in k room s ≡ is_some (event_of k room s)
    pub stored :
        (k other room : String) (e : Event) (d : TimelineDirection) (s : S)
        → event_of k other (messages.store_event_for_room room e d s) ≡ (
            if (room == other) && equal_ids e.event_id (some k) then some e else event_of k other s)
    pub read_event :
        (j k room other : String) (s : S)
        → event_of j other (messages.event_with_event_id k room s).0 ≡ event_of j other s
    pub read_end :
        (k room : String) (s : S)
        → reached_end room (messages.event_with_event_id k room s).0 ≡ reached_end room s
    pub asked_event :
        (j k room other : String) (s : S)
        → event_of j other (messages.event_exists_with_event_id k room s).0 ≡ event_of j other s
    pub asked_end :
        (k room : String) (s : S)
        → reached_end room (messages.event_exists_with_event_id k room s).0 ≡ reached_end room s
    pub replaced_keeps :
        (k room : String) (e : Event) (s : S)
        → (not (exists_in k room s) || exists_in k room (messages.replace_event_in_room e room s))
          ≡ true
    pub replaced_end :
        (room : String) (e : Event) (s : S)
        → reached_end room (messages.replace_event_in_room e room s) ≡ reached_end room s
    pub stored_token :
        (room : String) (e : Event) (d : TimelineDirection) (s : S)
        → token_of room (messages.store_event_for_room room e d s) ≡ token_of room s
    pub stored_end :
        (room : String) (e : Event) (d : TimelineDirection) (s : S)
        → reached_end room (messages.store_event_for_room room e d s) ≡ reached_end room s
    pub deleted :
        (k other room : String) (s : S)
        → event_of k other (messages.delete_all_messages_in_room room s)
          ≡ (if room == other then none else event_of k other s)
    pub deleted_token :
        (room : String) (s : S) → token_of room (messages.delete_all_messages_in_room room s) ≡ none
    pub deleted_end :
        (room : String) (s : S)
        → reached_end room (messages.delete_all_messages_in_room room s) ≡ false
    pub deleted_room :
        (k other room : String) (s : S)
        → event_of k other (messages.delete_room room s)
          ≡ (if room == other then none else event_of k other s)
    pub deleted_room_token :
        (room : String) (s : S) → token_of room (messages.delete_room room s) ≡ none
    pub deleted_room_end :
        (room : String) (s : S) → reached_end room (messages.delete_room room s) ≡ false
    pub deleted_room_receipts :
        (room user : String) (thread : Option String) (s : S)
        → receipt_of room thread user (messages.delete_room room s) ≡ none
    pub deleted_data :
        (k room : String) (s : S) → event_of k room (messages.delete_all_data s) ≡ none
    pub deleted_data_token :
        (room : String) (s : S) → token_of room (messages.delete_all_data s) ≡ none
    pub deleted_data_end :
        (room : String) (s : S) → reached_end room (messages.delete_all_data s) ≡ false
    pub replaced_deleted :
        (k room : String) (e : Event) (s : S)
        → event_of k room
            (messages.replace_event_in_room e room (messages.delete_all_messages_in_room room s))
          ≡ none
    pub replaced_other :
        (k other room : String) (e : Event) (s : S)
        → event_of k other (messages.replace_event_in_room e room s) ≡ (
            if (room == other) && equal_ids e.event_id (some k)
            then event_of k other (messages.replace_event_in_room e room s)
            else event_of k other s)
    pub token_stored :
        (room : String) (t : Option String) (s : S)
        → token_of room (pagination.store_pagination_token room t s) ≡ t
    pub token_event :
        (k other room : String) (t : Option String) (s : S)
        → event_of k other (pagination.store_pagination_token room t s) ≡ event_of k other s
    pub token_end :
        (room : String) (t : Option String) (s : S)
        → reached_end room (pagination.store_pagination_token room t s) ≡ reached_end room s
    pub end_stored :
        (room : String) (b : Bool) (s : S)
        → reached_end room (pagination.store_has_reached_node_pagination_end room b s) ≡ b
    pub end_event :
        (k other room : String) (b : Bool) (s : S)
        → event_of k other (pagination.store_has_reached_node_pagination_end room b s)
          ≡ event_of k other s
    pub members_stored :
        (room : String) (b : Bool) (s : S)
        → (pagination.has_loaded_all_room_members room
            (pagination.store_has_loaded_all_room_members room b s)).1
          ≡ b
    pub partial_stored :
        (room : String) (t : Option String) (s : S)
        → (partial.partial_text_message room (partial.store_partial_text_message room t s)).1 ≡ t
    pub marked :
        (other room : String) (s : S)
        → marks.is_room_marked_as_unread other (marks.set_unread_for_room room s)
          ≡ ((room == other) || marks.is_room_marked_as_unread other s)
    pub unmarked :
        (other room : String) (s : S)
        → marks.is_room_marked_as_unread other (marks.reset_unread_for_room room s)
          ≡ (if room == other then false else marks.is_room_marked_as_unread other s)
    pub receipt_event :
        (k other room : String) (r : ReceiptData) (s : S)
        → event_of k other (receipts.store_receipt r room s).0 ≡ event_of k other s
    pub receipt_end :
        (other room : String) (r : ReceiptData) (s : S)
        → reached_end other (receipts.store_receipt r room s).0 ≡ reached_end other s
    pub receipt_read :
        (receipt : ReceiptData) (own thread room other user : String) (s : S)
        → receipt_of other
            (some thread)
            user
            (receipts.store_receipt (record receipt { thread_id = some own }) room s).0
          ≡ (if (room == other && own == thread) && receipt.user_id == user
              then newer
                  (record receipt { thread_id = some own })
                  (receipt_of other (some thread) user s)
              else receipt_of other (some thread) user s)
    pub outgoing_stored :
        (room : String) (e : Event) (s : S)
        → has_object e (outgoing_of room (outgoing.store_outgoing_message_for_room room e s)) ≡ true
    pub outgoing_other_room :
        (room other : String) (e : Event) (s : S)
        → outgoing_of other (outgoing.store_outgoing_message_for_room room e s) ≡ (
            if room == other
            then outgoing_of other (outgoing.store_outgoing_message_for_room room e s)
            else outgoing_of other s)
    pub none_outgoing :
        (room : String) (s : S)
        → (outgoing.outgoing_messages_in_room room
            (outgoing.remove_all_outgoing_messages_from_room room s)).1
          ≡ []
