-- ===== src/RoomStore.antt =====
-- SDNSDK/Data/Store/MXMemoryStore/MXMemoryRoomStore.m: the messages of a room and their index, and
-- MXMemoryRoomOutgoingMessagesStore.m beside it. The threading of an event is that of
-- SDNSDK/JSONModels/MXEvent.m. An event is a value here; the array and the index hold it twice.
pub mod Index
pub mod Threads
pub mod Replace
mod Tests
use sendingnetwork_ios.Common.{
  ℕ, zero, suc, String, Bool, true, false, Option, none, some, List, [], ◌∷◌, ◌++◌, ◌&&◌, ◌||◌, not,
  is_some, equal_ids, if◌then◌else◌, ◌==◌, length, get_elem?, set, eqb,
}
use sendingnetwork_ios.Common.Dict.{Dict, lookup, insert}

-- MXEventContentRelatesTo
pub record RelatesTo : Type 0 where
  pub event_id : Option String
  pub relation_type : Option String

-- What the stores read of an event; `object` tells two objects apart.
pub record Event : Type 0 where
  pub object : ℕ
  pub event_id : Option String
  pub type : Option String
  pub sender : Option String
  pub relates_to : Option RelatesTo
  pub is_redacted_event : Bool
  pub redacts : Option String
  pub origin_server_ts : ℕ

unfoldable pub is_in_thread : Event → Bool
is_in_thread event = elim event.relates_to [
  | none ↦ false
  | some relates_to ↦ equal_ids relates_to.relation_type (some "m.thread")
]

unfoldable pub thread_id : Event → Option String
unfolding is_in_thread
thread_id event =
    let related : Option String = elim event.relates_to [
      | none ↦ none
      | some relates_to ↦ relates_to.event_id
    ] in
    if is_in_thread event then related else none

pub data TimelineDirection : Type 0 where
  forwards backwards : TimelineDirection

-- The text that was typed and not sent stands for its attributed string.
pub record RoomStore : Type 0 where
  pub messages : List Event
  pub messages_by_event_ids : Dict Event
  pub pagination_token : Option String
  pub has_reached_node_pagination_end : Bool
  pub has_loaded_all_room_members_for_room : Bool
  pub partial_attributed_text_message : Option String

abbrev pub init : RoomStore
init = record {
  messages = [];
  messages_by_event_ids = [];
  pagination_token = none;
  has_reached_node_pagination_end = false;
  has_loaded_all_room_members_for_room = false;
  partial_attributed_text_message = none;
}

abbrev pub index_event : Option String → Event → Dict Event → Dict Event
index_event none event d = d
index_event (some event_id) event d = insert event_id event d

abbrev pub add_event : Event → TimelineDirection → List Event → List Event
add_event event forwards messages = messages ++ (event ∷ [])
add_event event backwards messages = event ∷ messages

unfoldable pub store_event : Event → TimelineDirection → RoomStore → RoomStore
store_event event direction s = record s {
  messages = add_event event direction s.messages;
  messages_by_event_ids = index_event event.event_id event s.messages_by_event_ids;
}

-- `while (index--)`; the index stays in the array.
unfoldable pub replace_below : ℕ → Event → RoomStore → RoomStore
replace_below zero event s = s
replace_below (suc index) event s =
    let rest = replace_below index event s in
    elim (get_elem? s.messages index) [
      | none ↦ rest
      | some an_event ↦
          if equal_ids an_event.event_id event.event_id
          then record s {
            messages = set s.messages index event;
            messages_by_event_ids = index_event event.event_id event s.messages_by_event_ids;
          }
          else rest
    ]

unfoldable pub replace_event : Event → RoomStore → RoomStore
unfolding replace_below
replace_event event s = replace_below (length s.messages) event s

unfoldable pub event_with_event_id : String → RoomStore → Option Event
event_with_event_id event_id s = lookup event_id s.messages_by_event_ids

unfoldable pub remove_all_messages : RoomStore → RoomStore
remove_all_messages s = record s { messages = []; messages_by_event_ids = [] }

-- `none` is the exception of adding nil to an array.
unfoldable pub event_ids : List Event → Option (List String)
event_ids [] = some []
event_ids (event ∷ events) = elim event.event_id [
  | none ↦ none
  | some event_id ↦ elim (event_ids events) [ none ↦ none | some ids ↦ some (event_id ∷ ids) ]
]

unfoldable pub all_event_ids : RoomStore → Option (List String)
unfolding event_ids
all_event_ids s = event_ids s.messages

-- `[types containsObject:type]`
abbrev pub contains_object : List String → Option String → Bool
contains_object [] type = false
contains_object (t ∷ types) type = equal_ids (some t) type || contains_object types type

abbrev pub type_allowed : Option (List String) → Event → Bool
type_allowed none event = true
type_allowed (some types) event = contains_object types event.type

-- The loop of the two readers below, from the newest message down to the one with the given id;
-- what passes the filter is put in front.
unfoldable pub events_down_to :
    (Event → Bool) → Option String → List Event → ℕ → List Event → List Event
events_down_to allowed event_id messages zero list = list
events_down_to allowed event_id messages (suc i) list = elim (get_elem? messages i) [
  | none ↦ list
  | some event ↦
      let more =
        events_down_to allowed event_id messages i (if allowed event then event ∷ list else list) in
      if not (equal_ids event.event_id event_id) then more else list
]

unfoldable pub allowed_in_thread : String → Option String → Option (List String) → Event → Bool
unfolding thread_id
allowed_in_thread thread except types event =
    type_allowed types event
    && equal_ids (thread_id event) (some thread)
    && not (equal_ids event.sender except)

unfoldable pub events_in_thread :
    Option String → Option String → Option (List String) → RoomStore → List Event
unfolding events_down_to allowed_in_thread
events_in_thread none except types s = []
events_in_thread (some thread) except types s =
    if thread == "main"
    then []
    else events_down_to (allowed_in_thread thread except types) (some thread) s.messages
        (length s.messages) []

-- `_threadId`: the main timeline is nil.
abbrev pub timeline_thread : Option String → Option String
timeline_thread none = none
timeline_thread (some thread) = if not (thread == "main") then some thread else none

unfoldable pub allowed_after : Option String → Option String → Option (List String) → Event → Bool
unfolding thread_id is_in_thread
allowed_after thread except types event =
    type_allowed types event
    && ((not (is_some thread) && not (is_in_thread event)) || equal_ids (thread_id event) thread)
    && not (equal_ids event.sender except)

unfoldable pub events_after :
    Option String → Option String → Option String → Option (List String) → RoomStore → List Event
unfolding events_down_to allowed_after
events_after none thread except types s = []
events_after (some event_id) thread except types s =
    events_down_to (allowed_after (timeline_thread thread) except types) (some event_id) s.messages
      (length s.messages) []

abbrev is_relation : String → Option String → Option RelatesTo → Bool
is_relation event_id relation_type none = false
is_relation event_id relation_type (some relates_to) =
    equal_ids relates_to.event_id (some event_id)
    && equal_ids relates_to.relation_type relation_type

related : String → Option String → List Event → List Event
related event_id relation_type [] = []
related event_id relation_type (event ∷ events) =
    let rest = related event_id relation_type events in
    if is_relation event_id relation_type event.relates_to then event ∷ rest else rest

unfoldable pub relations_for_event : String → Option String → RoomStore → List Event
unfolding related
relations_for_event event_id relation_type s = related event_id relation_type s.messages

-- outgoingMessages
abbrev pub OutgoingMessagesStore : Type 0
OutgoingMessagesStore = List Event

-- `indexOfObject:` compares objects, as MXEvent has no isEqual: of its own.
abbrev pub has_object : Event → List Event → Bool
has_object event [] = false
has_object event (e ∷ es) = eqb e.object event.object || has_object event es

unfoldable pub store_outgoing_message : Event → OutgoingMessagesStore → OutgoingMessagesStore
store_outgoing_message event messages =
    if has_object event messages then messages else messages ++ (event ∷ [])

unfoldable pub remove_all_outgoing_messages : OutgoingMessagesStore → OutgoingMessagesStore
remove_all_outgoing_messages messages = []

-- The first message with the id goes.
unfoldable pub remove_outgoing_message : String → OutgoingMessagesStore → OutgoingMessagesStore
remove_outgoing_message event_id [] = []
remove_outgoing_message event_id (e ∷ es) =
    let rest = remove_outgoing_message event_id es in
    if equal_ids e.event_id (some event_id) then es else e ∷ rest
