-- ===== src/Timeline.antt =====
-- SDNSDK/Data/EventTimeline/Room/MXRoomEventTimeline.m: what a live timeline does with its store when a
-- room is synced, over any store, with storeLocalReceipt: of SDNSDK/Data/MXRoom.m and what prune of
-- SDNSDK/JSONModels/MXEvent.m leaves of what the stores read. A room that the user was invited to is
-- deleted from the store first. The exception of a receipt for an event with no id is `raised`. The
-- state of the room, aggregations, threads and listeners are left out; the events of a sync are taken
-- as decrypted, and a redacted one as one that was not encrypted. `copied` tells which object a pruned
-- copy of an object is.
pub mod Settled
pub mod Synced
pub mod Pagination
mod Tests
use sendingnetwork_ios.Common.{
  ℕ, String, Bool, true, false, Option, none, some, List, [], ◌∷◌, not, ◌&&◌, if◌then◌else◌,
  equal_ids,
}
use sendingnetwork_ios.Conversions.{Membership, unknown, invite}
use sendingnetwork_ios.Json.Setters.{Outcome, raised, returned, ◌>>=◌}
use sendingnetwork_ios.RoomStore.{Event, forwards, thread_id}
use sendingnetwork_ios.MemoryStore.{ReceiptData}
use sendingnetwork_ios.Store.{Store}

-- prune, with the redactedBecause that is set on the copy: no content of a message is left, so no
-- relation either.
abbrev pub prune : (copied : ℕ → ℕ) → Event → Event
prune copied event = record {
  object = copied event.object;
  event_id = event.event_id;
  type = event.type;
  sender = event.sender;
  relates_to = none;
  is_redacted_event = true;
  redacts = none;
  origin_server_ts = event.origin_server_ts;
}

abbrev pub is_redaction : Event → Bool
is_redaction event = equal_ids event.type (some "m.room.redaction")

abbrev pub main_if_none : Option String → String
main_if_none none = "main"
main_if_none (some thread) = thread

-- The receipt that a sender leaves. Nothing is stored for an event with no sender.
unfoldable pub local_receipt : Option String → Event → Option ReceiptData
unfolding thread_id
local_receipt none event = none
local_receipt (some user_id) event = some (record {
  user_id = user_id;
  event_id = event.event_id;
  thread_id = some (main_if_none (thread_id event));
  ts = event.origin_server_ts;
})

-- Whether the room is new to the timeline.
abbrev pub is_room_initial_sync : Membership → Bool
is_room_initial_sync unknown = true
is_room_initial_sync invite = true
is_room_initial_sync _ = false

module _ {S : Type 0} (o : Store S) (copied : ℕ → ℕ) where
  open o use {messages, pagination, receipts}

  -- eventExistsWithEventId: of an id that may be nil
  abbrev pub asked : Option String → String → S → S × Bool
  asked none room s = (s, false)
  asked (some event_id) room s = messages.event_exists_with_event_id event_id room s

  abbrev pub replaced : String → S × Option Event → S
  replaced room (s, none) = s
  replaced room (s, some redacted) = messages.replace_event_in_room (prune copied redacted) room s

  -- handleRedaction:
  abbrev pub redacted : Option String → String → S → S
  redacted none room s = s
  redacted (some event_id) room s = replaced room (messages.event_with_event_id event_id room s)

  -- The notification of a receipt that was stored has its event id as a key, which raises for nil.
  abbrev pub notified : Option String → S × Bool → Outcome S
  notified none (s, true) = raised
  notified none (s, false) = returned s
  notified (some event_id) (s, stored) = returned s

  -- storeLocalReceipt:
  abbrev pub with_receipt : Option ReceiptData → String → S → Outcome S
  with_receipt none room s = returned s
  with_receipt (some receipt) room s =
      notified receipt.event_id (receipts.store_receipt receipt room s)

  -- What a live event does before it is stored.
  abbrev pub handled : (is_initial : Bool) → String → Event → S → Outcome S
  handled is_initial room event s =
      with_receipt (local_receipt event.sender event) room
        (if not is_initial && is_redaction event then redacted event.redacts room s else s)

  abbrev pub added : (is_initial : Bool) → String → Event → S × Bool → Outcome S
  added is_initial room event (s, true) = returned s
  added is_initial room event (s, false) = do
    s' ← handled is_initial room event s
    returned (messages.store_event_for_room room event forwards s')

  -- addEvent:direction:fromStore:isRoomInitialSync: of an event of a sync
  unfoldable pub add_event : (is_initial : Bool) → String → Event → S → Outcome S
  add_event is_initial room event s = added is_initial room event (asked event.event_id room s)

  unfoldable pub add_events : (is_initial : Bool) → String → List Event → S → Outcome S
  unfolding add_event
  add_events is_initial room [] s = returned s
  add_events is_initial room (event ∷ events) s = do
    s' ← add_event is_initial room event s
    add_events is_initial room events s'

  -- The messages of a joined room that was synced.
  abbrev pub sync_messages : (is_initial limited : Bool) → String → List Event → S → Outcome S
  sync_messages true limited room events s = do
    s' ← add_events true room events s
    returned (if limited then s' else pagination.store_has_reached_node_pagination_end room true s')
  sync_messages false limited room events s =
      add_events false room events
        (if limited then messages.delete_all_messages_in_room room s else s)

  -- A room that was pending on an invitation starts anew.
  abbrev pub cleaned : Membership → String → S → S
  cleaned invite room s = messages.delete_room room s
  cleaned _ room s = s

  -- handleJoinedRoomSync:onComplete:, in a room of a membership
  unfoldable pub handle_joined_room_sync :
      Membership
      → (limited : Bool) → (prev_batch : Option String) → String
      → List Event
      → S
      → Outcome S
  handle_joined_room_sync membership limited prev_batch room events s = do
    s' ←
        sync_messages (is_room_initial_sync membership) limited room events
          (cleaned membership room s)
    returned (if limited then pagination.store_pagination_token room prev_batch s' else s')
