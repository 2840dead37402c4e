-- ===== src/MemoryStore/Unread.antt =====
-- The unread counts of MXMemoryStore.m.
use sendingnetwork_ios.Common.{
  String, Bool, true, false, ◌≡◌, refl, ap, ◌∙◌, Option, none, some, List, [], ◌∷◌, ◌&&◌, not,
  equal_ids, if◌then◌else◌, ltb, length, arith, ◌==◌,
}
use sendingnetwork_ios.Common.Dict.{lookup}
use sendingnetwork_ios.RoomStore.{
  Event, thread_id, contains_object, allowed_after, allowed_in_thread, timeline_thread,
  events_after, events_in_thread,
}
use sendingnetwork_ios.RoomStore.Threads.{
  filter, after_last, events_after-filter, events_in_thread-filter,
}
use sendingnetwork_ios.MemoryStore.{
  ReceiptData, MemoryStore, room_store, receipts_store, count_not_redacted, new_incoming_events,
  local_unread_event_count,
}

-- An event that counts as unread: of the thread and of one of the types, neither redacted nor sent by
-- the user.
abbrev pub is_unread : String → String → List String → Event → Bool
is_unread thread user_id types event =
    not event.is_redacted_event
    && contains_object types event.type
    && equal_ids (thread_id event) (some thread)
    && not (equal_ids event.sender (some user_id))

-- Where the user's receipt is, in the receipts of the thread: the messages after its event, or with no
-- receipt of the user those after the root of the thread, if anybody has a receipt in it.
abbrev pub not_read : String → Bool → Option ReceiptData → List Event → List Event
not_read thread others none messages = if others then after_last (some thread) messages else []
not_read thread others (some receipt) messages = elim receipt.event_id [
  | none ↦ []
  | some event_id ↦ after_last (some event_id) messages
]

count_not_redacted-filter :
    (allowed test : Event → Bool) (events : List Event)
    → ((e : Event) → (not e.is_redacted_event && allowed e) ≡ test e)
    → count_not_redacted (filter allowed events) ≡ length (filter test events)
unfolding count_not_redacted filter
count_not_redacted-filter allowed test [] h = refl
count_not_redacted-filter allowed test (e ∷ events) h =
    ground (arith, h e, count_not_redacted-filter allowed test events h)

-- The tests of the two readers are this one for a thread other than the main timeline.
after_is_unread :
    (thread user_id : String) (types : List String) (e : Event)
    → (thread == "main") ≡ false
    → (not e.is_redacted_event
        && allowed_after (timeline_thread (some thread)) (some user_id) (some types) e)
      ≡ is_unread thread user_id types e
unfolding allowed_after
after_is_unread thread user_id types e h = rw h (ground arith)

in_thread_is_unread :
    (thread user_id : String) (types : List String) (e : Event)
    → (not e.is_redacted_event && allowed_in_thread thread (some user_id) (some types) e)
      ≡ is_unread thread user_id types e
unfolding allowed_in_thread
in_thread_is_unread thread user_id types e = ground arith

-- The unread count of a thread other than the main timeline is the number of its messages of the
-- given types that are neither redacted nor sent by the user, among those after the event of the
-- user's receipt in the thread; with no receipt of the user, among those after the root of the thread
-- if another user has a receipt in it, and else 0, as it is for a receipt of no event.
pub local_unread_event_count-filter :
    (room_id thread : String) (types : List String) (s : MemoryStore)
    → (thread == "main") ≡ false
    → (local_unread_event_count room_id (some thread) types s).1 ≡ (
        let receipts = receipts_store room_id thread s in
        length (
          filter (is_unread thread s.user_id types) (
            not_read thread
              (ltb 0 (length receipts))
              (lookup s.user_id receipts)
              (room_store room_id s).messages)))
unfolding local_unread_event_count new_incoming_events filter events_after count_not_redacted
local_unread_event_count-filter room_id thread types s h =
    by_receipt (lookup s.user_id (receipts_store room_id thread s))
      (ltb 0 (length (receipts_store room_id thread s)))
  where
    nothing : 0 ≡ length (filter (is_unread thread s.user_id types) [])
    nothing = refl

    by_id :
        (id : Option String)
        → count_not_redacted
            (events_after id (some thread) (some s.user_id) (some types) (room_store room_id s))
          ≡ length (
              filter (is_unread thread s.user_id types) (elim id [
                | none ↦ []
                | some event_id ↦ after_last (some event_id) (room_store room_id s).messages
              ]))
    by_id none = refl
    by_id (some event_id) =
        ap count_not_redacted (
          events_after-filter event_id (some thread) (some s.user_id) (some types)
            (room_store room_id s))
        ∙ count_not_redacted-filter
            (allowed_after (timeline_thread (some thread)) (some s.user_id) (some types))
            (is_unread thread s.user_id types)
            (after_last (some event_id) (room_store room_id s).messages)
            (λ e. after_is_unread thread s.user_id types e h)

    by_receipt :
        (o : Option ReceiptData) (others : Bool)
        → count_not_redacted (elim o [
          | some receipt ↦
              events_after receipt.event_id
                (some thread)
                (some s.user_id)
                (some types)
                (room_store room_id s)
          | none ↦
              if others
              then events_in_thread
                  (some thread)
                  (some s.user_id)
                  (some types)
                  (room_store room_id s)
              else []
        ])
          ≡ length (
              filter
                (is_unread thread s.user_id types)
                (not_read thread others o (room_store room_id s).messages))
    by_receipt none true =
        ap count_not_redacted
          (events_in_thread-filter thread (some s.user_id) (some types) (room_store room_id s) h)
        ∙ count_not_redacted-filter (allowed_in_thread thread (some s.user_id) (some types))
            (is_unread thread s.user_id types)
            (after_last (some thread) (room_store room_id s).messages)
            (in_thread_is_unread thread s.user_id types)
    by_receipt none false = nothing
    by_receipt (some receipt) others = by_id receipt.event_id
