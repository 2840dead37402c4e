-- ===== src/Timeline/Pagination.antt =====
-- Where the pagination of a room stands after a sync with a gap, in MXRoomEventTimeline.m.
use sendingnetwork_ios.Common.{
  ℕ, String, Bool, true, false, ◌≡◌, refl, ◌∙◌, Option, none, some, List, [], ◌∷◌, if◌then◌else◌,
  not, ◌&&◌,
}
use sendingnetwork_ios.RoomStore.{Event, forwards}
use sendingnetwork_ios.MemoryStore.{ReceiptData}
use sendingnetwork_ios.Store.{Store, IsStore, token_of, reached_end}
use sendingnetwork_ios.Conversions.{Membership}
use sendingnetwork_ios.Json.Setters.{returned}
use sendingnetwork_ios.Timeline.{
  prune, is_redaction, local_receipt, is_room_initial_sync, asked, replaced, redacted, cleaned,
  handle_joined_room_sync,
}
use sendingnetwork_ios.Timeline.Settled.{
  AreIdentified, receipt_stored, state_handled, event_settled, event_added, events_added,
  room_synced, handle_joined_room_sync_lem,
}

module _ {S : Type 0} (o : Store S) (laws : IsStore o) (copied : ℕ → ℕ) where
  open o use {messages, pagination, receipts}

  asked_end :
      (room : String) (id : Option String) (s : S)
      → reached_end o room (asked o copied id room s).0 ≡ reached_end o room s
  asked_end room none s = refl
  asked_end room (some id) s = laws.asked_end id room s

  replaced_end :
      (room : String) (found : Option Event) (s : S)
      → reached_end o room (replaced o copied room (s, found)) ≡ reached_end o room s
  replaced_end room none s = refl
  replaced_end room (some e) s = laws.replaced_end room (prune copied e) s

  redacted_end :
      (room : String) (id : Option String) (s : S)
      → reached_end o room (redacted o copied id room s) ≡ reached_end o room s
  redacted_end room none s = refl
  redacted_end room (some id) s =
      replaced_end room (messages.event_with_event_id id room s).1
        (messages.event_with_event_id id room s).0
      ∙ laws.read_end id room s

  choice_end :
      (room : String) (b : Bool) (s t : S)
      → reached_end o room t ≡ reached_end o room s
      → reached_end o room (if b then t else s) ≡ reached_end o room s
  choice_end room true s t h = h
  choice_end room false s t h = refl

  with_receipt_end :
      (room : String) (r : Option ReceiptData) (s : S)
      → reached_end o room (receipt_stored o copied r room s) ≡ reached_end o room s
  with_receipt_end room none s = refl
  with_receipt_end room (some r) s = laws.receipt_end room room r s

  added_end :
      (room : String) (is_initial : Bool) (e : Event) (s : S) (known : Bool)
      → reached_end o room (event_settled o copied is_initial room e (s, known))
        ≡ reached_end o room s
  added_end room is_initial e s true = refl
  added_end room is_initial e s false =
      let redaction = not is_initial && is_redaction e in
      let redacted_state = redacted o copied e.redacts room s in
      laws.stored_end room e forwards (state_handled o copied is_initial room e s)
      ∙ with_receipt_end room (local_receipt e.sender e) (if redaction then redacted_state else s)
      ∙ choice_end room redaction s redacted_state (redacted_end room e.redacts s)

  add_events_end :
      (room : String) (is_initial : Bool) (events : List Event) (s : S)
      → reached_end o room (events_added o copied is_initial room events s) ≡ reached_end o room s
  unfolding events_added event_added
  add_events_end room is_initial [] s = refl
  add_events_end room is_initial (e ∷ events) s =
      add_events_end room is_initial events (event_added o copied is_initial room e s)
      ∙ added_end room is_initial e (asked o copied e.event_id room s).0
          (asked o copied e.event_id room s).1
      ∙ asked_end room e.event_id s

  -- Whatever the store, if it keeps the laws of the interface: the sync, with a gap, of a room that was
  -- neither unknown nor pending on an invitation, of events that all have ids, raises nothing, and after
  -- it pagination starts from the sync's token and has not reached the end.
  pub handle_joined_room_sync_limited :
      (membership : Membership) (prev_batch : Option String) (room : String) (events : List Event)
      (s : S)
      → AreIdentified events
      → is_room_initial_sync membership ≡ false
      → (s' : S) × (handle_joined_room_sync o copied membership true prev_batch room events s
          ≡ returned s')
        × (token_of o room s' ≡ prev_batch)
        × (reached_end o room s' ≡ false)
  unfolding room_synced
  handle_joined_room_sync_limited membership prev_batch room events s ids h =
      let first = cleaned o copied membership room s in
      let deleted = messages.delete_all_messages_in_room room first in
      let s' = events_added o copied false room events deleted in
      (
        room_synced o copied membership true prev_batch room events s,
        handle_joined_room_sync_lem o copied membership true prev_batch room events s ids,
        rw h (laws.token_stored room prev_batch s'),
        rw h (
            laws.token_end room prev_batch s'
            ∙ add_events_end room false events deleted
            ∙ laws.deleted_end room first),
      )
