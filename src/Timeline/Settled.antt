-- ===== src/Timeline/Settled.antt =====
-- The states that the functions of MXRoomEventTimeline.m return where no event lacks an id.
use sendingnetwork_ios.Common.{
  ℕ, String, Bool, true, false, Option, none, some, List, [], ◌∷◌, not, ◌&&◌, if◌then◌else◌, ◌≡◌,
  refl, All, is_some, ap, ◌∙◌,
}
use sendingnetwork_ios.Conversions.{Membership}
use sendingnetwork_ios.Json.Setters.{returned, ◌>>=◌}
use sendingnetwork_ios.MemoryStore.{ReceiptData}
use sendingnetwork_ios.RoomStore.{Event, forwards, thread_id}
use sendingnetwork_ios.Store.{Store}
use sendingnetwork_ios.Timeline.{
  main_if_none, is_redaction, local_receipt, is_room_initial_sync, asked, redacted, notified,
  with_receipt, added, add_event, add_events, sync_messages, cleaned, handle_joined_room_sync,
}

-- Events that all have ids.
abbrev pub AreIdentified : List Event → Type 0
AreIdentified = All (λ e. is_some e.event_id ≡ true)

module _ {S : Type 0} (o : Store S) (copied : ℕ → ℕ) where
  open o use {messages, pagination, receipts}

  abbrev pub receipt_stored : Option ReceiptData → String → S → S
  receipt_stored none room s = s
  receipt_stored (some receipt) room s = (receipts.store_receipt receipt room s).0

  -- What a live event does before it is stored.
  abbrev pub state_handled : (is_initial : Bool) → String → Event → S → S
  state_handled is_initial room event s =
      receipt_stored (local_receipt event.sender event) room
        (if not is_initial && is_redaction event then redacted o copied event.redacts room s else s)

  abbrev pub event_settled : (is_initial : Bool) → String → Event → S × Bool → S
  event_settled is_initial room event (s, true) = s
  event_settled is_initial room event (s, false) =
      messages.store_event_for_room room event forwards (state_handled is_initial room event s)

  unfoldable pub event_added : (is_initial : Bool) → String → Event → S → S
  event_added is_initial room event s =
      event_settled is_initial room event (asked o copied event.event_id room s)

  unfoldable pub events_added : (is_initial : Bool) → String → List Event → S → S
  unfolding event_added
  events_added is_initial room [] s = s
  events_added is_initial room (event ∷ events) s =
      events_added is_initial room events (event_added is_initial room event s)

  -- The messages of a joined room that was synced.
  abbrev pub messages_synced : (is_initial limited : Bool) → String → List Event → S → S
  messages_synced true limited room events s =
      let s' = events_added true room events s in
      if limited then s' else pagination.store_has_reached_node_pagination_end room true s'
  messages_synced false limited room events s =
      events_added false room events
        (if limited then messages.delete_all_messages_in_room room s else s)

  unfoldable pub room_synced :
      Membership → (limited : Bool) → (prev_batch : Option String) → String → List Event → S → S
  unfolding events_added
  room_synced membership limited prev_batch room events s =
      let s' =
        messages_synced (is_room_initial_sync membership) limited room events
          (cleaned o copied membership room s) in
      if limited then pagination.store_pagination_token room prev_batch s' else s'

  notified_lem :
      (id : Option String) (r : S × Bool)
      → is_some id ≡ true
      → notified o copied id r ≡ returned r.0
  notified_lem none r h = absurd (cc)
  notified_lem (some id) (s, stored) h = refl

  receipt_lem :
      (sender : Option String) (room : String) (e : Event) (s : S)
      → is_some e.event_id ≡ true
      → with_receipt o copied (local_receipt sender e) room s
        ≡ returned (receipt_stored (local_receipt sender e) room s)
  unfolding local_receipt
  receipt_lem none room e s h = refl
  receipt_lem (some user_id) room e s h =
      notified_lem e.event_id
        (receipts.store_receipt
          (record {
            user_id = user_id;
            event_id = e.event_id;
            thread_id = some (main_if_none (thread_id e));
            ts = e.origin_server_ts;
          })
          room s)
        h

  added_lem :
      (is_initial : Bool) (room : String) (e : Event) (s : S) (known : Bool)
      → is_some e.event_id ≡ true
      → added o copied is_initial room e (s, known)
        ≡ returned (event_settled is_initial room e (s, known))
  added_lem is_initial room e s true h = refl
  added_lem is_initial room e s false h =
      ap (λ r. do s' ← r; returned (messages.store_event_for_room room e forwards s'))
        (receipt_lem e.sender room e
          (if not is_initial && is_redaction e then redacted o copied e.redacts room s else s) h)

  add_events_lem :
      (is_initial : Bool) (room : String) (events : List Event) (s : S)
      → AreIdentified events
      → add_events o copied is_initial room events s
        ≡ returned (events_added is_initial room events s)
  unfolding add_events add_event events_added event_added
  add_events_lem is_initial room [] s h = refl
  add_events_lem is_initial room (e ∷ events) s h =
      let r = asked o copied e.event_id room s in
      ap (λ t. do s' ← t; add_events o copied is_initial room events s')
        (added_lem is_initial room e r.0 r.1 h.0)
      ∙ add_events_lem is_initial room events (event_settled is_initial room e r) h.1

  sync_messages_lem :
      (is_initial limited : Bool) (room : String) (events : List Event) (s : S)
      → AreIdentified events
      → sync_messages o copied is_initial limited room events s
        ≡ returned (messages_synced is_initial limited room events s)
  sync_messages_lem true limited room events s h =
      ap
        (λ t. do
          s' ← t
          returned (
              if limited
              then s'
              else pagination.store_has_reached_node_pagination_end room true s'))
        (add_events_lem true room events s h)
  sync_messages_lem false limited room events s h =
      add_events_lem false room events
        (if limited then messages.delete_all_messages_in_room room s else s) h

  -- A sync of events that all have ids raises nothing.
  pub handle_joined_room_sync_lem :
      (membership : Membership) (limited : Bool) (prev_batch : Option String) (room : String)
      (events : List Event) (s : S)
      → AreIdentified events
      → handle_joined_room_sync o copied membership limited prev_batch room events s
        ≡ returned (room_synced membership limited prev_batch room events s)
  unfolding handle_joined_room_sync room_synced
  handle_joined_room_sync_lem membership limited prev_batch room events s h =
      ap
        (λ t. do
          s' ← t
          returned (if limited then pagination.store_pagination_token room prev_batch s' else s'))
        (sync_messages_lem (is_room_initial_sync membership) limited room events
          (cleaned o copied membership room s) h)
