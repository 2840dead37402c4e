-- ===== src/Timeline/Synced.antt =====
-- What the store holds after a joined room was synced by MXRoomEventTimeline.m.
use sendingnetwork_ios.Common.{
  ◌==◌, eq_refl, equal_ids, arith, ℕ, String, Bool, true, false, ◌≡◌, refl, sym, ap, ◌∙◌, Option,
  none, some, List, [], ◌∷◌, In, inl, inr, is_some, if◌then◌else◌, not, ◌&&◌,
}
use sendingnetwork_ios.RoomStore.{Event, forwards}
use sendingnetwork_ios.MemoryStore.{ReceiptData}
use sendingnetwork_ios.Store.{Store, IsStore, event_of, exists_in}
use sendingnetwork_ios.Conversions.{Membership}
use sendingnetwork_ios.Json.Setters.{returned}
use sendingnetwork_ios.Timeline.{
  prune, is_redaction, local_receipt, is_room_initial_sync, asked, replaced, redacted, cleaned,
  handle_joined_room_sync,
}
use sendingnetwork_ios.Timeline.Settled.{
  AreIdentified, receipt_stored, state_handled, event_settled, event_added, events_added,
  messages_synced, room_synced, handle_joined_room_sync_lem,
}

module _ {S : Type 0} (o : Store S) (laws : IsStore o) (copied : ℕ → ℕ) where
  open o use {messages, pagination, receipts}

  -- An event is known when it is read.
  read_exists :
      (k room : String) (s t : S)
      → event_of o k room t ≡ event_of o k room s
      → exists_in o k room s ≡ true
      → exists_in o k room t ≡ true
  read_exists k room s t e h = laws.exists k room t ∙ ap is_some e ∙ sym (laws.exists k room s) ∙ h

  asked_keeps :
      (k room : String) (id : Option String) (s : S)
      → exists_in o k room s ≡ true
      → exists_in o k room (asked o copied id room s).0 ≡ true
  asked_keeps k room none s h = h
  asked_keeps k room (some id) s h =
      read_exists k room s (messages.event_exists_with_event_id id room s).0
        (laws.asked_event k id room room s) h

  replaced_keeps_event :
      (k room : String) (found : Option Event) (s : S)
      → exists_in o k room s ≡ true
      → exists_in o k room (replaced o copied room (s, found)) ≡ true
  replaced_keeps_event k room none s h = h
  replaced_keeps_event k room (some e) s h =
      ground (arith, laws.replaced_keeps k room (prune copied e) s, h)

  redacted_keeps :
      (k room : String) (id : Option String) (s : S)
      → exists_in o k room s ≡ true
      → exists_in o k room (redacted o copied id room s) ≡ true
  redacted_keeps k room none s h = h
  redacted_keeps k room (some id) s h =
      replaced_keeps_event k room (messages.event_with_event_id id room s).1
        (messages.event_with_event_id id room s).0
        (read_exists k room s (messages.event_with_event_id id room s).0
          (laws.read_event k id room room s) h)

  choice_keeps :
      (k room : String) (b : Bool) (s t : S)
      → exists_in o k room s ≡ true
      → exists_in o k room t ≡ true
      → exists_in o k room (if b then t else s) ≡ true
  choice_keeps k room true s t hs ht = ht
  choice_keeps k room false s t hs ht = hs

  with_receipt_keeps :
      (k room : String) (r : Option ReceiptData) (s : S)
      → exists_in o k room s ≡ true
      → exists_in o k room (receipt_stored o copied r room s) ≡ true
  with_receipt_keeps k room none s h = h
  with_receipt_keeps k room (some r) s h =
      read_exists k room s (receipts.store_receipt r room s).0 (laws.receipt_event k room room r s)
        h

  stored_keeps :
      (k room : String) (e : Event) (s : S)
      → exists_in o k room s ≡ true
      → exists_in o k room (messages.store_event_for_room room e forwards s) ≡ true
  stored_keeps k room e s h =
      laws.exists k room (messages.store_event_for_room room e forwards s)
      ∙ ap is_some (laws.stored k room room e forwards s)
      ∙ either (room == room && equal_ids e.event_id (some k))
    where
      either : (b : Bool) → is_some (if b then some e else event_of o k room s) ≡ true
      either true = refl
      either false = sym (laws.exists k room s) ∙ h

  added_keeps :
      (k room : String) (is_initial : Bool) (e : Event) (s : S) (known : Bool)
      → exists_in o k room s ≡ true
      → exists_in o k room (event_settled o copied is_initial room e (s, known)) ≡ true
  added_keeps k room is_initial e s true h = h
  added_keeps k room is_initial e s false h =
      let redaction = not is_initial && is_redaction e in
      let redacted_state = redacted o copied e.redacts room s in
      stored_keeps k room e (state_handled o copied is_initial room e s) (
        with_receipt_keeps k room (local_receipt e.sender e)
          (if redaction then redacted_state else s)
          (choice_keeps k room redaction s redacted_state h (redacted_keeps k room e.redacts s h)))

  add_event_keeps :
      (k room : String) (is_initial : Bool) (e : Event) (s : S)
      → exists_in o k room s ≡ true
      → exists_in o k room (event_added o copied is_initial room e s) ≡ true
  unfolding event_added
  add_event_keeps k room is_initial e s h =
      added_keeps k room is_initial e (asked o copied e.event_id room s).0
        (asked o copied e.event_id room s).1 (asked_keeps k room e.event_id s h)

  added_there :
      (k room : String) (is_initial : Bool) (e : Event) (s : S) (known : Bool)
      → e.event_id ≡ some k
      → (known ≡ true → exists_in o k room s ≡ true)
      → exists_in o k room (event_settled o copied is_initial room e (s, known)) ≡ true
  added_there k room is_initial e s true at h = h refl
  added_there k room is_initial e s false at h =
      let before = state_handled o copied is_initial room e s in
      laws.exists k room (messages.store_event_for_room room e forwards before)
      ∙ ap is_some (laws.stored k room room e forwards before)
      ∙ rw (at, eq_refl room, eq_refl k) refl

  asked_there :
      (k room : String) (id : Option String) (s : S)
      → id ≡ some k
      → (asked o copied id room s).1 ≡ true
      → exists_in o k room (asked o copied id room s).0 ≡ true
  asked_there k room none s at h = absurd (cc)
  asked_there k room (some id) s at h =
      read_exists k room s (messages.event_exists_with_event_id id room s).0
        (laws.asked_event k id room room s) (ap (λ i. is_known i) (sym (some_id at)) ∙ h)
    where
      is_known : String → Bool
      is_known i = exists_in o i room s

      some_id : {a b : String} → some a ≡ some b → a ≡ b
      some_id e = cc

  add_event_there :
      (k room : String) (is_initial : Bool) (e : Event) (s : S)
      → e.event_id ≡ some k
      → exists_in o k room (event_added o copied is_initial room e s) ≡ true
  unfolding event_added
  add_event_there k room is_initial e s at =
      added_there k room is_initial e (asked o copied e.event_id room s).0
        (asked o copied e.event_id room s).1 at (asked_there k room e.event_id s at)

  add_events_keep :
      (k room : String) (is_initial : Bool) (events : List Event) (s : S)
      → exists_in o k room s ≡ true
      → exists_in o k room (events_added o copied is_initial room events s) ≡ true
  unfolding events_added
  add_events_keep k room is_initial [] s h = h
  add_events_keep k room is_initial (e ∷ events) s h =
      add_events_keep k room is_initial events (event_added o copied is_initial room e s)
        (add_event_keeps k room is_initial e s h)

  add_events_there :
      (k room : String) (is_initial : Bool) (e : Event) (events : List Event) (s : S)
      → In e events
      → e.event_id ≡ some k
      → exists_in o k room (events_added o copied is_initial room events s) ≡ true
  unfolding events_added
  add_events_there k room is_initial e [] s h at = absurd h
  add_events_there k room is_initial e (f ∷ events) s (inl first) at =
      add_events_keep k room is_initial events (event_added o copied is_initial room f s)
        (add_event_there k room is_initial f s (ap (λ x. x.event_id) first ∙ at))
  add_events_there k room is_initial e (f ∷ events) s (inr later) at =
      add_events_there k room is_initial e events (event_added o copied is_initial room f s) later
        at

  sync_messages_there :
      (k room : String) (is_initial limited : Bool) (e : Event) (events : List Event) (s : S)
      → In e events
      → e.event_id ≡ some k
      → exists_in o k room (messages_synced o copied is_initial limited room events s) ≡ true
  sync_messages_there k room true true e events s h at =
      add_events_there k room true e events s h at
  sync_messages_there k room true false e events s h at =
      let s' = events_added o copied true room events s in
      read_exists k room s' (pagination.store_has_reached_node_pagination_end room true s')
        (laws.end_event k room room true s') (add_events_there k room true e events s h at)
  sync_messages_there k room false true e events s h at =
      add_events_there k room false e events (messages.delete_all_messages_in_room room s) h at
  sync_messages_there k room false false e events s h at =
      add_events_there k room false e events s h at

  room_synced_there :
      (membership : Membership) (limited : Bool) (prev_batch : Option String) (room k : String)
      (e : Event) (events : List Event) (s : S)
      → In e events
      → e.event_id ≡ some k
      → exists_in o k room (room_synced o copied membership limited prev_batch room events s) ≡ true
  unfolding room_synced
  room_synced_there membership true prev_batch room k e events s h at =
      let is_initial = is_room_initial_sync membership in
      let first = cleaned o copied membership room s in
      let s' = messages_synced o copied is_initial true room events first in
      read_exists k room s' (pagination.store_pagination_token room prev_batch s')
        (laws.token_event k room room prev_batch s')
        (sync_messages_there k room is_initial true e events first h at)
  room_synced_there membership false prev_batch room k e events s h at =
      sync_messages_there k room (is_room_initial_sync membership) false e events
        (cleaned o copied membership room s) h at

  -- Whatever the store, if it keeps the laws of the interface: the sync of a joined room whose events
  -- all have ids raises nothing, whatever the membership was before, and after it each event of the
  -- sync is in the store of the room.
  pub handle_joined_room_sync-exists_in :
      (membership : Membership) (limited : Bool) (prev_batch : Option String) (room k : String)
      (e : Event) (events : List Event) (s : S)
      → AreIdentified events
      → In e events
      → e.event_id ≡ some k
      → (s' : S) × (handle_joined_room_sync o copied membership limited prev_batch room events s
          ≡ returned s')
        × (exists_in o k room s' ≡ true)
  handle_joined_room_sync-exists_in membership limited prev_batch room k e events s ids h at = (
    room_synced o copied membership limited prev_batch room events s,
    handle_joined_room_sync_lem o copied membership limited prev_batch room events s ids,
    room_synced_there membership limited prev_batch room k e events s h at,
  )
