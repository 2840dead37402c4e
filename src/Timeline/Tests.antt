-- ===== src/Timeline/Tests.antt =====
-- A room of a memory store that is synced, with a redaction.
use sendingnetwork_ios.Common.{
  ◌==◌, if◌then◌else◌, ◌+◌, ℕ, String, true, false, ◌≡◌, refl, none, some, [], ◌∷◌, inl, inr,
  if◌then◌else◌,
}
use sendingnetwork_ios.RoomStore.{Event}
use sendingnetwork_ios.MemoryStore.{
  store_receipt, store_receipt_in, store_receipt_for_threads, store_receipt_for_thread, MemoryStore,
  init,
}
use sendingnetwork_ios.Store.{token_of, reached_end, exists_in}
use sendingnetwork_ios.Store.Memory.{memory_store, memory_store-IsStore}
use sendingnetwork_ios.Conversions.{invite, join}
use sendingnetwork_ios.Json.Setters.{raised, returned}
use sendingnetwork_ios.Common.Dict.{lookup, insert}
use sendingnetwork_ios.Timeline.{add_event, add_events, local_receipt, handle_joined_room_sync}
use sendingnetwork_ios.Timeline.Synced.{handle_joined_room_sync-exists_in}
use sendingnetwork_ios.Timeline.Pagination.{handle_joined_room_sync_limited}

abbrev event : ℕ → String → String → Event
event object event_id type = record {
  object = object;
  event_id = some event_id;
  type = some type;
  sender = some "@b";
  relates_to = none;
  is_redacted_event = false;
  redacts = if type == "m.room.redaction" then some "$1" else none;
  origin_server_ts = object;
}

abbrev first_event : Event
first_event = event 1 "$1" "m.room.message"

abbrev redaction : Event
redaction = event 3 "$3" "m.room.redaction"

abbrev copied : ℕ → ℕ
copied object = object + 100

abbrev before_sync : MemoryStore
before_sync = init "@a"

handle_joined_room_sync-exists_in_example :
    (s' : MemoryStore) × (handle_joined_room_sync memory_store copied invite true
        (some "t")
        "!r"
        (first_event ∷ redaction ∷ [])
        before_sync
      ≡ returned s')
    × (exists_in memory_store "$3" "!r" s' ≡ true)
handle_joined_room_sync-exists_in_example =
    handle_joined_room_sync-exists_in memory_store memory_store-IsStore copied invite true
      (some "t") "!r" "$3" redaction (first_event ∷ redaction ∷ []) before_sync (refl, (refl, tt))
      (inr (inl refl)) refl

handle_joined_room_sync_limited_example :
    (s' : MemoryStore) × (handle_joined_room_sync memory_store copied join true
        (some "t")
        "!r"
        (first_event ∷ redaction ∷ [])
        before_sync
      ≡ returned s')
    × (token_of memory_store "!r" s' ≡ some "t")
    × (reached_end memory_store "!r" s' ≡ false)
handle_joined_room_sync_limited_example =
    handle_joined_room_sync_limited memory_store memory_store-IsStore copied join (some "t") "!r"
      (first_event ∷ redaction ∷ []) before_sync (refl, (refl, tt)) refl

-- An event with a sender and no id ends the sync with an exception.
unidentified :
    handle_joined_room_sync memory_store copied join false none "!r"
      (record first_event { event_id = none } ∷ redaction ∷ [])
      before_sync
    ≡ raised
unfolding handle_joined_room_sync add_events add_event local_receipt store_receipt store_receipt_in
    store_receipt_for_threads store_receipt_for_thread lookup insert
unidentified = refl
