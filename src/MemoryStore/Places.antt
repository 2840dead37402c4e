-- ===== src/MemoryStore/Places.antt =====
-- One receipt of MXMemoryStore.m in one thread: what is read where after it was written.
use sendingnetwork_ios.Common.{
  equal_ids, String, Bool, true, false, ◌≡◌, refl, ap, ◌∙◌, Option, none, some, [], ◌&&◌,
  if◌then◌else◌, ◌==◌, eq_iff, ltb, arith, Bool-cases, inl, inr,
}
use sendingnetwork_ios.Common.Dict.{
  lookup, insert, lookup-insert, lookup-insert_same, lookup-insert_other,
}
use sendingnetwork_ios.MemoryStore.{
  ReceiptData, RoomReceiptsStore, MemoryStore, or_new, threaded_store, receipts_store, put_receipts,
  takes, store_receipt_for_thread,
}

-- The receipt of a user in a thread of a room.
abbrev pub receipt_at : String → String → String → MemoryStore → Option ReceiptData
receipt_at room_id thread user_id s = lookup user_id (receipts_store room_id thread s)

-- The one of two receipts that is kept: the old one for the same event, else the later one.
abbrev pub newer : ReceiptData → Option ReceiptData → Option ReceiptData
newer receipt none = some receipt
newer receipt (some current) =
    if equal_ids receipt.event_id current.event_id
    then some current
    else if ltb current.ts receipt.ts
    then some receipt
    else some current

pub newer-takes :
    (receipt : ReceiptData) (current : Option ReceiptData)
    → newer receipt current ≡ (if takes receipt current then some receipt else current)
newer-takes receipt none = refl
newer-takes receipt (some current) = ground arith

pub newer-newer :
    (receipt : ReceiptData) (current : Option ReceiptData)
    → newer receipt (newer receipt current) ≡ newer receipt current
newer-newer receipt none = ground arith
newer-newer receipt (some current) = ground arith

pub threaded_store-put :
    (room_id room thread_id : String) (receipts : RoomReceiptsStore) (s : MemoryStore)
    → threaded_store room (put_receipts room_id thread_id receipts s) ≡ (
        if room_id == room
        then insert thread_id receipts (threaded_store room_id s)
        else threaded_store room s)
threaded_store-put room_id room thread_id receipts s = elim (Bool-cases (room_id == room)) [
  | inl same ↦ rw same (
      ap (or_new []) (
        lookup-insert_same room_id room (insert thread_id receipts (threaded_store room_id s))
          s.room_threaded_receipts_stores same))
  | inr other ↦ rw other (
      ap (or_new []) (
        lookup-insert_other room_id room (insert thread_id receipts (threaded_store room_id s))
          s.room_threaded_receipts_stores other))
]

-- A read of what was written.
pub receipts_store-put :
    (room_id room thread_id thread : String) (receipts : RoomReceiptsStore) (s : MemoryStore)
    → receipts_store room thread (put_receipts room_id thread_id receipts s)
      ≡ (if room_id == room && thread_id == thread then receipts else receipts_store room thread s)
receipts_store-put room_id room thread_id thread receipts s =
    ap (λ t. or_new [] (lookup thread t)) (threaded_store-put room_id room thread_id receipts s)
    ∙ ground (
      arith,
      eq_iff room_id room,
      eq_iff thread_id thread,
      lookup-insert thread_id thread receipts (threaded_store room_id s),
    )

-- The receipts that are written, in a place that may be the one read.
abbrev pub stored_receipts : ReceiptData → RoomReceiptsStore → RoomReceiptsStore
stored_receipts receipt receipts =
    if takes receipt (lookup receipt.user_id receipts)
    then insert receipt.user_id receipt receipts
    else receipts

pub lookup-stored_receipts :
    (receipt : ReceiptData) (user_id : String) (receipts : RoomReceiptsStore)
    → lookup user_id (stored_receipts receipt receipts) ≡ (
        if receipt.user_id == user_id
        then newer receipt (lookup user_id receipts)
        else lookup user_id receipts)
lookup-stored_receipts receipt user_id receipts = elim (Bool-cases (receipt.user_id == user_id)) [
  | inl same ↦ ground (
    arith,
    (eq_iff receipt.user_id user_id).0 same,
    newer-takes receipt (lookup user_id receipts),
    lookup-insert receipt.user_id user_id receipt receipts,
  )
  | inr other ↦ ground (arith, other, lookup-insert receipt.user_id user_id receipt receipts)
]

pub store_receipt_for_thread-put :
    (receipt : ReceiptData) (room_id thread_id : String) (s : MemoryStore)
    → (store_receipt_for_thread receipt room_id thread_id s).0
      ≡ put_receipts room_id thread_id
          (stored_receipts receipt (receipts_store room_id thread_id s))
          s
unfolding store_receipt_for_thread
store_receipt_for_thread-put receipt room_id thread_id s =
    elim (Bool-cases (takes receipt (receipt_at room_id thread_id receipt.user_id s))) [
      | inl taken ↦ rw taken refl
      | inr left_out ↦ rw left_out refl
    ]

pub stored_place :
    (here : Bool) (receipt : ReceiptData) (user_id : String) (written read : RoomReceiptsStore)
    → (here ≡ true → written ≡ read)
    → lookup user_id (if here then stored_receipts receipt written else read) ≡ (
        if here && receipt.user_id == user_id
        then newer receipt (lookup user_id read)
        else lookup user_id read)
stored_place true receipt user_id written read same =
    ap (λ r. lookup user_id (stored_receipts receipt r)) (same refl)
    ∙ lookup-stored_receipts receipt user_id read
stored_place false receipt user_id written read same = refl

pub same_place :
    (room_id room thread_id thread : String) (s : MemoryStore)
    → (room_id == room && thread_id == thread) ≡ true
    → receipts_store room_id thread_id s ≡ receipts_store room thread s
same_place room_id room thread_id thread s h =
    let rooms : room_id ≡ room = ground (arith, eq_iff room_id room) in
    let threads : thread_id ≡ thread = ground (arith, eq_iff thread_id thread) in
    ap (λ r. receipts_store r thread_id s) rooms ∙ ap (λ t. receipts_store room t s) threads

-- The receipts of a thread after one is stored there: only the user's can be another one.
pub receipt_at-store_for_thread :
    (receipt : ReceiptData) (room_id room thread_id thread user_id : String) (s : MemoryStore)
    → receipt_at room thread user_id (store_receipt_for_thread receipt room_id thread_id s).0 ≡ (
        if (room_id == room && thread_id == thread) && receipt.user_id == user_id
        then newer receipt (receipt_at room thread user_id s)
        else receipt_at room thread user_id s)
receipt_at-store_for_thread receipt room_id room thread_id thread user_id s =
    ap (receipt_at room thread user_id) (store_receipt_for_thread-put receipt room_id thread_id s)
    ∙ ap (lookup user_id) (
        receipts_store-put room_id room thread_id thread
          (stored_receipts receipt (receipts_store room_id thread_id s)) s)
    ∙ stored_place (room_id == room && thread_id == thread) receipt user_id
        (receipts_store room_id thread_id s) (receipts_store room thread s)
        (same_place room_id room thread_id thread s)
