-- ===== src/MemoryStore/Receipts.antt =====
-- The receipts of MXMemoryStore.m: what a receipt changes, and for which threads.
use sendingnetwork_ios.Common.{
  ℕ, ◌≤◌, String, Bool, true, false, ◌≡◌, refl, sym, ap, subst, ◌∙◌, Option, none, some, List, [],
  ◌∷◌, ◌&&◌, ◌||◌, if◌then◌else◌, ◌==◌, eq_iff, eq_refl, arith,
}
use sendingnetwork_ios.Common.Dict.{Dict, insert, keys}
use sendingnetwork_ios.MemoryStore.{
  ReceiptData, RoomThreadedReceiptsStore, MemoryStore, threaded_store, receipts_store,
  store_receipt_for_thread, store_receipt_for_threads, store_receipt, store_receipt_in,
}
use sendingnetwork_ios.MemoryStore.Places.{
  receipt_at, newer, newer-newer, threaded_store-put, stored_receipts, store_receipt_for_thread-put,
  receipt_at-store_for_thread,
}

-- Whether a thread is one of a list.
abbrev pub among : String → List String → Bool
among thread [] = false
among thread (t ∷ ts) = t == thread || among thread ts

choices :
    (room t ts user : Bool) (receipt : ReceiptData) (now : Option ReceiptData)
    → (let first = if (room && t) && user then newer receipt now else now in
        if (room && ts) && user then newer receipt first else first)
      ≡ (if (room && (t || ts)) && user then newer receipt now else now)
choices true true true true receipt now = newer-newer receipt now
choices true true true false receipt now = refl
choices true true false user receipt now = refl
choices true false ts user receipt now = refl
choices false t ts user receipt now = refl

-- Storing for a list of threads keeps the newer receipt in each of them.
receipt_at-store_for_threads :
    (receipt : ReceiptData) (room_id room thread user_id : String) (threads : List String)
    (s : MemoryStore) (is_stored : Bool)
    → receipt_at room thread user_id
        (store_receipt_for_threads receipt room_id threads (s, is_stored)).0
      ≡ (if (room_id == room && among thread threads) && receipt.user_id == user_id
          then newer receipt (receipt_at room thread user_id s)
          else receipt_at room thread user_id s)
unfolding store_receipt_for_threads
receipt_at-store_for_threads receipt room_id room thread user_id [] s is_stored =
    ground (arith, eq_iff room_id room)
receipt_at-store_for_threads receipt room_id room thread user_id (t ∷ ts) s is_stored =
    let (s', stored) = store_receipt_for_thread receipt room_id t s in
    let now = receipt_at room thread user_id s in
    receipt_at-store_for_threads receipt room_id room thread user_id ts
      (store_receipt_for_thread receipt room_id t s).0
      (is_stored || (store_receipt_for_thread receipt room_id t s).1)
    ∙ rw (receipt_at-store_for_thread receipt room_id room t thread user_id s) (
        choices (room_id == room) (t == thread) (among thread ts) (receipt.user_id == user_id)
          receipt now)

among-keys-insert :
    {V : Type 0} (t k : String) (v : V) (d : Dict V)
    → among t (keys (insert k v d)) ≡ (k == t || among t (keys d))
unfolding insert
among-keys-insert t k v [] = refl
among-keys-insert t k v ((j, w) ∷ d) =
    ground (arith, eq_iff j k, eq_iff j t, eq_iff k t, among-keys-insert t k v d)

-- The threads that a receipt is stored for: its own, or else the main one and the known ones.
abbrev pub concerns : Option String → String → RoomThreadedReceiptsStore → Bool
concerns none thread store = "main" == thread || among thread (keys store)
concerns (some own) thread store = own == thread

keys-store_main :
    (receipt : ReceiptData) (room_id thread : String) (s : MemoryStore)
    → among thread
        (keys (threaded_store room_id (store_receipt_for_thread receipt room_id "main" s).0))
      ≡ concerns none thread (threaded_store room_id s)
keys-store_main receipt room_id thread s =
    let written = stored_receipts receipt (receipts_store room_id "main" s) in
    ap (λ s'. among thread (keys (threaded_store room_id s')))
      (store_receipt_for_thread-put receipt room_id "main" s)
    ∙ ap (λ t. among thread (keys t)) (threaded_store-put room_id room_id "main" written s)
    ∙ rw (eq_refl room_id) (among-keys-insert thread "main" written (threaded_store room_id s))

twice : (a b : Bool) → (a || (a || b)) ≡ (a || b)
twice a b = ground arith

receipt_at-store_receipt_in :
    (own : Option String) (receipt : ReceiptData) (room_id room thread user_id : String)
    (s : MemoryStore)
    → receipt_at room thread user_id (store_receipt_in own receipt room_id s).0 ≡ (
        if (room_id == room && concerns own thread (threaded_store room_id s))
          && receipt.user_id == user_id
        then newer receipt (receipt_at room thread user_id s)
        else receipt_at room thread user_id s)
unfolding store_receipt_in
receipt_at-store_receipt_in none receipt room_id room thread user_id s =
    let main = store_receipt_for_thread receipt room_id "main" s in
    let now = receipt_at room thread user_id s in
    receipt_at-store_for_threads receipt room_id room thread user_id
      (keys (threaded_store room_id main.0)) main.0 main.1
    ∙ rw
        (
          receipt_at-store_for_thread receipt room_id room "main" thread user_id s,
          keys-store_main receipt room_id thread s,
        )
        (choices (room_id == room) ("main" == thread)
            (concerns none thread (threaded_store room_id s)) (receipt.user_id == user_id) receipt
            now
          ∙ ap
              (λ b.
                if (room_id == room && b) && receipt.user_id == user_id
                then newer receipt now
                else now)
              (twice ("main" == thread) (among thread (keys (threaded_store room_id s)))))
receipt_at-store_receipt_in (some own) receipt room_id room thread user_id s =
    receipt_at-store_for_thread receipt room_id room own thread user_id s

-- After a receipt is stored, the receipt of each user in each thread of each room is what it was,
-- but for the user of the receipt, in its room, in the thread it names, or where it names none in
-- the main thread and each thread that has receipts: there it is the new one if there was none, or
-- if the new one is of another event and has a later time, and else the old one.
pub receipt_at-store_receipt :
    (receipt : ReceiptData) (room_id room thread user_id : String) (s : MemoryStore)
    → receipt_at room thread user_id (store_receipt receipt room_id s).0 ≡ (
        if (room_id == room && concerns receipt.thread_id thread (threaded_store room_id s))
          && receipt.user_id == user_id
        then newer receipt (receipt_at room thread user_id s)
        else receipt_at room thread user_id s)
unfolding store_receipt
receipt_at-store_receipt receipt room_id room thread user_id s =
    receipt_at-store_receipt_in receipt.thread_id receipt room_id room thread user_id s

-- A list of receipts with their rooms is stored one after the other.
unfoldable pub store_receipts : List (ReceiptData × String) → MemoryStore → MemoryStore
unfolding store_receipt
store_receipts [] s = s
store_receipts ((receipt, room_id) ∷ rest) s =
    store_receipts rest (store_receipt receipt room_id s).0

-- A receipt that is there and not older than a time.
abbrev pub NotBefore : ℕ → Option ReceiptData → Type 0
NotBefore ts none = ⊥
NotBefore ts (some receipt) = ts ≤ receipt.ts

newer-NotBefore :
    (ts : ℕ) (receipt : ReceiptData) (now : Option ReceiptData) (here : Bool)
    → NotBefore ts now
    → NotBefore ts (if here then newer receipt now else now)
newer-NotBefore ts receipt none here h = absurd h
newer-NotBefore ts receipt (some now) here h = ground arith

-- A receipt of a user in a thread is never lost and never gives way to an older one, whatever
-- receipts are stored.
pub store_receipts-NotBefore :
    (receipts : List (ReceiptData × String)) (room thread user_id : String) (ts : ℕ)
    (s : MemoryStore)
    → NotBefore ts (receipt_at room thread user_id s)
    → NotBefore ts (receipt_at room thread user_id (store_receipts receipts s))
unfolding store_receipts
store_receipts-NotBefore [] room thread user_id ts s h = h
store_receipts-NotBefore ((receipt, room_id) ∷ rest) room thread user_id ts s h =
    let here =
      (room_id == room && concerns receipt.thread_id thread (threaded_store room_id s))
      && receipt.user_id == user_id in
    store_receipts-NotBefore rest room thread user_id ts (store_receipt receipt room_id s).0 (
      subst (NotBefore ts) (sym (receipt_at-store_receipt receipt room_id room thread user_id s))
        (newer-NotBefore ts receipt (receipt_at room thread user_id s) here h))
