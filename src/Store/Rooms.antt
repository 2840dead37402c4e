-- ===== src/Store/Rooms.antt =====
-- What the writes of MXMemoryStore.m do to the stores of its rooms.
use sendingnetwork_ios.Common.{
  ◌++◌, Bool-cases, inl, inr, ◌||◌, ◌&&◌, not, equal_ids, ℕ, zero, suc, length, String, Bool, true,
  false, ◌≡◌, refl, ap, ◌∙◌, sym, Option, none, some, List, [], ◌∷◌, ◌==◌, is_some, eq_iff, eq_refl,
  if◌then◌else◌, arith,
}
use sendingnetwork_ios.Common.Dict.{
  lookup-insert, keys, Dict, lookup, lookup-insert_same, lookup-insert_other,
}
use sendingnetwork_ios.RoomStore.{
  has_object, store_outgoing_message, OutgoingMessagesStore, Event, RoomStore, TimelineDirection,
  event_with_event_id, store_event, index_event, remove_all_messages, remove_all_outgoing_messages,
  replace_event, replace_below,
}
use sendingnetwork_ios.RoomStore as Room
use sendingnetwork_ios.MemoryStore.{
  outgoing_store, put_outgoing, ReceiptData, store_receipt_for_thread, store_receipt_for_threads,
  store_receipt_in, threaded_store, MemoryStore, get_or_create_room_store, or_new, room_store,
  put_room, contains, without,
}
use sendingnetwork_ios.MemoryStore.Rooms.{room_store-put}
use sendingnetwork_ios.MemoryStore.Places.{store_receipt_for_thread-put}

-- The store of the room that is written, and that of another one.
pub same_room :
    (room : String) (f : RoomStore → RoomStore) (s : MemoryStore)
    → room_store room (put_room room (f (room_store room s)) s) ≡ f (room_store room s)
same_room room f s = room_store-put room room f s ∙ rw (eq_refl room) refl

module _ {A : Type 0} (read : RoomStore → A) (f : RoomStore → RoomStore) where
  either : (b : Bool) (r : RoomStore) → read (f r) ≡ read r → read (if b then f r else r) ≡ read r
  either true r h = h
  either false r h = refl

  -- What a write leaves alone is read as before in every room.
  pub kept :
      (room other : String) (s : MemoryStore)
      → ((r : RoomStore) → read (f r) ≡ read r)
      → read (room_store other (put_room room (f (room_store room s)) s))
        ≡ read (room_store other s)
  kept room other s h =
      ap read (room_store-put room other f s)
      ∙ either (room == other) (room_store other s) (h (room_store other s))

  choice :
      (b : Bool) (r : RoomStore) → read (if b then f r else r) ≡ (if b then read (f r) else read r)
  choice true r = refl
  choice false r = refl

  -- What is read in a room that may be the one written.
  pub in_room :
      (room other : String) (s : MemoryStore)
      → read (room_store other (put_room room (f (room_store room s)) s))
        ≡ (if room == other then read (f (room_store other s)) else read (room_store other s))
  in_room room other s =
      ap read (room_store-put room other f s) ∙ choice (room == other) (room_store other s)

  pub here :
      (room : String) (s : MemoryStore)
      → read (room_store room (put_room room (f (room_store room s)) s))
        ≡ read (f (room_store room s))
  here room s = ap read (same_room room f s)

pub contains-without :
    (x y : String) (ys : List String)
    → contains x (without y ys) ≡ (if y == x then false else contains x ys)
contains-without x y [] = ground arith
contains-without x y (z ∷ ys) =
    ground (arith, eq_iff z y, eq_iff z x, eq_iff y x, contains-without x y ys)

index_event_lem :
    (k : String) (e : Event) (o : Option String) (d : Dict Event)
    → lookup k (index_event o e d) ≡ (if equal_ids o (some k) then some e else lookup k d)
index_event_lem k e none d = refl
index_event_lem k e (some j) d = lookup-insert j k e d

-- The event under an id, in a room that may be the one written.
pub stored_in :
    (here : Bool) (k : String) (e : Event) (d : TimelineDirection) (r : RoomStore)
    → lookup k (if here then store_event e d r else r).messages_by_event_ids
      ≡ (if here && equal_ids e.event_id (some k) then some e else lookup k r.messages_by_event_ids)
unfolding store_event
stored_in true k e d r = index_event_lem k e e.event_id r.messages_by_event_ids
stored_in false k e d r = refl

pub room_store-get_or_create :
    (room other : String) (s : MemoryStore)
    → room_store other (get_or_create_room_store room s) ≡ room_store other s
unfolding get_or_create_room_store
room_store-get_or_create room other s = by_lookup (lookup room s.room_stores) refl
  where
    created :
        lookup room s.room_stores ≡ none
        → room_store other (put_room room Room.init s) ≡ room_store other s
    created h = elim (Bool-cases (room == other)) [
      | inl same ↦
          ap (or_new Room.init) (lookup-insert_same room other Room.init s.room_stores same)
          ∙ sym (
              ap (or_new Room.init)
                (ap (λ i. lookup i s.room_stores) (sym ((eq_iff room other).0 same)) ∙ h))
      | inr apart ↦
          ap (or_new Room.init) (lookup-insert_other room other Room.init s.room_stores apart)
    ]

    by_lookup :
        (o : Option RoomStore)
        → lookup room s.room_stores ≡ o
        → room_store other (elim o [ none ↦ put_room room Room.init s | some _ ↦ s ])
          ≡ room_store other s
    by_lookup none h = created h
    by_lookup (some r) h = refl

-- An entry of the index is kept by every write of another.
index_keeps :
    (k : String) (e : Event) (o : Option String) (d : Dict Event)
    → is_some (lookup k d) ≡ true
    → is_some (lookup k (index_event o e d)) ≡ true
index_keeps k e none d h = h
index_keeps k e (some j) d h = elim (Bool-cases (j == k)) [
  | inl same ↦ ap is_some (lookup-insert_same j k e d same)
  | inr other ↦ ap is_some (lookup-insert_other j k e d other) ∙ h
]

replace_below_keeps :
    (k : String) (i : ℕ) (e : Event) (r : RoomStore)
    → is_some (lookup k r.messages_by_event_ids) ≡ true
    → is_some (lookup k (replace_below i e r).messages_by_event_ids) ≡ true
unfolding replace_below
replace_below_keeps k zero e r h = h
replace_below_keeps k (suc i) e r h =
    ground
      (arith, replace_below_keeps k i e r h, index_keeps k e e.event_id r.messages_by_event_ids h)

pub replace_below_end :
    (i : ℕ) (e : Event) (r : RoomStore)
    → (replace_below i e r).has_reached_node_pagination_end ≡ r.has_reached_node_pagination_end
unfolding replace_below
replace_below_end zero e r = refl
replace_below_end (suc i) e r = ground (arith, replace_below_end i e r)

pub replaced_keeps_event :
    (k : String) (e : Event) (r : RoomStore)
    → (not (is_some (lookup k r.messages_by_event_ids))
        || is_some (lookup k (replace_event e r).messages_by_event_ids))
      ≡ true
unfolding replace_event
replaced_keeps_event k e r =
    implied (is_some (lookup k r.messages_by_event_ids))
      (is_some (lookup k (replace_below (length r.messages) e r).messages_by_event_ids))
      (replace_below_keeps k (length r.messages) e r)
  where
    implied : (a b : Bool) → (a ≡ true → b ≡ true) → (not a || b) ≡ true
    implied true b h = h refl
    implied false b h = refl

store_receipt_for_threads_rooms :
    (receipt : ReceiptData) (room : String) (threads : List String) (s : MemoryStore) (b : Bool)
    → (store_receipt_for_threads receipt room threads (s, b)).0.room_stores ≡ s.room_stores
unfolding store_receipt_for_threads
store_receipt_for_threads_rooms receipt room [] s b = refl
store_receipt_for_threads_rooms receipt room (thread ∷ threads) s b =
    let r = store_receipt_for_thread receipt room thread s in
    store_receipt_for_threads_rooms receipt room threads r.0 (b || r.1)
    ∙ ap (λ t. t.room_stores) (store_receipt_for_thread-put receipt room thread s)

-- A receipt leaves the messages of all rooms alone.
pub store_receipt_rooms :
    (own : Option String) (receipt : ReceiptData) (room : String) (s : MemoryStore)
    → (store_receipt_in own receipt room s).0.room_stores ≡ s.room_stores
unfolding store_receipt_in
store_receipt_rooms none receipt room s =
    let r = store_receipt_for_thread receipt room "main" s in
    store_receipt_for_threads_rooms receipt room (keys (threaded_store room r.0)) r.0 r.1
    ∙ ap (λ t. t.room_stores) (store_receipt_for_thread-put receipt room "main" s)
store_receipt_rooms (some thread) receipt room s =
    ap (λ t. t.room_stores) (store_receipt_for_thread-put receipt room thread s)

replace_below_other :
    (k : String) (i : ℕ) (e : Event) (r : RoomStore)
    → equal_ids e.event_id (some k) ≡ false
    → lookup k (replace_below i e r).messages_by_event_ids ≡ lookup k r.messages_by_event_ids
unfolding replace_below
replace_below_other k zero e r h = refl
replace_below_other k (suc i) e r h =
    ground
      (arith, replace_below_other k i e r h, index_event_lem k e e.event_id r.messages_by_event_ids)

-- A replacement concerns the id of its event, in its room.
pub replaced_elsewhere :
    (k other room : String) (e : Event) (s : MemoryStore)
    → (let found =
          lookup k
            (room_store other
              (put_room room (replace_event e (room_store room s)) s)).messages_by_event_ids in
        found ≡ (
          if (room == other) && equal_ids e.event_id (some k)
          then found
          else lookup k (room_store other s).messages_by_event_ids))
unfolding replace_event
replaced_elsewhere k other room e s =
    by_id (room == other) (equal_ids e.event_id (some k)) (λ h. h)
      (in_room (λ r. lookup k r.messages_by_event_ids) (replace_event e) room other s)
  where
    by_id :
        {found : Option Event} (same id : Bool)
        → (equal_ids e.event_id (some k) ≡ true → id ≡ true)
        → found ≡ (
            if same
            then lookup k (replace_event e (room_store other s)).messages_by_event_ids
            else lookup k (room_store other s).messages_by_event_ids)
        → found
          ≡ (if same && id then found else lookup k (room_store other s).messages_by_event_ids)
    by_id true true h f = refl
    by_id true false h f = elim (Bool-cases (equal_ids e.event_id (some k))) [
      | inl same ↦ let c : false ≡ true = h same in absurd (cc)
      | inr apart ↦
          f
          ∙ replace_below_other k (length (room_store other s).messages) e (room_store other s)
              apart
    ]
    by_id false id h f = f

has_object-append : (e : Event) (es : List Event) → has_object e (es ++ (e ∷ [])) ≡ true
has_object-append e [] = ground arith
has_object-append e (f ∷ es) = ground (arith, has_object-append e es)

pub has_object-store_outgoing_message :
    (e : Event) (es : List Event) → has_object e (store_outgoing_message e es) ≡ true
unfolding store_outgoing_message
has_object-store_outgoing_message e es = elim (Bool-cases (has_object e es)) [
  | inl there ↦ rw there there
  | inr new ↦ rw new (has_object-append e es)
]

pub outgoing_store-put :
    (room other : String) (es : OutgoingMessagesStore) (s : MemoryStore)
    → outgoing_store other (put_outgoing room es s)
      ≡ (if room == other then es else outgoing_store other s)
outgoing_store-put room other es s =
    ap (or_new []) (lookup-insert room other es s.room_outgoing_messages_stores)
    ∙ either_store (room == other)
  where
    either_store :
        (b : Bool)
        → or_new [] (if b then some es else lookup other s.room_outgoing_messages_stores)
          ≡ (if b then es else outgoing_store other s)
    either_store true = refl
    either_store false = refl
