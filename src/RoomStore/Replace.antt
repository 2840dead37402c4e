-- ===== src/RoomStore/Replace.antt =====
-- Which message `replaceEvent:` of MXMemoryRoomStore.m replaces.
use sendingnetwork_ios.Common.{
  ℕ, zero, suc, ◌+◌, ◌≤◌, String, true, false, ◌≡◌, refl, ap, ◌∙◌, Option, some, List, [], ◌∷◌,
  ◌++◌, equal_ids, length, get_elem?, set, arith, length-append,
}
use sendingnetwork_ios.RoomStore.{Event, RoomStore, replace_event, replace_below, index_event}
use sendingnetwork_ios.RoomStore.Threads.{has_id}

get_elem?-append :
    (xs zs : List Event) (j : ℕ) → get_elem? (xs ++ zs) (length xs + j) ≡ get_elem? zs j
get_elem?-append [] zs j = let e : 0 + j ≡ j = omega arith in ap (get_elem? zs) e
get_elem?-append (x ∷ xs) zs j =
    let e : suc (length xs) + j ≡ suc (length xs + j) = omega arith in
    ap (get_elem? (x ∷ (xs ++ zs))) e ∙ get_elem?-append xs zs j

set-append :
    (xs ys : List Event) (a event : Event)
    → set (xs ++ (a ∷ ys)) (length xs) event ≡ xs ++ (event ∷ ys)
set-append [] ys a event = refl
set-append (x ∷ xs) ys a event = ap (◌∷◌ x) (set-append xs ys a event)

other_id :
    (k : Option String) (ys : List Event) (j : ℕ)
    → has_id k ys ≡ false
    → suc j ≤ length ys
    → (e : Event) × (get_elem? ys j ≡ some e) × (equal_ids e.event_id k ≡ false)
unfolding has_id
other_id k [] j h b = absurd (omega arith)
other_id k (y ∷ ys) zero h b = (y, refl, ground arith)
other_id k (y ∷ ys) (suc j) h b = other_id k ys j (ground arith) (omega arith)

-- The store with the event between two lists of messages, and in the index.
abbrev pub replaced : Event → List Event → List Event → RoomStore → RoomStore
replaced event xs ys s = record s {
  messages = xs ++ (event ∷ ys);
  messages_by_event_ids = index_event event.event_id event s.messages_by_event_ids;
}

replace_at :
    (event a : Event) (xs ys : List Event) (s : RoomStore)
    → s.messages ≡ xs ++ (a ∷ ys)
    → equal_ids a.event_id event.event_id ≡ true
    → replace_below (suc (length xs)) event s ≡ replaced event xs ys s
unfolding replace_below
replace_at event a xs ys s m same =
    let first : length xs ≡ length xs + 0 = omega arith in
    let at : get_elem? s.messages (length xs) ≡ some a =
      ap (λ l. get_elem? l (length xs)) m
      ∙ ap (get_elem? (xs ++ (a ∷ ys))) first
      ∙ get_elem?-append xs (a ∷ ys) 0 in
    rw (at, replace_below, same)
      (ap
        (λ l. record s {
          messages = l;
          messages_by_event_ids = index_event event.event_id event s.messages_by_event_ids;
        })
        (ap (λ l. set l (length xs) event) m ∙ set-append xs ys a event))

replace_above :
    (event a : Event) (xs ys : List Event) (s : RoomStore) (j : ℕ)
    → s.messages ≡ xs ++ (a ∷ ys)
    → equal_ids a.event_id event.event_id ≡ true
    → has_id event.event_id ys ≡ false
    → j ≤ length ys
    → replace_below (suc (length xs + j)) event s ≡ replaced event xs ys s
unfolding replace_below
replace_above event a xs ys s zero m same only b =
    let e : suc (length xs + 0) ≡ suc (length xs) = omega arith in
    ap (λ n. replace_below n event s) e ∙ replace_at event a xs ys s m same
replace_above event a xs ys s (suc j) m same only b =
    let (e, in_ys, other) = other_id event.event_id ys j only b in
    let at : get_elem? s.messages (length xs + suc j) ≡ some e =
      ap (λ l. get_elem? l (length xs + suc j)) m ∙ get_elem?-append xs (a ∷ ys) (suc j) ∙ in_ys in
    let down : length xs + suc j ≡ suc (length xs + j) = omega arith in
    rw (at, replace_below, other)
      (ap (λ n. replace_below n event s) down
        ∙ replace_above event a xs ys s j m same only (omega arith))

-- `replaceEvent:` puts the event in the place of the last message that has its id, leaves the
-- other messages where they are, and writes the event to the index.
pub replace_event-last :
    (event a : Event) (xs ys : List Event) (s : RoomStore)
    → s.messages ≡ xs ++ (a ∷ ys)
    → equal_ids a.event_id event.event_id ≡ true
    → has_id event.event_id ys ≡ false
    → replace_event event s ≡ replaced event xs ys s
unfolding replace_event
replace_event-last event a xs ys s m same only =
    let all : length xs + suc (length ys) ≡ suc (length xs + length ys) = omega arith in
    ap (λ n. replace_below n event s) (ap length m ∙ length-append xs (a ∷ ys) ∙ all)
    ∙ replace_above event a xs ys s (length ys) m same only (omega arith)
