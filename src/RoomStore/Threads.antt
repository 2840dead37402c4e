-- ===== src/RoomStore/Threads.antt =====
-- What `eventsAfter:` and `eventsInThread:` of MXMemoryRoomStore.m select.
use sendingnetwork_ios.Common.{
  ℕ, zero, suc, ◌≤◌, String, Bool, false, ◌≡◌, refl, sym, ap, ◌∙◌, Option, some, List, [], ◌∷◌,
  ◌++◌, ◌||◌, equal_ids, if◌then◌else◌, length, get_elem?, take, arith, Bool-cases, inl, inr,
  append-nil, ◌==◌,
}
use sendingnetwork_ios.RoomStore.{
  Event, RoomStore, events_down_to, events_after, events_in_thread, allowed_after,
  allowed_in_thread, timeline_thread,
}

-- The events that pass a test.
unfoldable pub filter : (Event → Bool) → List Event → List Event
filter allowed [] = []
filter allowed (x ∷ xs) = let rest = filter allowed xs in if allowed x then x ∷ rest else rest

unfoldable pub has_id : Option String → List Event → Bool
has_id k [] = false
has_id k (x ∷ xs) = equal_ids x.event_id k || has_id k xs

-- What comes after the last event with an id; everything where no event has it.
unfoldable pub after_last : Option String → List Event → List Event
unfolding has_id
after_last k [] = []
after_last k (x ∷ xs) =
    let rest = after_last k xs in
    if has_id k xs then rest else if equal_ids x.event_id k then xs else x ∷ xs

has_id-snoc :
    (k : Option String) (xs : List Event) (e : Event)
    → has_id k (xs ++ (e ∷ [])) ≡ (has_id k xs || equal_ids e.event_id k)
unfolding has_id
has_id-snoc k [] e = ground arith
has_id-snoc k (x ∷ xs) e = ground (arith, has_id-snoc k xs e)

pub after_last-snoc :
    (k : Option String) (xs : List Event) (e : Event)
    → after_last k (xs ++ (e ∷ []))
      ≡ (if equal_ids e.event_id k then [] else after_last k xs ++ (e ∷ []))
unfolding after_last
after_last-snoc k [] e = ground arith
after_last-snoc k (x ∷ xs) e = ground (arith, has_id-snoc k xs e, after_last-snoc k xs e)

filter-snoc :
    (allowed : Event → Bool) (xs : List Event) (e : Event) (ys : List Event)
    → filter allowed (xs ++ (e ∷ [])) ++ ys
      ≡ filter allowed xs ++ (if allowed e then e ∷ ys else ys)
unfolding filter
filter-snoc allowed [] e ys = ground arith
filter-snoc allowed (x ∷ xs) e ys = ground (arith, filter-snoc allowed xs e ys)

take-suc :
    (i : ℕ) (xs : List Event) (e : Event)
    → get_elem? xs i ≡ some e
    → take (suc i) xs ≡ take i xs ++ (e ∷ [])
take-suc i [] e h = absurd (cc)
take-suc zero (x ∷ xs) e h = cc
take-suc (suc i) (x ∷ xs) e h = ap (◌∷◌ x) (take-suc i xs e h)

get_elem?-some :
    (i : ℕ) (xs : List Event) → suc i ≤ length xs → (e : Event) × (get_elem? xs i ≡ some e)
get_elem?-some i [] h = absurd (omega arith)
get_elem?-some zero (x ∷ xs) h = (x, refl)
get_elem?-some (suc i) (x ∷ xs) h = get_elem?-some i xs (omega arith)

take-length : (xs : List Event) → take (length xs) xs ≡ xs
take-length [] = refl
take-length (x ∷ xs) = ap (◌∷◌ x) (take-length xs)

events_down_to-filter :
    (allowed : Event → Bool) (k : Option String) (messages : List Event) (i : ℕ) (list : List Event)
    → i ≤ length messages
    → events_down_to allowed k messages i list
      ≡ filter allowed (after_last k (take i messages)) ++ list
unfolding events_down_to after_last filter
events_down_to-filter allowed k messages zero list h = refl
events_down_to-filter allowed k messages (suc i) list h =
    let (e, at) = get_elem?-some i messages h in
    elim (Bool-cases (equal_ids e.event_id k)) [
      | inl found ↦
          rw
            (
              at,
              events_down_to,
              take-suc i messages e at,
              after_last-snoc k (take i messages) e,
              found,
              filter,
            )
            refl
      | inr other ↦
          rw
            (
              at,
              events_down_to,
              take-suc i messages e at,
              after_last-snoc k (take i messages) e,
              other,
            )
            (events_down_to-filter allowed k messages i (if allowed e then e ∷ list else list)
                (omega arith)
              ∙ sym (filter-snoc allowed (after_last k (take i messages)) e list))
    ]

filter_all :
    (allowed : Event → Bool) (k : Option String) (messages : List Event)
    → events_down_to allowed k messages (length messages) []
      ≡ filter allowed (after_last k messages)
filter_all allowed k messages =
    events_down_to-filter allowed k messages (length messages) [] (omega arith)
    ∙ append-nil (filter allowed (after_last k (take (length messages) messages)))
    ∙ ap (λ l. filter allowed (after_last k l)) (take-length messages)

pub events_after-filter :
    (event_id : String) (thread except : Option String) (types : Option (List String))
    (s : RoomStore)
    → events_after (some event_id) thread except types s
      ≡ filter
          (allowed_after (timeline_thread thread) except types)
          (after_last (some event_id) s.messages)
unfolding events_after
events_after-filter event_id thread except types s =
    filter_all (allowed_after (timeline_thread thread) except types) (some event_id) s.messages

-- `eventsInThread:` of a thread other than the main one returns, in their order, the messages of
-- the thread after its root that the filter of sender and types keeps.
pub events_in_thread-filter :
    (thread : String) (except : Option String) (types : Option (List String)) (s : RoomStore)
    → (thread == "main") ≡ false
    → events_in_thread (some thread) except types s
      ≡ filter (allowed_in_thread thread except types) (after_last (some thread) s.messages)
unfolding events_in_thread
events_in_thread-filter thread except types s h =
    rw (h, events_in_thread)
      (filter_all (allowed_in_thread thread except types) (some thread) s.messages)
