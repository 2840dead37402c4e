-- ===== src/Enumerator/Batches.antt =====
-- What the batches of MXEventsEnumeratorOnArray.m hold, with no thread asked for.
use sendingnetwork_ios.Common.{
  ℕ, zero, suc, ◌≤◌, ◌<◌, String, true, false, ◌≡◌, refl, sym, ap, subst, ◌∙◌, Option, none, some,
  List, [], ◌∷◌, ◌++◌, append_assoc, append-nil, is_some, if◌then◌else◌, ltb, leb, length,
  get_elem?, take, All, arith, Bool-cases, Option-cases, inl, inr,
}
use sendingnetwork_ios.RoomStore.{Event, is_in_thread}
use sendingnetwork_ios.Enumerator.{
  DataSource, EventsEnumerator, init, event_at, add_event, events_for_event_ids, collect,
  collect_batch, next_events_batch,
}

-- The data source has an event for every id.
abbrev pub Resolves : DataSource → List String → Type 0
Resolves source ids = All (λ id. is_some (source id) ≡ true) ids

take-suc :
    (i : ℕ) (ids : List String) (id : String)
    → get_elem? ids i ≡ some id
    → take (suc i) ids ≡ take i ids ++ (id ∷ [])
take-suc i [] id h = absurd (cc)
take-suc zero (x ∷ xs) id h = cc
take-suc (suc i) (x ∷ xs) id h = ap (◌∷◌ x) (take-suc i xs id h)

events_for-append :
    (source : DataSource) (xs ys : List String)
    → events_for_event_ids source (xs ++ ys)
      ≡ events_for_event_ids source xs ++ events_for_event_ids source ys
unfolding events_for_event_ids
events_for-append source [] ys = refl
events_for-append source (x ∷ xs) ys =
    ap (add_event (source x)) (events_for-append source xs ys)
    ∙ add-append (source x) (events_for_event_ids source xs) (events_for_event_ids source ys)
  where
    add-append :
        (o : Option Event) (fs gs : List Event) → add_event o (fs ++ gs) ≡ add_event o fs ++ gs
    add-append none fs gs = refl
    add-append (some e) fs gs = refl

-- An id before the end has an event.
resolved :
    (source : DataSource) (ids : List String) (i : ℕ)
    → Resolves source ids
    → suc i ≤ length ids
    → (id : String) × (e : Event) × (get_elem? ids i ≡ some id) × (source id ≡ some e)
resolved source [] i r h = absurd (omega arith)
resolved source (x ∷ xs) zero r h = elim (Option-cases (source x)) [
  | inl nothing ↦ absurd (ground (arith, r.0, nothing))
  | inr (e, at) ↦ (x, e, refl, at)
]
resolved source (x ∷ xs) (suc i) r h = resolved source xs i r.1 (omega arith)

-- The events up to a position, before and after a step down.
take_event :
    (source : DataSource) (ids : List String) (i : ℕ) (id : String) (e : Event)
    (result : List Event)
    → get_elem? ids i ≡ some id
    → source id ≡ some e
    → events_for_event_ids source (take (suc i) ids) ++ result
      ≡ events_for_event_ids source (take i ids) ++ (e ∷ result)
unfolding events_for_event_ids
take_event source ids i id e result at known =
    let last : events_for_event_ids source (id ∷ []) ≡ e ∷ [] = ap (λ o. add_event o []) known in
    ap (λ l. events_for_event_ids source l ++ result) (take-suc i ids id at)
    ∙ ap (λ l. l ++ result) (events_for-append source (take i ids) (id ∷ []))
    ∙ ap (λ l. (events_for_event_ids source (take i ids) ++ l) ++ result) last
    ∙ append_assoc (events_for_event_ids source (take i ids)) (e ∷ []) result

-- What a loop took and what it left make up what there was.
abbrev Splits : DataSource → List String → ℕ → List Event → List Event × ℕ → Type 0
Splits source ids position result (events, left) =
    (left ≤ position)
    × (events_for_event_ids source (take position ids) ++ result
        ≡ events_for_event_ids source (take left ids) ++ events)

collect-Splits :
    (source : DataSource) (ids : List String) (events_count count position : ℕ)
    (result : List Event)
    → Resolves source ids
    → position ≤ length ids
    → Splits source ids position result (collect source ids events_count count position result)
unfolding collect event_at
collect-Splits source ids events_count count zero result r h = (omega arith, refl)
collect-Splits source ids events_count count (suc i) result r h =
    let (id, e, at, known) = resolved source ids i r h in
    let (less, rest) =
      collect-Splits source ids events_count (if is_in_thread e then count else suc count) i
        (e ∷ result) r (omega arith) in
    elim (Bool-cases (ltb count events_count)) [
      | inl more ↦
          rw (collect, event_at, more, at, known)
            (omega (arith, less), take_event source ids i id e result at known ∙ rest)
      | inr full ↦ rw (collect, full) (omega arith, refl)
    ]

-- A batch of one event or more takes one event at least.
collect-less :
    (source : DataSource) (ids : List String) (events_count i : ℕ)
    → Resolves source ids
    → suc i ≤ length ids
    → 0 < events_count
    → (collect source ids events_count 0 (suc i) []).1 ≤ i
unfolding collect event_at
collect-less source ids events_count i r h some_count =
    let (id, e, at, known) = resolved source ids i r h in
    let (less, rest) =
      collect-Splits source ids events_count (if is_in_thread e then 0 else 1) i (e ∷ []) r
        (omega arith) in
    let more : ltb 0 events_count ≡ true = ground arith in
    rw (collect, event_at, more, at, known) less

nothing_left :
    (source : DataSource) (events : List Event) → events ≡ events_for_event_ids source [] ++ events
unfolding events_for_event_ids
nothing_left source events = refl

-- A batch of the events that are left, and what it leaves.
pub record Batch (source : DataSource) (e e' : EventsEnumerator) (events : List Event)
    : Type 0 where
  pub same_ids : e'.event_ids ≡ e.event_ids
  pub progress : e'.pagination_position < e.pagination_position
  pub split :
      events_for_event_ids source (take e.pagination_position e.event_ids)
      ≡ events_for_event_ids source (take e'.pagination_position e.event_ids) ++ events

-- While events are left, each of them known to the data source, a batch of one event or more with
-- no thread asked for is never nil and takes at least one event; the events that were left are
-- those that are still left followed by the batch, in their order.
pub next_events_batch-Batch :
    (source : DataSource) (e : EventsEnumerator) (events_count i : ℕ)
    → Resolves source e.event_ids
    → e.pagination_position ≡ suc i
    → e.pagination_position ≤ length e.event_ids
    → 0 < events_count
    → (events : List Event) × (e' : EventsEnumerator) × (next_events_batch source events_count none
          e
        ≡ (some events, e'))
      × Batch source e e' events
unfolding next_events_batch collect_batch
next_events_batch-Batch source e events_count i r position h some_count =
    let p = e.pagination_position in
    let ids = e.event_ids in
    let left : leb p 0 ≡ false = ground (arith, position) in
    elim (Bool-cases (leb p events_count)) [
      | inl few ↦ (
        events_for_event_ids source (take p ids),
        record e { pagination_position = 0 },
        rw (next_events_batch, left, few) refl,
        record {
          same_ids = refl;
          progress = omega (arith, position);
          split = nothing_left source (events_for_event_ids source (take p ids));
        },
      )
      | inr many ↦
          let taken = collect source ids events_count 0 p [] in
          let (less, whole) = collect-Splits source ids events_count 0 p [] r h in
          (
            taken.0,
            record e { pagination_position = taken.1 },
            rw (next_events_batch, left, many, collect_batch) refl,
            record {
              same_ids = refl;
              progress =
                  subst (λ q. (collect source ids events_count 0 q []).1 < q) (sym position)
                    (omega (
                      arith,
                      collect-less source ids events_count i r (omega (arith, position)) some_count,
                    ));
              split = sym (append-nil (events_for_event_ids source (take p ids))) ∙ whole;
            },
          )
    ]

-- A client that asks for batches until there is none, and puts each before the ones it has.
unfoldable pub read_all : ℕ → DataSource → ℕ → EventsEnumerator → List Event
read_all zero source events_count e = []
read_all (suc fuel) source events_count e =
    let (batch, e') = next_events_batch source events_count none e in
    elim batch [ none ↦ [] | some events ↦ read_all fuel source events_count e' ++ events ]

at_end :
    (source : DataSource) (e : EventsEnumerator) (events_count : ℕ)
    → e.pagination_position ≡ 0
    → next_events_batch source events_count none e ≡ (none, e)
unfolding next_events_batch
at_end source e events_count position =
    let left : leb e.pagination_position 0 ≡ true = ground (arith, position) in
    rw (next_events_batch, left) refl

read_from :
    (fuel : ℕ) (source : DataSource) (events_count position : ℕ) (e : EventsEnumerator)
    → e.pagination_position ≡ position
    → Resolves source e.event_ids
    → position ≤ fuel
    → e.pagination_position ≤ length e.event_ids
    → 0 < events_count
    → read_all fuel source events_count e
      ≡ events_for_event_ids source (take e.pagination_position e.event_ids)
unfolding read_all events_for_event_ids
read_from zero source events_count position e p r f h some_count =
    let none_left : e.pagination_position ≡ 0 = omega (arith, p, f) in
    ap (λ n. events_for_event_ids source (take n e.event_ids)) (sym none_left)
read_from (suc fuel) source events_count zero e p r f h some_count =
    rw (read_all, at_end source e events_count p)
      (ap (λ n. events_for_event_ids source (take n e.event_ids)) (sym p))
read_from (suc fuel) source events_count (suc i) e p r f h some_count =
    let (events, e', batch, b) = next_events_batch-Batch source e events_count i r p h some_count in
    let before : read_all fuel source events_count e'
        ≡ events_for_event_ids source (take e'.pagination_position e'.event_ids) =
      read_from fuel source events_count e'.pagination_position e' refl
        (subst (Resolves source) (sym b.same_ids) r) (let q = b.progress in omega (arith, p, f, q))
        (let q = b.progress in omega (arith, h, q, ap length b.same_ids)) some_count in
    ap (λ r. elim r.0 [ none ↦ [] | some events ↦ read_all fuel source events_count r.1 ++ events ])
      batch
    ∙ ap (λ l. l ++ events)
        (before
          ∙ ap (λ ids. events_for_event_ids source (take e'.pagination_position ids)) b.same_ids)
    ∙ sym b.split

take-length : (ids : List String) → take (length ids) ids ≡ ids
take-length [] = refl
take-length (x ∷ xs) = ap (◌∷◌ x) (take-length xs)

-- A client that asks a new enumerator for batches of one event or more, with no thread, until there
-- is none, and as often as there are ids and once more at most, gets the events of all ids in their
-- order, where the data source has an event for each id.
pub read_all-events :
    (source : DataSource) (ids : List String) (events_count : ℕ)
    → Resolves source ids
    → 0 < events_count
    → read_all (suc (length ids)) source events_count (init ids) ≡ events_for_event_ids source ids
read_all-events source ids events_count r some_count =
    read_from (suc (length ids)) source events_count (length ids) (init ids) refl r (omega arith)
      (omega arith) some_count
    ∙ ap (events_for_event_ids source) (take-length ids)
