-- ===== src/Enumerator/InThread.antt =====
-- The batches of MXEventsEnumeratorOnArray.m in a thread.
use sendingnetwork_ios.Common.{
  ℕ, zero, suc, ◌≤◌, ◌<◌, String, true, false, ◌≡◌, refl, some, List, [], ◌∷◌, if◌then◌else◌, ltb,
  leb, length, All, arith, Bool-cases, Option-cases, inl, inr,
}
use sendingnetwork_ios.RoomStore.{Event}
use sendingnetwork_ios.Enumerator.{
  DataSource, EventsEnumerator, event_at, in_thread_or_root, collect_in_thread, collect_batch,
  next_events_batch,
}

-- No more events than asked for, each in the thread or its root.
pub record InThread (thread : String) (events_count : ℕ) (events : List Event) : Type 0 where
  pub of_thread : All (λ e. in_thread_or_root thread e ≡ true) events
  pub size : length events ≤ events_count

add-InThread :
    (thread : String) (events_count : ℕ) (e : Event) (result : List Event)
    → InThread thread events_count result
    → ltb (length result) events_count ≡ true
    → InThread thread events_count (if in_thread_or_root thread e then e ∷ result else result)
add-InThread thread events_count e result v more = elim (Bool-cases (in_thread_or_root thread e)) [
  | inl kept ↦ rw kept (record { of_thread = (kept, v.of_thread); size = ground (arith, more) })
  | inr skipped ↦ rw skipped v
]

collect_in_thread-InThread :
    (source : DataSource) (ids : List String) (thread : String) (events_count position : ℕ)
    (result : List Event)
    → InThread thread events_count result
    → InThread thread events_count
        (collect_in_thread source ids thread events_count position result).0
unfolding collect_in_thread
collect_in_thread-InThread source ids thread events_count zero result v = v
collect_in_thread-InThread source ids thread events_count (suc i) result v =
    elim (Bool-cases (ltb (length result) events_count)) [
      | inl more ↦ elim (Option-cases (event_at source ids i)) [
        | inl nothing ↦ rw (collect_in_thread, more, nothing) v
        | inr (e, at) ↦
            rw (collect_in_thread, more, at)
              (collect_in_thread-InThread source ids thread events_count i
                (if in_thread_or_root thread e then e ∷ result else result)
                (add-InThread thread events_count e result v more))
      ]
      | inr full ↦ rw (collect_in_thread, full) v
    ]

-- A batch in a thread, while more events are left than asked for, has no more events than asked
-- for, and each of them is in the thread or is its root.
pub next_events_batch-InThread :
    (source : DataSource) (e : EventsEnumerator) (thread : String) (events_count : ℕ)
    → events_count < e.pagination_position
    → (events : List Event) × (e' : EventsEnumerator) × (next_events_batch source events_count
          (some thread)
          e
        ≡ (some events, e'))
      × InThread thread events_count events
unfolding next_events_batch collect_batch
next_events_batch-InThread source e thread events_count many =
    let p = e.pagination_position in
    let taken = collect_in_thread source e.event_ids thread events_count p [] in
    let left : leb p 0 ≡ false = ground (arith, many) in
    let more : leb p events_count ≡ false = ground (arith, many) in
    (
      taken.0,
      record e { pagination_position = taken.1 },
      rw (next_events_batch, left, more, collect_batch) refl,
      collect_in_thread-InThread source e.event_ids thread events_count p []
          (record { of_thread = tt; size = omega arith }),
    )
