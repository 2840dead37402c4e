-- ===== src/LruCache/Runs.antt =====
-- Whole histories of calls on one cache.
use sendingnetwork_ios.Common.{
  ℕ, suc, ◌+◌, ◌≤◌, ◌<◌, ◌^◌, String, ◌≡◌, refl, ap, ◌∙◌, Option, none, some, List, [], ◌∷◌, ◌++◌,
  length, eq_iff, eq_refl, arith,
}
use sendingnetwork_ios.LruCache.{Item, Cache, init, get, put, clear}
use sendingnetwork_ios.LruCache.Items.{find}
use sendingnetwork_ios.LruCache.Ends.{find-append}
use sendingnetwork_ios.LruCache.Invariant.{
  read, object_of, IsValid, init-IsValid, weaken-IsValid, get-Got,
}
use sendingnetwork_ios.LruCache.Stores.{Put, replaced, added, evicted, new_item, put-Stored}

pub data Call {ℓ} (V : Type ℓ) : Type ℓ where
  gets : Option String → Call V
  puts : Option String → Option V → Call V
  clears : Call V

module _ {ℓ} {V : Type ℓ} where
  read_new :
      (k : String) (object : Option V) (xs : List (Item V))
      → find k xs ≡ none
      → object_of (find k (xs ++ (new_item k object ∷ []))) ≡ object
  read_new k object xs e = rw (find-append k xs (new_item k object), e, eq_refl)

  kept_fresh :
      (k : String) (kept : List (Item V)) (victim : Item V)
      → find k (kept ++ (victim ∷ [])) ≡ none
      → find k kept ≡ none
  kept_fresh k kept victim e = ground (arith, find-append k kept victim)

  read-Put :
      (c c' : Cache V) (k : String) (object : Option V) → Put c k object c' → read k c' ≡ object
  read-Put c c' k object (replaced here reads) = reads k ∙ ground (arith, eq_iff k k)
  read-Put c c' k object (added e fresh room) =
      ap (λ xs. object_of (find k xs)) e ∙ read_new k object c.cached_objects fresh
  read-Put c c' k object (evicted kept victim whole least full fresh e) =
      ap (λ xs. object_of (find k xs)) e ∙ read_new k object kept fresh

  -- On a valid cache of a positive capacity whose counts stay below 2 ^ 63 - 1, `put` of a key and
  -- then `get` of it never raise, and `get` returns the object that was put.
  pub get-put :
      (n : ℕ) (c : Cache V) (k : String) (object : Option V)
      → 1 ≤ n
      → suc n < 2 ^ 63
      → 0 < c.capacity
      → IsValid n c
      → (c' c'' : Cache V) × (put c (some k) object ≡ some c')
        × (get c' (some k) ≡ some (c'', object))
  get-put n c k object h b cap v =
      let (c', done, s) = put-Stored n c k object h cap v in
      let (c'', got, g) = get-Got n c' k b s.valid in
      (c', c'', done, got ∙ ap (λ o. some (c'', o)) (read-Put c c' k object s.effect))

  after : Option (Cache V × Option V) → Option (Cache V)
  after none = none
  after (some (c, object)) = some c

  -- One call, with what it returns left out.
  pub step : Cache V → Call V → Option (Cache V)
  unfolding after
  step c (gets key) = after (get c key)
  step c (puts key object) = put c key object
  step c clears = some (clear c)

  pub run : Cache V → List (Call V) → Option (Cache V)
  run c [] = some c
  run c (call ∷ calls) = elim (step c call) [ none ↦ none | some c' ↦ run c' calls ]

  Steps : ℕ → Cache V → Call V → Type ℓ
  Steps n c call =
      (c' : Cache V) × (step c call ≡ some c') × IsValid (suc n) c' × (c'.capacity ≡ c.capacity)

  step-Steps :
      (n : ℕ) (c : Cache V) (call : Call V)
      → 1 ≤ n
      → suc n < 2 ^ 63
      → 0 < c.capacity
      → IsValid n c
      → Steps n c call
  unfolding Steps step get put clear
  step-Steps n c (gets none) h b cap v = (c, refl, weaken-IsValid n (suc n) c (omega arith) v, refl)
  step-Steps n c (gets (some k)) h b cap v =
      let (c', e, g) = get-Got n c k b v in (c', ap after e, g.valid, g.capacity)
  step-Steps n c (puts none object) h b cap v =
      (c, refl, weaken-IsValid n (suc n) c (omega arith) v, refl)
  step-Steps n c (puts (some k) object) h b cap v =
      let (c', e, s) = put-Stored n c k object h cap v in
      (c', e, weaken-IsValid n (suc n) c' (omega arith) s.valid, s.capacity)
  step-Steps n c clears h b cap v = (
    clear c,
    refl,
    record { in_step = refl; distinct = tt; falling = tt; positive = tt; bounded = omega arith },
    refl,
  )

  run_from :
      (n : ℕ) (c : Cache V) (calls : List (Call V))
      → 1 ≤ n
      → n + length calls < 2 ^ 63
      → 0 < c.capacity
      → IsValid n c
      → (c' : Cache V) × (run c calls ≡ some c')
        × IsValid (n + length calls) c'
        × (c'.capacity ≡ c.capacity)
  unfolding Steps run
  run_from n c [] h b cap v = (c, refl, weaken-IsValid n (n + 0) c (omega arith) v, refl)
  run_from n c (call ∷ calls) h b cap v =
      let (c', e, v', k) = step-Steps n c call h (omega arith) cap v in
      let (c'', e', v'', k') =
        run_from (suc n) c' calls (omega arith) (omega arith) (rw k cap) v' in
      (c'', rw (e, run) e', weaken-IsValid _ _ c'' (omega arith) v'', k' ∙ k)

  -- Whatever the calls on a new cache of a positive capacity, fewer than 2 ^ 63 - 1, none of them
  -- raises, and at the end the cache is valid and has that capacity: the two arrays agree, no key
  -- is there twice, the items stand in falling order of their counts, which are positive, and there
  -- are no more items than the capacity.
  pub run-IsValid :
      (capacity : ℕ) (calls : List (Call V))
      → 0 < capacity
      → suc (length calls) < 2 ^ 63
      → (c : Cache V) × (run (init capacity) calls ≡ some c)
        × IsValid (suc (length calls)) c
        × (c.capacity ≡ capacity)
  unfolding init
  run-IsValid capacity calls cap b =
      let (c, e, v, k) =
        run_from 1 (init capacity) calls (omega arith) (omega arith) cap
          (init-IsValid 1 capacity) in
      (c, e, weaken-IsValid _ _ c (omega arith) v, k)
