-- ===== src/LruCache/Invariant.antt =====
-- What holds of a cache between two calls, and what each call does to it.
use sendingnetwork_ios.Common.{
  ℕ, suc, ◌+◌, ◌≤◌, ◌<◌, ◌^◌, String, ◌≡◌, refl, Option, none, some, length, get_elem?, set, eq_iff,
  arith,
}
use sendingnetwork_ios.LruCache.{Item, Cache, u64, init, index_of, sort_cached_items, hit, get}
use sendingnetwork_ios.LruCache.Items.{
  item_keys, find, IsDistinct, IsFalling, AtLeast, find-sorted_array, sorted_array-IsDistinct,
  sorted_array-IsFalling, sorted_array-AtLeast, length-sorted_array,
}
use sendingnetwork_ios.LruCache.Positions.{
  Locates, index_of-Locates, find-set, set-IsDistinct, length-set, set-AtMost, set-AtLeast,
  get_elem?-AtMost, IsFalling-AtMost, IsFalling-weaken,
}

module _ {ℓ} {V : Type ℓ} where
  abbrev pub object_of : Option (Item V) → Option V
  object_of none = none
  object_of (some item) = item.object

  -- What the cache holds for a key, whatever the order of its items.
  abbrev pub read : String → Cache V → Option V
  read k c = object_of (find k c.cached_objects)

  -- The arrays agree, no key is there twice, the counts fall from `n` and are positive, and there
  -- are no more items than the capacity.
  pub record IsValid (n : ℕ) (c : Cache V) : Type ℓ where
    pub in_step : c.cached_keys ≡ item_keys c.cached_objects
    pub distinct : IsDistinct c.cached_objects
    pub falling : IsFalling n c.cached_objects
    pub positive : AtLeast 1 c.cached_objects
    pub bounded : length c.cached_objects ≤ c.capacity

  pub init-IsValid : (n capacity : ℕ) → IsValid n (init capacity)
  unfolding init
  init-IsValid n capacity = record {
    in_step = refl;
    distinct = tt;
    falling = tt;
    positive = tt;
    bounded = omega arith;
  }

  pub weaken-IsValid : (m n : ℕ) (c : Cache V) → m ≤ n → IsValid m c → IsValid n c
  weaken-IsValid m n c h v = record {
    in_step = v.in_step;
    distinct = v.distinct;
    falling = IsFalling-weaken m n c.cached_objects h v.falling;
    positive = v.positive;
    bounded = v.bounded;
  }

  -- What `get` leaves behind.
  pub record Got (n : ℕ) (c c' : Cache V) : Type ℓ where
    pub valid : IsValid (suc n) c'
    pub reads : (j : String) → read j c' ≡ read j c
    pub capacity : c'.capacity ≡ c.capacity

  hit_sorted :
      (n : ℕ) (c : Cache V) (pos : ℕ) (x y : Item V)
      → suc n < 2 ^ 63
      → IsValid n c
      → get_elem? c.cached_objects pos ≡ some x
      → find x.key c.cached_objects ≡ some x
      → y ≡ record x { ref_count = u64 (x.ref_count + 1) }
      → Got n c (sort_cached_items (record c { cached_objects = set c.cached_objects pos y }))
  unfolding sort_cached_items
  hit_sorted n c pos x y b v g f e =
      let xs = c.cached_objects in
      let small = get_elem?-AtMost n xs pos x g (IsFalling-AtMost n n xs (omega arith) v.falling) in
      let count : y.ref_count ≡ suc x.ref_count = ground arith in
      let same : x.key ≡ y.key = ground arith in
      let d = set-IsDistinct y xs pos x v.distinct g same in
      record {
        valid = record {
          in_step = refl;
          distinct = sorted_array-IsDistinct (set xs pos y) d;
          falling = sorted_array-IsFalling (suc n) (set xs pos y) b (
              set-AtMost y (suc n) xs pos (omega arith)
                (IsFalling-AtMost n (suc n) xs (omega arith) v.falling));
          positive =
              sorted_array-AtLeast 1 (set xs pos y)
                (set-AtLeast y 1 xs pos (omega arith) v.positive);
          bounded =
              omega (arith, length-sorted_array (set xs pos y), length-set y xs pos, v.bounded);
        };
        reads = λ j.
            rw (find-sorted_array j (set xs pos y) d, find-set y j xs pos x v.distinct g same)
              (ground (arith, eq_iff y.key j));
        capacity = refl;
      }

  get_located :
      (n : ℕ) (c : Cache V) (k : String) (o : Option ℕ)
      → suc n < 2 ^ 63
      → IsValid n c
      → index_of k c.cached_keys ≡ o
      → Locates k c.cached_objects o
      → (c' : Cache V) × (get c (some k) ≡ some (c', read k c)) × Got n c c'
  unfolding get hit
  get_located n c k none b v e l = (
    c,
    rw (e, get, l),
    record {
      valid = weaken-IsValid n (suc n) c (omega arith) v;
      reads = λ j. refl;
      capacity = refl;
    },
  )
  get_located n c k (some pos) b v e (x, g, same, f) =
      let y = record x { ref_count = u64 (x.ref_count + 1) } in
      (
        sort_cached_items (record c { cached_objects = set c.cached_objects pos y }),
        rw (e, get, g, hit, f),
        hit_sorted n c pos x y b v g (cc) refl,
      )

  -- On a valid cache whose counts stay below 2 ^ 63 - 1, `get` of a key never raises and returns
  -- the object of the key; the cache stays valid with counts at most one higher, every key keeps
  -- its object, and the capacity stays.
  pub get-Got :
      (n : ℕ) (c : Cache V) (k : String)
      → suc n < 2 ^ 63
      → IsValid n c
      → (c' : Cache V) × (get c (some k) ≡ some (c', read k c)) × Got n c c'
  get-Got n c k b v =
      get_located n c k (index_of k c.cached_keys) b v refl
        (rw v.in_step (index_of-Locates k c.cached_objects))
