-- ===== src/LruCache.antt =====
-- SDNSDK/Utils/MXLRUCache.m. A method returns the new cache, and `none` where a call on an
-- NSMutableArray raises NSRangeException. Keys and objects may be nil.
pub mod Items
pub mod Positions
pub mod Ends
pub mod Invariant
pub mod Stores
pub mod Runs
mod Tests
use sendingnetwork_ios.Common.{
  ℕ, suc, ◌+◌, ◌-◌, ◌%◌, ◌^◌, String, Bool, Option, none, some, List, [], ◌∷◌, ◌++◌, map, length,
  get_elem?, set, leb, ltb, eqb, if◌then◌else◌, ◌==◌,
}

-- MXLRUCacheItem
pub record Item {ℓ} (V : Type ℓ) : Type ℓ where
  pub ref_count : ℕ  -- NSUInteger
  pub object : Option V
  pub key : String

pub record Cache {ℓ} (V : Type ℓ) : Type ℓ where
  pub cached_objects : List (Item V)
  pub cached_keys : List String
  pub capacity : ℕ

pub data ComparisonResult : Type 0 where
  ascending same descending : ComparisonResult

-- NSUInteger arithmetic wraps.
abbrev pub u64 : ℕ → ℕ
u64 n = n % 2 ^ 64

abbrev pub comes_later : ComparisonResult → Bool
comes_later ComparisonResult.descending = Bool.true
comes_later _ = Bool.false

-- `indexOfObject:`, with `none` for NSNotFound.
unfoldable pub index_of : String → List String → Option ℕ
index_of key [] = none
index_of key (k ∷ ks) =
    let rest : Option ℕ = elim (index_of key ks) [ none ↦ none | some pos ↦ some (suc pos) ] in
    if k == key then some 0 else rest

-- `removeLastObject` raises on an empty array.
unfoldable pub remove_last {ℓ} : {A : Type ℓ} → List A → Option (List A)
remove_last [] = none
remove_last (x ∷ []) = some []
remove_last (x ∷ y ∷ rest) = elim (remove_last (y ∷ rest)) [
  | none ↦ none
  | some kept ↦ some (x ∷ kept)
]

module _ {ℓ} {V : Type ℓ} where
  unfoldable pub init : ℕ → Cache V
  init capacity = record { cached_objects = []; cached_keys = []; capacity = capacity }

  -- The comparator: `item2.refCount - item1.refCount`, read as a signed number.
  unfoldable pub compare_items : Item V → Item V → ComparisonResult
  compare_items item1 item2 =
      let difference = u64 (item2.ref_count + 2 ^ 64 - item1.ref_count) in
      if eqb difference 0
      then ComparisonResult.same
      else if ltb difference (2 ^ 63)
      then ComparisonResult.descending
      else ComparisonResult.ascending

  -- `sortedArrayUsingComparator:`, with equal items in the order that they had.
  unfoldable pub insert_sorted : Item V → List (Item V) → List (Item V)
  unfolding compare_items
  insert_sorted item [] = item ∷ []
  insert_sorted item (x ∷ rest) =
      let later = x ∷ insert_sorted item rest in
      if comes_later (compare_items item x) then later else item ∷ x ∷ rest

  unfoldable pub sorted_array : List (Item V) → List (Item V)
  unfolding insert_sorted
  sorted_array [] = []
  sorted_array (x ∷ rest) = insert_sorted x (sorted_array rest)

  unfoldable pub sort_cached_items : Cache V → Cache V
  unfolding sorted_array
  sort_cached_items c =
      let sorted = sorted_array c.cached_objects in
      record c { cached_objects = sorted; cached_keys = map (λ i. i.key) sorted }

  hit : Cache V → ℕ → Option (Cache V × Option V)
  unfolding sort_cached_items
  hit c pos = elim (get_elem? c.cached_objects pos) [
    | none ↦ none
    | some item ↦
        let counted = record item { ref_count = u64 (item.ref_count + 1) } in
        some (
          sort_cached_items (record c { cached_objects = set c.cached_objects pos counted }),
          item.object,
        )
  ]

  unfoldable pub get : Cache V → Option String → Option (Cache V × Option V)
  unfolding hit index_of
  get c none = some (c, none)
  get c (some key) = elim (index_of key c.cached_keys) [
    | none ↦ some (c, none)
    | some pos ↦ hit c pos
  ]

  -- Room for one more item: the last one goes if the cache is full.
  unfoldable pub make_room : Cache V → Option (Cache V)
  unfolding remove_last
  make_room c =
      let evicted : Option (Cache V) = elim (remove_last c.cached_objects) [
        | none ↦ none
        | some objects ↦ elim (remove_last c.cached_keys) [
          | none ↦ none
          | some keys ↦ some (record c { cached_objects = objects; cached_keys = keys })
        ]
      ] in
      if leb c.capacity (length c.cached_keys) then evicted else some c

  append_item : String → Option V → Option (Cache V) → Option (Cache V)
  append_item key object none = none
  append_item key object (some c) = some (record c {
    cached_objects =
        c.cached_objects ++ (record { ref_count = 1; object = object; key = key } ∷ []);
    cached_keys = c.cached_keys ++ (key ∷ []);
  })

  replace_object : Cache V → ℕ → Option V → Option (Cache V)
  replace_object c pos object = elim (get_elem? c.cached_objects pos) [
    | none ↦ none
    | some item ↦
        some
          (record c { cached_objects = set c.cached_objects pos (record item { object = object }) })
  ]

  unfoldable pub put : Cache V → Option String → Option V → Option (Cache V)
  unfolding index_of append_item make_room replace_object
  put c none object = some c
  put c (some key) object = elim (index_of key c.cached_keys) [
    | none ↦ append_item key object (make_room c)
    | some pos ↦ replace_object c pos object
  ]

  unfoldable pub clear : Cache V → Cache V
  clear c = record c { cached_objects = []; cached_keys = [] }
