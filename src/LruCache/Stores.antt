-- ===== src/LruCache/Stores.antt =====
-- What `put` does to a valid cache.
use sendingnetwork_ios.Common.{
  ℕ, suc, ◌≤◌, ◌<◌, String, ◌≡◌, ◌≢◌, refl, ap, sym, true, false, Option, none, some, List, [], ◌∷◌,
  ◌++◌, length, length-append, get_elem?, set, leb, if◌then◌else◌, ◌==◌, eq_iff, arith, leb→le,
  All-append, ◌∙◌, Bool-cases, inl, inr,
}
use sendingnetwork_ios.LruCache.{
  Item, Cache, index_of, remove_last, make_room, append_item, replace_object, put,
}
use sendingnetwork_ios.LruCache.Items.{item_keys, find, IsDistinct, IsFalling, AtLeast}
use sendingnetwork_ios.LruCache.Positions.{
  Locates, index_of-Locates, find-set, set-IsDistinct, item_keys-set, length-set, set-AtLeast,
  set-IsFalling, get_elem?-AtLeast,
}
use sendingnetwork_ios.LruCache.Invariant.{read, IsValid}
use sendingnetwork_ios.LruCache.Ends.{
  remove_last-snoc, remove_last-append, item_keys-append, find-append, append-IsDistinct,
  front-IsDistinct, append-IsFalling, front-IsFalling, front-AtLeast, length-item_keys,
}

module _ {ℓ} {V : Type ℓ} where
  abbrev pub new_item : String → Option V → Item V
  new_item k object = record { ref_count = 1; object = object; key = k }

  -- What `put` leaves behind: the key has the object, and at most one other key is gone, the one
  -- of an item whose count is the least.
  pub data Put (c : Cache V) (k : String) (object : Option V) (c' : Cache V) : Type ℓ where
    replaced :
        find k c.cached_objects ≢ none
        → ((j : String) → read j c' ≡ (if k == j then object else read j c))
        → Put c k object c'
    added :
        c'.cached_objects ≡ c.cached_objects ++ (new_item k object ∷ [])
        → find k c.cached_objects ≡ none
        → suc (length c.cached_objects) ≤ c.capacity
        → Put c k object c'
    evicted :
        (kept : List (Item V)) (victim : Item V)
        → c.cached_objects ≡ kept ++ (victim ∷ [])
        → AtLeast victim.ref_count kept
        → length c.cached_objects ≡ c.capacity
        → find k kept ≡ none
        → c'.cached_objects ≡ kept ++ (new_item k object ∷ [])
        → Put c k object c'

  -- A new item at the end of a valid array that has room for it.
  append-IsValid :
      (n : ℕ) (c : Cache V) (k : String) (object : Option V) (xs : List (Item V))
      → 1 ≤ n
      → IsDistinct xs
      → IsFalling n xs
      → AtLeast 1 xs
      → suc (length xs) ≤ c.capacity
      → find k xs ≡ none
      → IsValid n (record c {
        cached_objects = xs ++ (new_item k object ∷ []);
        cached_keys = item_keys xs ++ (k ∷ []);
      })
  append-IsValid n c k object xs h d f p b fresh = record {
    in_step = sym (item_keys-append xs (new_item k object));
    distinct = append-IsDistinct xs (new_item k object) d fresh;
    falling = append-IsFalling n xs (new_item k object) h p f;
    positive = All-append (λ i. 1 ≤ i.ref_count) xs (new_item k object ∷ []) p (omega arith, tt);
    bounded = omega (arith, length-append xs (new_item k object ∷ []));
  }

  -- What a valid cache that is full gives up to make room.
  record Trimmed (n : ℕ) (c : Cache V) (kept : List (Item V)) (victim : Item V) : Type ℓ where
    whole : c.cached_objects ≡ kept ++ (victim ∷ [])
    trims : make_room c ≡ some (record c { cached_objects = kept; cached_keys = item_keys kept })
    distinct : IsDistinct kept
    falling : IsFalling n kept
    positive : AtLeast 1 kept
    least : AtLeast victim.ref_count kept

  trim_keys :
      (c : Cache V) (kept : List (Item V)) (victim : Item V)
      → leb c.capacity (length c.cached_keys) ≡ true
      → c.cached_objects ≡ kept ++ (victim ∷ [])
      → c.cached_keys ≡ item_keys c.cached_objects
      → make_room c ≡ some (record c { cached_objects = kept; cached_keys = item_keys kept })
  unfolding make_room
  trim_keys c kept victim full whole step =
      let cut : remove_last c.cached_objects ≡ some kept =
        rw whole (remove_last-append kept victim) in
      let names : c.cached_keys ≡ item_keys kept ++ (victim.key ∷ []) =
        step ∙ ap item_keys whole ∙ item_keys-append kept victim in
      let cut_keys : remove_last c.cached_keys ≡ some (item_keys kept) =
        rw names (remove_last-append (item_keys kept) victim.key) in
      ground (arith, cut, cut_keys)

  trim :
      (n : ℕ) (c : Cache V) (xs : List (Item V))
      → c.cached_objects ≡ xs
      → 0 < c.capacity
      → leb c.capacity (length c.cached_keys) ≡ true
      → IsValid n c
      → (kept : List (Item V)) × (victim : Item V) × Trimmed n c kept victim
  unfolding make_room
  trim n c [] e cap full v =
      absurd (ground (arith, ap item_keys e, ap length v.in_step, ap length (ap item_keys e)))
  trim n c (x ∷ xs) e cap full v =
      let (kept, victim, split, last) = remove_last-snoc x xs in
      let whole : c.cached_objects ≡ kept ++ (victim ∷ []) = e ∙ split in
      let d = rw whole at v.distinct in
      let f = rw whole at v.falling in
      let p = rw whole at v.positive in
      (
        kept,
        victim,
        record {
          whole = whole;
          trims = trim_keys c kept victim full whole v.in_step;
          distinct = (front-IsDistinct kept victim d).0;
          falling = (front-IsFalling n kept victim f).0;
          positive = front-AtLeast 1 kept victim p;
          least = (front-IsFalling n kept victim f).1;
        },
      )

  pub record Stored (n : ℕ) (c : Cache V) (k : String) (object : Option V) (c' : Cache V)
      : Type ℓ where
    pub valid : IsValid n c'
    pub effect : Put c k object c'
    pub capacity : c'.capacity ≡ c.capacity

  abbrev pub Stores : ℕ → Cache V → String → Option V → Type ℓ
  Stores n c k object = (c' : Cache V) × (put c (some k) object ≡ some c') × Stored n c k object c'

  put_full :
      (n : ℕ) (c : Cache V) (k : String) (object : Option V)
      → 1 ≤ n
      → 0 < c.capacity
      → IsValid n c
      → index_of k c.cached_keys ≡ none
      → find k c.cached_objects ≡ none
      → leb c.capacity (length c.cached_keys) ≡ true
      → Stores n c k object
  unfolding put append_item
  put_full n c k object h cap v e l full =
      let (kept, victim, t) = trim n c c.cached_objects refl cap full v in
      let size : length c.cached_objects ≡ suc (length kept) =
        ap length t.whole ∙ (omega (arith, length-append kept (victim ∷ []))) in
      let sizes : length c.cached_keys ≡ length c.cached_objects =
        ap length v.in_step ∙ length-item_keys c.cached_objects in
      let at_capacity : length c.cached_objects ≡ c.capacity =
        omega (arith, leb→le c.capacity (length c.cached_keys) full, v.bounded) in
      let fresh : find k kept ≡ none =
        ground (arith, find-append k kept victim, ap (find k) t.whole) in
      (
        record c {
          cached_objects = kept ++ (new_item k object ∷ []);
          cached_keys = item_keys kept ++ (k ∷ []);
        },
        rw (e, put, t.trims),
        record {
          valid =
              append-IsValid n c k object kept h t.distinct t.falling t.positive (omega arith)
                fresh;
          effect = evicted kept victim t.whole t.least at_capacity fresh refl;
          capacity = refl;
        },
      )

  put_room :
      (n : ℕ) (c : Cache V) (k : String) (object : Option V)
      → 1 ≤ n
      → IsValid n c
      → index_of k c.cached_keys ≡ none
      → find k c.cached_objects ≡ none
      → leb c.capacity (length c.cached_keys) ≡ false
      → Stores n c k object
  unfolding put append_item make_room
  put_room n c k object h v e l free =
      let sizes : length c.cached_keys ≡ length c.cached_objects =
        ap length v.in_step ∙ length-item_keys c.cached_objects in
      let room : suc (length c.cached_objects) ≤ c.capacity = ground arith in
      (
        record c {
          cached_objects = c.cached_objects ++ (new_item k object ∷ []);
          cached_keys = item_keys c.cached_objects ++ (k ∷ []);
        },
        rw (e, put, free, v.in_step),
        record {
          valid =
              append-IsValid n c k object c.cached_objects h v.distinct v.falling v.positive room l;
          effect = added refl l room;
          capacity = refl;
        },
      )

  put_hit :
      (n : ℕ) (c : Cache V) (k : String) (object : Option V) (pos : ℕ) (x : Item V)
      → IsValid n c
      → index_of k c.cached_keys ≡ some pos
      → get_elem? c.cached_objects pos ≡ some x
      → x.key ≡ k
      → find k c.cached_objects ≡ some x
      → Stores n c k object
  unfolding put replace_object
  put_hit n c k object pos x v e g same f =
      let y = record x { object = object } in
      let xs = c.cached_objects in
      (
        record c { cached_objects = set xs pos y },
        rw (e, put, g, replace_object),
        record {
          valid = record {
            in_step = v.in_step ∙ sym (item_keys-set y xs pos x g refl);
            distinct = set-IsDistinct y xs pos x v.distinct g refl;
            falling = set-IsFalling y n xs pos x g refl v.falling;
            positive =
                set-AtLeast y 1 xs pos (get_elem?-AtLeast 1 xs pos x g v.positive) v.positive;
            bounded = omega (arith, length-set y xs pos, v.bounded);
          };
          effect =
              replaced (λ missing. cc)
                (λ j.
                  rw (find-set y j xs pos x v.distinct g refl) (ground (arith, eq_iff x.key j)));
          capacity = refl;
        },
      )

  put_located :
      (n : ℕ) (c : Cache V) (k : String) (object : Option V) (o : Option ℕ)
      → 1 ≤ n
      → 0 < c.capacity
      → IsValid n c
      → index_of k c.cached_keys ≡ o
      → Locates k c.cached_objects o
      → Stores n c k object
  put_located n c k object none h cap v e l =
      elim (Bool-cases (leb c.capacity (length c.cached_keys))) [
        | inl full ↦ put_full n c k object h cap v e l full
        | inr free ↦ put_room n c k object h v e l free
      ]
  put_located n c k object (some pos) h cap v e (x, g, same, f) =
      put_hit n c k object pos x v e g same f

  -- On a valid cache of a positive capacity, `put` of a key never raises and leaves a valid cache
  -- of the same capacity: either the key was there and has the new object, every other key its
  -- own; or a new item is added at the end, below the capacity; or at the capacity it takes the
  -- place of the last item, whose count no other item is below.
  pub put-Stored :
      (n : ℕ) (c : Cache V) (k : String) (object : Option V)
      → 1 ≤ n
      → 0 < c.capacity
      → IsValid n c
      → Stores n c k object
  put-Stored n c k object h cap v =
      put_located n c k object (index_of k c.cached_keys) h cap v refl
        (rw v.in_step (index_of-Locates k c.cached_objects))
