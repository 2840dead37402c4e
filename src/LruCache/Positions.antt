-- ===== src/LruCache/Positions.antt =====
-- Positions in the two arrays: `indexOfObject:`, a write at an index and `removeLastObject`.
use sendingnetwork_ios.Common.{
  ℕ, zero, suc, ◌≤◌, String, ◌≡◌, ◌≢◌, refl, ap, Option, none, some, List, [], ◌∷◌, length,
  get_elem?, set, if◌then◌else◌, ◌==◌, eq_iff, arith, inl, inr, Bool, Bool-cases,
}
use sendingnetwork_ios.LruCache.{Item, index_of}
use sendingnetwork_ios.LruCache.Items.{item_keys, find, IsDistinct, IsFalling, AtMost, AtLeast}

module _ {ℓ} {V : Type ℓ} where
  -- What `indexOfObject:` of the keys says of the items.
  abbrev pub Locates : String → List (Item V) → Option ℕ → Type ℓ
  Locates k xs none = find k xs ≡ none
  Locates k xs (some pos) =
      (x : Item V) × (get_elem? xs pos ≡ some x) × (x.key ≡ k) × (find k xs ≡ some x)

  locate_rest :
      (k : String) (x : Item V) (xs : List (Item V)) (o : Option ℕ)
      → (x.key == k) ≡ Bool.false
      → Locates k xs o
      → Locates k (x ∷ xs) (elim o [ none ↦ none | some pos ↦ some (suc pos) ])
  unfolding find
  locate_rest k x xs none e l = rw e l
  locate_rest k x xs (some pos) e l = (l.0, l.1, l.2, rw e l.3)

  pub index_of-Locates :
      (k : String) (xs : List (Item V)) → Locates k xs (index_of k (item_keys xs))
  unfolding find index_of
  index_of-Locates k [] = refl
  index_of-Locates k (x ∷ xs) = elim (Bool-cases (x.key == k)) [
    | inl e ↦ rw e (x, refl, (eq_iff x.key k).0 e, rw e)
    | inr e ↦ rw e (locate_rest k x xs (index_of k (item_keys xs)) e (index_of-Locates k xs))
  ]

  find_at :
      (xs : List (Item V)) (pos : ℕ) (x : Item V) → get_elem? xs pos ≡ some x → find x.key xs ≢ none
  unfolding find
  find_at [] pos x g = absurd (cc)
  find_at (z ∷ xs) zero x g = ground (arith, eq_iff z.key x.key)
  find_at (z ∷ xs) (suc pos) x g = ground (arith, find_at xs pos x g)

  -- The item at a position is rewritten, its key kept.
  module _ (y : Item V) where
    pub find-set :
        (k : String) (xs : List (Item V)) (pos : ℕ) (x : Item V)
        → IsDistinct xs
        → get_elem? xs pos ≡ some x
        → x.key ≡ y.key
        → find k (set xs pos y) ≡ (if y.key == k then some y else find k xs)
    unfolding find
    find-set k [] pos x d g e = absurd (cc)
    find-set k (z ∷ xs) zero x d g e = ground arith
    find-set k (z ∷ xs) (suc pos) x d g e =
        ground
          (arith, find_at xs pos x g, eq_iff z.key k, eq_iff y.key k, find-set k xs pos x d.1 g e)

    pub set-IsDistinct :
        (xs : List (Item V)) (pos : ℕ) (x : Item V)
        → IsDistinct xs
        → get_elem? xs pos ≡ some x
        → x.key ≡ y.key
        → IsDistinct (set xs pos y)
    set-IsDistinct [] pos x d g e = absurd (cc)
    set-IsDistinct (z ∷ xs) zero x d g e = ground arith
    set-IsDistinct (z ∷ xs) (suc pos) x d g e = ground (
      arith,
      find_at xs pos x g,
      eq_iff y.key z.key,
      find-set z.key xs pos x d.1 g e,
      set-IsDistinct xs pos x d.1 g e,
    )

    pub item_keys-set :
        (xs : List (Item V)) (pos : ℕ) (x : Item V)
        → get_elem? xs pos ≡ some x
        → x.key ≡ y.key
        → item_keys (set xs pos y) ≡ item_keys xs
    item_keys-set [] pos x g e = refl
    item_keys-set (z ∷ xs) zero x g e = ground arith
    item_keys-set (z ∷ xs) (suc pos) x g e = ap (◌∷◌ z.key) (item_keys-set xs pos x g e)

    pub length-set : (xs : List (Item V)) (pos : ℕ) → length (set xs pos y) ≡ length xs
    length-set [] pos = refl
    length-set (z ∷ xs) zero = refl
    length-set (z ∷ xs) (suc pos) = ap suc (length-set xs pos)

    pub set-AtMost :
        (n : ℕ) (xs : List (Item V)) (pos : ℕ)
        → y.ref_count ≤ n
        → AtMost n xs
        → AtMost n (set xs pos y)
    set-AtMost n [] pos h f = tt
    set-AtMost n (z ∷ xs) zero h f = (h, f.1)
    set-AtMost n (z ∷ xs) (suc pos) h f = (f.0, set-AtMost n xs pos h f.1)

    pub set-AtLeast :
        (n : ℕ) (xs : List (Item V)) (pos : ℕ)
        → n ≤ y.ref_count
        → AtLeast n xs
        → AtLeast n (set xs pos y)
    set-AtLeast n [] pos h f = tt
    set-AtLeast n (z ∷ xs) zero h f = (h, f.1)
    set-AtLeast n (z ∷ xs) (suc pos) h f = (f.0, set-AtLeast n xs pos h f.1)

    -- Only the count and the object change: where the count stays, the counts fall as before.
    pub set-IsFalling :
        (n : ℕ) (xs : List (Item V)) (pos : ℕ) (x : Item V)
        → get_elem? xs pos ≡ some x
        → x.ref_count ≡ y.ref_count
        → IsFalling n xs
        → IsFalling n (set xs pos y)
    set-IsFalling n [] pos x g e f = tt
    set-IsFalling n (z ∷ xs) zero x g e f = ground arith
    set-IsFalling n (z ∷ xs) (suc pos) x g e f = (f.0, set-IsFalling z.ref_count xs pos x g e f.1)

  pub get_elem?-AtMost :
      (n : ℕ) (xs : List (Item V)) (pos : ℕ) (x : Item V)
      → get_elem? xs pos ≡ some x
      → AtMost n xs
      → x.ref_count ≤ n
  get_elem?-AtMost n [] pos x g f = absurd (cc)
  get_elem?-AtMost n (z ∷ xs) zero x g f = ground arith
  get_elem?-AtMost n (z ∷ xs) (suc pos) x g f = get_elem?-AtMost n xs pos x g f.1

  pub get_elem?-AtLeast :
      (n : ℕ) (xs : List (Item V)) (pos : ℕ) (x : Item V)
      → get_elem? xs pos ≡ some x
      → AtLeast n xs
      → n ≤ x.ref_count
  get_elem?-AtLeast n [] pos x g f = absurd (cc)
  get_elem?-AtLeast n (z ∷ xs) zero x g f = ground arith
  get_elem?-AtLeast n (z ∷ xs) (suc pos) x g f = get_elem?-AtLeast n xs pos x g f.1

  pub IsFalling-AtMost : (m n : ℕ) (xs : List (Item V)) → m ≤ n → IsFalling m xs → AtMost n xs
  IsFalling-AtMost m n [] h f = tt
  IsFalling-AtMost m n (x ∷ xs) h f =
      (omega arith, IsFalling-AtMost x.ref_count n xs (omega arith) f.1)

  pub IsFalling-weaken : (m n : ℕ) (xs : List (Item V)) → m ≤ n → IsFalling m xs → IsFalling n xs
  IsFalling-weaken m n [] h f = tt
  IsFalling-weaken m n (x ∷ xs) h f = (omega arith, f.1)
