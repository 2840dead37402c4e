-- ===== src/LruCache/Items.antt =====
-- The array of items as a finite map: what sorting, writing and trimming it do to a search by key.
use sendingnetwork_ios.Common.{
  ℕ, suc, ◌≤◌, ◌<◌, ◌^◌, String, ◌≡◌, refl, Option, none, some, List, [], ◌∷◌, map, length, All,
  if◌then◌else◌, ◌==◌, eq_iff, arith,
}
use sendingnetwork_ios.LruCache.{Item, insert_sorted, sorted_array}

module _ {ℓ} {V : Type ℓ} where
  abbrev pub item_keys : List (Item V) → List String
  item_keys = map (λ i. i.key)

  unfoldable pub find : String → List (Item V) → Option (Item V)
  find k [] = none
  find k (x ∷ xs) = if x.key == k then some x else find k xs

  abbrev pub IsDistinct : List (Item V) → Type ℓ
  IsDistinct [] = Unit
  IsDistinct (x ∷ xs) = (find x.key xs ≡ none) × IsDistinct xs

  -- Counts fall along the array and stay within a bound.
  abbrev pub IsFalling : ℕ → List (Item V) → Type 0
  IsFalling n [] = Unit {0}
  IsFalling n (x ∷ xs) = (x.ref_count ≤ n) × IsFalling x.ref_count xs

  abbrev pub AtMost : ℕ → List (Item V) → Type 0
  AtMost n = All (λ i. i.ref_count ≤ n)

  abbrev pub AtLeast : ℕ → List (Item V) → Type 0
  AtLeast n = All (λ i. n ≤ i.ref_count)

  find-insert_sorted :
      (k : String) (x : Item V) (xs : List (Item V))
      → find x.key xs ≡ none
      → find k (insert_sorted x xs) ≡ (if x.key == k then some x else find k xs)
  unfolding find insert_sorted
  find-insert_sorted k x [] h = refl
  find-insert_sorted k x (y ∷ xs) h =
      ground (arith, eq_iff y.key x.key, eq_iff x.key k, eq_iff y.key k, find-insert_sorted k x xs)

  insert_sorted-IsDistinct :
      (x : Item V) (xs : List (Item V))
      → find x.key xs ≡ none
      → IsDistinct xs
      → IsDistinct (insert_sorted x xs)
  unfolding find insert_sorted
  insert_sorted-IsDistinct x [] h d = (refl, tt)
  insert_sorted-IsDistinct x (y ∷ xs) h d = ground (
    arith,
    eq_iff y.key x.key,
    eq_iff x.key y.key,
    find-insert_sorted y.key x xs,
    insert_sorted-IsDistinct x xs,
  )

  pub find-sorted_array :
      (k : String) (xs : List (Item V)) → IsDistinct xs → find k (sorted_array xs) ≡ find k xs
  unfolding find sorted_array
  find-sorted_array k [] d = refl
  find-sorted_array k (x ∷ xs) d = ground (
    arith,
    find-sorted_array k xs d.1,
    find-sorted_array x.key xs d.1,
    find-insert_sorted k x (sorted_array xs),
  )

  pub sorted_array-IsDistinct : (xs : List (Item V)) → IsDistinct xs → IsDistinct (sorted_array xs)
  unfolding sorted_array
  sorted_array-IsDistinct [] d = tt
  sorted_array-IsDistinct (x ∷ xs) d = ground (
    arith,
    find-sorted_array x.key xs d.1,
    sorted_array-IsDistinct xs d.1,
    insert_sorted-IsDistinct x (sorted_array xs),
  )

  insert_sorted-IsFalling :
      (n : ℕ) (x : Item V) (xs : List (Item V))
      → n < 2 ^ 63
      → x.ref_count ≤ n
      → IsFalling n xs
      → IsFalling n (insert_sorted x xs)
  unfolding insert_sorted
  insert_sorted-IsFalling n x [] b h f = (h, tt)
  insert_sorted-IsFalling n x (y ∷ xs) b h f =
      ground (arith, insert_sorted-IsFalling y.ref_count x xs)

  -- Sorted by the comparator, the counts fall: the signed difference is exact below 2 ^ 63.
  pub sorted_array-IsFalling :
      (n : ℕ) (xs : List (Item V)) → n < 2 ^ 63 → AtMost n xs → IsFalling n (sorted_array xs)
  unfolding sorted_array
  sorted_array-IsFalling n [] b h = tt
  sorted_array-IsFalling n (x ∷ xs) b h =
      insert_sorted-IsFalling n x (sorted_array xs) b h.0 (sorted_array-IsFalling n xs b h.1)

  insert_sorted-AtLeast :
      (n : ℕ) (x : Item V) (xs : List (Item V))
      → n ≤ x.ref_count
      → AtLeast n xs
      → AtLeast n (insert_sorted x xs)
  unfolding insert_sorted
  insert_sorted-AtLeast n x [] h f = (h, tt)
  insert_sorted-AtLeast n x (y ∷ xs) h f = ground (arith, insert_sorted-AtLeast n x xs)

  pub sorted_array-AtLeast :
      (n : ℕ) (xs : List (Item V)) → AtLeast n xs → AtLeast n (sorted_array xs)
  unfolding sorted_array
  sorted_array-AtLeast n [] h = tt
  sorted_array-AtLeast n (x ∷ xs) h =
      insert_sorted-AtLeast n x (sorted_array xs) h.0 (sorted_array-AtLeast n xs h.1)

  length-insert_sorted :
      (x : Item V) (xs : List (Item V)) → length (insert_sorted x xs) ≡ suc (length xs)
  unfolding insert_sorted
  length-insert_sorted x [] = refl
  length-insert_sorted x (y ∷ xs) = ground (arith, length-insert_sorted x xs)

  pub length-sorted_array : (xs : List (Item V)) → length (sorted_array xs) ≡ length xs
  unfolding sorted_array
  length-sorted_array [] = refl
  length-sorted_array (x ∷ xs) =
      omega (arith, length-insert_sorted x (sorted_array xs), length-sorted_array xs)
