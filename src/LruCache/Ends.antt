-- ===== src/LruCache/Ends.antt =====
-- The two ends of the arrays: an item appended, and the last one taken off.
use sendingnetwork_ios.Common.{
  ℕ, suc, ◌≤◌, String, ◌≡◌, refl, ap, none, some, List, [], ◌∷◌, ◌++◌, length, if◌then◌else◌, ◌==◌,
  eq_iff, arith,
}
use sendingnetwork_ios.LruCache.{Item, remove_last}
use sendingnetwork_ios.LruCache.Items.{item_keys, find, IsDistinct, IsFalling, AtLeast}

-- A list that is not empty has a last element, which `removeLastObject` takes off.
pub remove_last-snoc {ℓ} :
    {A : Type ℓ} (x : A) (xs : List A)
    → (front : List A) × (last : A) × (x ∷ xs ≡ front ++ (last ∷ []))
      × (remove_last (x ∷ xs) ≡ some front)
unfolding remove_last
remove_last-snoc x [] = ([], x, refl, refl)
remove_last-snoc x (y ∷ rest) =
    let (front, last, e, r) = remove_last-snoc y rest in (x ∷ front, last, ap (◌∷◌ x) e, rw r)

pub remove_last-append {ℓ} :
    {A : Type ℓ} (front : List A) (last : A) → remove_last (front ++ (last ∷ [])) ≡ some front
unfolding remove_last
remove_last-append [] last = refl
remove_last-append (x ∷ []) last = refl
remove_last-append (x ∷ y ∷ front) last = rw (remove_last-append (y ∷ front) last)

module _ {ℓ} {V : Type ℓ} where
  pub item_keys-append :
      (xs : List (Item V)) (y : Item V) → item_keys (xs ++ (y ∷ [])) ≡ item_keys xs ++ (y.key ∷ [])
  item_keys-append [] y = refl
  item_keys-append (x ∷ xs) y = ap (◌∷◌ x.key) (item_keys-append xs y)

  pub find-append :
      (k : String) (xs : List (Item V)) (y : Item V)
      → find k (xs ++ (y ∷ []))
        ≡ elim (find k xs) [ none ↦ if y.key == k then some y else none | some x ↦ some x ]
  unfolding find
  find-append k [] y = refl
  find-append k (x ∷ xs) y = ground (arith, find-append k xs y)

  pub append-IsDistinct :
      (xs : List (Item V)) (y : Item V)
      → IsDistinct xs
      → find y.key xs ≡ none
      → IsDistinct (xs ++ (y ∷ []))
  unfolding find
  append-IsDistinct [] y d h = (refl, tt)
  append-IsDistinct (x ∷ xs) y d h = ground (
    arith,
    eq_iff x.key y.key,
    eq_iff y.key x.key,
    find-append x.key xs y,
    append-IsDistinct xs y d.1,
  )

  pub front-IsDistinct :
      (xs : List (Item V)) (y : Item V)
      → IsDistinct (xs ++ (y ∷ []))
      → IsDistinct xs × (find y.key xs ≡ none)
  unfolding find
  front-IsDistinct [] y d = (tt, refl)
  front-IsDistinct (x ∷ xs) y d = ground (
    arith,
    eq_iff x.key y.key,
    eq_iff y.key x.key,
    find-append x.key xs y,
    front-IsDistinct xs y d.1,
  )

  pub append-IsFalling :
      (n : ℕ) (xs : List (Item V)) (y : Item V)
      → y.ref_count ≤ n
      → AtLeast y.ref_count xs
      → IsFalling n xs
      → IsFalling n (xs ++ (y ∷ []))
  append-IsFalling n [] y b h f = (b, tt)
  append-IsFalling n (x ∷ xs) y b h f = (f.0, append-IsFalling x.ref_count xs y h.0 h.1 f.1)

  -- The last item of falling counts has the least.
  pub front-IsFalling :
      (n : ℕ) (xs : List (Item V)) (y : Item V)
      → IsFalling n (xs ++ (y ∷ []))
      → IsFalling n xs × AtLeast y.ref_count xs × (y.ref_count ≤ n)
  front-IsFalling n [] y f = (tt, tt, f.0)
  front-IsFalling n (x ∷ xs) y f =
      let (g, h, b) = front-IsFalling x.ref_count xs y f.1 in ((f.0, g), (b, h), omega arith)

  pub front-AtLeast :
      (n : ℕ) (xs : List (Item V)) (y : Item V) → AtLeast n (xs ++ (y ∷ [])) → AtLeast n xs
  front-AtLeast n [] y h = tt
  front-AtLeast n (x ∷ xs) y h = (h.0, front-AtLeast n xs y h.1)

  pub length-item_keys : (xs : List (Item V)) → length (item_keys xs) ≡ length xs
  length-item_keys [] = refl
  length-item_keys (x ∷ xs) = ap suc (length-item_keys xs)
