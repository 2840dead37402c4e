-- ===== src/Common/Dict.antt =====
-- NSMutableDictionary with text keys: an association list with at most one entry for a key.
-- The order in which a dictionary is enumerated is unspecified; here it is that of the list.
use Prim.Native.Nat.{ℕ, ◌+◌, ◌≤◌}
use Prim.Native.String.{String}
use mathlib.Core.Path.{◌≡◌, refl}
use mathlib.Core.Logic.{inl, inr, ◌↔◌}
use mathlib.Core.Bool.{Bool, true, false}
use mathlib.Core.List.{List, [], ◌∷◌, map}
use mathlib.Core.Option.{Option, none, some}
use native.Mathlib.Omega.{arith}
use text.Mathlib.Text.{◌==◌}
use text.Mathlib.TextEquality.{eq_iff}
use text.Mathlib.TextPositions.{eq_refl}
use sendingnetwork_ios.Common.Lists.{In}
use sendingnetwork_ios.Common.Tests.{if◌then◌else◌, Bool-cases}

abbrev pub Dict {ℓ} : Type ℓ → Type ℓ
Dict V = List (String × V)

module _ {ℓ} {V : Type ℓ} where
  -- d[k]
  unfoldable pub lookup : String → Dict V → Option V
  lookup k [] = none
  lookup k ((j, v) ∷ d) = if j == k then some v else lookup k d

  -- d[k] = v
  unfoldable pub insert : String → V → Dict V → Dict V
  insert k v [] = (k, v) ∷ []
  insert k v ((j, w) ∷ d) = if j == k then (k, v) ∷ d else (j, w) ∷ insert k v d

  -- [d removeObjectForKey:k]
  unfoldable pub remove : String → Dict V → Dict V
  remove k [] = []
  remove k ((j, w) ∷ d) = let rest = remove k d in if j == k then rest else (j, w) ∷ rest

  abbrev pub keys : Dict V → List String
  keys = map (λ e. e.0)

  abbrev pub values : Dict V → List V
  values = map (λ e. e.1)

  -- No key twice.
  abbrev pub IsDict : Dict V → Type ℓ
  IsDict [] = Unit
  IsDict ((k, v) ∷ d) = (lookup k d ≡ none) × IsDict d

  pub lookup-insert :
      (k j : String) (v : V) (d : Dict V)
      → lookup j (insert k v d) ≡ (if k == j then some v else lookup j d)
  unfolding lookup insert
  lookup-insert k j v [] = refl
  lookup-insert k j v ((i, w) ∷ d) =
      ground (arith, eq_iff k j, eq_iff i k, eq_iff i j, lookup-insert k j v d)

  pub lookup-remove :
      (k j : String) (d : Dict V) → lookup j (remove k d) ≡ (if k == j then none else lookup j d)
  unfolding lookup remove
  lookup-remove k j [] = ground arith
  lookup-remove k j ((i, w) ∷ d) =
      ground (arith, eq_iff k j, eq_iff i k, eq_iff i j, lookup-remove k j d)

  pub lookup-insert_same :
      (k j : String) (v : V) (d : Dict V) → (k == j) ≡ true → lookup j (insert k v d) ≡ some v
  lookup-insert_same k j v d same = ground (arith, lookup-insert k j v d)

  pub lookup-insert_other :
      (k j : String) (v : V) (d : Dict V) → (k == j) ≡ false → lookup j (insert k v d) ≡ lookup j d
  lookup-insert_other k j v d other = ground (arith, lookup-insert k j v d)

  pub lookup-remove_same :
      (k j : String) (d : Dict V) → (k == j) ≡ true → lookup j (remove k d) ≡ none
  lookup-remove_same k j d same = ground (arith, lookup-remove k j d)

  pub lookup-remove_other :
      (k j : String) (d : Dict V) → (k == j) ≡ false → lookup j (remove k d) ≡ lookup j d
  lookup-remove_other k j d other = ground (arith, lookup-remove k j d)

  pub insert-IsDict : (k : String) (v : V) (d : Dict V) → IsDict d → IsDict (insert k v d)
  unfolding lookup insert
  insert-IsDict k v [] h = (refl, tt)
  insert-IsDict k v ((j, w) ∷ d) h =
      ground (arith, eq_iff j k, eq_iff k j, lookup-insert k j v d, insert-IsDict k v d h.1)

  pub remove-IsDict : (k : String) (d : Dict V) → IsDict d → IsDict (remove k d)
  unfolding remove
  remove-IsDict k [] h = tt
  remove-IsDict k ((j, w) ∷ d) h = ground (arith, lookup-remove k j d, remove-IsDict k d h.1)

  -- How many entries have a value that passes a test.
  abbrev pub weight : (V → Bool) → Option V → ℕ
  weight p none = 0
  weight p (some v) = if p v then 1 else 0

  unfoldable pub count : (V → Bool) → Dict V → ℕ
  count p [] = 0
  count p ((k, v) ∷ d) = (if p v then 1 else 0) + count p d

  -- An entry that is written gives up the old value's weight for the new one's.
  pub count-insert :
      (p : V → Bool) (k : String) (v : V) (d : Dict V)
      → count p (insert k v d) + weight p (lookup k d) ≡ count p d + weight p (some v)
  unfolding lookup insert count
  count-insert p k v [] = ground arith
  count-insert p k v ((j, w) ∷ d) = ground (arith, count-insert p k v d)

  remove_absent : (k : String) (d : Dict V) → lookup k d ≡ none → remove k d ≡ d
  unfolding lookup remove
  remove_absent k [] h = refl
  remove_absent k ((j, w) ∷ d) h = ground (arith, remove_absent k d)

  pub count-remove :
      (p : V → Bool) (k : String) (d : Dict V)
      → IsDict d
      → count p (remove k d) + weight p (lookup k d) ≡ count p d
  unfolding lookup remove count
  count-remove p k [] h = omega arith
  count-remove p k ((j, w) ∷ d) h =
      ground (arith, eq_iff j k, remove_absent k d, count-remove p k d h.1)

  pub weight-le-count : (p : V → Bool) (k : String) (d : Dict V) → weight p (lookup k d) ≤ count p d
  unfolding lookup count
  weight-le-count p k [] = omega arith
  weight-le-count p k ((j, w) ∷ d) = ground (arith, weight-le-count p k d)

module _ {V : Type 0} where
  -- The values are what stands under some key.
  pub In-values :
      (v : V) (d : Dict V) → IsDict d → In v (values d) ↔ ((k : String) × (lookup k d ≡ some v))
  unfolding lookup
  In-values v [] h = ((λ e. absurd e), (λ (k, e). absurd (cc)))
  In-values v ((j, w) ∷ d) h = (
    (λ e. elim e [
      | inl same ↦ (j, ground (arith, eq_refl j))
      | inr more ↦ let (k, at) = (In-values v d h.1).0 more in (k, ground (arith, eq_iff j k))
    ]),
    λ (k, at). elim (Bool-cases (j == k)) [
      | inl same ↦ inl (ground arith)
      | inr other ↦ inr ((In-values v d h.1).1 (k, ground arith))
    ],
  )
