-- ===== src/SasCode/Numbers.antt =====
-- The three numbers of a short authentication string and its bits.
use Prim.Native.Nat.{bit_and, bit_or}
use sendingnetwork_ios.Common.{
  ℕ, ◌+◌, ◌*◌, ◌/◌, ◌%◌, ◌≤◌, ◌<◌, ◌≡◌, refl, ap, sym, subst, ◌∙◌, Option, none, some, List, [],
  ◌∷◌, All, arith,
}
use sendingnetwork_ios.Common.Bits.{
  shift_left, shift_right, bit_or-shift_left, mask_seven, mask_sixty_three,
}
use sendingnetwork_ios.SasCode.{decimal_representation_for_sas}

abbrev pub IsByte : ℕ → Type 0
IsByte b = b < 256

-- The first five bytes as one number of 40 bits.
abbrev pub forty_bits : ℕ → ℕ → ℕ → ℕ → ℕ → ℕ
forty_bits b0 b1 b2 b3 b4 = (((b0 * 256 + b1) * 256 + b2) * 256 + b3) * 256 + b4

first_number :
    (b0 b1 b2 b3 b4 : ℕ)
    → IsByte b0
    → IsByte b1
    → IsByte b2
    → IsByte b3
    → IsByte b4
    → bit_or (shift_left b0 5) (shift_right b1 3) ≡ forty_bits b0 b1 b2 b3 b4 / 0x8000000
first_number b0 b1 b2 b3 b4 h0 h1 h2 h3 h4 =
    omega (arith, bit_or-shift_left 5 b0 (b1 / 2 / 2 / 2) (omega arith))

second_number :
    (b0 b1 b2 b3 b4 : ℕ)
    → IsByte b0
    → IsByte b1
    → IsByte b2
    → IsByte b3
    → IsByte b4
    → bit_or (bit_or (shift_left (bit_and b1 0x7) 10) (shift_left b2 2)) (shift_right b3 6)
      ≡ forty_bits b0 b1 b2 b3 b4 / 0x4000 % 0x2000
second_number b0 b1 b2 b3 b4 h0 h1 h2 h3 h4 =
    let high : bit_or (shift_left (bit_and b1 0x7) 10) (shift_left b2 2)
        ≡ shift_left (b1 % 8 * 256 + b2) 2 =
      omega (
        arith,
        mask_seven b1,
        bit_or-shift_left 10 (bit_and b1 0x7) (shift_left b2 2) (omega arith),
      ) in
    ap (λ x. bit_or x (shift_right b3 6)) high
    ∙ omega (arith, bit_or-shift_left 2 (b1 % 8 * 256 + b2) (shift_right b3 6) (omega arith))

third_number :
    (b0 b1 b2 b3 b4 : ℕ)
    → IsByte b0
    → IsByte b1
    → IsByte b2
    → IsByte b3
    → IsByte b4
    → bit_or (shift_left (bit_and b3 0x3f) 7) (shift_right b4 1)
      ≡ forty_bits b0 b1 b2 b3 b4 / 2 % 0x2000
third_number b0 b1 b2 b3 b4 h0 h1 h2 h3 h4 = omega (
  arith,
  mask_sixty_three b3,
  bit_or-shift_left 7 (bit_and b3 0x3f) (shift_right b4 1) (omega arith),
)

-- The three numbers that a string of at least five bytes is shown as are the first 39 of its bits,
-- 13 bits to a number, with 1000 added to each; the last bit of the fifth byte is not shown.
pub decimal_representation_for_sas-groups :
    (b0 b1 b2 b3 b4 : ℕ) (rest : List ℕ)
    → All IsByte (b0 ∷ b1 ∷ b2 ∷ b3 ∷ b4 ∷ [])
    → decimal_representation_for_sas (b0 ∷ b1 ∷ b2 ∷ b3 ∷ b4 ∷ rest)
      ≡ some (
          (forty_bits b0 b1 b2 b3 b4 / 0x8000000 + 1000)
          ∷ (forty_bits b0 b1 b2 b3 b4 / 0x4000 % 0x2000 + 1000)
          ∷ (forty_bits b0 b1 b2 b3 b4 / 2 % 0x2000 + 1000)
          ∷ [])
unfolding decimal_representation_for_sas
decimal_representation_for_sas-groups b0 b1 b2 b3 b4 rest (h0, (h1, (h2, (h3, (h4, _))))) =
    rw
      (
        first_number b0 b1 b2 b3 b4 h0 h1 h2 h3 h4,
        second_number b0 b1 b2 b3 b4 h0 h1 h2 h3 h4,
        third_number b0 b1 b2 b3 b4 h0 h1 h2 h3 h4,
      )
      refl

-- A predicate of all the numbers that are shown.
abbrev ShownIn : (ℕ → Type 0) → Option (List ℕ) → Type 0
ShownIn P none = Unit
ShownIn P (some numbers) = All P numbers

-- Each number that a string of bytes is shown as has four digits and is at most 9191.
pub decimal_representation_for_sas-bounds :
    (b0 b1 b2 b3 b4 : ℕ) (rest : List ℕ) (numbers : List ℕ)
    → All IsByte (b0 ∷ b1 ∷ b2 ∷ b3 ∷ b4 ∷ [])
    → decimal_representation_for_sas (b0 ∷ b1 ∷ b2 ∷ b3 ∷ b4 ∷ rest) ≡ some numbers
    → All (λ n. (1000 ≤ n) × (n ≤ 9191)) numbers
decimal_representation_for_sas-bounds b0 b1 b2 b3 b4 rest numbers (h0, (h1, (h2, (h3, (h4, _)))))
      e =
    let small : All (λ n. (1000 ≤ n) × (n ≤ 9191))
        ((forty_bits b0 b1 b2 b3 b4 / 0x8000000 + 1000)
          ∷ (forty_bits b0 b1 b2 b3 b4 / 0x4000 % 0x2000 + 1000)
          ∷ (forty_bits b0 b1 b2 b3 b4 / 2 % 0x2000 + 1000)
          ∷ []) =
      (
        (omega arith, omega arith),
        ((omega arith, omega arith), ((omega arith, omega arith), tt)),
      ) in
    let shown =
      decimal_representation_for_sas-groups b0 b1 b2 b3 b4 rest (h0, (h1, (h2, (h3, (h4, tt))))) in
    subst (λ o. ShownIn (λ n. (1000 ≤ n) × (n ≤ 9191)) o) (sym shown ∙ e) small
