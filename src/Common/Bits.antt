-- ===== src/Common/Bits.antt =====
-- The shifts and masks of C on numbers that do not overflow, as arithmetic.
use Prim.Native.Nat.{
  ℕ, zero, suc, ◌+◌, ◌*◌, ◌/◌, ◌%◌, ◌≤◌, ◌<◌, min, max, digits, bit_and, bit_or, bit_and-bitwise,
  bit_or-bitwise,
}
use mathlib.Core.Path.{◌≡◌, refl, ap, ◌∙◌}
use native.Mathlib.Omega.{arith}

-- a << k
abbrev pub shift_left : ℕ → ℕ → ℕ
shift_left a zero = a
shift_left a (suc k) = shift_left a k * 2

-- a >> k
abbrev pub shift_right : ℕ → ℕ → ℕ
shift_right a zero = a
shift_right a (suc k) = shift_right a k / 2

-- Any count of digits that is not below the number gives the same digits.
pub more_digits :
    (z : ℕ → ℕ) (f : ℕ → ℕ → ℕ) (n m a b : ℕ) → a ≤ n → a ≤ m → digits z f n a b ≡ digits z f m a b
more_digits z f zero zero a b p q = refl
more_digits z f zero (suc m) zero b p q = refl
more_digits z f (suc n) zero zero b p q = refl
more_digits z f (suc n) (suc m) zero b p q = refl
more_digits z f zero m (suc a) b p q = absurd (omega arith)
more_digits z f (suc n) zero (suc a) b p q = absurd (omega arith)
more_digits z f (suc n) (suc m) (suc a) b p q =
    ap (λ d. d * 2 + f (suc a % 2) (b % 2))
      (more_digits z f n m (suc a / 2) (b / 2) (omega arith) (omega arith))

bit_and_digit : (a b : ℕ) → bit_and a b ≡ bit_and (a / 2) (b / 2) * 2 + min (a % 2) (b % 2)
bit_and_digit zero b = omega (arith, bit_and-bitwise 0 b, bit_and-bitwise 0 (b / 2))
bit_and_digit (suc a) b = omega (
  arith,
  bit_and-bitwise (suc a) b,
  bit_and-bitwise (suc a / 2) (b / 2),
  more_digits (λ _. 0) min a (suc a / 2) (suc a / 2) (b / 2) (omega arith) (omega arith),
)

bit_or_digit : (a b : ℕ) → bit_or a b ≡ bit_or (a / 2) (b / 2) * 2 + max (a % 2) (b % 2)
bit_or_digit zero b = omega (arith, bit_or-bitwise 0 b, bit_or-bitwise 0 (b / 2))
bit_or_digit (suc a) b = omega (
  arith,
  bit_or-bitwise (suc a) b,
  bit_or-bitwise (suc a / 2) (b / 2),
  more_digits (λ b. b) max a (suc a / 2) (suc a / 2) (b / 2) (omega arith) (omega arith),
)

zero_below : (n a : ℕ) → a ≤ n → (bit_and a 0 ≡ 0) × (bit_or a 0 ≡ a)
zero_below n zero h = (bit_and-bitwise 0 0, bit_or-bitwise 0 0)
zero_below zero (suc a) h = absurd (omega arith)
zero_below (suc n) (suc a) h =
    let (no_and, no_or) = zero_below n (suc a / 2) (omega arith) in
    (omega (arith, bit_and_digit (suc a) 0), omega (arith, bit_or_digit (suc a) 0))

-- Two numbers with no digit in common are added.
pub bit_or-shift_left :
    (k hi lo : ℕ) → lo < shift_left 1 k → bit_or (shift_left hi k) lo ≡ shift_left hi k + lo
bit_or-shift_left zero hi lo h =
    let e : lo ≡ 0 = omega arith in
    ap (bit_or hi) e ∙ (zero_below hi hi (omega arith)).1 ∙ omega arith
bit_or-shift_left (suc k) hi lo h =
    let half : shift_left hi k * 2 / 2 ≡ shift_left hi k = omega arith in
    bit_or_digit (shift_left hi k * 2) lo
    ∙ ap (λ x. bit_or x (lo / 2) * 2 + max (shift_left hi k * 2 % 2) (lo % 2)) half
    ∙ omega (arith, bit_or-shift_left k hi (lo / 2) (omega arith))

-- The masks 0x1, 0x3, 0x7, 0xf and 0x3f take remainders.
mask_one : (a : ℕ) → bit_and a 1 ≡ a % 2
mask_one a = omega (arith, bit_and_digit a 1, (zero_below (a / 2) (a / 2) (omega arith)).0)

pub mask_three : (a : ℕ) → bit_and a 0x3 ≡ a % 4
mask_three a = omega (arith, bit_and_digit a 3, mask_one (a / 2))

pub mask_seven : (a : ℕ) → bit_and a 0x7 ≡ a % 8
mask_seven a = omega (arith, bit_and_digit a 7, mask_three (a / 2))

pub mask_fifteen : (a : ℕ) → bit_and a 0xf ≡ a % 16
mask_fifteen a = omega (arith, bit_and_digit a 15, mask_seven (a / 2))

mask_thirty_one : (a : ℕ) → bit_and a 0x1f ≡ a % 32
mask_thirty_one a = omega (arith, bit_and_digit a 31, mask_fifteen (a / 2))

pub mask_sixty_three : (a : ℕ) → bit_and a 0x3f ≡ a % 64
mask_sixty_three a = omega (arith, bit_and_digit a 63, mask_thirty_one (a / 2))
