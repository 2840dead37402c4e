-- ===== src/RecoveryKey/Parity.antt =====
-- The exclusive or of bytes, and the checksum of MXRecoveryKey.m.
use Prim.Native.Nat.{bit_xor, bit_xor-bitwise, differ}
use sendingnetwork_ios.Common.{
  ℕ, zero, suc, ◌+◌, ◌*◌, ◌/◌, ◌%◌, ◌≤◌, ◌≡◌, ◌≢◌, refl, sym, ap, ◌∙◌, List, [], ◌∷◌, ◌++◌, arith,
}
use sendingnetwork_ios.Common.Bits.{more_digits}
use sendingnetwork_ios.RecoveryKey.{parity, with_parity}

bit_xor_digit : (a b : ℕ) → bit_xor a b ≡ bit_xor (a / 2) (b / 2) * 2 + differ (a % 2) (b % 2)
bit_xor_digit zero b = omega (arith, bit_xor-bitwise 0 b, bit_xor-bitwise 0 (b / 2))
bit_xor_digit (suc a) b = omega (
  arith,
  bit_xor-bitwise (suc a) b,
  bit_xor-bitwise (suc a / 2) (b / 2),
  more_digits (λ b. b) differ a (suc a / 2) (suc a / 2) (b / 2) (omega arith) (omega arith),
)

differ_self : (x : ℕ) → differ x x ≡ 0
differ_self zero = refl
differ_self (suc x) = differ_self x

differ_zero : (x y : ℕ) → differ x y ≡ 0 → x ≡ y
differ_zero zero y h = sym h
differ_zero (suc x) zero h = h
differ_zero (suc x) (suc y) h = ap suc (differ_zero x y h)

self_below : (n a : ℕ) → a ≤ n → bit_xor a a ≡ 0
self_below n zero h = bit_xor-bitwise 0 0
self_below zero (suc a) h = absurd (omega arith)
self_below (suc n) (suc a) h = omega (
  arith,
  bit_xor_digit (suc a) (suc a),
  differ_self (suc a % 2),
  self_below n (suc a / 2) (omega arith),
)

zero_below : (n a b : ℕ) → a ≤ n → bit_xor a b ≡ 0 → a ≡ b
zero_below n zero b h e = sym e ∙ bit_xor-bitwise 0 b
zero_below zero (suc a) b h e = absurd (omega arith)
zero_below (suc n) (suc a) b h e =
    let halves : suc a / 2 ≡ b / 2 =
      zero_below n (suc a / 2) (b / 2) (omega arith) (omega (arith, e, bit_xor_digit (suc a) b)) in
    let digits : suc a % 2 ≡ b % 2 =
      differ_zero (suc a % 2) (b % 2) (omega (arith, e, bit_xor_digit (suc a) b)) in
    omega (arith, halves, digits)

parity-append : (p : ℕ) (xs : List ℕ) (b : ℕ) → parity p (xs ++ (b ∷ [])) ≡ bit_xor (parity p xs) b
unfolding parity
parity-append p [] b = refl
parity-append p (x ∷ xs) b = parity-append (bit_xor p x) xs b

-- A buffer with its checksum passes.
pub parity-with_parity : (buffer : List ℕ) → parity 0 (with_parity buffer) ≡ 0
parity-with_parity buffer =
    parity-append 0 buffer (parity 0 buffer)
    ∙ self_below (parity 0 buffer) (parity 0 buffer) (omega arith)

-- A buffer with another byte for a checksum does not.
pub parity_wrong :
    (buffer : List ℕ) (b : ℕ) → b ≢ parity 0 buffer → parity 0 (buffer ++ (b ∷ [])) ≢ 0
parity_wrong buffer b wrong e = wrong (
    sym (
      zero_below (parity 0 buffer) (parity 0 buffer) b (omega arith)
        (sym (parity-append 0 buffer b) ∙ e)))
