-- ===== src/SasCode/Emojis.antt =====
-- The seven emojis of a short authentication string, its bits and the table.
use Prim.Native.Nat.{bit_and, bit_or}
use sendingnetwork_ios.Common.{
  ℕ, zero, suc, ◌+◌, ◌*◌, ◌/◌, ◌%◌, ◌<◌, ◌≡◌, refl, ap, ◌∙◌, some, List, [], ◌∷◌, All, arith,
  length, get_elem?,
}
use sendingnetwork_ios.Common.Bits.{
  shift_left, shift_right, bit_or-shift_left, mask_three, mask_fifteen, mask_sixty_three,
}
use sendingnetwork_ios.SasCode.{
  EmojiRepresentation, sas_emojis, emoji_indices, emojis_at, emojis_for,
  emoji_representation_for_sas,
}
use sendingnetwork_ios.SasCode.Numbers.{IsByte}

-- The first six bytes as one number of 48 bits.
abbrev pub forty_eight_bits : ℕ → ℕ → ℕ → ℕ → ℕ → ℕ → ℕ
forty_eight_bits b0 b1 b2 b3 b4 b5 =
    ((((b0 * 256 + b1) * 256 + b2) * 256 + b3) * 256 + b4) * 256 + b5

-- The seven groups of six bits from the top of a number of 48 bits.
abbrev pub groups : ℕ → List ℕ
groups n =
    (n / 0x40000000000)
    ∷ (n / 0x1000000000 % 64)
    ∷ (n / 0x40000000 % 64)
    ∷ (n / 0x1000000 % 64)
    ∷ (n / 0x40000 % 64)
    ∷ (n / 0x1000 % 64)
    ∷ (n / 64 % 64)
    ∷ []

-- Two bits of a byte before the upper four of the next one.
two_and_four :
    (a b : ℕ)
    → IsByte b
    → bit_or (shift_left (bit_and a 0x3) 4) (shift_right b 4) ≡ a % 4 * 16 + b / 16
two_and_four a b h =
    omega (arith, mask_three a, bit_or-shift_left 4 (bit_and a 0x3) (shift_right b 4) (omega arith))

-- Four bits of a byte before the upper two of the next one.
four_and_two :
    (a b : ℕ)
    → IsByte b
    → bit_or (shift_left (bit_and a 0xf) 2) (shift_right b 6) ≡ a % 16 * 4 + b / 64
four_and_two a b h =
    omega
      (arith, mask_fifteen a, bit_or-shift_left 2 (bit_and a 0xf) (shift_right b 6) (omega arith))

cons_path : {x y : ℕ} {xs ys : List ℕ} → x ≡ y → xs ≡ ys → x ∷ xs ≡ y ∷ ys
cons_path e f = cc

-- The places of the seven emojis of a string of at least six bytes are the first 42 of its bits,
-- six bits to a place.
pub emoji_indices-groups :
    (b0 b1 b2 b3 b4 b5 : ℕ) (rest : List ℕ)
    → All IsByte (b0 ∷ b1 ∷ b2 ∷ b3 ∷ b4 ∷ b5 ∷ [])
    → emoji_indices (b0 ∷ b1 ∷ b2 ∷ b3 ∷ b4 ∷ b5 ∷ rest)
      ≡ some (groups (forty_eight_bits b0 b1 b2 b3 b4 b5))
unfolding emoji_indices
emoji_indices-groups b0 b1 b2 b3 b4 b5 rest (h0, (h1, (h2, (h3, (h4, (h5, _)))))) = ap some (
    cons_path (omega arith) (
      cons_path (omega (arith, two_and_four b0 b1 h1)) (
        cons_path (omega (arith, four_and_two b1 b2 h2)) (
          cons_path (omega (arith, mask_sixty_three b2)) (
            cons_path (omega arith) (
              cons_path (omega (arith, two_and_four b3 b4 h4))
                (cons_path (omega (arith, four_and_two b4 b5 h5)) refl)))))))

table_length : length sas_emojis ≡ 64
unfolding sas_emojis
table_length = refl

in_table :
    (i : ℕ) (es : List EmojiRepresentation)
    → i < length es
    → (e : EmojiRepresentation) × (get_elem? es i ≡ some e)
in_table i [] h = absurd (omega arith)
in_table zero (e ∷ es) h = (e, refl)
in_table (suc i) (e ∷ es) h = in_table i es (omega arith)

emojis_at-length :
    (is : List ℕ)
    → All (λ i. i < 64) is
    → (es : List EmojiRepresentation) × (emojis_at is ≡ some es) × (length es ≡ length is)
unfolding emojis_at
emojis_at-length [] h = ([], refl, refl)
emojis_at-length (i ∷ is) (h, hs) =
    let (e, at) = in_table i sas_emojis (omega (arith, table_length)) in
    let (es, more, l) = emojis_at-length is hs in (e ∷ es, rw (at, emojis_at, more) refl, ap suc l)

-- A string of at least six bytes is always shown as seven emojis: no place is out of the table.
pub emoji_representation_for_sas-length :
    (b0 b1 b2 b3 b4 b5 : ℕ) (rest : List ℕ)
    → All IsByte (b0 ∷ b1 ∷ b2 ∷ b3 ∷ b4 ∷ b5 ∷ [])
    → (es : List EmojiRepresentation) × (emoji_representation_for_sas
          (b0 ∷ b1 ∷ b2 ∷ b3 ∷ b4 ∷ b5 ∷ rest)
        ≡ some es)
      × (length es ≡ 7)
unfolding emoji_representation_for_sas
emoji_representation_for_sas-length b0 b1 b2 b3 b4 b5 rest h =
    let (h0, (h1, (h2, (h3, (h4, (h5, _)))))) = h in
    let n = forty_eight_bits b0 b1 b2 b3 b4 b5 in
    let (es, shown, l) = emojis_at-length (groups n) (
      omega arith,
      (omega arith, (omega arith, (omega arith, (omega arith, (omega arith, (omega arith, tt)))))),
    ) in
    (es, ap emojis_for (emoji_indices-groups b0 b1 b2 b3 b4 b5 rest h) ∙ shown, l)
