-- ===== src/QrCode/Lengths.antt =====
-- The lengths of data that `decode:` of MXQRCodeDataCoder.m takes.
use sendingnetwork_ios.Common.{
  ℕ, zero, suc, ◌+◌, ◌-◌, ◌≤◌, ◌≡◌, refl, ◌⊎◌, Option, none, some, List, [], ◌∷◌, length, take,
  drop, ltb, eqb, arith, Bool-cases, inl, inr,
}
use sendingnetwork_ios.QrCode.{
  VerificationMode, QrCodeData, Codec, read, decode_body, decode_id, decode, big_endian,
  mode_of_raw, first_byte,
}

-- What is read and what is left make up the stream, and no more than asked for is read.
read-lengths :
    (n : ℕ) (unread stream : List ℕ)
    → ((read n unread stream).count + length (read n unread stream).rest ≡ length stream)
      × ((read n unread stream).count ≤ n)
      × ((n ≤ (read n unread stream).count) ⊎ (length (read n unread stream).rest ≡ 0))
unfolding read
read-lengths zero unread stream = (omega arith, omega arith, inl (omega arith))
read-lengths (suc n) unread [] = (omega arith, omega arith, inr refl)
read-lengths (suc n) unread (b ∷ stream) =
    let (all, most, full) = read-lengths n unread stream in
    (
      omega (arith, all),
      omega (arith, most),
      elim full [ inl h ↦ inl (omega (arith, h)) | inr h ↦ inr h ],
    )

-- A transaction id of n bytes, two keys and a secret of 8 bytes.
decode_body-length :
    (codec : Codec) (stack : ℕ → List ℕ) (mode : VerificationMode) (n : ℕ) (stream : List ℕ)
    (q : QrCodeData) (all total : ℕ)
    → all ≡ total + length stream
    → decode_body codec stack mode all total n stream ≡ some q
    → n + 72 ≤ length stream
unfolding decode_body
decode_body-length codec stack mode n stream q all total whole h =
    let id = read n (stack 4) stream in
    let first_key = read 32 (stack 5) id.rest in
    let second_key = read 32 (stack 6) first_key.rest in
    let remaining = all - (total + id.count + first_key.count + second_key.count) in
    let (a0, a1, a2) = read-lengths n (stack 4) stream in
    let (b0, b1, b2) = read-lengths 32 (stack 5) id.rest in
    let (c0, c1, c2) = read-lengths 32 (stack 6) first_key.rest in
    elim (Bool-cases (ltb remaining 8)) [
      | inl short ↦ absurd (ground (arith, short, h))
      | inr long ↦
          let enough : 8 ≤ remaining = ground (arith, long) in
          omega (arith, enough, a0, a1, a2, b0, b1, b2, c0, c1, c2, whole)
    ]

decode_id-length :
    (codec : Codec) (stack : ℕ → List ℕ) (bytes : List ℕ) (total : ℕ) (stream : List ℕ)
    (mode : Option VerificationMode) (q : QrCodeData)
    → length bytes ≡ total + length stream
    → decode_id codec stack bytes total stream mode ≡ some q
    → 75 ≤ length stream
unfolding decode_id
decode_id-length codec stack bytes total stream none q whole h = absurd (cc)
decode_id-length codec stack bytes total stream (some mode) q whole h =
    let id_length = read 2 (stack 3) stream in
    let n = big_endian (take 2 (drop total bytes)) in
    let (a0, a1, a2) = read-lengths 2 (stack 3) stream in
    elim (Bool-cases (eqb n 0)) [
      | inl nothing ↦ absurd (ground (arith, nothing, h))
      | inr id ↦
          let some_id : 1 ≤ n = ground (arith, id) in
          let taken : decode_body codec stack mode (length bytes) (total + id_length.count) n
                id_length.rest
              ≡ some q =
            rw (decode_id, id) at h in
          let rest : n + 72 ≤ length id_length.rest =
            decode_body-length codec stack mode n id_length.rest q (length bytes)
              (total + id_length.count) (omega (arith, a0, whole)) taken in
          omega (arith, some_id, a0, a1, a2, rest)
    ]

-- Data that `decode:` takes has at least 83 bytes, whatever its buffers held before.
pub decode-length :
    (codec : Codec) (stack : ℕ → List ℕ) (bytes : List ℕ) (q : QrCodeData)
    → decode codec stack bytes ≡ some q
    → 83 ≤ length bytes
unfolding decode
decode-length codec stack bytes q h =
    let prefix = read 6 (stack 0) bytes in
    let version = read 1 (stack 1) prefix.rest in
    let mode = read 1 (stack 2) version.rest in
    let (a0, a1, a2) = read-lengths 6 (stack 0) bytes in
    let (b0, b1, b2) = read-lengths 1 (stack 1) prefix.rest in
    let (c0, c1, c2) = read-lengths 1 (stack 2) version.rest in
    let header = prefix.count + version.count + mode.count in
    let taken : decode_id codec stack bytes header mode.rest (mode_of_raw (first_byte mode.buffer))
        ≡ some q =
      ground (arith, h) in
    let rest : 75 ≤ length mode.rest =
      decode_id-length codec stack bytes header mode.rest (mode_of_raw (first_byte mode.buffer)) q
        (omega (arith, a0, b0, c0)) taken in
    omega (arith, a0, a1, a2, b0, b1, b2, c0, c1, c2, rest)
