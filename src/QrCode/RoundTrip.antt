-- ===== src/QrCode/RoundTrip.antt =====
-- `decode:` of MXQRCodeDataCoder.m after `encode:`.
use sendingnetwork_ios.Common.{
  ℕ, ◌+◌, ◌-◌, ◌*◌, ◌/◌, ◌%◌, ◌^◌, ◌≤◌, ◌<◌, ◌≡◌, refl, sym, ap, ◌∙◌, true, false, some, List, [],
  ◌∷◌, ◌++◌, append_assoc, length, length-append, take, drop, take-append, drop-append, ltb, eqb,
  arith,
}
use sendingnetwork_ios.QrCode.{
  VerificationMode, verifying_another_user, QrCodeData, Codec, is_key_valid, build_qr_code_data,
  encode, read, decode_body, decode_id, decode, mode_of_raw, raw_mode, is_shared_secret_valid,
}

-- The whole of a part is read where a part of the length stands first in the stream.
read-append :
    (n : ℕ) (unread xs ys : List ℕ)
    → n ≡ length xs
    → read n unread (xs ++ ys) ≡ record { buffer = xs; rest = ys; count = n }
unfolding read
read-append n unread xs ys h =
    let buffer : take n ((xs ++ ys) ++ unread) ≡ xs =
      ap (take n) (append_assoc xs ys unread)
      ∙ ap (λ m. take m (xs ++ (ys ++ unread))) h
      ∙ take-append xs (ys ++ unread) in
    let rest : drop n (xs ++ ys) ≡ ys = ap (λ m. drop m (xs ++ ys)) h ∙ drop-append xs ys in
    let count : length (take n (xs ++ ys)) ≡ n =
      ap (λ m. length (take m (xs ++ ys))) h ∙ ap length (take-append xs ys) ∙ sym h in
    cc

take-length : (xs : List ℕ) (n : ℕ) → n ≡ length xs → take n xs ≡ xs
take-length xs n h = ap (λ m. take m xs) h ∙ whole xs
  where
    whole : (xs : List ℕ) → take (length xs) xs ≡ xs
    whole [] = refl
    whole (x ∷ xs) = ap (◌∷◌ x) (whole xs)

-- What can be encoded and read back: the id is text of 1 to 65535 ASCII characters, the keys are
-- base64 of 32 bytes, and the secret has 8 bytes or more.
pub record Encodes (codec : Codec) (q : QrCodeData) : Type 0 where
  pub id_read_back : codec.ascii_string (codec.ascii_data q.transaction_id) ≡ q.transaction_id
  pub id_length : codec.text_length q.transaction_id ≡ length (codec.ascii_data q.transaction_id)
  pub id_not_empty : 0 < codec.text_length q.transaction_id
  pub id_bound : codec.text_length q.transaction_id < 65536
  pub first_read_back :
      codec.unpadded_base64_from_data (codec.data_from_base64 q.first_key) ≡ q.first_key
  pub first_length : length (codec.data_from_base64 q.first_key) ≡ 32
  pub second_read_back :
      codec.unpadded_base64_from_data (codec.data_from_base64 q.second_key) ≡ q.second_key
  pub second_length : length (codec.data_from_base64 q.second_key) ≡ 32
  pub secret_length : 8 ≤ length q.shared_secret

build-Encodes :
    (codec : Codec) (q : QrCodeData)
    → Encodes codec q
    → build_qr_code_data codec q.verification_mode q.transaction_id q.first_key q.second_key
        q.shared_secret
      ≡ some q
unfolding build_qr_code_data
build-Encodes codec q v =
    let first : is_key_valid codec q.first_key ≡ true = ap (λ n. eqb n 32) v.first_length in
    let second : is_key_valid codec q.second_key ≡ true = ap (λ n. eqb n 32) v.second_length in
    let secret : is_shared_secret_valid q.shared_secret ≡ true =
      let h = v.secret_length in ground arith in
    rw (build_qr_code_data, first, second, secret) refl

abbrev body : Codec → QrCodeData → List ℕ
body codec q =
    codec.ascii_data q.transaction_id
    ++ (codec.data_from_base64 q.first_key
        ++ (codec.data_from_base64 q.second_key ++ q.shared_secret))

decode_body-body :
    (codec : Codec) (stack : ℕ → List ℕ) (q : QrCodeData) (n all : ℕ)
    → Encodes codec q
    → n ≡ length (codec.ascii_data q.transaction_id)
    → all ≡ 10 + length (body codec q)
    → decode_body codec stack q.verification_mode all 10 n (body codec q) ≡ some q
unfolding decode_body
decode_body-body codec stack q n all v h whole =
    let id = codec.ascii_data q.transaction_id in
    let k1 = codec.data_from_base64 q.first_key in
    let k2 = codec.data_from_base64 q.second_key in
    let secret = q.shared_secret in
    let remaining : all - (10 + n + 32 + 32) ≡ length secret = omega (
      arith,
      v.first_length,
      v.second_length,
      length-append id (k1 ++ (k2 ++ secret)),
      length-append k1 (k2 ++ secret),
      length-append k2 secret,
    ) in
    let enough : ltb (length secret) 8 ≡ false = let b = v.secret_length in ground arith in
    rw
      (
        decode_body,
        read-append n (stack 4) id (k1 ++ (k2 ++ secret)) h,
        read-append 32 (stack 5) k1 (k2 ++ secret) (sym v.first_length),
        read-append 32 (stack 6) k2 secret (sym v.second_length),
        remaining,
        enough,
        take-length secret (length secret) refl,
        v.id_read_back,
        v.first_read_back,
        v.second_read_back,
      )
      (build-Encodes codec q v)

decode_id-encode :
    (codec : Codec) (stack : ℕ → List ℕ) (q : QrCodeData)
    → Encodes codec q
    → decode_id codec stack
        (encode codec q)
        8
        ((codec.text_length q.transaction_id % 2 ^ 16 / 256)
          ∷ (codec.text_length q.transaction_id % 256)
          ∷ body codec q)
        (some q.verification_mode)
      ≡ some q
unfolding decode_id encode read
decode_id-encode codec stack q v =
    let n = codec.text_length q.transaction_id in
    let number : n % 2 ^ 16 / 256 * 256 + n % 256 ≡ n = let b = v.id_bound in omega arith in
    let some_id : eqb n 0 ≡ false = let b = v.id_not_empty in ground arith in
    rw (decode_id, encode, number, some_id)
      (decode_body-body codec stack q n (length (encode codec q)) v v.id_length (omega arith))

mode_of_raw-raw_mode : (m : VerificationMode) → mode_of_raw (raw_mode m) ≡ some m
mode_of_raw-raw_mode verifying_another_user = refl
mode_of_raw-raw_mode _ = refl

-- What `encode:` writes, `decode:` reads back, whatever its buffers held before, if the id is text
-- of 1 to 65535 ASCII characters, the keys are base64 of 32 bytes and the secret has at least 8
-- bytes.
pub decode-encode :
    (codec : Codec) (stack : ℕ → List ℕ) (q : QrCodeData)
    → Encodes codec q
    → decode codec stack (encode codec q) ≡ some q
unfolding decode encode read
decode-encode codec stack q v =
    let long : ltb (length (encode codec q)) 10 ≡ false = ground arith in
    rw (decode, long, mode_of_raw-raw_mode q.verification_mode) (decode_id-encode codec stack q v)
