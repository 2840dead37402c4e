-- ===== src/QrCode.antt =====
-- SDNSDK/Crypto/Verification/Data/MXQRCodeDataCoder.m and MXQRCodeDataBuilder.m: the bytes of a QR
-- code. Base64 and ASCII conversions are Foundation's, a parameter. A buffer on the stack holds
-- unknown bytes before it is read into, another parameter; a stream of data never fails to read.
pub mod RoundTrip
pub mod Lengths
mod Tests
use sendingnetwork_ios.Common.{
  ℕ, zero, suc, ◌+◌, ◌-◌, ◌*◌, ◌/◌, ◌%◌, ◌^◌, String, Bool, true, false, Option, none, some, List,
  [], ◌∷◌, ◌++◌, ◌&&◌, not, if◌then◌else◌, ltb, leb, eqb, length, take, drop,
}

-- MXQRCodeVerificationMode
pub data VerificationMode : Type 0 where
  verifying_another_user self_verifying_master_key_trusted : VerificationMode
  self_verifying_master_key_not_trusted : VerificationMode

pub record QrCodeData : Type 0 where
  pub verification_mode : VerificationMode
  pub transaction_id : String
  pub first_key : String
  pub second_key : String
  pub shared_secret : List ℕ

-- `dataUsingEncoding:` and `initWithBytes:length:encoding:` for ASCII, the length of a text, and
-- the two functions of MXBase64Tools over NSData.
pub record Codec : Type 0 where
  pub ascii_data : String → List ℕ
  pub ascii_string : List ℕ → String
  pub text_length : String → ℕ
  pub data_from_base64 : String → List ℕ
  pub unpadded_base64_from_data : List ℕ → String

-- "MATRIX"
abbrev pub prefix_data : List ℕ
prefix_data = 77 ∷ 65 ∷ 84 ∷ 82 ∷ 73 ∷ 88 ∷ []

abbrev pub raw_mode : VerificationMode → ℕ
raw_mode verifying_another_user = 0
raw_mode self_verifying_master_key_trusted = 1
raw_mode self_verifying_master_key_not_trusted = 2

abbrev pub mode_of_raw : ℕ → Option VerificationMode
mode_of_raw zero = some verifying_another_user
mode_of_raw (suc zero) = some self_verifying_master_key_trusted
mode_of_raw (suc (suc zero)) = some self_verifying_master_key_not_trusted
mode_of_raw _ = none

abbrev pub is_key_valid : Codec → String → Bool
is_key_valid codec key = eqb (length (codec.data_from_base64 key)) 32

abbrev pub is_shared_secret_valid : List ℕ → Bool
is_shared_secret_valid secret = leb 8 (length secret)

unfoldable pub build_qr_code_data :
    Codec → VerificationMode → String → String → String → List ℕ → Option QrCodeData
build_qr_code_data codec mode transaction_id first_key second_key shared_secret =
    if not (is_key_valid codec first_key)
    then none
    else if not (is_key_valid codec second_key)
    then none
    else if not (is_shared_secret_valid shared_secret)
    then none
    else some (record {
      verification_mode = mode;
      transaction_id = transaction_id;
      first_key = first_key;
      second_key = second_key;
      shared_secret = shared_secret;
    })

-- The version is 2; the length of the id is stored in 16 bits, the higher byte first.
unfoldable pub encode : Codec → QrCodeData → List ℕ
encode codec q =
    prefix_data
    ++ (2
        ∷ raw_mode q.verification_mode
        ∷ (codec.text_length q.transaction_id % 2 ^ 16 / 256)
        ∷ (codec.text_length q.transaction_id % 256)
        ∷ (codec.ascii_data q.transaction_id
            ++ (codec.data_from_base64 q.first_key
                ++ (codec.data_from_base64 q.second_key ++ q.shared_secret))))

abbrev pub same_bytes : List ℕ → List ℕ → Bool
same_bytes [] [] = true
same_bytes (x ∷ xs) (y ∷ ys) = eqb x y && same_bytes xs ys
same_bytes _ _ = false

-- `read:maxLength:` into a buffer: what the buffer then holds, the rest of the stream, and how many
-- bytes were read.
pub record Read : Type 0 where
  pub buffer : List ℕ
  pub rest : List ℕ
  pub count : ℕ

unfoldable pub read : ℕ → List ℕ → List ℕ → Read
read n unread stream = record {
  buffer = take n (stream ++ unread);
  rest = drop n stream;
  count = length (take n stream);
}

abbrev pub first_byte : List ℕ → ℕ
first_byte [] = 0
first_byte (b ∷ _) = b

abbrev pub big_endian : List ℕ → ℕ
big_endian (a ∷ b ∷ _) = a * 256 + b
big_endian _ = 0

-- From the transaction id on, with the count of bytes read before it.
unfoldable pub decode_body :
    Codec → (ℕ → List ℕ) → VerificationMode → ℕ → ℕ → ℕ → List ℕ → Option QrCodeData
decode_body codec stack mode data_byte_count total transaction_id_length stream =
    let id = read transaction_id_length (stack 4) stream in
    let first_key = read 32 (stack 5) id.rest in
    let second_key = read 32 (stack 6) first_key.rest in
    let remaining = data_byte_count - (total + id.count + first_key.count + second_key.count) in
    let shared_secret = take remaining second_key.rest in
    if ltb remaining 8
    then none
    else build_qr_code_data codec mode (codec.ascii_string id.buffer)
        (codec.unpadded_base64_from_data first_key.buffer)
        (codec.unpadded_base64_from_data second_key.buffer) shared_secret

-- The length of the id is read from the data again, at the place where its stream stands.
unfoldable pub decode_id :
    Codec → (ℕ → List ℕ) → List ℕ → ℕ → List ℕ → Option VerificationMode → Option QrCodeData
unfolding decode_body
decode_id codec stack bytes total stream none = none
decode_id codec stack bytes total stream (some mode) =
    let id_length = read 2 (stack 3) stream in
    let transaction_id_length = big_endian (take 2 (drop total bytes)) in
    if eqb transaction_id_length 0
    then none
    else decode_body codec stack mode (length bytes) (total + id_length.count) transaction_id_length
        id_length.rest

unfoldable pub decode : Codec → (ℕ → List ℕ) → List ℕ → Option QrCodeData
unfolding decode_id
decode codec stack bytes =
    let prefix = read 6 (stack 0) bytes in
    let version = read 1 (stack 1) prefix.rest in
    let mode = read 1 (stack 2) version.rest in
    if ltb (length bytes) 10
    then none
    else if not (same_bytes prefix_data prefix.buffer)
    then none
    else if not (eqb (first_byte version.buffer) 2)
    then none
    else decode_id codec stack bytes (prefix.count + version.count + mode.count) mode.rest
        (mode_of_raw (first_byte mode.buffer))
