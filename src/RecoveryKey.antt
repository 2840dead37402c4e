-- ===== src/RecoveryKey.antt =====
-- SDNSDK/Crypto/KeyBackup/MXRecoveryKey.m: a private key as the text that a user writes down. Base58
-- is libbase58's, the white spaces are regular expressions' work, and the length of a key is
-- OLMKit's: parameters. Bytes are numbers below 256.
pub mod Parity
pub mod RoundTrip
mod Tests
use Prim.Native.Nat.{bit_xor}
use sendingnetwork_ios.Common.{
  ℕ, zero, suc, ◌+◌, String, Bool, true, false, Option, none, some, List, [], ◌∷◌, ◌++◌, ◌&&◌, not,
  if◌then◌else◌, eqb, length, drop, take, ◌-◌,
}

pub record Format : Type 0 where
  pub encode_base58 : List ℕ → String
  pub decode_base58 : String → Option (List ℕ)
  pub add_white_spaces : String → String
  pub remove_white_spaces : String → String
  pub private_key_length : ℕ

pub data RecoveryKeyError : Type 0 where
  base58_code parity_code header_code length_code : RecoveryKeyError

-- The data, or the error that is set beside nil.
pub data Decoded : Type 0 where
  decoded : List ℕ → Decoded
  failed : RecoveryKeyError → Decoded

-- kOlmRecoveryKeyPrefix
abbrev pub prefix : List ℕ
prefix = 0x8B ∷ 0x01 ∷ []

-- `parity ^= bytes[i]` over all bytes.
unfoldable pub parity : ℕ → List ℕ → ℕ
parity p [] = p
parity p (b ∷ bytes) = parity (bit_xor p b) bytes

abbrev pub with_parity : List ℕ → List ℕ
with_parity buffer = buffer ++ (parity 0 buffer ∷ [])

unfoldable pub encode : Format → List ℕ → String
encode f key = f.add_white_spaces (f.encode_base58 (with_parity (prefix ++ key)))

abbrev pub has_header : List ℕ → Bool
has_header (a ∷ b ∷ _) = eqb a 0x8B && eqb b 0x01
has_header _ = false

-- The bytes between the header and the checksum.
abbrev pub payload : List ℕ → List ℕ
payload result = let rest = drop 2 result in take (length rest - 1) rest

abbrev pub checked : ℕ → List ℕ → Decoded
checked key_length result =
    if not (eqb (length result) (2 + key_length + 1))
    then failed length_code
    else if not (eqb (parity 0 result) 0)
    then failed parity_code
    else if not (has_header result)
    then failed header_code
    else decoded (payload result)

abbrev decode_result : ℕ → Option (List ℕ) → Decoded
decode_result key_length none = failed base58_code
decode_result key_length (some result) = checked key_length result

unfoldable pub decode : Format → String → Decoded
decode f recovery_key =
    decode_result f.private_key_length (f.decode_base58 (f.remove_white_spaces recovery_key))
