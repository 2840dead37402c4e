-- ===== src/RecoveryKey/Tests.antt =====
-- A key of two bytes, in a format that has one text for it and one for a miswritten one.
use sendingnetwork_ios.Common.{ℕ, ◌≡◌, refl, some, List, [], ◌∷◌, ◌==◌, if◌then◌else◌, arith}
use sendingnetwork_ios.RecoveryKey.{Format, decoded, failed, parity_code, parity, encode, decode}
use sendingnetwork_ios.RecoveryKey.RoundTrip.{decode-encode_key, decode_wrong_parity}

abbrev key : List ℕ
key = 7 ∷ 9 ∷ []

-- 0x8B, 0x01, 7, 9 and their exclusive or.
abbrev bytes : List ℕ
bytes = 139 ∷ 1 ∷ 7 ∷ 9 ∷ 132 ∷ []

abbrev format : Format
format = record {
  encode_base58 = λ _. "Es";
  decode_base58 = λ text. if text == "Es" then some bytes else some (139 ∷ 1 ∷ 7 ∷ 9 ∷ 133 ∷ []);
  add_white_spaces = λ text. text;
  remove_white_spaces = λ text. text;
  private_key_length = 2;
}

decode-encode_key_example : decode format (encode format key) ≡ decoded (7 ∷ 9 ∷ [])
unfolding parity
decode-encode_key_example = decode-encode_key format key refl refl

decode_wrong_parity_example : decode format "Et" ≡ failed parity_code
unfolding parity
decode_wrong_parity_example =
    decode_wrong_parity format "Et" key 133 refl refl (λ e. absurd (omega (arith, e)))
