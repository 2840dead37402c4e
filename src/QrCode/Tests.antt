-- ===== src/QrCode/Tests.antt =====
-- A QR code with a conversion that stands in for base64 and ASCII.
use sendingnetwork_ios.Common.{ℕ, ◌≡◌, ◌≤◌, refl, some, List, [], ◌∷◌, length, arith}
use sendingnetwork_ios.QrCode.{verifying_another_user, QrCodeData, Codec, encode, decode}
use sendingnetwork_ios.QrCode.RoundTrip.{Encodes, decode-encode}
use sendingnetwork_ios.QrCode.Lengths.{decode-length}

abbrev zeros : ℕ → List ℕ
zeros ℕ.zero = []
zeros (ℕ.suc n) = 0 ∷ zeros n

-- One id of three characters, and one key.
abbrev codec : Codec
codec = record {
  ascii_data = λ _. 36 ∷ 105 ∷ 100 ∷ [];
  ascii_string = λ _. "$id";
  text_length = λ _. 3;
  data_from_base64 = λ _. zeros 32;
  unpadded_base64_from_data = λ _. "AAAA";
}

abbrev code : QrCodeData
code = record {
  verification_mode = verifying_another_user;
  transaction_id = "$id";
  first_key = "AAAA";
  second_key = "AAAA";
  shared_secret = 1 ∷ 2 ∷ 3 ∷ 4 ∷ 5 ∷ 6 ∷ 7 ∷ 8 ∷ [];
}

code-Encodes : Encodes codec code
code-Encodes = record {
  id_read_back = refl;
  id_length = refl;
  id_not_empty = omega arith;
  id_bound = omega arith;
  first_read_back = refl;
  first_length = refl;
  second_read_back = refl;
  second_length = refl;
  secret_length = omega arith;
}

decode-encode_example : decode codec (λ _. 9 ∷ 9 ∷ []) (encode codec code) ≡ some code
decode-encode_example = decode-encode codec (λ _. 9 ∷ 9 ∷ []) code code-Encodes

decode-length_example : 83 ≤ length (encode codec code)
decode-length_example =
    decode-length codec (λ _. []) (encode codec code) code
      (decode-encode codec (λ _. []) code code-Encodes)
