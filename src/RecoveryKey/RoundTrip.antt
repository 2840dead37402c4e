-- ===== src/RecoveryKey/RoundTrip.antt =====
-- A recovery key read back, and the errors of a text that is none.
use sendingnetwork_ios.Common.{
  ℕ, ◌+◌, ◌-◌, ◌≡◌, ◌≢◌, refl, ap, ◌∙◌, String, true, false, some, List, [], ◌∷◌, ◌++◌, eqb, length,
  length-append, take, take-append, arith,
}
use sendingnetwork_ios.RecoveryKey.{
  Format, decoded, failed, parity_code, prefix, parity, with_parity, encode, decode, decode_result,
  checked, payload,
}
use sendingnetwork_ios.RecoveryKey.Parity.{parity-with_parity, parity_wrong}

payload-with_parity : (key : List ℕ) (b : ℕ) → payload (prefix ++ (key ++ (b ∷ []))) ≡ key
payload-with_parity key b =
    let n : length (key ++ (b ∷ [])) - 1 ≡ length key = omega (arith, length-append key (b ∷ [])) in
    ap (λ m. take m (key ++ (b ∷ []))) n ∙ take-append key (b ∷ [])

-- Any bytes after the header of the right length, with the right checksum.
checked-key :
    (key_length : ℕ) (key : List ℕ)
    → length key ≡ key_length
    → checked key_length (with_parity (prefix ++ key)) ≡ decoded key
checked-key key_length key h =
    let b = parity 0 (prefix ++ key) in
    let long : eqb (length (with_parity (prefix ++ key))) (2 + key_length + 1) ≡ true =
      ground (arith, length-append key (b ∷ []), h) in
    let even : eqb (parity 0 (with_parity (prefix ++ key))) 0 ≡ true =
      ap (λ p. eqb p 0) (parity-with_parity (prefix ++ key)) in
    rw (long, even) (ap decoded (payload-with_parity key b))

-- Where base58 and the white spaces read back the bytes of a key that they wrote, `decode:` of the
-- text that `encode:` makes of a key of the right length is the key.
pub decode-encode_key :
    (f : Format) (key : List ℕ)
    → f.decode_base58
        (f.remove_white_spaces (f.add_white_spaces (f.encode_base58 (with_parity (prefix ++ key)))))
      ≡ some (with_parity (prefix ++ key))
    → length key ≡ f.private_key_length
    → decode f (encode f key) ≡ decoded key
unfolding decode encode
decode-encode_key f key written h =
    ap (decode_result f.private_key_length) written ∙ checked-key f.private_key_length key h

-- A text whose bytes are those of a key of the right length but for the last one, the checksum, is
-- refused for its parity.
pub decode_wrong_parity :
    (f : Format) (text : String) (key : List ℕ) (b : ℕ)
    → f.decode_base58 (f.remove_white_spaces text) ≡ some (prefix ++ (key ++ (b ∷ [])))
    → length key ≡ f.private_key_length
    → b ≢ parity 0 (prefix ++ key)
    → decode f text ≡ failed parity_code
unfolding decode
decode_wrong_parity f text key b read h wrong =
    let long : eqb (length (prefix ++ (key ++ (b ∷ [])))) (2 + f.private_key_length + 1) ≡ true =
      ground (arith, length-append key (b ∷ []), h) in
    let odd = parity_wrong (prefix ++ key) b wrong in
    let refused : eqb (parity 0 (prefix ++ (key ++ (b ∷ [])))) 0 ≡ false = ground (arith, odd) in
    ap (decode_result f.private_key_length) read ∙ rw (long, refused) refl
