-- ===== src/Json/Writers.antt =====
-- What the JSONDictionary methods write, and what the setters read of it.
use sendingnetwork_ios.Common.{
  ℕ, ◌%◌, ◌^◌, ◌<◌, String, ◌≡◌, refl, ap, Bool, false, Option, none, some, List, map, arith, ◌==◌,
  if◌then◌else◌,
}
use sendingnetwork_ios.Common.Dict.{Dict, lookup, insert, remove, lookup-insert, lookup-remove}
use sendingnetwork_ios.Common.Int.{ℤ, pos, negsuc}
use sendingnetwork_ios.Json.{
  integer, boolean, Json, text, number, array, dictionary, fields, items, entries-fields,
  elements-items,
}
use sendingnetwork_ios.Json.Setters.{
  bool_value, integer_value, unsigned_value, set_string, set_array, set_dictionary, set_boolean,
  set_integer, set_unsigned,
}

-- JSONDictionary[key] = value; nil removes the key.
unfoldable pub put : String → Option Json → Dict Json → Dict Json
put key none json = remove key json
put key (some value) json = insert key value json

pub lookup-put :
    (key j : String) (value : Option Json) (json : Dict Json)
    → lookup j (put key value json) ≡ (if key == j then value else lookup j json)
unfolding put
lookup-put key j none json = lookup-remove key j json
lookup-put key j (some value) json = lookup-insert key j value json

unfoldable pub as_text : Option String → Option Json
as_text none = none
as_text (some s) = some (text s)

unfoldable pub as_dictionary : Option (Dict Json) → Option Json
as_dictionary none = none
as_dictionary (some d) = some (dictionary (fields d))

unfoldable pub as_array : Option (List Json) → Option Json
as_array none = none
as_array (some xs) = some (array (items xs))

unfoldable pub as_boolean : Bool → Option Json
as_boolean b = some (number (boolean b))

unfoldable pub as_integer : ℤ → Option Json
as_integer n = some (number (integer n))

unfoldable pub as_unsigned : ℕ → Option Json
as_unsigned n = some (number (integer (pos n)))

-- `if (model) JSONDictionary[key] = model.JSONDictionary`
abbrev pub as_model {ℓ} : {A : Type ℓ} → (A → Dict Json) → Option A → Option Json
as_model model_json none = none
as_model model_json (some a) = some (dictionary (fields (model_json a)))

-- `for (model in models) [array addObject:model.JSONDictionary]`
abbrev pub models_json {ℓ} : {A : Type ℓ} → (A → Dict Json) → List A → List Json
models_json model_json = map (λ a. dictionary (fields (model_json a)))

pub set_string-as_text : (o : Option String) → set_string none (as_text o) ≡ o
unfolding set_string as_text
set_string-as_text none = refl
set_string-as_text (some s) = refl

pub set_dictionary-as_dictionary :
    (o : Option (Dict Json)) → set_dictionary none (as_dictionary o) ≡ o
unfolding set_dictionary as_dictionary
set_dictionary-as_dictionary none = refl
set_dictionary-as_dictionary (some d) = ap some (entries-fields d)

pub set_array-as_array : (o : Option (List Json)) → set_array none (as_array o) ≡ o
unfolding set_array as_array
set_array-as_array none = refl
set_array-as_array (some xs) = ap some (elements-items xs)

pub set_boolean-as_boolean : (b : Bool) → set_boolean false (as_boolean b) ≡ b
unfolding set_boolean as_boolean bool_value
set_boolean-as_boolean b = refl

-- An NSInteger, of 64 bits.
abbrev pub IsInteger : ℤ → Type 0
IsInteger (pos n) = n < 2 ^ 63
IsInteger (negsuc n) = n < 2 ^ 63

-- An NSUInteger or a uint64_t.
abbrev pub IsWord : ℕ → Type 0
IsWord n = n < 2 ^ 64

pub set_unsigned-as_unsigned : (before n : ℕ) → IsWord n → set_unsigned before (as_unsigned n) ≡ n
unfolding set_unsigned as_unsigned unsigned_value
set_unsigned-as_unsigned before n h = ground arith

pub integer_value-integer : (n : ℤ) → IsInteger n → integer_value (integer n) ≡ n
unfolding integer_value
integer_value-integer (pos n) h = let e : n % 2 ^ 64 ≡ n = omega arith in rw e (ground arith)
integer_value-integer (negsuc n) h = let e : n % 2 ^ 64 ≡ n = omega arith in rw e (ground arith)

pub set_integer-as_integer : (n : ℤ) → IsInteger n → set_integer (pos 0) (as_integer n) ≡ n
unfolding set_integer as_integer
set_integer-as_integer n h = integer_value-integer n h

-- What reads a dictionary that was written key by key, all but the bounded numbers.
pub ruleset json_laws = (
  lookup-put, set_string-as_text, set_array-as_array, set_dictionary-as_dictionary,
  set_boolean-as_boolean,
)
