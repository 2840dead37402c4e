-- ===== src/Json/Setters.antt =====
-- The setters that are macros in SDNSDK/JSONModels/MXJSONModel.h. Each takes the variable's value
-- before, and leaves it when the JSON value is nil or of another class; the log is left out.
use sendingnetwork_ios.Common.{
  ℕ, suc, ◌-◌, ◌%◌, ◌^◌, String, Bool, not, Option, none, some, List, [], ◌∷◌, ltb, if◌then◌else◌,
}
use sendingnetwork_ios.Common.Int.{ℤ, pos, negsuc, eqb_ℤ}
use sendingnetwork_ios.Common.Dict.{Dict}
use sendingnetwork_ios.Json.{
  Number, integer, boolean, Json, text, number, array, dictionary, entries, elements, nil,
}

-- A call that may raise an exception.
pub data Outcome {ℓ} (A : Type ℓ) : Type ℓ where
  raised : Outcome A
  returned : A → Outcome A

infixl 5 ◌>>=◌
abbrev pub ◌>>=◌ {ℓ κ} : {A : Type ℓ} {B : Type κ} → Outcome A → (A → Outcome B) → Outcome B
◌>>=◌ raised f = raised
◌>>=◌ (returned a) f = f a

-- The word of 64 bits that stands for an integer.
abbrev pub word : ℤ → ℕ
word (pos n) = n % 2 ^ 64
word (negsuc n) = 2 ^ 64 - suc (n % 2 ^ 64)

abbrev signed : ℕ → ℤ
signed w = if ltb w (2 ^ 63) then pos w else negsuc (2 ^ 64 - suc w)

-- boolValue, integerValue; unsignedIntegerValue and unsignedLongLongValue
unfoldable pub bool_value : Number → Bool
bool_value (integer n) = not (eqb_ℤ n (pos 0))
bool_value (boolean b) = b

unfoldable pub integer_value : Number → ℤ
integer_value (integer n) = signed (word n)
integer_value (boolean b) = if b then pos 1 else pos 0

unfoldable pub unsigned_value : Number → ℕ
unsigned_value (integer n) = word n
unsigned_value (boolean b) = if b then 1 else 0

-- MXJSONModelSetString, Number, Array and Dictionary: MXJSONModelSet with the class
unfoldable pub set_string : Option String → Option Json → Option String
set_string before (some (text s)) = some s
set_string before _ = before

unfoldable pub set_number : Option Number → Option Json → Option Number
set_number before (some (number n)) = some n
set_number before _ = before

unfoldable pub set_array : Option (List Json) → Option Json → Option (List Json)
set_array before (some (array xs)) = some (elements xs)
set_array before _ = before

unfoldable pub set_dictionary : Option (Dict Json) → Option Json → Option (Dict Json)
set_dictionary before (some (dictionary f)) = some (entries f)
set_dictionary before _ = before

-- MXJSONModelSetNumberValue
unfoldable pub set_number_value {ℓ} : {A : Type ℓ} → A → (Number → A) → Option Json → A
set_number_value before method (some (number n)) = method n
set_number_value before method _ = before

unfoldable pub set_boolean : Bool → Option Json → Bool
unfolding set_number_value
set_boolean before = set_number_value before bool_value

unfoldable pub set_integer : ℤ → Option Json → ℤ
unfolding set_number_value
set_integer before = set_number_value before integer_value

-- MXJSONModelSetUInteger; MXJSONModelSetUInt64 is the same on 64 bits
unfoldable pub set_unsigned : ℕ → Option Json → ℕ
unfolding set_number_value
set_unsigned before = set_number_value before unsigned_value

module _ {ℓ} {A : Type ℓ} where
  -- MXJSONModelSetMXJSONModel; what modelFromJSON: returns may be nil, and is then set as well.
  unfoldable pub set_model :
      Option A → (Dict Json → Outcome (Option A)) → Option Json → Outcome (Option A)
  set_model before model_from_json (some (dictionary f)) = model_from_json (entries f)
  set_model before model_from_json _ = returned before

  -- A class whose modelFromJSON: always returns an instance.
  abbrev pub always : (Dict Json → A) → Dict Json → Outcome (Option A)
  always model_from_json json = returned (some (model_from_json json))

  -- The same, of a call that may raise.
  abbrev pub made : (Dict Json → Outcome A) → Dict Json → Outcome (Option A)
  made model_from_json json = do a ← model_from_json json; returned (some a)

  -- A class whose modelFromJSON: may return nil and raises nothing.
  abbrev pub perhaps : (Dict Json → Option A) → Dict Json → Outcome (Option A)
  perhaps model_from_json json = returned (model_from_json json)

  -- nil until the first model is added
  abbrev pub add_model : Option A → Option (List A) → Option (List A)
  add_model none models = models
  add_model (some model) none = some (model ∷ [])
  add_model (some model) (some models) = some (model ∷ models)

  -- modelsFromJSON: an item that is no dictionary does not understand the keys it is asked for.
  unfoldable pub models_from_json :
      (Dict Json → Outcome (Option A)) → List Json → Outcome (Option (List A))
  models_from_json model_from_json [] = returned none
  models_from_json model_from_json (dictionary f ∷ xs) = do
    model ← model_from_json (entries f)
    models ← models_from_json model_from_json xs
    returned (add_model model models)
  models_from_json model_from_json (_ ∷ xs) = raised

  -- MXJSONModelSetMXJSONModelArray
  unfoldable pub set_models :
      Option (List A) → (Dict Json → Outcome (Option A)) → Option Json → Outcome (Option (List A))
  set_models before model_from_json (some (array xs)) =
      models_from_json model_from_json (elements xs)
  set_models before model_from_json _ = returned before

-- What `value[key]` reads from: nil has nothing under any key, and no other class than a dictionary
-- understands the message.
abbrev pub subscripted : Option Json → Outcome (Dict Json)
subscripted none = returned []
subscripted (some (dictionary f)) = returned (entries f)
subscripted (some _) = raised

-- What `for (item in value)` goes through.
abbrev pub keys_as_text : Dict Json → List Json
keys_as_text [] = []
keys_as_text ((k, v) ∷ d) = text k ∷ keys_as_text d

abbrev pub enumerated : Option Json → Outcome (List Json)
enumerated none = returned []
enumerated (some (array xs)) = returned (elements xs)
enumerated (some (dictionary f)) = returned (keys_as_text (entries f))
enumerated (some _) = raised

-- What `for (key in value) … value[key]` goes through, of a value that may be nil: the items of an array
-- are no keys of it.
abbrev pub looked_up : Option Json → Outcome (Dict Json)
looked_up none = returned []
looked_up (some (dictionary f)) = returned (entries f)
looked_up (some (array nil)) = returned []
looked_up (some _) = raised

module _ {ℓ} {A : Type ℓ} where
  -- `for (key in value) MXJSONModelSetMXJSONModel(map[key], class, value[key])` of a dictionary: a
  -- value that is no dictionary, or whose model is nil, sets nothing.
  unfoldable pub models_by_key : (Dict Json → Outcome (Option A)) → Dict Json → Outcome (Dict A)
  models_by_key model_from_json [] = returned []
  models_by_key model_from_json ((k, v) ∷ d) = do
    model ← set_model none model_from_json (some v)
    models ← models_by_key model_from_json d
    returned (with_key k model models)
    where
      with_key : String → Option A → Dict A → Dict A
      with_key k none models = models
      with_key k (some model) models = (k, model) ∷ models
