-- ===== src/Json.antt =====
-- JSON values and the base class of the models, SDNSDK/JSONModels/MXJSONModel.h and .m.
-- Numbers are taken to be whole or Boolean. A dictionary that stands inside a value is a `Fields`
-- of its own, and `entries` and `fields` translate it from and to a `Dict`.
pub mod Setters
pub mod Nulls
pub mod NullFree
pub mod Writers
pub mod ReadBack
mod Tests
use sendingnetwork_ios.Common.{
  ℕ, String, Bool, true, false, Option, none, some, List, [], ◌∷◌, ◌≡◌, refl, ap, ◌==◌,
  if◌then◌else◌,
}
use sendingnetwork_ios.Common.Int.{ℤ}
use sendingnetwork_ios.Common.Dict.{Dict}

-- NSNumber
pub data Number : Type 0 where
  integer : ℤ → Number
  boolean : Bool → Number

mutual
  pub data Json : Type 0 where
    null : Json
    text : String → Json
    number : Number → Json
    array : Items → Json
    dictionary : Fields → Json

  pub data Items : Type 0 where
    nil : Items
    cons : Json → Items → Items

  pub data Fields : Type 0 where
    end : Fields
    field : String → Json → Fields → Fields

unfoldable pub entries : Fields → Dict Json
entries end = []
entries (field k v f) = (k, v) ∷ entries f

unfoldable pub fields : Dict Json → Fields
fields [] = end
fields ((k, v) ∷ d) = field k v (fields d)

unfoldable pub elements : Items → List Json
elements nil = []
elements (cons x xs) = x ∷ elements xs

unfoldable pub items : List Json → Items
items [] = nil
items (x ∷ xs) = cons x (items xs)

pub entries-fields : (d : Dict Json) → entries (fields d) ≡ d
unfolding entries fields
entries-fields [] = refl
entries-fields ((k, v) ∷ d) = ap (◌∷◌ (k, v)) (entries-fields d)

pub elements-items : (xs : List Json) → elements (items xs) ≡ xs
unfolding elements items
elements-items [] = refl
elements-items (x ∷ xs) = ap (◌∷◌ x) (elements-items xs)

abbrev pub keep_field : String → Option Json → Fields → Fields
keep_field k none f = f
keep_field k (some v) f = field k v f

-- What stands for a value that is null or holds null, under its key; `none` takes the entry away.
-- Arrays in arrays are left as they are.
unfoldable mutual
  pub clean : String → Json → Option Json
  clean key null = if key == "m.server_notice" then some (dictionary end) else none
  clean key (text s) = some (text s)
  clean key (number n) = some (number n)
  clean key (array xs) = some (array (clean_items xs))
  clean key (dictionary f) = some (dictionary (clean_fields f))

  pub clean_items : Items → Items
  clean_items nil = nil
  clean_items (cons null xs) = cons null (clean_items xs)
  clean_items (cons (text s) xs) = cons (text s) (clean_items xs)
  clean_items (cons (number n) xs) = cons (number n) (clean_items xs)
  clean_items (cons (array ys) xs) = cons (array ys) (clean_items xs)
  clean_items (cons (dictionary f) xs) = cons (dictionary (clean_fields f)) (clean_items xs)

  pub clean_fields : Fields → Fields
  clean_fields end = end
  clean_fields (field k v f) = keep_field k (clean k v) (clean_fields f)

abbrev pub keep : String → Option Json → Dict Json → Dict Json
keep k none d = d
keep k (some v) d = (k, v) ∷ d

unfoldable pub remove_null_values_in_json : Dict Json → Dict Json
remove_null_values_in_json [] = []
remove_null_values_in_json ((k, v) ∷ d) = keep k (clean k v) (remove_null_values_in_json d)
