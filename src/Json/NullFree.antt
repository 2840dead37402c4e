-- ===== src/Json/NullFree.antt =====
-- The dictionaries that MXJSONModel.m makes have no null values, and their other values are kept.
use sendingnetwork_ios.Common.{
  Bool, true, false, subst, String, Option, none, some, [], ◌∷◌, ◌≡◌, refl, ap, ◌==◌, ◌∙◌,
  if◌then◌else◌, map, sym,
}
use sendingnetwork_ios.Common.Dict.{Dict, lookup, IsDict}
use sendingnetwork_ios.Json.{
  entries, fields, elements, Json, null, text, number, array, dictionary, Items, nil, cons, Fields,
  end, field, clean, clean_items, clean_fields, keep_field, keep, remove_null_values_in_json,
}
use sendingnetwork_ios.Json.Nulls.{cleaned, lookup-remove_null_values_in_json}

-- A value that is not null and has no null value in a dictionary, at any depth but in arrays of
-- arrays. Null items of arrays are left in place.
abbrev mutual
  pub IsNullFree : Json → Type 0
  IsNullFree null = ⊥
  IsNullFree (text s) = Unit
  IsNullFree (number n) = Unit
  IsNullFree (array xs) = AreNullFree xs
  IsNullFree (dictionary f) = HasNoNull f

  pub AreNullFree : Items → Type 0
  AreNullFree nil = Unit
  AreNullFree (cons null xs) = AreNullFree xs
  AreNullFree (cons (text s) xs) = AreNullFree xs
  AreNullFree (cons (number n) xs) = AreNullFree xs
  AreNullFree (cons (array ys) xs) = AreNullFree xs
  AreNullFree (cons (dictionary f) xs) = HasNoNull f × AreNullFree xs

  pub HasNoNull : Fields → Type 0
  HasNoNull end = Unit
  HasNoNull (field k v f) = IsNullFree v × HasNoNull f

-- Of what stands for a value, if anything.
abbrev IsCleanValue : Option Json → Type 0
IsCleanValue none = Unit
IsCleanValue (some v) = IsNullFree v

keep_field-HasNoNull :
    (k : String) (v : Option Json) (f : Fields)
    → IsCleanValue v
    → HasNoNull f
    → HasNoNull (keep_field k v f)
keep_field-HasNoNull k none f hv hf = hf
keep_field-HasNoNull k (some v) f hv hf = (hv, hf)

notice-IsCleanValue : (b : Bool) → IsCleanValue (if b then some (dictionary end) else none)
notice-IsCleanValue true = tt
notice-IsCleanValue false = tt

mutual
  unfolding clean

  clean-IsCleanValue : (k : String) (v : Json) → IsCleanValue (clean k v)
  clean-IsCleanValue k null = notice-IsCleanValue (k == "m.server_notice")
  clean-IsCleanValue k (text s) = tt
  clean-IsCleanValue k (number n) = tt
  clean-IsCleanValue k (array xs) = clean_items-AreNullFree xs
  clean-IsCleanValue k (dictionary f) = clean_fields-HasNoNull f

  clean_items-AreNullFree : (xs : Items) → AreNullFree (clean_items xs)
  clean_items-AreNullFree nil = tt
  clean_items-AreNullFree (cons null xs) = clean_items-AreNullFree xs
  clean_items-AreNullFree (cons (text s) xs) = clean_items-AreNullFree xs
  clean_items-AreNullFree (cons (number n) xs) = clean_items-AreNullFree xs
  clean_items-AreNullFree (cons (array ys) xs) = clean_items-AreNullFree xs
  clean_items-AreNullFree (cons (dictionary f) xs) =
      (clean_fields-HasNoNull f, clean_items-AreNullFree xs)

  clean_fields-HasNoNull : (f : Fields) → HasNoNull (clean_fields f)
  clean_fields-HasNoNull end = tt
  clean_fields-HasNoNull (field k v f) =
      keep_field-HasNoNull k (clean k v) (clean_fields f) (clean-IsCleanValue k v)
        (clean_fields-HasNoNull f)

fields-keep :
    (k : String) (v : Option Json) (d : Dict Json) → fields (keep k v d) ≡ keep_field k v (fields d)
unfolding fields
fields-keep k none d = refl
fields-keep k (some v) d = refl

-- A dictionary in a dictionary is cleaned as the outer one is.
clean_fields-fields :
    (f : Fields) → clean_fields f ≡ fields (remove_null_values_in_json (entries f))
unfolding clean remove_null_values_in_json entries fields
clean_fields-fields end = refl
clean_fields-fields (field k v f) =
    ap (keep_field k (clean k v)) (clean_fields-fields f)
    ∙ sym (fields-keep k (clean k v) (remove_null_values_in_json (entries f)))

-- An item of an array: only a dictionary is cleaned.
abbrev pub cleaned_item : Json → Json
cleaned_item (dictionary f) = dictionary (fields (remove_null_values_in_json (entries f)))
cleaned_item v = v

elements-clean_items : (xs : Items) → elements (clean_items xs) ≡ map cleaned_item (elements xs)
unfolding clean elements
elements-clean_items nil = refl
elements-clean_items (cons null xs) = ap (◌∷◌ null) (elements-clean_items xs)
elements-clean_items (cons (text s) xs) = ap (◌∷◌ (text s)) (elements-clean_items xs)
elements-clean_items (cons (number n) xs) = ap (◌∷◌ (number n)) (elements-clean_items xs)
elements-clean_items (cons (array ys) xs) = ap (◌∷◌ (array ys)) (elements-clean_items xs)
elements-clean_items (cons (dictionary f) xs) =
    rw (clean_fields-fields f, elements-clean_items xs) refl

-- What is left under a key of what was there.
abbrev pub IsLeft : String → Option Json → Option Json → Type 0
IsLeft key none after = after ≡ none
IsLeft key (some null) after =
    after ≡ (if key == "m.server_notice" then some (dictionary end) else none)
IsLeft key (some (text s)) after = after ≡ some (text s)
IsLeft key (some (number n)) after = after ≡ some (number n)
IsLeft key (some (array xs)) after =
    (ys : Items) × (after ≡ some (array ys)) × (elements ys ≡ map cleaned_item (elements xs))
IsLeft key (some (dictionary f)) after =
    after ≡ some (dictionary (fields (remove_null_values_in_json (entries f))))

cleaned-IsLeft :
    (key : String) (before after : Option Json)
    → after ≡ cleaned key before
    → IsLeft key before after
unfolding clean
cleaned-IsLeft key none after h = h
cleaned-IsLeft key (some null) after h = h
cleaned-IsLeft key (some (text s)) after h = h
cleaned-IsLeft key (some (number n)) after h = h
cleaned-IsLeft key (some (array xs)) after h = (clean_items xs, h, elements-clean_items xs)
cleaned-IsLeft key (some (dictionary f)) after h =
    h ∙ ap (λ g. some (dictionary g)) (clean_fields-fields f)

removed-HasNoNull : (d : Dict Json) → HasNoNull (fields (remove_null_values_in_json d))
unfolding remove_null_values_in_json fields
removed-HasNoNull [] = tt
removed-HasNoNull ((k, v) ∷ d) =
    subst HasNoNull (sym (fields-keep k (clean k v) (remove_null_values_in_json d))) (
      keep_field-HasNoNull k (clean k v) (fields (remove_null_values_in_json d))
        (clean-IsCleanValue k v) (removed-HasNoNull d))

-- A dictionary without double keys is cleaned of null values at any depth, but for items of arrays and
-- what is in arrays of arrays. Of what stood under a key, texts and numbers are left as they were,
-- dictionaries cleaned in the same way, and arrays with all their items, of which the dictionaries are
-- cleaned; a null is gone, but under m.server_notice, where it gives way to an empty dictionary, and
-- nothing is added under other keys.
pub remove_null_values_in_json-HasNoNull :
    (key : String) (d : Dict Json)
    → IsDict d
    → HasNoNull (fields (remove_null_values_in_json d))
      × IsLeft key (lookup key d) (lookup key (remove_null_values_in_json d))
remove_null_values_in_json-HasNoNull key d h = (
  removed-HasNoNull d,
  cleaned-IsLeft key (lookup key d) (lookup key (remove_null_values_in_json d))
      (lookup-remove_null_values_in_json key d h),
)
