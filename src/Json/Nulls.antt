-- ===== src/Json/Nulls.antt =====
-- What is left of a JSON dictionary without its null values.
use sendingnetwork_ios.Common.{
  String, Option, none, some, [], ◌∷◌, ◌≡◌, refl, ap, ◌==◌, ◌∙◌, if◌then◌else◌, arith, Bool-cases,
  inl, inr, eq_iff,
}
use sendingnetwork_ios.Common.Dict.{Dict, lookup, remove, IsDict}
use sendingnetwork_ios.Json.{
  Json, null, text, number, array, dictionary, Items, nil, cons, Fields, end, field, clean,
  clean_items, clean_fields, keep_field, keep, remove_null_values_in_json,
}

abbrev pub cleaned : String → Option Json → Option Json
cleaned key none = none
cleaned key (some v) = clean key v

lookup-keep :
    (k j : String) (v : Option Json) (d : Dict Json)
    → lookup k d ≡ none
    → lookup j (keep k v d) ≡ (if k == j then v else lookup j d)
unfolding lookup
lookup-keep k j none d h = ground (arith, eq_iff k j)
lookup-keep k j (some v) d h = refl

-- What is read under a key after the cleaning is the value, cleaned.
pub lookup-remove_null_values_in_json :
    (key : String) (d : Dict Json)
    → IsDict d
    → lookup key (remove_null_values_in_json d) ≡ cleaned key (lookup key d)
unfolding lookup remove_null_values_in_json
lookup-remove_null_values_in_json key [] h = refl
lookup-remove_null_values_in_json key ((k, v) ∷ d) h =
    let rest = remove_null_values_in_json d in
    let absent : lookup k rest ≡ none =
      lookup-remove_null_values_in_json k d h.1 ∙ ap (cleaned k) h.0 in
    elim (Bool-cases (k == key)) [
      | inl same ↦
          rw (lookup-keep k key (clean k v) rest absent, same)
            (ap (λ j. clean j v) ((eq_iff k key).0 same))
      | inr other ↦
          rw (lookup-keep k key (clean k v) rest absent, other)
            (lookup-remove_null_values_in_json key d h.1)
    ]

clean_fields-keep_field :
    (k : String) (v : Option Json) (f : Fields)
    → cleaned k v ≡ v
    → clean_fields f ≡ f
    → clean_fields (keep_field k v f) ≡ keep_field k v f
unfolding clean
clean_fields-keep_field k none f hv hf = hf
clean_fields-keep_field k (some v) f hv hf = rw (hv, hf) refl

remove-keep :
    (k : String) (v : Option Json) (d : Dict Json)
    → cleaned k v ≡ v
    → remove_null_values_in_json d ≡ d
    → remove_null_values_in_json (keep k v d) ≡ keep k v d
unfolding remove_null_values_in_json
remove-keep k none d hv hd = hd
remove-keep k (some v) d hv hd = rw (hv, hd) refl

mutual
  unfolding clean

  clean_again : (k : String) (v : Json) → cleaned k (clean k v) ≡ clean k v
  clean_again k null = elim (Bool-cases (k == "m.server_notice")) [
    | inl notice ↦ rw notice refl
    | inr other ↦ rw other refl
  ]
  clean_again k (text s) = refl
  clean_again k (number n) = refl
  clean_again k (array xs) = ap (λ ys. some (array ys)) (clean_items_again xs)
  clean_again k (dictionary f) = ap (λ g. some (dictionary g)) (clean_fields_again f)

  clean_items_again : (xs : Items) → clean_items (clean_items xs) ≡ clean_items xs
  clean_items_again nil = refl
  clean_items_again (cons null xs) = ap (cons null) (clean_items_again xs)
  clean_items_again (cons (text s) xs) = ap (cons (text s)) (clean_items_again xs)
  clean_items_again (cons (number n) xs) = ap (cons (number n)) (clean_items_again xs)
  clean_items_again (cons (array ys) xs) = ap (cons (array ys)) (clean_items_again xs)
  clean_items_again (cons (dictionary f) xs) = rw (clean_fields_again f, clean_items_again xs) refl

  clean_fields_again : (f : Fields) → clean_fields (clean_fields f) ≡ clean_fields f
  clean_fields_again end = refl
  clean_fields_again (field k v f) =
      clean_fields-keep_field k (clean k v) (clean_fields f) (clean_again k v)
        (clean_fields_again f)

-- Removing the null values a second time changes nothing.
pub remove_null_values_in_json-remove_null_values_in_json :
    (d : Dict Json)
    → remove_null_values_in_json (remove_null_values_in_json d) ≡ remove_null_values_in_json d
unfolding remove_null_values_in_json
remove_null_values_in_json-remove_null_values_in_json [] = refl
remove_null_values_in_json-remove_null_values_in_json ((k, v) ∷ d) =
    remove-keep k (clean k v) (remove_null_values_in_json d) (clean_again k v)
      (remove_null_values_in_json-remove_null_values_in_json d)

remove-keep_other :
    (key k : String) (v : Option Json) (d : Dict Json)
    → remove key (keep k v d) ≡ (if k == key then remove key d else keep k v (remove key d))
unfolding remove
remove-keep_other key k none d = ground arith
remove-keep_other key k (some v) d = refl

-- A key may be removed before or after the null values.
pub remove_null_values_in_json-remove :
    (key : String) (d : Dict Json)
    → remove_null_values_in_json (remove key d) ≡ remove key (remove_null_values_in_json d)
unfolding remove_null_values_in_json remove
remove_null_values_in_json-remove key [] = refl
remove_null_values_in_json-remove key ((k, v) ∷ d) =
    rw (remove-keep_other key k (clean k v) (remove_null_values_in_json d))
      (elim (Bool-cases (k == key)) [
        | inl same ↦ rw same (remove_null_values_in_json-remove key d)
        | inr other ↦ rw other (ap (keep k (clean k v)) (remove_null_values_in_json-remove key d))
      ])
