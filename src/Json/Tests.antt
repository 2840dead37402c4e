-- ===== src/Json/Tests.antt =====
-- A content with null values.
use sendingnetwork_ios.Common.{◌≡◌, refl, [], ◌∷◌}
use sendingnetwork_ios.Common.Dict.{Dict, lookup}
use sendingnetwork_ios.Json.{
  fields, Json, null, text, array, dictionary, nil, cons, end, field, clean,
  remove_null_values_in_json,
}
use sendingnetwork_ios.Json.NullFree.{HasNoNull, IsLeft, remove_null_values_in_json-HasNoNull}
use sendingnetwork_ios.Json.Nulls.{remove_null_values_in_json-remove_null_values_in_json}

abbrev content : Dict Json
content =
    ("name", null)
    ∷ ("info", dictionary (field "w" null (field "h" (text "2") end)))
    ∷ ("m.server_notice", null)
    ∷ ("list", array (cons null (cons (dictionary (field "x" null end)) nil)))
    ∷ []

content_without_nulls :
    remove_null_values_in_json content
    ≡ ("info", dictionary (field "h" (text "2") end))
      ∷ ("m.server_notice", dictionary end)
      ∷ ("list", array (cons null (cons (dictionary end) nil)))
      ∷ []
unfolding remove_null_values_in_json clean
content_without_nulls = refl

remove_null_values_in_json-HasNoNull_example :
    HasNoNull (fields (remove_null_values_in_json content))
    × IsLeft "info" (lookup "info" content) (lookup "info" (remove_null_values_in_json content))
unfolding lookup
remove_null_values_in_json-HasNoNull_example =
    remove_null_values_in_json-HasNoNull "info" content (refl, (refl, (refl, (refl, tt))))

remove_null_values_in_json-remove_null_values_in_json_example :
    remove_null_values_in_json (remove_null_values_in_json content)
    ≡ remove_null_values_in_json content
remove_null_values_in_json-remove_null_values_in_json_example =
    remove_null_values_in_json-remove_null_values_in_json content
