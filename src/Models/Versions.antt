-- ===== src/Models/Versions.antt =====
-- SDNSDK/JSONModels/MXSDNVersions.h and .m: the versions and features that a node supports. boolValue of
-- a text is a function.
use sendingnetwork_ios.Common.{
  String, Bool, true, false, Option, none, some, List, [], ◌∷◌, ◌||◌, ◌==◌, if◌then◌else◌,
}
use sendingnetwork_ios.Common.Dict.{Dict, lookup}
use sendingnetwork_ios.Json.{Json, text, number}
use sendingnetwork_ios.Json.Setters.{
  Outcome, raised, returned, ◌>>=◌, set_array, set_dictionary, bool_value,
}
use sendingnetwork_ios.Json.Writers.{put, as_array, as_dictionary}

pub record SdnVersions : Type 0 where
  pub versions : Option (List Json)
  pub unstable_features : Option (Dict Json)

abbrev pub versions_of : Option Json → Dict Json → Option SdnVersions
versions_of none json = none
versions_of (some value) json = some (record {
  versions = set_array none (some value);
  unstable_features = set_dictionary none (lookup "unstable_features" json);
})

unfoldable pub sdn_versions_from_json : Dict Json → Option SdnVersions
sdn_versions_from_json json = versions_of (lookup "versions" json) json

unfoldable pub sdn_versions_json : SdnVersions → Dict Json
sdn_versions_json v =
    put "unstable_features" (as_dictionary v.unstable_features)
      (put "versions" (as_array v.versions) [])

-- containsObject: of a list that may be nil
abbrev has_text : String → List Json → Bool
has_text version [] = false
has_text version (text v ∷ versions) = (v == version) || has_text version versions
has_text version (_ ∷ versions) = has_text version versions

abbrev has_version : String → Option (List Json) → Bool
has_version version none = false
has_version version (some versions) = has_text version versions

unfoldable pub server_supports_version : String → SdnVersions → Bool
server_supports_version version v = has_version version v.versions

abbrev feature_of : String → Option (Dict Json) → Option Json
feature_of feature none = none
feature_of feature (some features) = lookup feature features

module _ (text_bool : String → Bool) where
  -- Only numbers and texts understand boolValue.
  abbrev bool_or : Bool → Option Json → Outcome Bool
  bool_or default none = returned default
  bool_or default (some (number n)) = returned (bool_value n)
  bool_or default (some (text s)) = returned (text_bool s)
  bool_or default (some _) = raised

  -- serverSupportsFeature:defaultValue:
  unfoldable pub server_supports_feature : Bool → String → SdnVersions → Outcome Bool
  server_supports_feature default feature v =
      bool_or default (feature_of feature v.unstable_features)

  abbrev unless : Bool → Outcome Bool → Outcome Bool
  unless true feature = returned true
  unless false feature = feature

  unfoldable pub support_lazy_load_members : SdnVersions → Outcome Bool
  support_lazy_load_members v =
      unless (server_supports_version "r0.5.0" v)
        (server_supports_feature false "m.lazy_load_members" v)

  unfoldable pub does_server_require_identity_server_param : SdnVersions → Outcome Bool
  does_server_require_identity_server_param v =
      if server_supports_version "r0.6.0" v
      then returned false
      else server_supports_feature true "m.require_identity_server" v

  unfoldable pub does_server_accept_identity_access_token : SdnVersions → Outcome Bool
  does_server_accept_identity_access_token v =
      unless (server_supports_version "r0.6.0" v)
        (server_supports_feature false "m.id_access_token" v)

  unfoldable pub does_server_support_separate_add_and_bind : SdnVersions → Outcome Bool
  does_server_support_separate_add_and_bind v =
      unless (server_supports_version "r0.6.0" v)
        (server_supports_feature false "m.separate_add_and_bind" v)

  unfoldable pub supports_threads : SdnVersions → Outcome Bool
  supports_threads = server_supports_feature false "org.sdn.msc3440.stable"

  unfoldable pub supports_remotely_toggling_push_notifications : SdnVersions → Outcome Bool
  supports_remotely_toggling_push_notifications v = do
    is_stable ← server_supports_feature false "org.sdn.msc3881.stable" v
    unless is_stable (server_supports_feature false "org.sdn.msc3881" v)

  unfoldable pub supports_qr_login : SdnVersions → Outcome Bool
  supports_qr_login = server_supports_feature false "org.sdn.msc3882"

  unfoldable pub supports_notifications_for_threads : SdnVersions → Outcome Bool
  supports_notifications_for_threads = server_supports_feature false "org.sdn.msc3773"

  unfoldable pub supports_redaction_with_relations : SdnVersions → Outcome Bool
  supports_redaction_with_relations = server_supports_feature false "org.sdn.msc3912.stable"

  unfoldable pub supports_redaction_with_relations_unstable : SdnVersions → Outcome Bool
  supports_redaction_with_relations_unstable = server_supports_feature false "org.sdn.msc3912"
