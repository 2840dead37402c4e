-- ===== src/Models/Capabilities.antt =====
-- SDNSDK/JSONModels/Capabilities, and MXNodeCapabilities of SDNSDK/JSONModels/MXJSONModels.h and .m: what
-- a node can do.
use sendingnetwork_ios.Common.{String, Bool, true, false, Option, none, some, List, [], map}
use sendingnetwork_ios.Common.Dict.{Dict, lookup}
use sendingnetwork_ios.Json.{Json, dictionary, fields}
use sendingnetwork_ios.Json.Setters.{
  Outcome, returned, ◌>>=◌, set_string, set_array, set_dictionary, set_boolean, set_model, always,
  made, perhaps, subscripted, models_by_key,
}
use sendingnetwork_ios.Json.Writers.{put}

pub record RoomVersionInfo : Type 0 where
  pub version : Option String
  pub status_string : Option String

pub record RoomCapabilitySupport : Type 0 where
  pub preferred : Option String
  pub support : Option (List Json)

unfoldable pub room_capability_support_from_json : Dict Json → RoomCapabilitySupport
room_capability_support_from_json json = record {
  preferred = set_string none (lookup "preferred" json);
  support = set_array none (lookup "support" json);
}

pub record RoomVersionCapabilities : Type 0 where
  pub default_room_version : Option String
  pub supported_versions : List RoomVersionInfo
  pub room_capabilities : Dict RoomCapabilitySupport

abbrev or_nothing : Option (Dict Json) → Dict Json
or_nothing none = []
or_nothing (some d) = d

abbrev version_info : (String × Json) → RoomVersionInfo
version_info (version, status) = record {
  version = some version;
  status_string = set_string none (some status);
}

unfoldable pub room_version_capabilities_from_json : Dict Json → Outcome RoomVersionCapabilities
room_version_capabilities_from_json json = do
  capabilities ←
      models_by_key (always room_capability_support_from_json)
        (or_nothing (set_dictionary none (lookup "org.sdn.msc3244.room_capabilities" json)))
  returned (record {
    default_room_version = set_string none (lookup "default" json);
    supported_versions =
        map version_info (or_nothing (set_dictionary none (lookup "available" json)));
    room_capabilities = capabilities;
  })

pub record NodeCapabilities : Type 0 where
  pub can_change_password : Bool
  pub room_versions : Option RoomVersionCapabilities

-- A node that does not say so lets passwords be changed.
abbrev change_password_of : Option (Dict Json) → Bool
change_password_of none = true
change_password_of (some change_password) = set_boolean true (lookup "enabled" change_password)

unfoldable pub node_capabilities_from_json : Dict Json → Outcome NodeCapabilities
node_capabilities_from_json json = do
  capabilities ← subscripted (lookup "capabilities" json)
  versions ←
      set_model none (made room_version_capabilities_from_json)
        (lookup "m.room_versions" capabilities)
  returned (record {
    can_change_password =
        change_password_of (set_dictionary none (lookup "m.change_password" capabilities));
    room_versions = versions;
  })

pub record BooleanCapability : Type 0 where
  pub enabled : Bool

abbrev boolean_capability : Option Json → Option BooleanCapability
boolean_capability none = none
boolean_capability (some value) = some (record { enabled = set_boolean false (some value) })

unfoldable pub boolean_capability_from_json : Dict Json → Option BooleanCapability
boolean_capability_from_json json = boolean_capability (lookup "enabled" json)

-- The versions are kept whatever their class.
pub record RoomVersionsCapability : Type 0 where
  pub available_versions : Json
  pub default_version : Option String

abbrev room_versions_capability : Option Json → Option Json → Option RoomVersionsCapability
room_versions_capability (some available) (some default) =
    some
      (record { available_versions = available; default_version = set_string none (some default) })
room_versions_capability _ _ = none

unfoldable pub room_versions_capability_from_json : Dict Json → Option RoomVersionsCapability
room_versions_capability_from_json json =
    room_versions_capability (lookup "available" json) (lookup "default" json)

pub record Capabilities : Type 0 where
  pub all_capabilities : Dict Json
  pub change_password : Option BooleanCapability
  pub room_versions : Option RoomVersionsCapability
  pub set_display_name : Option BooleanCapability
  pub set_avatar_url : Option BooleanCapability
  pub three_pid_changes : Option BooleanCapability

abbrev capabilities_of : Dict Json → Outcome (Option Capabilities)
capabilities_of capabilities = do
  password ←
      set_model none (perhaps boolean_capability_from_json)
        (lookup "m.change_password" capabilities)
  versions ←
      set_model none (perhaps room_versions_capability_from_json)
        (lookup "m.room_versions" capabilities)
  display_name ←
      set_model none (perhaps boolean_capability_from_json)
        (lookup "m.set_displayname" capabilities)
  avatar_url ←
      set_model none (perhaps boolean_capability_from_json) (lookup "m.set_avatar_url" capabilities)
  three_pid ←
      set_model none (perhaps boolean_capability_from_json) (lookup "m.3pid_changes" capabilities)
  returned (
      some (record {
        all_capabilities = capabilities;
        change_password = password;
        room_versions = versions;
        set_display_name = display_name;
        set_avatar_url = avatar_url;
        three_pid_changes = three_pid;
      }))

abbrev given_capabilities : Option Json → Outcome (Option Capabilities)
given_capabilities none = returned none
given_capabilities (some value) = do
  capabilities ← subscripted (some value)
  capabilities_of capabilities

unfoldable pub capabilities_from_json : Dict Json → Outcome (Option Capabilities)
capabilities_from_json json = given_capabilities (lookup "capabilities" json)

unfoldable pub capabilities_json : Capabilities → Dict Json
capabilities_json c = put "capabilities" (some (dictionary (fields c.all_capabilities))) []
