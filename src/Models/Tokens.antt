-- ===== src/Models/Tokens.antt =====
-- SDNSDK/JSONModels/MXJSONModels.h and .m: third party identifiers, tokens, presence and the
-- dehydrated device of a user.
use sendingnetwork_ios.Common.{ℕ, String, Bool, false, Option, none, some, [], ◌∷◌}
use sendingnetwork_ios.Common.Dict.{Dict, lookup, insert}
use sendingnetwork_ios.Conversions.{Presence, presence}
use sendingnetwork_ios.Json.{Json, text}
use sendingnetwork_ios.Json.Setters.{
  Outcome, raised, returned, set_string, set_dictionary, set_boolean, set_unsigned,
}

pub record ThirdPartyIdentifier : Type 0 where
  pub medium : Option String
  pub address : Option String
  pub validated_at : ℕ
  pub added_at : ℕ

unfoldable pub third_party_identifier_from_json : Dict Json → ThirdPartyIdentifier
third_party_identifier_from_json json = record {
  medium = set_string none (lookup "medium" json);
  address = set_string none (lookup "address" json);
  validated_at = set_unsigned 0 (lookup "validated_at" json);
  added_at = set_unsigned 0 (lookup "added_at" json);
}

pub record OpenIdToken : Type 0 where
  pub token_type : Option String
  pub sdn_server_name : Option String
  pub access_token : Option String
  pub expires_in : ℕ
  pub json : Option (Dict Json)

unfoldable pub open_id_token_from_json : Dict Json → OpenIdToken
open_id_token_from_json json = record {
  token_type = set_string none (lookup "token_type" json);
  sdn_server_name = set_string none (lookup "sdn_server_name" json);
  access_token = set_string none (lookup "access_token" json);
  expires_in = set_unsigned 0 (lookup "expires_in" json);
  json = some json;
}

pub record LoginToken : Type 0 where
  pub token : Option String
  pub expires_in : ℕ
  pub json : Option (Dict Json)

unfoldable pub login_token_from_json : Dict Json → LoginToken
login_token_from_json json = record {
  token = set_string none (lookup "login_token" json);
  expires_in = set_unsigned 0 (lookup "expires_in" json);
  json = some json;
}

pub record PresenceEventContent : Type 0 where
  pub user_id : Option String
  pub displayname : Option String
  pub avatar_url : Option String
  pub last_active_ago : ℕ
  pub currently_active : Bool
  pub presence_text : Option String
  pub presence_status : Presence
  pub status_msg : Option String

unfoldable pub presence_event_content_from_json : Dict Json → PresenceEventContent
presence_event_content_from_json json = record {
  user_id = set_string none (lookup "user_id" json);
  displayname = set_string none (lookup "displayname" json);
  avatar_url = set_string none (lookup "avatar_url" json);
  last_active_ago = set_unsigned 0 (lookup "last_active_ago" json);
  currently_active = set_boolean false (lookup "currently_active" json);
  presence_text = set_string none (lookup "presence" json);
  presence_status = presence (set_string none (lookup "presence" json));
  status_msg = set_string none (lookup "status_msg" json);
}

pub record PresenceResponse : Type 0 where
  pub last_active_ago : ℕ
  pub presence_text : Option String
  pub presence_status : Presence
  pub status_msg : Option String

unfoldable pub presence_response_from_json : Dict Json → PresenceResponse
presence_response_from_json json = record {
  last_active_ago = set_unsigned 0 (lookup "last_active_ago" json);
  presence_text = set_string none (lookup "presence" json);
  presence_status = presence (set_string none (lookup "presence" json));
  status_msg = set_string none (lookup "status_msg" json);
}

pub record DehydratedDevice : Type 0 where
  pub device_id : Option String
  pub account : Option String
  pub algorithm : Option String
  pub passphrase : Option String

-- deviceData[key]; a message to nil returns nil
abbrev in_device_data : String → Option (Dict Json) → Option Json
in_device_data key none = none
in_device_data key (some d) = lookup key d

unfoldable pub dehydrated_device_from_json : Dict Json → DehydratedDevice
dehydrated_device_from_json json =
    let device_data = set_dictionary none (lookup "device_data" json) in
    record {
      device_id = set_string none (lookup "device_id" json);
      account = set_string none (in_device_data "account" device_data);
      algorithm = set_string none (in_device_data "algorithm" device_data);
      passphrase = set_string none (in_device_data "passphrase" device_data);
    }

abbrev with_passphrase : Option String → Dict Json → Dict Json
with_passphrase none json = json
with_passphrase (some passphrase) json = insert "passphrase" (text passphrase) json

-- A dictionary literal with nil raises.
abbrev device_json : Option String → Option String → Option String → Outcome (Dict Json)
device_json (some algorithm) (some account) passphrase =
    returned
      (with_passphrase passphrase (("algorithm", text algorithm) ∷ ("account", text account) ∷ []))
device_json _ _ _ = raised

unfoldable pub dehydrated_device_json : DehydratedDevice → Outcome (Dict Json)
dehydrated_device_json device = device_json device.algorithm device.account device.passphrase
