-- ===== src/Models/Login.antt =====
-- SDNSDK/JSONModels/MXJSONModels.h and .m, and SDNSDK/JSONModels/Login: the answers to logins
-- and registrations.
use sendingnetwork_ios.Common.{
  ℕ, String, Bool, false, ◌||◌, Option, none, some, List, [], ◌∷◌, ◌==◌, if◌then◌else◌,
}
use sendingnetwork_ios.Common.Dict.{Dict, lookup, remove}
use sendingnetwork_ios.Json.{Number, Json}
use sendingnetwork_ios.Json.Setters.{
  Outcome, returned, ◌>>=◌, set_string, set_number, set_array, set_dictionary, set_boolean,
  set_unsigned, set_model, set_models, perhaps, models_from_json,
}
use sendingnetwork_ios.Models.Discovery.{WellKnown, well_known_from_json}

pub record DidListResponse : Type 0 where
  pub array : Option (List Json)

unfoldable pub did_list_response_from_json : Dict Json → DidListResponse
did_list_response_from_json json = record { array = set_array none (lookup "data" json) }

pub record DiDInfoResponse : Type 0 where
  pub type : Option String
  pub value : Option String
  pub key_id : Option String

unfoldable pub di_d_info_response_from_json : Dict Json → DiDInfoResponse
di_d_info_response_from_json json = record {
  type = set_string none (lookup "type" json);
  value = set_string none (lookup "value" json);
  key_id = set_string none (lookup "key_id" json);
}

pub record PreLoginResponse : Type 0 where
  pub did : Option String
  pub message : Option String
  pub updated : Option String
  pub random_server : Option String

unfoldable pub pre_login_response_from_json : Dict Json → PreLoginResponse
pre_login_response_from_json json = record {
  did = set_string none (lookup "did" json);
  message = set_string none (lookup "message" json);
  updated = set_string none (lookup "updated" json);
  random_server = set_string none (lookup "random_server" json);
}

pub record DidLoginResponse : Type 0 where
  pub access_token : Option String
  pub user_id : Option String
  pub node : Option String
  pub device_id : Option String
  pub guide_state : Option Number

unfoldable pub did_login_response_from_json : Dict Json → DidLoginResponse
did_login_response_from_json json = record {
  access_token = set_string none (lookup "access_token" json);
  user_id = set_string none (lookup "user_id" json);
  node = set_string none (lookup "home_server" json);
  device_id = set_string none (lookup "device_id" json);
  guide_state = set_number none (lookup "guide_state" json);
}

-- MXLoginFlow and its subclass MXLoginSSOFlow
pub record LoginFlow : Type 0 where
  pub type : Option String
  pub stages : Option (List Json)

unfoldable pub login_flow_from_json : Dict Json → LoginFlow
login_flow_from_json json = record {
  type = set_string none (lookup "type" json);
  stages = set_array none (lookup "stages" json);
}

pub record LoginSsoIdentityProvider : Type 0 where
  pub identifier : String
  pub name : String
  pub icon : Option String
  pub brand : Option String

abbrev provider_of : Dict Json → Option String → Option String → Option LoginSsoIdentityProvider
provider_of json (some identifier) (some name) = some (record {
  identifier = identifier;
  name = name;
  icon = set_string none (lookup "icon" json);
  brand = set_string none (lookup "brand" json);
})
provider_of json _ _ = none

unfoldable pub login_sso_identity_provider_from_json : Dict Json → Option LoginSsoIdentityProvider
login_sso_identity_provider_from_json json =
    provider_of json (set_string none (lookup "id" json)) (set_string none (lookup "name" json))

pub record LoginSsoFlow : Type 0 where
  pub flow : LoginFlow
  pub identity_providers : List LoginSsoIdentityProvider

abbrev or_empty {ℓ} : {A : Type ℓ} → Option (List A) → List A
or_empty none = []
or_empty (some xs) = xs

unfoldable pub login_sso_flow_from_json : Dict Json → Outcome LoginSsoFlow
login_sso_flow_from_json json = do
  providers ←
      set_models none (perhaps login_sso_identity_provider_from_json)
        (lookup "identity_providers" json)
  returned (record { flow = login_flow_from_json json; identity_providers = or_empty providers })

pub record UsernameAvailability : Type 0 where
  pub available : Bool

unfoldable pub username_availability_from_json : Dict Json → UsernameAvailability
username_availability_from_json json = record {
  available = set_boolean false (lookup "available" json);
}

-- A flow of either class.
pub data AnyLoginFlow : Type 0 where
  plain_flow : LoginFlow → AnyLoginFlow
  sso_flow : LoginSsoFlow → AnyLoginFlow

pub record AuthenticationSession : Type 0 where
  pub completed : Option (List Json)
  pub session : Option String
  pub flows : Option (List AnyLoginFlow)
  pub params : Option (Dict Json)

abbrev is_sso : Option String → Bool
is_sso none = false
is_sso (some type) = type == "m.login.sso" || type == "m.login.cas"

abbrev any_sso : Dict Json → Outcome (Option AnyLoginFlow)
any_sso json = do flow ← login_sso_flow_from_json json; returned (some (sso_flow flow))

abbrev flow_from_json : Dict Json → Outcome (Option AnyLoginFlow)
flow_from_json json =
    if is_sso (set_string none (lookup "type" json))
    then any_sso json
    else returned (some (plain_flow (login_flow_from_json json)))

unfoldable pub login_flows_from_json : Option (List Json) → Outcome (Option (List AnyLoginFlow))
login_flows_from_json none = returned none
login_flows_from_json (some dictionaries) = models_from_json flow_from_json dictionaries

unfoldable pub authentication_session_from_json : Dict Json → Outcome AuthenticationSession
authentication_session_from_json json = do
  flows ← login_flows_from_json (set_array none (lookup "flows" json))
  returned (record {
    completed = set_array none (lookup "completed" json);
    session = set_string none (lookup "session" json);
    flows = flows;
    params = set_dictionary none (lookup "params" json);
  })

pub record LoginResponse : Type 0 where
  pub node : Option String
  pub user_id : Option String
  pub access_token : Option String
  pub expires_in_ms : ℕ
  pub refresh_token : Option String
  pub device_id : Option String
  pub wellknown : Option WellKnown
  pub others : Option (Dict Json)

abbrev unless_empty : Dict Json → Option (Dict Json)
unless_empty [] = none
unless_empty (e ∷ d) = some (e ∷ d)

unfoldable pub others_of_json : Dict Json → Option (Dict Json)
others_of_json json = unless_empty (
    remove "well_known"
      (remove "device_id" (remove "access_token" (remove "user_id" (remove "home_server" json)))))

unfoldable pub login_response_from_json : Dict Json → Outcome LoginResponse
login_response_from_json json = do
  wellknown ← set_model none well_known_from_json (lookup "well_known" json)
  returned (record {
    node = set_string none (lookup "home_server" json);
    user_id = set_string none (lookup "user_id" json);
    access_token = set_string none (lookup "access_token" json);
    expires_in_ms = set_unsigned 0 (lookup "expires_in_ms" json);
    refresh_token = set_string none (lookup "refresh_token" json);
    device_id = set_string none (lookup "device_id" json);
    wellknown = wellknown;
    others = others_of_json json;
  })
