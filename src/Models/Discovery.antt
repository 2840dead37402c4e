-- ===== src/Models/Discovery.antt =====
-- SDNSDK/JSONModels/AutoDiscovery and MXSDNVersions: what a node says of itself.
use sendingnetwork_ios.Common.{String, Option, none, some, List, ◌==◌, if◌then◌else◌}
use sendingnetwork_ios.Common.Dict.{Dict, lookup}
use sendingnetwork_ios.Json.{Json}
use sendingnetwork_ios.Json.Setters.{
  Outcome, returned, ◌>>=◌, set_string, set_model, set_models, perhaps,
}
use Prim.Native.String.{[] as empty_text, ◌∷◌ as ◌∷ᵗ◌}

-- The text without its last character when that is a slash.
unfoldable pub trim_slash : String → String
trim_slash empty_text = empty_text
trim_slash (c ∷ᵗ s) = let rest = trim_slash s in if (c ∷ᵗ s) == "/" then empty_text else c ∷ᵗ rest

pub record WellKnownBaseConfig : Type 0 where
  pub base_url : String

abbrev base_config : Option String → Option WellKnownBaseConfig
base_config none = none
base_config (some url) = some (record { base_url = trim_slash url })

unfoldable pub well_known_base_config_from_json : Dict Json → Option WellKnownBaseConfig
well_known_base_config_from_json json = base_config (set_string none (lookup "base_url" json))

pub record WellKnownTileServerConfig : Type 0 where
  pub map_style_url_string : String

abbrev tile_config : Option String → Option WellKnownTileServerConfig
tile_config none = none
tile_config (some url) = some (record { map_style_url_string = url })

unfoldable pub well_known_tile_server_config_from_json :
    Dict Json → Option WellKnownTileServerConfig
well_known_tile_server_config_from_json json =
    tile_config (set_string none (lookup "map_style_url" json))

pub record WellknownIntegrationsManager : Type 0 where
  pub api_url : String
  pub ui_url : Option String

abbrev manager_of : Option String → Dict Json → Option WellknownIntegrationsManager
manager_of none json = none
manager_of (some url) json =
    some (record { api_url = url; ui_url = set_string none (lookup "ui_url" json) })

unfoldable pub wellknown_integrations_manager_from_json :
    Dict Json → Option WellknownIntegrationsManager
wellknown_integrations_manager_from_json json =
    manager_of (set_string none (lookup "api_url" json)) json

pub record WellknownIntegrations : Type 0 where
  pub managers : List WellknownIntegrationsManager

abbrev integrations_of : Option (List WellknownIntegrationsManager) → Option WellknownIntegrations
integrations_of none = none
integrations_of (some managers) = some (record { managers = managers })

unfoldable pub wellknown_integrations_from_json : Dict Json → Outcome (Option WellknownIntegrations)
wellknown_integrations_from_json json = do
  managers ←
      set_models none (perhaps wellknown_integrations_manager_from_json) (lookup "managers" json)
  returned (integrations_of managers)

pub record WellKnown : Type 0 where
  pub node : WellKnownBaseConfig
  pub identity_server : Option WellKnownBaseConfig
  pub integrations : Option WellknownIntegrations
  pub tile_server : Option WellKnownTileServerConfig
  pub json_dictionary : Dict Json

abbrev or_legacy : Option Json → Option Json → Option Json
or_legacy (some value) legacy = some value
or_legacy none legacy = legacy

abbrev with_node : Dict Json → Option WellKnownBaseConfig → Outcome (Option WellKnown)
with_node json none = returned none
with_node json (some node) = do
  server ←
      set_model none (perhaps well_known_base_config_from_json) (lookup "m.identity_server" json)
  integrations ← set_model none wellknown_integrations_from_json (lookup "m.integrations" json)
  tiles ←
      set_model none (perhaps well_known_tile_server_config_from_json)
        (or_legacy (lookup "m.tile_server" json) (lookup "org.sdn.msc3488.tile_server" json))
  returned (
      some (record {
        node = node;
        identity_server = server;
        integrations = integrations;
        tile_server = tiles;
        json_dictionary = json;
      }))

unfoldable pub well_known_from_json : Dict Json → Outcome (Option WellKnown)
well_known_from_json json = do
  node ← set_model none (perhaps well_known_base_config_from_json) (lookup "m.node" json)
  with_node json node
