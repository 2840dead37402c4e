-- ===== src/Models/PushRules.antt =====
-- SDNSDK/JSONModels/MXJSONModels.h and .m: push rules, their actions and conditions.
use sendingnetwork_ios.Common.{
  String, Bool, false, Option, none, some, List, map, ◌==◌, if◌then◌else◌, is_some,
}
use sendingnetwork_ios.Common.Dict.{Dict, lookup, remove}
use sendingnetwork_ios.Json.{Json, text, dictionary, entries}
use sendingnetwork_ios.Json.Setters.{
  Outcome, returned, ◌>>=◌, set_string, set_boolean, set_models, always, made, enumerated,
}

pub data PushRuleKind : Type 0 where
  override content room sender underride : PushRuleKind

pub data PushRuleActionType : Type 0 where
  notify dont_notify coalesce set_tweak custom_action : PushRuleActionType

pub record PushRuleAction : Type 0 where
  pub action_type : PushRuleActionType
  pub action : Option String
  pub parameters : Option (Dict Json)

-- The type that a text stands for, or else the type before.
abbrev typed_action : String → PushRuleActionType
typed_action s =
    if s == "notify"
    then notify
    else if s == "dont_notify"
    then dont_notify
    else if s == "coalesce"
    then coalesce
    else custom_action

abbrev tweak_action : Dict Json → PushRuleAction
tweak_action parameters =
    if is_some (lookup "set_tweak" parameters)
    then record { action_type = set_tweak; action = some "set_tweak"; parameters = some parameters }
    else record { action_type = custom_action; action = none; parameters = some parameters }

-- An item that is neither a text nor a dictionary still makes an action.
unfoldable pub push_rule_action : Json → PushRuleAction
push_rule_action (text s) = record {
  action_type = typed_action s;
  action = some s;
  parameters = none;
}
push_rule_action (dictionary f) = tweak_action (entries f)
push_rule_action _ = record { action_type = custom_action; action = none; parameters = none }

pub data PushRuleConditionType : Type 0 where
  event_match profile_tag contains_display_name room_member_count : PushRuleConditionType
  sender_notification_permission custom_condition : PushRuleConditionType

pub record PushRuleCondition : Type 0 where
  pub kind_type : PushRuleConditionType
  pub kind : Option String
  pub parameters : Dict Json

-- setKind:
unfoldable pub kind_type_of : String → PushRuleConditionType
kind_type_of s =
    if s == "event_match"
    then event_match
    else if s == "profile_tag"
    then profile_tag
    else if s == "contains_display_name"
    then contains_display_name
    else if s == "room_member_count"
    then room_member_count
    else if s == "sender_notification_permission"
    then sender_notification_permission
    else custom_condition

-- setKindType:, which leaves the kind of a custom condition
unfoldable pub kind_of_type : PushRuleConditionType → Option String → Option String
kind_of_type event_match before = some "event_match"
kind_of_type profile_tag before = some "profile_tag"
kind_of_type contains_display_name before = some "contains_display_name"
kind_of_type room_member_count before = some "room_member_count"
kind_of_type sender_notification_permission before = some "sender_notification_permission"
kind_of_type custom_condition before = before

-- Without a kind the setter is not called, and the type is the first one.
abbrev kind_type_or_first : Option String → PushRuleConditionType
kind_type_or_first none = event_match
kind_type_or_first (some kind) = kind_type_of kind

unfoldable pub push_rule_condition_from_json : Dict Json → PushRuleCondition
push_rule_condition_from_json json = record {
  kind_type = kind_type_or_first (set_string none (lookup "kind" json));
  kind = set_string none (lookup "kind" json);
  parameters = remove "kind" json;
}

pub record PushRule : Type 0 where
  pub rule_id : Option String
  pub actions : List PushRuleAction
  pub conditions : Option (List PushRuleCondition)
  pub is_default : Bool
  pub enabled : Bool
  pub pattern_text : Option String
  pub kind : PushRuleKind
  pub scope : Option String

unfoldable pub push_rule_from_json : Dict Json → Outcome PushRule
push_rule_from_json json = do
  conditions ← set_models none (always push_rule_condition_from_json) (lookup "conditions" json)
  actions ← enumerated (lookup "actions" json)
  returned (record {
    rule_id = set_string none (lookup "rule_id" json);
    actions = map push_rule_action actions;
    conditions = conditions;
    is_default = set_boolean false (lookup "default" json);
    enabled = set_boolean false (lookup "enabled" json);
    pattern_text = set_string none (lookup "pattern" json);
    kind = override;
    scope = none;
  })

abbrev placed : String → PushRuleKind → PushRule → PushRule
placed scope kind rule = record rule { kind = kind; scope = some scope }

abbrev all_placed : String → PushRuleKind → Option (List PushRule) → Option (List PushRule)
all_placed scope kind none = none
all_placed scope kind (some rules) = some (map (placed scope kind) rules)

unfoldable pub push_rules_from_json :
    String → PushRuleKind → Option Json → Outcome (Option (List PushRule))
push_rules_from_json scope kind json = do
  rules ← set_models none (made push_rule_from_json) json
  returned (all_placed scope kind rules)

pub record PushRulesSet : Type 0 where
  pub overrides : Option (List PushRule)
  pub contents : Option (List PushRule)
  pub rooms : Option (List PushRule)
  pub senders : Option (List PushRule)
  pub underrides : Option (List PushRule)

unfoldable pub push_rules_set_from_json : String → Dict Json → Outcome PushRulesSet
push_rules_set_from_json scope json = do
  overrides ← push_rules_from_json scope override (lookup "override" json)
  contents ← push_rules_from_json scope content (lookup "content" json)
  rooms ← push_rules_from_json scope room (lookup "room" json)
  senders ← push_rules_from_json scope sender (lookup "sender" json)
  underrides ← push_rules_from_json scope underride (lookup "underride" json)
  returned (record {
    overrides = overrides;
    contents = contents;
    rooms = rooms;
    senders = senders;
    underrides = underrides;
  })

pub record PushRulesResponse : Type 0 where
  pub global : Option PushRulesSet
  pub json_dictionary : Dict Json

abbrev global_set : Option Json → Outcome (Option PushRulesSet)
global_set (some (dictionary f)) = do
  rules ← push_rules_set_from_json "global" (entries f)
  returned (some rules)
global_set _ = returned none

unfoldable pub push_rules_response_from_json : Dict Json → Outcome PushRulesResponse
push_rules_response_from_json json = do
  global ← global_set (lookup "global" json)
  returned (record { global = global; json_dictionary = json })
