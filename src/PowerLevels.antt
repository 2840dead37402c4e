-- ===== src/PowerLevels.antt =====
-- SDNSDK/JSONModels/MXRoomPowerLevels.m: the power levels of a room, read from JSON and written back.
-- Of the values of a JSON object only numbers and dictionaries are told from the rest; a text stands
-- for what `integerValue` makes of it, and `none` is the exception of an object that has no such
-- method. The setters of SDNSDK/JSONModels/MXJSONModel.h leave a variable alone when the value is
-- nil or of another class.
pub mod RoundTrip
mod Tests
use sendingnetwork_ios.Common.{
  ℕ, suc, String, Bool, true, false, Option, none, some, List, [], ◌∷◌, is_some, if◌then◌else◌,
}
use sendingnetwork_ios.Common.Int.{ℤ, pos, negsuc, eqb_ℤ}
use sendingnetwork_ios.Json.{integer}
use sendingnetwork_ios.Json.Setters.{integer_value}
use sendingnetwork_ios.Common.Dict.{Dict, lookup, insert, remove}

-- A value in one of the inner dictionaries.
pub data Value : Type 0 where
  number_value text_value : ℤ → Value
  other_value : Value

pub data Json : Type 0 where
  number : ℤ → Json
  dictionary : Dict Value → Json
  other : Json

pub record RoomPowerLevels : Type 0 where
  pub users : Option (Dict Value)
  pub users_default : ℤ
  pub ban : ℤ
  pub kick : ℤ
  pub redact : ℤ
  pub invite : ℤ
  pub notifications : Option (Dict Value)
  pub events : Option (Dict Value)
  pub events_default : ℤ
  pub state_default : ℤ

-- MXRoomPowerLevelUndefined
abbrev pub undefined : ℤ
undefined = negsuc 0

-- MXJSONModelSetInteger and MXJSONModelSetDictionary, with the variable's value before.
abbrev pub set_integer : ℤ → Option Json → ℤ
set_integer before (some (number n)) = integer_value (integer n)
set_integer before _ = before

abbrev pub set_dictionary : Option (Dict Value) → Option Json → Option (Dict Value)
set_dictionary before (some (dictionary d)) = some d
set_dictionary before _ = before

-- A default under its key, or else its legacy key, or else what is assumed.
abbrev pub default_level : Option Json → Option Json → ℤ → ℤ
default_level (some value) legacy assumed = set_integer undefined (some value)
default_level none (some value) assumed = set_integer undefined (some value)
default_level none none assumed = assumed

unfoldable pub model_from_json : Dict Json → RoomPowerLevels
model_from_json json = record {
  users = set_dictionary none (lookup "users" json);
  users_default = default_level (lookup "users_default" json) (lookup "usersDefault" json) (pos 0);
  ban = set_integer undefined (lookup "ban" json);
  kick = set_integer undefined (lookup "kick" json);
  redact = set_integer undefined (lookup "redact" json);
  invite = set_integer undefined (lookup "invite" json);
  notifications = set_dictionary none (lookup "notifications" json);
  events = set_dictionary none (lookup "events" json);
  events_default =
      default_level (lookup "events_default" json) (lookup "eventsDefault" json) (pos 0);
  state_default = default_level (lookup "state_default" json) (lookup "stateDefault" json) (pos 50);
}

abbrev pub init_with_default_spec_values : RoomPowerLevels
init_with_default_spec_values = record {
  users = none;
  users_default = pos 0;
  ban = pos 50;
  kick = pos 50;
  redact = pos 50;
  invite = pos 50;
  notifications = none;
  events = none;
  events_default = pos 0;
  state_default = pos 0;
}

-- d[key] of a dictionary that may be nil
abbrev in_dictionary : String → Option (Dict Value) → Option Value
in_dictionary key none = none
in_dictionary key (some d) = lookup key d

abbrev level_or : ℤ → Option Value → ℤ
level_or default (some (number_value n)) = integer_value (integer n)
level_or default _ = default

unfoldable pub power_level_of_user : RoomPowerLevels → String → ℤ
power_level_of_user p user_id = level_or p.users_default (in_dictionary user_id p.users)

abbrev integer_value_or : ℤ → Option Value → Option ℤ
integer_value_or default none = some default
integer_value_or default (some (number_value n)) = some (integer_value (integer n))
integer_value_or default (some (text_value n)) = some n
integer_value_or default (some other_value) = none

-- This one does not check the class of the level.
unfoldable pub minimum_power_level_for_message : RoomPowerLevels → String → Option ℤ
minimum_power_level_for_message p event_type =
    integer_value_or p.events_default (in_dictionary event_type p.events)

unfoldable pub minimum_power_level_for_state_event : RoomPowerLevels → String → ℤ
minimum_power_level_for_state_event p event_type =
    level_or p.state_default (in_dictionary event_type p.events)

unfoldable pub minimum_power_level_for_notifications : RoomPowerLevels → String → ℤ → ℤ
minimum_power_level_for_notifications p key default_power =
    level_or default_power (in_dictionary key p.notifications)

-- JSONDictionary[key] = @(level), unless the level is undefined
unfoldable pub put_level : String → ℤ → Dict Json → Dict Json
put_level key level json = if eqb_ℤ level undefined then json else insert key (number level) json

-- JSONDictionary[key] = d; nil removes the key.
unfoldable pub put_dictionary : String → Option (Dict Value) → Dict Json → Dict Json
put_dictionary key none json = remove key json
put_dictionary key (some d) json = insert key (dictionary d) json

unfoldable pub json_dictionary : RoomPowerLevels → Dict Json
unfolding put_level put_dictionary
json_dictionary p = put_level "state_default" p.state_default (
    put_level "events_default" p.events_default (
      put_dictionary "events" p.events (
        put_dictionary "notifications" p.notifications (
          put_level "invite" p.invite (
            put_level "redact" p.redact (
              put_level "kick" p.kick (
                put_level "ban" p.ban (
                  put_level "users_default" p.users_default
                    (put_dictionary "users" p.users [])))))))))
