-- ===== src/PowerLevels/Tests.antt =====
-- The power levels of a small room.
use sendingnetwork_ios.Json.Setters.{integer_value}
use sendingnetwork_ios.Common.{arith, ◌≡◌, refl, none, some, [], ◌∷◌}
use sendingnetwork_ios.Common.Int.{pos, negsuc}
use sendingnetwork_ios.Common.Dict.{lookup}
use sendingnetwork_ios.PowerLevels.{
  number_value, RoomPowerLevels, model_from_json, json_dictionary, power_level_of_user,
}
use sendingnetwork_ios.PowerLevels.RoundTrip.{IsLevels, model_from_json-json_dictionary}

abbrev levels : RoomPowerLevels
levels = record {
  users = some (("@a", number_value (pos 100)) ∷ []);
  users_default = pos 0;
  ban = pos 50;
  kick = negsuc 0;
  redact = pos 50;
  invite = pos 0;
  notifications = none;
  events = some [];
  events_default = pos 0;
  state_default = pos 50;
}

levels-IsLevels : IsLevels levels
levels-IsLevels = record {
  users_default_is_integer = omega arith;
  ban_is_integer = omega arith;
  kick_is_integer = omega arith;
  redact_is_integer = omega arith;
  invite_is_integer = omega arith;
  events_default_is_integer = omega arith;
  state_default_is_integer = omega arith;
}

model_from_json-json_dictionary_example : model_from_json (json_dictionary levels) ≡ levels
model_from_json-json_dictionary_example =
    model_from_json-json_dictionary levels levels-IsLevels (λ e. cc) (λ e. cc) (λ e. cc)

level_of_a : power_level_of_user levels "@a" ≡ pos 100
unfolding power_level_of_user lookup integer_value
level_of_a = refl
