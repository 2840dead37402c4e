-- ===== src/UsersDevicesMap.antt =====
-- SDNSDK/Crypto/Data/MXUsersDevicesMap.m: objects by user and device. A method that changes the map
-- makes a new dictionary, so a map is a value. A user whose devices are all removed keeps an empty
-- entry.
pub mod Objects
use sendingnetwork_ios.Common.{ℕ, ◌+◌, String, Option, none, some, List, [], ◌∷◌, ◌++◌, length}
use sendingnetwork_ios.Common.Dict.{Dict, lookup, insert, remove, keys, values}

abbrev pub UsersDevicesMap : Type 0 → Type 0
UsersDevicesMap V = Dict (Dict V)

module _ {V : Type 0} where
  abbrev pub or_empty : Option (Dict V) → Dict V
  or_empty none = []
  or_empty (some d) = d

  -- map[userId], with nil as an empty dictionary
  abbrev pub devices : String → UsersDevicesMap V → Dict V
  devices user_id map = or_empty (lookup user_id map)

  abbrev pub init : UsersDevicesMap V
  init = []

  unfoldable pub count : UsersDevicesMap V → ℕ
  count [] = 0
  count ((user_id, d) ∷ map) = length d + count map

  unfoldable pub user_ids : UsersDevicesMap V → List String
  user_ids map = keys map

  unfoldable pub device_ids_for_user : String → UsersDevicesMap V → List String
  device_ids_for_user user_id map = keys (devices user_id map)

  unfoldable pub object_for_device : String → String → UsersDevicesMap V → Option V
  object_for_device device_id user_id map = lookup device_id (devices user_id map)

  unfoldable pub objects_for_user : String → UsersDevicesMap V → List V
  objects_for_user user_id map = values (devices user_id map)

  unfoldable pub all_objects : UsersDevicesMap V → List V
  all_objects [] = []
  all_objects ((user_id, d) ∷ map) = values d ++ all_objects map

  unfoldable pub set_object : V → String → String → UsersDevicesMap V → UsersDevicesMap V
  set_object object user_id device_id map =
      insert user_id (insert device_id object (devices user_id map)) map

  unfoldable pub set_objects : Dict V → String → UsersDevicesMap V → UsersDevicesMap V
  set_objects objects user_id map = insert user_id objects map

  -- The entries of the other map come over those of this one, user by user.
  unfoldable pub add_entries_from_map : UsersDevicesMap V → UsersDevicesMap V → UsersDevicesMap V
  add_entries_from_map [] map = map
  add_entries_from_map ((user_id, d) ∷ other) map =
      add_entries_from_map other (insert user_id d map)

  unfoldable pub remove_all_objects : UsersDevicesMap V → UsersDevicesMap V
  remove_all_objects map = []

  unfoldable pub remove_objects_for_user : String → UsersDevicesMap V → UsersDevicesMap V
  remove_objects_for_user user_id map = remove user_id map

  unfoldable pub remove_object : String → String → UsersDevicesMap V → UsersDevicesMap V
  remove_object user_id device_id map = insert user_id (remove device_id (devices user_id map)) map
