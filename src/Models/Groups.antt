-- ===== src/Models/Groups.antt =====
-- SDNSDK/JSONModels/MXJSONModels.h and .m: communities and their members and rooms, how they are
-- read and copied.
use sendingnetwork_ios.Common.{ℕ, String, Bool, false, Option, none, List}
use sendingnetwork_ios.Common.Dict.{Dict, lookup}
use sendingnetwork_ios.Json.{Json, remove_null_values_in_json}
use sendingnetwork_ios.Json.Setters.{
  Outcome, returned, ◌>>=◌, set_string, set_array, set_dictionary, set_boolean, set_unsigned,
  set_model, set_models, always,
}

pub record GroupProfile : Type 0 where
  pub short_description : Option String
  pub is_public : Bool
  pub avatar_url : Option String
  pub name : Option String
  pub long_description : Option String

unfoldable pub group_profile_from_json : Dict Json → GroupProfile
group_profile_from_json source =
    let json = remove_null_values_in_json source in
    record {
      short_description = set_string none (lookup "short_description" json);
      is_public = set_boolean false (lookup "is_public" json);
      avatar_url = set_string none (lookup "avatar_url" json);
      name = set_string none (lookup "name" json);
      long_description = set_string none (lookup "long_description" json);
    }

pub record GroupSummaryUsersSection : Type 0 where
  pub total_user_count_estimate : ℕ
  pub users : Option (List Json)
  pub roles : Option (Dict Json)

unfoldable pub group_summary_users_section_from_json : Dict Json → GroupSummaryUsersSection
group_summary_users_section_from_json json = record {
  total_user_count_estimate = set_unsigned 0 (lookup "total_user_count_estimate" json);
  users = set_array none (lookup "users" json);
  roles = set_dictionary none (lookup "roles" json);
}

pub record GroupSummaryUser : Type 0 where
  pub membership : Option String
  pub is_publicised : Bool
  pub is_public : Bool
  pub is_privileged : Bool

unfoldable pub group_summary_user_from_json : Dict Json → GroupSummaryUser
group_summary_user_from_json json = record {
  membership = set_string none (lookup "membership" json);
  is_publicised = set_boolean false (lookup "is_publicised" json);
  is_public = set_boolean false (lookup "is_public" json);
  is_privileged = set_boolean false (lookup "is_privileged" json);
}

pub record GroupSummaryRoomsSection : Type 0 where
  pub total_room_count_estimate : ℕ
  pub rooms : Option (List Json)
  pub categories : Option (Dict Json)

unfoldable pub group_summary_rooms_section_from_json : Dict Json → GroupSummaryRoomsSection
group_summary_rooms_section_from_json json = record {
  total_room_count_estimate = set_unsigned 0 (lookup "total_room_count_estimate" json);
  rooms = set_array none (lookup "rooms" json);
  categories = set_dictionary none (lookup "categories" json);
}

pub record GroupSummary : Type 0 where
  pub profile : Option GroupProfile
  pub users_section : Option GroupSummaryUsersSection
  pub user : Option GroupSummaryUser
  pub rooms_section : Option GroupSummaryRoomsSection

unfoldable pub group_summary_from_json : Dict Json → Outcome GroupSummary
group_summary_from_json json = do
  profile ← set_model none (always group_profile_from_json) (lookup "profile" json)
  users_section ←
      set_model none (always group_summary_users_section_from_json) (lookup "users_section" json)
  user ← set_model none (always group_summary_user_from_json) (lookup "user" json)
  rooms_section ←
      set_model none (always group_summary_rooms_section_from_json) (lookup "rooms_section" json)
  returned (record {
    profile = profile;
    users_section = users_section;
    user = user;
    rooms_section = rooms_section;
  })

pub record GroupRoom : Type 0 where
  pub canonical_alias : Option String
  pub room_id : Option String
  pub name : Option String
  pub topic : Option String
  pub num_joined_members : ℕ
  pub world_readable : Bool
  pub guest_can_join : Bool
  pub avatar_url : Option String
  pub is_public : Bool

unfoldable pub group_room_from_json : Dict Json → GroupRoom
group_room_from_json json = record {
  canonical_alias = set_string none (lookup "canonical_alias" json);
  room_id = set_string none (lookup "room_id" json);
  name = set_string none (lookup "name" json);
  topic = set_string none (lookup "topic" json);
  num_joined_members = set_unsigned 0 (lookup "num_joined_members" json);
  world_readable = set_boolean false (lookup "world_readable" json);
  guest_can_join = set_boolean false (lookup "guest_can_join" json);
  avatar_url = set_string none (lookup "avatar_url" json);
  is_public = set_boolean false (lookup "is_public" json);
}

pub record GroupRooms : Type 0 where
  pub total_room_count_estimate : ℕ
  pub chunk : Option (List GroupRoom)

unfoldable pub group_rooms_from_json : Dict Json → Outcome GroupRooms
group_rooms_from_json json = do
  chunk ← set_models none (always group_room_from_json) (lookup "chunk" json)
  returned (record {
    total_room_count_estimate = set_unsigned 0 (lookup "total_room_count_estimate" json);
    chunk = chunk;
  })

pub record GroupUser : Type 0 where
  pub displayname : Option String
  pub user_id : Option String
  pub is_privileged : Bool
  pub avatar_url : Option String
  pub is_public : Bool

unfoldable pub group_user_from_json : Dict Json → GroupUser
group_user_from_json json = record {
  displayname = set_string none (lookup "displayname" json);
  user_id = set_string none (lookup "user_id" json);
  is_privileged = set_boolean false (lookup "is_privileged" json);
  avatar_url = set_string none (lookup "avatar_url" json);
  is_public = set_boolean false (lookup "is_public" json);
}

pub record GroupUsers : Type 0 where
  pub total_user_count_estimate : ℕ
  pub chunk : Option (List GroupUser)

unfoldable pub group_users_from_json : Dict Json → Outcome GroupUsers
group_users_from_json json = do
  chunk ← set_models none (always group_user_from_json) (lookup "chunk" json)
  returned (record {
    total_user_count_estimate = set_unsigned 0 (lookup "total_user_count_estimate" json);
    chunk = chunk;
  })
