-- ===== src/Models/Sync.antt =====
-- SDNSDK/JSONModels/Sync: the answer to a sync request.
use sendingnetwork_ios.Common.{ℕ, String, Option, none, some, List, []}
use sendingnetwork_ios.Common.Dict.{Dict, lookup, keys}
use sendingnetwork_ios.Json.{Json, array, dictionary, nil, entries, fields}
use sendingnetwork_ios.Json.Setters.{
  Outcome, raised, returned, ◌>>=◌, set_string, set_array, set_dictionary, set_model, always, made,
}
use sendingnetwork_ios.Json.Writers.{put, as_model, as_text, as_array}
use sendingnetwork_ios.Models.EventLists.{
  PresenceSyncResponse, presence_sync_response_from_json, ToDeviceSyncResponse,
  to_device_sync_response_from_json, RoomInviteState, room_invite_state_from_json,
  room_invite_state_json,
}
use sendingnetwork_ios.Models.KeyBackup.{read_by_key, json_by_key}
use sendingnetwork_ios.Models.RoomSync.{RoomSync, room_sync_from_json, room_sync_json}

pub record DeviceListResponse : Type 0 where
  pub changed : Option (List Json)
  pub left : Option (List Json)

unfoldable pub device_list_response_from_json : Dict Json → DeviceListResponse
device_list_response_from_json json = record {
  changed = set_array none (lookup "changed" json);
  left = set_array none (lookup "left" json);
}

unfoldable pub device_list_response_json : DeviceListResponse → Dict Json
device_list_response_json r = put "left" (as_array r.left) (put "changed" (as_array r.changed) [])

pub record GroupSyncProfile : Type 0 where
  pub name : Option String
  pub avatar_url : Option String

unfoldable pub group_sync_profile_from_json : Dict Json → GroupSyncProfile
group_sync_profile_from_json json = record {
  name = set_string none (lookup "name" json);
  avatar_url = set_string none (lookup "avatar_url" json);
}

unfoldable pub group_sync_profile_json : GroupSyncProfile → Dict Json
group_sync_profile_json p = put "avatar_url" (as_text p.avatar_url) (put "name" (as_text p.name) [])

pub record InvitedGroupSync : Type 0 where
  pub inviter : Option String
  pub profile : Option GroupSyncProfile

unfoldable pub invited_group_sync_from_json : Dict Json → Outcome InvitedGroupSync
invited_group_sync_from_json json = do
  profile ← set_model none (always group_sync_profile_from_json) (lookup "profile" json)
  returned (record { inviter = set_string none (lookup "inviter" json); profile = profile })

unfoldable pub invited_group_sync_json : InvitedGroupSync → Dict Json
invited_group_sync_json g =
    put "profile" (as_model group_sync_profile_json g.profile)
      (put "inviter" (as_text g.inviter) [])

-- What `for (key in value) … value[key]` goes through when `value` is there.
abbrev keyed : Option Json → Outcome (Option (Dict Json))
keyed none = returned none
keyed (some (dictionary f)) = returned (some (entries f))
keyed (some (array nil)) = returned (some [])
keyed (some _) = raised

-- allKeys, of a dictionary
abbrev all_keys : Option Json → Option (List String)
all_keys (some (dictionary f)) = some (keys (entries f))
all_keys _ = none

pub record GroupsSyncResponse : Type 0 where
  pub join : Option (List String)
  pub invite : Option (Dict InvitedGroupSync)
  pub leave : Option (List String)

unfoldable pub groups_sync_response_from_json : Dict Json → Outcome GroupsSyncResponse
groups_sync_response_from_json json = do
  invited ← keyed (lookup "invite" json)
  invite ← read_by_key (made invited_group_sync_from_json) invited
  returned (record {
    join = all_keys (lookup "join" json);
    invite = invite;
    leave = all_keys (lookup "leave" json);
  })

pub record InvitedRoomSync : Type 0 where
  pub invite_state : Option RoomInviteState

unfoldable pub invited_room_sync_from_json : (now : ℕ) → Dict Json → Outcome InvitedRoomSync
invited_room_sync_from_json now json = do
  state ← set_model none (made (room_invite_state_from_json now)) (lookup "invite_state" json)
  returned (record { invite_state = state })

unfoldable pub invited_room_sync_json : (now : ℕ) → InvitedRoomSync → Dict Json
invited_room_sync_json now r =
    put "invite_state" (as_model (room_invite_state_json now) r.invite_state) []

pub record RoomsSyncResponse : Type 0 where
  pub join : Option (Dict RoomSync)
  pub invite : Option (Dict InvitedRoomSync)
  pub leave : Option (Dict RoomSync)

unfoldable pub rooms_sync_response_from_json : (now : ℕ) → Dict Json → Outcome RoomsSyncResponse
rooms_sync_response_from_json now json = do
  joined ← keyed (lookup "join" json)
  join ← read_by_key (made (room_sync_from_json now)) joined
  invited ← keyed (lookup "invite" json)
  invite ← read_by_key (made (invited_room_sync_from_json now)) invited
  left ← keyed (lookup "leave" json)
  leave ← read_by_key (made (room_sync_from_json now)) left
  returned (record { join = join; invite = invite; leave = leave })

-- The JSON of the models under the keys of a dictionary that may be nil.
abbrev as_models {ℓ} : {A : Type ℓ} → (A → Dict Json) → Option (Dict A) → Option Json
as_models model_json none = none
as_models model_json (some d) = some (dictionary (fields (json_by_key model_json d)))

unfoldable pub rooms_sync_response_json : (now : ℕ) → RoomsSyncResponse → Dict Json
rooms_sync_response_json now r = put "leave" (as_models (room_sync_json now) r.leave) (
    put "invite" (as_models (invited_room_sync_json now) r.invite)
      (put "join" (as_models (room_sync_json now) r.join) []))

pub record SyncResponse : Type 0 where
  pub account_data : Option (Dict Json)
  pub next_batch : Option String
  pub presence : Option PresenceSyncResponse
  pub to_device : Option ToDeviceSyncResponse
  pub device_lists : Option DeviceListResponse
  pub device_one_time_keys_count : Option (Dict Json)
  pub unused_fallback_keys : Option (List Json)
  pub rooms : Option RoomsSyncResponse
  pub groups : Option GroupsSyncResponse

unfoldable pub sync_response_from_json : (now : ℕ) → Dict Json → Outcome SyncResponse
sync_response_from_json now json = do
  presence ← set_model none (made (presence_sync_response_from_json now)) (lookup "presence" json)
  to_device ←
      set_model none (made (to_device_sync_response_from_json now)) (lookup "to_device" json)
  device_lists ← set_model none (always device_list_response_from_json) (lookup "device_lists" json)
  rooms ← set_model none (made (rooms_sync_response_from_json now)) (lookup "rooms" json)
  groups ← set_model none (made groups_sync_response_from_json) (lookup "groups" json)
  returned (record {
    account_data = set_dictionary none (lookup "account_data" json);
    next_batch = set_string none (lookup "next_batch" json);
    presence = presence;
    to_device = to_device;
    device_lists = device_lists;
    device_one_time_keys_count = set_dictionary none (lookup "device_one_time_keys_count" json);
    unused_fallback_keys =
        set_array none (lookup "org.sdn.msc2732.device_unused_fallback_key_types" json);
    rooms = rooms;
    groups = groups;
  })
