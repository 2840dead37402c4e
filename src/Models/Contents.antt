-- ===== src/Models/Contents.antt =====
-- SDNSDK/JSONModels: contents of state events and answers of a few fields, each from its own file.
use sendingnetwork_ios.Common.{
  ℕ, String, Bool, true, Option, none, some, List, [], is_some, equal_ids,
}
use sendingnetwork_ios.Common.Dict.{Dict, lookup}
use sendingnetwork_ios.Json.{Json, text}
use sendingnetwork_ios.Json.Setters.{
  Outcome, returned, ◌>>=◌, set_string, set_array, set_boolean, set_unsigned, set_model, always,
  perhaps,
}
use sendingnetwork_ios.Json.Writers.{put, as_text}

pub record RefreshResponse : Type 0 where
  pub access_token : Option String
  pub expires_in_ms : ℕ
  pub refresh_token : Option String

unfoldable pub refresh_response_from_json : Dict Json → RefreshResponse
refresh_response_from_json json = record {
  access_token = set_string none (lookup "access_token" json);
  expires_in_ms = set_unsigned 0 (lookup "expires_in_ms" json);
  refresh_token = set_string none (lookup "refresh_token" json);
}

pub record RoomAliasResolution : Type 0 where
  pub room_id : Option String
  pub servers : Option (List Json)

unfoldable pub room_alias_resolution_from_json : Dict Json → RoomAliasResolution
room_alias_resolution_from_json json = record {
  room_id = set_string none (lookup "room_id" json);
  servers = set_array none (lookup "servers" json);
}

pub record Device : Type 0 where
  pub device_id : Option String
  pub display_name : Option String
  pub last_seen_ip : Option String
  pub last_seen_ts : ℕ
  pub last_seen_user_agent : Option String

unfoldable pub device_from_json : Dict Json → Device
device_from_json json = record {
  device_id = set_string none (lookup "device_id" json);
  display_name = set_string none (lookup "display_name" json);
  last_seen_ip = set_string none (lookup "last_seen_ip" json);
  last_seen_ts = set_unsigned 0 (lookup "last_seen_ts" json);
  last_seen_user_agent = set_string none (lookup "org.sdn.msc3852.last_seen_user_agent" json);
}

pub record ServerNoticeContent : Type 0 where
  pub limit_type : Option String
  pub admin_contact : Option String
  pub server_notice_type : Option String

unfoldable pub server_notice_content_from_json : Dict Json → ServerNoticeContent
server_notice_content_from_json json = record {
  limit_type = set_string none (lookup "limit_type" json);
  admin_contact = set_string none (lookup "admin_contact" json);
  server_notice_type = set_string none (lookup "server_notice_type" json);
}

unfoldable pub is_server_notice_usage_limit : ServerNoticeContent → Bool
is_server_notice_usage_limit content =
    equal_ids (some "m.server_notice.usage_limit_reached") content.server_notice_type

pub record RoomTombStoneContent : Type 0 where
  pub body : String
  pub replacement_room_id : String

abbrev tomb_stone_of : Option String → Option String → Option RoomTombStoneContent
tomb_stone_of (some body) (some room_id) =
    some (record { body = body; replacement_room_id = room_id })
tomb_stone_of _ _ = none

unfoldable pub room_tomb_stone_content_from_json : Dict Json → Option RoomTombStoneContent
room_tomb_stone_content_from_json json =
    tomb_stone_of (set_string none (lookup "body" json))
      (set_string none (lookup "replacement_room" json))

unfoldable pub room_tomb_stone_content_json : RoomTombStoneContent → Dict Json
room_tomb_stone_content_json c =
    put "replacement_room" (some (text c.replacement_room_id)) (put "body" (some (text c.body)) [])

pub record RoomPredecessorInfo : Type 0 where
  pub room_id : String
  pub tomb_stone_event_id : String

abbrev predecessor_of : Option String → Option String → Option RoomPredecessorInfo
predecessor_of (some room_id) (some event_id) =
    some (record { room_id = room_id; tomb_stone_event_id = event_id })
predecessor_of _ _ = none

unfoldable pub room_predecessor_info_from_json : Dict Json → Option RoomPredecessorInfo
room_predecessor_info_from_json json =
    predecessor_of (set_string none (lookup "room_id" json))
      (set_string none (lookup "event_id" json))

unfoldable pub room_predecessor_info_json : RoomPredecessorInfo → Dict Json
room_predecessor_info_json p =
    put "event_id" (some (text p.tomb_stone_event_id)) (put "room_id" (some (text p.room_id)) [])

pub record VirtualRoomInfo : Type 0 where
  pub native_room_id : Option String

unfoldable pub virtual_room_info_from_json : Dict Json → VirtualRoomInfo
virtual_room_info_from_json json = record {
  native_room_id = set_string none (lookup "native_room" json);
}

unfoldable pub virtual_room_info_json : VirtualRoomInfo → Dict Json
virtual_room_info_json info = put "native_room" (as_text info.native_room_id) []

unfoldable pub is_virtual : VirtualRoomInfo → Bool
is_virtual info = is_some info.native_room_id

pub record RoomCreateContent : Type 0 where
  pub creator_user_id : Option String
  pub room_predecessor_info : Option RoomPredecessorInfo
  pub room_version : Option String
  pub is_federated : Bool
  pub virtual_room_info : Option VirtualRoomInfo
  pub room_type : Option String

-- Its JSONDictionary writes the object of the virtual room itself, which is no JSON value.
unfoldable pub room_create_content_from_json : Dict Json → Outcome RoomCreateContent
room_create_content_from_json json = do
  predecessor ← set_model none (perhaps room_predecessor_info_from_json) (lookup "predecessor" json)
  virtual ←
      set_model none (always virtual_room_info_from_json)
        (lookup "im.vectSending.is_virtual_room" json)
  returned (record {
    creator_user_id = set_string none (lookup "creator" json);
    room_predecessor_info = predecessor;
    room_version = set_string none (lookup "room_version" json);
    is_federated = set_boolean true (lookup "m.federate" json);
    virtual_room_info = virtual;
    room_type = set_string none (lookup "type" json);
  })
