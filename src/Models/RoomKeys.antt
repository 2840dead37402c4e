-- ===== src/Models/RoomKeys.antt =====
-- SDNSDK/Crypto/Data/MXMegolmSessionData.h and .m, and the key events of
-- SDNSDK/Crypto/KeySharing/Data.
pub mod RoundTrip
use sendingnetwork_ios.Common.{
  String, Bool, false, ◌&&◌, Option, none, some, List, [], if◌then◌else◌, is_some,
}
use sendingnetwork_ios.Common.Dict.{Dict, lookup, keys}
use sendingnetwork_ios.Json.{Json, array, nil}
use sendingnetwork_ios.Json.Setters.{set_string, set_array, set_dictionary, set_boolean}
use sendingnetwork_ios.Json.Writers.{put, as_text, as_dictionary, as_array, as_boolean}

pub record MegolmSessionData : Type 0 where
  pub sender_key : Option String
  pub forwarding_curve25519_key_chain : Option (List Json)
  pub sender_claimed_keys : Option (Dict Json)
  pub room_id : Option String
  pub session_id : Option String
  pub session_key : Option String
  pub shared_history : Bool
  pub algorithm : Option String
  pub untrusted : Bool

-- `enabled` is enableRoomSharedHistoryOnInvite of the options.
unfoldable pub megolm_session_data_from_json : (enabled : Bool) → Dict Json → MegolmSessionData
megolm_session_data_from_json enabled json = record {
  sender_key = set_string none (lookup "sender_key" json);
  forwarding_curve25519_key_chain = set_array none (lookup "forwarding_curve25519_key_chain" json);
  sender_claimed_keys = set_dictionary none (lookup "sender_claimed_keys" json);
  room_id = set_string none (lookup "room_id" json);
  session_id = set_string none (lookup "session_id" json);
  session_key = set_string none (lookup "session_key" json);
  shared_history = enabled && set_boolean false (lookup "org.sdn.msc3061.shared_history" json);
  algorithm = set_string none (lookup "algorithm" json);
  untrusted = set_boolean false (lookup "untrusted" json);
}

-- nil is written as an empty array, for the claimed keys too.
abbrev claimed_keys_json : Option (Dict Json) → Option Json
claimed_keys_json none = some (array nil)
claimed_keys_json (some keys) = as_dictionary (some keys)

abbrev key_chain_json : Option (List Json) → Option Json
key_chain_json none = some (array nil)
key_chain_json (some chain) = as_array (some chain)

unfoldable pub session_data_fields : MegolmSessionData → Dict Json
session_data_fields s = put "untrusted" (as_boolean s.untrusted) (
    put "forwarding_curve25519_key_chain" (key_chain_json s.forwarding_curve25519_key_chain) (
      put "algorithm" (as_text s.algorithm) (
        put "org.sdn.msc3061.shared_history" (as_boolean s.shared_history) (
          put "session_key" (as_text s.session_key) (
            put "session_id" (as_text s.session_id) (
              put "room_id" (as_text s.room_id) (
                put "sender_claimed_keys" (claimed_keys_json s.sender_claimed_keys)
                  (put "sender_key" (as_text s.sender_key) []))))))))

abbrev pub has_required : MegolmSessionData → Bool
has_required s =
    is_some s.sender_key
    && is_some s.room_id
    && is_some s.session_id
    && is_some s.session_key
    && is_some s.algorithm

unfoldable pub megolm_session_data_json : MegolmSessionData → Option (Dict Json)
megolm_session_data_json s = if has_required s then some (session_data_fields s) else none

unfoldable pub check_fields_before_encryption : MegolmSessionData → Bool
check_fields_before_encryption s =
    is_some s.algorithm
    && is_some s.sender_key
    && is_some s.sender_claimed_keys
    && is_some s.session_key

pub record RoomKeyEventContent : Type 0 where
  pub algorithm : String
  pub room_id : String
  pub session_id : String
  pub session_key : String
  pub shared_history : Bool

abbrev room_key_content :
    Option String
    → Option String
    → Option String
    → Option String
    → Bool
    → Option RoomKeyEventContent
room_key_content (some algorithm) (some room_id) (some session_id) (some session_key) shared =
    some (record {
      algorithm = algorithm;
      room_id = room_id;
      session_id = session_id;
      session_key = session_key;
      shared_history = shared;
    })
room_key_content _ _ _ _ shared = none

unfoldable pub room_key_event_content_from_json : Dict Json → Option RoomKeyEventContent
room_key_event_content_from_json json =
    room_key_content (set_string none (lookup "algorithm" json))
      (set_string none (lookup "room_id" json)) (set_string none (lookup "session_id" json))
      (set_string none (lookup "session_key" json))
      (set_boolean false (lookup "org.sdn.msc3061.shared_history" json))

unfoldable pub room_key_event_content_json : RoomKeyEventContent → Dict Json
room_key_event_content_json c = put "org.sdn.msc3061.shared_history" (as_boolean c.shared_history) (
    put "session_key" (as_text (some c.session_key)) (
      put "session_id" (as_text (some c.session_id)) (
        put "room_id" (as_text (some c.room_id))
          (put "algorithm" (as_text (some c.algorithm)) []))))

pub record ForwardedRoomKeyEventContent : Type 0 where
  pub algorithm : String
  pub room_id : String
  pub sender_key : String
  pub session_id : String
  pub session_key : String
  pub forwarding_curve25519_key_chain : Option (List Json)
  pub sender_claimed_ed25519_key : String
  pub shared_history : Bool

abbrev forwarded_key_content :
    Option RoomKeyEventContent
    → Option String
    → Option String
    → Option (List Json)
    → Option ForwardedRoomKeyEventContent
forwarded_key_content (some key) (some sender_key) (some claimed) chain = some (record {
  algorithm = key.algorithm;
  room_id = key.room_id;
  sender_key = sender_key;
  session_id = key.session_id;
  session_key = key.session_key;
  forwarding_curve25519_key_chain = chain;
  sender_claimed_ed25519_key = claimed;
  shared_history = key.shared_history;
})
forwarded_key_content _ _ _ chain = none

-- A chain that is absent is read as an empty array.
abbrev chain_or_empty : Option Json → Option Json
chain_or_empty none = some (array nil)
chain_or_empty (some chain) = some chain

-- The keys that the two events share are those of a room key event.
unfoldable pub forwarded_room_key_event_content_from_json :
    Dict Json → Option ForwardedRoomKeyEventContent
forwarded_room_key_event_content_from_json json =
    forwarded_key_content (room_key_event_content_from_json json)
      (set_string none (lookup "sender_key" json))
      (set_string none (lookup "sender_claimed_ed25519_key" json))
      (set_array none (chain_or_empty (lookup "forwarding_curve25519_key_chain" json)))

unfoldable pub forwarded_room_key_event_content_json : ForwardedRoomKeyEventContent → Dict Json
forwarded_room_key_event_content_json c =
    put "org.sdn.msc3061.shared_history" (as_boolean c.shared_history) (
      put "sender_claimed_ed25519_key" (as_text (some c.sender_claimed_ed25519_key)) (
        put "forwarding_curve25519_key_chain" (as_array c.forwarding_curve25519_key_chain) (
          put "session_key" (as_text (some c.session_key)) (
            put "session_id" (as_text (some c.session_id)) (
              put "sender_key" (as_text (some c.sender_key)) (
                put "room_id" (as_text (some c.room_id))
                  (put "algorithm" (as_text (some c.algorithm)) [])))))))
