-- ===== src/Models/RoomKeys/RoundTrip.antt =====
-- What is read back of the keys that SDNSDK/Crypto writes to JSON.
use sendingnetwork_ios.Common.{
  true, Option, none, some, List, [], ◌≡◌, refl, inl, inr, ap, Bool-cases, if◌then◌else◌,
}
use sendingnetwork_ios.Common.Dict.{Dict, lookup}
use sendingnetwork_ios.Json.{Json, elements}
use sendingnetwork_ios.Json.Setters.{set_array, set_dictionary}
use sendingnetwork_ios.Json.Writers.{
  json_laws, as_array, set_dictionary-as_dictionary, set_array-as_array,
}
use sendingnetwork_ios.Models.RoomKeys.{
  RoomKeyEventContent, room_key_event_content_from_json, room_key_event_content_json,
  ForwardedRoomKeyEventContent, forwarded_room_key_event_content_from_json,
  forwarded_room_key_event_content_json, MegolmSessionData, megolm_session_data_from_json,
  megolm_session_data_json, session_data_fields, has_required, claimed_keys_json, key_chain_json,
  chain_or_empty,
}

-- The content of a room key event is read back from the JSON that is made of it.
pub room_key_event_content_from_json-room_key_event_content_json :
    (c : RoomKeyEventContent)
    → room_key_event_content_from_json (room_key_event_content_json c) ≡ some c
unfolding room_key_event_content_from_json room_key_event_content_json lookup
room_key_event_content_from_json-room_key_event_content_json c = simp json_laws refl

abbrev pub or_empty : Option (List Json) → List Json
or_empty none = []
or_empty (some chain) = chain

chain_read :
    (o : Option (List Json)) → set_array none (chain_or_empty (as_array o)) ≡ some (or_empty o)
unfolding as_array set_array elements
chain_read none = refl
chain_read (some chain) = set_array-as_array (some chain)

-- The content of a forwarded room key event is read back from the JSON that is made of it, with an
-- empty chain of keys if it had none.
pub forwarded_room_key_event_content_from_json-forwarded_room_key_event_content_json :
    (c : ForwardedRoomKeyEventContent)
    → forwarded_room_key_event_content_from_json (forwarded_room_key_event_content_json c)
      ≡ some (record c {
        forwarding_curve25519_key_chain = some (or_empty c.forwarding_curve25519_key_chain);
      })
unfolding forwarded_room_key_event_content_from_json forwarded_room_key_event_content_json
    room_key_event_content_from_json lookup
forwarded_room_key_event_content_from_json-forwarded_room_key_event_content_json c =
    simp (json_laws, chain_read) refl

claimed_read : (o : Option (Dict Json)) → set_dictionary none (claimed_keys_json o) ≡ o
unfolding set_dictionary
claimed_read none = refl
claimed_read (some d) = set_dictionary-as_dictionary (some d)

key_chain_read : (o : Option (List Json)) → set_array none (key_chain_json o) ≡ some (or_empty o)
unfolding set_array elements
key_chain_read none = refl
key_chain_read (some chain) = set_array-as_array (some chain)

session_data_read :
    (s : MegolmSessionData)
    → megolm_session_data_from_json true (session_data_fields s) ≡ record s {
      forwarding_curve25519_key_chain = some (or_empty s.forwarding_curve25519_key_chain);
    }
unfolding megolm_session_data_from_json session_data_fields lookup
session_data_read s = simp (json_laws, claimed_read, key_chain_read) refl

abbrev pub read_session : Option (Dict Json) → Option MegolmSessionData
read_session none = none
read_session (some json) = some (megolm_session_data_from_json true json)

-- While room history is shared on invites, session data with all required fields are read back, a nil
-- chain of keys as an empty one; with one missing there is nothing to read.
pub megolm_session_data_from_json-megolm_session_data_json :
    (s : MegolmSessionData)
    → read_session (megolm_session_data_json s) ≡ (
        if has_required s
        then some (record s {
          forwarding_curve25519_key_chain = some (or_empty s.forwarding_curve25519_key_chain);
        })
        else none)
unfolding megolm_session_data_json
megolm_session_data_from_json-megolm_session_data_json s = elim (Bool-cases (has_required s)) [
  | inl whole ↦ rw whole (ap some (session_data_read s))
  | inr missing ↦ rw missing refl
]
