-- ===== src/Models/Events.antt =====
-- SDNSDK/JSONModels/MXEvent.h and .m, and SDNSDK/JSONModels/Event/MXEventUnsignedData.h and .m: an
-- event as it is read from JSON and written back. The clock is an input, in whole milliseconds; an
-- age from before its start counts as the start. Of the aggregated relations the thread is left out,
-- as Models.Relations says. A clear event and the errors of sending are not part of the model.
pub mod RoundTrip
pub mod Reading
use sendingnetwork_ios.Common.{ℕ, ◌-◌, ◌^◌, String, Option, none, some, [], if◌then◌else◌, eqb}
use sendingnetwork_ios.Common.Dict.{Dict, lookup, remove}
use sendingnetwork_ios.Conversions.{presence}
use sendingnetwork_ios.EventType.{EventType, event_type, custom}
use sendingnetwork_ios.Json.{Json, text, number, dictionary, fields, remove_null_values_in_json}
use sendingnetwork_ios.Json.Setters.{
  Outcome, returned, ◌>>=◌, unsigned_value, set_string, set_dictionary, set_unsigned, set_model,
  made,
}
use sendingnetwork_ios.Json.Writers.{put, as_model, as_text, as_dictionary, as_unsigned}
use sendingnetwork_ios.Models.Relations.{
  EventRelations, event_relations_from_json, event_relations_json,
}

-- _ageLocalTs of -1
abbrev pub undefined_timestamp : ℕ
undefined_timestamp = 2 ^ 64 - 1

pub data SentState : Type 0 where
  sent preparing encrypting uploading sending failed : SentState

-- setAge:, when the JSON has an age that is a number
abbrev set_age : (now : ℕ) → Option Json → ℕ
set_age now (some (number n)) = now - unsigned_value n
set_age now _ = undefined_timestamp

pub record EventUnsignedData : Type 0 where
  pub age_local_ts : ℕ
  pub replaces_state : Option String
  pub prev_sender : Option String
  pub prev_content : Option (Dict Json)
  pub redacted_because : Option (Dict Json)
  pub transaction_id : Option String
  pub invite_room_state : Option (Dict Json)
  pub relations : Option EventRelations

unfoldable pub event_unsigned_data_from_json : (now : ℕ) → Dict Json → Outcome EventUnsignedData
event_unsigned_data_from_json now json = do
  relations ← set_model none event_relations_from_json (lookup "m.relations" json)
  returned (record {
    age_local_ts = set_age now (lookup "age" json);
    replaces_state = set_string none (lookup "replaces_state" json);
    prev_sender = set_string none (lookup "prev_sender" json);
    prev_content = set_dictionary none (lookup "prev_content" json);
    redacted_because = set_dictionary none (lookup "redacted_because" json);
    transaction_id = set_string none (lookup "transaction_id" json);
    invite_room_state = set_dictionary none (lookup "invite_room_state" json);
    relations = relations;
  })

pub record Event : Type 0 where
  pub event_id : Option String
  pub room_id : Option String
  -- Of a presence event, whatever its content holds.
  pub sender : Option Json
  pub sent_state : SentState
  pub wire_type : Option String
  pub wire_event_type : EventType
  pub wire_content : Option (Dict Json)
  pub prev_content : Option (Dict Json)
  pub state_key : Option String
  pub origin_server_ts : ℕ
  pub unsigned_data : Option EventUnsignedData
  pub age_local_ts : ℕ
  pub redacts : Option String
  pub redacted_because : Option (Dict Json)
  pub invite_room_state : Option (Dict Json)

-- eventType: of a text that may be nil
abbrev event_type_of : Option String → EventType
event_type_of none = custom
event_type_of (some type) = event_type type

-- The sender of a presence event without one is looked for in its content.
abbrev content_user_id : Option (Dict Json) → Option Json
content_user_id none = none
content_user_id (some content) = lookup "user_id" content

abbrev presence_sender : Option String → EventType → Option (Dict Json) → Option Json
presence_sender (some sender) type content = as_text (some sender)
presence_sender none EventType.presence content = content_user_id content
presence_sender none _ content = none

-- wireContentFixingNonStringMsgtypesIn:
abbrev text_or_gone : Option Json → Dict Json → Dict Json
text_or_gone none content = content
text_or_gone (some (text s)) content = content
text_or_gone (some _) content = remove "msgtype" content

unfoldable pub wire_content_fixing_non_string_msgtypes : Dict Json → Dict Json
wire_content_fixing_non_string_msgtypes content = text_or_gone (lookup "msgtype" content) content

-- What finalise makes of a content, which may be nil.
unfoldable pub finalise_content : Option (Dict Json) → Option (Dict Json)
finalise_content none = none
finalise_content (some content) =
    some (wire_content_fixing_non_string_msgtypes (remove_null_values_in_json content))

-- The event of a JSON whose unsigned data are read already.
abbrev pub event_with : (now : ℕ) → Dict Json → Option EventUnsignedData → Event
event_with now json unsigned_data =
    let type = set_string none (lookup "type" json) in
    let content = set_dictionary none (lookup "content" json) in
    record {
      event_id = set_string none (lookup "event_id" json);
      room_id = set_string none (lookup "room_id" json);
      sender =
          presence_sender (set_string none (lookup "sender" json)) (event_type_of type) content;
      sent_state = sent;
      wire_type = type;
      wire_event_type = event_type_of type;
      wire_content = finalise_content content;
      prev_content = finalise_content (set_dictionary none (lookup "prev_content" json));
      state_key = set_string none (lookup "state_key" json);
      origin_server_ts = set_unsigned 0 (lookup "origin_server_ts" json);
      unsigned_data = unsigned_data;
      age_local_ts = set_age now (lookup "age" json);
      redacts = set_string none (lookup "redacts" json);
      redacted_because = set_dictionary none (lookup "redacted_because" json);
      invite_room_state = set_dictionary none (lookup "invite_room_state" json);
    }

unfoldable pub event_from_json : (now : ℕ) → Dict Json → Outcome Event
event_from_json now json = do
  unsigned_data ← set_model none (made (event_unsigned_data_from_json now)) (lookup "unsigned" json)
  returned (event_with now json unsigned_data)

-- The age at the time of writing.
abbrev as_age : (now age_local_ts : ℕ) → Option Json
as_age now ts = if eqb ts undefined_timestamp then none else as_unsigned (now - ts)

unfoldable pub event_unsigned_data_json : (now : ℕ) → EventUnsignedData → Dict Json
unfolding put
event_unsigned_data_json now u = put "m.relations" (as_model event_relations_json u.relations) (
    put "invite_room_state" (as_dictionary u.invite_room_state) (
      put "transaction_id" (as_text u.transaction_id) (
        put "redacted_because" (as_dictionary u.redacted_because) (
          put "prev_content" (as_dictionary u.prev_content) (
            put "prev_sender" (as_text u.prev_sender) (
              put "replaces_state" (as_text u.replaces_state)
                (put "age" (as_age now u.age_local_ts) [])))))))

unfoldable pub event_json : (now : ℕ) → Event → Dict Json
unfolding put
event_json now e = put "invite_room_state" (as_dictionary e.invite_room_state) (
    put "redacted_because" (as_dictionary e.redacted_because) (
      put "age" (as_age now e.age_local_ts) (
        put "prev_content" (as_dictionary e.prev_content) (
          put "unsigned" (as_model (event_unsigned_data_json now) e.unsigned_data) (
            put "redacts" (as_text e.redacts) (
              put "origin_server_ts" (as_unsigned e.origin_server_ts) (
                put "state_key" (as_text e.state_key) (
                  put "content" (as_dictionary e.wire_content) (
                    put "sender" e.sender (
                      put "room_id" (as_text e.room_id) (
                        put "type" (as_text e.wire_type)
                          (put "event_id" (as_text e.event_id) []))))))))))))
