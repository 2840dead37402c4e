-- ===== src/Models/Tests.antt =====
-- Models that are written and read back.
use sendingnetwork_ios.Common.{
  ◌==◌, ◌&&◌, if◌then◌else◌, String, true, false, ◌≡◌, refl, none, some, [], ◌∷◌, arith,
}
use sendingnetwork_ios.Common.Int.{pos, negsuc}
use sendingnetwork_ios.Common.Dict.{remove, Dict, lookup}
use sendingnetwork_ios.Json.{
  elements, remove_null_values_in_json, clean, Json, text, Fields, array, cons, nil, number,
  integer, dictionary, end, field, null, entries,
}
use sendingnetwork_ios.Json.Setters.{
  set_model, set_models, models_from_json, set_string, set_unsigned, unsigned_value, set_boolean,
  set_integer, integer_value, set_dictionary, ◌>>=◌, returned,
}
use sendingnetwork_ios.Models.Events.{
  event_unsigned_data_from_json, finalise_content, wire_content_fixing_non_string_msgtypes, Event,
  sent, undefined_timestamp, event_from_json, event_json,
}
use sendingnetwork_ios.EventType.{event_type, room_message}
use sendingnetwork_ios.Models.Events.Reading.{
  event_from_json-IsReadEvent, event_from_json-event_json-event_from_json,
}
use sendingnetwork_ios.Models.Relations.{
  event_relations_from_json, event_annotation_chunk_from_json, event_annotation_from_json,
  set_count, event_replace_from_json,
}
use sendingnetwork_ios.Json.Writers.{as_text}
use sendingnetwork_ios.Models.KeyBackup.{
  KeyBackupData, RoomKeysBackupData, keys_backup_data_from_json, keys_backup_data_json,
}
use sendingnetwork_ios.Models.KeyBackup.RoundTrip.{keys_backup_data_from_json-keys_backup_data_json}
use sendingnetwork_ios.Models.RoomKeys.{MegolmSessionData, megolm_session_data_json}
use sendingnetwork_ios.Models.RoomKeys.RoundTrip.{
  read_session, megolm_session_data_from_json-megolm_session_data_json,
}
use sendingnetwork_ios.Models.TaggedEvents.{TaggedEvents, TaggedEventInfo, tag_event, untag_event}
use sendingnetwork_ios.Models.TaggedEvents.Tagging.{entry_of, untag_event-tag_event}
use sendingnetwork_ios.Models.RoomSync.{RoomSync, room_sync_from_json, room_sync_json}
use sendingnetwork_ios.Models.RoomSync.RoundTrip.{IsReadRoom, room_sync_from_json-room_sync_json}

abbrev relations : Fields
relations =
    field "m.annotation"
      (dictionary (
        field "chunk"
          (array (
            cons (dictionary (field "type" (text "m.reaction") (field "key" (text "+1") end))) nil))
          (field "count" (number (integer (pos 1))) end)))
      (field "m.replace" (dictionary (field "event_id" (text "$2") end)) end)

abbrev message : Dict Json
message =
    ("sender", text "@a")
    ∷ ("type", text "m.room.message")
    ∷ ("content", dictionary (field "msgtype" (number (integer (pos 1))) (field "body" null end)))
    ∷ ("age", number (integer (pos 40)))
    ∷ ("unsigned", dictionary (field "m.relations" (dictionary relations) end))
    ∷ []

abbrev read_message : Event
read_message = record {
  event_id = none;
  room_id = none;
  sender = some (text "@a");
  sent_state = sent;
  wire_type = some "m.room.message";
  wire_event_type = room_message;
  wire_content = some [];
  prev_content = none;
  state_key = none;
  origin_server_ts = 0;
  unsigned_data = some (record {
    age_local_ts = undefined_timestamp;
    replaces_state = none;
    prev_sender = none;
    prev_content = none;
    redacted_because = none;
    transaction_id = none;
    invite_room_state = none;
    relations = some (record {
      annotation = some (record {
        chunk = record { type = "m.reaction"; key = "+1"; count = 0 } ∷ [];
        count = 1;
        limited = false;
      });
      reference = none;
      replace = some (record { event_id = some "$2" });
    });
  });
  age_local_ts = 60;
  redacts = none;
  redacted_because = none;
  invite_room_state = none;
}

message_is_read : event_from_json 100 message ≡ returned read_message
unfolding event_from_json set_model lookup event_unsigned_data_from_json entries
    event_relations_from_json event_annotation_chunk_from_json set_models models_from_json elements
    set_string finalise_content set_unsigned set_dictionary event_annotation_from_json
    unsigned_value as_text event_type wire_content_fixing_non_string_msgtypes set_count set_boolean
    event_replace_from_json remove_null_values_in_json set_integer clean integer_value remove
message_is_read = refl

event_from_json-event_json-event_from_json_example :
    event_from_json 100 (event_json 100 read_message) ≡ returned read_message
unfolding lookup set_dictionary entries
event_from_json-event_json-event_from_json_example =
    event_from_json-event_json-event_from_json 100 "@a" message read_message (omega arith) refl refl
      message_is_read ("$2", refl)

abbrev key_backup : KeyBackupData
key_backup = record {
  first_message_index = pos 3;
  forwarded_count = negsuc 0;
  verified = true;
  session_data = some (("ciphertext", text "x") ∷ []);
}

abbrev backup : Dict RoomKeysBackupData
backup = ("!r", record { sessions = some (("s", key_backup) ∷ []) }) ∷ []

keys_backup_data_from_json-keys_backup_data_json_example :
    keys_backup_data_from_json (keys_backup_data_json (record { rooms = some backup }))
    ≡ returned (record { rooms = some backup })
keys_backup_data_from_json-keys_backup_data_json_example =
    keys_backup_data_from_json-keys_backup_data_json (record { rooms = some backup }) backup refl
      ((("s", key_backup) ∷ [], refl, ((omega arith, omega arith), tt)), tt)

abbrev session : MegolmSessionData
session = record {
  sender_key = some "k";
  forwarding_curve25519_key_chain = none;
  sender_claimed_keys = none;
  room_id = some "!r";
  session_id = some "s";
  session_key = some "key";
  shared_history = true;
  algorithm = some "m.megolm.v1.aes-sha2";
  untrusted = true;
}

megolm_session_data_from_json-megolm_session_data_json_example :
    read_session (megolm_session_data_json session)
    ≡ some (record session { forwarding_curve25519_key_chain = some [] })
megolm_session_data_from_json-megolm_session_data_json_example =
    megolm_session_data_from_json-megolm_session_data_json session

abbrev room_sync : RoomSync
room_sync = record {
  state = some (record { events = none });
  timeline =
      some (record { events = some (read_message ∷ []); limited = true; prev_batch = some "t" });
  ephemeral = none;
  account_data = none;
  unread_notifications = some (record { notification_count = 2; highlight_count = 1 });
  unread_notifications_per_thread =
      some (("$t", record { notification_count = 1; highlight_count = 0 }) ∷ []);
  summary = none;
}

room_sync-IsReadRoom : IsReadRoom 100 room_sync
unfolding lookup
room_sync-IsReadRoom = record {
  state_is_read = tt;
  timeline_is_read = (
    (
      "@a",
      event_from_json-IsReadEvent 100 "@a" message read_message (omega arith) refl message_is_read
          ("$2", refl),
    ),
    tt,
  );
  ephemeral_is_read = tt;
  account_data_is_read = tt;
  unread_is_read = (omega arith, omega arith);
  summary_is_read = tt;
}

room_sync_from_json-room_sync_json_example :
    room_sync_from_json 100 (room_sync_json 100 room_sync)
    ≡ returned (record room_sync { unread_notifications_per_thread = none })
room_sync_from_json-room_sync_json_example =
    room_sync_from_json-room_sync_json 100 room_sync room_sync-IsReadRoom

abbrev favourites : TaggedEvents
favourites = record {
  tags = some (
      (
        "m.favourite",
        dictionary (field "$1" (dictionary (field "tagged_at" (number (integer (pos 7))) end)) end),
      )
      ∷ []);
}

abbrev favourite : TaggedEventInfo
favourite = record { keywords = none; origin_server_ts = 5; tagged_at = 9 }

untag_event-tag_event_example :
    (s : TaggedEvents) × ((do
      tagged ← tag_event "$2" favourite "m.favourite" favourites
      untag_event "$2" "m.favourite" tagged)
      ≡ returned s)
    × ((other u : String)
        → entry_of other u s
          ≡ (if ("m.favourite" == u) && ("$2" == other) then none else entry_of other u favourites))
unfolding lookup entries
untag_event-tag_event_example =
    untag_event-tag_event "$2" "m.favourite" favourite favourites
      (("$1", dictionary (field "tagged_at" (number (integer (pos 7))) end)) ∷ []) refl
