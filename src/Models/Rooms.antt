-- ===== src/Models/Rooms.antt =====
-- SDNSDK/JSONModels/MXJSONModels.h and .m: public rooms, the history and the first state of a
-- room, and its join rules.
use sendingnetwork_ios.Common.{
  ℕ, String, Bool, false, Option, none, some, List, [], ◌∷◌, ◌==◌, if◌then◌else◌,
}
use sendingnetwork_ios.Common.Dict.{Dict, lookup}
use sendingnetwork_ios.Common.Int.{ℤ, pos}
use sendingnetwork_ios.Json.{Json, text, dictionary, entries, remove_null_values_in_json}
use sendingnetwork_ios.Json.Setters.{
  Outcome, raised, returned, ◌>>=◌, set_string, set_array, set_boolean, set_integer, set_unsigned,
  set_model, set_models, always, made,
}
use sendingnetwork_ios.Json.Writers.{put, as_text, as_array, as_boolean, as_integer}
use sendingnetwork_ios.Models.Events.{Event, event_from_json}
use Prim.Native.String.{◌++◌}
use package.text.Mathlib.Text.{starts_with}

pub record PublicRoom : Type 0 where
  pub room_id : Option String
  pub name : Option String
  pub canonical_alias : Option String
  pub aliases : Option (List Json)
  pub topic : Option String
  pub num_joined_members : ℤ
  pub world_readable : Bool
  pub guest_can_join : Bool
  pub avatar_url : Option String
  pub room_type_string : Option String

unfoldable pub public_room_from_json : Dict Json → PublicRoom
public_room_from_json source =
    let json = remove_null_values_in_json source in
    record {
      room_id = set_string none (lookup "room_id" json);
      name = set_string none (lookup "name" json);
      canonical_alias = set_string none (lookup "canonical_alias" json);
      aliases = set_array none (lookup "aliases" json);
      topic = set_string none (lookup "topic" json);
      num_joined_members = set_integer (pos 0) (lookup "num_joined_members" json);
      world_readable = set_boolean false (lookup "world_readable" json);
      guest_can_join = set_boolean false (lookup "guest_can_join" json);
      avatar_url = set_string none (lookup "avatar_url" json);
      room_type_string = set_string none (lookup "room_type" json);
    }

pub record PublicRoomsResponse : Type 0 where
  pub chunk : Option (List PublicRoom)
  pub next_batch : Option String
  pub total_room_count_estimate : ℕ

unfoldable pub public_rooms_response_from_json : Dict Json → Outcome PublicRoomsResponse
public_rooms_response_from_json json = do
  chunk ← set_models none (always public_room_from_json) (lookup "chunk" json)
  returned (record {
    chunk = chunk;
    next_batch = set_string none (lookup "next_batch" json);
    total_room_count_estimate = set_unsigned 0 (lookup "total_room_count_estimate" json);
  })

-- What a room without a name is called.
abbrev first_alias : Option (List Json) → Option Json
first_alias none = none
first_alias (some []) = none
first_alias (some (alias ∷ _)) = some alias

abbrev alias_or_id : Option Json → Option String → Option Json
alias_or_id (some alias) room_id = some alias
alias_or_id none none = none
alias_or_id none (some room_id) = some (text room_id)

-- A name with an alias after it. An alias that is no text is described by Foundation, which
-- `described` stands for.
abbrev aliased : (described : Json → String) → String → Option Json → Json
aliased described name none = text name
aliased described name (some alias) =
    if starts_with name "#" then text name else text (name ++ " (" ++ described alias ++ ")")

abbrev or_no_text : Option String → String
or_no_text none = ""
or_no_text (some s) = s

unfoldable pub displayname : (described : Json → String) → PublicRoom → Option Json
displayname described r =
    if or_no_text r.name == ""
    then alias_or_id (first_alias r.aliases) r.room_id
    else some (aliased described (or_no_text r.name) (first_alias r.aliases))

unfoldable pub public_room_json : PublicRoom → Dict Json
unfolding put
public_room_json r = put "room_type" (as_text r.room_type_string) (
    put "avatar_url" (as_text r.avatar_url) (
      put "guest_can_join" (as_boolean r.guest_can_join) (
        put "world_readable" (as_boolean r.world_readable) (
          put "num_joined_members" (as_integer r.num_joined_members) (
            put "topic" (as_text r.topic) (
              put "canonical_alias" (as_text r.canonical_alias) (
                put "aliases" (as_array r.aliases)
                  (put "name" (as_text r.name) (put "room_id" (as_text r.room_id) [])))))))))

pub record CreateRoomResponse : Type 0 where
  pub room_id : Option String

unfoldable pub create_room_response_from_json : Dict Json → CreateRoomResponse
create_room_response_from_json json = record { room_id = set_string none (lookup "room_id" json) }

pub record PaginationResponse : Type 0 where
  pub chunk : List Event
  pub state : Option (List Event)
  pub start : Option String
  pub end : Option String

abbrev or_no_events : Option (List Event) → List Event
or_no_events none = []
or_no_events (some events) = events

unfoldable pub pagination_response_from_json : (now : ℕ) → Dict Json → Outcome PaginationResponse
pagination_response_from_json now json = do
  chunk ← set_models none (made (event_from_json now)) (lookup "chunk" json)
  state ← set_models none (made (event_from_json now)) (lookup "state" json)
  returned (record {
    chunk = or_no_events chunk;
    state = state;
    start = set_string none (lookup "start" json);
    end = set_string none (lookup "end" json);
  })

pub record RoomInitialSync : Type 0 where
  pub room_id : Option String
  pub messages : Option PaginationResponse
  pub state : Option (List Event)
  pub account_data : Option (List Event)
  pub membership : Option String
  pub visibility : Option String
  pub inviter : Option String
  pub invite : Option Event
  pub presence : Option (List Event)
  pub receipts : Option (List Event)

unfoldable pub room_initial_sync_from_json : (now : ℕ) → Dict Json → Outcome RoomInitialSync
room_initial_sync_from_json now json = do
  messages ← set_model none (made (pagination_response_from_json now)) (lookup "messages" json)
  state ← set_models none (made (event_from_json now)) (lookup "state" json)
  account_data ← set_models none (made (event_from_json now)) (lookup "account_data" json)
  invite ← set_model none (made (event_from_json now)) (lookup "invite" json)
  presence ← set_models none (made (event_from_json now)) (lookup "presence" json)
  receipts ← set_models none (made (event_from_json now)) (lookup "receipts" json)
  returned (record {
    room_id = set_string none (lookup "room_id" json);
    messages = messages;
    state = state;
    account_data = account_data;
    membership = set_string none (lookup "membership" json);
    visibility = set_string none (lookup "visibility" json);
    inviter = set_string none (lookup "inviter" json);
    invite = invite;
    presence = presence;
    receipts = receipts;
  })

pub record EventContext : Type 0 where
  pub event : Option Event
  pub start : Option String
  pub events_before : Option (List Event)
  pub events_after : Option (List Event)
  pub end : Option String
  pub state : Option (List Event)

unfoldable pub event_context_from_json : (now : ℕ) → Dict Json → Outcome EventContext
event_context_from_json now json = do
  event ← set_model none (made (event_from_json now)) (lookup "event" json)
  before ← set_models none (made (event_from_json now)) (lookup "events_before" json)
  after ← set_models none (made (event_from_json now)) (lookup "events_after" json)
  state ← set_models none (made (event_from_json now)) (lookup "state" json)
  returned (record {
    event = event;
    start = set_string none (lookup "start" json);
    events_before = before;
    events_after = after;
    end = set_string none (lookup "end" json);
    state = state;
  })

pub record RoomJoinRuleResponse : Type 0 where
  pub join_rule : Option String
  pub allowed_parent_ids : List String

abbrev is_membership : Option String → Bool
is_membership none = false
is_membership (some type) = type == "m.room_membership"

abbrev add_id : Option String → List String → List String
add_id none ids = ids
add_id (some id) ids = id ∷ ids

-- The rooms that an array of rules allows; an item that is no dictionary raises.
unfoldable pub build_allowed_parent_ids : List Json → Outcome (List String)
build_allowed_parent_ids [] = returned []
build_allowed_parent_ids (dictionary f ∷ rules) = do
  ids ← build_allowed_parent_ids rules
  returned (
      if is_membership (set_string none (lookup "type" (entries f)))
      then add_id (set_string none (lookup "room_id" (entries f))) ids
      else ids)
build_allowed_parent_ids (_ ∷ rules) = raised

abbrev or_no_rules : Option (List Json) → List Json
or_no_rules none = []
or_no_rules (some rules) = rules

unfoldable pub room_join_rule_response_from_json : Dict Json → Outcome RoomJoinRuleResponse
room_join_rule_response_from_json json = do
  ids ← build_allowed_parent_ids (or_no_rules (set_array none (lookup "allow" json)))
  returned
      (record { join_rule = set_string none (lookup "join_rule" json); allowed_parent_ids = ids })
