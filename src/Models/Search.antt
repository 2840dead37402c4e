-- ===== src/Models/Search.antt =====
-- SDNSDK/JSONModels/MXJSONModels.h and .m: the results of a search. `asserts` tells whether NSAssert
-- raises, as it does in a debug build.
use sendingnetwork_ios.Common.{ℕ, String, Bool, Option, none, some, List, [], ◌∷◌, if◌then◌else◌}
use sendingnetwork_ios.Common.Int.{ℤ, pos}
use sendingnetwork_ios.Common.Dict.{Dict, lookup, insert}
use sendingnetwork_ios.Json.{Json, text, remove_null_values_in_json}
use sendingnetwork_ios.Json.Setters.{
  Outcome, raised, returned, ◌>>=◌, set_string, set_integer, set_unsigned, set_model, set_models,
  always, made, subscripted, enumerated, looked_up, models_by_key,
}
use sendingnetwork_ios.Models.Events.{Event, event_from_json}

pub record SearchUserProfile : Type 0 where
  pub avatar_url : Option String
  pub display_name : Option String

unfoldable pub search_user_profile_from_json : Dict Json → SearchUserProfile
search_user_profile_from_json json = record {
  avatar_url = set_string none (lookup "avatar_url" json);
  display_name = set_string none (lookup "displayname" json);
}

pub record SearchEventContext : Type 0 where
  pub start : Option String
  pub end : Option String
  pub events_before : Option (List Event)
  pub events_after : Option (List Event)
  pub profile_info : Dict SearchUserProfile

unfoldable pub search_event_context_from_json : (now : ℕ) → Dict Json → Outcome SearchEventContext
search_event_context_from_json now json = do
  before ← set_models none (made (event_from_json now)) (lookup "events_before" json)
  after ← set_models none (made (event_from_json now)) (lookup "events_after" json)
  profiles ← looked_up (lookup "profile_info" json)
  info ← models_by_key (always search_user_profile_from_json) profiles
  returned (record {
    start = set_string none (lookup "start" json);
    end = set_string none (lookup "end" json);
    events_before = before;
    events_after = after;
    profile_info = info;
  })

pub record SearchResult : Type 0 where
  pub result : Option Event
  pub rank : ℤ
  pub context : Option SearchEventContext

unfoldable pub search_result_from_json : (now : ℕ) → Dict Json → Outcome SearchResult
search_result_from_json now json = do
  result ← set_model none (made (event_from_json now)) (lookup "result" json)
  context ← set_model none (made (search_event_context_from_json now)) (lookup "context" json)
  returned (record {
    result = result;
    rank = set_integer (pos 0) (lookup "rank" json);
    context = context;
  })

-- Its results are always nil.
pub record SearchGroupContent : Type 0 where
  pub order : ℤ
  pub next_batch : Option String

unfoldable pub search_group_content_from_json :
    (asserts : Bool) → Dict Json → Outcome SearchGroupContent
search_group_content_from_json asserts json =
    if asserts
    then raised
    else returned (record {
      order = set_integer (pos 0) (lookup "order" json);
      next_batch = set_string none (lookup "next_batch" json);
    })

pub record SearchGroup : Type 0 where
  pub group : Dict SearchGroupContent

-- What stands in a dictionary under a key of any class.
abbrev value_at : Json → Dict Json → Option Json
value_at (text key) source = lookup key source
value_at _ source = none

abbrev grouped :
    Json → Option SearchGroupContent → Dict SearchGroupContent → Dict SearchGroupContent
grouped (text key) (some content) group = insert key content group
grouped _ _ group = group

-- The keys are those under `state`, the values those under `key`.
unfoldable pub search_group_contents :
    (asserts : Bool) → Option Json → List Json → Outcome (Dict SearchGroupContent)
search_group_contents asserts values [] = returned []
search_group_contents asserts values (key ∷ keys) = do
  source ← subscripted values
  content ← set_model none (made (search_group_content_from_json asserts)) (value_at key source)
  group ← search_group_contents asserts values keys
  returned (grouped key content group)

unfoldable pub search_group_from_json : (asserts : Bool) → Dict Json → Outcome SearchGroup
search_group_from_json asserts json = do
  keys ← enumerated (lookup "state" json)
  group ← search_group_contents asserts (lookup "key" json) keys
  returned (record { group = group })

pub record SearchRoomEventResults : Type 0 where
  pub count : ℕ
  pub results : Option (List SearchResult)
  pub state : Dict (List Event)
  pub groups : Dict SearchGroup
  pub next_batch : Option String

abbrev with_events : String → Option (List Event) → Dict (List Event) → Dict (List Event)
with_events room_id none state = state
with_events room_id (some events) state = (room_id, events) ∷ state

-- The events of each room under `state`
unfoldable pub events_by_room : (now : ℕ) → Dict Json → Outcome (Dict (List Event))
events_by_room now [] = returned []
events_by_room now ((room_id, value) ∷ d) = do
  events ← set_models none (made (event_from_json now)) (some value)
  state ← events_by_room now d
  returned (with_events room_id events state)

unfoldable pub search_room_event_results_from_json :
    (asserts : Bool) (now : ℕ) → Dict Json → Outcome SearchRoomEventResults
search_room_event_results_from_json asserts now json = do
  results ← set_models none (made (search_result_from_json now)) (lookup "results" json)
  grouped_json ← looked_up (lookup "groups" json)
  groups ← models_by_key (made (search_group_from_json asserts)) grouped_json
  state_json ← looked_up (lookup "state" json)
  state ← events_by_room now state_json
  returned (record {
    count = set_unsigned 0 (lookup "count" json);
    results = results;
    state = state;
    groups = groups;
    next_batch = set_string none (lookup "next_batch" json);
  })

pub record SearchCategories : Type 0 where
  pub room_events : Option SearchRoomEventResults

unfoldable pub search_categories_from_json :
    (asserts : Bool) (now : ℕ) → Dict Json → Outcome SearchCategories
search_categories_from_json asserts now json = do
  events ←
      set_model none (made (search_room_event_results_from_json asserts now))
        (lookup "room_events" json)
  returned (record { room_events = events })

pub record SearchResponse : Type 0 where
  pub search_categories : Option SearchCategories

unfoldable pub search_response_from_json :
    (asserts : Bool) (now : ℕ) → Dict Json → Outcome SearchResponse
search_response_from_json asserts now json = do
  categories ←
      set_model none (made (search_categories_from_json asserts now))
        (lookup "search_categories" (remove_null_values_in_json json))
  returned (record { search_categories = categories })
