-- ===== src/Models/TaggedEvents.antt =====
-- SDNSDK/JSONModels/MXTaggedEventInfo.h and .m, MXTaggedEvents.h and .m: the events that a user has
-- tagged in a room.
pub mod Tagging
use sendingnetwork_ios.Common.{ℕ, eqb, String, Option, none, some, List, [], if◌then◌else◌}
use sendingnetwork_ios.Common.Dict.{Dict, lookup, insert, remove}
use sendingnetwork_ios.Json.{Json, dictionary, fields, end, entries}
use sendingnetwork_ios.Json.Setters.{
  Outcome, raised, returned, ◌>>=◌, set_array, set_dictionary, set_unsigned, subscripted,
}
use sendingnetwork_ios.Json.Writers.{put, as_array, as_dictionary, as_unsigned}
use sendingnetwork_ios.Models.Events.{undefined_timestamp}

pub record TaggedEventInfo : Type 0 where
  pub keywords : Option (List Json)
  pub origin_server_ts : ℕ
  pub tagged_at : ℕ

unfoldable pub tagged_event_info_from_json : Dict Json → TaggedEventInfo
tagged_event_info_from_json json = record {
  keywords = set_array none (lookup "keywords" json);
  origin_server_ts = set_unsigned undefined_timestamp (lookup "origin_server_ts" json);
  tagged_at = set_unsigned undefined_timestamp (lookup "tagged_at" json);
}

abbrev pub as_timestamp : ℕ → Option Json
as_timestamp ts = if eqb ts undefined_timestamp then none else as_unsigned ts

unfoldable pub tagged_event_info_json : TaggedEventInfo → Dict Json
tagged_event_info_json i = put "tagged_at" (as_timestamp i.tagged_at) (
    put "origin_server_ts" (as_timestamp i.origin_server_ts)
      (put "keywords" (as_array i.keywords) []))

pub record TaggedEvents : Type 0 where
  pub tags : Option (Dict Json)

unfoldable pub tagged_events_from_json : Dict Json → TaggedEvents
tagged_events_from_json json = record { tags = set_dictionary none (lookup "tags" json) }

unfoldable pub tagged_events_json : TaggedEvents → Dict Json
tagged_events_json t = put "tags" (as_dictionary t.tags) []

abbrev pub or_new : Option (Dict Json) → Dict Json
or_new none = []
or_new (some tags) = tags

-- tagEvent:taggedEventInfo:tag:
unfoldable pub tag_event : String → TaggedEventInfo → String → TaggedEvents → Outcome TaggedEvents
tag_event event_id info tag t = do
  tag_dict ← subscripted (lookup tag (or_new t.tags))
  returned (record {
    tags = some (
        insert tag
          (dictionary
            (fields (insert event_id (dictionary (fields (tagged_event_info_json info))) tag_dict)))
          (or_new t.tags));
  })

-- The tag goes with its last event.
abbrev pub without_event : String → Dict Json → Dict Json → Dict Json
without_event tag [] tags = remove tag tags
without_event tag tag_dict tags = insert tag (dictionary (fields tag_dict)) tags

-- What untagEvent:tag: makes of the tags and of what stands under the tag.
abbrev pub untagged : String → String → Dict Json → Option Json → Outcome TaggedEvents
untagged event_id tag tags none = returned (record { tags = some tags })
untagged event_id tag tags (some (dictionary f)) =
    returned (record { tags = some (without_event tag (remove event_id (entries f)) tags) })
untagged event_id tag tags (some _) = raised

abbrev pub untag_in : String → String → Option (Dict Json) → Outcome TaggedEvents
untag_in event_id tag none = returned (record { tags = none })
untag_in event_id tag (some tags) = untagged event_id tag tags (lookup tag tags)

-- untagEvent:tag:
unfoldable pub untag_event : String → String → TaggedEvents → Outcome TaggedEvents
untag_event event_id tag t = untag_in event_id tag t.tags
