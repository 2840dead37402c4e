-- ===== src/Models/RoomSync.antt =====
-- SDNSDK/JSONModels/Sync/Room: what a sync says of a room.
pub mod RoundTrip
use sendingnetwork_ios.Common.{ℕ, ◌-◌, ◌^◌, String, Bool, false, Option, none, some, List, [], ◌∷◌}
use sendingnetwork_ios.Common.Dict.{Dict, lookup}
use sendingnetwork_ios.Json.{Json, dictionary, fields}
use sendingnetwork_ios.Json.Setters.{
  Outcome, returned, ◌>>=◌, set_string, set_array, set_dictionary, set_boolean, set_unsigned,
  set_model, always, made, perhaps,
}
use sendingnetwork_ios.Json.Writers.{put, as_model, as_text, as_array, as_boolean, as_unsigned}
use sendingnetwork_ios.Models.EventLists.{
  events_json, events_from_json, RoomSyncState, room_sync_state_from_json, room_sync_state_json,
  RoomSyncEphemeral, room_sync_ephemeral_from_json, room_sync_ephemeral_json, RoomSyncAccountData,
  room_sync_account_data_from_json, room_sync_account_data_json,
}
use sendingnetwork_ios.Models.Events.{Event}
use sendingnetwork_ios.Models.KeyBackup.{read_by_key}

pub record RoomSyncTimeline : Type 0 where
  pub events : Option (List Event)
  pub limited : Bool
  pub prev_batch : Option String

unfoldable pub room_sync_timeline_from_json : (now : ℕ) → Dict Json → Outcome RoomSyncTimeline
room_sync_timeline_from_json now json = do
  events ← events_from_json now (lookup "events" json)
  returned (record {
    events = events;
    limited = set_boolean false (lookup "limited" json);
    prev_batch = set_string none (lookup "prev_batch" json);
  })

unfoldable pub room_sync_timeline_json : (now : ℕ) → RoomSyncTimeline → Dict Json
room_sync_timeline_json now r =
    put "prev_batch" (as_text r.prev_batch)
      (put "limited" (as_boolean r.limited) (put "events" (events_json now r.events) []))

pub record RoomSyncUnreadNotifications : Type 0 where
  pub notification_count : ℕ
  pub highlight_count : ℕ

unfoldable pub room_sync_unread_notifications_from_json : Dict Json → RoomSyncUnreadNotifications
room_sync_unread_notifications_from_json json = record {
  notification_count = set_unsigned 0 (lookup "notification_count" json);
  highlight_count = set_unsigned 0 (lookup "highlight_count" json);
}

unfoldable pub room_sync_unread_notifications_json : RoomSyncUnreadNotifications → Dict Json
room_sync_unread_notifications_json r =
    put "highlight_count" (as_unsigned r.highlight_count)
      (put "notification_count" (as_unsigned r.notification_count) [])

pub record RoomSyncSummary : Type 0 where
  pub heroes : Option (List Json)
  pub joined_member_count : ℕ
  pub invited_member_count : ℕ

-- The counts are -1 until they are set. An empty dictionary gives nil.
abbrev summary_of : Dict Json → RoomSyncSummary
summary_of json = record {
  heroes = set_array none (lookup "m.heroes" json);
  joined_member_count = set_unsigned (2 ^ 64 - 1) (lookup "m.joined_member_count" json);
  invited_member_count = set_unsigned (2 ^ 64 - 1) (lookup "m.invited_member_count" json);
}

unfoldable pub room_sync_summary_from_json : Dict Json → Option RoomSyncSummary
room_sync_summary_from_json [] = none
room_sync_summary_from_json (e ∷ json) = some (summary_of (e ∷ json))

unfoldable pub room_sync_summary_json : RoomSyncSummary → Dict Json
room_sync_summary_json r = put "m.invited_member_count" (as_unsigned r.invited_member_count) (
    put "m.joined_member_count" (as_unsigned r.joined_member_count)
      (put "m.heroes" (as_array r.heroes) []))

pub record RoomSync : Type 0 where
  pub state : Option RoomSyncState
  pub timeline : Option RoomSyncTimeline
  pub ephemeral : Option RoomSyncEphemeral
  pub account_data : Option RoomSyncAccountData
  pub unread_notifications : Option RoomSyncUnreadNotifications
  pub unread_notifications_per_thread : Option (Dict RoomSyncUnreadNotifications)
  pub summary : Option RoomSyncSummary

unfoldable pub room_sync_from_json : (now : ℕ) → Dict Json → Outcome RoomSync
room_sync_from_json now json = do
  state ← set_model none (made (room_sync_state_from_json now)) (lookup "state" json)
  timeline ← set_model none (made (room_sync_timeline_from_json now)) (lookup "timeline" json)
  ephemeral ← set_model none (made (room_sync_ephemeral_from_json now)) (lookup "ephemeral" json)
  account_data ←
      set_model none (made (room_sync_account_data_from_json now)) (lookup "account_data" json)
  unread ←
      set_model none (always room_sync_unread_notifications_from_json)
        (lookup "unread_notifications" json)
  per_thread ←
      read_by_key (always room_sync_unread_notifications_from_json)
        (set_dictionary none (lookup "unread_thread_notifications" json))
  summary ← set_model none (perhaps room_sync_summary_from_json) (lookup "summary" json)
  returned (record {
    state = state;
    timeline = timeline;
    ephemeral = ephemeral;
    account_data = account_data;
    unread_notifications = unread;
    unread_notifications_per_thread = per_thread;
    summary = summary;
  })

unfoldable pub room_sync_json : (now : ℕ) → RoomSync → Dict Json
room_sync_json now r = put "summary" (as_model room_sync_summary_json r.summary) (
    put "unread_notifications" (as_model room_sync_unread_notifications_json r.unread_notifications)
      (put "account_data" (as_model (room_sync_account_data_json now) r.account_data) (
        put "ephemeral" (as_model (room_sync_ephemeral_json now) r.ephemeral) (
          put "timeline" (as_model (room_sync_timeline_json now) r.timeline)
            (put "state" (as_model (room_sync_state_json now) r.state) [])))))
