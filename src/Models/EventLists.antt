-- ===== src/Models/EventLists.antt =====
-- SDNSDK/JSONModels/Sync: the parts of the answer to a sync request that are lists of events.
pub mod RoundTrip
use sendingnetwork_ios.Common.{ℕ, Option, none, some, List, [], map}
use sendingnetwork_ios.Common.Dict.{Dict, lookup}
use sendingnetwork_ios.Json.{Json, dictionary, fields}
use sendingnetwork_ios.Json.Setters.{Outcome, returned, ◌>>=◌, set_models, made}
use sendingnetwork_ios.Json.Writers.{put, as_array, models_json}
use sendingnetwork_ios.Models.Events.{Event, event_from_json, event_json}

-- `for (MXEvent *event in events) [jsonEvents addObject:event.JSONDictionary]`, of events that may be
-- nil
abbrev pub events_json : (now : ℕ) → Option (List Event) → Option Json
events_json now none = as_array (some [])
events_json now (some events) = as_array (some (models_json (event_json now) events))

unfoldable pub events_from_json : (now : ℕ) → Option Json → Outcome (Option (List Event))
events_from_json now = set_models none (made (event_from_json now))

pub record RoomSyncState : Type 0 where
  pub events : Option (List Event)

unfoldable pub room_sync_state_from_json : (now : ℕ) → Dict Json → Outcome RoomSyncState
room_sync_state_from_json now json = do
  events ← events_from_json now (lookup "events" json)
  returned (record { events = events })

unfoldable pub room_sync_state_json : (now : ℕ) → RoomSyncState → Dict Json
room_sync_state_json now r = put "events" (events_json now r.events) []

pub record RoomSyncEphemeral : Type 0 where
  pub events : Option (List Event)

unfoldable pub room_sync_ephemeral_from_json : (now : ℕ) → Dict Json → Outcome RoomSyncEphemeral
room_sync_ephemeral_from_json now json = do
  events ← events_from_json now (lookup "events" json)
  returned (record { events = events })

unfoldable pub room_sync_ephemeral_json : (now : ℕ) → RoomSyncEphemeral → Dict Json
room_sync_ephemeral_json now r = put "events" (events_json now r.events) []

pub record RoomSyncAccountData : Type 0 where
  pub events : Option (List Event)

unfoldable pub room_sync_account_data_from_json :
    (now : ℕ) → Dict Json → Outcome RoomSyncAccountData
room_sync_account_data_from_json now json = do
  events ← events_from_json now (lookup "events" json)
  returned (record { events = events })

unfoldable pub room_sync_account_data_json : (now : ℕ) → RoomSyncAccountData → Dict Json
room_sync_account_data_json now r = put "events" (events_json now r.events) []

pub record PresenceSyncResponse : Type 0 where
  pub events : Option (List Event)

unfoldable pub presence_sync_response_from_json :
    (now : ℕ) → Dict Json → Outcome PresenceSyncResponse
presence_sync_response_from_json now json = do
  events ← events_from_json now (lookup "events" json)
  returned (record { events = events })

unfoldable pub presence_sync_response_json : (now : ℕ) → PresenceSyncResponse → Dict Json
presence_sync_response_json now r = put "events" (events_json now r.events) []

pub record ToDeviceSyncResponse : Type 0 where
  pub events : Option (List Event)

unfoldable pub to_device_sync_response_from_json :
    (now : ℕ) → Dict Json → Outcome ToDeviceSyncResponse
to_device_sync_response_from_json now json = do
  events ← events_from_json now (lookup "events" json)
  returned (record { events = events })

unfoldable pub to_device_sync_response_json : (now : ℕ) → ToDeviceSyncResponse → Dict Json
to_device_sync_response_json now r = put "events" (events_json now r.events) []

pub record RoomInviteState : Type 0 where
  pub events : Option (List Event)

unfoldable pub room_invite_state_from_json : (now : ℕ) → Dict Json → Outcome RoomInviteState
room_invite_state_from_json now json = do
  events ← events_from_json now (lookup "events" json)
  returned (record { events = events })

unfoldable pub room_invite_state_json : (now : ℕ) → RoomInviteState → Dict Json
room_invite_state_json now r = put "events" (events_json now r.events) []
