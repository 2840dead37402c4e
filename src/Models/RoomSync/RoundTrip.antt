-- ===== src/Models/RoomSync/RoundTrip.antt =====
-- What is read back of a room in a sync response.
use sendingnetwork_ios.Common.{ℕ, none, some, [], ◌∷◌, ◌≡◌, refl, ap, ◌∙◌, ◌^◌, ◌-◌}
use sendingnetwork_ios.Common.Dict.{Dict, lookup}
use sendingnetwork_ios.Json.{Json, number, integer}
use sendingnetwork_ios.Common.Int.{pos}
use sendingnetwork_ios.Json.Setters.{set_dictionary, returned, always, made, perhaps}
use sendingnetwork_ios.Json.Writers.{
  json_laws, lookup-put, set_unsigned-as_unsigned, IsWord, as_unsigned,
}
use sendingnetwork_ios.Json.ReadBack.{IfThere, model_back}
use sendingnetwork_ios.Models.EventLists.{
  RoomSyncState, room_sync_state_from_json, room_sync_state_json, RoomSyncEphemeral,
  room_sync_ephemeral_from_json, room_sync_ephemeral_json, RoomSyncAccountData,
  room_sync_account_data_from_json, room_sync_account_data_json,
}
use sendingnetwork_ios.Models.EventLists.RoundTrip.{IsReadList, events_from_json-events_json}
use sendingnetwork_ios.Models.RoomSync.{
  RoomSync, room_sync_from_json, room_sync_json, RoomSyncTimeline, room_sync_timeline_from_json,
  room_sync_timeline_json, RoomSyncUnreadNotifications, room_sync_unread_notifications_from_json,
  room_sync_unread_notifications_json, RoomSyncSummary, room_sync_summary_from_json,
  room_sync_summary_json, summary_of,
}

state_back :
    (now : ℕ) (r : RoomSyncState)
    → IsReadList now r.events
    → made (room_sync_state_from_json now) (room_sync_state_json now r) ≡ returned (some r)
unfolding room_sync_state_from_json room_sync_state_json lookup
state_back now r h = simp (lookup-put, events_from_json-events_json now r.events h) refl

ephemeral_back :
    (now : ℕ) (r : RoomSyncEphemeral)
    → IsReadList now r.events
    → made (room_sync_ephemeral_from_json now) (room_sync_ephemeral_json now r) ≡ returned (some r)
unfolding room_sync_ephemeral_from_json room_sync_ephemeral_json lookup
ephemeral_back now r h = simp (lookup-put, events_from_json-events_json now r.events h) refl

account_data_back :
    (now : ℕ) (r : RoomSyncAccountData)
    → IsReadList now r.events
    → made (room_sync_account_data_from_json now) (room_sync_account_data_json now r)
      ≡ returned (some r)
unfolding room_sync_account_data_from_json room_sync_account_data_json lookup
account_data_back now r h = simp (lookup-put, events_from_json-events_json now r.events h) refl

timeline_back :
    (now : ℕ) (r : RoomSyncTimeline)
    → IsReadList now r.events
    → made (room_sync_timeline_from_json now) (room_sync_timeline_json now r) ≡ returned (some r)
unfolding room_sync_timeline_from_json room_sync_timeline_json lookup
timeline_back now r h = simp (json_laws, events_from_json-events_json now r.events h) refl

unread_back :
    (r : RoomSyncUnreadNotifications)
    → IsWord r.notification_count × IsWord r.highlight_count
    → always room_sync_unread_notifications_from_json (room_sync_unread_notifications_json r)
      ≡ returned (some r)
unfolding room_sync_unread_notifications_from_json room_sync_unread_notifications_json lookup
unread_back r h =
    simp
      (
        lookup-put,
        set_unsigned-as_unsigned 0 r.notification_count h.0,
        set_unsigned-as_unsigned 0 r.highlight_count h.1,
      )
      refl

summary_there :
    (v : Json) (json : Dict Json)
    → lookup "m.invited_member_count" json ≡ some v
    → room_sync_summary_from_json json ≡ some (summary_of json)
unfolding room_sync_summary_from_json lookup
summary_there v [] h = absurd (cc)
summary_there v (e ∷ json) h = refl

summary_back :
    (r : RoomSyncSummary)
    → IsWord r.joined_member_count × IsWord r.invited_member_count
    → perhaps room_sync_summary_from_json (room_sync_summary_json r) ≡ returned (some r)
unfolding room_sync_summary_json lookup as_unsigned
summary_back r h =
    let there : lookup "m.invited_member_count" (room_sync_summary_json r)
        ≡ as_unsigned r.invited_member_count =
      simp lookup-put refl in
    let e : summary_of (room_sync_summary_json r) ≡ r =
      simp
        (
          json_laws,
          set_unsigned-as_unsigned (2 ^ 64 - 1) r.joined_member_count h.0,
          set_unsigned-as_unsigned (2 ^ 64 - 1) r.invited_member_count h.1,
        )
        refl in
    ap returned (
      summary_there (number (integer (pos r.invited_member_count))) (room_sync_summary_json r) there
      ∙ ap some e)

-- A room of a sync response as it is read by `now`: its lists of events are nil or hold events with
-- senders, and its counts fit 64 bits.
pub record IsReadRoom (now : ℕ) (r : RoomSync) : Type 0 where
  pub state_is_read : IfThere (λ s. IsReadList now s.events) r.state
  pub timeline_is_read : IfThere (λ s. IsReadList now s.events) r.timeline
  pub ephemeral_is_read : IfThere (λ s. IsReadList now s.events) r.ephemeral
  pub account_data_is_read : IfThere (λ s. IsReadList now s.events) r.account_data
  pub unread_is_read :
      IfThere (λ u. IsWord u.notification_count × IsWord u.highlight_count) r.unread_notifications
  pub summary_is_read :
      IfThere (λ s. IsWord s.joined_member_count × IsWord s.invited_member_count) r.summary

-- A room of a sync response, as it may have been read by `now`, is read back from its JSON without the
-- notifications of its threads, whatever they were. Each of its lists of events, those of ephemeral
-- events and of account data among them, is nil or has at least one event, and all its events are as
-- they are read from JSON with a sender, without a relation of a thread, and with a replacement, if
-- any, that names its event; its counts of notifications and of members fit 64 bits.
pub room_sync_from_json-room_sync_json :
    (now : ℕ) (r : RoomSync)
    → IsReadRoom now r
    → room_sync_from_json now (room_sync_json now r)
      ≡ returned (record r { unread_notifications_per_thread = none })
unfolding room_sync_from_json room_sync_json lookup set_dictionary
room_sync_from_json-room_sync_json now r h =
    simp
      (
        lookup-put,
        model_back (made (room_sync_state_from_json now)) (room_sync_state_json now)
            (λ s. IsReadList now s.events) (state_back now) r.state h.state_is_read,
        model_back (made (room_sync_timeline_from_json now)) (room_sync_timeline_json now)
            (λ s. IsReadList now s.events) (timeline_back now) r.timeline h.timeline_is_read,
        model_back (made (room_sync_ephemeral_from_json now)) (room_sync_ephemeral_json now)
            (λ s. IsReadList now s.events) (ephemeral_back now) r.ephemeral h.ephemeral_is_read,
        model_back (made (room_sync_account_data_from_json now)) (room_sync_account_data_json now)
            (λ s. IsReadList now s.events) (account_data_back now) r.account_data
            h.account_data_is_read,
        model_back (always room_sync_unread_notifications_from_json)
            room_sync_unread_notifications_json
            (λ u. IsWord u.notification_count × IsWord u.highlight_count) unread_back
            r.unread_notifications h.unread_is_read,
        model_back (perhaps room_sync_summary_from_json) room_sync_summary_json
            (λ s. IsWord s.joined_member_count × IsWord s.invited_member_count) summary_back
            r.summary h.summary_is_read,
      )
      refl
