-- ===== src/EventType.antt =====
-- The table of event types: SDNSDK/JSONModels/MXEvent.h and MXEvent.m for the types and their texts,
-- `initialize`, `eventTypeString:` and `eventType:` of SDNSDK/Utils/MXTools.m for the two maps.
mod Tests
pub mod RoundTrip
use sendingnetwork_ios.Common.{
  ℕ, String, Bool, Option, none, some, List, [], ◌∷◌, eqb, if◌then◌else◌,
}
use sendingnetwork_ios.Common.Dict.{Dict, lookup}

-- MXEventType
pub data EventType : Type 0 where
  room_name room_topic room_avatar room_bot_options room_member room_create room_join_rules :
      EventType
  room_power_levels room_aliases room_canonical_alias room_encrypted room_encryption : EventType
  room_guest_access room_history_visibility room_key room_forwarded_key room_key_request : EventType
  room_message room_message_feedback room_plumbing room_redaction room_third_party_invite :
      EventType
  room_related_groups room_pinned_events room_tag presence typing_notification reaction receipt :
      EventType
  read read_marker call_invite call_candidates call_answer call_select_answer call_hangup :
      EventType
  call_reject call_negotiate call_replaces call_reject_replacement call_asserted_identity :
      EventType
  call_asserted_identity_unstable sticker room_tombstone key_verification_request : EventType
  key_verification_ready key_verification_start key_verification_accept key_verification_key :
      EventType
  key_verification_mac key_verification_cancel key_verification_done secret_request secret_send :
      EventType
  secret_storage_default_key tagged_events space_child poll_start poll_response poll_end : EventType
  space_order beacon_info beacon custom : EventType

-- The number of a type.
unfoldable pub raw_value : EventType → ℕ
raw_value room_name = 0
raw_value room_topic = 1
raw_value room_avatar = 2
raw_value room_bot_options = 3
raw_value room_member = 4
raw_value room_create = 5
raw_value room_join_rules = 6
raw_value room_power_levels = 7
raw_value room_aliases = 8
raw_value room_canonical_alias = 9
raw_value room_encrypted = 10
raw_value room_encryption = 11
raw_value room_guest_access = 12
raw_value room_history_visibility = 13
raw_value room_key = 14
raw_value room_forwarded_key = 15
raw_value room_key_request = 16
raw_value room_message = 17
raw_value room_message_feedback = 18
raw_value room_plumbing = 19
raw_value room_redaction = 20
raw_value room_third_party_invite = 21
raw_value room_related_groups = 22
raw_value room_pinned_events = 23
raw_value room_tag = 24
raw_value presence = 25
raw_value typing_notification = 26
raw_value reaction = 27
raw_value receipt = 28
raw_value read = 29
raw_value read_marker = 30
raw_value call_invite = 31
raw_value call_candidates = 32
raw_value call_answer = 33
raw_value call_select_answer = 34
raw_value call_hangup = 35
raw_value call_reject = 36
raw_value call_negotiate = 37
raw_value call_replaces = 38
raw_value call_reject_replacement = 39
raw_value call_asserted_identity = 40
raw_value call_asserted_identity_unstable = 41
raw_value sticker = 42
raw_value room_tombstone = 43
raw_value key_verification_request = 44
raw_value key_verification_ready = 45
raw_value key_verification_start = 46
raw_value key_verification_accept = 47
raw_value key_verification_key = 48
raw_value key_verification_mac = 49
raw_value key_verification_cancel = 50
raw_value key_verification_done = 51
raw_value secret_request = 52
raw_value secret_send = 53
raw_value secret_storage_default_key = 54
raw_value tagged_events = 55
raw_value space_child = 56
raw_value poll_start = 57
raw_value poll_response = 58
raw_value poll_end = 59
raw_value space_order = 60
raw_value beacon_info = 61
raw_value beacon = 62
raw_value custom = 1000

-- eventTypeMapEnumToString
abbrev pub event_type_map_enum_to_string : List (EventType × String)
event_type_map_enum_to_string =
    (room_name, "m.room.name")
    ∷ (room_topic, "m.room.topic")
    ∷ (room_avatar, "m.room.avatar")
    ∷ (room_bot_options, "m.room.bot.options")
    ∷ (room_member, "m.room.member")
    ∷ (room_create, "m.room.create")
    ∷ (room_join_rules, "m.room.join_rules")
    ∷ (room_power_levels, "m.room.power_levels")
    ∷ (room_aliases, "m.room.aliases")
    ∷ (room_canonical_alias, "m.room.canonical_alias")
    ∷ (room_encrypted, "m.room.encrypted")
    ∷ (room_encryption, "m.room.encryption")
    ∷ (room_guest_access, "m.room.guest_access")
    ∷ (room_history_visibility, "m.room.history_visibility")
    ∷ (room_key, "m.room_key")
    ∷ (room_forwarded_key, "m.forwarded_room_key")
    ∷ (room_key_request, "m.room_key_request")
    ∷ (room_message, "m.room.message")
    ∷ (room_message_feedback, "m.room.message.feedback")
    ∷ (room_plumbing, "m.room.plumbing")
    ∷ (room_redaction, "m.room.redaction")
    ∷ (room_third_party_invite, "m.room.third_party_invite")
    ∷ (room_related_groups, "m.room.related_groups")
    ∷ (room_pinned_events, "m.room.pinned_events")
    ∷ (room_tag, "m.tag")
    ∷ (room_tombstone, "m.room.tombstone")
    ∷ (presence, "m.presence")
    ∷ (typing_notification, "m.typing")
    ∷ (reaction, "m.reaction")
    ∷ (receipt, "m.receipt")
    ∷ (read, "m.read")
    ∷ (read_marker, "m.fully_read")
    ∷ (sticker, "m.sticker")
    ∷ (tagged_events, "m.tagged_events")
    ∷ (space_child, "m.space.child")
    ∷ (call_invite, "m.call.invite")
    ∷ (call_candidates, "m.call.candidates")
    ∷ (call_answer, "m.call.answer")
    ∷ (call_select_answer, "m.call.select_answer")
    ∷ (call_hangup, "m.call.hangup")
    ∷ (call_reject, "m.call.reject")
    ∷ (call_negotiate, "m.call.negotiate")
    ∷ (call_replaces, "m.call.replaces")
    ∷ (call_reject_replacement, "m.call.reject_replacement")
    ∷ (call_asserted_identity, "m.call.asserted_identity")
    ∷ (call_asserted_identity_unstable, "org.sdn.call.asserted_identity")
    ∷ (key_verification_request, "m.key.verification.request")
    ∷ (key_verification_ready, "m.key.verification.ready")
    ∷ (key_verification_start, "m.key.verification.start")
    ∷ (key_verification_accept, "m.key.verification.accept")
    ∷ (key_verification_key, "m.key.verification.key")
    ∷ (key_verification_mac, "m.key.verification.mac")
    ∷ (key_verification_cancel, "m.key.verification.cancel")
    ∷ (key_verification_done, "m.key.verification.done")
    ∷ (secret_request, "m.secret.request")
    ∷ (secret_send, "m.secret.send")
    ∷ (secret_storage_default_key, "m.secret_storage.default_key")
    ∷ (poll_start, "org.sdn.msc3381.poll.start")
    ∷ (poll_response, "org.sdn.msc3381.poll.response")
    ∷ (poll_end, "org.sdn.msc3381.poll.end")
    ∷ (beacon_info, "org.sdn.msc3672.beacon_info")
    ∷ (beacon, "org.sdn.msc3672.beacon")
    ∷ []

-- eventTypeMapStringToEnum
abbrev pub event_type_map_string_to_enum : Dict EventType
event_type_map_string_to_enum =
    ("m.room.name", room_name)
    ∷ ("m.room.topic", room_topic)
    ∷ ("m.room.avatar", room_avatar)
    ∷ ("m.room.bot.options", room_bot_options)
    ∷ ("m.room.member", room_member)
    ∷ ("m.room.create", room_create)
    ∷ ("m.room.join_rules", room_join_rules)
    ∷ ("m.room.power_levels", room_power_levels)
    ∷ ("m.room.aliases", room_aliases)
    ∷ ("m.room.canonical_alias", room_canonical_alias)
    ∷ ("m.room.encrypted", room_encrypted)
    ∷ ("m.room.encryption", room_encryption)
    ∷ ("m.room.guest_access", room_guest_access)
    ∷ ("m.room.history_visibility", room_history_visibility)
    ∷ ("m.room_key", room_key)
    ∷ ("m.forwarded_room_key", room_forwarded_key)
    ∷ ("m.room_key_request", room_key_request)
    ∷ ("m.room.message", room_message)
    ∷ ("m.room.message.feedback", room_message_feedback)
    ∷ ("m.room.plumbing", room_plumbing)
    ∷ ("m.room.redaction", room_redaction)
    ∷ ("m.room.third_party_invite", room_third_party_invite)
    ∷ ("m.room.related_groups", room_related_groups)
    ∷ ("m.room.pinned_events", room_pinned_events)
    ∷ ("m.tag", room_tag)
    ∷ ("m.room.tombstone", room_tombstone)
    ∷ ("m.presence", presence)
    ∷ ("m.typing", typing_notification)
    ∷ ("m.reaction", reaction)
    ∷ ("m.receipt", receipt)
    ∷ ("m.read", read)
    ∷ ("m.fully_read", read_marker)
    ∷ ("m.sticker", sticker)
    ∷ ("m.tagged_events", tagged_events)
    ∷ ("m.space.child", space_child)
    ∷ ("m.call.invite", call_invite)
    ∷ ("m.call.candidates", call_candidates)
    ∷ ("m.call.answer", call_answer)
    ∷ ("m.call.select_answer", call_select_answer)
    ∷ ("m.call.hangup", call_hangup)
    ∷ ("m.call.reject", call_reject)
    ∷ ("m.call.negotiate", call_negotiate)
    ∷ ("m.call.replaces", call_replaces)
    ∷ ("m.call.reject_replacement", call_reject_replacement)
    ∷ ("m.call.asserted_identity", call_asserted_identity)
    ∷ ("org.sdn.call.asserted_identity", call_asserted_identity_unstable)
    ∷ ("m.key.verification.request", key_verification_request)
    ∷ ("m.key.verification.ready", key_verification_ready)
    ∷ ("m.key.verification.start", key_verification_start)
    ∷ ("m.key.verification.accept", key_verification_accept)
    ∷ ("m.key.verification.key", key_verification_key)
    ∷ ("m.key.verification.mac", key_verification_mac)
    ∷ ("m.key.verification.cancel", key_verification_cancel)
    ∷ ("m.key.verification.done", key_verification_done)
    ∷ ("m.secret.request", secret_request)
    ∷ ("m.secret.send", secret_send)
    ∷ ("m.secret_storage.default_key", secret_storage_default_key)
    ∷ ("m.poll.start", poll_start)
    ∷ ("org.sdn.msc3381.poll.start", poll_start)
    ∷ ("m.poll.response", poll_response)
    ∷ ("org.sdn.msc3381.poll.response", poll_response)
    ∷ ("m.poll.end", poll_end)
    ∷ ("org.sdn.msc3381.poll.end", poll_end)
    ∷ ("org.sdn.msc3672.beacon_info", beacon_info)
    ∷ ("m.beacon_info", beacon_info)
    ∷ ("org.sdn.msc3672.beacon", beacon)
    ∷ ("m.beacon", beacon)
    ∷ []

-- A search by the number of the type, as the keys of the map are NSNumbers.
unfoldable pub search_type : ℕ → List (EventType × String) → Option String
unfolding raw_value
search_type n [] = none
search_type n ((t, s) ∷ rest) = if eqb (raw_value t) n then some s else search_type n rest

unfoldable pub event_type_string : EventType → Option String
unfolding search_type raw_value
event_type_string t = search_type (raw_value t) event_type_map_enum_to_string

or_custom : Option EventType → EventType
or_custom none = custom
or_custom (some t) = t

unfoldable pub event_type : String → EventType
unfolding or_custom lookup
event_type s = or_custom (lookup s event_type_map_string_to_enum)
