-- ===== src/Conversions.antt =====
-- The conversions of SDNSDK/Utils/MXTools.m between enums and texts, other than event types. A text
-- may be nil, and `isEqualToString:` of nil is NO.
mod Tests
pub mod RoundTrip
use sendingnetwork_ios.Common.{String, Option, none, some, equal_ids, if◌then◌else◌}

pub data Membership : Type 0 where
  unknown invite join leave ban : Membership

unfoldable pub membership : Option String → Membership
membership s =
    if equal_ids s (some "invite")
    then invite
    else if equal_ids s (some "join")
    then join
    else if equal_ids s (some "leave")
    then leave
    else if equal_ids s (some "ban")
    then ban
    else unknown

unfoldable pub membership_string : Membership → Option String
membership_string invite = some "invite"
membership_string join = some "join"
membership_string leave = some "leave"
membership_string ban = some "ban"
membership_string unknown = none

pub data Presence : Type 0 where
  presence_unknown online unavailable offline : Presence

unfoldable pub presence : Option String → Presence
presence s =
    if equal_ids s (some "online")
    then online
    else if equal_ids s (some "unavailable")
    then unavailable
    else if equal_ids s (some "offline")
    then offline
    else presence_unknown

unfoldable pub presence_string : Presence → Option String
presence_string online = some "online"
presence_string unavailable = some "unavailable"
presence_string offline = some "offline"
presence_string presence_unknown = none

pub data CallHangupReason : Type 0 where
  user_hangup user_busy ice_failed invite_timeout ice_timeout user_media_failed unknown_error :
      CallHangupReason

unfoldable pub call_hangup_reason : Option String → CallHangupReason
call_hangup_reason s =
    if equal_ids s (some "user_hangup")
    then user_hangup
    else if equal_ids s (some "ice_failed")
    then ice_failed
    else if equal_ids s (some "invite_timeout")
    then invite_timeout
    else if equal_ids s (some "ice_timeout")
    then ice_timeout
    else if equal_ids s (some "user_media_failed")
    then user_media_failed
    else if equal_ids s (some "unknown_error")
    then unknown_error
    else user_hangup

unfoldable pub call_hangup_reason_string : CallHangupReason → Option String
call_hangup_reason_string user_hangup = some "user_hangup"
call_hangup_reason_string user_busy = some "user_busy"
call_hangup_reason_string ice_failed = some "ice_failed"
call_hangup_reason_string invite_timeout = some "invite_timeout"
call_hangup_reason_string ice_timeout = some "ice_timeout"
call_hangup_reason_string user_media_failed = some "user_media_failed"
call_hangup_reason_string unknown_error = some "unknown_error"

pub data CallSessionDescriptionType : Type 0 where
  offer pr_answer answer rollback : CallSessionDescriptionType

unfoldable pub call_session_description_type : Option String → CallSessionDescriptionType
call_session_description_type s =
    if equal_ids s (some "offer")
    then offer
    else if equal_ids s (some "pranswer")
    then pr_answer
    else if equal_ids s (some "answer")
    then answer
    else if equal_ids s (some "rollback")
    then rollback
    else offer

unfoldable pub call_session_description_type_string : CallSessionDescriptionType → Option String
call_session_description_type_string offer = some "offer"
call_session_description_type_string pr_answer = some "pranswer"
call_session_description_type_string answer = some "answer"
call_session_description_type_string rollback = some "rollback"

pub data CallRejectReplacementReason : Type 0 where
  declined failed_room_invite failed_call_invite failed_call : CallRejectReplacementReason

unfoldable pub call_reject_replacement_reason : Option String → CallRejectReplacementReason
call_reject_replacement_reason s =
    if equal_ids s (some "declined")
    then declined
    else if equal_ids s (some "failed_room_invite")
    then failed_room_invite
    else if equal_ids s (some "failed_call_invite")
    then failed_call_invite
    else if equal_ids s (some "failed_call")
    then failed_call
    else declined

unfoldable pub call_reject_replacement_reason_string : CallRejectReplacementReason → Option String
call_reject_replacement_reason_string declined = some "declined"
call_reject_replacement_reason_string failed_room_invite = some "failed_room_invite"
call_reject_replacement_reason_string failed_call_invite = some "failed_call_invite"
call_reject_replacement_reason_string failed_call = some "failed_call"
