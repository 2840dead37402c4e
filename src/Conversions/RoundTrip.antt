-- ===== src/Conversions/RoundTrip.antt =====
-- What is read back from the text of an enum value.
use sendingnetwork_ios.Common.{◌≡◌, refl}
use sendingnetwork_ios.Conversions.{
  Membership, unknown, membership, membership_string, Presence, online, presence, presence_string,
  CallHangupReason, user_hangup, user_busy, call_hangup_reason, call_hangup_reason_string,
  CallSessionDescriptionType, offer, call_session_description_type,
  call_session_description_type_string, CallRejectReplacementReason, declined,
  call_reject_replacement_reason, call_reject_replacement_reason_string,
}

-- A membership is read back from its text; `unknown`, which has none, from nil.
pub membership-membership_string : (m : Membership) → membership (membership_string m) ≡ m
unfolding membership membership_string
membership-membership_string unknown = refl
membership-membership_string _ = refl

-- A presence is read back from its text; the unknown one, which has none, from nil.
pub presence-presence_string : (p : Presence) → presence (presence_string p) ≡ p
unfolding presence presence_string
presence-presence_string online = refl
presence-presence_string _ = refl

abbrev pub read_back : CallHangupReason → CallHangupReason
read_back user_busy = user_hangup
read_back r = r

-- A hangup reason is read back from its text, but for `user_busy`, which is read as `user_hangup`.
pub call_hangup_reason-call_hangup_reason_string :
    (r : CallHangupReason) → call_hangup_reason (call_hangup_reason_string r) ≡ read_back r
unfolding call_hangup_reason call_hangup_reason_string
call_hangup_reason-call_hangup_reason_string user_busy = refl
call_hangup_reason-call_hangup_reason_string _ = refl

description :
    (t : CallSessionDescriptionType)
    → call_session_description_type (call_session_description_type_string t) ≡ t
unfolding call_session_description_type call_session_description_type_string
description offer = refl
description _ = refl

replacement :
    (r : CallRejectReplacementReason)
    → call_reject_replacement_reason (call_reject_replacement_reason_string r) ≡ r
unfolding call_reject_replacement_reason call_reject_replacement_reason_string
replacement declined = refl
replacement _ = refl

-- The type of a session description and the reason of a rejected replacement are read back from
-- their texts.
pub call_types_round_trip :
    (t : CallSessionDescriptionType) (r : CallRejectReplacementReason)
    → (call_session_description_type (call_session_description_type_string t) ≡ t)
      × (call_reject_replacement_reason (call_reject_replacement_reason_string r) ≡ r)
call_types_round_trip t r = (description t, replacement r)
