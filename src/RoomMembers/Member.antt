-- ===== src/RoomMembers/Member.antt =====
-- SDNSDK/Data/MXRoomMember.m: a member as its event describes it. The content of an event stands
-- here parsed, with the four fields that MXRoomMemberEventContent has.
use text.Mathlib.Text.{starts_with}
use sendingnetwork_ios.Common.{
  String, ◌≡◌, Bool, true, false, Option, none, some, if◌then◌else◌, arith,
}
use sendingnetwork_ios.EventType.{EventType}
use sendingnetwork_ios.Conversions.{Membership, unknown, invite, join, leave, ban, membership}

-- MXRoomMemberEventContent
pub record MemberContent : Type 0 where
  pub displayname : Option String
  pub avatar_url : Option String
  pub membership : Option String
  pub third_party_invite_token : Option String

-- A content may be nil or an empty dictionary.
pub data Content : Type 0 where
  no_content empty_content : Content
  content : MemberContent → Content

-- The fields of MXEvent that are read.
pub record MemberEvent : Type 0 where
  pub event_type : EventType
  pub state_key : Option String
  pub sender : Option String
  pub content : Content
  pub prev_content : Content
  pub is_redacted_event : Bool

pub record RoomMember : Type 0 where
  pub user_id : Option String
  pub displayname : Option String
  pub avatar_url : Option String
  pub membership : Membership
  pub third_party_invite_token : Option String
  pub origin_user_id : Option String
  pub prev_membership : Membership

unfoldable pub is_membership : Membership → Membership → Bool
is_membership unknown unknown = true
is_membership invite invite = true
is_membership join join = true
is_membership leave leave = true
is_membership ban ban = true
is_membership _ _ = false

-- `a ?: b`
abbrev pub or_else : Option String → Option String → Option String
or_else none b = b
or_else (some a) b = some a

mxc_only : Option String → Option String
mxc_only none = none
mxc_only (some url) = if starts_with url "mxc://" then some url else none

-- `[MXRoomMemberEventContent modelFromJSON:]` of an empty dictionary has no field set.
abbrev blank : MemberContent
blank = record {
  displayname = none;
  avatar_url = none;
  membership = none;
  third_party_invite_token = none;
}

from_content : MemberEvent → MemberContent → RoomMember
unfolding mxc_only
from_content event c = record {
  user_id = or_else event.state_key event.sender;
  displayname = c.displayname;
  avatar_url = mxc_only c.avatar_url;
  membership = membership c.membership;
  third_party_invite_token = c.third_party_invite_token;
  origin_user_id = none;
  prev_membership = unknown;
}

-- The previous membership, and for a user who left the last known name and avatar.
with_previous : MemberContent → RoomMember → RoomMember
with_previous prev m =
    let known = record m { prev_membership = membership prev.membership } in
    if is_membership leave m.membership
    then record known {
      displayname = or_else m.displayname prev.displayname;
      avatar_url = or_else m.avatar_url prev.avatar_url;
    }
    else known

with_prev_content : Content → RoomMember → RoomMember
unfolding with_previous
with_prev_content no_content m = m
with_prev_content empty_content m = with_previous blank m
with_prev_content (content prev) m = with_previous prev m

-- `initWithMXEvent:andEventContent:`; the flag says whether the content is the event's own, as it
-- is in a live room, and not its previous one. `none` is nil.
unfoldable pub init_room_member : MemberEvent → Content → Bool → Option RoomMember
unfolding from_content with_prev_content
init_room_member event no_content own = none
init_room_member event empty_content own = none
init_room_member event (content c) own =
    let m = from_content event c in
    some (
      if own
      then with_prev_content event.prev_content (record m { origin_user_id = event.sender })
      else m)

-- The id of a member is the state key of its event, or else the sender.
pub user_id-init_room_member :
    (event : MemberEvent) (c : Content) (own : Bool) (m : RoomMember)
    → init_room_member event c own ≡ some m
    → m.user_id ≡ or_else event.state_key event.sender
unfolding init_room_member
user_id-init_room_member event no_content own m e = absurd (cc)
user_id-init_room_member event empty_content own m e = absurd (cc)
user_id-init_room_member event (content c) own m e = ground arith
