-- ===== src/RoomMembers.antt =====
-- SDNSDK/Data/MXRoomMembers.m and MXRoomMember.m: the members of a room, and how many of them use
-- each display name. `none` is the NSInvalidArgumentException of a dictionary that is given nil for
-- a key. The updates of other users' data are returned, oldest first. A count of members cannot
-- reach 2 ^ 64, so its `count++` is not wrapped.
pub mod Member
pub mod Queries
mod Tests
pub mod Names
pub mod Handling
pub mod Selections
use text.Mathlib.Text.{starts_with}
use sendingnetwork_ios.Common.{
  ℕ, zero, suc, ◌+◌, ◌-◌, String, Bool, true, false, Option, none, some, List, [], ◌∷◌, ◌++◌, ◌&&◌,
  ◌||◌, not, is_some, equal_ids, if◌then◌else◌,
}
use sendingnetwork_ios.Common.Dict.{Dict, lookup, insert, remove, values}
use sendingnetwork_ios.EventType.{EventType, room_member}
use sendingnetwork_ios.Conversions.{Membership, join, invite}
use Member.{MemberEvent, Content, RoomMember, init_room_member, is_membership}

-- What the code reads of the session and the options.
pub record Session : Type 0 where
  pub url_of_identicon : String → String
  pub disable_identicon_use_for_user_avatar : Bool

pub record RoomMembers : Type 0 where
  pub is_conference_user_room : Bool
  pub conference_user_id : Option String
  pub is_live : Bool
  pub members : Dict RoomMember
  pub members_names_in_use : Dict ℕ

-- `[user updateWithRoomMemberEvent:roomMember:inSDNSession:]` for the user of the event's sender.
pub record UserUpdate : Type 0 where
  pub sender : Option String
  pub room_member : RoomMember

unfoldable pub init : Bool → Option String → Bool → RoomMembers
init is_conference_user_room conference_user_id is_live = record {
  is_conference_user_room = is_conference_user_room;
  conference_user_id = conference_user_id;
  is_live = is_live;
  members = [];
  members_names_in_use = [];
}

-- members[userId] with a key that may be nil
abbrev pub member_with_user_id : Option String → RoomMembers → Option RoomMember
member_with_user_id none s = none
member_with_user_id (some user_id) s = lookup user_id s.members

-- The count of a name goes down by one, and the name is gone at 0.
release_count : String → Option ℕ → Dict ℕ → Dict ℕ
release_count name none names = names
release_count name (some zero) names = remove name names
release_count name (some (suc zero)) names = remove name names
release_count name (some (suc (suc n))) names = insert name (suc n) names

unfoldable pub release_name : Option String → Dict ℕ → Dict ℕ
unfolding release_count
release_name none names = names
release_name (some name) names = release_count name (lookup name names) names

abbrev incremented : Option ℕ → ℕ
incremented none = 1
incremented (some count) = suc count

unfoldable pub use_name : Option String → Dict ℕ → Dict ℕ
use_name none names = names
use_name (some name) names = insert name (incremented (lookup name names)) names

abbrev pub displayname_of : Option RoomMember → Option String
displayname_of none = none
displayname_of (some m) = m.displayname

content_of_event : RoomMembers → MemberEvent → Content
content_of_event s event = if s.is_live then event.content else event.prev_content

-- A member with no avatar gets an identicon.
with_identicon : Session → String → RoomMember → RoomMember
with_identicon session user_id m =
    if not (is_some m.avatar_url) && not session.disable_identicon_use_for_user_avatar
    then record m { avatar_url = some (session.url_of_identicon user_id) }
    else m

user_updates : RoomMembers → MemberEvent → RoomMember → List UserUpdate
user_updates s event m =
    if s.is_live && (not event.is_redacted_event && is_membership join m.membership)
    then record { sender = event.sender; room_member = m } ∷ []
    else []

-- A member that the event describes is stored under its id.
store_member :
    Session
    → RoomMembers
    → MemberEvent
    → Dict ℕ
    → RoomMember
    → Option String
    → Option (RoomMembers × List UserUpdate)
unfolding with_identicon user_updates
store_member session s event names m none = none
store_member session s event names m (some user_id) =
    let stored = with_identicon session user_id m in
    some (
      record s {
        members = insert user_id stored s.members;
        members_names_in_use = use_name m.displayname names;
      },
      user_updates s event stored,
    )

-- A user with no content is no more part of the room.
drop_member : RoomMembers → Dict ℕ → Option String → Option (RoomMembers × List UserUpdate)
drop_member s names none = none
drop_member s names (some user_id) =
    some (record s { members = remove user_id s.members; members_names_in_use = names }, [])

-- The new member is stored; where there is none, the old one is dropped.
replace_member :
    Session
    → RoomMembers
    → MemberEvent
    → Dict ℕ
    → Option RoomMember
    → Option (RoomMembers × List UserUpdate)
unfolding store_member drop_member
replace_member session s event names none = drop_member s names event.state_key
replace_member session s event names (some m) = store_member session s event names m m.user_id

unfoldable pub handle_member_event :
    Session → RoomMembers → MemberEvent → Option (RoomMembers × List UserUpdate)
unfolding replace_member content_of_event
handle_member_event session s event =
    let old_room_member = member_with_user_id event.state_key s in
    let names = release_name (displayname_of old_room_member) s.members_names_in_use in
    replace_member session s event names
      (init_room_member event (content_of_event s event) s.is_live)

-- What `handleStateEvents:` returns, beside the new state and the updates of users.
pub record Handled : Type 0 where
  pub state : RoomMembers
  pub has_room_member_event : Bool
  pub updates : List UserUpdate

abbrev is_room_member : EventType → Bool
is_room_member room_member = true
is_room_member _ = false

record_updates : Handled → Option (RoomMembers × List UserUpdate) → Option Handled
record_updates h none = none
record_updates h (some (s, updates)) =
    some (record { state = s; has_room_member_event = true; updates = h.updates ++ updates })

-- One round of the loop; other events are passed over.
unfoldable handle_one : Session → Handled → MemberEvent → Option Handled
unfolding record_updates
handle_one session h event =
    let handled = record_updates h (handle_member_event session h.state event) in
    if is_room_member event.event_type then handled else some h

-- The loop goes on with the state of an event that raised nothing.
handle_from : Session → Handled → List MemberEvent → Option Handled
unfolding handle_one
handle_from session h [] = some h
handle_from session h (event ∷ events) = elim (handle_one session h event) [
  | none ↦ none
  | some h' ↦ handle_from session h' events
]

unfoldable pub handle_state_events : Session → RoomMembers → List MemberEvent → Option Handled
unfolding handle_from handle_member_event
handle_state_events session s events =
    handle_from session (record { state = s; has_room_member_event = false; updates = [] }) events
