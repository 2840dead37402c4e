-- ===== src/RoomMembers/Queries.antt =====
-- The readers of SDNSDK/Data/MXRoomMembers.m: names, and lists of members. `allValues` of a
-- dictionary comes in its order of enumeration.
use Prim.Native.String.{◌++◌ as append_text}
use sendingnetwork_ios.Common.{
  ℕ, String, Bool, Option, none, some, List, [], ◌∷◌, ◌++◌, ◌||◌, not, equal_ids, ltb,
  if◌then◌else◌, ◌==◌,
}
use sendingnetwork_ios.Common.Dict.{Dict, lookup, insert, remove, values}
use sendingnetwork_ios.Conversions.{Membership, join, invite}
use sendingnetwork_ios.RoomMembers.Member.{RoomMember, is_membership}
use sendingnetwork_ios.RoomMembers.{RoomMembers, member_with_user_id, displayname_of}

-- `!text.length` holds of nil and of the empty text.
abbrev pub non_empty : Option String → Option String
non_empty none = none
non_empty (some text) = if text == "" then none else some text

abbrev pub disambiguated : String → String → String
disambiguated name user_id = append_text name (append_text " (" (append_text user_id ")"))

unfoldable pub name_by_count : String → String → Option ℕ → String
name_by_count name user_id none = name
name_by_count name user_id (some count) = if ltb 1 count then disambiguated name user_id else name

unfoldable pub name_of : RoomMembers → String → Option String → String
unfolding name_by_count
name_of s user_id none = user_id
name_of s user_id (some name) = name_by_count name user_id (lookup name s.members_names_in_use)

unfoldable pub member_name : RoomMembers → Option String → Option String
unfolding name_of
member_name s user_id = elim (non_empty user_id) [
  | none ↦ none
  | some id ↦ some (name_of s id (non_empty (displayname_of (member_with_user_id (some id) s))))
]

unfoldable pub member_sorted_name : RoomMembers → Option String → Option String
member_sorted_name s user_id = elim (displayname_of (member_with_user_id user_id s)) [
  | none ↦ user_id
  | some name ↦ some name
]

-- The loop of `membersWithMembership:`.
unfoldable pub with_membership : Membership → List RoomMember → List RoomMember
with_membership m [] = []
with_membership m (x ∷ xs) =
    let rest = with_membership m xs in if is_membership x.membership m then x ∷ rest else rest

unfoldable pub members_with_membership : Membership → RoomMembers → List RoomMember
unfolding with_membership
members_with_membership m s = with_membership m (values s.members)

unfoldable pub joined_members : RoomMembers → List RoomMember
unfolding members_with_membership
joined_members s = members_with_membership join s

unfoldable pub encryption_target_members : RoomMembers → Option String → List RoomMember
unfolding members_with_membership
encryption_target_members s history_visibility =
    let joined = members_with_membership join s in
    if not (equal_ids history_visibility (some "joined"))
    then joined ++ members_with_membership invite s
    else joined

remove_optional : Option String → Dict RoomMember → Dict RoomMember
remove_optional none d = d
remove_optional (some k) d = remove k d

unfoldable pub members_without_conference_user : RoomMembers → List RoomMember
unfolding remove_optional
members_without_conference_user s =
    if s.is_conference_user_room
    then values s.members
    else elim (member_with_user_id s.conference_user_id s) [
      | none ↦ values s.members
      | some _ ↦ values (remove_optional s.conference_user_id s.members)
    ]

-- The members with the membership under their ids; the id of a stored member is not nil.
membership_dict : Membership → List RoomMember → Dict RoomMember
membership_dict m [] = []
membership_dict m (x ∷ xs) =
    let rest = membership_dict m xs in
    let added : Dict RoomMember = elim x.user_id [ none ↦ rest | some id ↦ insert id x rest ] in
    if is_membership x.membership m then added else rest

-- `membersWithMembership:includeConferenceUser:`
unfoldable pub members_with_membership_and_conference :
    Membership → Bool → RoomMembers → List RoomMember
unfolding members_with_membership membership_dict remove_optional
members_with_membership_and_conference m include_conference_user s =
    if include_conference_user || s.is_conference_user_room
    then members_with_membership m s
    else elim (member_with_user_id s.conference_user_id s) [
      | none ↦ members_with_membership m s
      | some conference ↦
          if not (is_membership conference.membership m)
          then members_with_membership m s
          else values (remove_optional s.conference_user_id (membership_dict m (values s.members)))
    ]
