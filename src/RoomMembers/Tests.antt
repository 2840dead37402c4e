-- ===== src/RoomMembers/Tests.antt =====
-- Two members of the same name join a room, and one of them leaves.
use sendingnetwork_ios.Common.{
  String, true, false, ◌≡◌, refl, none, some, List, [], ◌∷◌, ◌↔◌, subst, In,
}
use sendingnetwork_ios.Common.Dict.{lookup, insert, count}
use sendingnetwork_ios.EventType.{room_member}
use sendingnetwork_ios.Conversions.{join, unknown, membership}
use sendingnetwork_ios.RoomMembers.Member.{
  MemberEvent, content, empty_content, no_content, RoomMember, init_room_member, is_membership,
}
use sendingnetwork_ios.RoomMembers.Queries.{member_name, encryption_target_members}
use sendingnetwork_ios.RoomMembers.Handling.{
  IsValid, Returns, init-IsValid, handle_state_events-IsValid,
}
use sendingnetwork_ios.RoomMembers.Selections.{
  Reads, member_name-expected, encryption_target_members-In,
}
use sendingnetwork_ios.RoomMembers.{
  Session, RoomMembers, init, handle_state_events, use_name, release_name,
}

abbrev session : Session
session = record {
  url_of_identicon = λ user_id. user_id;
  disable_identicon_use_for_user_avatar = true;
}

abbrev joins : String → MemberEvent
joins user_id = record {
  event_type = room_member;
  state_key = some user_id;
  sender = some user_id;
  content = content (record {
    displayname = some "Ann";
    avatar_url = some "mxc://a/b";
    membership = some "join";
    third_party_invite_token = none;
  });
  prev_content = no_content;
  is_redacted_event = false;
}

abbrev leaves : String → MemberEvent
leaves user_id = record {
  event_type = room_member;
  state_key = some user_id;
  sender = some user_id;
  content = content (record {
    displayname = none;
    avatar_url = none;
    membership = some "leave";
    third_party_invite_token = none;
  });
  prev_content = empty_content;
  is_redacted_event = false;
}

abbrev events : List MemberEvent
events = joins "@a" ∷ joins "@b" ∷ leaves "@b" ∷ []

abbrev ann : String → RoomMember
ann user_id = record {
  user_id = some user_id;
  displayname = some "Ann";
  avatar_url = some "mxc://a/b";
  membership = join;
  third_party_invite_token = none;
  origin_user_id = some user_id;
  prev_membership = unknown;
}

abbrev two_joined : RoomMembers
two_joined = record {
  is_conference_user_room = false;
  conference_user_id = none;
  is_live = true;
  members = ("@a", ann "@a") ∷ ("@b", ann "@b") ∷ [];
  members_names_in_use = ("Ann", 2) ∷ [];
}

after_two :
    handle_state_events session (init false none true) (joins "@a" ∷ joins "@b" ∷ [])
    ≡ some (record {
      state = two_joined;
      has_room_member_event = true;
      updates =
          record { sender = some "@a"; room_member = ann "@a" }
          ∷ record { sender = some "@b"; room_member = ann "@b" }
          ∷ [];
    })
unfolding handle_state_events init_room_member init insert use_name is_membership membership
    release_name lookup
after_two = refl

two_joined-IsValid : IsValid two_joined
two_joined-IsValid = subst (Returns (λ h. IsValid h.state)) after_two (
    handle_state_events-IsValid session (init false none true) (joins "@a" ∷ joins "@b" ∷ [])
      (("@a", refl), (("@b", refl), tt)) (init-IsValid false none true))

member_name-expected_example : member_name two_joined (some "@b") ≡ some "Ann (@b)"
unfolding lookup count
member_name-expected_example = member_name-expected two_joined "@b" two_joined-IsValid refl

encryption_target_members-In_example :
    In (ann "@a") (encryption_target_members two_joined (some "joined")) ↔ (
      ((k : String) × (lookup k two_joined.members ≡ some (ann "@a"))) × Reads (some "joined") join)
encryption_target_members-In_example =
    encryption_target_members-In two_joined (some "joined") (ann "@a") two_joined-IsValid
