-- ===== src/RoomMembers/Handling.antt =====
-- `handleStateEvents:` of SDNSDK/Data/MXRoomMembers.m and its invariant.
use sendingnetwork_ios.Common.{
  ℕ, String, Bool, false, ◌≡◌, refl, sym, ap, ◌∙◌, subst, Option, none, some, List, [], ◌∷◌, arith,
  Option-cases, Bool-cases, inl, inr, All,
}
use sendingnetwork_ios.Common.Dict.{
  Dict, lookup, insert, remove, insert-IsDict, remove-IsDict, count,
}
use sendingnetwork_ios.RoomMembers.Member.{
  MemberEvent, RoomMember, init_room_member, or_else, user_id-init_room_member,
}
use sendingnetwork_ios.RoomMembers.Names.{
  Counts, IsCounted, IsKeyed, Counts-insert, Counts-remove, IsKeyed-insert, IsKeyed-remove,
}
use sendingnetwork_ios.RoomMembers.{
  Session, RoomMembers, UserUpdate, release_name, use_name, displayname_of, member_with_user_id,
  with_identicon, store_member, drop_member, replace_member, content_of_event, handle_member_event,
  Handled, handle_one, record_updates, handle_from, handle_state_events, init, is_room_member,
}

-- What the members satisfy between two events.
pub record IsValid (s : RoomMembers) : Type 0 where
  pub counted : IsCounted s
  pub keyed : IsKeyed s

pub init-IsValid :
    (conference_room : Bool) (conference_user : Option String) (live : Bool)
    → IsValid (init conference_room conference_user live)
unfolding init lookup count
init-IsValid conference_room conference_user live = record {
  counted = record { members_dict = tt; counts = λ name. refl };
  keyed = record { at_key = λ k m h. absurd (cc) };
}

-- Whether a result is a state that satisfies a property, and no exception.
abbrev pub Returns {ℓ} : {A : Type ℓ} → (A → Type 0) → Option A → Type 0
Returns P none = ⊥
Returns P (some a) = P a

displayname-with_identicon :
    (session : Session) (k : String) (m : RoomMember)
    → (with_identicon session k m).displayname ≡ m.displayname
unfolding with_identicon
displayname-with_identicon session k m = ground arith

user_id-with_identicon :
    (session : Session) (k : String) (m : RoomMember)
    → (with_identicon session k m).user_id ≡ m.user_id
unfolding with_identicon
user_id-with_identicon session k m = ground arith

abbrev released_names : String → RoomMembers → Dict ℕ
released_names k s = release_name (displayname_of (lookup k s.members)) s.members_names_in_use

stored-IsValid :
    (s : RoomMembers) (k : String) (m : RoomMember) (name : Option String)
    → IsValid s
    → m.user_id ≡ some k
    → m.displayname ≡ name
    → IsValid (record s {
      members = insert k m s.members;
      members_names_in_use = use_name name (released_names k s);
    })
stored-IsValid s k m name v e d = record {
  counted = record {
    members_dict = insert-IsDict k m s.members v.counted.members_dict;
    counts =
        subst (λ x. Counts (insert k m s.members) (use_name x (released_names k s))) d
          (Counts-insert s k m v.counted);
  };
  keyed = IsKeyed-insert s k m (use_name name (released_names k s)) v.keyed e;
}

dropped-IsValid :
    (s : RoomMembers) (k : String)
    → IsValid s
    → IsValid (record s { members = remove k s.members; members_names_in_use = released_names k s })
dropped-IsValid s k v = record {
  counted = record {
    members_dict = remove-IsDict k s.members v.counted.members_dict;
    counts = Counts-remove s k v.counted;
  };
  keyed = IsKeyed-remove s k (released_names k s) v.keyed;
}

store_member-IsValid :
    (session : Session) (s : RoomMembers) (event : MemberEvent) (k : String) (m : RoomMember)
    → IsValid s
    → m.user_id ≡ some k
    → Returns (λ r. IsValid r.0) (store_member session s event (released_names k s) m (some k))
unfolding store_member
store_member-IsValid session s event k m v e =
    stored-IsValid s k (with_identicon session k m) m.displayname v
      (user_id-with_identicon session k m ∙ e) (displayname-with_identicon session k m)

replace_member-IsValid :
    (session : Session) (s : RoomMembers) (event : MemberEvent) (k : String)
    (new : Option RoomMember)
    → event.state_key ≡ some k
    → IsValid s
    → ((m : RoomMember) → new ≡ some m → m.user_id ≡ some k)
    → Returns (λ r. IsValid r.0) (replace_member session s event (released_names k s) new)
unfolding replace_member drop_member
replace_member-IsValid session s event k none e v id =
    subst (λ o. Returns (λ r. IsValid r.0) (drop_member s (released_names k s) o)) (sym e)
      (dropped-IsValid s k v)
replace_member-IsValid session s event k (some m) e v id =
    subst (λ o. Returns (λ r. IsValid r.0) (store_member session s event (released_names k s) m o))
      (sym (id m refl)) (store_member-IsValid session s event k m v (id m refl))

-- An event of a member whose state key is there raises nothing and leaves a valid state.
handle_member_event-IsValid :
    (session : Session) (s : RoomMembers) (event : MemberEvent) (k : String)
    → event.state_key ≡ some k
    → IsValid s
    → Returns (λ r. IsValid r.0) (handle_member_event session s event)
unfolding handle_member_event
handle_member_event-IsValid session s event k e v =
    subst
      (λ o.
        Returns (λ r. IsValid r.0)
          (replace_member session s event
            (release_name (displayname_of (member_with_user_id o s)) s.members_names_in_use)
            (init_room_member event (content_of_event s event) s.is_live)))
      (sym e)
      (replace_member-IsValid session s event k
        (init_room_member event (content_of_event s event) s.is_live) e v
        (λ m present.
          user_id-init_room_member event (content_of_event s event) s.is_live m present
          ∙ ap (λ x. or_else x event.sender) e))

-- An event that carries a state key, as a state event does.
abbrev pub HasStateKey : MemberEvent → Type 0
HasStateKey event = (k : String) × (event.state_key ≡ some k)

record_updates-IsValid :
    (h : Handled) (o : Option (RoomMembers × List UserUpdate))
    → Returns (λ r. IsValid r.0) o
    → Returns (λ r. IsValid r.state) (record_updates h o)
unfolding record_updates
record_updates-IsValid h none v = v
record_updates-IsValid h (some (s, updates)) v = v

handle_one-IsValid :
    (session : Session) (h : Handled) (event : MemberEvent)
    → HasStateKey event
    → IsValid h.state
    → Returns (λ r. IsValid r.state) (handle_one session h event)
unfolding handle_one
handle_one-IsValid session h event (k, e) v = elim (Bool-cases (is_room_member event.event_type)) [
  | inl member ↦ rw member (
      record_updates-IsValid h (handle_member_event session h.state event)
        (handle_member_event-IsValid session h.state event k e v))
  | inr other ↦ rw other v
]

handle_from-IsValid :
    (session : Session) (h : Handled) (events : List MemberEvent)
    → All HasStateKey events
    → IsValid h.state
    → Returns (λ r. IsValid r.state) (handle_from session h events)
unfolding handle_from
handle_from-IsValid session h [] keys v = v
handle_from-IsValid session h (event ∷ events) keys v =
    elim (Option-cases (handle_one session h event)) [
      | inl raised ↦ absurd (
          subst (Returns (λ r. IsValid r.state)) raised
            (handle_one-IsValid session h event keys.0 v))
      | inr (next, e) ↦
          rw (e, Returns, handle_from)
            (handle_from-IsValid session next events keys.1 (
              subst (Returns (λ r. IsValid r.state)) e
                (handle_one-IsValid session h event keys.0 v)))
    ]

pub handle_state_events-IsValid :
    (session : Session) (s : RoomMembers) (events : List MemberEvent)
    → All HasStateKey events
    → IsValid s
    → Returns (λ h. IsValid h.state) (handle_state_events session s events)
unfolding handle_state_events
handle_state_events-IsValid session s events keys v =
    handle_from-IsValid session (record { state = s; has_room_member_event = false; updates = [] })
      events keys v
