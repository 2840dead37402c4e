-- ===== src/RoomMembers/Selections.antt =====
-- What the readers of SDNSDK/Data/MXRoomMembers.m answer about a valid state.
use sendingnetwork_ios.Common.{
  ℕ, suc, zero, String, true, false, ◌≡◌, refl, ap, subst, ◌∙◌, ◌⊎◌, ◌↔◌, Option, none, some, List,
  [], ◌∷◌, if◌then◌else◌, ltb, arith, Bool-cases, inl, inr, equal_ids, ◌==◌, In, In-append,
}
use sendingnetwork_ios.Common.Dict.{Dict, lookup, values, IsDict, count, In-values}
use sendingnetwork_ios.Conversions.{Membership, invite, join}
use sendingnetwork_ios.RoomMembers.Member.{RoomMember, is_membership}
use sendingnetwork_ios.RoomMembers.Names.{uses, in_use}
use sendingnetwork_ios.RoomMembers.Handling.{IsValid}
use sendingnetwork_ios.RoomMembers.Queries.{
  non_empty, disambiguated, name_by_count, name_of, member_name, with_membership,
  members_with_membership, encryption_target_members,
}
use sendingnetwork_ios.RoomMembers.{RoomMembers, displayname_of}

-- The name to show for an id: the id itself where no name is known, and else the name, followed by
-- the id where another member goes by the same name.
abbrev expected_name : Dict RoomMember → String → Option String → String
expected_name members id none = id
expected_name members id (some name) =
    if ltb 1 (count (uses name) members) then disambiguated name id else name

name_by_count-in_use :
    (name id : String) (n : ℕ)
    → name_by_count name id (in_use n) ≡ (if ltb 1 n then disambiguated name id else name)
unfolding name_by_count
name_by_count-in_use name id zero = refl
name_by_count-in_use name id (suc n) = refl

name_of-expected :
    (s : RoomMembers) (id : String) (o : Option String)
    → IsValid s
    → name_of s id o ≡ expected_name s.members id o
unfolding name_of
name_of-expected s id none v = refl
name_of-expected s id (some name) v =
    ap (name_by_count name id) (v.counted.counts name)
    ∙ name_by_count-in_use name id (count (uses name) s.members)

-- In a valid state the name of a user whose id is not empty is the id where no member with that
-- id has a display name that is not empty, and else that name, with the id added exactly when
-- more than one member goes by it.
pub member_name-expected :
    (s : RoomMembers) (id : String)
    → IsValid s
    → (id == "") ≡ false
    → member_name s (some id)
      ≡ some (expected_name s.members id (non_empty (displayname_of (lookup id s.members))))
unfolding member_name
member_name-expected s id v e =
    rw (e, member_name)
      (ap some (name_of-expected s id (non_empty (displayname_of (lookup id s.members))) v))

In-with_membership :
    (m : Membership) (x : RoomMember) (xs : List RoomMember)
    → In x (with_membership m xs) ↔ (In x xs × (is_membership x.membership m ≡ true))
unfolding with_membership
In-with_membership m x [] = ((λ h. absurd h), (λ h. absurd h.0))
In-with_membership m x (y ∷ ys) = elim (Bool-cases (is_membership y.membership m)) [
  | inl kept ↦ rw kept (
    (λ h. elim h [
      | inl e ↦ (inl e, subst (λ z. is_membership z.membership m ≡ true) e kept)
      | inr more ↦ let both = (In-with_membership m x ys).0 more in (inr both.0, both.1)
    ]),
    (λ (h, e). elim h [
      | inl same ↦ inl same
      | inr more ↦ inr ((In-with_membership m x ys).1 (more, e))
    ]),
  )
  | inr left_out ↦ rw left_out (
    (λ more. let both = (In-with_membership m x ys).0 more in (inr both.0, both.1)),
    (λ (h, e). elim h [
      | inl same ↦
          absurd (ground (arith, subst (λ z. is_membership z.membership m ≡ false) same left_out))
      | inr more ↦ (In-with_membership m x ys).1 (more, e)
    ]),
  )
]

-- Who reads a message of a room with a history visibility: the members who joined, and the invited
-- ones unless the history is visible from the time of joining on.
abbrev pub Reads : Option String → Membership → Type 0
Reads visibility m = (m ≡ join) ⊎ ((equal_ids visibility (some "joined") ≡ false) × (m ≡ invite))

is_membership_sound : (a b : Membership) → is_membership a b ≡ true → a ≡ b
unfolding is_membership
is_membership_sound a b h = ground arith

is_membership_refl : (a : Membership) → is_membership a a ≡ true
unfolding is_membership
is_membership_refl a = ground arith

-- A member is among the results exactly when some id leads to it and it has the membership.
In-members_with_membership :
    (m : Membership) (x : RoomMember) (s : RoomMembers)
    → IsDict s.members
    → In x (members_with_membership m s)
      ↔ (((k : String) × (lookup k s.members ≡ some x)) × (x.membership ≡ m))
unfolding members_with_membership
In-members_with_membership m x s d = (
  (λ h.
      let both = (In-with_membership m x (values s.members)).0 h in
      ((In-values x s.members d).0 both.0, is_membership_sound x.membership m both.1)),
  λ (h, e). (In-with_membership m x (values s.members)).1 (
    (In-values x s.members d).1 h,
    subst (λ y. is_membership x.membership y ≡ true) e (is_membership_refl x.membership),
  ),
)

-- In a valid state a member is among the users that a message is encrypted for exactly when it
-- stands under some id and joined the room, or is invited and the history visibility is not
-- "joined".
pub encryption_target_members-In :
    (s : RoomMembers) (visibility : Option String) (x : RoomMember)
    → IsValid s
    → In x (encryption_target_members s visibility)
      ↔ (((k : String) × (lookup k s.members ≡ some x)) × Reads visibility x.membership)
unfolding encryption_target_members
encryption_target_members-In s visibility x v =
    let joined = In-members_with_membership join x s v.counted.members_dict in
    let invited = In-members_with_membership invite x s v.counted.members_dict in
    let both = In-append x (members_with_membership join s) (members_with_membership invite s) in
    elim (Bool-cases (equal_ids visibility (some "joined"))) [
      | inl only_joined ↦ rw only_joined (
        (λ h. ((joined.0 h).0, inl (joined.0 h).1)),
        λ (h, r). elim r [
          | inl e ↦ joined.1 (h, e)
          | inr (e, _) ↦ absurd (ground (arith, only_joined, e))
        ],
      )
      | inr all ↦ rw all (
        (λ h. elim (both.0 h) [
          | inl j ↦ ((joined.0 j).0, inl (joined.0 j).1)
          | inr i ↦ ((invited.0 i).0, inr (refl, (invited.0 i).1))
        ]),
        λ (h, r).
            both.1 (elim r [ inl e ↦ inl (joined.1 (h, e)) | inr (_, e) ↦ inr (invited.1 (h, e)) ]),
      )
    ]
