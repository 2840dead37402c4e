-- ===== src/RoomMembers/Names.antt =====
-- The counts of display names of MXRoomMembers.m against its members.
use sendingnetwork_ios.Common.{
  ℕ, zero, suc, ◌+◌, ◌-◌, String, Bool, false, ◌≡◌, refl, sym, ap, subst, ◌∙◌, Option, none, some,
  equal_ids, if◌then◌else◌, ◌==◌, eq_iff, eq_refl, arith, Bool-cases, inl, inr,
}
use sendingnetwork_ios.Common.Dict.{
  Dict, lookup, insert, remove, IsDict, count, weight, lookup-insert, lookup-remove, count-insert,
  count-remove, weight-le-count,
}
use sendingnetwork_ios.RoomMembers.Member.{RoomMember}
use sendingnetwork_ios.RoomMembers.{
  RoomMembers, release_count, release_name, use_name, displayname_of,
}

-- Whether a member goes by a name.
abbrev pub uses : String → RoomMember → Bool
uses name m = equal_ids m.displayname (some name)

abbrev pub in_use : ℕ → Option ℕ
in_use zero = none
in_use (suc n) = some (suc n)

-- A name has the number of the members that go by it, and no entry where none does.
abbrev pub Counts : Dict RoomMember → Dict ℕ → Type 0
Counts members names = (name : String) → lookup name names ≡ in_use (count (uses name) members)

abbrev name_weight : String → Option String → ℕ
name_weight name o = if equal_ids o (some name) then 1 else 0

release_at :
    (name : String) (names : Dict ℕ) (k : ℕ)
    → lookup name names ≡ in_use k
    → lookup name (release_count name (in_use k) names) ≡ in_use (k - 1)
unfolding release_count
release_at name names zero h = h
release_at name names (suc zero) h = ground (arith, eq_refl name, lookup-remove name name names)
release_at name names (suc (suc k)) h =
    ground (arith, eq_refl name, lookup-insert name name (suc k) names)

release_other :
    (name old : String) (names : Dict ℕ) (o : Option ℕ)
    → (old == name) ≡ false
    → lookup name (release_count old o names) ≡ lookup name names
unfolding release_count
release_other name old names none e = refl
release_other name old names (some zero) e = ground (arith, lookup-remove old name names)
release_other name old names (some (suc zero)) e = ground (arith, lookup-remove old name names)
release_other name old names (some (suc (suc n))) e =
    ground (arith, lookup-insert old name (suc n) names)

release_same :
    (name : String) (names : Dict ℕ) (n : String → ℕ)
    → ((j : String) → lookup j names ≡ in_use (n j))
    → lookup name (release_name (some name) names) ≡ in_use (n name - name_weight name (some name))
unfolding release_name
release_same name names n h = rw (h name, eq_refl name) (release_at name names (n name) (h name))

lookup-release_name :
    (name : String) (o : Option String) (names : Dict ℕ) (n : String → ℕ)
    → ((j : String) → lookup j names ≡ in_use (n j))
    → lookup name (release_name o names) ≡ in_use (n name - name_weight name o)
unfolding release_name
lookup-release_name name none names n h = ground (arith, h name)
lookup-release_name name (some old) names n h = elim (Bool-cases (old == name)) [
  | inl e ↦
      subst
        (λ j.
          lookup name (release_name (some j) names) ≡ in_use (n name - name_weight name (some j)))
        (sym ((eq_iff old name).0 e)) (release_same name names n h)
  | inr e ↦
      rw e (release_other name old names (lookup old names) e ∙ h name ∙ ap in_use (omega arith))
]

lookup-use_name :
    (name : String) (o : Option String) (names : Dict ℕ) (n : String → ℕ)
    → ((j : String) → lookup j names ≡ in_use (n j))
    → lookup name (use_name o names) ≡ in_use (n name + name_weight name o)
unfolding use_name
lookup-use_name name none names n h = ground (arith, h name)
lookup-use_name name (some new) names n h =
    ground (arith, h name, h new, eq_iff new name, lookup-insert new name (suc (n new)) names)

-- What holds of the members between two events.
pub record IsCounted (s : RoomMembers) : Type 0 where
  pub members_dict : IsDict s.members
  pub counts : Counts s.members s.members_names_in_use

-- Every member stands under its own id.
pub record IsKeyed (s : RoomMembers) : Type 0 where
  pub at_key : (k : String) (m : RoomMember) → lookup k s.members ≡ some m → m.user_id ≡ some k

abbrev old_name : String → RoomMembers → Option String
old_name k s = displayname_of (lookup k s.members)

name_weight-weight :
    (name : String) (o : Option RoomMember)
    → name_weight name (displayname_of o) ≡ weight (uses name) o
name_weight-weight name none = refl
name_weight-weight name (some m) = refl

released :
    (s : RoomMembers) (k name : String)
    → IsCounted s
    → lookup name (release_name (old_name k s) s.members_names_in_use)
      ≡ in_use (count (uses name) s.members - weight (uses name) (lookup k s.members))
released s k name v =
    lookup-release_name name (old_name k s) s.members_names_in_use (λ j. count (uses j) s.members)
      v.counts
    ∙ ap (λ w. in_use (count (uses name) s.members - w))
        (name_weight-weight name (lookup k s.members))

-- A member is stored, under the name that the event gives it.
pub Counts-insert :
    (s : RoomMembers) (k : String) (m : RoomMember)
    → IsCounted s
    → Counts
        (insert k m s.members)
        (use_name m.displayname (release_name (old_name k s) s.members_names_in_use))
Counts-insert s k m v name =
    lookup-use_name name m.displayname (release_name (old_name k s) s.members_names_in_use)
      (λ j. count (uses j) s.members - weight (uses j) (lookup k s.members)) (λ j. released s k j v)
    ∙ ap in_use (
        omega
          (arith, count-insert (uses name) k m s.members, weight-le-count (uses name) k s.members))

pub Counts-remove :
    (s : RoomMembers) (k : String)
    → IsCounted s
    → Counts (remove k s.members) (release_name (old_name k s) s.members_names_in_use)
Counts-remove s k v name =
    released s k name v
    ∙ ap in_use (omega (arith, count-remove (uses name) k s.members v.members_dict))

-- The member under a key is the one that was stored there under its own id.
pub IsKeyed-insert :
    (s : RoomMembers) (k : String) (m : RoomMember) (names : Dict ℕ)
    → IsKeyed s
    → m.user_id ≡ some k
    → IsKeyed (record s { members = insert k m s.members; members_names_in_use = names })
IsKeyed-insert s k m names v e = record {
  at_key = λ j x h. ground (arith, eq_iff k j, lookup-insert k j m s.members, v.at_key j x);
}

pub IsKeyed-remove :
    (s : RoomMembers) (k : String) (names : Dict ℕ)
    → IsKeyed s
    → IsKeyed (record s { members = remove k s.members; members_names_in_use = names })
IsKeyed-remove s k names v = record {
  at_key = λ j x h. ground (arith, eq_iff k j, lookup-remove k j s.members, v.at_key j x);
}
