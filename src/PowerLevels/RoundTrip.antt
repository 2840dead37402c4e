-- ===== src/PowerLevels/RoundTrip.antt =====
-- What is read back from the JSON that MXRoomPowerLevels.m writes.
use sendingnetwork_ios.Common.{
  String, Bool, true, false, ◌≡◌, ◌≢◌, refl, sym, ap, Option, none, some, if◌then◌else◌, ◌==◌,
  arith, Bool-cases, inl, inr,
}
use sendingnetwork_ios.Common.Int.{ℤ, pos, negsuc, eqb_ℤ}
use sendingnetwork_ios.Json.Writers.{IsInteger, integer_value-integer}
use sendingnetwork_ios.Common.Dict.{Dict, lookup, lookup-insert, lookup-remove}
use sendingnetwork_ios.PowerLevels.{
  Value, Json, number, dictionary, RoomPowerLevels, undefined, set_integer, set_dictionary,
  default_level, model_from_json, put_level, put_dictionary, json_dictionary,
}

abbrev level_json : ℤ → Option Json → Option Json
level_json level before = if eqb_ℤ level undefined then before else some (number level)

abbrev dictionary_json : Option (Dict Value) → Option Json
dictionary_json none = none
dictionary_json (some d) = some (dictionary d)

lookup-put_level :
    (key j : String) (level : ℤ) (json : Dict Json)
    → lookup j (put_level key level json)
      ≡ (if key == j then level_json level (lookup j json) else lookup j json)
unfolding put_level
lookup-put_level key j level json = elim (Bool-cases (eqb_ℤ level undefined)) [
  | inl nothing ↦ rw (nothing, put_level) (if_same (key == j) (lookup j json))
  | inr written ↦ rw (written, put_level) (lookup-insert key j (number level) json)
]
  where
    if_same : (b : Bool) (o : Option Json) → o ≡ (if b then o else o)
    if_same true o = refl
    if_same false o = refl

lookup-put_dictionary :
    (key j : String) (d : Option (Dict Value)) (json : Dict Json)
    → lookup j (put_dictionary key d json) ≡ (if key == j then dictionary_json d else lookup j json)
unfolding put_dictionary
lookup-put_dictionary key j none json = lookup-remove key j json
lookup-put_dictionary key j (some d) json = lookup-insert key j (dictionary d) json

ban_written : (p : RoomPowerLevels) → lookup "ban" (json_dictionary p) ≡ level_json p.ban none
unfolding json_dictionary lookup
ban_written p = simp (lookup-put_level, lookup-put_dictionary) refl

kick_written : (p : RoomPowerLevels) → lookup "kick" (json_dictionary p) ≡ level_json p.kick none
unfolding json_dictionary lookup
kick_written p = simp (lookup-put_level, lookup-put_dictionary) refl

redact_written :
    (p : RoomPowerLevels) → lookup "redact" (json_dictionary p) ≡ level_json p.redact none
unfolding json_dictionary lookup
redact_written p = simp (lookup-put_level, lookup-put_dictionary) refl

invite_written :
    (p : RoomPowerLevels) → lookup "invite" (json_dictionary p) ≡ level_json p.invite none
unfolding json_dictionary lookup
invite_written p = simp (lookup-put_level, lookup-put_dictionary) refl

users_default_written :
    (p : RoomPowerLevels)
    → lookup "users_default" (json_dictionary p) ≡ level_json p.users_default none
unfolding json_dictionary lookup
users_default_written p = simp (lookup-put_level, lookup-put_dictionary) refl

events_default_written :
    (p : RoomPowerLevels)
    → lookup "events_default" (json_dictionary p) ≡ level_json p.events_default none
unfolding json_dictionary lookup
events_default_written p = simp (lookup-put_level, lookup-put_dictionary) refl

state_default_written :
    (p : RoomPowerLevels)
    → lookup "state_default" (json_dictionary p) ≡ level_json p.state_default none
unfolding json_dictionary lookup
state_default_written p = simp (lookup-put_level, lookup-put_dictionary) refl

users_written : (p : RoomPowerLevels) → lookup "users" (json_dictionary p) ≡ dictionary_json p.users
unfolding json_dictionary lookup
users_written p = simp (lookup-put_level, lookup-put_dictionary) refl

notifications_written :
    (p : RoomPowerLevels)
    → lookup "notifications" (json_dictionary p) ≡ dictionary_json p.notifications
unfolding json_dictionary lookup
notifications_written p = simp (lookup-put_level, lookup-put_dictionary) refl

events_written :
    (p : RoomPowerLevels) → lookup "events" (json_dictionary p) ≡ dictionary_json p.events
unfolding json_dictionary lookup
events_written p = simp (lookup-put_level, lookup-put_dictionary) refl

-- The legacy keys are not written.
no_legacy :
    (p : RoomPowerLevels)
    → (lookup "usersDefault" (json_dictionary p) ≡ none)
      × (lookup "eventsDefault" (json_dictionary p) ≡ none)
      × (lookup "stateDefault" (json_dictionary p) ≡ none)
unfolding json_dictionary lookup
no_legacy p = (
  simp (lookup-put_level, lookup-put_dictionary) refl,
  simp (lookup-put_level, lookup-put_dictionary) refl,
  simp (lookup-put_level, lookup-put_dictionary) refl,
)

undefined_only : (level : ℤ) → eqb_ℤ level undefined ≡ true → level ≡ undefined
undefined_only (pos n) h = absurd (ground arith)
undefined_only (negsuc n) h = let e : n ≡ 0 = ground arith in ap negsuc e

-- An undefined level is not written, and reads as undefined.
level_read : (level : ℤ) → IsInteger level → set_integer undefined (level_json level none) ≡ level
level_read level h = elim (Bool-cases (eqb_ℤ level undefined)) [
  | inl nothing ↦ rw nothing (sym (undefined_only level nothing))
  | inr written ↦ rw written (integer_value-integer level h)
]

default_read :
    (level assumed : ℤ)
    → IsInteger level
    → level ≢ undefined
    → default_level (level_json level none) none assumed ≡ level
default_read level assumed h defined = elim (Bool-cases (eqb_ℤ level undefined)) [
  | inl nothing ↦ absurd (defined (undefined_only level nothing))
  | inr written ↦ rw written (integer_value-integer level h)
]

dictionary_read : (d : Option (Dict Value)) → set_dictionary none (dictionary_json d) ≡ d
dictionary_read none = refl
dictionary_read (some d) = refl

-- The levels that stand in fields are of 64 bits, as an NSInteger is.
pub record IsLevels (p : RoomPowerLevels) : Type 0 where
  pub users_default_is_integer : IsInteger p.users_default
  pub ban_is_integer : IsInteger p.ban
  pub kick_is_integer : IsInteger p.kick
  pub redact_is_integer : IsInteger p.redact
  pub invite_is_integer : IsInteger p.invite
  pub events_default_is_integer : IsInteger p.events_default
  pub state_default_is_integer : IsInteger p.state_default

-- Power levels of 64 bits, as all levels of an object are, whose three defaults are defined, which is
-- to say not -1, are read back from the JSON dictionary that is made of them.
pub model_from_json-json_dictionary :
    (p : RoomPowerLevels)
    → IsLevels p
    → p.users_default ≢ undefined
    → p.events_default ≢ undefined
    → p.state_default ≢ undefined
    → model_from_json (json_dictionary p) ≡ p
unfolding model_from_json
model_from_json-json_dictionary p levels u e s =
    let (no_users, no_events, no_state) = no_legacy p in
    rw
      (
        users_written p,
        users_default_written p,
        ban_written p,
        kick_written p,
        redact_written p,
        invite_written p,
        notifications_written p,
        events_written p,
        events_default_written p,
        state_default_written p,
        no_users,
        no_events,
        no_state,
        level_read p.ban levels.ban_is_integer,
        level_read p.kick levels.kick_is_integer,
        level_read p.redact levels.redact_is_integer,
        level_read p.invite levels.invite_is_integer,
        dictionary_read p.users,
        dictionary_read p.notifications,
        dictionary_read p.events,
        default_read p.users_default (pos 0) levels.users_default_is_integer u,
        default_read p.events_default (pos 0) levels.events_default_is_integer e,
        default_read p.state_default (pos 50) levels.state_default_is_integer s,
      )
      refl
