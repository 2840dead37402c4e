-- ===== src/Models/KeyBackup/RoundTrip.antt =====
-- What is read back of a key backup.
use sendingnetwork_ios.Common.{Option, none, some, [], ◌∷◌, ◌≡◌, refl, ap, sym, All}
use sendingnetwork_ios.Common.Dict.{Dict, lookup, values}
use sendingnetwork_ios.Json.{Json, entries-fields}
use sendingnetwork_ios.Json.Setters.{
  Outcome, returned, set_model, models_by_key, set_dictionary, always, made,
}
use sendingnetwork_ios.Json.Writers.{
  json_laws, lookup-put, set_integer-as_integer, IsInteger, set_dictionary-as_dictionary,
}
use sendingnetwork_ios.Models.KeyBackup.{
  KeyBackupData, key_backup_data_from_json, key_backup_data_json, RoomKeysBackupData, json_by_key,
  room_keys_backup_data_from_json, room_keys_backup_data_json, KeysBackupData, read_by_key,
  keys_backup_data_from_json, keys_backup_data_json, written_by_key,
}

-- The two counts fit an NSInteger.
abbrev pub IsCounted : KeyBackupData → Type 0
IsCounted k = IsInteger k.first_message_index × IsInteger k.forwarded_count

key_data_read :
    (k : KeyBackupData) → IsCounted k → key_backup_data_from_json (key_backup_data_json k) ≡ k
unfolding key_backup_data_from_json key_backup_data_json lookup
key_data_read k h =
    simp
      (
        json_laws,
        set_integer-as_integer k.first_message_index h.0,
        set_integer-as_integer k.forwarded_count h.1,
      )
      refl

module _ {A : Type 0} (model : Dict Json → Outcome (Option A)) (json : A → Dict Json)
    (P : A → Type 0) (back : (a : A) → P a → model (json a) ≡ returned (some a)) where
  models_read :
      (d : Dict A) → All P (values d) → models_by_key model (json_by_key json d) ≡ returned d
  unfolding models_by_key json_by_key set_model
  models_read [] h = refl
  models_read ((k, a) ∷ d) h = rw (entries-fields (json a), back a h.0, models_read d h.1) refl

  written_read :
      (d : Dict A)
      → All P (values d)
      → read_by_key model (set_dictionary none (written_by_key json (some d))) ≡ returned (some d)
  written_read d h =
      rw (set_dictionary-as_dictionary (some (json_by_key json d)), models_read d h) refl

-- A room's keys, whose sessions are there.
abbrev pub IsRoomKeys : RoomKeysBackupData → Type 0
IsRoomKeys r = (d : Dict KeyBackupData) × (r.sessions ≡ some d) × All IsCounted (values d)

counted_back :
    (k : KeyBackupData)
    → IsCounted k
    → always key_backup_data_from_json (key_backup_data_json k) ≡ returned (some k)
counted_back k h = ap (λ a. returned (some a)) (key_data_read k h)

room_keys_read :
    (r : RoomKeysBackupData)
    → IsRoomKeys r
    → made room_keys_backup_data_from_json (room_keys_backup_data_json r) ≡ returned (some r)
unfolding room_keys_backup_data_from_json room_keys_backup_data_json lookup
room_keys_read r (d, at, h) =
    let e : read_by_key (always key_backup_data_from_json)
          (set_dictionary none (written_by_key key_backup_data_json (some d)))
        ≡ returned (some d) =
      written_read (always key_backup_data_from_json) key_backup_data_json IsCounted counted_back d
        h in
    simp (lookup-put, at, e) (ap (λ o. returned (some (record { sessions = o }))) (sym at))

-- A key backup whose rooms and sessions are there, with counts that fit an NSInteger, is read back
-- from its JSON.
pub keys_backup_data_from_json-keys_backup_data_json :
    (k : KeysBackupData) (d : Dict RoomKeysBackupData)
    → k.rooms ≡ some d
    → All IsRoomKeys (values d)
    → keys_backup_data_from_json (keys_backup_data_json k) ≡ returned k
unfolding keys_backup_data_from_json keys_backup_data_json lookup
keys_backup_data_from_json-keys_backup_data_json k d at h =
    let e : read_by_key (made room_keys_backup_data_from_json)
          (set_dictionary none (written_by_key room_keys_backup_data_json (some d)))
        ≡ returned (some d) =
      written_read (made room_keys_backup_data_from_json) room_keys_backup_data_json IsRoomKeys
        room_keys_read d h in
    simp (lookup-put, at, e) (ap (λ o. returned (record { rooms = o })) (sym at))
