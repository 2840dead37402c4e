-- ===== src/Models/KeyBackup.antt =====
-- SDNSDK/Crypto/KeyBackup/Data/MXKeyBackupData.h and .m: the keys of a backup by room and session.
pub mod RoundTrip
use sendingnetwork_ios.Common.{Bool, false, Option, none, some, [], ◌∷◌}
use sendingnetwork_ios.Common.Dict.{Dict, lookup}
use sendingnetwork_ios.Common.Int.{ℤ, pos}
use sendingnetwork_ios.Json.{Json, dictionary, fields}
use sendingnetwork_ios.Json.Setters.{
  Outcome, returned, ◌>>=◌, set_dictionary, set_boolean, set_integer, always, made, models_by_key,
}
use sendingnetwork_ios.Json.Writers.{put, as_dictionary, as_boolean, as_integer}

pub record KeyBackupData : Type 0 where
  pub first_message_index : ℤ
  pub forwarded_count : ℤ
  pub verified : Bool
  pub session_data : Option (Dict Json)

unfoldable pub key_backup_data_from_json : Dict Json → KeyBackupData
key_backup_data_from_json json = record {
  first_message_index = set_integer (pos 0) (lookup "first_message_index" json);
  forwarded_count = set_integer (pos 0) (lookup "forwarded_count" json);
  verified = set_boolean false (lookup "is_verified" json);
  session_data = set_dictionary none (lookup "session_data" json);
}

unfoldable pub key_backup_data_json : KeyBackupData → Dict Json
key_backup_data_json k = put "session_data" (as_dictionary k.session_data) (
    put "is_verified" (as_boolean k.verified) (
      put "forwarded_count" (as_integer k.forwarded_count)
        (put "first_message_index" (as_integer k.first_message_index) [])))

pub record RoomKeysBackupData : Type 0 where
  pub sessions : Option (Dict KeyBackupData)

-- The models under the keys of a dictionary that may be nil.
abbrev pub read_by_key {ℓ} :
    {A : Type ℓ} → (Dict Json → Outcome (Option A)) → Option (Dict Json) → Outcome (Option (Dict A))
read_by_key model_from_json none = returned none
read_by_key model_from_json (some d) = do
  models ← models_by_key model_from_json d
  returned (some models)

unfoldable pub room_keys_backup_data_from_json : Dict Json → Outcome RoomKeysBackupData
room_keys_backup_data_from_json json = do
  sessions ←
      read_by_key (always key_backup_data_from_json) (set_dictionary none (lookup "sessions" json))
  returned (record { sessions = sessions })

-- `for (key in map) json[key] = map[key].JSONDictionary`
unfoldable pub json_by_key {ℓ} : {A : Type ℓ} → (A → Dict Json) → Dict A → Dict Json
json_by_key model_json [] = []
json_by_key model_json ((k, a) ∷ d) =
    (k, dictionary (fields (model_json a))) ∷ json_by_key model_json d

abbrev pub written_by_key {ℓ} : {A : Type ℓ} → (A → Dict Json) → Option (Dict A) → Option Json
written_by_key model_json none = as_dictionary (some [])
written_by_key model_json (some d) = as_dictionary (some (json_by_key model_json d))

unfoldable pub room_keys_backup_data_json : RoomKeysBackupData → Dict Json
room_keys_backup_data_json r = put "sessions" (written_by_key key_backup_data_json r.sessions) []

pub record KeysBackupData : Type 0 where
  pub rooms : Option (Dict RoomKeysBackupData)

unfoldable pub keys_backup_data_from_json : Dict Json → Outcome KeysBackupData
keys_backup_data_from_json json = do
  rooms ←
      read_by_key (made room_keys_backup_data_from_json) (set_dictionary none (lookup "rooms" json))
  returned (record { rooms = rooms })

unfoldable pub keys_backup_data_json : KeysBackupData → Dict Json
keys_backup_data_json k = put "rooms" (written_by_key room_keys_backup_data_json k.rooms) []
