-- ===== src/DeviceList.antt =====
-- SDNSDK/Crypto/Devices/MXDeviceList.h and .m: which users' devices are tracked, and how far their
-- download is. An operation is known by a number. The pools that bring operations together in one
-- query, the keys themselves and what is persisted are left out: an operation completes with some lists
-- of users, at any time. Which texts are user ids is a function, a regular expression in the code.
pub mod Tracking
pub mod Refresh
mod Tests
use sendingnetwork_ios.Common.{
  ℕ, suc, eqb, String, Bool, true, false, ◌≡◌, Option, none, some, List, [], ◌∷◌, not, ◌&&◌, ◌||◌,
  if◌then◌else◌,
}
use sendingnetwork_ios.Common.Dict.{Dict, lookup, insert, remove, keys}

pub data DeviceTrackingStatus : Type 0 where
  not_tracked pending_download download_in_progress unreachable_server up_to_date :
      DeviceTrackingStatus

pub record DeviceList : Type 0 where
  pub device_tracking_status : Dict DeviceTrackingStatus
  pub key_downloads_in_progress_by_user : Dict ℕ
  pub operations : ℕ  -- how many there were

-- MXDeviceTrackingStatusFromNSNumber, of a number that may be nil
abbrev pub from_number : Option DeviceTrackingStatus → DeviceTrackingStatus
from_number none = not_tracked
from_number (some status) = status

abbrev pub status_of : String → DeviceList → DeviceTrackingStatus
status_of user_id s = from_number (lookup user_id s.device_tracking_status)

abbrev pub operation_of : String → DeviceList → Option ℕ
operation_of user_id s = lookup user_id s.key_downloads_in_progress_by_user

abbrev pub set_status : String → DeviceTrackingStatus → DeviceList → DeviceList
set_status user_id status s = record s {
  device_tracking_status = insert user_id status s.device_tracking_status;
}

-- What was in progress or failed at the last shutdown is pending.
abbrev restarted : DeviceTrackingStatus → DeviceTrackingStatus
restarted download_in_progress = pending_download
restarted unreachable_server = pending_download
restarted status = status

abbrev restarted_all : Dict DeviceTrackingStatus → Dict DeviceTrackingStatus
restarted_all [] = []
restarted_all ((user_id, status) ∷ d) = (user_id, restarted status) ∷ restarted_all d

unfoldable pub init : Dict DeviceTrackingStatus → DeviceList
init stored = record {
  device_tracking_status = restarted_all stored;
  key_downloads_in_progress_by_user = [];
  operations = 0;
}

abbrev pub is_tracked : DeviceTrackingStatus → Bool
is_tracked not_tracked = false
is_tracked _ = true

abbrev pub is_pending : DeviceTrackingStatus → Bool
is_pending pending_download = true
is_pending _ = false

unfoldable pub stop_tracking_device_list : String → DeviceList → DeviceList
stop_tracking_device_list user_id s =
    if is_tracked (status_of user_id s) then set_status user_id not_tracked s else s

unfoldable pub invalidate_user_device_list : String → DeviceList → DeviceList
invalidate_user_device_list user_id s =
    if is_tracked (status_of user_id s) then set_status user_id pending_download s else s

abbrev invalidate_users : List String → DeviceList → DeviceList
invalidate_users [] s = s
invalidate_users (user_id ∷ ids) s = invalidate_users ids (invalidate_user_device_list user_id s)

unfoldable pub invalidate_all_device_lists : DeviceList → DeviceList
invalidate_all_device_lists s = invalidate_users (keys s.device_tracking_status) s

-- Whether a download in progress is good enough, or a new one is needed.
abbrev pub is_downloaded : (force_download : Bool) → DeviceTrackingStatus → Bool
is_downloaded force_download up_to_date = force_download
is_downloaded force_download unreachable_server = force_download
is_downloaded force_download _ = true

-- The operation takes the place of an older one of the same user.
abbrev pub start_downloads : ℕ → List String → DeviceList → DeviceList
start_downloads operation [] s = s
start_downloads operation (user_id ∷ ids) s = start_downloads operation ids (record s {
  device_tracking_status = insert user_id download_in_progress s.device_tracking_status;
  key_downloads_in_progress_by_user = insert user_id operation s.key_downloads_in_progress_by_user;
})

abbrev pub new_operation : List String → DeviceList → DeviceList
new_operation [] s = s
new_operation (user_id ∷ ids) s =
    start_downloads s.operations (user_id ∷ ids) (record s { operations = suc s.operations })

abbrev pub same_operation : Option ℕ → ℕ → Bool
same_operation none operation = false
same_operation (some other) operation = eqb other operation

abbrev pub is_in_progress : DeviceTrackingStatus → Bool
is_in_progress download_in_progress = true
is_in_progress _ = false

-- What a status in progress turns to.
abbrev pub finish : DeviceTrackingStatus → String → DeviceList → DeviceList
finish status user_id s =
    if is_in_progress (status_of user_id s) then set_status user_id status s else s

-- The keys of a user came: nothing happens when another operation was started since.
abbrev pub succeed : ℕ → String → DeviceList → DeviceList
succeed operation user_id s =
    if same_operation (operation_of user_id s) operation
    then finish up_to_date user_id (record s {
      key_downloads_in_progress_by_user = remove user_id s.key_downloads_in_progress_by_user;
    })
    else s

abbrev pub succeed_all : ℕ → List String → DeviceList → DeviceList
succeed_all operation [] s = s
succeed_all operation (user_id ∷ ids) s = succeed_all operation ids (succeed operation user_id s)

abbrev pub fail_all : List String → DeviceList → DeviceList
fail_all [] s = s
fail_all (user_id ∷ ids) s = fail_all ids (finish unreachable_server user_id s)

-- The success block of an operation.
unfoldable pub complete : ℕ → (succeeded failed_ids : List String) → DeviceList → DeviceList
complete operation succeeded failed_ids s = fail_all failed_ids (succeed_all operation succeeded s)

abbrev pending_users : List String → DeviceList → List String
pending_users [] s = []
pending_users (user_id ∷ ids) s =
    let rest = pending_users ids s in
    if is_pending (status_of user_id s) then user_id ∷ rest else rest

module _ (is_user_id : String → Bool) where
  unfoldable pub start_tracking_device_list : String → DeviceList → DeviceList
  start_tracking_device_list user_id s =
      if is_user_id user_id && not (is_tracked (status_of user_id s))
      then set_status user_id pending_download s
      else s

  abbrev pub users_to_download : (force_download : Bool) → List String → DeviceList → List String
  users_to_download force_download [] s = []
  users_to_download force_download (user_id ∷ ids) s =
      let rest = users_to_download force_download ids s in
      if is_user_id user_id && is_downloaded force_download (status_of user_id s)
      then user_id ∷ rest
      else rest

  -- downloadKeys:forceDownload:success:failure: up to the query
  unfoldable pub download_keys : (force_download : Bool) → List String → DeviceList → DeviceList
  download_keys force_download ids s = new_operation (users_to_download force_download ids s) s

  unfoldable pub refresh_outdated_device_lists : DeviceList → DeviceList
  unfolding download_keys
  refresh_outdated_device_lists s =
      download_keys false (pending_users (keys s.device_tracking_status) s) s
