-- ===== src/DeviceList/Tests.antt =====
-- A user whose download completes, and a refresh.
use sendingnetwork_ios.Common.{
  String, Bool, true, ◌≡◌, refl, some, [], ◌∷◌, ◌⊎◌, ◌&&◌, not, ◌==◌, if◌then◌else◌,
}
use sendingnetwork_ios.Common.Dict.{lookup, insert, remove}
use sendingnetwork_ios.DeviceList.{
  DeviceList, pending_download, unreachable_server, download_in_progress, up_to_date, status_of,
  operation_of, is_pending, init, complete, download_keys, refresh_outdated_device_lists,
  invalidate_user_device_list,
}
use sendingnetwork_ios.DeviceList.Tracking.{complete-up_to_date}
use sendingnetwork_ios.DeviceList.Refresh.{status_of-refresh_outdated_device_lists}

abbrev is_user_id : String → Bool
is_user_id user_id = not (user_id == "")

abbrev stored : DeviceList
stored = init (("@a", download_in_progress) ∷ ("@b", up_to_date) ∷ ("", pending_download) ∷ [])

abbrev downloading : DeviceList
downloading = download_keys is_user_id true ("@a" ∷ "@b" ∷ []) stored

invalidated_meanwhile :
    status_of "@b" (complete 0 ("@a" ∷ "@b" ∷ []) [] (invalidate_user_device_list "@b" downloading))
    ≡ pending_download
unfolding init download_keys complete invalidate_user_device_list lookup insert remove
invalidated_meanwhile = refl

complete-up_to_date_example :
    (status_of "@a" downloading ≡ up_to_date)
    ⊎ ((status_of "@a" downloading ≡ download_in_progress)
        × (operation_of "@a" downloading ≡ some 0))
unfolding init download_keys complete lookup insert remove
complete-up_to_date_example = complete-up_to_date 0 ("@a" ∷ []) ("@b" ∷ []) "@a" downloading refl

status_of-refresh_outdated_device_lists_example :
    status_of "@a" (refresh_outdated_device_lists is_user_id stored) ≡ (
      if is_user_id "@a" && is_pending (status_of "@a" stored)
      then download_in_progress
      else status_of "@a" stored)
status_of-refresh_outdated_device_lists_example =
    status_of-refresh_outdated_device_lists is_user_id "@a" stored

-- The first of two downloads fails for a user whose keys the second one brings.
older_failure :
    status_of "@a" (
      complete 1
        ("@a" ∷ [])
        []
        (complete 0 [] ("@a" ∷ []) (download_keys is_user_id true ("@a" ∷ []) downloading)))
    ≡ unreachable_server
unfolding init download_keys complete lookup insert remove
older_failure = refl
