-- ===== src/DeviceList/Refresh.antt =====
-- What a refresh of MXDeviceList.m does to the tracking status of each user.
use sendingnetwork_ios.Common.{
  ℕ, suc, String, Bool, true, false, ◌≡◌, refl, ap, ◌∙◌, List, [], ◌∷◌, ◌&&◌, ◌||◌, if◌then◌else◌,
  ◌==◌, eq_iff, arith, Bool-cases, inl, inr,
}
use sendingnetwork_ios.Common.Dict.{Dict, lookup, insert, keys}
use sendingnetwork_ios.DeviceList.{
  DeviceTrackingStatus, download_in_progress, pending_download, not_tracked, unreachable_server,
  up_to_date, DeviceList, from_number, status_of, is_pending, is_downloaded, start_downloads,
  new_operation, pending_users, users_to_download, download_keys, refresh_outdated_device_lists,
}
use sendingnetwork_ios.DeviceList.Tracking.{status_of-set_status}

abbrev has : String → List String → Bool
has u [] = false
has u (v ∷ ids) = (v == u) || has u ids

status_of-start_downloads :
    (n : ℕ) (ids : List String) (u : String) (s : DeviceList)
    → status_of u (start_downloads n ids s)
      ≡ (if has u ids then download_in_progress else status_of u s)
status_of-start_downloads n [] u s = refl
status_of-start_downloads n (v ∷ ids) u s = ground (
  arith,
  status_of-set_status v u download_in_progress s,
  status_of-start_downloads n ids u (record s {
    device_tracking_status = insert v download_in_progress s.device_tracking_status;
    key_downloads_in_progress_by_user = insert v n s.key_downloads_in_progress_by_user;
  }),
)

status_of-new_operation :
    (ids : List String) (u : String) (s : DeviceList)
    → status_of u (new_operation ids s)
      ≡ (if has u ids then download_in_progress else status_of u s)
status_of-new_operation [] u s = refl
status_of-new_operation (v ∷ ids) u s =
    status_of-start_downloads s.operations (v ∷ ids) u (record s { operations = suc s.operations })

-- A test of a user stands for the test of the text that is equal to it.
same_test : (f : String → Bool) (v u : String) → (v == u) ≡ true → f v ≡ f u
same_test f v u same = ap f ((eq_iff v u).0 same)

has-pending_users :
    (ids : List String) (u : String) (s : DeviceList)
    → has u (pending_users ids s) ≡ (has u ids && is_pending (status_of u s))
has-pending_users [] u s = refl
has-pending_users (v ∷ ids) u s = elim (Bool-cases (v == u)) [
  | inl same ↦
      ground
        (arith, same_test (λ w. is_pending (status_of w s)) v u same, has-pending_users ids u s)
  | inr other ↦ ground (arith, other, has-pending_users ids u s)
]

has-keys :
    (u : String) (d : Dict DeviceTrackingStatus)
    → is_pending (from_number (lookup u d)) ≡ true
    → has u (keys d) ≡ true
unfolding lookup
has-keys u [] h = absurd (cc)
has-keys u ((v, status) ∷ d) h = ground (arith, eq_iff v u, has-keys u d)

module _ (is_user_id : String → Bool) where
  has-users_to_download :
      (force_download : Bool) (ids : List String) (u : String) (s : DeviceList)
      → has u (users_to_download is_user_id force_download ids s)
        ≡ (has u ids && (is_user_id u && is_downloaded force_download (status_of u s)))
  has-users_to_download force_download [] u s = refl
  has-users_to_download force_download (v ∷ ids) u s = elim (Bool-cases (v == u)) [
    | inl same ↦ ground (
      arith,
      same_test (λ w. is_user_id w && is_downloaded force_download (status_of w s)) v u same,
      has-users_to_download force_download ids u s,
    )
    | inr other ↦ ground (arith, other, has-users_to_download force_download ids u s)
  ]

  chosen :
      (known valid : Bool) (status : DeviceTrackingStatus)
      → (is_pending status ≡ true → known ≡ true)
      → (if (known && is_pending status) && (valid && is_downloaded false status)
          then download_in_progress
          else status)
        ≡ (if valid && is_pending status then download_in_progress else status)
  chosen true valid pending_download h = ground arith
  chosen false valid pending_download h = let e : false ≡ true = h refl in absurd (cc)
  chosen known valid not_tracked h = ground arith
  chosen known valid download_in_progress h = ground arith
  chosen known valid unreachable_server h = ground arith
  chosen known valid up_to_date h = ground arith

  -- A refresh takes every user with a well-formed id whose devices are pending into a download, and
  -- leaves the status of every other user alone.
  pub status_of-refresh_outdated_device_lists :
      (u : String) (s : DeviceList)
      → status_of u (refresh_outdated_device_lists is_user_id s) ≡ (
          if is_user_id u && is_pending (status_of u s)
          then download_in_progress
          else status_of u s)
  unfolding refresh_outdated_device_lists download_keys
  status_of-refresh_outdated_device_lists u s =
      let known = keys s.device_tracking_status in
      let pending = pending_users known s in
      status_of-new_operation (users_to_download is_user_id false pending s) u s
      ∙ ap (λ b. if b then download_in_progress else status_of u s)
          (has-users_to_download false pending u s
            ∙ ap (λ b. b && (is_user_id u && is_downloaded false (status_of u s)))
                (has-pending_users known u s))
      ∙ chosen (has u known) (is_user_id u) (status_of u s) (has-keys u s.device_tracking_status)
