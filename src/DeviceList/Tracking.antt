-- ===== src/DeviceList/Tracking.antt =====
-- How the tracking status of users moves, in MXDeviceList.m.
use sendingnetwork_ios.Common.{
  ℕ, eqb_iff, String, Bool, true, false, ◌≡◌, refl, sym, ap, ◌∙◌, Option, none, some, List, [], ◌∷◌,
  ◌&&◌, if◌then◌else◌, ◌==◌, eq_iff, arith, ◌⊎◌, inl, inr,
}
use sendingnetwork_ios.Common.Dict.{lookup, remove, lookup-insert, lookup-remove}
use sendingnetwork_ios.DeviceList.{
  DeviceTrackingStatus, not_tracked, pending_download, download_in_progress, unreachable_server,
  up_to_date, DeviceList, from_number, status_of, operation_of, set_status, is_in_progress,
  same_operation, finish, succeed, succeed_all, fail_all, complete,
}

pub status_of-set_status :
    (v u : String) (status : DeviceTrackingStatus) (s : DeviceList)
    → status_of u (set_status v status s) ≡ (if v == u then status else status_of u s)
status_of-set_status v u status s =
    ap from_number (lookup-insert v u status s.device_tracking_status) ∙ either (v == u)
  where
    either :
        (b : Bool)
        → from_number (if b then some status else lookup u s.device_tracking_status)
          ≡ (if b then status else status_of u s)
    either true = refl
    either false = refl

in_progress_iff : (t : DeviceTrackingStatus) → is_in_progress t ≡ true → t ≡ download_in_progress
in_progress_iff download_in_progress h = refl
in_progress_iff not_tracked h = absurd (cc)
in_progress_iff pending_download h = absurd (cc)
in_progress_iff unreachable_server h = absurd (cc)
in_progress_iff up_to_date h = absurd (cc)

-- Only the status of the user itself moves, and only from a download in progress.
status_of-finish :
    (v u : String) (status : DeviceTrackingStatus) (s : DeviceList)
    → status_of u (finish status v s)
      ≡ (if (v == u) && is_in_progress (status_of v s) then status else status_of u s)
status_of-finish v u status s = by_status (is_in_progress (status_of v s))
  where
    by_status :
        (b : Bool)
        → status_of u (if b then set_status v status s else s)
          ≡ (if (v == u) && b then status else status_of u s)
    by_status true = ground (arith, status_of-set_status v u status s)
    by_status false = ground arith

operation_of-finish :
    (v u : String) (status : DeviceTrackingStatus) (s : DeviceList)
    → operation_of u (finish status v s) ≡ operation_of u s
operation_of-finish v u status s = by_status (is_in_progress (status_of v s))
  where
    by_status :
        (b : Bool) → operation_of u (if b then set_status v status s else s) ≡ operation_of u s
    by_status true = refl
    by_status false = refl

operation_of-succeed :
    (operation : ℕ) (v u : String) (s : DeviceList)
    → operation_of u (succeed operation v s)
      ≡ (if (v == u) && same_operation (operation_of v s) operation then none else operation_of u s)
operation_of-succeed operation v u s = by_operation (same_operation (operation_of v s) operation)
  where
    by_operation :
        (b : Bool)
        → operation_of u (
            if b
            then finish up_to_date v (record s {
              key_downloads_in_progress_by_user = remove v s.key_downloads_in_progress_by_user;
            })
            else s)
          ≡ (if (v == u) && b then none else operation_of u s)
    by_operation true =
        operation_of-finish v u up_to_date (record s {
          key_downloads_in_progress_by_user = remove v s.key_downloads_in_progress_by_user;
        })
        ∙ ground (arith, lookup-remove v u s.key_downloads_in_progress_by_user)
    by_operation false = ground arith

status_of-succeed :
    (operation : ℕ) (v u : String) (s : DeviceList)
    → status_of u (succeed operation v s) ≡ (
        if (v == u)
          && (same_operation (operation_of v s) operation && is_in_progress (status_of v s))
        then up_to_date
        else status_of u s)
status_of-succeed operation v u s = by_operation (same_operation (operation_of v s) operation)
  where
    by_operation :
        (b : Bool)
        → status_of u (
            if b
            then finish up_to_date v (record s {
              key_downloads_in_progress_by_user = remove v s.key_downloads_in_progress_by_user;
            })
            else s)
          ≡ (if (v == u) && (b && is_in_progress (status_of v s))
              then up_to_date
              else status_of u s)
    by_operation true = status_of-finish v u up_to_date (record s {
      key_downloads_in_progress_by_user = remove v s.key_downloads_in_progress_by_user;
    })
    by_operation false = ground arith

same_operation_lem : (o : Option ℕ) (n : ℕ) → same_operation o n ≡ true → o ≡ some n
same_operation_lem none n h = absurd (cc)
same_operation_lem (some m) n h = ap some ((eqb_iff m n).0 h)

-- Where a completion may take a user from: up to date already, or in the download of the operation.
abbrev pub IsFetched : ℕ → DeviceTrackingStatus → Option ℕ → Type 0
IsFetched operation status o =
    (status ≡ up_to_date) ⊎ ((status ≡ download_in_progress) × (o ≡ some operation))

moved :
    {n : ℕ} {a b : DeviceTrackingStatus} {o p : Option ℕ}
    → a ≡ b
    → o ≡ p
    → IsFetched n a o
    → IsFetched n b p
moved ea eo (inl e) = inl (sym ea ∙ e)
moved ea eo (inr (e, q)) = inr (sym ea ∙ e, sym eo ∙ q)

-- What was read before, of the user of the completion and of another one.
before_completion :
    (here mine busy : Bool) (n : ℕ) (status : DeviceTrackingStatus) (o : Option ℕ)
    → (here ≡ true → mine ≡ true → o ≡ some n)
    → (here ≡ true → busy ≡ true → status ≡ download_in_progress)
    → IsFetched n
        (if here && (mine && busy) then up_to_date else status)
        (if here && mine then none else o)
    → IsFetched n status o
before_completion false mine busy n status o own down h = h
before_completion true false busy n status o own down h = h
before_completion true true true n status o own down h = inr (down refl refl, own refl refl)
before_completion true true false n status o own down (inl e) = inl e
before_completion true true false n status o own down (inr (e, q)) = absurd (cc)

succeed-IsFetched :
    (operation : ℕ) (v u : String) (s : DeviceList)
    → IsFetched operation
        (status_of u (succeed operation v s))
        (operation_of u (succeed operation v s))
    → IsFetched operation (status_of u s) (operation_of u s)
succeed-IsFetched operation v u s h =
    before_completion (v == u) (same_operation (operation_of v s) operation)
      (is_in_progress (status_of v s)) operation (status_of u s) (operation_of u s)
      (λ same mine.
        ap (λ w. operation_of w s) (sym ((eq_iff v u).0 same))
        ∙ same_operation_lem (operation_of v s) operation mine)
      (λ same busy.
        ap (λ w. status_of w s) (sym ((eq_iff v u).0 same)) ∙ in_progress_iff (status_of v s) busy)
      (moved (status_of-succeed operation v u s) (operation_of-succeed operation v u s) h)

succeed_all-IsFetched :
    (operation : ℕ) (ids : List String) (u : String) (s : DeviceList)
    → status_of u (succeed_all operation ids s) ≡ up_to_date
    → IsFetched operation (status_of u s) (operation_of u s)
succeed_all-IsFetched operation [] u s h = inl h
succeed_all-IsFetched operation (v ∷ ids) u s h =
    succeed-IsFetched operation v u s
      (succeed_all-IsFetched operation ids u (succeed operation v s) h)

fail_all-up_to_date :
    (ids : List String) (u : String) (s : DeviceList)
    → status_of u (fail_all ids s) ≡ up_to_date
    → status_of u s ≡ up_to_date
fail_all-up_to_date [] u s h = h
fail_all-up_to_date (v ∷ ids) u s h = kept ((v == u) && is_in_progress (status_of v s)) (
    sym (status_of-finish v u unreachable_server s)
    ∙ fail_all-up_to_date ids u (finish unreachable_server v s) h)
  where
    kept :
        (b : Bool)
        → (if b then unreachable_server else status_of u s) ≡ up_to_date
        → status_of u s ≡ up_to_date
    kept true e = absurd (cc)
    kept false e = e

-- When an operation completes, whichever users its query reached and in whatever order, a user whose
-- devices are up to date then was so before, or was in a download, with no newer operation started for
-- the user since; a list that was invalidated meanwhile stays outdated.
pub complete-up_to_date :
    (operation : ℕ) (succeeded failed_ids : List String) (u : String) (s : DeviceList)
    → status_of u (complete operation succeeded failed_ids s) ≡ up_to_date
    → (status_of u s ≡ up_to_date)
      ⊎ ((status_of u s ≡ download_in_progress) × (operation_of u s ≡ some operation))
unfolding complete
complete-up_to_date operation succeeded failed_ids u s h =
    succeed_all-IsFetched operation succeeded u s
      (fail_all-up_to_date failed_ids u (succeed_all operation succeeded s) h)
