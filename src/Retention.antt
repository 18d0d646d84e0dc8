-- ===== src/Retention.antt =====
-- videobackup/retention.py: the choice of the files to delete (`select_for_deletion`,
-- `select_oversize`) and the byte budget (`effective_prune_cap`), which are pure.
-- Times are whole microseconds since the epoch, the resolution of a `datetime`; sizes are Python's
-- integers, since rclone reports -1 for a size that it does not know.
pub mod Order
pub mod Least
pub mod Settled
pub mod Cap
use videobackup.Base.{ℕ, ◌*◌, Bool, true, false, List, [], ◌∷◌, ◌++◌, Option, none, some}
use videobackup.Base.{ℤ, pos, ◌+ℤ◌, ◌-ℤ◌, scale, ltb_ℤ, leb_ℤ, max_ℤ, min_ℤ, filter_by}
use videobackup.Base.{Text, if◌then◌else◌}

pub record RemoteFile : Type 0 where
  pub name : Text
  pub size : ℤ
  pub mod_time : ℤ

-- `sorted(files, key=lambda f: f.mod_time)`: stable, so a file goes before the files that are as
-- old as it and stood behind it.
unfoldable pub insert_by_time : RemoteFile → List RemoteFile → List RemoteFile
insert_by_time f [] = f ∷ []
insert_by_time f (g ∷ gs) =
    let later = g ∷ insert_by_time f gs in if leb_ℤ f.mod_time g.mod_time then f ∷ g ∷ gs else later

unfoldable pub sorted_by_time : List RemoteFile → List RemoteFile
unfolding insert_by_time
sorted_by_time [] = []
sorted_by_time (f ∷ fs) = insert_by_time f (sorted_by_time fs)

-- `sum(f.size for f in files)`
unfoldable pub total_size : List RemoteFile → ℤ
total_size [] = pos 0
total_size (f ∷ fs) = f.size +ℤ total_size fs

-- The age-based loop: `to_delete` and `remaining`, from the files left in `ordered`.
pub age_pass :
    ℤ → List RemoteFile → List RemoteFile → List RemoteFile → List RemoteFile × List RemoteFile
age_pass cutoff [] to_delete remaining = (to_delete, remaining)
age_pass cutoff (f ∷ fs) to_delete remaining = elim (ltb_ℤ f.mod_time cutoff) [
  | true ↦ age_pass cutoff fs (to_delete ++ f ∷ []) remaining
  | false ↦ age_pass cutoff fs to_delete (remaining ++ f ∷ [])
]

-- The size-based loop, `while total > max_bytes and remaining`.
pub size_pass : ℤ → ℤ → List RemoteFile → List RemoteFile → List RemoteFile
size_pass max_bytes total [] to_delete = to_delete
size_pass max_bytes total (victim ∷ remaining) to_delete = elim (ltb_ℤ max_bytes total) [
  | true ↦ size_pass max_bytes (total -ℤ victim.size) remaining (to_delete ++ victim ∷ [])
  | false ↦ to_delete
]

-- Microseconds in a day.
abbrev pub day : ℕ
day = 86400 * 1000000

unfoldable pub select_for_deletion : List RemoteFile → ℤ → ℤ → ℤ → List RemoteFile
unfolding sorted_by_time total_size age_pass size_pass scale ◌-ℤ◌
select_for_deletion files max_bytes now max_age_days =
    let ordered = sorted_by_time files in
    let aged = age_pass (now -ℤ scale day max_age_days) ordered [] [] in
    let passed : List RemoteFile × List RemoteFile =
      if ltb_ℤ (pos 0) max_age_days then aged else ([], ordered) in
    size_pass max_bytes (total_size passed.1) passed.1 passed.0

unfoldable pub select_oversize : List RemoteFile → ℤ → List RemoteFile
select_oversize files max_bytes =
    if leb_ℤ max_bytes (pos 0) then [] else filter_by (λ f. ltb_ℤ max_bytes f.size) files

-- The tightening by the account's quota, where `deficit` bytes are missing.
pub tighten : ℤ → ℤ → ℤ → ℤ
unfolding max_ℤ min_ℤ ◌-ℤ◌
tighten cap folder_total deficit =
    if ltb_ℤ (pos 0) deficit then min_ℤ cap (max_ℤ (pos 0) (folder_total -ℤ deficit)) else cap

pub quota_cap : ℤ → ℤ → ℤ → Option ℤ → ℤ → ℤ
unfolding tighten ◌-ℤ◌
quota_cap cap reserve folder_total none min_free_bytes = cap
quota_cap cap reserve folder_total (some account_free) min_free_bytes =
    if ltb_ℤ (pos 0) min_free_bytes
    then tighten cap folder_total (min_free_bytes -ℤ (account_free -ℤ reserve))
    else cap

unfoldable pub effective_prune_cap : ℤ → ℤ → ℤ → Option ℤ → ℤ → ℤ
unfolding quota_cap
effective_prune_cap max_drive_bytes reserve_bytes folder_total account_free min_free_bytes =
    let reserve = max_ℤ (pos 0) reserve_bytes in
    quota_cap (max_ℤ (pos 0) (max_drive_bytes -ℤ reserve)) reserve folder_total account_free
      min_free_bytes
