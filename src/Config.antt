-- ===== src/Config.antt =====
-- videobackup/config.py: the records `Camera` and `Config` and their properties. A path is its text
-- in normal form, so `path / name` joins by a slash.
pub mod Load
pub mod Accepted
pub mod Distinct
use videobackup.Base.{◌/◌, Bool, List, [], ◌∷◌, ◌++◌, ℤ, pos, negsuc, max_ℤ, ltb_ℤ}
use videobackup.Base.{Text, codes, if◌then◌else◌}

pub record Camera : Type 0 where
  pub name : Text
  pub url : Text

pub record Config : Type 0 where
  pub udm_host : Text
  pub cameras : List Camera
  pub gpg_recipient : Text
  pub rclone_remote : Text
  pub drive_folder : Text
  pub max_drive_bytes : ℤ
  pub local_spool : Text
  pub segment_seconds : ℤ
  pub max_age_days : ℤ
  pub min_free_bytes : ℤ
  pub batch_interval_seconds : ℤ
  pub encrypt_interval_seconds : ℤ
  pub upload_transfers : ℤ
  pub upload_tpslimit : ℤ
  pub upload_max_bytes : ℤ
  pub max_spool_bytes : ℤ
  pub use_trash : Bool

-- `z // 4`, which rounds down.
unfoldable pub quarter : ℤ → ℤ
quarter (pos n) = pos (n / 4)
quarter (negsuc n) = negsuc (n / 4)

unfoldable pub upload_slice_bytes : Config → ℤ
unfolding max_ℤ quarter
upload_slice_bytes c =
    if ltb_ℤ (pos 0) c.upload_max_bytes
    then c.upload_max_bytes
    else max_ℤ (pos 1) (quarter c.max_drive_bytes)

-- `path / name`
abbrev pub join : Text → Text → Text
join path name = path ++ (b'/' ∷ name)

unfoldable pub spool_raw : Config → Text
spool_raw c = join c.local_spool (codes "raw")

unfoldable pub spool_encrypted : Config → Text
spool_encrypted c = join c.local_spool (codes "encrypted")

unfoldable pub remote_path : Config → Text
remote_path c = c.rclone_remote ++ (b':' ∷ c.drive_folder)

abbrev pub raw_segment_patterns : List Text
raw_segment_patterns = codes "*.mp4" ∷ codes "*.ts" ∷ []
