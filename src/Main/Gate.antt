-- ===== src/Main/Gate.antt =====
-- The gate before an upload in videobackup/main.py, on a quiet machine with a lawful rclone.
use videobackup.Base.{List, ℤ, pos, ◌+ℤ◌, ◌≤ℤ◌, int_laws, All, min_ℤ, arith}
use videobackup.Base.Effects.{run-ok}
use videobackup.Config.{Config, upload_slice_bytes}
use videobackup.Drive.{prune}
use videobackup.Drive.Lines.{IsPlainName}
use videobackup.Drive.Quiet.{IsRclone}
use videobackup.Drive.Room.{prune-room}
use videobackup.Host.Memory.{World, Machine, memory}
use videobackup.Retention.{RemoteFile, total_size}
use videobackup.Spool.Names.{HasDistinctNames}
use videobackup.Uploader.Moved.{IsMove, after, moved_bytes}
use videobackup.Uploader.Landed.{upload_pending-lands}
use videobackup.Base.{Text}
use videobackup.Main.{reserve_for, timed_prune, upload_if_pruned, upload_after_prune, upload_queued}

reserve_nonneg : (a b : ℤ) → pos 0 ≤ℤ a → pos 0 ≤ℤ b → pos 0 ≤ℤ min_ℤ a b
unfolding min_ℤ
reserve_nonneg a b h k = ground arith

reserve_small : (a b c : ℤ) → b ≤ℤ c → min_ℤ a b ≤ℤ c
unfolding min_ℤ
reserve_small a b c h = ground arith

module _ (m : Machine) (config : Config) (w : World) (pending : ℤ) where
  abbrev pub reserve : ℤ
  reserve = reserve_for config pending

  -- The world after the prune that comes first.
  abbrev pub pruned : World
  pruned = (prune (memory m) config reserve w).1

  -- After a round of the upload loop that found files, the remote folder exceeds `max_drive_bytes`
  -- by no more bytes than the upload moved beyond the reserved ones: the prune makes room for the
  -- slice first, and the upload adds what it moves. This holds on a machine on which nothing else
  -- acts, with a lawful rclone, where the folder's names are plain and distinct, the slice is not
  -- negative and is within the folder's limit, and a move adds at most what it takes from the spool.
  pub upload_queued-gate :
      IsRclone m config w
      → HasDistinctNames w.remote
      → All (λ f. IsPlainName f.name) w.remote
      → pos 0 ≤ℤ pending
      → pos 0 ≤ℤ upload_slice_bytes config
      → upload_slice_bytes config ≤ℤ config.max_drive_bytes
      → (moved : List Text) (fresh : List RemoteFile) → IsMove m config pruned moved fresh
      → total_size (after m config pruned).remote
        ≤ℤ total_size pruned.remote +ℤ moved_bytes m config pruned moved
      → (t : ℤ)
      → total_size (upload_queued (memory m) config t pending w).1.remote +ℤ reserve
        ≤ℤ config.max_drive_bytes +ℤ moved_bytes m config pruned moved
  unfolding upload_queued timed_prune upload_if_pruned upload_after_prune
  upload_queued-gate rclone distinct lines some_pending slice fits moved fresh move lands t =
      let room =
        prune-room m config w rclone reserve distinct lines
          (reserve_nonneg pending (upload_slice_bytes config) some_pending slice)
          (reserve_small pending (upload_slice_bytes config) config.max_drive_bytes fits) in
      let landed = upload_pending-lands m config pruned moved fresh move lands in
      rw (run-ok (prune (memory m) config reserve w) room.0) (omega (int_laws, room.3, landed))
