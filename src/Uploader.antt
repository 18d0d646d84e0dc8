-- ===== src/Uploader.antt =====
-- videobackup/uploader.py: one bounded `rclone move` over the encrypted spool.
pub mod Keeps
pub mod Members
pub mod Moved
pub mod Parts
pub mod Landed
use videobackup.Base.{ℕ, not, List, [], ◌∷◌, ◌++◌}
use videobackup.Base.{pos, ltb_ℤ, filter_by, length, Text, codes, is_among, if◌then◌else◌}
use videobackup.Base.Effects.{
  M, pure, throw, catch, branch, ◌>>=◌, is_os_error, runtime_error, auth_error,
}
use videobackup.Base.Values.{decimal}
use videobackup.Config.{Config, spool_encrypted, remote_path, upload_slice_bytes}
use videobackup.Encrypt.{sorted_names}
use videobackup.Host.{Host, Completed}
use videobackup.Rclone.{classify, auth_hint}

unfoldable pub move_args : Config → List Text
move_args config =
    let transfers = decimal config.upload_transfers in
    codes "move"
    ∷ spool_encrypted config
    ∷ remote_path config
    ∷ codes "--include"
    ∷ codes "*.gpg"
    ∷ codes "--transfers"
    ∷ transfers
    ∷ codes "--checkers"
    ∷ transfers
    ∷ codes "--no-traverse"
    ∷ codes "--order-by"
    ∷ codes "modtime,desc"
    ∷ codes "--max-transfer"
    ∷ decimal (upload_slice_bytes config)
    ∷ codes "--cutoff-mode"
    ∷ codes "soft"
    ∷ codes "--retries"
    ∷ codes "3"
    ∷ codes "--low-level-retries"
    ∷ codes "10"
    ∷ codes "--timeout"
    ∷ codes "120s"
    ∷ codes "--contimeout"
    ∷ codes "30s"
    ∷ codes "--drive-chunk-size"
    ∷ codes "64M"
    ∷ codes "--stats"
    ∷ codes "1000h"
    ∷ codes "--stats-log-level"
    ∷ codes "NOTICE"
    ∷ (if ltb_ℤ (pos 0) config.upload_tpslimit
        then codes "--tpslimit" ∷ decimal config.upload_tpslimit ∷ []
        else [])

module _ (H : Host) where
  unfoldable pub ready_files : Text → M H.State (List Text)
  ready_files spool = do names ← H.glob spool (codes "*.gpg"); pure (sorted_names names)

  -- The names of the files whose size could be read. (The sizes serve the log alone.)
  unfoldable pub sized_file : Text → Text → M H.State (List Text)
  sized_file spool name =
      catch (do st ← H.stat spool name; pure (name ∷ []))
        (λ e. branch (is_os_error e) (pure []) (throw e))

  unfoldable pub sized_files : Text → List Text → M H.State (List Text)
  sized_files spool [] = pure []
  sized_files spool (name ∷ names) = do
    one ← sized_file spool name
    rest ← sized_files spool names
    pure (one ++ rest)

  -- What happens after the move, from rclone's result and the files left.
  unfoldable pub report_moved : Config → List Text → Completed → M H.State ℕ
  report_moved config sized result = do
    remaining ← ready_files (spool_encrypted config)
    let moved = filter_by (λ name. not (is_among name remaining)) sized
    branch (classify result.stderr).auth_expired
        (throw (auth_error (auth_hint config.rclone_remote))) (pure (length moved))

  unfoldable pub upload_files : Config → List Text → M H.State ℕ
  upload_files config [] = pure 0
  upload_files config (name ∷ names) = do
    sized ← sized_files (spool_encrypted config) (name ∷ names)
    started ← H.monotonic
    result ← H.run (codes "rclone" ∷ move_args config)
    ended ← H.monotonic
    report_moved config sized result

  unfoldable pub upload_pending : Config → M H.State ℕ
  upload_pending config = do
    found ← H.which (codes "rclone")
    branch found (do before ← ready_files (spool_encrypted config); upload_files config before)
        (throw (runtime_error (codes "rclone is not installed or not on PATH")))
