-- ===== src/Spool.antt =====
-- videobackup/retention.py: the bound on the local spool directories.
pub mod Names
pub mod Chosen
pub mod Quiet
pub mod Bound
pub mod Left
pub mod Keeps
pub mod Raw
use videobackup.Base.{ℕ, ◌+◌, ◌==◌, Bool, true, false, not, List, [], ◌∷◌, ◌++◌, map}
use videobackup.Base.{ℤ, pos, ◌+ℤ◌, leb_ℤ, filter_by, Text, codes, is_among, if◌then◌else◌}
use videobackup.Base.Effects.{M, pure, throw, ◌>>=◌, ◌>>◌, catch, branch, is_os_error}
use videobackup.Config.{Config, spool_raw, spool_encrypted, raw_segment_patterns}
use videobackup.Host.{Host}
use videobackup.Retention.{RemoteFile, select_for_deletion, select_oversize}

-- The files left to look at once `deleted` of the oversize ones are gone.
unfoldable pub without_dropped : Config → ℕ → List RemoteFile → List RemoteFile
without_dropped config deleted files =
    let dropped = map (λ f. f.name) (select_oversize files config.max_drive_bytes) in
    if deleted == 0 then files else filter_by (λ f. not (is_among f.name dropped)) files

module _ (H : Host) where
  -- `path.stat()` as a `RemoteFile`, or nothing where the file has vanished.
  unfoldable pub scan_file : Text → Text → M H.State (List RemoteFile)
  scan_file directory name =
      catch
        (do
          st ← H.stat directory name
          pure (record { name = name; size = st.size; mod_time = st.mtime } ∷ []))
        (λ e. branch (is_os_error e) (pure []) (throw e))

  unfoldable pub scan_names : Text → List Text → M H.State (List RemoteFile)
  scan_names directory [] = pure []
  scan_names directory (name ∷ names) = do
    found ← scan_file directory name
    files ← scan_names directory names
    pure (found ++ files)

  unfoldable pub scan_dir : Text → List Text → M H.State (List RemoteFile)
  scan_dir directory [] = pure []
  scan_dir directory (pattern ∷ patterns) = do
    names ← H.glob directory pattern
    found ← scan_names directory names
    files ← scan_dir directory patterns
    pure (found ++ files)

  -- Whether the file could be deleted.
  unfoldable pub unlink_victim : Text → Text → M H.State Bool
  unlink_victim directory name =
      catch (do H.unlink directory name; pure true)
        (λ e. branch (is_os_error e) (pure false) (throw e))

  -- The loop of `_unlink_all`, after `deleted` files of `freed` bytes.
  unfoldable pub unlink_victims : Text → List RemoteFile → ℕ → ℤ → M H.State (ℕ × ℤ)
  unlink_victims directory [] deleted freed = pure (deleted, freed)
  unlink_victims directory (victim ∷ victims) deleted freed = do
    done ← unlink_victim directory victim.name
    unlink_victims directory victims (if done then deleted + 1 else deleted)
        (if done then freed +ℤ victim.size else freed)

  unfoldable pub unlink_all : Text → List RemoteFile → M H.State (ℕ × ℤ)
  unlink_all directory victims = unlink_victims directory victims 0 (pos 0)

  unfoldable pub drop_files : Text → List RemoteFile → M H.State ℕ
  drop_files directory [] = pure 0
  drop_files directory (f ∷ fs) = do counts ← unlink_all directory (f ∷ fs); pure counts.0

  unfoldable pub drop_oversize : Text → List RemoteFile → Config → M H.State ℕ
  drop_oversize directory files config =
      drop_files directory (select_oversize files config.max_drive_bytes)

  -- The backlog pass: what `prune_spool` does after the oversize pass deleted `deleted` files.
  unfoldable pub cap_backlog : Config → List RemoteFile → ℕ → M H.State ℕ
  cap_backlog config files deleted = branch (leb_ℤ config.max_spool_bytes (pos 0)) (pure deleted) do
    now ← H.now
    counts ←
        unlink_all (spool_encrypted config)
          (select_for_deletion files config.max_spool_bytes now (pos 0))
    pure (deleted + counts.0)

  unfoldable pub prune_spool : Config → M H.State ℕ
  prune_spool config = do
    let spool = spool_encrypted config
    files ← scan_dir spool (codes "*.gpg" ∷ [])
    deleted ← drop_oversize spool files config
    cap_backlog config (without_dropped config deleted files) deleted

  unfoldable pub prune_raw_spool : Config → M H.State ℕ
  prune_raw_spool config = do
    files ← scan_dir (spool_raw config) raw_segment_patterns
    drop_oversize (spool_raw config) files config
