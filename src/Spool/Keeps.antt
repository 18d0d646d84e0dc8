-- ===== src/Spool/Keeps.antt =====
-- What the spool's operations of videobackup/retention.py keep.
use videobackup.Base.{List, [], ◌∷◌, ℕ, ℤ, Text}
use videobackup.Base.Keeps.{Keeps, Keeps-pure, Keeps-branch, Keeps-bind, keeps_rules}
use videobackup.Config.{Config, spool_raw, spool_encrypted}
use videobackup.Host.{Host}
use videobackup.Host.Frame.{CallsKeep}
use videobackup.Retention.{RemoteFile}
use videobackup.Spool.{
  scan_file, scan_names, scan_dir, unlink_victim, unlink_victims, unlink_all, drop_files,
  drop_oversize, cap_backlog, prune_spool, prune_raw_spool,
}

module _ (H : Host) (Q : H.State → Type 0) (calls : CallsKeep H Q) where
  pub scan_file-Keeps : (directory name : Text) → Keeps Q (scan_file H directory name)
  unfolding scan_file
  scan_file-Keeps directory name = search (keeps_rules, calls.stat)

  pub scan_names-Keeps :
      (directory : Text) (names : List Text) → Keeps Q (scan_names H directory names)
  unfolding scan_names
  scan_names-Keeps directory [] = search keeps_rules
  scan_names-Keeps directory (name ∷ names) =
      Keeps-bind _ _ (scan_file-Keeps directory name)
        λ found. Keeps-bind _ _ (scan_names-Keeps directory names) λ rest. search keeps_rules

  pub scan_dir-Keeps :
      (directory : Text) (patterns : List Text) → Keeps Q (scan_dir H directory patterns)
  unfolding scan_dir
  scan_dir-Keeps directory [] = search keeps_rules
  scan_dir-Keeps directory (pattern ∷ patterns) =
      Keeps-bind _ _ (calls.glob directory pattern) λ names.
        Keeps-bind _ _ (scan_names-Keeps directory names)
          λ fs. Keeps-bind _ _ (scan_dir-Keeps directory patterns) λ rest. search keeps_rules

  -- Deletions in one directory.
  module _ (directory : Text) (unlinks : (name : Text) → Keeps Q (H.unlink directory name)) where
    pub unlink_victim-Keeps : (name : Text) → Keeps Q (unlink_victim H directory name)
    unfolding unlink_victim
    unlink_victim-Keeps name = search (keeps_rules, unlinks)

    unlink_victims-Keeps :
        (fs : List RemoteFile) (n : ℕ) (z : ℤ) → Keeps Q (unlink_victims H directory fs n z)
    unfolding unlink_victims
    unlink_victims-Keeps [] n z = search keeps_rules
    unlink_victims-Keeps (f ∷ fs) n z =
        search (keeps_rules, unlink_victim-Keeps, unlink_victims-Keeps fs)

    unlink_all-Keeps : (fs : List RemoteFile) → Keeps Q (unlink_all H directory fs)
    unfolding unlink_all
    unlink_all-Keeps fs = unlink_victims-Keeps fs _ _

    drop_files-Keeps : (fs : List RemoteFile) → Keeps Q (drop_files H directory fs)
    unfolding drop_files
    drop_files-Keeps [] = search keeps_rules
    drop_files-Keeps (f ∷ fs) = search (keeps_rules, unlink_all-Keeps)

    drop_oversize-Keeps :
        (fs : List RemoteFile) (config : Config) → Keeps Q (drop_oversize H directory fs config)
    unfolding drop_oversize
    drop_oversize-Keeps fs config = drop_files-Keeps _

  module _ (config : Config) where
    pub prune_spool-Keeps :
        ((name : Text) → Keeps Q (H.unlink (spool_encrypted config) name))
        → Keeps Q (prune_spool H config)
    unfolding prune_spool cap_backlog
    prune_spool-Keeps unlinks =
        let spool = spool_encrypted config in
        Keeps-bind _ _ (scan_dir-Keeps spool _) λ files.
          Keeps-bind _ _ (drop_oversize-Keeps spool unlinks files config) λ deleted.
            Keeps-branch _ _ _ (Keeps-pure deleted) (
              Keeps-bind _ _ calls.now
                λ now. Keeps-bind _ _ (unlink_all-Keeps spool unlinks _) λ counts. Keeps-pure _)

    pub prune_raw_spool-Keeps :
        ((name : Text) → Keeps Q (H.unlink (spool_raw config) name))
        → Keeps Q (prune_raw_spool H config)
    unfolding prune_raw_spool
    prune_raw_spool-Keeps unlinks =
        Keeps-bind _ _ (scan_dir-Keeps (spool_raw config) _)
          λ files. drop_oversize-Keeps (spool_raw config) unlinks files config
