-- ===== src/Encrypt/Keeps.antt =====
-- What the operations of videobackup/encrypt.py keep.
use videobackup.Base.{true, false, List, [], ◌∷◌, ℕ, ℤ, Text}
use videobackup.Base.Keeps.{
  Keeps, Keeps-pure, Keeps-catch, Keeps-throw, Keeps-branch, Keeps-bind, keeps_rules,
}
use videobackup.Config.{Config, spool_raw, spool_encrypted}
use videobackup.Host.{Host}
use videobackup.Host.Frame.{CallsKeep, OpsKeep}
use videobackup.Encrypt.{
  is_file_not_found, unlink_missing_ok, is_closed, encrypt_file, encrypt_or_log, encrypt_closed,
  encrypt_segment, encrypt_segments, glob_all, encrypt_pending,
}

-- One segment: what the deletion of it and the changes in the encrypted spool keep.
module _ (H : Host) (Q : H.State → Type 0) (calls : CallsKeep H Q) (config : Config)
    (replaces : (name new_name : Text) → Keeps Q (H.replace (spool_encrypted config) name new_name))
    (drops : (name : Text) → Keeps Q (H.unlink (spool_encrypted config) name)) where
  unlink_missing_ok-Keeps :
      (directory name : Text)
      → Keeps Q (H.unlink directory name)
      → Keeps Q (unlink_missing_ok H directory name)
  unfolding unlink_missing_ok
  unlink_missing_ok-Keeps directory name unlinks =
      Keeps-catch _ _ unlinks
        (λ e. Keeps-branch (is_file_not_found e) _ _ (Keeps-pure tt) (Keeps-throw e))

  pub is_closed-Keeps : (directory name : Text) (now : ℤ) → Keeps Q (is_closed H directory name now)
  unfolding is_closed
  is_closed-Keeps directory name now = search (keeps_rules, calls.stat)

  encrypt_file-Keeps :
      (name dest recipient : Text)
      → Keeps Q (encrypt_file H (spool_raw config) name (spool_encrypted config) dest recipient)
  unfolding encrypt_file
  encrypt_file-Keeps name dest recipient = Keeps-bind _ _ (calls.run _) λ result.
      Keeps-branch _ _ _ (replaces _ _)
        (Keeps-bind _ _ (unlink_missing_ok-Keeps _ _ (drops _)) λ _. Keeps-throw _)

  encrypt_or_log-Keeps :
      (name dest recipient : Text)
      → Keeps Q (encrypt_or_log H (spool_raw config) name (spool_encrypted config) dest recipient)
  unfolding encrypt_or_log
  encrypt_or_log-Keeps name dest recipient = search (keeps_rules, encrypt_file-Keeps)

  pub encrypt_closed-Keeps :
      (name : Text)
      → Keeps Q (H.unlink (spool_raw config) name)
      → Keeps Q (encrypt_closed H config name)
  unfolding encrypt_closed
  encrypt_closed-Keeps name unlinks =
      let dropped = unlink_missing_ok-Keeps (spool_raw config) name unlinks in
      Keeps-bind _ _ (calls.exists _ _) λ there.
        Keeps-branch there _ _ (Keeps-bind _ _ dropped λ _. Keeps-pure false) (
          Keeps-bind _ _ (encrypt_or_log-Keeps name _ _) λ done.
            Keeps-branch done _ _ (Keeps-bind _ _ dropped λ _. Keeps-pure true) (Keeps-pure false))

  pub glob_all-Keeps :
      (directory : Text) (patterns : List Text) → Keeps Q (glob_all H directory patterns)
  unfolding glob_all
  glob_all-Keeps directory [] = search keeps_rules
  glob_all-Keeps directory (pattern ∷ patterns) =
      Keeps-bind _ _ (calls.glob directory pattern)
        λ names. Keeps-bind _ _ (glob_all-Keeps directory patterns) λ rest. search keeps_rules

  -- The loop, where each segment's step is given.
  module _ (now : ℤ) (segment : (name : Text) → Keeps Q (encrypt_segment H config now name)) where
    pub encrypt_segments-Keeps :
        (names : List Text) (count : ℕ) → Keeps Q (encrypt_segments H config now names count)
    unfolding encrypt_segments
    encrypt_segments-Keeps [] count = search keeps_rules
    encrypt_segments-Keeps (name ∷ names) count =
        search (keeps_rules, segment, encrypt_segments-Keeps names)

module _ (H : Host) (Q : H.State → Type 0) (ops : OpsKeep H Q) (config : Config) where
  abbrev replaced :
      (name new_name : Text) → Keeps Q (H.replace (spool_encrypted config) name new_name)
  replaced = ops.replace (spool_encrypted config)

  abbrev dropped : (name : Text) → Keeps Q (H.unlink (spool_encrypted config) name)
  dropped = ops.unlink (spool_encrypted config)

  encrypt_segment-Keeps : (now : ℤ) (name : Text) → Keeps Q (encrypt_segment H config now name)
  unfolding encrypt_segment
  encrypt_segment-Keeps now name =
      Keeps-bind _ _
        (is_closed-Keeps H Q ops.calls config replaced dropped (spool_raw config) name now)
        λ closed.
          Keeps-branch closed _ _
            (encrypt_closed-Keeps H Q ops.calls config replaced dropped name
              (ops.unlink (spool_raw config) name))
            (Keeps-pure false)

  pub encrypt_pending-Keeps : Keeps Q (encrypt_pending H config)
  unfolding encrypt_pending
  encrypt_pending-Keeps = Keeps-bind _ _ (ops.calls.which _) λ found.
      Keeps-branch found _ _
        (Keeps-bind _ _ ops.calls.now λ now.
          Keeps-bind _ _ (glob_all-Keeps H Q ops.calls config replaced dropped (spool_raw config) _)
            λ names.
              encrypt_segments-Keeps H Q ops.calls config replaced dropped now
                (encrypt_segment-Keeps now) _ 0)
        (Keeps-throw _)
