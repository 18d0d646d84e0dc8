-- ===== src/Uploader/Keeps.antt =====
-- What the operations of videobackup/uploader.py keep.
use videobackup.Base.{List, [], ◌∷◌, Text}
use videobackup.Base.Keeps.{Keeps, Keeps-bind, keeps_rules}
use videobackup.Config.{Config, spool_encrypted}
use videobackup.Host.{Host, Completed}
use videobackup.Host.Frame.{CallsKeep}
use videobackup.Uploader.{
  ready_files, sized_file, sized_files, report_moved, upload_files, upload_pending,
}

module _ (H : Host) (Q : H.State → Type 0) (ops : CallsKeep H Q) where
  ready_files-Keeps : (spool : Text) → Keeps Q (ready_files H spool)
  unfolding ready_files
  ready_files-Keeps spool = search (keeps_rules, ops.glob)

  sized_file-Keeps : (spool name : Text) → Keeps Q (sized_file H spool name)
  unfolding sized_file
  sized_file-Keeps spool name = search (keeps_rules, ops.stat)

  sized_files-Keeps : (spool : Text) (names : List Text) → Keeps Q (sized_files H spool names)
  unfolding sized_files
  sized_files-Keeps spool [] = search keeps_rules
  sized_files-Keeps spool (name ∷ names) =
      Keeps-bind _ _ (sized_file-Keeps spool name)
        λ found. Keeps-bind _ _ (sized_files-Keeps spool names) λ rest. search keeps_rules

  report_moved-Keeps :
      (config : Config) (sized : List Text) (result : Completed)
      → Keeps Q (report_moved H config sized result)
  unfolding report_moved
  report_moved-Keeps config sized result = search (keeps_rules, ready_files-Keeps)

  upload_files-Keeps : (config : Config) (names : List Text) → Keeps Q (upload_files H config names)
  unfolding upload_files
  upload_files-Keeps config [] = search keeps_rules
  upload_files-Keeps config (name ∷ names) =
      Keeps-bind _ _ (sized_files-Keeps (spool_encrypted config) (name ∷ names)) λ sized.
        Keeps-bind _ _ ops.monotonic λ started.
          Keeps-bind _ _ (ops.run _)
            λ result. Keeps-bind _ _ ops.monotonic λ ended. report_moved-Keeps config sized result

  pub upload_pending-Keeps : (config : Config) → Keeps Q (upload_pending H config)
  unfolding upload_pending
  upload_pending-Keeps config =
      search (keeps_rules, ops.which, ready_files-Keeps, upload_files-Keeps)
