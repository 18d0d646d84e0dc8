-- ===== src/Drive/Keeps.antt =====
-- What the remote folder's operations of videobackup/retention.py keep.
use videobackup.Base.{List, [], ◌∷◌, ℤ, Text}
use videobackup.Base.Keeps.{Keeps, Keeps-bind, keeps_rules}
use videobackup.Base.Values.{Value, dict}
use videobackup.Config.{Config}
use videobackup.Host.{Host, Completed}
use videobackup.Host.Frame.{CallsKeep}
use videobackup.Drive.{
  run_rclone, report_deleted, delete_remote, entry_of, entries_of, list_remote, free_of,
  remote_about, prune,
}

module _ (H : Host) (Q : H.State → Type 0) (ops : CallsKeep H Q) where
  run_rclone-Keeps : (args : List Text) → Keeps Q (run_rclone H args)
  unfolding run_rclone
  run_rclone-Keeps args = search (keeps_rules, ops.which, ops.run)

  report_deleted-Keeps :
      (result : Completed) (names : List Text) → Keeps Q (report_deleted H result names)
  unfolding report_deleted
  report_deleted-Keeps result names = search keeps_rules

  delete_remote-Keeps :
      (config : Config) (names : List Text) → Keeps Q (delete_remote H config names)
  unfolding delete_remote
  delete_remote-Keeps config [] = search keeps_rules
  delete_remote-Keeps config (name ∷ names) =
      search (keeps_rules, ops.write_temp, run_rclone-Keeps, ops.unlink_temp, report_deleted-Keeps)

  entry_of-Keeps : (v : Value) → Keeps Q (entry_of H v)
  unfolding entry_of
  entry_of-Keeps (dict e) = search keeps_rules depth 12
  entry_of-Keeps _ = search keeps_rules

  entries_of-Keeps : (vs : List Value) → Keeps Q (entries_of H vs)
  unfolding entries_of
  entries_of-Keeps [] = search keeps_rules
  entries_of-Keeps (v ∷ vs) =
      Keeps-bind _ _ (entry_of-Keeps v)
        λ found. Keeps-bind _ _ (entries_of-Keeps vs) λ rest. search keeps_rules

  list_remote-Keeps : (config : Config) → Keeps Q (list_remote H config)
  unfolding list_remote
  list_remote-Keeps config = search (keeps_rules, run_rclone-Keeps, entries_of-Keeps)

  free_of-Keeps : (stdout : Text) → Keeps Q (free_of H stdout)
  unfolding free_of
  free_of-Keeps stdout = search keeps_rules

  remote_about-Keeps : (config : Config) → Keeps Q (remote_about H config)
  unfolding remote_about
  remote_about-Keeps config = search (keeps_rules, run_rclone-Keeps, free_of-Keeps)

  pub prune-Keeps : (config : Config) (reserve_bytes : ℤ) → Keeps Q (prune H config reserve_bytes)
  unfolding prune
  prune-Keeps config reserve_bytes = Keeps-bind _ _ (list_remote-Keeps config) λ files.
      Keeps-bind _ _ ops.now λ now. search (keeps_rules, remote_about-Keeps, delete_remote-Keeps)
