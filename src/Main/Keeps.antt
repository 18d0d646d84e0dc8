-- ===== src/Main/Keeps.antt =====
-- What the cycles of videobackup/main.py keep.
use videobackup.Base.{List, [], ◌∷◌, ℤ, pos, Text}
use videobackup.Base.Effects.{Outcome, ok, raised, pure, ◌>>=◌}
use videobackup.Spool.{prune_spool}
use videobackup.Drive.{prune}
use videobackup.Uploader.{upload_pending}
use videobackup.Base.Keeps.{Keeps, Keeps-pure, Keeps-branch, Keeps-bind, Keeps-attempt, keeps_rules}
use videobackup.Config.{Config, spool_raw, spool_encrypted}
use videobackup.Host.{Host}
use videobackup.Host.Frame.{CallsKeep, OpsKeep}
use videobackup.Spool.Keeps.{prune_spool-Keeps, prune_raw_spool-Keeps}
use videobackup.Drive.Keeps.{prune-Keeps}
use videobackup.Encrypt.Keeps.{encrypt_pending-Keeps}
use videobackup.Uploader.Keeps.{upload_pending-Keeps}
use videobackup.Main.{
  ensure_spool_dirs, run_batch, encrypt_cycle, file_bytes, sum_bytes, pending_upload_bytes,
  timed_prune, upload_after_prune, upload_if_pruned, upload_queued, prune_due, prune_if_due,
  measure_spool, upload_or_idle, upload_cycle,
}

-- The upload loop deletes in the encrypted spool only.
module _ (H : Host) (Q : H.State → Type 0) (calls : CallsKeep H Q) (config : Config)
    (unlinks : (name : Text) → Keeps Q (H.unlink (spool_encrypted config) name)) where
  pub ensure_spool_dirs-Keeps : Keeps Q (ensure_spool_dirs H config)
  unfolding ensure_spool_dirs
  ensure_spool_dirs-Keeps = search (keeps_rules, calls.mkdir)

  -- What a batch does after the encryption.
  pub batch_rest-Keeps : Keeps Q do
    more ← prune_spool H config
    uploaded ← upload_pending H config
    deleted ← prune H config (pos 0)
    pure tt
  batch_rest-Keeps = Keeps-bind _ _ (prune_spool-Keeps H Q calls config unlinks) λ _.
      Keeps-bind _ _ (upload_pending-Keeps H Q calls config)
        λ _. Keeps-bind _ _ (prune-Keeps H Q calls config _) λ _. Keeps-pure _

  file_bytes-Keeps : (directory name : Text) → Keeps Q (file_bytes H directory name)
  unfolding file_bytes
  file_bytes-Keeps directory name = search (keeps_rules, calls.stat)

  sum_bytes-Keeps :
      (directory : Text) (names : List Text) (total : ℤ)
      → Keeps Q (sum_bytes H directory names total)
  unfolding sum_bytes
  sum_bytes-Keeps directory [] total = Keeps-pure total
  sum_bytes-Keeps directory (name ∷ names) total =
      Keeps-bind _ _ (file_bytes-Keeps directory name) λ size. sum_bytes-Keeps directory names _

  measure_spool-Keeps : Keeps Q (measure_spool H config)
  unfolding measure_spool pending_upload_bytes
  measure_spool-Keeps =
      Keeps-bind _ _ (prune_spool-Keeps H Q calls config unlinks)
        λ _. Keeps-bind _ _ (calls.glob _ _) λ names. sum_bytes-Keeps _ names (pos 0)

  timed_prune-Keeps : (n : ℤ) → Keeps Q (timed_prune H config n)
  unfolding timed_prune
  timed_prune-Keeps n = Keeps-bind _ _ (prune-Keeps H Q calls config n) λ _. calls.monotonic

  upload_if_pruned-Keeps : (t : ℤ) (r : Outcome ℤ) → Keeps Q (upload_if_pruned H config t r)
  unfolding upload_if_pruned upload_after_prune
  upload_if_pruned-Keeps t (ok pruned) = record {
    at = λ s h. (upload_pending-Keeps H Q calls config).at s h;
  }
  upload_if_pruned-Keeps t (raised e) = Keeps-pure _

  upload_queued-Keeps : (t n : ℤ) → Keeps Q (upload_queued H config t n)
  unfolding upload_queued
  upload_queued-Keeps t n =
      Keeps-bind _ _ (Keeps-attempt _ (timed_prune-Keeps _)) λ r. upload_if_pruned-Keeps t r

  prune_due-Keeps : (t : ℤ) → Keeps Q (prune_due H config t)
  unfolding prune_due
  prune_due-Keeps t =
      Keeps-bind _ _ calls.monotonic λ time. Keeps-branch _ _ _ (timed_prune-Keeps _) (Keeps-pure t)

  prune_if_due-Keeps : (t : ℤ) → Keeps Q (prune_if_due H config t)
  unfolding prune_if_due
  prune_if_due-Keeps t = record { at = λ s h. (prune_due-Keeps t).at s h }

  upload_or_idle-Keeps : (t : ℤ) (r : Outcome ℤ) → Keeps Q (upload_or_idle H config t r)
  unfolding upload_or_idle
  upload_or_idle-Keeps t (ok n) =
      Keeps-branch _ _ _ (upload_queued-Keeps t n) (prune_if_due-Keeps t)
  upload_or_idle-Keeps t (raised e) = Keeps-pure _

  pub upload_cycle-Keeps : (t : ℤ) → Keeps Q (upload_cycle H config t)
  unfolding upload_cycle
  upload_cycle-Keeps t =
      Keeps-bind _ _ (Keeps-attempt _ measure_spool-Keeps) λ r. upload_or_idle-Keeps t r

module _ (H : Host) (Q : H.State → Type 0) (ops : OpsKeep H Q) (config : Config) where
  abbrev in_spool : (name : Text) → Keeps Q (H.unlink (spool_encrypted config) name)
  in_spool name = ops.unlink (spool_encrypted config) name

  pub encrypt_cycle-Keeps : Keeps Q (encrypt_cycle H config)
  unfolding encrypt_cycle
  encrypt_cycle-Keeps =
      Keeps-bind _ _ (prune_raw_spool-Keeps H Q ops.calls config (ops.unlink (spool_raw config)))
        λ _. encrypt_pending-Keeps H Q ops config

  -- A batch leaves alone what the operations leave alone.
  pub run_batch-Keeps : Keeps Q (run_batch H config)
  unfolding run_batch
  run_batch-Keeps = Keeps-bind _ _ (ensure_spool_dirs-Keeps H Q ops.calls config in_spool) λ _.
      Keeps-bind _ _ (prune_raw_spool-Keeps H Q ops.calls config (ops.unlink (spool_raw config)))
        λ _.
          Keeps-bind _ _ (encrypt_pending-Keeps H Q ops config)
            λ _. batch_rest-Keeps H Q ops.calls config in_spool
