-- ===== src/Main/Guarded/Loop.antt =====
-- The loops of videobackup/main.py keep their guarantee, for every host with the laws.
use videobackup.Base.{ℕ, zero, suc, true, false, ℤ, pos, Option, none, some}
use videobackup.Base.Effects.{Exn, Outcome, ok, raised}
use videobackup.Base.Keeps.{Keeps, Keeps-pure, Keeps-bind, Keeps-branch, Keeps-attempt, keeps_rules}
use videobackup.Config.{Config}
use videobackup.Host.{Host}
use videobackup.Main.{
  ensure_spool_dirs, run_batch, after_batch, run_batch_loop, encrypt_cycle, encrypt_rounds,
  run_encrypt_loop, poll, after_moved, after_failure, after_upload, upload_rounds, run_upload_loop,
}
use videobackup.Main.Keeps.{ensure_spool_dirs-Keeps, batch_rest-Keeps, upload_cycle-Keeps}
use videobackup.Main.Guarded.{Guarded}
use videobackup.Main.Guarded.Spool.{prune_raw_spool-Safe}
use videobackup.Main.Guarded.Encrypt.{encrypt_pending-Safe}

module _ (H : Host) (config : Config) (G : Guarded H config) where
  dirs-Safe : Keeps G.Safe (ensure_spool_dirs H config)
  dirs-Safe = ensure_spool_dirs-Keeps H G.Safe G.calls config G.unlink_encrypted

  encrypt_cycle-Safe : Keeps G.Safe (encrypt_cycle H config)
  unfolding encrypt_cycle
  encrypt_cycle-Safe =
      Keeps-bind _ _ (prune_raw_spool-Safe H config G) λ _. encrypt_pending-Safe H config G

  encrypt_rounds-Safe : (fuel : ℕ) → Keeps G.Safe (encrypt_rounds H fuel config)
  unfolding encrypt_rounds
  encrypt_rounds-Safe zero = Keeps-pure false
  encrypt_rounds-Safe (suc fuel) = Keeps-bind _ _ G.is_stopped λ stopped.
      Keeps-branch stopped _ _ (Keeps-pure true) (
        Keeps-bind _ _ (Keeps-attempt _ encrypt_cycle-Safe) λ result.
          Keeps-bind _ _ (G.wait config.encrypt_interval_seconds) λ _. encrypt_rounds-Safe fuel)

  pub run_encrypt_loop-Safe : (fuel : ℕ) → Keeps G.Safe (run_encrypt_loop H fuel config)
  unfolding run_encrypt_loop
  run_encrypt_loop-Safe fuel = Keeps-bind _ _ dirs-Safe λ _. encrypt_rounds-Safe fuel

  poll-Safe : Keeps G.Safe (poll H)
  unfolding poll
  poll-Safe = search (keeps_rules, G.wait)

  after_moved-Safe : (moved : ℕ) → Keeps G.Safe (after_moved H moved)
  unfolding after_moved
  after_moved-Safe zero = poll-Safe
  after_moved-Safe (suc n) =
      Keeps-bind _ _ G.is_stopped λ stopped. Keeps-branch stopped _ _ poll-Safe (Keeps-pure tt)

  after_failure-Safe :
      (failure : Option Exn) (moved : ℕ) → Keeps G.Safe (after_failure H failure moved)
  unfolding after_failure
  after_failure-Safe none moved = after_moved-Safe moved
  after_failure-Safe (some e) moved = search (keeps_rules, G.wait, after_moved-Safe)

  upload_rounds-Safe : (fuel : ℕ) (t : ℤ) → Keeps G.Safe (upload_rounds H fuel config t)
  unfolding upload_rounds after_upload
  upload_rounds-Safe zero t = Keeps-pure false
  upload_rounds-Safe (suc fuel) t = Keeps-bind _ _ G.is_stopped λ stopped.
      Keeps-branch stopped _ _ (Keeps-pure true) (
        Keeps-bind _ _ (upload_cycle-Keeps H G.Safe G.calls config G.unlink_encrypted t) λ r.
          Keeps-bind _ _ (after_failure-Safe r.failure r.moved)
            λ _. upload_rounds-Safe fuel r.last_prune)

  pub run_upload_loop-Safe : (fuel : ℕ) → Keeps G.Safe (run_upload_loop H fuel config)
  unfolding run_upload_loop
  run_upload_loop-Safe fuel = upload_rounds-Safe fuel (pos 0)

  run_batch-Safe : Keeps G.Safe (run_batch H config)
  unfolding run_batch
  run_batch-Safe = Keeps-bind _ _ dirs-Safe λ _.
      Keeps-bind _ _ (prune_raw_spool-Safe H config G) λ _.
        Keeps-bind _ _ (encrypt_pending-Safe H config G)
          λ _. batch_rest-Keeps H G.Safe G.calls config G.unlink_encrypted

  after_batch-Safe : (r : Outcome (Unit {0})) → Keeps G.Safe (after_batch H config r)
  unfolding after_batch
  after_batch-Safe (ok _) = G.wait _
  after_batch-Safe (raised e) = G.wait _

  pub run_batch_loop-Safe : (fuel : ℕ) → Keeps G.Safe (run_batch_loop H fuel config)
  unfolding run_batch_loop
  run_batch_loop-Safe zero = Keeps-pure false
  run_batch_loop-Safe (suc fuel) = Keeps-bind _ _ G.is_stopped λ stopped.
      Keeps-branch stopped _ _ (Keeps-pure true) (
        Keeps-bind _ _ (Keeps-attempt _ run_batch-Safe)
          λ r. Keeps-bind _ _ (after_batch-Safe r) λ _. run_batch_loop-Safe fuel)
