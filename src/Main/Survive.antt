-- ===== src/Main/Survive.antt =====
-- The loops of videobackup/main.py outlive every failure of a cycle, on any host.
use videobackup.Base.{
  ℕ, zero, suc, Bool, true, false, ℤ, pos, ltb_ℤ, Option, none, some, if◌then◌else◌,
}
use videobackup.Base.Effects.{M, pure, Outcome, ok, raised, follow, Exn}
use videobackup.Config.{Config}
use videobackup.Host.{Host}
use videobackup.Main.{
  auth_retry_seconds, upload_idle_poll_seconds, is_auth_error, run_batch, after_batch,
  run_batch_loop, encrypt_cycle, encrypt_rounds, upload_after_prune, upload_if_pruned,
  upload_queued, prune_if_due, upload_or_idle, upload_cycle, poll, after_moved, after_failure,
  after_upload, upload_rounds, run_upload_loop,
}

abbrev pub IsOk : {A : Type 0} → Outcome A → Type 0
IsOk (ok a) = Unit
IsOk (raised e) = ⊥

-- It never raises.
abbrev pub IsCalm : {S A : Type 0} → M S A → Type 0
IsCalm {S} m = (s : S) → IsOk (m s).0

module _ {S : Type 0} where
  follow-IsOk :
      {A B : Type 0} (r : Outcome A × S) (f : A → M S B)
      → IsOk r.0
      → ((a : A) → IsCalm (f a))
      → IsOk (follow r f).0
  follow-IsOk (ok a, s) f _ h = h a s
  follow-IsOk (raised e, s) f h _ = absurd h

  if-IsOk :
      {A : Type 0} (b : Bool) (x y : Outcome A × S)
      → IsOk x.0
      → IsOk y.0
      → IsOk (if b then x else y).0
  if-IsOk true x y hx hy = hx
  if-IsOk false x y hx hy = hy

module _ (H : Host) (config : Config) where
  upload_if_pruned-IsCalm : (t : ℤ) (r : Outcome ℤ) → IsCalm (upload_if_pruned H config t r)
  unfolding upload_if_pruned upload_after_prune
  upload_if_pruned-IsCalm t (ok pruned) s = tt
  upload_if_pruned-IsCalm t (raised e) s = tt

  upload_or_idle-IsCalm : (t : ℤ) (r : Outcome ℤ) → IsCalm (upload_or_idle H config t r)
  unfolding upload_or_idle upload_queued prune_if_due
  upload_or_idle-IsCalm t (ok pending) s =
      if-IsOk (ltb_ℤ (pos 0) pending) _ _ (upload_if_pruned-IsCalm t _ _) tt
  upload_or_idle-IsCalm t (raised e) s = tt

  pub upload_cycle-IsCalm : (t : ℤ) → IsCalm (upload_cycle H config t)
  unfolding upload_cycle
  upload_cycle-IsCalm t s = upload_or_idle-IsCalm t _ _

module _ (H : Host) (config : Config) (stopped-IsCalm : IsCalm H.is_stopped)
    (wait-IsCalm : (seconds : ℤ) → IsCalm (H.wait seconds)) where
  poll-IsCalm : IsCalm (poll H)
  unfolding poll
  poll-IsCalm s = follow-IsOk (H.wait upload_idle_poll_seconds s) _ (wait-IsCalm _ s) (λ b s'. tt)

  after_moved-IsCalm : (n : ℕ) → IsCalm (after_moved H n)
  unfolding after_moved
  after_moved-IsCalm zero s = poll-IsCalm s
  after_moved-IsCalm (suc n) s =
      follow-IsOk (H.is_stopped s) _ (stopped-IsCalm s)
        (λ b s'. if-IsOk b _ (ok tt, s') (poll-IsCalm s') tt)

  after_failure-IsCalm : (f : Option Exn) (n : ℕ) → IsCalm (after_failure H f n)
  unfolding after_failure
  after_failure-IsCalm none n s = after_moved-IsCalm n s
  after_failure-IsCalm (some e) n s =
      if-IsOk (is_auth_error e) _ _
        (follow-IsOk (H.wait auth_retry_seconds s) (λ _. pure tt) (wait-IsCalm _ s) (λ b s'. tt))
        (after_moved-IsCalm n s)

  upload_rounds-IsCalm : (fuel : ℕ) (t : ℤ) → IsCalm (upload_rounds H fuel config t)
  unfolding upload_rounds after_upload
  upload_rounds-IsCalm zero t s = tt
  upload_rounds-IsCalm (suc fuel) t s = follow-IsOk (H.is_stopped s) _ (stopped-IsCalm s) λ b s1.
      if-IsOk b (ok true, s1) _ tt
        (follow-IsOk (upload_cycle H config t s1) _ (upload_cycle-IsCalm H config t s1) λ r s2.
          follow-IsOk (after_failure H r.failure r.moved s2) _
            (after_failure-IsCalm r.failure r.moved s2)
            (λ _ s3. upload_rounds-IsCalm fuel r.last_prune s3))

  encrypt_rounds-IsCalm : (fuel : ℕ) → IsCalm (encrypt_rounds H fuel config)
  unfolding encrypt_rounds
  encrypt_rounds-IsCalm zero s = tt
  encrypt_rounds-IsCalm (suc fuel) s = follow-IsOk (H.is_stopped s) _ (stopped-IsCalm s) λ b s1.
      if-IsOk b (ok true, s1) _ tt
        (follow-IsOk (H.wait config.encrypt_interval_seconds (encrypt_cycle H config s1).1)
          (λ _. encrypt_rounds H fuel config) (wait-IsCalm _ _)
          (λ _ s3. encrypt_rounds-IsCalm fuel s3))

  after_batch-IsCalm : (r : Outcome (Unit {0})) → IsCalm (after_batch H config r)
  unfolding after_batch
  after_batch-IsCalm (ok _) s = wait-IsCalm _ s
  after_batch-IsCalm (raised e) s = wait-IsCalm _ s

  run_batch_loop-IsCalm : (fuel : ℕ) → IsCalm (run_batch_loop H fuel config)
  unfolding run_batch_loop
  run_batch_loop-IsCalm zero s = tt
  run_batch_loop-IsCalm (suc fuel) s = follow-IsOk (H.is_stopped s) _ (stopped-IsCalm s) λ b s1.
      if-IsOk b (ok true, s1) _ tt
        (follow-IsOk (after_batch H config (run_batch H config s1).0 (run_batch H config s1).1)
          (λ _. run_batch_loop H fuel config) (after_batch-IsCalm _ _)
          (λ _ s3. run_batch_loop-IsCalm fuel s3))

  -- No exception leaves the upload loop, the rounds of the encryption loop or the batch loop, whatever
  -- gpg, rclone and the file system do, for any number of rounds, if asking the stop event and waiting
  -- for it never raise.
  pub loops-IsCalm :
      (fuel : ℕ)
      → IsCalm (run_upload_loop H fuel config)
        × IsCalm (encrypt_rounds H fuel config)
        × IsCalm (run_batch_loop H fuel config)
  unfolding run_upload_loop
  loops-IsCalm fuel =
      (upload_rounds-IsCalm fuel (pos 0), encrypt_rounds-IsCalm fuel, run_batch_loop-IsCalm fuel)
