-- ===== src/Main.antt =====
-- videobackup/main.py: one batch cycle, and a round of each of its loops. The loops run until the
-- stop event is set: on fuel, a bound on the rounds; `false` says that it ran out.
pub mod Footage
pub mod Gate
pub mod Guarded
pub mod Keeps
pub mod Progress
pub mod Stop
pub mod Survive
use videobackup.Base.{ℕ, zero, suc, Bool, true, false, List, [], ◌∷◌, Option, none, some}
use videobackup.Base.{ℤ, pos, ◌+ℤ◌, ◌-ℤ◌, scale, ltb_ℤ, leb_ℤ, min_ℤ, Text, codes, if◌then◌else◌}
use videobackup.Base.Effects.{M, pure, throw, catch, branch, attempt, ◌>>=◌, ◌>>◌}
use videobackup.Base.Effects.{Exn, Outcome, ok, raised, auth_error}
use videobackup.Config.{Config, spool_raw, spool_encrypted, upload_slice_bytes}
use videobackup.Host.{Host}
use videobackup.Encrypt.{encrypt_pending, is_file_not_found}
use videobackup.Spool.{prune_spool, prune_raw_spool}
use videobackup.Drive.{prune}
use videobackup.Uploader.{upload_pending}

abbrev pub auth_retry_seconds : ℤ
auth_retry_seconds = pos 300

abbrev pub upload_idle_poll_seconds : ℤ
upload_idle_poll_seconds = pos 5

abbrev pub is_auth_error : Exn → Bool
is_auth_error (auth_error _) = true
is_auth_error _ = false

-- Microseconds in a second.
abbrev pub second : ℕ
second = 1000000

-- What a round of the upload loop leaves in its variables: `last_prune`, `moved`, and the
-- exception that its `try` block raised, if any.
pub record Round : Type 0 where
  pub last_prune : ℤ
  pub moved : ℕ
  pub failure : Option Exn

-- `reserve` of the upload loop.
abbrev pub reserve_for : Config → ℤ → ℤ
reserve_for config pending = min_ℤ pending (upload_slice_bytes config)

module _ (H : Host) where
  unfoldable pub ensure_spool_dirs : Config → M H.State (Unit {0})
  ensure_spool_dirs config = do H.mkdir (spool_raw config); H.mkdir (spool_encrypted config)

  unfoldable pub run_batch : Config → M H.State (Unit {0})
  run_batch config = do
    ensure_spool_dirs config
    dropped ← prune_raw_spool H config
    encrypted ← encrypt_pending H config
    more ← prune_spool H config
    uploaded ← upload_pending H config
    deleted ← prune H config (pos 0)
    pure tt

  -- What follows a cycle: a long wait after a dead grant, else the interval.
  unfoldable pub after_batch : Config → Outcome (Unit {0}) → M H.State Bool
  after_batch config (ok _) = H.wait config.batch_interval_seconds
  after_batch config (raised e) =
      H.wait (if is_auth_error e then auth_retry_seconds else config.batch_interval_seconds)

  unfoldable pub run_batch_loop : ℕ → Config → M H.State Bool
  run_batch_loop zero config = pure false
  run_batch_loop (suc fuel) config = do
    stopped ← H.is_stopped
    let again = run_batch_loop fuel config
    branch stopped (pure true)
        do result ← attempt (run_batch config); waited ← after_batch config result; again

  -- The `try` block of a round of the encrypt loop.
  unfoldable pub encrypt_cycle : Config → M H.State ℕ
  encrypt_cycle config = do dropped ← prune_raw_spool H config; encrypt_pending H config

  unfoldable pub encrypt_rounds : ℕ → Config → M H.State Bool
  encrypt_rounds zero config = pure false
  encrypt_rounds (suc fuel) config = do
    stopped ← H.is_stopped
    let again = encrypt_rounds fuel config
    branch stopped (pure true) do
      result ← attempt (encrypt_cycle config)
      waited ← H.wait config.encrypt_interval_seconds
      again

  unfoldable pub run_encrypt_loop : ℕ → Config → M H.State Bool
  run_encrypt_loop fuel config = do ensure_spool_dirs config; encrypt_rounds fuel config

  unfoldable pub file_bytes : Text → Text → M H.State ℤ
  file_bytes directory name =
      catch (do st ← H.stat directory name; pure st.size)
        (λ e. branch (is_file_not_found e) (pure (pos 0)) (throw e))

  unfoldable pub sum_bytes : Text → List Text → ℤ → M H.State ℤ
  sum_bytes directory [] total = pure total
  sum_bytes directory (name ∷ names) total = do
    size ← file_bytes directory name
    sum_bytes directory names (total +ℤ size)

  unfoldable pub pending_upload_bytes : Config → M H.State ℤ
  pending_upload_bytes config = do
    names ← H.glob (spool_encrypted config) (codes "*.gpg")
    sum_bytes (spool_encrypted config) names (pos 0)

  -- A prune that notes when it was done.
  unfoldable pub timed_prune : Config → ℤ → M H.State ℤ
  timed_prune config reserve_bytes = do deleted ← prune H config reserve_bytes; H.monotonic

  unfoldable pub upload_after_prune : Config → ℤ → M H.State Round
  upload_after_prune config pruned = do
    result ← attempt (upload_pending H config)
    pure (elim result [
      | ok n ↦ record { last_prune = pruned; moved = n; failure = none }
      | raised e ↦ record { last_prune = pruned; moved = 0; failure = some e }
    ])

  unfoldable pub upload_if_pruned : Config → ℤ → Outcome ℤ → M H.State Round
  upload_if_pruned config last_prune (ok pruned) = upload_after_prune config pruned
  upload_if_pruned config last_prune (raised e) =
      pure (record { last_prune = last_prune; moved = 0; failure = some e })

  unfoldable pub upload_queued : Config → ℤ → ℤ → M H.State Round
  upload_queued config last_prune pending = do
    result ← attempt (timed_prune config (reserve_for config pending))
    upload_if_pruned config last_prune result

  -- `last_prune` after a prune that is due, and as it was where none is.
  unfoldable pub prune_due : Config → ℤ → M H.State ℤ
  prune_due config last_prune = do
    time ← H.monotonic
    branch (leb_ℤ (scale second config.batch_interval_seconds) (time -ℤ last_prune))
        (timed_prune config (pos 0)) (pure last_prune)

  unfoldable pub prune_if_due : Config → ℤ → M H.State Round
  prune_if_due config last_prune = do
    result ← attempt (prune_due config last_prune)
    pure (elim result [
      | ok pruned ↦ record { last_prune = pruned; moved = 0; failure = none }
      | raised e ↦ record { last_prune = last_prune; moved = 0; failure = some e }
    ])

  -- The spool is bounded first, then measured.
  unfoldable pub measure_spool : Config → M H.State ℤ
  measure_spool config = do dropped ← prune_spool H config; pending_upload_bytes config

  unfoldable pub upload_or_idle : Config → ℤ → Outcome ℤ → M H.State Round
  upload_or_idle config last_prune (ok pending) =
      branch (ltb_ℤ (pos 0) pending) (upload_queued config last_prune pending)
        (prune_if_due config last_prune)
  upload_or_idle config last_prune (raised e) =
      pure (record { last_prune = last_prune; moved = 0; failure = some e })

  -- The `try` block of a round.
  unfoldable pub upload_cycle : Config → ℤ → M H.State Round
  upload_cycle config last_prune = do
    result ← attempt (measure_spool config)
    upload_or_idle config last_prune result

  unfoldable pub poll : M H.State (Unit {0})
  poll = do waited ← H.wait upload_idle_poll_seconds; pure tt

  -- `continue` where files were moved and the loop is not stopped, else a short wait.
  unfoldable pub after_moved : ℕ → M H.State (Unit {0})
  after_moved zero = poll
  after_moved (suc n) = do stopped ← H.is_stopped; branch stopped poll (pure tt)

  unfoldable pub after_failure : Option Exn → ℕ → M H.State (Unit {0})
  after_failure none moved = after_moved moved
  after_failure (some e) moved =
      branch (is_auth_error e) (do waited ← H.wait auth_retry_seconds; pure tt) (after_moved moved)

  -- What follows the `try` block: a long wait after a dead grant; the next round at once if files
  -- were moved and nobody stopped the loop; else a short wait.
  unfoldable pub after_upload : Round → M H.State (Unit {0})
  after_upload r = after_failure r.failure r.moved

  unfoldable pub upload_rounds : ℕ → Config → ℤ → M H.State Bool
  upload_rounds zero config last_prune = pure false
  upload_rounds (suc fuel) config last_prune = do
    stopped ← H.is_stopped
    branch stopped (pure true) do
      r ← upload_cycle config last_prune
      after_upload r
      upload_rounds fuel config r.last_prune

  unfoldable pub run_upload_loop : ℕ → Config → M H.State Bool
  run_upload_loop fuel config = upload_rounds fuel config (pos 0)
