-- ===== src/Main/Stop.antt =====
-- The loops of videobackup/main.py end once their stop event is set.
use videobackup.Base.{
  ℕ, zero, suc, ◌≤◌, ◌<◌, arith, Bool, true, false, ℤ, pos, Option, none, some, refl, ◌≡◌, ap,
  if◌then◌else◌,
}
use videobackup.Base.Effects.{M, Outcome, ok, raised, follow, Exn}
use videobackup.Base.After.{After, follow-After, if-After}
use videobackup.Config.{Config}
use videobackup.Host.{Host}
use videobackup.Host.Stops.{StopsInTheEnd}
use videobackup.Main.{
  auth_retry_seconds, upload_idle_poll_seconds, is_auth_error, run_batch, after_batch,
  run_batch_loop, encrypt_cycle, encrypt_rounds, upload_cycle, poll, after_moved, after_failure,
  after_upload, upload_rounds, run_upload_loop,
}
use videobackup.Main.Keeps.{run_batch-Keeps, encrypt_cycle-Keeps, upload_cycle-Keeps}
use videobackup.Main.Survive.{IsOk, upload_cycle-IsCalm}

-- It returns, and leaves the measure no higher.
abbrev IsMild : {S A : Type 0} → (S → ℕ) → ℕ → Outcome A × S → Type 0
IsMild μ n r = After (λ _ s. μ s ≤ n) (λ _. ⊥) r

-- It returns `true`.
abbrev EndsTrue : {S : Type 0} → Outcome Bool × S → Type 0
EndsTrue r = After (λ b _. b ≡ true) (λ _. ⊥) r

module _ {S : Type 0} where
  ended : (r : Outcome Bool × S) → EndsTrue r → r.0 ≡ ok true
  ended (ok b, s) e = ap ok e
  ended (raised e, s) h = absurd h

  calm-IsMild :
      {A : Type 0} (μ : S → ℕ) (n : ℕ) (r : Outcome A × S) → IsOk r.0 → μ r.1 ≤ n → IsMild μ n r
  calm-IsMild μ n (ok a, s) c h = h
  calm-IsMild μ n (raised e, s) c h = absurd c

  weaken-IsMild :
      {A : Type 0} (μ : S → ℕ) (n k : ℕ) (r : Outcome A × S) → IsMild μ n r → n ≤ k → IsMild μ k r
  weaken-IsMild μ n k (ok a, s) h le = omega arith
  weaken-IsMild μ n k (raised e, s) h le = h

module _ (H : Host) (config : Config) (μ : H.State → ℕ) (stops : StopsInTheEnd H μ) where
  wait-IsMild : (seconds : ℤ) (n : ℕ) (s : H.State) → μ s ≤ n → IsMild μ n (H.wait seconds s)
  wait-IsMild seconds n s h = weaken-IsMild μ (μ s) n (H.wait seconds s) (stops.wait seconds s) h

  -- A question to the stop event, and a round where it answers `false`.
  round_ends :
      (s : H.State) (body : M H.State Bool)
      → ((s' : H.State) → μ s' < μ s → EndsTrue (body s'))
      → EndsTrue (follow (H.is_stopped s) (λ b s'. if b then (ok true, s') else body s'))
  round_ends s body k =
      follow-After (λ b s'. (μ s' ≤ μ s) × (b ≡ false → μ s' < μ s)) (λ _. ⊥) (λ b _. b ≡ true)
        (H.is_stopped s) _ (stops.is_stopped s)
        (λ b s' h. if-After _ _ b (ok true, s') (body s') (λ _. refl) (λ e. k s' (h.1 e)))

  encrypt_rounds_end :
      (fuel : ℕ) (s : H.State) → μ s < fuel → EndsTrue (encrypt_rounds H fuel config s)
  unfolding encrypt_rounds
  encrypt_rounds_end zero s h = absurd (omega arith)
  encrypt_rounds_end (suc fuel) s h = round_ends s _ λ s1 lower.
      follow-After (λ _ s3. μ s3 ≤ μ s1) (λ _. ⊥) (λ b _. b ≡ true)
        (H.wait config.encrypt_interval_seconds (encrypt_cycle H config s1).1) _
        (wait-IsMild _ (μ s1) _
          ((encrypt_cycle-Keeps H _ (stops.ops (μ s1)) config).at s1 (omega arith)))
        (λ _ s3 le. encrypt_rounds_end fuel s3 (omega arith))

  after_batch-IsMild :
      (r : Outcome (Unit {0})) (n : ℕ) (s : H.State)
      → μ s ≤ n
      → IsMild μ n (after_batch H config r s)
  unfolding after_batch
  after_batch-IsMild (ok _) n s h = wait-IsMild _ n s h
  after_batch-IsMild (raised e) n s h = wait-IsMild _ n s h

  run_batch_loop_end :
      (fuel : ℕ) (s : H.State) → μ s < fuel → EndsTrue (run_batch_loop H fuel config s)
  unfolding run_batch_loop
  run_batch_loop_end zero s h = absurd (omega arith)
  run_batch_loop_end (suc fuel) s h = round_ends s _ λ s1 lower.
      follow-After (λ _ s3. μ s3 ≤ μ s1) (λ _. ⊥) (λ b _. b ≡ true)
        (after_batch H config (run_batch H config s1).0 (run_batch H config s1).1) _
        (after_batch-IsMild _ (μ s1) _
          ((run_batch-Keeps H _ (stops.ops (μ s1)) config).at s1 (omega arith)))
        (λ _ s3 le. run_batch_loop_end fuel s3 (omega arith))

  poll-IsMild : (n : ℕ) (s : H.State) → μ s ≤ n → IsMild μ n (poll H s)
  unfolding poll
  poll-IsMild n s h =
      follow-After (λ _ s'. μ s' ≤ n) (λ _. ⊥) (λ _ s'. μ s' ≤ n)
        (H.wait upload_idle_poll_seconds s) _ (wait-IsMild _ n s h) (λ _ s' le. le)

  after_moved-IsMild : (k n : ℕ) (s : H.State) → μ s ≤ n → IsMild μ n (after_moved H k s)
  unfolding after_moved
  after_moved-IsMild zero n s h = poll-IsMild n s h
  after_moved-IsMild (suc k) n s h =
      follow-After (λ b s'. (μ s' ≤ μ s) × (b ≡ false → μ s' < μ s)) (λ _. ⊥) (λ _ s'. μ s' ≤ n)
        (H.is_stopped s) _ (stops.is_stopped s)
        (λ b s' le.
          if-After _ _ b (poll H s') (ok tt, s') (λ _. poll-IsMild n s' (omega arith))
            (λ _. omega arith))

  after_failure-IsMild :
      (f : Option Exn) (k n : ℕ) (s : H.State) → μ s ≤ n → IsMild μ n (after_failure H f k s)
  unfolding after_failure
  after_failure-IsMild none k n s h = after_moved-IsMild k n s h
  after_failure-IsMild (some e) k n s h =
      if-After (λ _ s'. μ s' ≤ n) (λ _. ⊥) (is_auth_error e) _ _
        (λ _.
          follow-After (λ _ s'. μ s' ≤ n) (λ _. ⊥) (λ _ s'. μ s' ≤ n) (H.wait auth_retry_seconds s)
            _ (wait-IsMild _ n s h) (λ _ s' le. le))
        (λ _. after_moved-IsMild k n s h)

  upload_rounds_end :
      (fuel : ℕ) (t : ℤ) (s : H.State) → μ s < fuel → EndsTrue (upload_rounds H fuel config t s)
  unfolding upload_rounds after_upload
  upload_rounds_end zero t s h = absurd (omega arith)
  upload_rounds_end (suc fuel) t s h = round_ends s _ λ s1 lower.
      follow-After (λ _ s2. μ s2 ≤ μ s1) (λ _. ⊥) (λ b _. b ≡ true) (upload_cycle H config t s1) _
        (calm-IsMild μ (μ s1) (upload_cycle H config t s1) (upload_cycle-IsCalm H config t s1) (
          (upload_cycle-Keeps H _ (stops.ops (μ s1)).calls config ((stops.ops (μ s1)).unlink _)
              t).at
            s1 (omega arith)))
        (λ r s2 le2.
          follow-After (λ _ s3. μ s3 ≤ μ s1) (λ _. ⊥) (λ b _. b ≡ true)
            (after_failure H r.failure r.moved s2) _
            (after_failure-IsMild r.failure r.moved (μ s1) s2 le2)
            (λ _ s3 le3. upload_rounds_end fuel r.last_prune s3 (omega arith)))

  pub run_batch_loop-stops :
      (fuel : ℕ) (s : H.State) → μ s < fuel → (run_batch_loop H fuel config s).0 ≡ ok true
  run_batch_loop-stops fuel s h = ended _ (run_batch_loop_end fuel s h)

  encrypt_rounds-stops :
      (fuel : ℕ) (s : H.State) → μ s < fuel → (encrypt_rounds H fuel config s).0 ≡ ok true
  encrypt_rounds-stops fuel s h = ended _ (encrypt_rounds_end fuel s h)

  upload_rounds-stops :
      (fuel : ℕ) (t : ℤ) (s : H.State) → μ s < fuel → (upload_rounds H fuel config t s).0 ≡ ok true
  upload_rounds-stops fuel t s h = ended _ (upload_rounds_end fuel t s h)

  -- The batch loop, the rounds of the encryption loop and the upload loop return once the stop event
  -- is set, the upload loop also where it goes on without a wait after each slice: whatever gpg, rclone
  -- and the file system do, if the event answers that it is unset at most `μ s` times more from a state
  -- `s`, asking it and waiting for it never raise, and more rounds of fuel than that are given, then
  -- each of these comes to its own end, and raises nothing. The directories that the encryption loop
  -- makes before its rounds are not part of this.
  pub loops-stop :
      (fuel : ℕ) (s : H.State)
      → μ s < fuel
      → ((run_batch_loop H fuel config s).0 ≡ ok true)
        × ((encrypt_rounds H fuel config s).0 ≡ ok true)
        × ((run_upload_loop H fuel config s).0 ≡ ok true)
  unfolding run_upload_loop
  loops-stop fuel s h = (
    run_batch_loop-stops fuel s h,
    encrypt_rounds-stops fuel s h,
    upload_rounds-stops fuel (pos 0) s h,
  )
