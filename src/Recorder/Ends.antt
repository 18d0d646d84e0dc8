-- ===== src/Recorder/Ends.antt =====
-- The supervisor of a camera in videobackup/recorder.py ends once it is told to stop.
use videobackup.Base.{
  ◌≡◌, ◌≢◌, refl, ℕ, zero, suc, ◌≤◌, ◌<◌, arith, Bool, true, false, ℤ, ◌-ℤ◌, Text, Option, none,
  some, List, [], ◌∷◌,
}
use videobackup.Base.Effects.{M, pure, branch, ◌>>=◌, Outcome, ok, raised, follow}
use videobackup.Base.After.{After, follow-After, if-After}
use videobackup.Base.Keeps.{Keeps, Keeps-bind, keeps_rules}
use videobackup.Config.{Camera}
use videobackup.Host.{Host}
use videobackup.Host.Frame.{OpsKeep}
use videobackup.Recorder.{
  Process, stat_newer, newest, stalled_segment, is_open, is_stuck, after_poll, wait_with_watchdog,
  spawned, after_exit, run_camera, watchdog_poll_seconds, stall_limit, after_run,
}

-- The operations on ffmpeg keep a property of the state.
pub record ProcessKeeps {S : Type 0} (P : Process S) (Q : S → Type 0) : Type 0 where
  pub spawn : (argv : List Text) → Keeps Q (P.spawn argv)
  pub wait_for : (seconds : ℤ) → Keeps Q (P.wait_for seconds)
  pub wait_end : Keeps Q P.wait_end
  pub kill : Keeps Q P.kill

module _ (H : Host) (Q : H.State → Type 0) (ops : OpsKeep H Q) where
  stat_newer-Keeps :
      (directory : Text) (best : Option (Text × ℤ)) (name : Text)
      → Keeps Q (stat_newer H directory best name)
  unfolding stat_newer
  stat_newer-Keeps directory best name = search (keeps_rules, ops.calls.stat)

  newest-Keeps :
      (directory : Text) (names : List Text) (best : Option (Text × ℤ))
      → Keeps Q (newest H directory names best)
  unfolding newest
  newest-Keeps directory [] best = search keeps_rules
  newest-Keeps directory (name ∷ names) best =
      Keeps-bind _ _ (stat_newer-Keeps directory best name)
        λ next. newest-Keeps directory names next

  pub stalled_segment-Keeps :
      (strptime : Text → Outcome ℤ) (out_dir prefix : Text) (limit : ℤ)
      → Keeps Q (stalled_segment H strptime out_dir prefix limit)
  unfolding stalled_segment
  stalled_segment-Keeps strptime out_dir prefix limit =
      Keeps-bind _ _ (ops.calls.glob _ _)
        λ names. Keeps-bind _ _ (newest-Keeps out_dir names none) λ best. record { at = λ s h. h }

  pub is_open-Keeps : (directory name : Text) → Keeps Q (is_open H directory name)
  unfolding is_open
  is_open-Keeps directory name = search (keeps_rules, ops.calls.stat)

-- A measure of the state that counts the answers `false` that the recorder's own stop event has left.
pub record RecorderStops (H : Host) (P : Process H.State) (pause : ℤ → M H.State Bool)
    (μ : H.State → ℕ) : Type 0 where
  pub ops : (n : ℕ) → OpsKeep H (λ s. μ s ≤ n)
  pub process : (n : ℕ) → ProcessKeeps P (λ s. μ s ≤ n)
  pub pause_keeps : (n : ℕ) (seconds : ℤ) → Keeps (λ s. μ s ≤ n) (pause seconds)
  pub is_stopping :
      (s : H.State)
      → After (λ b s'. (μ s' ≤ μ s) × (b ≡ false → μ s' < μ s)) (λ _. Unit) (P.is_stopping s)

abbrev IsSome : {A : Type 0} → Option A → Type 0
IsSome none = ⊥
IsSome (some a) = Unit

module _ {S A : Type 0} (μ : S → ℕ) where
  kept_After :
      (n : ℕ) (m : M S A) (s : S)
      → Keeps (λ s'. μ s' ≤ n) m
      → μ s ≤ n
      → After (λ _ s'. μ s' ≤ n) (λ _. Unit) (m s)
  kept_After n m s k h = from (m s) (k.at s h)
    where
      from : (r : Outcome A × S) → μ r.1 ≤ n → After (λ _ s'. μ s' ≤ n) (λ _. Unit) r
      from (ok a, s') le = le
      from (raised e, s') le = tt

module _ {S : Type 0} where
  never_false : (r : Outcome Bool × S) → After (λ e _. e ≡ true) (λ _. Unit) r → r.0 ≢ ok false
  never_false (ok b, s) h = λ e. cc
  never_false (raised x, s) h = λ e. cc

module _ (H : Host) (P : Process H.State) (pause : ℤ → M H.State Bool) (μ : H.State → ℕ)
    (stops : RecorderStops H P pause μ) where
  -- An action that returns or raises, after which the rest runs with a measure that is no higher.
  step :
      {A B : Type 0} (n : ℕ) (R : B → H.State → Type 0) (m : M H.State A) (f : A → M H.State B)
      (s : H.State)
      → Keeps (λ s'. μ s' ≤ n) m
      → μ s ≤ n
      → ((a : A) (s' : H.State) → μ s' ≤ n → After R (λ _. Unit) (f a s'))
      → After R (λ _. Unit) ((m >>= f) s)
  step n R m f s k h rest =
      follow-After (λ _ s'. μ s' ≤ n) (λ _. Unit) R (m s) f (kept_After μ n m s k h) rest

  -- A question to the stop event; `body` runs where it answers `false`.
  asked :
      {B : Type 0} (R : B → H.State → Type 0) (n : ℕ) (b : B) (body : M H.State B) (s : H.State)
      → μ s < suc n
      → ((s' : H.State) → μ s' ≤ μ s → R b s')
      → ((s' : H.State) → μ s' < n → μ s' ≤ μ s → After R (λ _. Unit) (body s'))
      → After R (λ _. Unit) (follow (P.is_stopping s) (λ stopping. branch stopping (pure b) body))
  asked R n b body s h done rest =
      follow-After (λ c s'. (μ s' ≤ μ s) × (c ≡ false → μ s' < μ s)) (λ _. Unit) R (P.is_stopping s)
        _ (stops.is_stopping s)
        λ c s' le.
          if-After R (λ _. Unit) c (ok b, s') (body s') (λ _. done s' le.0)
            (λ e. let lower = le.1 e in rest s' (omega arith) le.0)

  module _ (camera : Camera) (out_dir : Text) (segment_seconds : ℤ) where
    abbrev limit : ℤ
    limit = stall_limit H P camera out_dir segment_seconds

    is_stuck-Keeps :
        (n : ℕ) (stalled : Option Text)
        → Keeps (λ s. μ s ≤ n) (is_stuck H P camera out_dir segment_seconds stalled)
    unfolding is_stuck
    is_stuck-Keeps n none = search keeps_rules
    is_stuck-Keeps n (some name) = is_open-Keeps H _ (stops.ops n) out_dir name

    after_poll_ends :
        (n : ℕ) (again : M H.State (Option (Option ℤ))) (o : Option ℤ) (s : H.State)
        → μ s ≤ n
        → ((s' : H.State)
            → μ s' < μ s
            → After (λ o' s2. IsSome o' × (μ s2 ≤ n)) (λ _. Unit) (again s'))
        → After
            (λ o' s'. IsSome o' × (μ s' ≤ n))
            (λ _. Unit)
            (after_poll H P camera out_dir segment_seconds again o s)
    unfolding after_poll
    after_poll_ends n again (some rc) s le rest = (tt, le)
    after_poll_ends n again none s le rest =
        asked _ (μ s) (some none) _ s (omega arith) (λ s2 le2. (tt, omega arith))
          λ s2 lower le2.
            step (μ s2) _ (stalled_segment H P.strptime out_dir camera.name limit) _ s2
              (stalled_segment-Keeps H _ (stops.ops (μ s2)) P.strptime out_dir camera.name limit)
              (omega arith)
              λ stalled s3 le3.
                step (μ s2) _ (is_stuck H P camera out_dir segment_seconds stalled) _ s3
                  (is_stuck-Keeps (μ s2) stalled) le3
                  λ stuck s4 le4.
                    if-After _ _ stuck _ _
                      (λ _. step (μ s2) _ P.kill _ s4 ((stops.process (μ s2)).kill) le4 λ _ s5 le5.
                        step (μ s2) _ P.wait_end _ s5 ((stops.process (μ s2)).wait_end) le5
                          λ rc s6 le6. (tt, omega arith))
                      (λ _. rest s4 (omega arith))

    wait_ends :
        (n fuel : ℕ) (s : H.State)
        → μ s < fuel
        → μ s ≤ n
        → After
            (λ o s'. IsSome o × (μ s' ≤ n))
            (λ _. Unit)
            (wait_with_watchdog H P camera out_dir segment_seconds fuel s)
    unfolding wait_with_watchdog
    wait_ends n zero s h le = absurd (omega arith)
    wait_ends n (suc fuel) s h le =
        step (μ s) _ (P.wait_for watchdog_poll_seconds) _ s
          ((stops.process (μ s)).wait_for watchdog_poll_seconds) (omega arith)
          λ o s1 le1.
            after_poll_ends n _ o s1 (omega arith)
              λ s2 lower. wait_ends n fuel s2 (omega arith) (omega arith)

    spawned-Keeps : (n : ℕ) → Keeps (λ s. μ s ≤ n) (spawned H P camera out_dir segment_seconds)
    unfolding spawned
    spawned-Keeps n = let up = (stops.process n).spawn in search (keeps_rules, up)

    after_exit_ends :
        (n : ℕ) (started backoff : ℤ) (again : ℤ → M H.State Bool) (o : Option (Option ℤ))
        (s : H.State)
        → IsSome o
        → μ s ≤ n
        → ((b : ℤ) (s' : H.State) → μ s' < n → After (λ e _. e ≡ true) (λ _. Unit) (again b s'))
        → After (λ e _. e ≡ true) (λ _. Unit) (after_exit H P pause started backoff again o s)
    unfolding after_exit
    after_exit_ends n started backoff again none s h le rest = absurd h
    after_exit_ends n started backoff again (some rc) s h le rest =
        asked _ (μ s) true _ s (omega arith) (λ _ _. refl)
          λ s1 lower le1.
            step (μ s1) _ H.monotonic _ s1 ((stops.ops (μ s1)).calls.monotonic) (omega arith)
              λ ended s2 le2.
                step (μ s1) _ (pause (after_run (ended -ℤ started) backoff)) _ s2
                  (stops.pause_keeps (μ s1) _) le2
                  λ stop s3 le3. if-After _ _ stop _ _ (λ _. refl) (λ _. rest _ s3 (omega arith))

    run_camera_ends :
        (polls fuel : ℕ) (backoff : ℤ) (s : H.State)
        → μ s < polls
        → μ s < fuel
        → After
            (λ e _. e ≡ true)
            (λ _. Unit)
            (run_camera H P pause camera out_dir segment_seconds polls fuel backoff s)
    unfolding run_camera
    run_camera_ends polls zero backoff s h k = absurd (omega arith)
    run_camera_ends polls (suc fuel) backoff s h k =
        asked _ (μ s) true _ s (omega arith) (λ _ _. refl)
          λ s1 lower le1.
            step (μ s1) _ H.monotonic _ s1 ((stops.ops (μ s1)).calls.monotonic) (omega arith)
              λ started s2 le2.
                step (μ s1) _ (spawned H P camera out_dir segment_seconds) _ s2
                  (spawned-Keeps (μ s1)) le2
                  λ up s3 le3.
                    if-After _ _ up _ _
                      (λ _.
                        follow-After (λ o s'. IsSome o × (μ s' ≤ μ s1)) (λ _. Unit)
                          (λ e _. e ≡ true)
                          (wait_with_watchdog H P camera out_dir segment_seconds polls s3) _
                          (wait_ends (μ s1) polls s3 (omega arith) le3)
                          λ rc s4 h4.
                            after_exit_ends (μ s1) started backoff _ rc s4 h4.0 h4.1 λ b s5 lower5.
                              run_camera_ends polls fuel b s5 (omega arith) (omega arith))
                      (λ _. refl)

    -- The supervisor of a camera never runs on: if its stop event answers that it is unset at most
    -- `μ s` times more from a state `s`, and more rounds and polls of fuel than that are given, then
    -- it comes to its own end, or an exception leaves it, whatever ffmpeg and the file system do.
    pub run_camera-ends :
        (polls fuel : ℕ) (backoff : ℤ) (s : H.State)
        → μ s < polls
        → μ s < fuel
        → (run_camera H P pause camera out_dir segment_seconds polls fuel backoff s).0 ≢ ok false
    run_camera-ends polls fuel backoff s h k =
        never_false _ (run_camera_ends polls fuel backoff s h k)
