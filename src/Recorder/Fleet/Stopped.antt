-- ===== src/Recorder/Fleet/Stopped.antt =====
-- What the end of videobackup/recorder.py's `run_forever` leaves of the cameras' recorders.
use videobackup.Base.{ℕ, Bool, true, false, List, [], ◌∷◌, ℤ, pos, ◌≡◌, refl, ap, subst, All, codes}
use videobackup.Base.Effects.{pure, branch, follow, attempt, lift, Outcome, ok, raised, run-ok}
use videobackup.Base.After.{After, follow-After, After-weaken, if-After}
use videobackup.Base.Keeps.{Keeps, Keeps-bind, keeps_rules}
use videobackup.Config.{Config, Camera}
use videobackup.Host.{Host}
use videobackup.Main.{ensure_spool_dirs}
use videobackup.Recorder.Fleet.{
  Threads, stop_camera, stop_cameras, start_cameras, begin_recording, wait_until_stopped,
  run_forever,
}

-- The operations on another camera's recorder leave a property alone.
pub record StopsKeep {S : Type 0} (T : Threads S) (Q : S → Type 0) : Type 0 where
  pub set_stop : (camera : Camera) → Keeps Q (T.set_stop camera)
  pub is_running : (camera : Camera) → Keeps Q (T.is_running camera)
  pub terminate : (camera : Camera) → Keeps Q (T.terminate camera)
  pub join : (camera : Camera) (seconds : ℤ) → Keeps Q (T.join camera seconds)

-- What the threads and processes are relied on for: the four calls return; `set` tells a recorder,
-- which stays told; a process that does not run, or was sent the signal, is `IsDown`, and stays so,
-- as long as its recorder starts no other.
pub record ThreadLaws {S : Type 0} (T : Threads S) (IsTold IsDown : Camera → S → Type 0)
    : Type 0 where
  pub sets :
      (camera : Camera) (s : S) → After (λ _ s'. IsTold camera s') (λ _. ⊥) (T.set_stop camera s)
  pub answers :
      (camera : Camera) (s : S)
      → After (λ b s'. b ≡ false → IsDown camera s') (λ _. ⊥) (T.is_running camera s)
  pub signals :
      (camera : Camera) (s : S) → After (λ _ s'. IsDown camera s') (λ _. ⊥) (T.terminate camera s)
  pub joins :
      (camera : Camera) (seconds : ℤ) (s : S)
      → After (λ _ _. Unit) (λ _. ⊥) (T.join camera seconds s)
  pub stays_told : (camera : Camera) → StopsKeep T (IsTold camera)
  pub stays_down : (camera : Camera) → StopsKeep T (IsDown camera)

module _ {S A : Type 0} where
  anything : (r : Outcome A × S) → After (λ _ _. Unit) (λ _. Unit) r
  anything (ok a, s) = tt
  anything (raised e, s) = tt

  and_keeps :
      (P : A → S → Type 0) (Q : S → Type 0) (r : Outcome A × S)
      → After P (λ _. ⊥) r
      → Q r.1
      → After (λ a s. P a s × Q s) (λ _. ⊥) r
  and_keeps P Q (ok a, s) h q = (h, q)
  and_keeps P Q (raised e, s) h q = h

module _ {S : Type 0} where
  cleaned :
      (P : S → Type 0) (r : Outcome (Unit {0}) × S) (o : Outcome Bool)
      → After (λ _ s. P s) (λ _. ⊥) r
      → P (follow r (λ _. lift o)).1 × ((follow r (λ _. lift o)).0 ≡ o)
  cleaned P (ok _, s) (ok b) h = (h, refl)
  cleaned P (ok _, s) (raised e) h = (h, refl)
  cleaned P (raised e, s) o h = absurd h

  result_of :
      {A : Type 0} (r : Outcome A × S) (a b : A)
      → After (λ x _. x ≡ b) (λ _. Unit) r
      → r.0 ≡ ok a
      → a ≡ b
  result_of (ok x, s) a b h e = cc
  result_of (raised x, s) a b h e = cc

module _ (H : Host) (T : Threads H.State) (own : Bool) (config : Config) where
  start_cameras-all :
      (cameras : List Camera) (s : H.State)
      → After (λ started _. started ≡ cameras) (λ _. Unit) (start_cameras H T cameras s)
  unfolding start_cameras
  start_cameras-all [] s = refl
  start_cameras-all (camera ∷ cameras) s =
      follow-After (λ _ _. Unit) (λ _. Unit) (λ started _. started ≡ camera ∷ cameras)
        (T.start camera s) _ (anything (T.start camera s))
        λ _ s1 _.
          follow-After (λ started _. started ≡ cameras) (λ _. Unit)
            (λ started _. started ≡ camera ∷ cameras) (start_cameras H T cameras s1) _
            (start_cameras-all cameras s1) (λ started s2 e. ap (λ cs. camera ∷ cs) e)

  begin_recording-all :
      (s : H.State)
      → After (λ started _. started ≡ config.cameras) (λ _. Unit) (begin_recording H T own config s)
  unfolding begin_recording
  begin_recording-all s =
      follow-After (λ _ _. Unit) (λ _. Unit) (λ started _. started ≡ config.cameras)
        (H.which (codes "ffmpeg") s) _ (anything (H.which (codes "ffmpeg") s))
        λ found s1 _.
          if-After (λ started _. started ≡ config.cameras) (λ _. Unit) found _ _
            (λ _.
              follow-After (λ _ _. Unit) (λ _. Unit) (λ started _. started ≡ config.cameras)
                (ensure_spool_dirs H config s1) _ (anything (ensure_spool_dirs H config s1))
                λ _ s2 _.
                  follow-After (λ started _. started ≡ config.cameras) (λ _. Unit)
                    (λ started _. started ≡ config.cameras) (start_cameras H T config.cameras s2) _
                    (start_cameras-all config.cameras s2)
                    λ started s3 e.
                      follow-After (λ _ _. Unit) (λ _. Unit) (λ started _. started ≡ config.cameras)
                        (branch own T.install_handlers (pure tt) s3) _
                        (anything (branch own T.install_handlers (pure tt) s3)) λ _ s4 _. e)
            (λ _. tt)

module _ (H : Host) (T : Threads H.State) (IsTold IsDown : Camera → H.State → Type 0)
    (laws : ThreadLaws T IsTold IsDown) where
  abbrev IsStopped : Camera → H.State → Type 0
  IsStopped camera s = IsDown camera s × IsTold camera s

  stop_camera-Keeps :
      (Q : H.State → Type 0) → StopsKeep T Q → (camera : Camera) → Keeps Q (stop_camera H T camera)
  unfolding stop_camera
  stop_camera-Keeps Q k camera = search (keeps_rules, k.set_stop, k.is_running, k.terminate, k.join)

  stop_cameras-Keeps :
      (Q : H.State → Type 0)
      → StopsKeep T Q
      → (cameras : List Camera) → Keeps Q (stop_cameras H T cameras)
  unfolding stop_cameras
  stop_cameras-Keeps Q k [] = search keeps_rules
  stop_cameras-Keeps Q k (camera ∷ cameras) =
      Keeps-bind _ _ (stop_camera-Keeps Q k camera) λ _. stop_cameras-Keeps Q k cameras

  end_process :
      (camera : Camera) (b : Bool) (s : H.State)
      → (b ≡ false → IsDown camera s)
      → IsTold camera s
      → After (λ _ s'. IsStopped camera s') (λ _. ⊥) (branch b (T.terminate camera) (pure tt) s)
  end_process camera true s h t =
      and_keeps _ _ (T.terminate camera s) (laws.signals camera s)
        (((laws.stays_told camera).terminate camera).at s t)
  end_process camera false s h t = (h refl, t)

  IsStopped-StopsKeep : (camera : Camera) → StopsKeep T (IsStopped camera)
  IsStopped-StopsKeep camera =
      let told = laws.stays_told camera in
      let down = laws.stays_down camera in
      record {
        set_stop =
            λ c. record { at = λ s h. ((down.set_stop c).at s h.0, (told.set_stop c).at s h.1) };
        is_running = λ c. record {
          at = λ s h. ((down.is_running c).at s h.0, (told.is_running c).at s h.1);
        };
        terminate =
            λ c. record { at = λ s h. ((down.terminate c).at s h.0, (told.terminate c).at s h.1) };
        join = λ c t. record { at = λ s h. ((down.join c t).at s h.0, (told.join c t).at s h.1) };
      }

  stop_camera-stops :
      (camera : Camera) (s : H.State)
      → After (λ _ s'. IsStopped camera s') (λ _. ⊥) (stop_camera H T camera s)
  unfolding stop_camera
  stop_camera-stops camera s =
      let told = laws.stays_told camera in
      let kept = IsStopped-StopsKeep camera in
      follow-After (λ _ s1. IsTold camera s1) (λ _. ⊥) (λ _ s'. IsStopped camera s')
        (T.set_stop camera s) _ (laws.sets camera s)
        λ _ s1 h1.
          follow-After (λ b s2. (b ≡ false → IsDown camera s2) × IsTold camera s2) (λ _. ⊥)
            (λ _ s'. IsStopped camera s') (T.is_running camera s1) _
            (and_keeps _ _ (T.is_running camera s1) (laws.answers camera s1)
              ((told.is_running camera).at s1 h1))
            λ b s2 h2.
              follow-After (λ _ s3. IsStopped camera s3) (λ _. ⊥) (λ _ s'. IsStopped camera s')
                (branch b (T.terminate camera) (pure tt) s2) _ (end_process camera b s2 h2.0 h2.1)
                λ _ s3 h3.
                  After-weaken (λ _ s'. Unit × IsStopped camera s') (λ _ s'. IsStopped camera s')
                    (λ _. ⊥) (λ _. ⊥) (T.join camera (pos 15) s3)
                    (and_keeps _ _ (T.join camera (pos 15) s3) (laws.joins camera (pos 15) s3)
                      ((kept.join camera (pos 15)).at s3 h3))
                    (λ _ s' h. h.1) (λ s' h. h)

  stop_cameras-stops :
      (cameras : List Camera) (s : H.State)
      → After (λ _ s'. All (λ c. IsStopped c s') cameras) (λ _. ⊥) (stop_cameras H T cameras s)
  unfolding stop_cameras
  stop_cameras-stops [] s = tt
  stop_cameras-stops (camera ∷ cameras) s =
      follow-After (λ _ s1. IsStopped camera s1) (λ _. ⊥)
        (λ _ s'. All (λ c. IsStopped c s') (camera ∷ cameras)) (stop_camera H T camera s) _
        (stop_camera-stops camera s)
        λ _ s1 h1.
          After-weaken (λ _ s'. All (λ c. IsStopped c s') cameras × IsStopped camera s')
            (λ _ s'. All (λ c. IsStopped c s') (camera ∷ cameras)) (λ _. ⊥) (λ _. ⊥)
            (stop_cameras H T cameras s1)
            (and_keeps _ _ (stop_cameras H T cameras s1) (stop_cameras-stops cameras s1)
              ((stop_cameras-Keeps _ (IsStopped-StopsKeep camera) cameras).at s1 h1))
            (λ _ s' h. (h.1, h.0)) (λ s' h. h)

  -- Once the recorders are started, `run_forever` leaves every camera's recorder told to stop and its
  -- ffmpeg ended or signalled, and returns or raises what its wait returned or raised: also where the
  -- wait for the stop event raises, and for any number of waits, if the four calls that stop a
  -- recorder return, and a process that is down stays down while the recorders are stopped.
  pub run_forever-stops_all :
      (fuel : ℕ) (own : Bool) (config : Config) (s : H.State) (recorders : List Camera)
      → (begin_recording H T own config s).0 ≡ ok recorders
      → All (λ c. IsStopped c (run_forever H T fuel own config s).1) config.cameras
        × ((run_forever H T fuel own config s).0
            ≡ (wait_until_stopped H T fuel (begin_recording H T own config s).1).0)
  unfolding run_forever
  run_forever-stops_all fuel own config s recorders begun =
      let s1 = (attempt (wait_until_stopped H T fuel) (begin_recording H T own config s).1).1 in
      let all =
        result_of (begin_recording H T own config s) recorders config.cameras
          (begin_recording-all H T own config s) begun in
      rw (run-ok (begin_recording H T own config s) begun) (
        cleaned (λ s'. All (λ c. IsStopped c s') config.cameras) _ _
          (subst
            (λ cs.
              After (λ _ s'. All (λ c. IsStopped c s') cs) (λ _. ⊥) (stop_cameras H T recorders s1))
            all (stop_cameras-stops recorders s1)))
