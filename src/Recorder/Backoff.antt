-- ===== src/Recorder/Backoff.antt =====
-- The pauses between two starts of ffmpeg in videobackup/recorder.py.
use videobackup.Base.{
  ℕ, zero, suc, ◌≡◌, refl, Bool, true, false, Option, none, some, arith, inl, inr, ◌*◌,
}
use videobackup.Base.{
  ℤ, pos, negsuc, ◌≤ℤ◌, ◌-ℤ◌, scale, ltb_ℤ, min_ℤ, Text, Bool-cases, if◌then◌else◌,
}
use videobackup.Base.Effects.{M, Outcome, ok, raised, follow}
use videobackup.Config.{Camera}
use videobackup.Host.{Host}
use videobackup.Main.{second}
use videobackup.Recorder.{
  Process, backoff_min, backoff_max, after_run, doubled, wait_with_watchdog, after_exit, run_camera,
  spawned,
}

-- 2 to 60 seconds.
abbrev pub IsBackoff : ℤ → Type 0
IsBackoff b = (backoff_min ≤ℤ b) × (b ≤ℤ backoff_max)

after_run-IsBackoff : (ran_for b : ℤ) → IsBackoff b → IsBackoff (after_run ran_for b)
unfolding after_run
after_run-IsBackoff ran_for b h = elim (Bool-cases (ltb_ℤ (scale second backoff_max) ran_for)) [
  | inl e ↦ rw e (omega arith, omega arith)
  | inr e ↦ rw e h
]

scale_pos : (n : ℕ) → scale 2 (pos n) ≡ pos (2 * n)
unfolding scale
scale_pos n = ground arith

doubled-IsBackoff : (b : ℤ) → IsBackoff b → IsBackoff (doubled b)
unfolding doubled min_ℤ
doubled-IsBackoff (pos n) h = rw (scale_pos n) (ground (arith, h), ground (arith, h))
doubled-IsBackoff (negsuc n) (h, k) = absurd (omega (arith, h))

module _ {S A B : Type 0} where
  follow_cong :
      (r : Outcome A × S) (f g : A → M S B)
      → ((a : A) (s : S) → f a s ≡ g a s)
      → follow r f ≡ follow r g
  follow_cong (ok a, s) f g h = h a s
  follow_cong (raised e, s) f g h = refl

if_cong :
    {A : Type 0} (b : Bool) (x y z : A)
    → (b ≡ false → y ≡ z)
    → (if b then x else y) ≡ (if b then x else z)
if_cong true x y z h = refl
if_cong false x y z h = h refl

if_swap :
    {A : Type 0} (b : Bool) (x y z : A)
    → (b ≡ true → y ≡ z)
    → (if b then y else x) ≡ (if b then z else x)
if_swap true x y z h = h refl
if_swap false x y z h = refl

module _ (H : Host) (P : Process H.State) (pause other : ℤ → M H.State Bool)
    (agrees : (b : ℤ) → IsBackoff b → (s : H.State) → other b s ≡ pause b s) where
  after_exit_same :
      (started b : ℤ) (f g : ℤ → M H.State Bool) (o : Option (Option ℤ)) (s : H.State)
      → IsBackoff b
      → ((c : ℤ) → IsBackoff c → (s : H.State) → f c s ≡ g c s)
      → after_exit H P other started b f o s ≡ after_exit H P pause started b g o s
  unfolding after_exit
  after_exit_same started b f g none s h k = refl
  after_exit_same started b f g (some rc) s h k = follow_cong (P.is_stopping s) _ _ λ stopped s1.
      if_cong stopped _ _ _ λ _. follow_cong (H.monotonic s1) _ _ λ ended s2.
        let rest = after_run-IsBackoff (ended -ℤ started) b h in
        rw (agrees (after_run (ended -ℤ started) b) rest s2) (
          follow_cong (pause (after_run (ended -ℤ started) b) s2) _ _
            λ stop s3. if_cong stop _ _ _ λ _. k _ (doubled-IsBackoff _ rest) s3)

  -- The supervisor of a camera pauses for 2 to 60 seconds each time: with another way to pause that
  -- does the same for these lengths it runs the same, from any pause of such a length.
  pub run_camera-IsBackoff :
      (camera : Camera) (out_dir : Text) (segment_seconds : ℤ) (polls fuel : ℕ) (b : ℤ)
      (s : H.State)
      → IsBackoff b
      → run_camera H P other camera out_dir segment_seconds polls fuel b s
        ≡ run_camera H P pause camera out_dir segment_seconds polls fuel b s
  unfolding run_camera
  run_camera-IsBackoff camera out_dir segment_seconds polls zero b s h = refl
  run_camera-IsBackoff camera out_dir segment_seconds polls (suc fuel) b s h =
      follow_cong (P.is_stopping s) _ _ λ stopping s1. if_cong stopping _ _ _ λ _.
        follow_cong (H.monotonic s1) _ _ λ started s2.
          follow_cong (spawned H P camera out_dir segment_seconds s2) _ _ λ up s3.
            if_swap up _ _ _ λ _.
              follow_cong (wait_with_watchdog H P camera out_dir segment_seconds polls s3) _ _
                λ rc s4.
                  after_exit_same started b _ _ rc s4 h λ c hc s5.
                    run_camera-IsBackoff camera out_dir segment_seconds polls fuel c s5 hc
