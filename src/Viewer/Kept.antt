-- ===== src/Viewer/Kept.antt =====
-- No temporary file of videobackup/viewer.py is deleted before its turn, and none has two owners.
use videobackup.Base.{◌≡◌, refl, ap, ◌∙◌, inl, inr, false, List, [], ◌∷◌, ◌++◌, Option, none, some}
use videobackup.Base.{ℕ, ◌+◌, ◌≤◌, arith, same, same→eq, is_among, Bool-cases, Text, if◌then◌else◌}
use videobackup.Viewer.{
  Clip, Worker, waiting, decrypting, Callback, play_file, show_failure, Screen,
}
use videobackup.Base.Effects.{Exn}
use videobackup.Viewer.Files.{worker_files, queue_files, without_file}

abbrev pub once : Text → Text → ℕ
once f g = if same f g then 1 else 0

abbrev pub occurs : Text → List Text → ℕ
occurs f [] = 0
occurs f (g ∷ gs) = once f g + occurs f gs

abbrev pub in_tmp : Text → Option Text → ℕ
in_tmp f none = 0
in_tmp f (some g) = once f g

-- How often a file is held: as the window's clip, by callbacks, and by threads.
abbrev pub holds : Text → Screen → ℕ
holds f s = in_tmp f s.tmp + occurs f (queue_files s.queue) + occurs f (worker_files s.workers)

-- 1 for a file on disk.
abbrev pub present : Text → List Text → ℕ
present f fs = if is_among f fs then 1 else 0

-- A file that is held is on disk, and is held once; `x f` more holders are allowed for.
abbrev pub IsKeptWith : (Text → ℕ) → Screen → Type 0
IsKeptWith x s = (f : Text) → x f + holds f s ≤ present f s.files

abbrev pub IsKept : Screen → Type 0
IsKept s = (f : Text) → holds f s ≤ present f s.files

pub present_small : (f : Text) (fs : List Text) → present f fs ≤ 1
present_small f fs = ground arith

is_among-without_file :
    (f tmp : Text) (fs : List Text)
    → same f tmp ≡ false
    → is_among f (without_file tmp fs) ≡ is_among f fs
unfolding is_among
is_among-without_file f tmp [] h = refl
is_among-without_file f tmp (g ∷ gs) h = elim (Bool-cases (same g tmp)) [
  | inl e ↦ rw e (rw (ap (same f) (same→eq g tmp e) ∙ h) (is_among-without_file f tmp gs h))
  | inr e ↦ rw e (rw (is_among-without_file f tmp gs h) refl)
]

pub present-without_file :
    (f tmp : Text) (fs : List Text)
    → same f tmp ≡ false
    → present f (without_file tmp fs) ≡ present f fs
present-without_file f tmp fs h = rw (is_among-without_file f tmp fs h) refl

module _ (f : Text) where
  pub occurs-played :
      (tmp : Text) (cs : List Callback)
      → occurs f (queue_files (cs ++ play_file tmp ∷ [])) ≡ occurs f (queue_files cs) + once f tmp
  occurs-played tmp [] = omega arith
  occurs-played tmp (play_file g ∷ cs) = omega (arith, occurs-played tmp cs)
  occurs-played tmp (show_failure exn ∷ cs) = occurs-played tmp cs

  pub occurs-failed :
      (exn : Exn) (cs : List Callback)
      → occurs f (queue_files (cs ++ show_failure exn ∷ [])) ≡ occurs f (queue_files cs)
  occurs-failed exn [] = refl
  occurs-failed exn (play_file g ∷ cs) = omega (arith, occurs-failed exn cs)
  occurs-failed exn (show_failure other ∷ cs) = occurs-failed exn cs

  -- A thread that waits for its turn holds nothing.
  pub occurs-waiting :
      (src : Clip) (after ws : List Worker)
      → occurs f (worker_files (ws ++ waiting src ∷ after)) ≡ occurs f (worker_files (ws ++ after))
  occurs-waiting src after [] = refl
  occurs-waiting src after (waiting other ∷ ws) = occurs-waiting src after ws
  occurs-waiting src after (decrypting other g ∷ ws) = omega (arith, occurs-waiting src after ws)

  pub occurs-decrypting :
      (src : Clip) (tmp : Text) (after ws : List Worker)
      → occurs f (worker_files (ws ++ decrypting src tmp ∷ after))
        ≡ once f tmp + occurs f (worker_files (ws ++ after))
  occurs-decrypting src tmp after [] = refl
  occurs-decrypting src tmp after (waiting other ∷ ws) = occurs-decrypting src tmp after ws
  occurs-decrypting src tmp after (decrypting other g ∷ ws) =
      omega (arith, occurs-decrypting src tmp after ws)
