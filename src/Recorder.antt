-- ===== src/Recorder.antt =====
-- videobackup/recorder.py: the stall guard and the supervisor of one camera.
pub mod Backoff
pub mod Stalled
pub mod Fleet
pub mod Watchdog
pub mod Ends
use videobackup.Base.{
  ℕ, zero, suc, ◌==◌, Bool, true, false, not, List, [], ◌∷◌, ◌++◌, Option, none, some,
}
use videobackup.Base.{
  ℤ, pos, ◌-ℤ◌, scale, ltb_ℤ, min_ℤ, is_among, drop, starts_with, Text, codes, if◌then◌else◌,
}
use videobackup.Base.Effects.{
  M, Outcome, ok, raised, pure, throw, catch, branch, attempt, ◌>>=◌, ◌>>◌, Exn, is_os_error,
  is_value_error,
}
use videobackup.Base.Values.{is_digit, decimal, lower}
use videobackup.Config.{Camera, join}
use videobackup.Encrypt.{is_file_not_found}
use videobackup.Host.{Host}
use videobackup.Main.{second}
use videobackup.Ffmpeg.{ffmpeg_cmd}

-- In seconds.
abbrev pub backoff_min : ℤ
backoff_min = pos 2

abbrev pub backoff_max : ℤ
backoff_max = pos 60

abbrev pub segment_stall_factor : ℕ
segment_stall_factor = 5

abbrev pub watchdog_poll_seconds : ℤ
watchdog_poll_seconds = pos 5

-- The text that the pattern stands for: `d` is a digit, any other character is itself.
unfoldable pub take_shape : Text → Text → Option (Text × Text)
take_shape [] s = some ([], s)
take_shape (p ∷ ps) [] = none
take_shape (p ∷ ps) (c ∷ s) =
    let rest : Option (Text × Text) = elim (take_shape ps s) [
      | none ↦ none
      | some (front, back) ↦ some (c ∷ front, back)
    ] in
    if (if p == b'd' then is_digit c else p == c) then rest else none

-- `\.[^.]+$`
unfoldable pub is_suffix : Text → Bool
is_suffix [] = false
is_suffix (c ∷ []) = false
is_suffix (c ∷ d ∷ s) = if c == b'.' then not (is_among (b'.' ∷ []) (letters (d ∷ s))) else false
  where
    letters : Text → List Text
    letters [] = []
    letters (x ∷ xs) = (x ∷ []) ∷ letters xs

-- `_(\d{8}_\d{6})\.[^.]+$` at the front.
unfoldable pub stamp_at : Text → Option Text
stamp_at s = elim (take_shape (codes "_dddddddd_dddddd") s) [
  | none ↦ none
  | some (front, back) ↦ if is_suffix back then some (drop 1 front) else none
]

-- `_SEGMENT_STAMP_RE.search`
unfoldable pub search_stamp : Text → Option Text
search_stamp [] = none
search_stamp (c ∷ s) =
    let rest = search_stamp s in elim (stamp_at (c ∷ s)) [ none ↦ rest | some stamp ↦ some stamp ]

-- What the supervisor asks of ffmpeg's process, of its own stop event, and of `strptime`.
pub record Process (S : Type 0) : Type 0 where
  -- `Popen(cmd)`
  pub spawn : List Text → M S (Unit {0})
  -- `proc.wait(timeout)`, which gives nothing when the time is over; and `proc.wait()`.
  pub wait_for : ℤ → M S (Option ℤ)
  pub wait_end : M S ℤ
  pub kill : M S (Unit {0})
  -- `_stop.is_set()`
  pub is_stopping : M S Bool
  -- `strptime(stamp, "%Y%m%d_%H%M%S").timestamp()`, in microseconds.
  pub strptime : Text → Outcome ℤ

unfoldable pub opened_at : (Text → Outcome ℤ) → Text → Outcome (Option ℤ)
opened_at strptime name = elim (search_stamp name) [
  | none ↦ ok none
  | some stamp ↦ elim (strptime stamp) [
    | ok t ↦ ok (some t)
    | raised e ↦ if is_value_error e then ok none else raised e
  ]
]

-- The file with the later time; the first of two that are as late.
unfoldable pub newer : Option (Text × ℤ) → Text → ℤ → Option (Text × ℤ)
newer none name mtime = some (name, mtime)
newer (some (best, time)) name mtime =
    if ltb_ℤ time mtime then some (name, mtime) else some (best, time)

-- The newest file's name, if it has been written for longer than `limit` since it was opened.
unfoldable pub report : ℤ → Text → ℤ → Outcome (Option ℤ) → Outcome (Option Text)
report limit name mtime (raised e) = raised e
report limit name mtime (ok none) = ok none
report limit name mtime (ok (some opened)) =
    ok (if ltb_ℤ limit (mtime -ℤ opened) then some name else none)

unfoldable pub judge : (Text → Outcome ℤ) → ℤ → Option (Text × ℤ) → Outcome (Option Text)
judge strptime limit none = ok none
judge strptime limit (some (name, mtime)) = report limit name mtime (opened_at strptime name)

-- The pause before the next start is the shortest one again after a healthy run; each pause is twice
-- the one before it, up to the longest.
unfoldable pub after_run : ℤ → ℤ → ℤ
after_run ran_for backoff =
    if ltb_ℤ (scale second backoff_max) ran_for then backoff_min else backoff

unfoldable pub doubled : ℤ → ℤ
doubled backoff = min_ℤ (scale 2 backoff) backoff_max

module _ (H : Host) where
  unfoldable pub stat_newer : Text → Option (Text × ℤ) → Text → M H.State (Option (Text × ℤ))
  stat_newer directory best name =
      catch (do st ← H.stat directory name; pure (newer best name st.mtime))
        (λ e. branch (is_os_error e) (pure best) (throw e))

  unfoldable pub newest : Text → List Text → Option (Text × ℤ) → M H.State (Option (Text × ℤ))
  newest directory [] best = pure best
  newest directory (name ∷ names) best = do
    next ← stat_newer directory best name
    newest directory names next

  -- `limit` in microseconds.
  unfoldable pub stalled_segment : (Text → Outcome ℤ) → Text → Text → ℤ → M H.State (Option Text)
  stalled_segment strptime out_dir prefix limit = do
    names ← H.glob out_dir (prefix ++ codes "_*")
    best ← newest out_dir names none
    λ w. (judge strptime limit best, w)

  -- Whether the stalled segment is still there.
  unfoldable pub is_open : Text → Text → M H.State Bool
  is_open directory name =
      catch (do st ← H.stat directory name; pure true)
        (λ e. branch (is_os_error e) (pure false) (throw e))

module _ (H : Host) (P : Process H.State) (camera : Camera) (out_dir : Text)
    (segment_seconds : ℤ) where
  abbrev pub stall_limit : ℤ
  stall_limit = scale second (scale segment_stall_factor segment_seconds)

  unfoldable pub is_stuck : Option Text → M H.State Bool
  is_stuck none = pure false
  is_stuck (some name) = is_open H out_dir name

  -- What follows a poll: `again` polls once more.
  unfoldable pub after_poll :
      M H.State (Option (Option ℤ)) → Option ℤ → M H.State (Option (Option ℤ))
  after_poll again (some rc) = pure (some (some rc))
  after_poll again none = do
    stopping ← P.is_stopping
    branch stopping (pure (some none)) do
      stalled ← stalled_segment H P.strptime out_dir camera.name stall_limit
      stuck ← is_stuck stalled
      branch stuck (do P.kill; rc ← P.wait_end; pure (some (some rc))) again

  -- On fuel: `none` says that it ran out. The exit status, or `none` where the stop was asked for.
  unfoldable pub wait_with_watchdog : ℕ → M H.State (Option (Option ℤ))
  wait_with_watchdog zero = pure none
  wait_with_watchdog (suc fuel) = do
    ended ← P.wait_for watchdog_poll_seconds
    let again = wait_with_watchdog fuel
    after_poll again ended

  -- Whether ffmpeg was started.
  unfoldable pub spawned : M H.State Bool
  spawned =
      catch (do P.spawn (ffmpeg_cmd camera out_dir segment_seconds); pure true)
        (λ e. branch (is_file_not_found e) (pure false) (throw e))

-- `pause` is `_stop.wait`.
module _ (H : Host) (P : Process H.State) (pause : ℤ → M H.State Bool) where
  -- What a round does after ffmpeg ended; `again` goes on with the next pause.
  unfoldable pub after_exit : ℤ → ℤ → (ℤ → M H.State Bool) → Option (Option ℤ) → M H.State Bool
  after_exit started backoff again none = pure false
  after_exit started backoff again (some rc) = do
    stopped ← P.is_stopping
    branch stopped (pure true) do
      ended ← H.monotonic
      let rest = after_run (ended -ℤ started) backoff
      stop ← pause rest
      branch stop (pure true) (again (doubled rest))

  -- The loop, on fuel for its rounds and, `polls`, for each wait: whether it came to its end.
  unfoldable pub run_camera : Camera → Text → ℤ → ℕ → ℕ → ℤ → M H.State Bool
  run_camera camera out_dir segment_seconds polls zero backoff = pure false
  run_camera camera out_dir segment_seconds polls (suc fuel) backoff = do
    stopping ← P.is_stopping
    let again = λ (b : ℤ). run_camera camera out_dir segment_seconds polls fuel b
    branch stopping (pure true) do
      started ← H.monotonic
      up ← spawned H P camera out_dir segment_seconds
      branch up
          (do
            rc ← wait_with_watchdog H P camera out_dir segment_seconds polls
            after_exit started backoff again rc)
          (pure true)
