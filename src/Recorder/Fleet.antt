-- ===== src/Recorder/Fleet.antt =====
-- videobackup/recorder.py: the start and the stop of a camera's recorder, and the recorders of all
-- cameras. The thread of a recorder runs `run_camera`; here it is an operation that starts it.
pub mod Stopped
use videobackup.Base.{
  ℕ, zero, suc, Bool, true, false, List, [], ◌∷◌, ℤ, pos, Text, codes, if◌then◌else◌,
}
use videobackup.Base.Effects.{
  M, pure, throw, branch, finally, ◌>>=◌, ◌>>◌, runtime_error, attempt, lift,
}
use videobackup.Config.{Config, Camera}
use videobackup.Host.{Host}
use videobackup.Main.{ensure_spool_dirs}

-- What the program asks of its threads, of the processes that they hold, and of the system's signals.
pub record Threads (S : Type 0) : Type 0 where
  -- `_thread.start()` of a camera's recorder.
  pub start : Camera → M S (Unit {0})
  -- `_stop.set()`
  pub set_stop : Camera → M S (Unit {0})
  -- `proc and proc.poll() is None`, and `proc.terminate()`.
  pub is_running : Camera → M S Bool
  pub terminate : Camera → M S (Unit {0})
  -- `_thread.join(timeout)`
  pub join : Camera → ℤ → M S (Unit {0})
  -- A worker's `start()`, by the name of its thread.
  pub start_worker : Text → M S (Unit {0})
  -- SIGINT and SIGTERM set the stop event from now on.
  pub install_handlers : M S (Unit {0})

module _ (H : Host) (T : Threads H.State) where
  unfoldable pub stop_camera : Camera → M H.State (Unit {0})
  stop_camera camera = do
    T.set_stop camera
    running ← T.is_running camera
    branch running (T.terminate camera) (pure tt)
    T.join camera (pos 15)

  unfoldable pub stop_cameras : List Camera → M H.State (Unit {0})
  stop_cameras [] = pure tt
  stop_cameras (camera ∷ cameras) = do stop_camera camera; stop_cameras cameras

  -- The recorders that were started, in order.
  unfoldable pub start_cameras : List Camera → M H.State (List Camera)
  start_cameras [] = pure []
  start_cameras (camera ∷ cameras) = do
    T.start camera
    rest ← start_cameras cameras
    pure (camera ∷ rest)

  -- What `run_forever` does before its loop; `own` says that no stop event was given to it.
  unfoldable pub begin_recording : Bool → Config → M H.State (List Camera)
  begin_recording own config = do
    found ← H.which (codes "ffmpeg")
    branch found
        (do
          ensure_spool_dirs H config
          recorders ← start_cameras config.cameras
          branch own T.install_handlers (pure tt)
          pure recorders)
        (throw (runtime_error (codes "ffmpeg is not installed or not on PATH")))

  -- `while not stop.wait(1.0)`, on fuel: `false` says that it ran out.
  unfoldable pub wait_until_stopped : ℕ → M H.State Bool
  wait_until_stopped zero = pure false
  wait_until_stopped (suc fuel) = do
    stopped ← H.wait (pos 1)
    let again = wait_until_stopped fuel
    branch stopped (pure true) again

  unfoldable pub run_forever : ℕ → Bool → Config → M H.State Bool
  run_forever fuel own config = do
    recorders ← begin_recording own config
    finally (wait_until_stopped fuel) (stop_cameras recorders)
