-- ===== src/Host.antt =====
-- What the program asks of the machine that it runs on: Python's library for files, clocks and
-- processes, and through the latter gpg and rclone. A host's operations take and return its state,
-- so the steps of other threads and processes between two calls are steps of the operations.
-- Each may raise; `json.loads` and `datetime.fromisoformat` are functions of the library.
use videobackup.Base.{Bool, List, ℤ, Text}
use videobackup.Base.Effects.{M, Outcome}
use videobackup.Base.Values.{Value}
pub mod Memory
pub mod Frame
pub mod Stops
pub mod Quiet
pub mod Shared

-- Of `os.stat_result`: `st_size`, and `st_mtime` in microseconds.
pub record Stat : Type 0 where
  pub size : ℤ
  pub mtime : ℤ

-- A `subprocess.CompletedProcess`.
pub record Completed : Type 0 where
  pub returncode : ℤ
  pub stdout : Text
  pub stderr : Text

pub record Host : Type 1 where
  pub State : Type 0
  -- The names in a directory that match a pattern, in some order.
  pub glob : Text → Text → M State (List Text)
  -- These take a directory and a name in it.
  pub stat : Text → Text → M State Stat
  pub unlink : Text → Text → M State (Unit {0})
  pub exists : Text → Text → M State Bool
  -- `(directory / name).replace(directory / new_name)`
  pub replace : Text → Text → Text → M State (Unit {0})
  -- `mkdir(parents=True, exist_ok=True)`
  pub mkdir : Text → M State (Unit {0})
  -- A fresh file that holds the text, and its path; and its removal.
  pub write_temp : Text → M State Text
  pub unlink_temp : Text → M State (Unit {0})
  -- `shutil.which(tool) is not None`
  pub which : Text → M State Bool
  -- The clock and the monotonic clock, in microseconds.
  pub now : M State ℤ
  pub monotonic : M State ℤ
  -- `subprocess.run(argv)` to its end.
  pub run : List Text → M State Completed
  -- `stop.is_set()`, and `stop.wait(seconds)` of the event that ends the loops.
  pub is_stopped : M State Bool
  pub wait : ℤ → M State Bool
  pub loads : Text → Outcome Value
  pub fromisoformat : Text → Outcome ℤ
