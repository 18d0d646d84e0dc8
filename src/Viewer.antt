-- ===== src/Viewer.antt =====
-- videobackup/viewer.py: the decryption of a clip into a temporary file, and the handlers of the
-- window, on a screen: the attributes of the window's object, the threads that decrypt, the callbacks
-- that wait for the window's thread, the message boxes that were shown, and the temporary files on
-- disk. Callbacks and clicks take their turns while a message box is shown: what comes after it is a
-- step of its own.
pub mod Layout
pub mod System
pub mod Files
pub mod Handlers
pub mod Closing
pub mod Threads
pub mod Leak
pub mod Kept
pub mod Turns
pub mod Owned
pub mod Format
unfoldable pub use Layout.*
use videobackup.Base.{Bool, true, false, not, List, [], ◌∷◌, ◌++◌, Option, none, some, ◌==◌}
use videobackup.Base.{ℕ, suc, filter_by, same, Text, codes, if◌then◌else◌}
use videobackup.Base.Effects.{
  M, pure, throw, catch, branch, attempt, lift, ◌>>=◌, ◌>>◌, Exn, Outcome, ok, raised, os_error,
  file_not_found, runtime_error, is_os_error, is_runtime_error, is_import_error,
}
use videobackup.Base.Values.{strip}
use videobackup.Config.{join}
use videobackup.Drive.{is_zero}
use videobackup.Host.{Completed}

module _ (e : Env) where
  unfoldable pub make_temp : Text → M Screen Text
  make_temp suffix = do
    tmp ← lift (e.fresh suffix)
    λ s. (ok tmp, record s { files = tmp ∷ s.files })

  -- `tmp.unlink(missing_ok=True)`
  unfoldable pub unlink_temp : Text → M Screen (Unit {0})
  unlink_temp tmp s =
      if e.refuses tmp
      then (raised os_error, s)
      else (ok tt, record s { files = filter_by (λ f. not (same f tmp)) s.files })

  -- What the error says, where gpg says nothing.
  abbrev pub failure_of : Text → Text
  failure_of stderr = if is_empty (strip stderr) then codes "gpg decrypt failed" else strip stderr

  -- After gpg has run.
  unfoldable pub check_decrypted : Text → Completed → M Screen Text
  check_decrypted tmp result =
      branch (is_zero result.returncode) (pure tmp)
        do unlink_temp tmp; throw (runtime_error (failure_of result.stderr))

  -- `decrypt_to_temp` after its temporary file is made.
  unfoldable pub decrypt_into : Clip → Text → M Screen Text
  decrypt_into src tmp = do result ← lift (e.gpg (decrypt_args tmp src)); check_decrypted tmp result

  unfoldable pub decrypt_to_temp : Clip → M Screen Text
  decrypt_to_temp src = do tmp ← make_temp (temp_suffix src.name); decrypt_into src tmp

  -- `root.after(0, callback)`, from a thread: it raises once the window's main loop is over.
  unfoldable pub post : Callback → M Screen (Unit {0})
  post callback s =
      if s.is_open
      then (ok tt, record s { queue = s.queue ++ callback ∷ [] })
      else (raised (runtime_error (codes "main thread is not in main loop")), s)

  unfoldable pub post_result : Outcome Text → M Screen (Unit {0})
  post_result (ok plain) = post (play_file plain)
  post_result (raised exn) = post (show_failure exn)

  unfoldable pub decrypt_worker : Clip → M Screen (Unit {0})
  decrypt_worker src = do result ← attempt (decrypt_to_temp src); post_result result

  abbrev pub set_status : Text → M Screen (Unit {0})
  set_status text s = (ok tt, record s { status = text })

  -- `messagebox.showerror(title, message)`
  abbrev pub show_error : Text → Text → M Screen (Unit {0})
  show_error title message s = (ok tt, record s { boxes = (title, message) ∷ s.boxes })

  -- `str(exc)`
  abbrev pub str_of : Exn → Text
  str_of (runtime_error message) = message
  str_of exn = e.describe exn

  abbrev pub start_thread : Clip → M Screen (Unit {0})
  start_thread src = do
    lift e.starts_thread
    λ s. (ok tt, record s { workers = s.workers ++ waiting src ∷ [] })

  unfoldable pub load : Clip → M Screen (Unit {0})
  load src =
      branch (e.exists src) (do set_status (decrypting_text src.name); start_thread src)
        (show_error (codes "Not found") (codes "No such file:\n" ++ join src.directory src.name))

  -- The dialog gives a clip, or nothing where it was left.
  unfoldable pub open_dialog : Option Clip → M Screen (Unit {0})
  open_dialog none = pure tt
  open_dialog (some src) = load src

  abbrev pub set_tmp : Option Text → M Screen (Unit {0})
  set_tmp tmp s = (ok tt, record s { tmp = tmp })

  -- An `OSError` is logged.
  unfoldable pub discard_found : Option Text → M Screen (Unit {0})
  discard_found none = pure tt
  discard_found (some tmp) = do
    catch (unlink_temp tmp) (λ exn. branch (is_os_error exn) (pure tt) (throw exn))
    set_tmp none

  unfoldable pub discard_tmp : M Screen (Unit {0})
  discard_tmp s = discard_found s.tmp s

  abbrev pub set_player : Option Player → M Screen (Unit {0})
  set_player player s = (ok tt, record s { player = player })

  -- Where python-mpv is missing, the error says what to install.
  unfoldable pub require_mpv : M Screen (Unit {0})
  require_mpv =
      catch (lift e.imports_mpv)
        (λ exn. branch (is_import_error exn) (throw (runtime_error mpv_missing)) (throw exn))

  unfoldable pub ensure_player_from : Option Player → M Screen Player
  ensure_player_from (some player) = pure player
  ensure_player_from none = do
    require_mpv
    lift e.makes_player
    let player : Player = record { paused = false; playing = none }
    set_player (some player)
    pure player

  unfoldable pub ensure_player : M Screen Player
  ensure_player s = ensure_player_from s.player s

  -- `_play` waits until its message box is closed.
  abbrev pub await_box : M Screen (Unit {0})
  await_box s = (ok tt, record s { unread = suc s.unread })

  -- Where its box is closed, `_play` goes on; `others` still wait for theirs.
  abbrev pub close_box : ℕ → M Screen (Unit {0})
  close_box others s = discard_tmp (record s { unread = others })

  -- After the player was made, or failed to be: `RuntimeError` is shown.
  unfoldable pub play_with : Text → Outcome Player → M Screen (Unit {0})
  play_with plain (ok player) = do
    lift (e.plays plain)
    set_player (some (record player { playing = some plain }))
    set_status (playing_text (base_name plain))
  play_with plain (raised exn) =
      branch (is_runtime_error exn)
        (do
          set_status (codes "mpv unavailable")
          show_error (codes "mpv unavailable") (str_of exn)
          await_box)
        (throw exn)

  unfoldable pub play : Text → M Screen (Unit {0})
  play plain = do
    discard_tmp
    set_tmp (some plain)
    player ← attempt ensure_player
    play_with plain player

  abbrev pub paused_or_not : Player → Player
  paused_or_not p = record p { paused = not p.paused }

  unfoldable pub toggle_found : Option Player → M Screen (Unit {0})
  toggle_found none = pure tt
  toggle_found (some player) = do lift e.pauses; set_player (some (paused_or_not player))

  unfoldable pub toggle_pause : M Screen (Unit {0})
  toggle_pause s = toggle_found s.player s

  unfoldable pub stop_found : Option Player → M Screen (Unit {0})
  stop_found none = pure tt
  stop_found (some player) = do
    lift e.stops_player
    set_player (some (record player { playing = none }))

  unfoldable pub stop : M Screen (Unit {0})
  stop = do (λ s. stop_found s.player s); set_status (codes "Stopped."); discard_tmp

  unfoldable pub end_found : Option Player → M Screen (Unit {0})
  end_found none = pure tt
  end_found (some player) = do lift e.ends_player; set_player none

  -- The window is gone, and with it the queue's turn.
  unfoldable pub on_close : M Screen (Unit {0})
  on_close = do (λ s. end_found s.player s); discard_tmp; λ s. (ok tt, record s { is_open = false })

  unfoldable pub decrypt_failed : Exn → M Screen (Unit {0})
  decrypt_failed exn = do
    set_status (codes "Decryption failed")
    show_error (codes "Decryption failed") (str_of exn)

  -- The turn of a callback in the window's thread.
  unfoldable pub run_callback : Callback → M Screen (Unit {0})
  run_callback (play_file plain) = play plain
  run_callback (show_failure exn) = decrypt_failed exn

  -- The turn of the clip that was given at the start.
  unfoldable pub load_preselected : Clip → M Screen (Unit {0})
  load_preselected src s = load src (record s { preselected = none })

  -- A click, where the dialog gives `chosen`.
  unfoldable pub handle : Option Clip → Handler → M Screen (Unit {0})
  handle chosen opens_dialog = open_dialog chosen
  handle chosen toggles_pause = toggle_pause
  handle chosen stops_clip = stop
  handle chosen closes_window = on_close

-- The window as `__init__` leaves it, with no temporary file.
abbrev pub initial : Option Clip → Screen
initial chosen = record {
  tmp = none;
  player = none;
  is_open = true;
  preselected = chosen;
  status = codes "Open an encrypted clip to begin.";
  boxes = [];
  unread = 0;
  workers = [];
  queue = [];
  files = [];
}

-- `Path(args.file) if args.file else None`; `to_path` is `pathlib.Path`.
unfoldable pub file_argument : (Text → Clip) → Option Text → Option Clip
file_argument to_path none = none
file_argument to_path (some file) = if is_empty file then none else some (to_path file)

-- The window that `main` opens, for the argument that argparse has found.
unfoldable pub run_viewer : (Text → Clip) → Option Text → Screen
run_viewer to_path file = initial (file_argument to_path file)
