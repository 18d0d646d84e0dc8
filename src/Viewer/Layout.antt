-- ===== src/Viewer/Layout.antt =====
-- The window of videobackup/viewer.py as data: its screen, its threads and their callbacks, what it
-- shows, and what the system answers.
use videobackup.Base.{ℕ, Bool, true, false, List, [], ◌∷◌, ◌++◌, Option, none, some, ◌==◌}
use videobackup.Base.{Text, codes, if◌then◌else◌}
use videobackup.Base.Effects.{Exn, Outcome}
use videobackup.Config.{join}
use videobackup.Host.{Completed}

-- A path, as a directory and a name.
pub record Clip : Type 0 where
  pub directory : Text
  pub name : Text

-- `name.rpartition(".")` where there is a dot: what stands before the last one, and behind it.
unfoldable pub split_at_last_dot : Text → Option (Text × Text)
split_at_last_dot [] = none
split_at_last_dot (c ∷ s) = elim (split_at_last_dot s) [
  | some (head, tail) ↦ some (c ∷ head, tail)
  | none ↦ if c == b'.' then some ([], s) else none
]

abbrev pub is_empty : Text → Bool
is_empty [] = true
is_empty (c ∷ s) = false

-- `path.stem` and `path.suffix`, of a name: a dot that is the first or the last character does not
-- count.
unfoldable pub stem_and_suffix : Text → Text × Text
stem_and_suffix name = elim (split_at_last_dot name) [
  | none ↦ (name, [])
  | some (head, tail) ↦
      if is_empty head
      then (name, [])
      else if is_empty tail
      then (name, [])
      else (head, b'.' ∷ tail)
]

-- `Path(src.stem).suffix or ".mp4"`
unfoldable pub temp_suffix : Text → Text
temp_suffix name =
    let suffix = (stem_and_suffix (stem_and_suffix name).0).1 in
    if is_empty suffix then codes ".mp4" else suffix

abbrev pub decrypt_args : Text → Clip → List Text
decrypt_args tmp src =
    codes "gpg"
    ∷ codes "--batch"
    ∷ codes "--yes"
    ∷ codes "--quiet"
    ∷ codes "--decrypt"
    ∷ codes "--output"
    ∷ tmp
    ∷ join src.directory src.name
    ∷ []

-- The mpv player, from the window's side: whether it is told to pause, and the file that it was last
-- told to play, until it is told to stop.
pub record Player : Type 0 where
  pub paused : Bool
  pub playing : Option Text

-- A thread of `_decrypt_worker`: before its temporary file is made, and while gpg runs.
pub data Worker : Type 0 where
  waiting : Clip → Worker
  decrypting : Clip → Text → Worker

-- The commands of the window's buttons, and of its close button.
pub data Handler : Type 0 where
  opens_dialog toggles_pause stops_clip closes_window : Handler

-- The window that `__init__` builds: its buttons with their commands.
pub record Window : Type 0 where
  pub title : Text
  pub geometry : Text
  pub on_delete : Handler
  pub buttons : List (Text × Handler)

abbrev pub window : Window
window = record {
  title = codes "videobackup — decrypt & view";
  geometry = codes "960x600";
  on_delete = closes_window;
  buttons =
      (codes "Open .gpg…", opens_dialog)
      ∷ (codes "Play / Pause", toggles_pause)
      ∷ (codes "Stop", stops_clip)
      ∷ [];
}

-- What a thread hands to `root.after`.
pub data Callback : Type 0 where
  play_file : Text → Callback
  show_failure : Exn → Callback

-- The clip that `__init__` is given waits in `preselected` for its turn; `boxes` are the message
-- boxes so far, each with its title and its text, the last one first. `unread` counts the calls of
-- `_play` that wait for their message box to be closed, while other callbacks run.
pub record Screen : Type 0 where
  pub tmp : Option Text
  pub player : Option Player
  pub is_open : Bool
  pub preselected : Option Clip
  pub status : Text
  pub boxes : List (Text × Text)
  pub unread : ℕ
  pub workers : List Worker
  pub queue : List Callback
  pub files : List Text

-- What the system answers during one step: which files exist, the name of a fresh temporary file for
-- a suffix, how gpg ends, which deletions are refused, whether a thread starts, python-mpv can be
-- imported and its player be made, told to play, pause or stop, and ended, and what other exceptions
-- say.
pub record Env : Type 0 where
  pub exists : Clip → Bool
  pub fresh : Text → Outcome Text
  pub gpg : List Text → Outcome Completed
  pub refuses : Text → Bool
  pub imports_mpv : Outcome (Unit {0})
  pub makes_player : Outcome (Unit {0})
  pub plays : Text → Outcome (Unit {0})
  pub starts_thread : Outcome (Unit {0})
  pub pauses : Outcome (Unit {0})
  pub stops_player : Outcome (Unit {0})
  pub ends_player : Outcome (Unit {0})
  pub describe : Exn → Text

-- `path.name`, of a path as a text.
unfoldable pub after_slash : Text → Option Text
after_slash [] = none
after_slash (c ∷ s) = elim (after_slash s) [
  | some name ↦ some name
  | none ↦ if c == b'/' then some s else none
]

unfoldable pub base_name : Text → Text
base_name path = elim (after_slash path) [ some name ↦ name | none ↦ path ]

abbrev pub decrypting_text : Text → Text
decrypting_text name = codes "Decrypting " ++ (name ++ codes "…")

abbrev pub playing_text : Text → Text
playing_text name = codes "Playing (decrypted to a temp file): " ++ name

abbrev pub mpv_missing : Text
mpv_missing =
    codes "python-mpv is not installed. Install the GUI extra:\n"
    ++ (codes "    uv sync --extra gui        (or: pip install -e '.[gui]')\n"
        ++ codes "and the libmpv system library (e.g. 'sudo apt install mpv libmpv2').")
