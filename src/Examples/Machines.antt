-- ===== src/Examples/Machines.antt =====
-- A small machine with a gpg and an rclone of its own, and the data of the examples.
use videobackup.Base.{
  ℕ, true, false, List, [], ◌∷◌, Option, none, some, drop, ℤ, pos, ◌+ℤ◌, ◌-ℤ◌, ◌≤ℤ◌, int_laws,
  int_laws, leb_ℤ, Text, codes, same, same_refl, if◌then◌else◌, refl,
}
use videobackup.Base.Effects.{Outcome, ok, raised, value_error}
use videobackup.Base.Values.{int, list, dict, field, end}
use videobackup.Config.{Config, spool_encrypted, spool_raw}
use videobackup.Drive.Lines.{lines_of}
use videobackup.Drive.Quiet.{listing, IsRclone}
use videobackup.Drive.{expand_zulu}
use videobackup.Drive.Room.{FreesSpace}
use videobackup.Encrypt.{encrypted_name, part_name}
use videobackup.Encrypt.Safe.{IsGpg}
use videobackup.Host.{Completed}
use videobackup.Host.Memory.{World, Machine, set_dir, find_file, remove_file}
use videobackup.Retention.{RemoteFile, total_size}
use videobackup.Spool.Names.{without, find_file-remove_file}

abbrev pub file_of : Text → ℕ → ℕ → RemoteFile
file_of name size time = record { name = name; size = pos size; mod_time = pos time }

abbrev pub test_config : Config
test_config = record {
  udm_host = [];
  cameras = record { name = codes "door"; url = codes "rtsp://h/1" } ∷ [];
  gpg_recipient = codes "me";
  rclone_remote = codes "g";
  drive_folder = codes "f";
  max_drive_bytes = pos 100;
  local_spool = codes "s";
  segment_seconds = pos 300;
  max_age_days = pos 0;
  min_free_bytes = pos 40;
  batch_interval_seconds = pos 300;
  encrypt_interval_seconds = pos 20;
  upload_transfers = pos 4;
  upload_tpslimit = pos 0;
  upload_max_bytes = pos 40;
  max_spool_bytes = pos 50;
  use_trash = false;
}

abbrev pub spool_files : List RemoteFile
spool_files =
    file_of (codes "b.gpg") 30 5
    ∷ file_of (codes "a.gpg") 20 3
    ∷ file_of (codes "huge.gpg") 101 4
    ∷ file_of (codes "c.gpg") 10 9
    ∷ file_of (codes "d.gpg.part") 500 1
    ∷ []

abbrev pub raw_files : List RemoteFile
raw_files = file_of (codes "e.mp4") 10 5 ∷ file_of (codes "f.mp4") 10 99990000 ∷ []

abbrev pub remote_files : List RemoteFile
remote_files =
    file_of (codes "y.gpg") 30 2000000
    ∷ file_of (codes "x.gpg") 25 1000000
    ∷ file_of (codes "z.gpg") 20 3000000
    ∷ []

abbrev pub world : World
world = record {
  dirs = set_dir (codes "s/encrypted") spool_files (set_dir (codes "s/raw") raw_files (λ d. []));
  remote = remote_files;
  free = pos 60;
  temp = none;
  clock = pos 100000000;
  ticks = pos 0;
  stops = [];
}

-- The first three seconds of 1970.
abbrev pub stamp : ℤ → Text
stamp t =
    if leb_ℤ t (pos 1000000)
    then codes "1970-01-01T00:00:01Z"
    else if leb_ℤ t (pos 2000000)
    then codes "1970-01-01T00:00:02Z"
    else codes "1970-01-01T00:00:03Z"

abbrev pub read_stamp : Text → Outcome ℤ
read_stamp s =
    if same s (codes "1970-01-01T00:00:01+00:00")
    then ok (pos 1000000)
    else if same s (codes "1970-01-01T00:00:02+00:00")
    then ok (pos 2000000)
    else if same s (codes "1970-01-01T00:00:03+00:00")
    then ok (pos 3000000)
    else raised value_error

abbrev pub succeeded : Text → Completed
succeeded out = record { returncode = pos 0; stdout = out; stderr = [] }

abbrev pub lines_of_file : Option Text → List Text
lines_of_file none = []
lines_of_file (some s) = lines_of s

abbrev pub tenth : List Text → Text
tenth (_ ∷ _ ∷ _ ∷ _ ∷ _ ∷ _ ∷ _ ∷ _ ∷ _ ∷ _ ∷ tmp ∷ _) = tmp
tenth _ = []

abbrev pub written : Text → World → World
written name w = record w {
  dirs =
      set_dir (codes "s/encrypted")
        (file_of name 9 7 ∷ remove_file name (w.dirs (codes "s/encrypted"))) w.dirs;
}

-- gpg writes its output file; rclone lists, tells and deletes.
unfoldable pub run_tool : List Text → World → Completed × World
unfolding same set_dir remove_file
run_tool (tool ∷ command ∷ rest) w =
    if same tool (codes "gpg")
    then (succeeded [], written (drop 12 (tenth (tool ∷ command ∷ rest))) w)
    else if same command (codes "lsjson")
    then (succeeded (codes "L"), w)
    else if same command (codes "about")
    then (succeeded (codes "A"), w)
    else (
      succeeded [],
      record w {
        remote = without (lines_of_file w.temp) w.remote;
        free =
            w.free +ℤ (total_size w.remote -ℤ total_size (without (lines_of_file w.temp) w.remote));
      },
    )
run_tool _ w = (succeeded [], w)

abbrev pub machine : Machine
machine = record {
  refuses = λ directory name. false;
  installed = λ tool. true;
  run = run_tool;
  loads = λ s.
      if same s (codes "L")
      then ok (list (listing stamp remote_files))
      else ok (dict (field (codes "free") (int (pos 60)) end));
  fromisoformat = read_stamp;
}

pub gpg : IsGpg machine test_config
unfolding run_tool same set_dir spool_encrypted spool_raw
gpg = record {
  leaves_raw = λ name n w. refl;
  leaves_others = λ name n w h.
      unfold find_file in
      rw h (
        find_file-remove_file n (part_name (encrypted_name name)) (w.dirs (codes "s/encrypted")) h);
  writes =
      λ name w h. unfold find_file in rw (same_refl (part_name (encrypted_name name))) (λ e. cc);
}

freed : (a b c : ℤ) → a +ℤ b ≤ℤ a +ℤ (b -ℤ c) +ℤ c
freed a b c = omega int_laws

pub rclone-FreesSpace : FreesSpace machine test_config world
unfolding run_tool same
rclone-FreesSpace no_trash contents = freed (pos 60) _ _

pub rclone : IsRclone machine test_config world
unfolding run_tool same
rclone = record {
  installed = refl;
  stamp = stamp;
  reads_stamps = unfold expand_zulu in (refl, (refl, (refl, tt)));
  lists = refl;
  lists_all = refl;
  lists_only = refl;
  tells = refl;
  tells_free = refl;
  tells_only = refl;
  deletes = λ contents. refl;
  deletes_lines = λ contents h. refl;
}
