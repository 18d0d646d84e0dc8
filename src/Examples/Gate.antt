-- ===== src/Examples/Gate.antt =====
-- A round of the upload loop on a machine whose rclone moves two files into the folder.
use videobackup.Base.{
  ◌≡◌, refl, List, [], ◌∷◌, ◌++◌, pos, ◌+ℤ◌, ◌≤ℤ◌, int_laws, Text, codes, same, is_among,
  if◌then◌else◌, arith,
}
use videobackup.Config.{spool_encrypted, upload_slice_bytes}
use videobackup.Drive.{expand_zulu}
use videobackup.Drive.Quiet.{IsRclone}
use videobackup.Host.{Completed}
use videobackup.Host.Memory.{World, Machine, memory, set_dir}
use videobackup.Main.{upload_queued}
use videobackup.Main.Gate.{reserve, pruned, upload_queued-gate}
use videobackup.Rclone.{classify}
use videobackup.Retention.{RemoteFile, total_size}
use videobackup.Spool.Names.{without}
use videobackup.Spool.Quiet.{matching}
use videobackup.Uploader.Moved.{IsMove, among, after, moved_bytes}
use videobackup.Uploader.{move_args}
use videobackup.Examples.{remote_distinct, plain}
use videobackup.Examples.Machines.{machine, run_tool, stamp, succeeded, test_config, world}
use videobackup.Examples.Uploading.{moved_names}

abbrev moved_world : World → World
moved_world w = record w {
  dirs =
      set_dir (codes "s/encrypted") (without moved_names (w.dirs (codes "s/encrypted")) ++ [])
        w.dirs;
  remote = w.remote ++ among moved_names (matching (codes "*.gpg") (w.dirs (codes "s/encrypted")));
}

abbrev run_courier : List Text → World → Completed × World
run_courier (tool ∷ command ∷ rest) w =
    if same command (codes "move")
    then (succeeded [], moved_world w)
    else run_tool (tool ∷ command ∷ rest) w
run_courier _ w = (succeeded [], w)

abbrev courier : Machine
courier = record machine { run = run_courier }

courier-IsRclone : IsRclone courier test_config world
unfolding run_tool same
courier-IsRclone = record {
  installed = refl;
  stamp = stamp;
  reads_stamps = unfold expand_zulu in (refl, (refl, (refl, tt)));
  lists = refl;
  lists_all = refl;
  lists_only = refl;
  tells = refl;
  tells_free = refl;
  tells_only = refl;
  deletes = λ contents. refl;
  deletes_lines = λ contents h. refl;
}

total_size-append :
    (xs ys : List RemoteFile) → total_size (xs ++ ys) ≡ total_size xs +ℤ total_size ys
unfolding total_size
total_size-append [] ys = omega int_laws
total_size-append (x ∷ xs) ys = rw (total_size-append xs ys) (omega int_laws)

courier-IsMove : (w : World) → IsMove courier test_config w moved_names []
unfolding same set_dir spool_encrypted is_among classify move_args
courier-IsMove w = record { installed = refl; grant = refl; leaves = refl; fresh_names = tt }

abbrev before : World
before = pruned courier test_config world (pos 60)

courier-lands :
    (w : World)
    → total_size (after courier test_config w).remote
      ≤ℤ total_size w.remote +ℤ moved_bytes courier test_config w moved_names
unfolding same move_args spool_encrypted
courier-lands w =
    rw
      (total_size-append w.remote
        (among moved_names (matching (codes "*.gpg") (w.dirs (codes "s/encrypted")))))
      (omega int_laws)

upload_queued-gate_example :
    total_size (upload_queued (memory courier) test_config (pos 0) (pos 60) world).1.remote
      +ℤ reserve courier test_config world (pos 60)
    ≤ℤ pos 100 +ℤ moved_bytes courier test_config before moved_names
unfolding upload_slice_bytes
upload_queued-gate_example =
    upload_queued-gate courier test_config world (pos 60) courier-IsRclone remote_distinct plain
      (omega arith) (omega arith) (omega arith) moved_names [] (courier-IsMove before)
      (courier-lands before) (pos 0)
