-- ===== src/Examples/Encrypting.antt =====
-- The encryption of the closed segments on the small machine.
use videobackup.Base.{
  some, ◌-ℤ◌, ◌≡◌, refl, true, false, Bool, List, [], ◌∷◌, Text, codes, same, if◌then◌else◌,
}
use videobackup.Config.{spool_raw}
use videobackup.Encrypt.{encrypt_pending}
use videobackup.Encrypt.Open.{encrypt_pending-open}
use videobackup.Encrypt.Finish.{Works, IsDone}
use videobackup.Host.{Completed}
use videobackup.Host.Memory.{World, memory, find_file, set_dir, glob_match}
use videobackup.Main.Progress.{encrypt_pending-IsDone}
use videobackup.Examples.Machines.{gpg, machine, run_tool, test_config, world, file_of}

if_same_raw :
    (b : Bool) (x y : Completed × World) (w : World)
    → x.1.dirs (codes "s/raw") ≡ w.dirs (codes "s/raw")
    → y.1.dirs (codes "s/raw") ≡ w.dirs (codes "s/raw")
    → (if b then x else y).1.dirs (codes "s/raw") ≡ w.dirs (codes "s/raw")
if_same_raw true x y w hx hy = hx
if_same_raw false x y w hx hy = hy

run_tool-raw :
    (argv : List Text) (w : World)
    → (run_tool argv w).1.dirs (codes "s/raw") ≡ w.dirs (codes "s/raw")
unfolding run_tool set_dir same
run_tool-raw [] w = refl
run_tool-raw (tool ∷ []) w = refl
run_tool-raw (tool ∷ command ∷ rest) w = if_same_raw (same tool (codes "gpg")) _ _ w refl (
    if_same_raw (same command (codes "lsjson")) _ _ w refl
      (if_same_raw (same command (codes "about")) _ _ w refl refl))

machine-Works : Works machine test_config
unfolding run_tool same
machine-Works = record { gpg = gpg; succeeds = λ name w. refl; deletes = λ name. refl }

encrypt_pending-IsDone_example :
    IsDone test_config (codes "e.mp4") (encrypt_pending (memory machine) test_config world).1
unfolding glob_match find_file set_dir same spool_raw ◌-ℤ◌
encrypt_pending-IsDone_example =
    encrypt_pending-IsDone machine test_config machine-Works
      (λ argv w n. rw (run_tool-raw argv w) refl) world (codes "e.mp4")
      (file_of (codes "e.mp4") 10 5) refl refl refl refl

encrypt_pending-open_example :
    find_file
      (codes "f.mp4")
      ((encrypt_pending (memory machine) test_config world).1.dirs (spool_raw test_config))
    ≡ some (file_of (codes "f.mp4") 10 99990000)
unfolding find_file set_dir same spool_raw ◌-ℤ◌
encrypt_pending-open_example =
    encrypt_pending-open machine test_config (λ argv w n. rw (run_tool-raw argv w) refl)
      (codes "f.mp4") (file_of (codes "f.mp4") 10 99990000) world refl refl
