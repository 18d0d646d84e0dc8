-- ===== src/Examples/Commands.antt =====
-- The commands on the small machine, whose threads note in two directories which recorders were told
-- to stop and which processes were signalled.
use videobackup.Base.{
  arith, true, false, not, Bool, List, ◌∷◌, pos, Text, codes, same, same_refl, is_among, All, refl,
  ◌≡◌,
}
use videobackup.Base.Effects.{M, ok, Outcome}
use videobackup.Config.{Camera}
use videobackup.Host.Memory.{World, memory, set_dir}
use videobackup.Main.{ensure_spool_dirs}
use videobackup.Spool.Names.{names_of}
use videobackup.Recorder.Fleet.{
  Threads, run_forever, begin_recording, start_cameras, wait_until_stopped,
}
use videobackup.Recorder.Fleet.Stopped.{ThreadLaws, StopsKeep, run_forever-stops_all}
use videobackup.Base.{some, ◌↔◌}
use videobackup.Base.Lists.{length}
use videobackup.Base.Values.{Value, text}
use videobackup.Config.Load.{load_config}
use videobackup.Command.{Args, main, start_with, exit_config, exit_auth, run_command}
use videobackup.Command.Exits.{IsRejected, StopsAtGrant, main-exit_codes, main-batch_loop}
use videobackup.Examples.Settings.{python, settings, two_cameras, expected, loaded}
use videobackup.Examples.Ending.{two_rounds, machine-StopsInTheEnd}
use videobackup.Examples.Machines.{machine, file_of, test_config, world}

abbrev note : Text → Camera → M World (Unit {0})
note d camera w = (ok tt, record w { dirs = set_dir d (file_of camera.name 0 0 ∷ w.dirs d) w.dirs })

abbrev IsNoted : Text → Camera → World → Type 0
IsNoted d camera w = is_among camera.name (names_of (w.dirs d)) ≡ true

abbrev told : Text
told = codes "told"

abbrev down : Text
down = codes "down"

abbrev threads : Threads World
threads = record {
  start = λ camera w. (ok tt, w);
  set_stop = note told;
  is_running = λ camera w. (ok (not (is_among camera.name (names_of (w.dirs down)))), w);
  terminate = note down;
  join = λ camera seconds w. (ok tt, w);
  start_worker = λ name w. (ok tt, w);
  install_handlers = λ w. (ok tt, w);
}

is_among_cons : (n m : Text) (ns : List Text) → is_among n ns ≡ true → is_among n (m ∷ ns) ≡ true
unfolding is_among
is_among_cons n m ns h = ground arith

told_stays : (d : Camera) → StopsKeep threads (IsNoted told d)
unfolding set_dir same
told_stays d = record {
  set_stop = λ c. record { at = λ w h. is_among_cons d.name c.name (names_of (w.dirs told)) h };
  is_running = λ c. record { at = λ w h. h };
  terminate = λ c. record { at = λ w h. h };
  join = λ c seconds. record { at = λ w h. h };
}

down_stays : (d : Camera) → StopsKeep threads (IsNoted down d)
unfolding set_dir same
down_stays d = record {
  set_stop = λ c. record { at = λ w h. h };
  is_running = λ c. record { at = λ w h. h };
  terminate = λ c. record { at = λ w h. is_among_cons d.name c.name (names_of (w.dirs down)) h };
  join = λ c seconds. record { at = λ w h. h };
}

was_noted : (b : Bool) → not b ≡ false → b ≡ true
was_noted true e = refl
was_noted false e = cc

laws : ThreadLaws threads (IsNoted told) (IsNoted down)
unfolding set_dir same is_among
laws = record {
  sets = λ c w. rw (same_refl c.name) refl;
  answers = λ c w e. was_noted (is_among c.name (names_of (w.dirs down))) e;
  signals = λ c w. rw (same_refl c.name) refl;
  joins = λ c seconds w. tt;
  stays_told = told_stays;
  stays_down = down_stays;
}

run_forever-stops_all_example :
    All
      (λ c.
        IsNoted down c (run_forever (memory machine) threads 2 true test_config world).1
        × IsNoted told c (run_forever (memory machine) threads 2 true test_config world).1)
      test_config.cameras
    × ((run_forever (memory machine) threads 2 true test_config world).0
        ≡ (wait_until_stopped
            (memory machine)
            threads
            2
            (begin_recording (memory machine) threads true test_config world).1).0)
unfolding begin_recording start_cameras ensure_spool_dirs
run_forever-stops_all_example =
    run_forever-stops_all (memory machine) threads (IsNoted told) (IsNoted down) laws 2 true
      test_config world test_config.cameras refl

abbrev pub command_of : Text → Args
command_of command = record { config = codes "c"; command = command }

abbrev file : Outcome Value
file = ok (settings (text (codes " 1_00 ")) two_cameras)

main-exit_codes_example :
    (((main (memory machine) threads 3 python (command_of (codes "batch")) true file world).0
        ≡ ok (some exit_config))
      ↔ IsRejected (load_config python (codes "c") true file))
    × (((main (memory machine) threads 3 python (command_of (codes "batch")) true file world).0
          ≡ ok (some exit_auth))
        ↔ StopsAtGrant
            (λ config. run_command (memory machine) threads 3 config (codes "batch"))
            (same (codes "batch") (codes "check"))
            world
            (load_config python (codes "c") true file))
main-exit_codes_example =
    main-exit_codes (memory machine) threads 3 python (command_of (codes "batch")) true file world

main-batch_loop_example :
    (main
      (memory machine)
      threads
      3
      python
      (command_of (codes "batch-loop"))
      true
      file
      two_rounds).0
    ≡ ok (some (pos 0))
main-batch_loop_example =
    main-batch_loop (memory machine) threads 3 python (command_of (codes "batch-loop")) true file
      two_rounds (λ w. length w.stops) machine-StopsInTheEnd expected loaded refl refl (omega arith)

-- A file that is not there: exit code 2.
no_file :
    (main (memory machine) threads 3 python (command_of (codes "batch")) false file world).0
    ≡ ok (some exit_config)
unfolding main start_with load_config
no_file = refl
