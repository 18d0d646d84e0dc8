-- ===== src/Examples/Ending.antt =====
-- The loops' ends on the small machine, whose stop event is set after two questions.
use videobackup.Base.{
  arith, true, false, List, [], ◌∷◌, Text, codes, same, refl, ◌≡◌, if◌then◌else◌, Bool,
}
use videobackup.Base.Lists.{length}
use videobackup.Base.Effects.{ok}
use videobackup.Host.Memory.{World, memory}
use videobackup.Host.{Completed}
use videobackup.Host.Stops.{StopsInTheEnd, memory-StopsInTheEnd}
use videobackup.Main.{run_batch_loop, encrypt_rounds, run_upload_loop}
use videobackup.Main.Footage.{NoLoss, encrypt_rounds-NoLoss}
use videobackup.Main.Stop.{loops-stop}
use videobackup.Examples.Machines.{gpg, machine, run_tool, test_config, world}

if_keeps_stops :
    (b : Bool) (x y : Completed × World) (w : World)
    → x.1.stops ≡ w.stops
    → y.1.stops ≡ w.stops
    → (if b then x else y).1.stops ≡ w.stops
if_keeps_stops true x y w hx hy = hx
if_keeps_stops false x y w hx hy = hy

run_tool-stops : (argv : List Text) (w : World) → (run_tool argv w).1.stops ≡ w.stops
unfolding run_tool
run_tool-stops [] w = refl
run_tool-stops (tool ∷ []) w = refl
run_tool-stops (tool ∷ command ∷ rest) w = if_keeps_stops (same tool (codes "gpg")) _ _ w refl (
    if_keeps_stops (same command (codes "lsjson")) _ _ w refl
      (if_keeps_stops (same command (codes "about")) _ _ w refl refl))

abbrev pub two_rounds : World
two_rounds = record world { stops = false ∷ false ∷ [] }

pub machine-StopsInTheEnd : StopsInTheEnd (memory machine) (λ w. length w.stops)
machine-StopsInTheEnd = memory-StopsInTheEnd machine run_tool-stops

loops-stop_example :
    ((run_batch_loop (memory machine) 3 test_config two_rounds).0 ≡ ok true)
    × ((encrypt_rounds (memory machine) 3 test_config two_rounds).0 ≡ ok true)
    × ((run_upload_loop (memory machine) 3 test_config two_rounds).0 ≡ ok true)
loops-stop_example =
    loops-stop (memory machine) test_config (λ w. length w.stops) machine-StopsInTheEnd 3 two_rounds
      (omega arith)

encrypt_rounds-NoLoss_example :
    NoLoss test_config two_rounds (encrypt_rounds (memory machine) 3 test_config two_rounds).1
encrypt_rounds-NoLoss_example = encrypt_rounds-NoLoss machine test_config gpg two_rounds 3
