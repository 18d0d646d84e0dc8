-- ===== src/Examples/Supervising.antt =====
-- One camera's supervisor on the small machine, with an ffmpeg that runs on.
use videobackup.Base.{
  Text, ℤ, ◌<ℤ◌, subst, sym, ap, inl, inr, ◌++◌, Option, arith, ◌≡◌, ◌≢◌, ◌≤◌, ℕ, false, List, [],
  ◌∷◌, none, some, pos, codes, same, is_among, ◌-ℤ◌, scale,
}
use videobackup.Base.Lists.{length}
use videobackup.Base.Effects.{ok, Outcome}
use videobackup.Recorder.Stalled.{IsIn, IsStalled}
use videobackup.Spool.Quiet.{matching}
use videobackup.Base.Keeps.{Keeps}
use videobackup.Host.Memory.{World, memory, next_stop, glob_match}
use videobackup.Retention.{RemoteFile}
use videobackup.Recorder.{
  Process, run_camera, wait_with_watchdog, backoff_min, opened_at, search_stamp, stamp_at,
  take_shape, is_suffix,
}
use videobackup.Recorder.Ends.{RecorderStops, ProcessKeeps, run_camera-ends}
use videobackup.Recorder.Watchdog.{RollsOver, wait_with_watchdog-spares}
use videobackup.Examples.Machines.{file_of, machine}
use videobackup.Examples.Ending.{two_rounds, machine-StopsInTheEnd}
use videobackup.Examples.Recording.{tuner, sleep, always_100}

-- It never ends by itself; a kill leaves a mark.
abbrev running : Process World
running = record {
  spawn = λ argv w. (ok tt, w);
  wait_for = λ seconds w. (ok none, w);
  wait_end = λ w. (ok (pos 1), w);
  kill = λ w. (ok tt, record w { temp = some (codes "killed") });
  is_stopping = λ w. let (b, rest) = next_stop w.stops in (ok b, record w { stops = rest });
  strptime = always_100;
}

running-ProcessKeeps : (n : ℕ) → ProcessKeeps running (λ w. length w.stops ≤ n)
running-ProcessKeeps n = record {
  spawn = λ argv. record { at = λ w h. h };
  wait_for = λ seconds. record { at = λ w h. h };
  wait_end = record { at = λ w h. h };
  kill = record { at = λ w h. h };
}

running-RecorderStops : RecorderStops (memory machine) running sleep (λ w. length w.stops)
running-RecorderStops = record {
  ops = machine-StopsInTheEnd.ops;
  process = running-ProcessKeeps;
  pause_keeps = λ n seconds. record { at = λ w h. h };
  is_stopping = machine-StopsInTheEnd.is_stopped;
}

run_camera-ends_example :
    (run_camera
      (memory machine)
      running
      sleep
      tuner
      (codes "s/raw")
      (pos 300)
      3
      4
      backoff_min
      two_rounds).0
    ≢ ok false
run_camera-ends_example =
    run_camera-ends (memory machine) running sleep (λ w. length w.stops) running-RecorderStops tuner
      (codes "s/raw") (pos 300) 3 4 backoff_min two_rounds (omega arith) (omega arith)

abbrev fresh_files : List RemoteFile
fresh_files = file_of (codes "tv_20260912_080716.ts") 9 5000 ∷ []

-- One fresh segment, and no mark of a kill.
abbrev IsUnmarked : World → Type 0
IsUnmarked w = (w.dirs (codes "s/raw") ≡ fresh_files) × (w.temp ≡ none)

abbrev limit : ℤ
limit = scale 1000000 (scale 5 (pos 300))

time_or : ℤ → Outcome (Option ℤ) → ℤ
time_or default (ok (some t)) = t
time_or default _ = default

fresh_opened :
    (opened : ℤ)
    → opened_at always_100 (codes "tv_20260912_080716.ts") ≡ ok (some opened)
    → pos 100 ≡ opened
unfolding opened_at search_stamp stamp_at take_shape is_suffix is_among same time_or
fresh_opened opened h = ap (time_or (pos 0)) h

fresh_spared :
    (name : Text) (t opened : ℤ)
    → IsIn name t fresh_files
    → opened_at always_100 name ≡ ok (some opened)
    → ¬ (limit <ℤ t -ℤ opened)
unfolding ◌-ℤ◌ scale
fresh_spared name t opened (inl (named, timed)) known long =
    let then_opened =
      fresh_opened opened
        (subst (λ n. opened_at always_100 n ≡ ok (some opened)) (sym named) known) in
    let late : limit <ℤ pos 5000 -ℤ pos 100 =
      subst (λ o. limit <ℤ pos 5000 -ℤ o) (sym then_opened)
        (subst (λ s. limit <ℤ s -ℤ opened) (sym timed) long) in
    omega (arith, late)
fresh_spared name t opened (inr no_more) known long = absurd no_more

still_fresh :
    (w : World) (name : Text)
    → IsUnmarked w
    → ¬ IsStalled machine (codes "s/raw") w always_100 (codes "tv") limit name
unfolding glob_match
still_fresh w name h (t, opened, i, _, known, long) =
    let among : IsIn name t fresh_files =
      subst (λ fs. IsIn name t (matching (codes "tv" ++ codes "_*") fs)) h.0 i in
    fresh_spared name t opened among known long

running-RollsOver : RollsOver machine running tuner (codes "s/raw") (pos 300) IsUnmarked
unfolding same
running-RollsOver = record {
  waits = record { at = λ w h. h };
  asks = record { at = λ w h. h };
  distinct = λ w h. rw h.0 (tt, tt);
  rolls = still_fresh;
}

wait_with_watchdog-spares_example :
    Keeps IsUnmarked (wait_with_watchdog (memory machine) running tuner (codes "s/raw") (pos 300) 3)
wait_with_watchdog-spares_example =
    wait_with_watchdog-spares machine running tuner (codes "s/raw") (pos 300) IsUnmarked
      running-RollsOver 3
