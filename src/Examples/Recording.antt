-- ===== src/Examples/Recording.antt =====
-- The recorder's pure parts and its supervisor at concrete data.
use videobackup.Base.{
  ◌≡◌, refl, Bool, true, false, ◌++◌, none, some, arith, ℤ, pos, ltb_ℤ, ◌≤ℤ◌, if◌then◌else◌, Text,
  codes, any_of, is_among, starts_with,
}
use videobackup.Base.Effects.{M, ok, raised, value_error}
use videobackup.Config.{Camera, join, raw_segment_patterns}
use videobackup.Host.Memory.{World, memory, glob_match}
use videobackup.Recorder.{
  Process, search_stamp, stamp_at, take_shape, is_suffix, run_camera, backoff_min,
}
use videobackup.Ffmpeg.{ffmpeg_cmd, scheme, before_scheme}
use videobackup.Recorder.Backoff.{IsBackoff, run_camera-IsBackoff}
use videobackup.Ffmpeg.Segments.{extension_of, last_of, ffmpeg_cmd-found}
use videobackup.Base.{same, ◌-ℤ◌, ◌∷◌, []}
use videobackup.Base.Effects.{Outcome}
use videobackup.Host.Memory.{find_file}
use videobackup.Spool.Names.{HasDistinctNames}
use videobackup.Recorder.{stalled_segment, newest, stat_newer, newer, judge, report, opened_at}
use videobackup.Recorder.Stalled.{IsStalled, stalled_segment-IsStalled}
use videobackup.Examples.Machines.{file_of, machine, world}

stamp_found : search_stamp (codes "a_b_20260912_080716.mp4") ≡ some (codes "20260912_080716")
unfolding search_stamp stamp_at take_shape is_suffix starts_with is_among
stamp_found = refl

stamp_missing : search_stamp (codes "a_20260912_080716.mp4.gpg") ≡ none
unfolding search_stamp stamp_at take_shape is_suffix starts_with is_among
stamp_missing = refl

abbrev pub tuner : Camera
tuner = record { name = codes "tv"; url = codes "HTTP://h/auto" }

scheme_lowered : scheme tuner ≡ codes "http"
unfolding scheme before_scheme starts_with
scheme_lowered = refl

-- ffmpeg ends at once each time, with status 1.
abbrev failing : Process World
failing = record {
  spawn = λ argv w. (ok tt, w);
  wait_for = λ seconds w. (ok (some (pos 1)), w);
  wait_end = λ w. (ok (pos 1), w);
  kill = λ w. (ok tt, w);
  is_stopping = λ w. (ok false, w);
  strptime = λ s. ok (pos 0);
}

abbrev pub sleep : ℤ → M World Bool
sleep seconds w = (ok false, w)

-- A pause that raises where it is not 2 to 60 seconds long.
abbrev strict_sleep : ℤ → M World Bool
strict_sleep seconds w =
    if ltb_ℤ seconds (pos 2)
    then (raised value_error, w)
    else if ltb_ℤ (pos 60) seconds
    then (raised value_error, w)
    else (ok false, w)

not_below : (a b : ℤ) → a ≤ℤ b → ltb_ℤ b a ≡ false
not_below a b h = ground arith

agrees : (b : ℤ) → IsBackoff b → (w : World) → strict_sleep b w ≡ sleep b w
agrees b (low, high) w = rw (not_below (pos 2) b low, not_below b (pos 60) high) refl

run_camera-IsBackoff_example :
    run_camera
      (memory machine)
      failing
      strict_sleep
      tuner
      (codes "s/raw")
      (pos 300)
      2
      3
      backoff_min
      world
    ≡ run_camera
        (memory machine)
        failing
        sleep
        tuner
        (codes "s/raw")
        (pos 300)
        2
        3
        backoff_min
        world
run_camera-IsBackoff_example =
    run_camera-IsBackoff (memory machine) failing sleep strict_sleep agrees tuner (codes "s/raw")
      (pos 300) 2 3 backoff_min world (omega arith, omega arith)

ffmpeg_cmd-found_example :
    (last_of (ffmpeg_cmd tuner (codes "s/raw") (pos 300))
      ≡ join (codes "s/raw") (codes "tv_%Y%m%d_%H%M%S" ++ extension_of tuner))
    × ((stem : Text)
        → any_of (λ p. glob_match p (stem ++ extension_of tuner)) raw_segment_patterns ≡ true)
ffmpeg_cmd-found_example = ffmpeg_cmd-found tuner (codes "s/raw") (pos 300)

abbrev stuck_world : World
stuck_world = record world {
  dirs = λ d.
      file_of (codes "tv_20260912_080616.ts") 7 900
      ∷ file_of (codes "tv_20260912_080716.ts") 9 5000
      ∷ file_of (codes "cam.ts") 9 9000
      ∷ [];
}

abbrev pub always_100 : Text → Outcome ℤ
always_100 s = ok (pos 100)

stuck_found :
    (stalled_segment
      (memory machine)
      always_100
      (codes "s/raw")
      (codes "tv")
      (pos 1000)
      stuck_world).0
    ≡ ok (some (codes "tv_20260912_080716.ts"))
unfolding stalled_segment newest stat_newer newer judge report opened_at search_stamp stamp_at
    take_shape is_suffix is_among glob_match find_file same ◌-ℤ◌
stuck_found = refl

-- A file of the camera `tv_door` is blamed on the camera `tv`.
neighbour_blamed :
    (stalled_segment
      (memory machine)
      always_100
      (codes "s/raw")
      (codes "tv")
      (pos 1000)
      (record world { dirs = λ d. file_of (codes "tv_door_20260912_080716.ts") 9 5000 ∷ [] })).0
    ≡ ok (some (codes "tv_door_20260912_080716.ts"))
unfolding stalled_segment newest stat_newer newer judge report opened_at search_stamp stamp_at
    take_shape is_suffix is_among glob_match find_file same ◌-ℤ◌
neighbour_blamed = refl

stuck_distinct : HasDistinctNames (stuck_world.dirs (codes "s/raw"))
unfolding same
stuck_distinct = ((refl, (refl, tt)), ((refl, tt), (tt, tt)))

stalled_segment-IsStalled_example :
    IsStalled machine
      (codes "s/raw")
      stuck_world
      always_100
      (codes "tv")
      (pos 1000)
      (codes "tv_20260912_080716.ts")
stalled_segment-IsStalled_example =
    stalled_segment-IsStalled machine (codes "s/raw") stuck_world always_100 (codes "tv") (pos 1000)
      (codes "tv_20260912_080716.ts") stuck_distinct stuck_found
