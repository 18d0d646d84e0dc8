-- ===== src/Recorder/Watchdog.antt =====
-- When the watchdog of videobackup/recorder.py spares ffmpeg, on a quiet machine.
use videobackup.Base.{◌≡◌, refl, ap, ◌∙◌, ℕ, zero, suc, ℤ, scale, Text, Option, none, some}
use videobackup.Base.Effects.{M, Outcome, ok, raised, branch, follow}
use videobackup.Base.After.{follow_state, After}
use videobackup.Base.Keeps.{Keeps, Keeps-pure, Keeps-branch, Keeps-bind}
use videobackup.Config.{Camera}
use videobackup.Host.Memory.{World, Machine, memory}
use videobackup.Spool.Names.{HasDistinctNames}
use videobackup.Recorder.{
  Process, stalled_segment, is_stuck, after_poll, wait_with_watchdog, watchdog_poll_seconds,
  stall_limit,
}
use videobackup.Recorder.Stalled.{IsStalled, stalled_segment_lem, stalled_segment-IsStalled}

module _ (m : Machine) (P : Process World) (camera : Camera) (out_dir : Text)
    (segment_seconds : ℤ) where
  -- In every state with the property the files have distinct names, and the one that was written last
  -- was not written for longer than five lengths of a segment, in microseconds, since the time in its
  -- name; the property stays while ffmpeg runs and the stop event is asked.
  pub record RollsOver (Q : World → Type 0) : Type 0 where
    pub waits : Keeps Q (P.wait_for watchdog_poll_seconds)
    pub asks : Keeps Q P.is_stopping
    pub distinct : (w : World) → Q w → HasDistinctNames (w.dirs out_dir)
    pub rolls :
        (w : World) (name : Text)
        → Q w
        → ¬ IsStalled m out_dir w P.strptime camera.name
            (scale 1000000 (scale 5 segment_seconds))
            name

  module _ (Q : World → Type 0) (rolls_over : RollsOver Q) where
    not_judged :
        (o : Outcome (Option Text)) (w : World)
        → ((name : Text) → ¬ (o ≡ ok (some name)))
        → Q w
        → After (λ stalled w'. (stalled ≡ none) × Q w') Q (o, w)
    not_judged (raised exn) w h q = q
    not_judged (ok none) w h q = (refl, q)
    not_judged (ok (some name)) w h q = absurd (h name refl)

    stalled_segment-none :
        (w : World)
        → Q w
        → After
            (λ stalled w'. (stalled ≡ none) × Q w')
            Q
            (stalled_segment
              (memory m)
              P.strptime
              out_dir
              camera.name
              (stall_limit (memory m) P camera out_dir segment_seconds)
              w)
    stalled_segment-none w q =
        let limit = stall_limit (memory m) P camera out_dir segment_seconds in
        let distinct = rolls_over.distinct w q in
        let judged = stalled_segment_lem m out_dir w P.strptime camera.name limit distinct in
        rw judged (
          not_judged _ w
            (λ name e. rolls_over.rolls w name q (
              stalled_segment-IsStalled m out_dir w P.strptime camera.name limit name distinct
                (ap (λ r. r.0) judged ∙ e)))
            q)

    not_stuck :
        (stalled : Option Text) (again next : M World (Option (Option ℤ))) (w : World)
        → stalled ≡ none
        → Q w
        → Keeps Q again
        → Q
            (follow
              (is_stuck (memory m) P camera out_dir segment_seconds stalled w)
              (λ stuck. branch stuck next again)).1
    unfolding is_stuck
    not_stuck stalled again next w e q k = rw e (k.at w q)

    after_poll-Keeps :
        (again : M World (Option (Option ℤ))) (ended : Option ℤ)
        → Keeps Q again
        → Keeps Q (after_poll (memory m) P camera out_dir segment_seconds again ended)
    unfolding after_poll
    after_poll-Keeps again (some rc) k = Keeps-pure _
    after_poll-Keeps again none k = Keeps-bind _ _ rolls_over.asks λ stopping.
        Keeps-branch stopping _ _ (Keeps-pure _) (record {
          at = λ w q.
              follow_state (λ stalled w'. (stalled ≡ none) × Q w') Q
                (stalled_segment (memory m) P.strptime out_dir camera.name
                  (stall_limit (memory m) P camera out_dir segment_seconds) w)
                _ (stalled_segment-none w q)
                (λ stalled w' h. not_stuck stalled again _ w' h.0 h.1 k);
        })

    -- The watchdog never kills an ffmpeg that rolls over: whatever property of the world holds as
    -- long as the file that was written last is not written for longer than five lengths of a segment
    -- since the time in its name, its wait keeps it, for any number of polls, where ffmpeg's running
    -- and the asking of the stop event keep it; of the kill itself nothing is asked. This holds on a
    -- machine on which nothing else acts, where the files of the directory have distinct names; the
    -- files are those whose name starts with the camera's name and an underscore.
    pub wait_with_watchdog-spares :
        (fuel : ℕ) → Keeps Q (wait_with_watchdog (memory m) P camera out_dir segment_seconds fuel)
    unfolding wait_with_watchdog
    wait_with_watchdog-spares zero = Keeps-pure _
    wait_with_watchdog-spares (suc fuel) =
        Keeps-bind _ _ rolls_over.waits
          λ ended. after_poll-Keeps _ ended (wait_with_watchdog-spares fuel)
