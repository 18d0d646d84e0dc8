-- ===== src/Encrypt/Safety.antt =====
-- `encrypt_pending` of videobackup/encrypt.py loses no footage on a quiet machine: a segment that
-- is gone has its encrypted copy.
use videobackup.Base.{
  ◌≡◌, refl, ◌≢◌, inl, Bool, true, false, List, [], ◌∷◌, Option, none, some, ℕ, ◌+◌, ℤ,
}
use videobackup.Base.{Text, codes, if◌then◌else◌}
use videobackup.Base.Effects.{ok, raised, pure, follow, throw, branch, is_runtime_error}
use videobackup.Base.After.{
  After, follow-After, recover-After, if-After, After-state, After-weaken, Leaves,
}
use videobackup.Config.{Config, join, spool_raw, spool_encrypted}
use videobackup.Drive.{is_zero}
use videobackup.Encrypt.{
  encrypted_name, part_name, gpg_args, unlink_missing_ok, is_closed, encrypt_file, encrypt_or_log,
  encrypt_closed, encrypt_segment, encrypt_segments, encrypt_pending, is_file_not_found, gpg_failed,
  glob_all,
}
use videobackup.Host.{Completed}
use videobackup.Host.Memory.{World, Machine, memory, find_file, rename_found, is_found, stat_of}
use videobackup.Retention.{RemoteFile}
use videobackup.Encrypt.Safe.{IsThere, IsSafe, IsSafe-refl, IsSafe-trans, part_apart, IsGpg}
use videobackup.Encrypt.Steps.{
  unlink_missing_ok-After, dropped_raw-IsSafe, dropped_part-IsSafe, renamed-IsSafe,
}

pub found→there : (o : Option RemoteFile) → is_found o ≡ true → o ≢ none
found→there none h = cc
found→there (some f) h = λ e. cc

module _ (m : Machine) (config : Config) (gpg : IsGpg m config) where
  abbrev gpg_run : Text → World → Completed × World
  gpg_run name = m.run (
      gpg_args config.gpg_recipient
        (join (spool_encrypted config) (part_name (encrypted_name name)))
        (join (spool_raw config) name))

  gpg_run-IsSafe : (name : Text) (w : World) → IsSafe config w (gpg_run name w).1
  gpg_run-IsSafe name w = record {
    kept = λ n. inl (gpg.leaves_raw name n w);
    copies = λ n k. rw (gpg.leaves_others name (encrypted_name n) w (part_apart n name)) k;
  }

  -- The copy is there, and so far nothing was lost.
  abbrev Copied : Text → World → World → Type 0
  Copied name w s = IsSafe config w s × IsThere s (spool_encrypted config) (encrypted_name name)

  finish-After :
      (name : Text) (o : Option RemoteFile) (w w1 : World)
      → IsSafe config w w1
      → o ≢ none
      → After
          (λ (_ : Unit {0}). Copied name w)
          (IsSafe config w)
          (rename_found m
            (spool_encrypted config)
            (part_name (encrypted_name name))
            (encrypted_name name)
            o
            w1)
  unfolding rename_found
  finish-After name none w w1 safe h = absurd (h refl)
  finish-After name (some f) w w1 safe h =
      let r = renamed-IsSafe m config name f w1 in (IsSafe-trans config w w1 _ safe r.0, r.1)

  encrypt_file-After :
      (name : Text) (w : World)
      → After
          (λ (_ : Unit {0}). Copied name w)
          (IsSafe config w)
          (encrypt_file
            (memory m)
            (spool_raw config)
            name
            (spool_encrypted config)
            (encrypted_name name)
            config.gpg_recipient
            w)
  unfolding encrypt_file
  encrypt_file-After name w =
      let tmp = part_name (encrypted_name name) in
      let (result, w1) = gpg_run name w in
      let safe = gpg_run-IsSafe name w in
      if-After (λ _. Copied name w) (IsSafe config w) (is_zero result.returncode) _ _
        (λ e.
          finish-After name (find_file tmp (w1.dirs (spool_encrypted config))) w w1 safe
            (gpg.writes name w e))
        (λ _.
          follow-After (λ _. IsSafe config w) (IsSafe config w) (λ _. Copied name w)
            (unlink_missing_ok (memory m) (spool_encrypted config) tmp w1)
            (λ _. throw (gpg_failed (memory m) name result))
            (unlink_missing_ok-After m config (IsSafe config w) (spool_encrypted config) tmp w1 safe
              (IsSafe-trans config w w1 _ safe (dropped_part-IsSafe m config name w1)))
            (λ _ s q. q))

  -- Where it says that it encrypted the segment, the copy is there.
  abbrev Told : Text → World → Bool → World → Type 0
  Told name w done s =
      IsSafe config w s × (done ≡ true → IsThere s (spool_encrypted config) (encrypted_name name))

  encrypt_or_log-After :
      (name : Text) (w : World)
      → After (Told name w) (IsSafe config w) (
          encrypt_or_log
            (memory m)
            (spool_raw config)
            name
            (spool_encrypted config)
            (encrypted_name name)
            config.gpg_recipient
            w)
  unfolding encrypt_or_log
  encrypt_or_log-After name w =
      recover-After (Told name w) (IsSafe config w) (IsSafe config w) _ _
        (follow-After (λ _. Copied name w) (IsSafe config w) (Told name w)
          (encrypt_file (memory m) (spool_raw config) name (spool_encrypted config)
            (encrypted_name name) config.gpg_recipient w)
          (λ _. pure true) (encrypt_file-After name w) (λ _ s q. (q.0, λ _. q.1)))
        (λ e s q.
          if-After (Told name w) (IsSafe config w) (is_runtime_error e) (ok false, s) (raised e, s)
            (λ _. (q, λ h. cc)) (λ _. q))

  -- Deleting the segment after its copy is there.
  drop_segment-Leaves :
      (name : Text) (b : Bool) (w s : World)
      → IsSafe config w s
      → IsThere s (spool_encrypted config) (encrypted_name name)
      → Leaves
          (IsSafe config w)
          (follow (unlink_missing_ok (memory m) (spool_raw config) name s) (λ _. pure b))
  drop_segment-Leaves name b w s safe there =
      follow-After (λ _. IsSafe config w) (IsSafe config w) (λ _. IsSafe config w)
        (unlink_missing_ok (memory m) (spool_raw config) name s) (λ _. pure b)
        (unlink_missing_ok-After m config (IsSafe config w) (spool_raw config) name s safe
          (IsSafe-trans config w s _ safe (dropped_raw-IsSafe m config name s there)))
        (λ _ s' q. q)

  encrypt_closed-Leaves :
      (name : Text) (w : World) → Leaves (IsSafe config w) (encrypt_closed (memory m) config name w)
  unfolding encrypt_closed
  encrypt_closed-Leaves name w =
      if-After (λ _. IsSafe config w) (IsSafe config w)
        (is_found (find_file (encrypted_name name) (w.dirs (spool_encrypted config)))) _ _
        (λ e. drop_segment-Leaves name false w w (IsSafe-refl config w) (found→there _ e))
        (λ _.
          follow-After (Told name w) (IsSafe config w) (λ _. IsSafe config w)
            (encrypt_or_log (memory m) (spool_raw config) name (spool_encrypted config)
              (encrypted_name name) config.gpg_recipient w)
            _ (encrypt_or_log-After name w)
            (λ done s q.
              if-After (λ _. IsSafe config w) (IsSafe config w) done _ (ok false, s)
                (λ e. drop_segment-Leaves name true w s q.0 (q.1 e)) (λ _. q.0)))

  stat_of-Leaves :
      (Q : World → Type 0) (o : Option RemoteFile) (w : World) → Q w → Leaves Q (stat_of o, w)
  stat_of-Leaves Q none w h = h
  stat_of-Leaves Q (some f) w h = h

  is_closed-Leaves :
      (Q : World → Type 0) (name : Text) (now : ℤ) (w : World)
      → Q w
      → Leaves Q (is_closed (memory m) (spool_raw config) name now w)
  unfolding is_closed
  is_closed-Leaves Q name now w h =
      recover-After (λ _. Q) Q Q _ _
        (follow-After (λ _. Q) Q (λ _. Q) (stat_of (find_file name (w.dirs (spool_raw config))), w)
          _ (stat_of-Leaves Q _ w h) (λ st s q. q))
        (λ e s q.
          if-After (λ _. Q) Q (is_file_not_found e) (ok false, s) (raised e, s) (λ _. q) (λ _. q))

  pub encrypt_segment-Leaves :
      (now : ℤ) (name : Text) (w : World)
      → Leaves (IsSafe config w) (encrypt_segment (memory m) config now name w)
  unfolding encrypt_segment
  encrypt_segment-Leaves now name w =
      follow-After (λ _. IsSafe config w) (IsSafe config w) (λ _. IsSafe config w)
        (is_closed (memory m) (spool_raw config) name now w)
        (λ closed. branch closed (encrypt_closed (memory m) config name) (pure false))
        (is_closed-Leaves (IsSafe config w) name now w (IsSafe-refl config w))
        (λ closed s q.
          if-After (λ _. IsSafe config w) (IsSafe config w) closed _ (ok false, s)
            (λ _.
              After-weaken _ _ (IsSafe config s) (IsSafe config w) _ (encrypt_closed-Leaves name s)
                (λ _ s'. IsSafe-trans config w s s' q) (λ s'. IsSafe-trans config w s s' q))
            (λ _. q))

  pub encrypt_segments-Leaves :
      (now : ℤ) (names : List Text) (n : ℕ) (w : World)
      → Leaves (IsSafe config w) (encrypt_segments (memory m) config now names n w)
  unfolding encrypt_segments
  encrypt_segments-Leaves now [] n w = IsSafe-refl config w
  encrypt_segments-Leaves now (name ∷ names) n w =
      follow-After (λ _. IsSafe config w) (IsSafe config w) (λ _. IsSafe config w)
        (encrypt_segment (memory m) config now name w)
        (λ done. encrypt_segments (memory m) config now names (if done then n + 1 else n))
        (encrypt_segment-Leaves now name w)
        (λ done s q.
          After-weaken _ _ (IsSafe config s) (IsSafe config w) _
            (encrypt_segments-Leaves now names (if done then n + 1 else n) s)
            (λ _ s'. IsSafe-trans config w s s' q) (λ s'. IsSafe-trans config w s s' q))

  -- `encrypt_pending` loses no footage, whether it returns or raises: each segment is as it was, or
  -- an encrypted file of its name is there; and no encrypted file that was there is gone. This holds
  -- on a machine on which nothing else acts, where gpg writes its output file alone and, where it
  -- reports success, has written it.
  pub encrypt_pending-IsSafe : (w : World) → IsSafe config w (encrypt_pending (memory m) config w).1
  unfolding encrypt_pending glob_all
  encrypt_pending-IsSafe w = After-state (IsSafe config w) _ (
      if-After (λ _. IsSafe config w) (IsSafe config w) (m.installed (codes "gpg")) _ _
        (λ _. encrypt_segments-Leaves w.clock _ 0 w) (λ _. IsSafe-refl config w))
