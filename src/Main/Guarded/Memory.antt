-- ===== src/Main/Guarded/Memory.antt =====
-- The loops of videobackup/main.py lose no footage on a machine that other threads and processes
-- share, whatever these do but delete the segments that wait for the encryption.
use videobackup.Base.{◌≡◌, refl, inl, List, Option, none, some}
use videobackup.Base.{ℕ, ◌<ℤ◌, Text}
use videobackup.Base.Effects.{Outcome, ok, raised}
use videobackup.Base.After.{After}
use videobackup.Config.{Config, spool_raw, spool_encrypted}
use videobackup.Encrypt.{encrypted_name, part_name}
use videobackup.Encrypt.Safe.{IsThere}
use videobackup.Encrypt.Safety.{found→there}
use videobackup.Host.Frame.{CallsKeep}
use videobackup.Host.Memory.{World, Machine, memory, find_file, stat_of}
use videobackup.Host.Shared.{Shared, move_on, history, begin, yield_turn, shared}
use videobackup.Main.{run_encrypt_loop, run_upload_loop, run_batch_loop}
use videobackup.Main.Guarded.{Guarded}
use videobackup.Main.Guarded.Loop.{run_encrypt_loop-Safe, run_upload_loop-Safe, run_batch_loop-Safe}
use videobackup.Main.Guarded.Sound.{
  Once, KeepsRaw, Sound, AreKind, Safe, acts-Safe, acts-Once, always-OpsKeep,
  delete_encrypted-KeepsRaw, rename_encrypted-KeepsRaw, delete_raw-Safe, renamed-IsThere,
}
use videobackup.Retention.{RemoteFile}
use videobackup.Spool.Raw.{WasTooLarge}

-- The programs that the code runs delete no segment in the raw spool.
module _ (m : Machine) (config : Config)
    (tools : (argv : List Text) (w : World) → KeepsRaw config w (m.run argv w).1) where
  Safe-calls : CallsKeep (shared m) (Safe config)
  Safe-calls = record {
    glob = λ directory pattern. acts-Safe config ((memory m).glob directory pattern) (λ w n h. h);
    stat = λ directory name. acts-Safe config ((memory m).stat directory name) (λ w n h. h);
    exists = λ directory name. acts-Safe config ((memory m).exists directory name) (λ w n h. h);
    mkdir = λ directory. acts-Safe config ((memory m).mkdir directory) (λ w n h. h);
    write_temp = λ contents. acts-Safe config ((memory m).write_temp contents) (λ w n h. h);
    unlink_temp = λ path. acts-Safe config ((memory m).unlink_temp path) (λ w n h. h);
    which = λ tool. acts-Safe config ((memory m).which tool) (λ w n h. h);
    now = acts-Safe config (memory m).now (λ w n h. h);
    monotonic = acts-Safe config (memory m).monotonic (λ w n h. h);
    run = λ argv. acts-Safe config ((memory m).run argv) (tools argv);
  }

  abbrev HadCopy : Text → World → Type 0
  HadCopy n w = IsThere w (spool_encrypted config) (encrypted_name n)

  stat_of-measured :
      (name : Text) (w : World) (o : Option RemoteFile)
      → find_file name (w.dirs (spool_raw config)) ≡ o
      → After
          (λ st w'. config.max_drive_bytes <ℤ st.size → WasTooLarge config w' name)
          (λ _. Unit)
          (stat_of o, w)
  stat_of-measured name w none e = tt
  stat_of-measured name w (some f) e = λ over. (f.size, (f, e, refl), over)

  -- What the code learns from an operation, on the shared machine.
  acts-After :
      {A : Type 0} (P : A → World → Type 0) (P' : A → Shared → Type 0) (r : Outcome A × World)
      (u : Shared)
      → After P (λ _. Unit) r
      → ((a : A) (w : World) → P a w → P' a (move_on w u.turns u))
      → After P' (λ _. Unit) (r.0, move_on r.1 u.turns u)
  acts-After P P' (ok a, w) u h k = k a w h
  acts-After P P' (raised e, w) u h k = tt

  guarded : Guarded (shared m) config
  guarded = record {
    Copied = λ n s. Once (HadCopy n) (history s);
    Large = λ n s. Once (λ w. WasTooLarge config w n) (history s);
    Safe = Safe config;
    copied = λ n. always-OpsKeep config m _ (λ A op. acts-Once config (HadCopy n) op);
    large =
        λ n. always-OpsKeep config m _ (λ A op. acts-Once config (λ w. WasTooLarge config w n) op);
    calls = Safe-calls;
    is_stopped = acts-Safe config (memory m).is_stopped (λ w n h. h);
    wait = λ seconds. acts-Safe config ((memory m).wait seconds) (λ w n h. h);
    replace = λ name new_name.
        acts-Safe config ((memory m).replace (spool_encrypted config) name new_name)
          (λ w. rename_encrypted-KeepsRaw config m name new_name _ w);
    unlink_encrypted = λ name.
        acts-Safe config ((memory m).unlink (spool_encrypted config) name) (λ w.
          delete_encrypted-KeepsRaw config m name (find_file name (w.dirs (spool_encrypted config)))
            w);
    unlink_raw = λ name s safe may_go. delete_raw-Safe config m name s safe may_go;
    found = λ name s e. inl (found→there _ e);
    finished = λ name s.
        let u = yield_turn s in
        acts-After (λ _. HadCopy name) (λ _ s'. Once (HadCopy name) (history s')) _ u
          (renamed-IsThere config m (part_name (encrypted_name name)) (encrypted_name name) _
            u.world)
          (λ _ w h. inl h);
    measured = λ name s.
        let u = yield_turn s in
        acts-After (λ st w. config.max_drive_bytes <ℤ st.size → WasTooLarge config w name)
          (λ st s'.
            config.max_drive_bytes <ℤ st.size → Once (λ w. WasTooLarge config w name) (history s'))
          _ u (stat_of-measured name u.world _ refl) (λ st w h over. inl (h over));
  }

  -- Whatever other threads and processes do between the operations of a loop, if they do not delete
  -- segments from the raw spool themselves: after no step of the encryption loop, of the upload loop
  -- or of the loop of batches is a segment gone from the raw spool, unless a file with the name of
  -- its encrypted copy has been in the encrypted spool before the step, or the segment has been
  -- larger than the remote folder may be. The others may write segments, and upload, rename or
  -- delete encrypted files; the programs that a loop runs delete no segment in the raw spool.
  pub loops-Sound :
      (fuel : ℕ) (w : World) (turns : List (World → World))
      → AreKind config turns
      → Sound config (history (run_encrypt_loop (shared m) fuel config (begin w turns)).1)
        × Sound config (history (run_upload_loop (shared m) fuel config (begin w turns)).1)
        × Sound config (history (run_batch_loop (shared m) fuel config (begin w turns)).1)
  unfolding guarded
  loops-Sound fuel w turns kind = (
    ((run_encrypt_loop-Safe (shared m) config guarded fuel).at (begin w turns) (tt, kind)).0,
    ((run_upload_loop-Safe (shared m) config guarded fuel).at (begin w turns) (tt, kind)).0,
    ((run_batch_loop-Safe (shared m) config guarded fuel).at (begin w turns) (tt, kind)).0,
  )
