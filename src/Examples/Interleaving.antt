-- ===== src/Examples/Interleaving.antt =====
-- A run of the loops while a camera records and an upload takes the encrypted files away.
use videobackup.Base.{
  ◌-ℤ◌, ◌+ℤ◌, scale, ℕ, zero, suc, ◌≡◌, refl, Bool, true, false, List, [], ◌∷◌, Text, codes, same,
  Bool-cases, inl, inr, if◌then◌else◌,
}
use videobackup.Config.{spool_raw, spool_encrypted}
use videobackup.Host.{Completed}
use videobackup.Spool.{prune_raw_spool, scan_dir, scan_names, scan_file, drop_oversize, drop_files}
use videobackup.Retention.{select_oversize}
use videobackup.Encrypt.{
  encrypt_pending, encrypt_segments, encrypt_segment, encrypt_closed, encrypt_or_log, encrypt_file,
  is_closed, glob_all, sorted_names, insert_name, le_text, unlink_missing_ok,
}
use videobackup.Host.Memory.{
  World, find_file, set_dir, remove_file, delete_found, rename_found, glob_match,
}
use videobackup.Host.Shared.{history, begin, shared}
use videobackup.Main.{
  encrypt_rounds, encrypt_cycle, ensure_spool_dirs, run_encrypt_loop, run_upload_loop,
  run_batch_loop,
}
use videobackup.Main.Guarded.Sound.{KeepsRaw, Sound, AreKind}
use videobackup.Main.Guarded.Memory.{loops-Sound}
use videobackup.Examples.Machines.{machine, run_tool, test_config, world, file_of}

abbrev records : World → World
records w = record w {
  dirs =
      set_dir (codes "s/raw") (file_of (codes "g.mp4") 5 99999999 ∷ w.dirs (codes "s/raw")) w.dirs;
}

abbrev uploads : World → World
uploads w = record w { dirs = set_dir (codes "s/encrypted") [] w.dirs }

abbrev idle_turns : ℕ → List (World → World) → List (World → World)
idle_turns zero ts = ts
idle_turns (suc n) ts = (λ w. w) ∷ idle_turns n ts

abbrev turns : List (World → World)
turns = records ∷ idle_turns 38 (uploads ∷ [])

abbrev busy : World
busy = record world { stops = false ∷ false ∷ false ∷ false ∷ [] }

records-KeepsRaw : (w : World) → KeepsRaw test_config w (records w)
unfolding set_dir same find_file spool_raw
records-KeepsRaw w n h = elim (Bool-cases (same n (codes "g.mp4"))) [
  | inl e ↦ rw e (λ e'. cc)
  | inr e ↦ rw e h
]

uploads-KeepsRaw : (w : World) → KeepsRaw test_config w (uploads w)
unfolding set_dir same spool_raw
uploads-KeepsRaw w n h = h

if_KeepsRaw :
    (b : Bool) (x y : Completed × World) (w : World)
    → KeepsRaw test_config w x.1
    → KeepsRaw test_config w y.1
    → KeepsRaw test_config w (if b then x else y).1
if_KeepsRaw true x y w hx hy = hx
if_KeepsRaw false x y w hx hy = hy

run_tool-KeepsRaw : (argv : List Text) (w : World) → KeepsRaw test_config w (run_tool argv w).1
unfolding run_tool set_dir same spool_raw
run_tool-KeepsRaw (tool ∷ command ∷ rest) w =
    if_KeepsRaw (same tool (codes "gpg")) _ _ w (λ n h. h)
      (if_KeepsRaw (same command (codes "lsjson")) _ _ w (λ n h. h)
        (if_KeepsRaw (same command (codes "about")) _ _ w (λ n h. h) (λ n h. h)))
run_tool-KeepsRaw (tool ∷ []) w = λ n h. h
run_tool-KeepsRaw [] w = λ n h. h

idle_turns-AreKind :
    (n : ℕ) (ts : List (World → World))
    → AreKind test_config ts
    → AreKind test_config (idle_turns n ts)
idle_turns-AreKind zero ts h = h
idle_turns-AreKind (suc n) ts h = ((λ w n h. h), idle_turns-AreKind n ts h)

turns-AreKind : AreKind test_config turns
turns-AreKind = (records-KeepsRaw, idle_turns-AreKind 38 (uploads ∷ []) (uploads-KeepsRaw, tt))

loops-Sound_example :
    Sound test_config
      (history (run_encrypt_loop (shared machine) 4 test_config (begin busy turns)).1)
    × Sound test_config
        (history (run_upload_loop (shared machine) 4 test_config (begin busy turns)).1)
    × Sound test_config
        (history (run_batch_loop (shared machine) 4 test_config (begin busy turns)).1)
loops-Sound_example = loops-Sound machine test_config run_tool-KeepsRaw 4 busy turns turns-AreKind

-- The segments are encrypted and deleted, and later their copies are uploaded.
abbrev ending : World
ending = (run_encrypt_loop (shared machine) 4 test_config (begin busy turns)).1.world

gone : (ending.dirs (codes "s/raw") ≡ []) × (ending.dirs (codes "s/encrypted") ≡ [])
unfolding run_encrypt_loop encrypt_rounds encrypt_cycle ensure_spool_dirs prune_raw_spool scan_dir
    scan_names scan_file drop_oversize drop_files select_oversize encrypt_pending encrypt_segments
    encrypt_segment encrypt_closed encrypt_or_log encrypt_file is_closed glob_all sorted_names
    insert_name le_text unlink_missing_ok spool_raw spool_encrypted same set_dir find_file
    remove_file delete_found rename_found glob_match run_tool ◌-ℤ◌ ◌+ℤ◌ scale
gone = (refl, refl)
