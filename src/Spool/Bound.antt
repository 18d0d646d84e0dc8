-- ===== src/Spool/Bound.antt =====
-- What `prune_spool` of videobackup/retention.py leaves on a quiet machine.
use videobackup.Base.{
  filter_by_comm, All-filter_by, subst, lt→leb_ℤ, some, zero-+ℤ, ◌≡◌, refl, sym, ap, ◌∙◌, false,
  not, List, [], ◌∷◌, arith, inl, inr,
}
use videobackup.Base.{ℕ, ◌+◌, ◌==◌, ℤ, pos, ◌<ℤ◌, leb_ℤ, All, length, Bool-cases}
use videobackup.Base.{Text, codes, is_among, if◌then◌else◌}
use mathlib.Core.Path.{ap₂}
use videobackup.Base.Effects.{ok, run-ok}
use videobackup.Config.{Config, spool_encrypted}
use videobackup.Host.Memory.{World, Machine, memory, find_file}
use videobackup.Retention.{RemoteFile, total_size, select_for_deletion, select_oversize}
use videobackup.Spool.{
  unlink_all, drop_files, drop_oversize, without_dropped, cap_backlog, prune_spool,
}
use videobackup.Spool.Names.{
  HasDistinctNames-filter_by, names_of, without, HasDistinctNames, All-find_file, without_none,
  none_among_nil,
}
use videobackup.Spool.Chosen.{chosen-HasDistinctNames, chosen-All}
use videobackup.Spool.Quiet.{Changes, deletable, matching, scan_dir_one, unlink_victims_lem}

module _ (m : Machine) (directory : Text)
    (free : (name : Text) → m.refuses directory name ≡ false) where
  deletable_all : (fs : List RemoteFile) → deletable m directory fs ≡ fs
  deletable_all [] = refl
  deletable_all (f ∷ fs) = rw (free f.name) (ap (◌∷◌ f) (deletable_all fs))

  -- Where nothing is refused, all of them go.
  unlink_all_lem :
      (fs : List RemoteFile) (w : World)
      → HasDistinctNames fs
      → All (λ f. find_file f.name (w.dirs directory) ≡ some f) fs
      → ((unlink_all (memory m) directory fs w).0 ≡ ok (length fs, total_size fs))
        × Changes directory
            (without (names_of fs) (w.dirs directory))
            w
            (unlink_all (memory m) directory fs w).1
  unfolding unlink_all
  unlink_all_lem fs w d h =
      let all = rw (deletable_all fs) at (unlink_victims_lem m directory fs 0 (pos 0) w d h) in
      (all.0 ∙ ap₂ (λ a b. ok (a, b)) (omega arith) (zero-+ℤ (total_size fs)), all.1)

  drop_files_lem :
      (fs : List RemoteFile) (w : World)
      → HasDistinctNames fs
      → All (λ f. find_file f.name (w.dirs directory) ≡ some f) fs
      → ((drop_files (memory m) directory fs w).0 ≡ ok (length fs))
        × Changes directory
            (without (names_of fs) (w.dirs directory))
            w
            (drop_files (memory m) directory fs w).1
  unfolding drop_files
  drop_files_lem [] w _ _ =
      (refl, (sym (without_none [] _ (none_among_nil _)), λ d e. refl, refl, refl))
  drop_files_lem (f ∷ fs) w d h =
      let all = unlink_all_lem (f ∷ fs) w d h in
      rw (run-ok (unlink_all (memory m) directory (f ∷ fs) w) all.0) (refl, all.1)

Changes-then :
    (directory : Text) (fs gs : List RemoteFile) (u v w : World)
    → Changes directory fs u v
    → Changes directory gs v w
    → Changes directory gs u w
Changes-then directory fs gs u v w a b = (b.0, λ d e. b.1 d e ∙ a.1 d e, b.2 ∙ a.2, b.3 ∙ a.3)

module _ (m : Machine) (config : Config)
    (free : (name : Text) → m.refuses (spool_encrypted config) name ≡ false)
    (cap : pos 0 <ℤ config.max_spool_bytes) where
  cap_backlog_lem :
      (files : List RemoteFile) (deleted : ℕ) (w : World)
      → HasDistinctNames files
      → All (λ f. find_file f.name (w.dirs (spool_encrypted config)) ≡ some f) files
      → let victims = select_for_deletion files config.max_spool_bytes w.clock (pos 0) in
        ((cap_backlog (memory m) config files deleted w).0 ≡ ok (deleted + length victims))
        × Changes
            (spool_encrypted config)
            (without (names_of victims) (w.dirs (spool_encrypted config)))
            w
            (cap_backlog (memory m) config files deleted w).1
  unfolding cap_backlog
  cap_backlog_lem files deleted w d h =
      let victims = select_for_deletion files config.max_spool_bytes w.clock (pos 0) in
      let all =
        unlink_all_lem m (spool_encrypted config) free victims w
          (chosen-HasDistinctNames files config.max_spool_bytes w.clock (pos 0) (omega arith) d)
          (chosen-All files config.max_spool_bytes w.clock (pos 0) (omega arith) _ h) in
      rw (lt→leb_ℤ (pos 0) config.max_spool_bytes cap)
        (rw (run-ok (unlink_all (memory m) (spool_encrypted config) victims w) all.0) (refl, all.1))

  cap_backlog_from :
      (files : List RemoteFile) (deleted : ℕ) (w : World) (now : ℤ) (there : List RemoteFile)
      → w.clock ≡ now
      → w.dirs (spool_encrypted config) ≡ there
      → HasDistinctNames files
      → All (λ f. find_file f.name there ≡ some f) files
      → let victims = select_for_deletion files config.max_spool_bytes now (pos 0) in
        ((cap_backlog (memory m) config files deleted w).0 ≡ ok (deleted + length victims))
        × Changes
            (spool_encrypted config)
            (without (names_of victims) there)
            w
            (cap_backlog (memory m) config files deleted w).1
  cap_backlog_from files deleted w now there e1 e2 d h =
      rw (← e1, ← e2) (cap_backlog_lem files deleted w d (rw e2 h))

module _ (m : Machine) (config : Config) (w : World) where
  -- The listed files, those too large for the whole cap, those that are left, and their excess.
  abbrev pub listed : List RemoteFile
  listed = matching (codes "*.gpg") (w.dirs (spool_encrypted config))

  abbrev pub oversize : List RemoteFile
  oversize = select_oversize listed config.max_drive_bytes

  abbrev pub deliverable : List RemoteFile
  deliverable = without (names_of oversize) listed

  abbrev pub backlog_victims : List RemoteFile
  backlog_victims = select_for_deletion deliverable config.max_spool_bytes w.clock (pos 0)

  oversize-HasDistinctNames : HasDistinctNames listed → HasDistinctNames oversize
  unfolding select_oversize
  oversize-HasDistinctNames d = elim (Bool-cases (leb_ℤ config.max_drive_bytes (pos 0))) [
    | inl e ↦ rw e tt
    | inr e ↦ rw e (HasDistinctNames-filter_by _ listed d)
  ]

  pub oversize-All {κ} : (P : RemoteFile → Type κ) → All P listed → All P oversize
  unfolding select_oversize
  oversize-All P a = elim (Bool-cases (leb_ℤ config.max_drive_bytes (pos 0))) [
    | inl e ↦ rw e tt
    | inr e ↦ rw e (All-filter_by P _ listed a)
  ]

  without_dropped_lem : without_dropped config (length oversize) listed ≡ deliverable
  unfolding without_dropped
  without_dropped_lem = drop_none oversize
    where
      drop_none :
          (over : List RemoteFile)
          → (if length over == 0 then listed else without (names_of over) listed)
            ≡ without (names_of over) listed
      drop_none [] = sym (without_none [] listed (none_among_nil listed))
      drop_none (f ∷ fs) = ground arith

  drop_oversize_lem :
      HasDistinctNames (w.dirs (spool_encrypted config))
      → ((name : Text) → m.refuses (spool_encrypted config) name ≡ false)
      → ((drop_oversize (memory m) (spool_encrypted config) listed config w).0
          ≡ ok (length oversize))
        × Changes
            (spool_encrypted config)
            (without (names_of oversize) (w.dirs (spool_encrypted config)))
            w
            (drop_oversize (memory m) (spool_encrypted config) listed config w).1
  unfolding drop_oversize
  drop_oversize_lem d free =
      let spool = spool_encrypted config in
      drop_files_lem m spool free oversize w
        (oversize-HasDistinctNames (HasDistinctNames-filter_by _ (w.dirs spool) d))
        (oversize-All _ (All-filter_by _ _ (w.dirs spool) (All-find_file (w.dirs spool) d)))

  -- `prune_spool` deletes the encrypted files that are too large for the remote folder and, of the
  -- rest, those that `select_for_deletion` chooses for `max_spool_bytes`; it returns their number,
  -- and changes nothing else. This holds on a machine on which nothing else acts and no deletion in
  -- the directory is refused, where no two of its files have a name in common and the spool has a
  -- limit.
  pub prune_spool_lem :
      HasDistinctNames (w.dirs (spool_encrypted config))
      → ((name : Text) → m.refuses (spool_encrypted config) name ≡ false)
      → pos 0 <ℤ config.max_spool_bytes
      → ((prune_spool (memory m) config w).0 ≡ ok (length oversize + length backlog_victims))
        × Changes
            (spool_encrypted config)
            (without
              (names_of backlog_victims)
              (without (names_of oversize) (w.dirs (spool_encrypted config))))
            w
            (prune_spool (memory m) config w).1
  unfolding prune_spool
  prune_spool_lem d free positive =
      let spool = spool_encrypted config in
      let dropped = drop_oversize_lem d free in
      let later = (drop_oversize (memory m) spool listed config w).1 in
      let kept =
        HasDistinctNames-filter_by (λ f. not (is_among f.name (names_of oversize))) (w.dirs spool)
          d in
      let rest =
        cap_backlog_from m config free positive deliverable (length oversize) later w.clock
          (without (names_of oversize) (w.dirs spool)) dropped.1.3 dropped.1.0
          (HasDistinctNames-filter_by _ listed (HasDistinctNames-filter_by _ (w.dirs spool) d))
          (subst (All (λ f. find_file f.name (without (names_of oversize) (w.dirs spool)) ≡ some f))
            (filter_by_comm _ _ (w.dirs spool))
            (All-filter_by _ _ (without (names_of oversize) (w.dirs spool))
              (All-find_file _ kept))) in
      rw (scan_dir_one m spool (codes "*.gpg") w d) (
        rw (run-ok (drop_oversize (memory m) spool listed config w) dropped.0) (
          rw without_dropped_lem (
            rest.0,
            Changes-then spool _ _ w later
                (cap_backlog (memory m) config deliverable (length oversize) later).1 dropped.1
                rest.1,
          )))
