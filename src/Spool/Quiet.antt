-- ===== src/Spool/Quiet.antt =====
-- Listing and deleting files of videobackup/retention.py on a machine where nobody else acts.
use videobackup.Base.{◌≡◌, refl, sym, ap, ◌∙◌, true, false, not, List, [], ◌∷◌, append-nil, arith}
use videobackup.Base.{
  inl, inr, some, ℕ, ◌+◌, ℤ, ◌+ℤ◌, filter_by, All, All-filter_by, length, Bool-cases, +ℤ_assoc,
  int_laws,
}
use videobackup.Base.{Text, same, same_refl, if◌then◌else◌}
use mathlib.Core.Path.{ap₂}
use videobackup.Base.Effects.{ok}
use videobackup.Host.Memory.{
  World, Machine, memory, find_file, remove_file, set_dir, delete_found, glob_match,
}
use videobackup.Retention.{RemoteFile, total_size}
use videobackup.Spool.{scan_file, scan_names, scan_dir, unlink_victim, unlink_victims}
use videobackup.Spool.Names.{
  names_of, without, HasDistinctNames, All-find_file, find_file-remove_file, without_cons,
  without_none, none_among_nil, same_sym,
}

abbrev pub matching : Text → List RemoteFile → List RemoteFile
matching pattern fs = filter_by (λ f. glob_match pattern f.name) fs

-- The world differs in the files of one directory only.
abbrev pub Changes : Text → List RemoteFile → World → World → Type 0
Changes directory files w w' =
    (w'.dirs directory ≡ files)
    × ((d : Text) → same d directory ≡ false → w'.dirs d ≡ w.dirs d)
    × (w'.remote ≡ w.remote)
    × (w'.clock ≡ w.clock)

module _ (m : Machine) (directory : Text) where
  scan_names_found :
      (fs : List RemoteFile) (w : World)
      → All (λ f. find_file f.name (w.dirs directory) ≡ some f) fs
      → scan_names (memory m) directory (names_of fs) w ≡ (ok fs, w)
  unfolding scan_names scan_file
  scan_names_found [] w _ = refl
  scan_names_found (f ∷ fs) w (h, hs) = rw h (rw (scan_names_found fs w hs))

  -- The files of a directory whose names match, as they are.
  pub scan_dir_one :
      (pattern : Text) (w : World)
      → HasDistinctNames (w.dirs directory)
      → scan_dir (memory m) directory (pattern ∷ []) w
        ≡ (ok (matching pattern (w.dirs directory)), w)
  unfolding scan_dir
  scan_dir_one pattern w h =
      let files = matching pattern (w.dirs directory) in
      let found =
        All-filter_by _ (λ f. glob_match pattern f.name) _ (All-find_file (w.dirs directory) h) in
      rw (scan_names_found files w found) (rw append-nil)

  -- The files that can be deleted.
  abbrev pub deletable : List RemoteFile → List RemoteFile
  deletable = filter_by (λ f. not (m.refuses directory f.name))

  abbrev removed_from : World → Text → World
  removed_from w name = record w {
    dirs = set_dir directory (remove_file name (w.dirs directory)) w.dirs;
  }

  unlink_victim_found :
      (f : RemoteFile) (w : World)
      → find_file f.name (w.dirs directory) ≡ some f
      → unlink_victim (memory m) directory f.name w
        ≡ (if m.refuses directory f.name then (ok false, w) else (ok true, removed_from w f.name))
  unfolding unlink_victim delete_found
  unlink_victim_found f w h = ground arith

  removed_from-Changes :
      (f : RemoteFile) (w : World)
      → Changes directory (remove_file f.name (w.dirs directory)) w (removed_from w f.name)
  unfolding set_dir
  removed_from-Changes f w = (rw (same_refl directory), λ d e. rw e, refl, refl)

  found_later :
      (f : RemoteFile) (w : World) (gs : List RemoteFile)
      → All (λ g. same f.name g.name ≡ false) gs
      → All (λ g. find_file g.name (w.dirs directory) ≡ some g) gs
      → All (λ g. find_file g.name ((removed_from w f.name).dirs directory) ≡ some g) gs
  found_later f w [] _ _ = tt
  found_later f w (g ∷ gs) (n, ns) (h, hs) = (
    rw (removed_from-Changes f w).0
        (find_file-remove_file g.name f.name (w.dirs directory) (same_sym g.name f.name ∙ n) ∙ h),
    found_later f w gs ns hs,
  )

  -- Of files that are there under distinct names, exactly those whose deletion is not refused go;
  -- their number and their sizes are added to the two sums, and nothing else changes.
  pub unlink_victims_lem :
      (fs : List RemoteFile) (n : ℕ) (z : ℤ) (w : World)
      → HasDistinctNames fs
      → All (λ f. find_file f.name (w.dirs directory) ≡ some f) fs
      → let r = unlink_victims (memory m) directory fs n z w in
        (r.0 ≡ ok (n + length (deletable fs), z +ℤ total_size (deletable fs)))
        × Changes directory (without (names_of (deletable fs)) (w.dirs directory)) w r.1
  unfolding unlink_victims total_size
  unlink_victims_lem [] n z w _ _ = (
    ap₂ (λ a b. ok (a, b)) (omega arith) (omega int_laws),
    (sym (without_none [] _ (none_among_nil _)), λ d e. refl, refl, refl),
  )
  unlink_victims_lem (f ∷ fs) n z w (d, ds) (h, hs) =
      elim (Bool-cases (m.refuses directory f.name)) [
        | inl e ↦ rw (unlink_victim_found f w h) (rw e (unlink_victims_lem fs n z w ds hs))
        | inr e ↦ rw (unlink_victim_found f w h) (
            let step = removed_from-Changes f w in
            let ih =
              unlink_victims_lem fs (n + 1) (z +ℤ f.size) (removed_from w f.name) ds
                (found_later f w fs d hs) in
            let left = names_of (deletable fs) in
            rw e (
              ih.0
                  ∙ ap₂ (λ a b. ok (a, b)) (omega arith)
                      (+ℤ_assoc z f.size (total_size (deletable fs))),
              (
                ih.1.0
                    ∙ ap (without left) step.0
                    ∙ sym (without_cons f.name left (w.dirs directory)),
                λ other far. ih.1.1 other far ∙ step.1 other far,
                ih.1.2 ∙ step.2,
                ih.1.3 ∙ step.3,
              ),
            ))
      ]
