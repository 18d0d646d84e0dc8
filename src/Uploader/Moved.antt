-- ===== src/Uploader/Moved.antt =====
-- What an upload of videobackup/uploader.py counts, on a machine in memory.
use videobackup.Base.{
  ◌≡◌, refl, ap, ◌∙◌, sym, Bool, true, false, not, ◌&&◌, subst, List, [], ◌∷◌, ◌++◌, filter_by,
  length, ℤ, All, All-map, Text, is_among, same, codes, Bool-cases, inl, inr, arith, some,
}
use videobackup.Base.Effects.{ok}
use videobackup.Config.{Config, spool_encrypted}
use videobackup.Encrypt.{sorted_names}
use videobackup.Encrypt.Sorted.{passing-sorted_names, is_among-sorted_names, All-sorted_names}
use videobackup.Host.Memory.{World, Machine, memory, glob_match, find_file}
use videobackup.Rclone.{classify}
use videobackup.Retention.{RemoteFile, total_size}
use videobackup.Spool.Names.{names_of, without}
use videobackup.Spool.Quiet.{matching}
use videobackup.Uploader.Members.{
  is_among-filter_by, is_among-move, names_among, each_among, passing-cong, passing-names_of,
}
use videobackup.Uploader.{
  move_args, ready_files, sized_file, sized_files, report_moved, upload_files, upload_pending,
}

-- The files of some of the names.
abbrev pub among : List Text → List RemoteFile → List RemoteFile
among names fs = filter_by (λ f. is_among f.name names) fs

-- What the machine is relied on for in one upload: rclone is installed, its grant lives, and while
-- `rclone move` runs, the files of the names `moved` leave the spool, and `fresh` ones come, under
-- names that were not there.
pub record IsMove (m : Machine) (config : Config) (w : World) (moved : List Text)
    (fresh : List RemoteFile) : Type 0 where
  pub installed : m.installed (codes "rclone") ≡ true
  pub grant : (classify (m.run (codes "rclone" ∷ move_args config) w).0.stderr).auth_expired ≡ false
  pub leaves :
      (m.run (codes "rclone" ∷ move_args config) w).1.dirs (spool_encrypted config)
      ≡ without moved (w.dirs (spool_encrypted config)) ++ fresh
  pub fresh_names :
      All (λ f. is_among f.name (names_of (w.dirs (spool_encrypted config))) ≡ false) fresh

module _ (m : Machine) (spool : Text) where
  found_among :
      (x : Text) (fs : List RemoteFile)
      → is_among x (names_of fs) ≡ true
      → (f : RemoteFile) × (find_file x fs ≡ some f)
  unfolding is_among find_file
  found_among x [] h = cc
  found_among x (f ∷ fs) h = elim (Bool-cases (same x f.name)) [
    | inl e ↦ (f, rw e refl)
    | inr e ↦ let (g, k) = found_among x fs (ground arith) in (g, rw e k)
  ]

  sized_file_found :
      (x : Text) (w : World)
      → is_among x (names_of (w.dirs spool)) ≡ true
      → sized_file (memory m) spool x w ≡ (ok (x ∷ []), w)
  unfolding sized_file
  sized_file_found x w h = let (f, e) = found_among x (w.dirs spool) h in rw e refl

  pub sized_files_found :
      (xs : List Text) (w : World)
      → All (λ x. is_among x (names_of (w.dirs spool)) ≡ true) xs
      → sized_files (memory m) spool xs w ≡ (ok xs, w)
  unfolding sized_files
  sized_files_found [] w _ = refl
  sized_files_found (x ∷ xs) w (h, hs) =
      rw (sized_file_found x w h) (rw (sized_files_found xs w hs) refl)

module _ (m : Machine) (config : Config) (w : World) where
  abbrev pub spool : Text
  spool = spool_encrypted config

  abbrev pub queued : List RemoteFile
  queued = matching (codes "*.gpg") (w.dirs spool)

  abbrev pub after : World
  after = (m.run (codes "rclone" ∷ move_args config) w).1

  abbrev pub is_gone : Text → Bool
  is_gone x =
      not (is_among x (sorted_names (names_of (matching (codes "*.gpg") (after.dirs spool)))))

  abbrev pub IsQueued : Text → Type 0
  IsQueued x = (is_among x (names_of (w.dirs spool)) ≡ true) × (glob_match (codes "*.gpg") x ≡ true)

  -- The sorted names of the queue, each of which is there and matches.
  abbrev pub names : List Text
  names = sorted_names (names_of queued)

  pub names_there : All IsQueued names
  names_there =
      All-sorted_names _ (names_of queued)
        (names_among (codes "*.gpg") (w.dirs spool) (w.dirs spool) (each_among (w.dirs spool)))

  -- The queued files of some of the names, and their bytes.
  abbrev pub moved_files : List Text → List RemoteFile
  moved_files moved = among moved queued

  abbrev pub moved_bytes : List Text → ℤ
  moved_bytes moved = total_size (moved_files moved)

  module _ (moved : List Text) (fresh : List RemoteFile)
      (move : IsMove m config w moved fresh) where
    -- A queued name is gone exactly if it was moved.
    gone_iff : (x : Text) → IsQueued x → is_gone x ≡ is_among x moved
    gone_iff x (there, matches) =
        rw
          (
            is_among-sorted_names x,
            is_among-filter_by x (glob_match (codes "*.gpg")),
            matches,
            move.leaves,
            is_among-move x moved (w.dirs spool) fresh there move.fresh_names,
          )
          (twice (is_among x moved))
      where
        twice : (b : Bool) → not (not b && true) ≡ b
        twice true = refl
        twice false = refl

    pub counted : length (filter_by is_gone names) ≡ length (moved_files moved)
    counted =
        passing-cong is_gone (λ x. is_among x moved) names (All-map _ _ names gone_iff names_there)
        ∙ (passing-sorted_names (λ x. is_among x moved) (names_of queued)
            ∙ passing-names_of (λ x. is_among x moved) queued)

    upload_files_lem :
        (ns : List Text)
        → ns ≡ names
        → (upload_files (memory m) config ns w).0 ≡ ok (length (moved_files moved))
    unfolding upload_files report_moved ready_files
    upload_files_lem [] e = ap ok (ap (λ xs. length (filter_by is_gone xs)) e ∙ counted)
    upload_files_lem (n ∷ ns) e =
        let there : All (λ x. is_among x (names_of (w.dirs spool)) ≡ true) (n ∷ ns) =
          subst (All (λ x. is_among x (names_of (w.dirs spool)) ≡ true)) (sym e)
            (All-map _ _ names (λ x h. h.0) names_there) in
        rw (sized_files_found m spool (n ∷ ns) w there, move.grant)
          (ap ok (ap (λ xs. length (filter_by is_gone xs)) e ∙ counted))

    -- `upload_pending` counts exactly the queued `.gpg` files that `rclone move` moved, however many
    -- new ones were encrypted while it ran: where rclone is installed, its grant lives, and the move
    -- takes the files of some names out of the spool while files of new names come into it.
    pub upload_pending-count :
        (upload_pending (memory m) config w).0 ≡ ok (length (moved_files moved))
    unfolding upload_pending ready_files
    upload_pending-count = rw move.installed (upload_files_lem names refl)
