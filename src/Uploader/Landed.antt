-- ===== src/Uploader/Landed.antt =====
-- How many bytes an upload of videobackup/uploader.py adds to the remote folder.
use videobackup.Base.{
  ◌≡◌, ◌≢◌, true, refl, sym, subst, List, [], ◌∷◌, ◌+ℤ◌, ◌≤ℤ◌, int_laws, All, All-map, Text,
  is_among, Bool-cases, inl, inr,
}
use videobackup.Config.{Config}
use videobackup.Encrypt.{le_text, insert_name, sorted_names}
use videobackup.Host.Memory.{World, Machine, memory}
use videobackup.Retention.{RemoteFile, total_size}
use videobackup.Spool.Names.{names_of}
use videobackup.Uploader.{ready_files, report_moved, upload_files, upload_pending}
use videobackup.Uploader.Moved.{
  IsMove, spool, queued, after, names, moved_bytes, names_there, sized_files_found,
}

insert_name-not_nil : (n : Text) (ns : List Text) → insert_name n ns ≢ []
unfolding insert_name
insert_name-not_nil n [] = λ e. cc
insert_name-not_nil n (m ∷ ms) = elim (Bool-cases (le_text n m)) [
  | inl h ↦ rw h (λ e. cc)
  | inr h ↦ rw h (λ e. cc)
]

-- Only no files have no sorted names.
nothing_queued : (fs : List RemoteFile) → [] ≡ sorted_names (names_of fs) → fs ≡ []
unfolding sorted_names
nothing_queued [] e = refl
nothing_queued (f ∷ fs) e = absurd (insert_name-not_nil f.name (sorted_names (names_of fs)) (sym e))

module _ (m : Machine) (config : Config) (w : World) (moved : List Text) (fresh : List RemoteFile)
    (move : IsMove m config w moved fresh)
    (lands : total_size (after m config w).remote
      ≤ℤ total_size w.remote +ℤ moved_bytes m config w moved) where
  landed_from :
      (ns : List Text)
      → ns ≡ names m config w
      → total_size (upload_files (memory m) config ns w).1.remote
        ≤ℤ total_size w.remote +ℤ moved_bytes m config w moved
  unfolding upload_files report_moved ready_files total_size
  landed_from [] e = rw (nothing_queued (queued m config w) e) (omega int_laws)
  landed_from (n ∷ ns) e =
      let there : All (λ x. is_among x (names_of (w.dirs (spool m config w))) ≡ true) (n ∷ ns) =
        subst (All (λ x. is_among x (names_of (w.dirs (spool m config w))) ≡ true)) (sym e)
          (All-map _ _ _ (λ x h. h.0) (names_there m config w)) in
      rw (sized_files_found m (spool m config w) (n ∷ ns) w there, move.grant) lands

  pub upload_pending-lands :
      total_size (upload_pending (memory m) config w).1.remote
      ≤ℤ total_size w.remote +ℤ moved_bytes m config w moved
  unfolding upload_pending ready_files
  upload_pending-lands = rw move.installed (landed_from (names m config w) refl)
