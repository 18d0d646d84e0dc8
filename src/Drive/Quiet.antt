-- ===== src/Drive/Quiet.antt =====
-- The calls of rclone of videobackup/retention.py on a quiet machine with a lawful rclone.
use videobackup.Base.{
  ◌≡◌, refl, sym, ap, ◌∙◌, subst, true, List, [], ◌∷◌, ◌++◌, some, ℤ, All, length, Text, codes,
  same,
}
use videobackup.Base.Effects.{ok}
use videobackup.Base.Values.{Value, text, int, list, dict, Items, nil, cons, end, field, get_field}
use videobackup.Config.{Config, remote_path}
use videobackup.Host.Memory.{World, Machine, memory, temp_path}
use videobackup.Retention.{RemoteFile}
use videobackup.Spool.Names.{without, without_none, none_among_nil}
use videobackup.Drive.{
  is_zero, delete_args, expand_zulu, text_or, items_of, elements, entry_of, entries_of, run_rclone,
  parse_mod_time, retry_parse, list_remote, remote_about, free_of, delete_remote, report_deleted,
  join_lines,
}
use videobackup.Drive.Lines.{lines_of, lines_of-plain, IsPlainName}

-- What `rclone lsjson` says of a file; `stamp` writes its time.
abbrev pub entry : (ℤ → Text) → RemoteFile → Value
entry stamp f = dict (
    field (codes "Name") (text f.name)
      (field (codes "Size") (int f.size) (field (codes "ModTime") (text (stamp f.mod_time)) end)))

abbrev pub listing : (ℤ → Text) → List RemoteFile → Items
listing stamp [] = nil
listing stamp (f ∷ fs) = cons (entry stamp f) (listing stamp fs)

abbrev pub lsjson_argv : Config → List Text
lsjson_argv config =
    codes "rclone" ∷ codes "lsjson" ∷ codes "--files-only" ∷ remote_path config ∷ []

abbrev pub about_argv : Config → List Text
about_argv config =
    codes "rclone" ∷ codes "about" ∷ (config.rclone_remote ++ codes ":") ∷ codes "--json" ∷ []

abbrev pub delete_argv : Config → List Text
delete_argv config = codes "rclone" ∷ delete_args (remote_path config) temp_path config.use_trash

-- What rclone is relied on for in one state of the world, where nothing fails: `lsjson` lists the
-- folder, `about` gives the free bytes, and `delete` removes the files whose names are lines of the
-- list that it is given, where no line has a comment or a space in it.
pub record IsRclone (m : Machine) (config : Config) (w : World) : Type 0 where
  pub installed : m.installed (codes "rclone") ≡ true
  pub stamp : ℤ → Text
  pub reads_stamps :
      All (λ f. m.fromisoformat (expand_zulu (stamp f.mod_time)) ≡ ok f.mod_time) w.remote
  pub lists : is_zero (m.run (lsjson_argv config) w).0.returncode ≡ true
  pub lists_all :
      m.loads (text_or (m.run (lsjson_argv config) w).0.stdout (codes "[]"))
      ≡ ok (list (listing stamp w.remote))
  pub lists_only : (m.run (lsjson_argv config) w).1 ≡ w
  pub tells : is_zero (m.run (about_argv config) w).0.returncode ≡ true
  pub tells_free :
      m.loads (text_or (m.run (about_argv config) w).0.stdout (codes "{}"))
      ≡ ok (dict (field (codes "free") (int w.free) end))
  pub tells_only : (m.run (about_argv config) w).1 ≡ w
  pub deletes :
      (contents : Text)
      → is_zero (m.run (delete_argv config) (record w { temp = some contents })).0.returncode ≡ true
  pub deletes_lines :
      (contents : Text)
      → All IsPlainName (lines_of contents)
      → (m.run (delete_argv config) (record w { temp = some contents })).1.remote
        ≡ without (lines_of contents) w.remote

module _ (m : Machine) (config : Config) (w : World) (rclone : IsRclone m config w) where
  entry_of_lem :
      (f : RemoteFile)
      → m.fromisoformat (expand_zulu (rclone.stamp f.mod_time)) ≡ ok f.mod_time
      → entry_of (memory m) (entry rclone.stamp f) w ≡ (ok f, w)
  unfolding entry_of get_field same parse_mod_time retry_parse
  entry_of_lem f h = rw h refl

  entries_of_lem :
      (fs : List RemoteFile)
      → All (λ f. m.fromisoformat (expand_zulu (rclone.stamp f.mod_time)) ≡ ok f.mod_time) fs
      → entries_of (memory m) (items_of (listing rclone.stamp fs)) w ≡ (ok fs, w)
  unfolding entries_of items_of
  entries_of_lem [] _ = refl
  entries_of_lem (f ∷ fs) (h, hs) = rw (entry_of_lem f h) (rw (entries_of_lem fs hs) refl)

  -- `list_remote` gives the files of the remote folder with their names, sizes and times, and changes
  -- nothing, where rclone does what it is relied on for.
  pub list_remote_lem : list_remote (memory m) config w ≡ (ok w.remote, w)
  unfolding list_remote run_rclone elements
  list_remote_lem =
      rw (rclone.installed, rclone.lists, rclone.lists_all, rclone.lists_only)
        (entries_of_lem w.remote rclone.reads_stamps)

  pub remote_about_lem : remote_about (memory m) config w ≡ (ok (some w.free), w)
  unfolding remote_about run_rclone free_of get_field same
  remote_about_lem = rw (rclone.installed, rclone.tells, rclone.tells_free, rclone.tells_only) refl

  -- The files of the given names go, and are counted.
  pub delete_remote_lem :
      (names : List Text)
      → All IsPlainName names
      → ((delete_remote (memory m) config names w).0 ≡ ok (length names))
        × ((delete_remote (memory m) config names w).1.remote ≡ without names w.remote)
  unfolding delete_remote run_rclone report_deleted
  delete_remote_lem [] _ = (refl, sym (without_none [] w.remote (none_among_nil w.remote)))
  delete_remote_lem (name ∷ names) h =
      let contents = join_lines (name ∷ names) in
      rw rclone.installed (
        rw (rclone.deletes contents) refl,
        rclone.deletes_lines contents
              (subst (All IsPlainName) (sym (lines_of-plain (name ∷ names) h)) h)
            ∙ ap (λ l. without l w.remote) (lines_of-plain (name ∷ names) h),
      )
