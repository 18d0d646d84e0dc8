-- ===== src/Spool/Raw.antt =====
-- What `prune_raw_spool` of videobackup/retention.py deletes, on a machine in memory.
use videobackup.Base.{
  ◌≡◌, refl, sym, subst, ◌⊎◌, inl, inr, ℕ, true, false, List, [], ◌∷◌, ◌++◌, Option, none, some,
}
use videobackup.Base.{
  ℤ, pos, ◌<ℤ◌, leb_ℤ, ltb_ℤ, All, filter_by, Bool-cases, Text, same, same→eq, same_refl, ltb_ℤ→lt,
}
use videobackup.Base.Effects.{is_os_error}
use videobackup.Base.After.{After, follow-After, follow_state}
use videobackup.Base.Keeps.{Keeps, Keeps-pure, Keeps-bind, Keeps-catch, Keeps-branch, Keeps-throw}
use videobackup.Config.{Config, spool_raw, spool_encrypted, raw_segment_patterns}
use videobackup.Encrypt.Safe.{raw_apart}
use videobackup.Host.Memory.{World, Machine, memory, find_file, remove_file, set_dir, delete_found}
use videobackup.Retention.{RemoteFile, select_oversize}
use videobackup.Spool.{
  scan_file, scan_names, scan_dir, unlink_victim, unlink_victims, unlink_all, drop_files,
  drop_oversize, prune_raw_spool,
}
use videobackup.Spool.Names.{find_file-remove_file}

module _ (config : Config) (w : World) where
  -- A file that was in the raw spool, with its size.
  abbrev pub WasThere : Text → ℤ → Type 0
  WasThere n size =
      (f : RemoteFile) × (find_file n (w.dirs (spool_raw config)) ≡ some f) × (f.size ≡ size)

  -- A segment that was larger than the remote folder may be.
  abbrev pub WasTooLarge : Text → Type 0
  WasTooLarge n = (size : ℤ) × WasThere n size × (config.max_drive_bytes <ℤ size)

  -- The raw spool has lost such segments only, and the encrypted one is as it was.
  abbrev pub LostLargeOnly : World → Type 0
  LostLargeOnly w' =
      ((n : Text)
        → (find_file n (w'.dirs (spool_raw config)) ≡ find_file n (w.dirs (spool_raw config)))
          ⊎ WasTooLarge n)
      × (w'.dirs (spool_encrypted config) ≡ w.dirs (spool_encrypted config))

module _ (m : Machine) (config : Config) (w : World) where
  abbrev raw : Text
  raw = spool_raw config

  -- A scan reads the files' sizes and changes nothing.
  abbrev Scanned : List RemoteFile → World → Type 0
  Scanned fs s = (s ≡ w) × All (λ f. WasThere config w f.name f.size) fs

  scan_file-Scanned :
      (name : Text) → After Scanned (LostLargeOnly config w) (scan_file (memory m) raw name w)
  unfolding scan_file
  scan_file-Scanned name = from (find_file name (w.dirs raw)) refl
    where
      from :
          (o : Option RemoteFile)
          → find_file name (w.dirs raw) ≡ o
          → After Scanned (LostLargeOnly config w) (scan_file (memory m) raw name w)
      from none e = rw e (refl, tt)
      from (some f) e = rw e (refl, ((f, e, refl), tt))

  All-append :
      (P : RemoteFile → Type 0) (xs ys : List RemoteFile) → All P xs → All P ys → All P (xs ++ ys)
  All-append P [] ys _ h = h
  All-append P (x ∷ xs) ys (k, ks) h = (k, All-append P xs ys ks h)

  scan_names-Scanned :
      (names : List Text) (s : World)
      → s ≡ w
      → After Scanned (LostLargeOnly config w) (scan_names (memory m) raw names s)
  unfolding scan_names
  scan_names-Scanned [] s e = (e, tt)
  scan_names-Scanned (name ∷ names) s e =
      follow-After Scanned (LostLargeOnly config w) Scanned (scan_file (memory m) raw name s) _
        (subst (λ u. After Scanned (LostLargeOnly config w) (scan_file (memory m) raw name u))
          (sym e) (scan_file-Scanned name))
        λ found s1 h1.
          follow-After Scanned (LostLargeOnly config w) Scanned (scan_names (memory m) raw names s1)
            _ (scan_names-Scanned names s1 h1.0)
            λ rest s2 h2. (h2.0, All-append _ found rest h1.1 h2.1)

  scan_dir-Scanned :
      (patterns : List Text) (s : World)
      → s ≡ w
      → After Scanned (LostLargeOnly config w) (scan_dir (memory m) raw patterns s)
  unfolding scan_dir
  scan_dir-Scanned [] s e = (e, tt)
  scan_dir-Scanned (pattern ∷ patterns) s e =
      follow-After Scanned (LostLargeOnly config w) Scanned (scan_names (memory m) raw _ s) _
        (scan_names-Scanned _ s e)
        λ found s1 h1.
          follow-After Scanned (LostLargeOnly config w) Scanned
            (scan_dir (memory m) raw patterns s1) _ (scan_dir-Scanned patterns s1 h1.0)
            λ rest s2 h2. (h2.0, All-append _ found rest h1.1 h2.1)

  removed_keeps :
      (name : Text) (s : World)
      → WasTooLarge config w name
      → LostLargeOnly config w s
      → LostLargeOnly config w
          (record s { dirs = set_dir raw (remove_file name (s.dirs raw)) s.dirs })
  unfolding set_dir
  removed_keeps name s large (kept, copies) = (
    λ n. rw (same_refl raw) (elim (Bool-cases (same n name)) [
      | inl e ↦ inr (subst (WasTooLarge config w) (sym (same→eq n name e)) large)
      | inr e ↦
          subst (λ o. (o ≡ find_file n (w.dirs raw)) ⊎ WasTooLarge config w n)
            (sym (find_file-remove_file n name (s.dirs raw) e)) (kept n)
    ]),
    rw (raw_apart config) copies,
  )

  deleted_keeps :
      (name : Text) (o : Option RemoteFile) (s : World)
      → WasTooLarge config w name
      → LostLargeOnly config w s
      → LostLargeOnly config w (delete_found m raw name o s).1
  unfolding delete_found
  deleted_keeps name none s large q = q
  deleted_keeps name (some f) s large q = elim (Bool-cases (m.refuses raw name)) [
    | inl e ↦ rw e q
    | inr e ↦ rw e (removed_keeps name s large q)
  ]

  unlink_victim-Lost :
      (name : Text)
      → WasTooLarge config w name
      → Keeps (LostLargeOnly config w) (unlink_victim (memory m) raw name)
  unfolding unlink_victim
  unlink_victim-Lost name large =
      let deleted : Keeps (LostLargeOnly config w) ((memory m).unlink raw name) = record {
        at = λ s q. deleted_keeps name (find_file name (s.dirs raw)) s large q;
      } in
      Keeps-catch _ _ (Keeps-bind _ _ deleted λ _. Keeps-pure true)
        (λ e. Keeps-branch (is_os_error e) _ _ (Keeps-pure false) (Keeps-throw e))

  unlink_victims-Lost :
      (fs : List RemoteFile) (n : ℕ) (z : ℤ)
      → All (λ f. WasTooLarge config w f.name) fs
      → Keeps (LostLargeOnly config w) (unlink_victims (memory m) raw fs n z)
  unfolding unlink_victims
  unlink_victims-Lost [] n z _ = Keeps-pure _
  unlink_victims-Lost (f ∷ fs) n z (h, hs) =
      Keeps-bind _ _ (unlink_victim-Lost f.name h) λ done. unlink_victims-Lost fs _ _ hs

  drop_files-Lost :
      (fs : List RemoteFile)
      → All (λ f. WasTooLarge config w f.name) fs
      → Keeps (LostLargeOnly config w) (drop_files (memory m) raw fs)
  unfolding drop_files unlink_all
  drop_files-Lost [] _ = Keeps-pure _
  drop_files-Lost (f ∷ fs) h =
      Keeps-bind _ _ (unlink_victims-Lost (f ∷ fs) 0 (pos 0) h) λ counts. Keeps-pure _

  filtered_large :
      (fs : List RemoteFile)
      → All (λ f. WasThere config w f.name f.size) fs
      → All
          (λ f. WasTooLarge config w f.name)
          (filter_by (λ f. ltb_ℤ config.max_drive_bytes f.size) fs)
  filtered_large [] _ = tt
  filtered_large (f ∷ fs) (h, hs) = elim (Bool-cases (ltb_ℤ config.max_drive_bytes f.size)) [
    | inl e ↦ rw e ((f.size, h, ltb_ℤ→lt config.max_drive_bytes f.size e), filtered_large fs hs)
    | inr e ↦ rw e (filtered_large fs hs)
  ]

  oversize_large :
      (fs : List RemoteFile)
      → All (λ f. WasThere config w f.name f.size) fs
      → All (λ f. WasTooLarge config w f.name) (select_oversize fs config.max_drive_bytes)
  unfolding select_oversize
  oversize_large fs h = elim (Bool-cases (leb_ℤ config.max_drive_bytes (pos 0))) [
    | inl e ↦ rw e tt
    | inr e ↦ rw e (filtered_large fs h)
  ]

  -- `prune_raw_spool` deletes no segment but one that is larger than the remote folder may be, and
  -- leaves the encrypted files alone: on a machine on which nothing else acts, whichever deletions
  -- are refused, and also where it raises.
  pub prune_raw_spool-LostLargeOnly : LostLargeOnly config w (prune_raw_spool (memory m) config w).1
  unfolding prune_raw_spool drop_oversize
  prune_raw_spool-LostLargeOnly =
      follow_state Scanned (LostLargeOnly config w) (scan_dir (memory m) raw raw_segment_patterns w)
        _ (scan_dir-Scanned raw_segment_patterns w refl)
        (λ files s h.
          (drop_files-Lost (select_oversize files config.max_drive_bytes)
              (oversize_large files h.1)).at
            s (subst (LostLargeOnly config w) (sym h.0) ((λ n. inl refl), refl)))
