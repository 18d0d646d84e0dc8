-- ===== src/Main/Guarded/Spool.antt =====
-- `prune_raw_spool` of videobackup/retention.py deletes only what it has seen to be too large.
use videobackup.Base.{inl, inr, ℕ, List, [], ◌∷◌, ◌++◌, Text, ℤ, ◌<ℤ◌, pos}
use videobackup.Base.{All, leb_ℤ, ltb_ℤ, filter_by, Bool-cases, ltb_ℤ→lt}
use videobackup.Base.Effects.{M, pure, follow, is_os_error}
use videobackup.Base.Keeps.{Keeps, keeps_rules}
use videobackup.Base.After.{
  After, follow-After, recover-After, if-After, After-keeps, After-and, After-of, follow_state,
}
use videobackup.Config.{Config, spool_raw, raw_segment_patterns}
use videobackup.Host.{Host}
use videobackup.Retention.{RemoteFile, select_oversize}
use videobackup.Spool.{
  scan_file, scan_names, scan_dir, unlink_victim, unlink_victims, unlink_all, drop_files,
  drop_oversize, prune_raw_spool,
}
use videobackup.Spool.Keeps.{scan_names-Keeps, scan_dir-Keeps, unlink_victim-Keeps}
use videobackup.Main.Guarded.{Guarded}

module _ (H : Host) (config : Config) (G : Guarded H config) where
  abbrev raw : Text
  raw = spool_raw config

  -- A file of that size is known to be too large, if it is.
  abbrev Measured : RemoteFile → H.State → Type 0
  Measured f s = config.max_drive_bytes <ℤ f.size → G.Large f.name s

  abbrev Scanned : List RemoteFile → H.State → Type 0
  Scanned fs s = All (λ f. Measured f s) fs

  scan_file-Safe : (name : Text) → Keeps G.Safe (scan_file H raw name)
  unfolding scan_file
  scan_file-Safe name = search (keeps_rules, G.calls.stat)

  -- What is known to be too large stays known.
  Scanned-Keeps :
      {A : Type 0} (m : M H.State A)
      → ((n : Text) → Keeps (G.Large n) m)
      → (fs : List RemoteFile) → Keeps (Scanned fs) m
  Scanned-Keeps m k [] = record { at = λ s h. tt }
  Scanned-Keeps m k (f ∷ fs) = record {
    at = λ s (h, hs). (λ over. (k f.name).at s (h over), (Scanned-Keeps m k fs).at s hs);
  }

  scan_file-measured :
      (name : Text) (s : H.State) → After Scanned (λ _. Unit) (scan_file H raw name s)
  unfolding scan_file
  scan_file-measured name s =
      recover-After Scanned (λ _. Unit) (λ _. Unit) _ _
        (follow-After (λ st s'. config.max_drive_bytes <ℤ st.size → G.Large name s') (λ _. Unit)
          Scanned (H.stat raw name s) _ (G.measured name s) (λ st s1 h. (h, tt)))
        (λ e s1 q. if-After Scanned (λ _. Unit) (is_os_error e) _ _ (λ _. tt) (λ _. tt))

  All-append :
      (P : RemoteFile → Type 0) (xs ys : List RemoteFile) → All P xs → All P ys → All P (xs ++ ys)
  All-append P [] ys _ h = h
  All-append P (x ∷ xs) ys (k, ks) h = (k, All-append P xs ys ks h)

  -- The state is safe, and what was found is measured.
  abbrev Known : List RemoteFile → H.State → Type 0
  Known fs s = G.Safe s × Scanned fs s

  -- A scan that goes on after `found`.
  more-Known :
      (found : List RemoteFile) (m : M H.State (List RemoteFile)) (s : H.State)
      → ((n : Text) → Keeps (G.Large n) m)
      → After Known G.Safe (m s)
      → Scanned found s
      → After Known G.Safe (follow (m s) (λ rest. pure (found ++ rest)))
  more-Known found m s k h known =
      follow-After (λ rest s'. Scanned found s' × Known rest s') G.Safe Known (m s) _
        (After-and (Scanned found) Known G.Safe (m s) ((Scanned-Keeps m k found).at s known) h)
        (λ rest s' q. (q.1.0, All-append _ found rest q.0 q.1.1))

  scan_names-Known :
      (names : List Text) (s : H.State) → G.Safe s → After Known G.Safe (scan_names H raw names s)
  unfolding scan_names
  scan_names-Known [] s safe = (safe, tt)
  scan_names-Known (name ∷ names) s safe =
      follow-After Known G.Safe Known (scan_file H raw name s) _
        (After-keeps Scanned G.Safe _ ((scan_file-Safe name).at s safe) (scan_file-measured name s))
        (λ found s1 h.
          more-Known found (scan_names H raw names) s1
            (λ n. scan_names-Keeps H (G.Large n) (G.large n).calls raw names)
            (scan_names-Known names s1 h.0) h.1)

  scan_dir-Known :
      (patterns : List Text) (s : H.State)
      → G.Safe s
      → After Known G.Safe (scan_dir H raw patterns s)
  unfolding scan_dir
  scan_dir-Known [] s safe = (safe, tt)
  scan_dir-Known (pattern ∷ patterns) s safe =
      follow-After (λ _. G.Safe) G.Safe Known (H.glob raw pattern s) _
        (After-of G.Safe _ ((G.calls.glob raw pattern).at s safe))
        (λ names s1 h1.
          follow-After Known G.Safe Known (scan_names H raw names s1) _
            (scan_names-Known names s1 h1)
            (λ found s2 h2.
              more-Known found (scan_dir H raw patterns) s2
                (λ n. scan_dir-Keeps H (G.Large n) (G.large n).calls raw patterns)
                (scan_dir-Known patterns s2 h2.0) h2.1))

  -- The state is safe, and the file may be deleted.
  abbrev Spare : Text → H.State → Type 0
  Spare name s = G.Safe s × G.Large name s

  unlink-Spare : (name : Text) → Keeps (Spare name) (H.unlink raw name)
  unlink-Spare name = record {
    at = λ s (safe, over).
        (G.unlink_raw name s safe (inr over), ((G.large name).unlink raw name).at s over);
  }

  unlink_victim-Spare : (name : Text) → Keeps (Spare name) (unlink_victim H raw name)
  unfolding unlink_victim
  unlink_victim-Spare name = search (keeps_rules, unlink-Spare)

  abbrev AllLarge : List RemoteFile → H.State → Type 0
  AllLarge fs s = All (λ f. G.Large f.name s) fs

  unlink_victim-AllLarge :
      (name : Text) (fs : List RemoteFile) → Keeps (AllLarge fs) (unlink_victim H raw name)
  unlink_victim-AllLarge name [] = record { at = λ s h. tt }
  unlink_victim-AllLarge name (f ∷ fs) = record {
    at = λ s (h, hs). (
      (unlink_victim-Keeps H (G.Large f.name) (G.large f.name).calls raw
            ((G.large f.name).unlink raw) name).at
          s h,
      (unlink_victim-AllLarge name fs).at s hs,
    );
  }

  unlink_victims-Safe :
      (fs : List RemoteFile) (n : ℕ) (z : ℤ) (s : H.State)
      → G.Safe s
      → AllLarge fs s
      → G.Safe (unlink_victims H raw fs n z s).1
  unfolding unlink_victims
  unlink_victims-Safe [] n z s safe _ = safe
  unlink_victims-Safe (f ∷ fs) n z s safe (h, hs) =
      follow_state (λ _ s'. AllLarge fs s' × G.Safe s') G.Safe (unlink_victim H raw f.name s) _
        (After-and (AllLarge fs) (λ _. G.Safe) G.Safe _ ((unlink_victim-AllLarge f.name fs).at s hs)
          (After-of G.Safe _ ((unlink_victim-Spare f.name).at s (safe, h)).0))
        (λ done s' q. unlink_victims-Safe fs _ _ s' q.1 q.0)

  drop_files-Safe :
      (fs : List RemoteFile) (s : H.State)
      → G.Safe s
      → AllLarge fs s
      → G.Safe (drop_files H raw fs s).1
  unfolding drop_files unlink_all
  drop_files-Safe [] s safe _ = safe
  drop_files-Safe (f ∷ fs) s safe h =
      follow_state (λ _. G.Safe) G.Safe (unlink_victims H raw (f ∷ fs) 0 (pos 0) s) _
        (After-of G.Safe _ (unlink_victims-Safe (f ∷ fs) 0 (pos 0) s safe h)) (λ counts s' q. q)

  filtered_large :
      (fs : List RemoteFile) (s : H.State)
      → Scanned fs s
      → AllLarge (filter_by (λ f. ltb_ℤ config.max_drive_bytes f.size) fs) s
  filtered_large [] s _ = tt
  filtered_large (f ∷ fs) s (h, hs) = elim (Bool-cases (ltb_ℤ config.max_drive_bytes f.size)) [
    | inl e ↦ rw e (h (ltb_ℤ→lt config.max_drive_bytes f.size e), filtered_large fs s hs)
    | inr e ↦ rw e (filtered_large fs s hs)
  ]

  oversize_large :
      (fs : List RemoteFile) (s : H.State)
      → Scanned fs s
      → AllLarge (select_oversize fs config.max_drive_bytes) s
  unfolding select_oversize
  oversize_large fs s h = elim (Bool-cases (leb_ℤ config.max_drive_bytes (pos 0))) [
    | inl e ↦ rw e tt
    | inr e ↦ rw e (filtered_large fs s h)
  ]

  pub prune_raw_spool-Safe : Keeps G.Safe (prune_raw_spool H config)
  unfolding prune_raw_spool drop_oversize
  prune_raw_spool-Safe = record {
    at = λ s safe.
        follow_state Known G.Safe (scan_dir H raw raw_segment_patterns s) _
          (scan_dir-Known raw_segment_patterns s safe)
          (λ files s1 q. drop_files-Safe _ s1 q.0 (oversize_large files s1 q.1));
  }
