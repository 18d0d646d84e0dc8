-- ===== src/Spool/Left.antt =====
-- `prune_spool` of videobackup/retention.py keeps its two bounds on a quiet machine.
use videobackup.Base.{
  ◌≡◌, refl, sym, ap, ◌∙◌, subst, Bool, true, false, not, List, [], ◌∷◌, arith, inl, inr,
}
use videobackup.Base.{
  pos, ◌<ℤ◌, ◌≤ℤ◌, ltb_ℤ, ltb_ℤ→le, lt→leb_ℤ, filter_by, filter_by_comm, All-by_test, All, All-map,
  All-filter_by, Bool-cases,
}
use videobackup.Base.{Text, codes, same_refl, is_among}
use videobackup.Config.{Config, spool_encrypted}
use videobackup.Host.Memory.{World, Machine, memory, glob_match}
use videobackup.Retention.{RemoteFile, total_size, select_oversize}
use videobackup.Spool.{prune_spool}
use videobackup.Spool.Names.{
  names_of, without, HasDistinctNames, HasDistinctNames-filter_by, filter-without,
}
use videobackup.Spool.Chosen.{chosen-All, left-IsWithinLimits}
use videobackup.Spool.Quiet.{matching}
use videobackup.Spool.Bound.{
  oversize-All, listed, oversize, deliverable, backlog_victims, prune_spool_lem,
}

module _ (q : RemoteFile → Bool) where
  among_more :
      (g : RemoteFile) (names : List Text) (fs : List RemoteFile)
      → All (λ f. q f ≡ true → is_among f.name names ≡ true) fs
      → All (λ f. q f ≡ true → is_among f.name (g.name ∷ names) ≡ true) fs
  unfolding is_among
  among_more g names fs a = All-map _ _ fs (λ f p h. ground (arith, p h)) a

  among_filtered :
      (fs : List RemoteFile)
      → All (λ f. q f ≡ true → is_among f.name (names_of (filter_by q fs)) ≡ true) fs
  unfolding is_among
  among_filtered [] = tt
  among_filtered (f ∷ fs) = elim (Bool-cases (q f)) [
    | inl e ↦
        let kept : filter_by q (f ∷ fs) ≡ f ∷ filter_by q fs = rw e refl in
        subst IsAmongAll (sym kept) (
          λ _. rw (same_refl f.name) refl,
          among_more f (names_of (filter_by q fs)) fs (among_filtered fs),
        )
    | inr e ↦
        let kept : filter_by q (f ∷ fs) ≡ filter_by q fs = rw e refl in
        subst IsAmongAll (sym kept) (λ h. cc, among_filtered fs)
  ]
    where
      IsAmongAll : List RemoteFile → Type 0
      IsAmongAll l = All (λ g. q g ≡ true → is_among g.name (names_of l) ≡ true) (f ∷ fs)

  left_fail :
      (names : List Text) (fs : List RemoteFile)
      → All (λ f. q f ≡ true → is_among f.name names ≡ true) fs
      → All (λ f. q f ≡ false) (without names fs)
  left_fail names [] _ = tt
  left_fail names (f ∷ fs) (a, as') = elim (Bool-cases (is_among f.name names)) [
    | inl e ↦ rw e (left_fail names fs as')
    | inr e ↦ rw e (ground (arith, a), left_fail names fs as')
  ]

module _ (m : Machine) (config : Config) (w : World) where
  deliverable_small :
      pos 0 <ℤ config.max_drive_bytes
      → All (λ f. f.size ≤ℤ config.max_drive_bytes) (deliverable m config w)
  unfolding select_oversize
  deliverable_small h =
      let test = λ (f : RemoteFile). ltb_ℤ config.max_drive_bytes f.size in
      rw (lt→leb_ℤ (pos 0) config.max_drive_bytes h) (
        All-map (λ f. test f ≡ false) _ _ (λ f e. ltb_ℤ→le config.max_drive_bytes f.size e)
          (left_fail test _ (listed m config w) (among_filtered test (listed m config w))))

  -- After `prune_spool` the encrypted files of the spool together fit `max_spool_bytes`, each of
  -- them fits the remote folder, and no other file of the directory is touched. This holds on a
  -- machine on which nothing else acts and no deletion in the directory is refused, where no two of
  -- its files have a name in common and both limits are positive.
  pub prune_spool-bound :
      HasDistinctNames (w.dirs (spool_encrypted config))
      → ((name : Text) → m.refuses (spool_encrypted config) name ≡ false)
      → pos 0 <ℤ config.max_drive_bytes
      → pos 0 <ℤ config.max_spool_bytes
      → let after = (prune_spool (memory m) config w).1.dirs (spool_encrypted config) in
        (total_size (matching (codes "*.gpg") after) ≤ℤ config.max_spool_bytes)
        × All (λ f. f.size ≤ℤ config.max_drive_bytes) (matching (codes "*.gpg") after)
        × (filter_by (λ f. not (glob_match (codes "*.gpg") f.name)) after
            ≡ filter_by
                (λ f. not (glob_match (codes "*.gpg") f.name))
                (w.dirs (spool_encrypted config)))
  prune_spool-bound d free drive positive = (
    rw after (
        rw listed_left
          (left-IsWithinLimits kept config.max_spool_bytes w.clock (pos 0) (omega arith)
            kept_distinct).1),
    rw after (rw listed_left (All-filter_by _ _ kept (deliverable_small drive))),
    rw after (
        filter-without (glob_match gpg) (backlog_victims m config w) _ (
          chosen-All kept config.max_spool_bytes w.clock (pos 0) (omega arith) is_listed
            (All-filter_by _ _ (listed m config w) all_listed))
        ∙ filter-without (glob_match gpg) (oversize m config w) _
            (oversize-All m config w is_listed all_listed)),
  )
    where
      gpg : Text
      gpg = codes "*.gpg"

      there : List RemoteFile
      there = w.dirs (spool_encrypted config)

      kept : List RemoteFile
      kept = deliverable m config w

      is_listed : RemoteFile → Type 0
      is_listed f = glob_match gpg f.name ≡ true

      all_listed : All is_listed (listed m config w)
      all_listed = All-by_test is_listed (λ f. glob_match gpg f.name) there (λ f e. e)

      kept_distinct : HasDistinctNames kept
      kept_distinct =
          HasDistinctNames-filter_by _ (listed m config w) (HasDistinctNames-filter_by _ there d)

      after :
          (prune_spool (memory m) config w).1.dirs (spool_encrypted config)
          ≡ without
              (names_of (backlog_victims m config w))
              (without (names_of (oversize m config w)) there)
      after = (prune_spool_lem m config w d free positive).1.0

      listed_left :
          matching gpg (
            without
              (names_of (backlog_victims m config w))
              (without (names_of (oversize m config w)) there))
          ≡ without (names_of (backlog_victims m config w)) kept
      listed_left =
          filter_by_comm _ _ (without (names_of (oversize m config w)) there)
          ∙ ap (without (names_of (backlog_victims m config w))) (filter_by_comm _ _ there)
