-- ===== src/Drive/Room.antt =====
-- What `prune` of videobackup/retention.py leaves in the remote folder, on a quiet machine with a
-- lawful rclone.
use videobackup.Base.{
  ◌≡◌, refl, subst, List, [], ◌∷◌, Option, none, some, inl, inr, ℤ, pos, ◌+ℤ◌, ◌≤ℤ◌, ◌<ℤ◌, ltb_ℤ,
  lt→ltb_ℤ, int_laws, All, length, Bool-cases, false, is_among, Text, if◌then◌else◌, arith,
}
use videobackup.Base.Effects.{ok}
use videobackup.Config.{Config}
use videobackup.Host.Memory.{World, Machine, memory}
use videobackup.Retention.{RemoteFile, total_size, select_for_deletion, effective_prune_cap}
use videobackup.Retention.Least.{IsWithinLimits}
use videobackup.Retention.Cap.{effective_prune_cap_bounds, effective_prune_cap-quota_iff}
use videobackup.Spool.Names.{names_of, without, HasDistinctNames}
use videobackup.Spool.Chosen.{chosen-All, left-IsWithinLimits}
use videobackup.Drive.{prune, delete_remote, run_rclone, report_deleted, join_lines}
use videobackup.Drive.Lines.{IsPlainName}
use videobackup.Drive.Quiet.{
  IsRclone, delete_argv, list_remote_lem, remote_about_lem, delete_remote_lem,
}

names-All :
    (P : Text → Type 0) (fs : List RemoteFile) → All (λ f. P f.name) fs → All P (names_of fs)
names-All P [] _ = tt
names-All P (f ∷ fs) (h, hs) = (h, names-All P fs hs)

-- Taking files away leaves no more bytes, where no size is negative.
total_size-without :
    (names : List Text) (fs : List RemoteFile)
    → All (λ f. pos 0 ≤ℤ f.size) fs
    → total_size (without names fs) ≤ℤ total_size fs
unfolding total_size
total_size-without names [] _ = ground arith
total_size-without names (f ∷ fs) (h, hs) =
    let ih = total_size-without names fs hs in
    elim (Bool-cases (is_among f.name names)) [
      | inl e ↦ rw e (omega int_laws)
      | inr e ↦ rw e (omega int_laws)
    ]

-- Where files are deleted past the trash, at least the bytes that leave the folder are free in the account.
abbrev pub FreesSpace : Machine → Config → World → Type 0
FreesSpace m config w =
    config.use_trash ≡ false
    → (contents : Text)
    → w.free +ℤ total_size w.remote
      ≤ℤ (m.run (delete_argv config) (record w { temp = some contents })).1.free
        +ℤ total_size (m.run (delete_argv config) (record w { temp = some contents })).1.remote

module _ (m : Machine) (config : Config) (w : World) (rclone : IsRclone m config w)
    (reserve : ℤ) where
  -- The account's free bytes are asked for only if a minimum is set.
  abbrev pub known_free : Option ℤ
  known_free = if ltb_ℤ (pos 0) config.min_free_bytes then some w.free else none

  abbrev pub remote_cap : ℤ
  remote_cap =
      effective_prune_cap config.max_drive_bytes reserve (total_size w.remote) known_free
        config.min_free_bytes

  abbrev pub remote_victims : List RemoteFile
  remote_victims = select_for_deletion w.remote remote_cap w.clock config.max_age_days

  delete_remote-free :
      (names : List Text)
      → config.use_trash ≡ false
      → FreesSpace m config w
      → w.free +ℤ total_size w.remote
        ≤ℤ (delete_remote (memory m) config names w).1.free
          +ℤ total_size (delete_remote (memory m) config names w).1.remote
  unfolding delete_remote run_rclone report_deleted
  delete_remote-free [] no_trash frees = omega int_laws
  delete_remote-free (name ∷ names) no_trash frees =
      rw rclone.installed (frees no_trash (join_lines (name ∷ names)))

  prune_steps :
      prune (memory m) config reserve w
      ≡ delete_remote (memory m) config (names_of remote_victims) w
  unfolding prune
  prune_steps =
      rw (list_remote_lem m config w rclone)
        (elim (Bool-cases (ltb_ℤ (pos 0) config.min_free_bytes)) [
          | inl e ↦ rw e (rw (remote_about_lem m config w rclone) refl)
          | inr e ↦ rw e refl
        ])

  module _ (distinct : HasDistinctNames w.remote) (lines : All (λ f. IsPlainName f.name) w.remote)
      (nonneg : pos 0 ≤ℤ reserve) (small : reserve ≤ℤ config.max_drive_bytes) where
    cap_nonneg : pos 0 ≤ℤ remote_cap
    cap_nonneg =
        (effective_prune_cap_bounds config.max_drive_bytes reserve (total_size w.remote) known_free
          config.min_free_bytes nonneg small).0

    prune_lem :
        ((prune (memory m) config reserve w).0 ≡ ok (length (names_of remote_victims)))
        × ((prune (memory m) config reserve w).1.remote
            ≡ without (names_of remote_victims) w.remote)
    prune_lem = rw prune_steps (
        delete_remote_lem m config w rclone (names_of remote_victims) (
          names-All IsPlainName remote_victims
            (chosen-All w.remote remote_cap w.clock config.max_age_days cap_nonneg _ lines)))

    -- `prune` deletes exactly the files that `select_for_deletion` chooses for the cap, and counts
    -- them; what it leaves in the folder is within the cap and the age limit, and `reserve` more
    -- bytes fit under `max_drive_bytes`. This holds on a machine on which nothing else acts and
    -- rclone does what it is relied on for, where the folder has no two files of a name, every name
    -- is plain, and the reserve itself fits.
    pub prune-room :
        ((prune (memory m) config reserve w).0 ≡ ok (length (names_of remote_victims)))
        × ((prune (memory m) config reserve w).1.remote
            ≡ without (names_of remote_victims) w.remote)
        × IsWithinLimits remote_cap w.clock config.max_age_days
            (prune (memory m) config reserve w).1.remote
        × (total_size (prune (memory m) config reserve w).1.remote +ℤ reserve
            ≤ℤ config.max_drive_bytes)
    prune-room =
        let left =
          left-IsWithinLimits w.remote remote_cap w.clock config.max_age_days cap_nonneg distinct in
        let bounds =
          effective_prune_cap_bounds config.max_drive_bytes reserve (total_size w.remote) known_free
            config.min_free_bytes nonneg small in
        rw prune_lem.1 (prune_lem.0, refl, left, omega (int_laws, left.1, bounds.1))

    -- With a minimum of free bytes set and the trash not used, the account has that minimum and
    -- `reserve` more bytes free after `prune`. This holds on a machine on which nothing else acts and
    -- rclone does what it is relied on for and frees the bytes that it deletes past the trash, where
    -- the folder has no two files of a name, every name is plain, no size is negative, the reserve
    -- itself fits, and deleting the whole folder would free enough.
    pub prune-free :
        pos 0 <ℤ config.min_free_bytes
        → All (λ f. pos 0 ≤ℤ f.size) w.remote
        → config.min_free_bytes +ℤ reserve ≤ℤ w.free +ℤ total_size w.remote
        → config.use_trash ≡ false
        → FreesSpace m config w
        → config.min_free_bytes +ℤ reserve ≤ℤ (prune (memory m) config reserve w).1.free
    prune-free guarded sizes feasible no_trash frees =
        let before = total_size w.remote in
        let after = total_size (prune (memory m) config reserve w).1.remote in
        let fits : after ≤ℤ remote_cap = prune-room.2.1 in
        let spec =
          effective_prune_cap-quota_iff config.max_drive_bytes reserve before after
            config.min_free_bytes w.free nonneg small guarded feasible
            (rw prune_lem.1 (total_size-without (names_of remote_victims) w.remote sizes)) in
        let known : known_free ≡ some w.free =
          rw (lt→ltb_ℤ (pos 0) config.min_free_bytes guarded) refl in
        let kept = spec.0 (
          subst
            (λ free.
              after
              ≤ℤ effective_prune_cap config.max_drive_bytes reserve before free
                  config.min_free_bytes)
            known fits) in
        let space = delete_remote-free (names_of remote_victims) no_trash frees in
        let moved : w.free +ℤ before ≤ℤ (prune (memory m) config reserve w).1.free +ℤ after =
          rw prune_steps space in
        omega (int_laws, kept.1, moved)
