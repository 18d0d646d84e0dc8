-- ===== src/Main/Progress.antt =====
-- What videobackup/encrypt.py gets done on a quiet machine where gpg succeeds: every closed segment is
-- encrypted and deleted.
use videobackup.Base.{
  ◌≡◌, refl, sym, ◌∙◌, inl, inr, true, List, [], ◌∷◌, ◌++◌, append-nil, none, some, Option, subst,
  ◌||◌, Bool,
}
use videobackup.Base.{ℕ, ℤ, Text, codes, same, same→eq, is_among, Bool-cases, ◌+◌, if◌then◌else◌}
use videobackup.Base.After.{After, After-and, After-state, After-weaken, follow_state}
use videobackup.Config.{Config, spool_raw}
use videobackup.Encrypt.{encrypt_segment, encrypt_segments, encrypt_pending, glob_all, sorted_names}
use videobackup.Encrypt.Safe.{IsSafe}
use videobackup.Encrypt.Safety.{encrypt_segment-Leaves, encrypt_segments-Leaves}
use videobackup.Encrypt.Finish.{Works, IsDone, IsSettled, Finishes, encrypt_segment-Finishes}
use videobackup.Encrypt.{settle_margin}
use videobackup.Spool.Names.{names_of}
use videobackup.Spool.Quiet.{matching}
use videobackup.Uploader.Members.{is_among-filter_by}
use videobackup.Base.{leb_ℤ, ◌-ℤ◌}
use videobackup.Encrypt.Sorted.{is_among-sorted_names, among_either}
use videobackup.Host.Memory.{World, Machine, memory, find_file, glob_match}
use videobackup.Main.Guarded.Less.{IsLess, encrypt_segment-IsLess, encrypt_segments-IsLess}
use videobackup.Retention.{RemoteFile}

found_among :
    (n : Text) (f : RemoteFile) (fs : List RemoteFile)
    → find_file n fs ≡ some f
    → is_among n (names_of fs) ≡ true
unfolding find_file is_among
found_among n f [] h = cc
found_among n f (g ∷ gs) h = elim (Bool-cases (same n g.name)) [
  | inl e ↦ rw e refl
  | inr e ↦ rw e (found_among n f gs (rw e at h))
]

-- The test of the two patterns.
abbrev pub is_segment : Text → Bool
is_segment n = glob_match (codes "*.mp4") n || glob_match (codes "*.ts") n

-- A file that one of the patterns matches is among the sorted names.
listed :
    (n : Text) (f : RemoteFile) (fs : List RemoteFile)
    → find_file n fs ≡ some f
    → is_segment n ≡ true
    → is_among n (
        sorted_names
          (names_of (matching (codes "*.mp4") fs) ++ (names_of (matching (codes "*.ts") fs) ++ [])))
      ≡ true
listed n f fs there matches =
    is_among-sorted_names n _
    ∙ (among_either n (names_of (matching (codes "*.mp4") fs)) _
        ∙ (rw
            (
              is_among-filter_by n (glob_match (codes "*.mp4")) fs,
              append-nil (names_of (matching (codes "*.ts") fs)),
              is_among-filter_by n (glob_match (codes "*.ts")) fs,
              found_among n f fs there,
            )
            matches))

module _ (m : Machine) (config : Config) (works : Works m config)
    (tools : (argv : List Text) (w : World) (n : Text)
      → find_file n ((m.run argv w).1.dirs (spool_raw config))
        ≡ find_file n (w.dirs (spool_raw config))) where
  -- What is done stays done.
  stays-IsDone :
      (n : Text) (u v : World)
      → IsSafe config u v
      → IsLess m config tools u v
      → IsDone config n u
      → IsDone config n v
  stays-IsDone n u v safe less (gone, copy) =
      (elim (less n) [ inl e ↦ e ∙ gone | inr e ↦ e ], safe.copies n copy)

  segments-IsSafe :
      (now : ℤ) (names : List Text) (count : ℕ) (w : World)
      → IsSafe config w (encrypt_segments (memory m) config now names count w).1
  segments-IsSafe now names count w =
      After-state (IsSafe config w) _ (encrypt_segments-Leaves m config works.gpg now names count w)

  -- What a step leaves, of the segment that it is about and of the others.
  abbrev Stepped : ℤ → Text → World → World → Type 0
  Stepped now name w w' =
      IsSafe config w w' × (IsLess m config tools w w' × Finishes config now name w w')

  segment-Stepped :
      (now : ℤ) (name : Text) (w : World)
      → After (λ _. Stepped now name w) (λ _. ⊥) (encrypt_segment (memory m) config now name w)
  segment-Stepped now name w =
      After-and (IsSafe config w) _ (λ _. ⊥) _
        (After-state (IsSafe config w) _ (encrypt_segment-Leaves m config works.gpg now name w))
        (After-and (IsLess m config tools w) _ (λ _. ⊥) _
          (encrypt_segment-IsLess m config tools now name w)
          (encrypt_segment-Finishes m config works now name w))

  none-some : {f : RemoteFile} → ¬ (◌≡◌ {A = Option RemoteFile} none (some f))
  none-some h = cc

  segments-IsDone :
      (now : ℤ) (n : Text) (names : List Text) (count : ℕ) (w : World) (f : RemoteFile)
      → is_among n names ≡ true
      → find_file n (w.dirs (spool_raw config)) ≡ some f
      → IsSettled now f
      → IsDone config n (encrypt_segments (memory m) config now names count w).1
  unfolding encrypt_segments is_among
  segments-IsDone now n [] count w f among there settled = cc
  segments-IsDone now n (name ∷ names) count w f among there settled =
      follow_state (λ _. Stepped now name w) (IsDone config n)
        (encrypt_segment (memory m) config now name w) _
        (After-weaken (λ _. Stepped now name w) (λ _. Stepped now name w) (λ _. ⊥) (IsDone config n)
          _ (segment-Stepped now name w) (λ _ s h. h) (λ s h. absurd h))
        (λ done s (safe, (less, finished)).
          let rest_done : IsDone config n s
              → IsDone config n
                  (encrypt_segments (memory m) config now names (if done then count + 1 else count)
                    s).1 =
            stays-IsDone n s _ (segments-IsSafe now names _ s)
              (encrypt_segments-IsLess m config tools now names _ s) in
          elim (Bool-cases (same n name)) [
            | inl e ↦ rest_done (
                subst (λ k. Finishes config now k w s) (sym (same→eq n name e)) finished f there
                  settled)
            | inr e ↦ (elim (less n) [
              | inl p ↦ segments-IsDone now n names _ s f (rw e at among) (p ∙ there) settled
              | inr gone ↦ (elim (safe.kept n) [
                | inl p ↦ absurd (none-some (sym gone ∙ (p ∙ there)))
                | inr copy ↦ rest_done (gone, copy)
              ])
            ])
          ])

  -- On a quiet machine, `encrypt_pending` encrypts and deletes every closed segment: afterwards a
  -- file that it lists and that was last written 15 seconds before or earlier is not in the raw spool,
  -- and a file with the name of its encrypted copy is in the encrypted spool. This holds where nothing
  -- else acts, gpg is installed, succeeds, and writes its output file alone, programs leave the raw
  -- spool as it is, and deletions there are not refused.
  pub encrypt_pending-IsDone :
      (w : World) (n : Text) (f : RemoteFile)
      → m.installed (codes "gpg") ≡ true
      → is_segment n ≡ true
      → find_file n (w.dirs (spool_raw config)) ≡ some f
      → leb_ℤ settle_margin (w.clock -ℤ f.mod_time) ≡ true
      → IsDone config n (encrypt_pending (memory m) config w).1
  unfolding encrypt_pending glob_all
  encrypt_pending-IsDone w n f installed matches there settled = rw installed (
      segments-IsDone w.clock n _ 0 w f (listed n f (w.dirs (spool_raw config)) there matches) there
        settled)
