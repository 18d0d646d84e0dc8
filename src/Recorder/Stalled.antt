-- ===== src/Recorder/Stalled.antt =====
-- What `_stalled_segment` of videobackup/recorder.py reports on a quiet machine.
use videobackup.Base.{
  ◌≡◌, refl, sym, ◌∙◌, ap, ◌⊎◌, inl, inr, List, [], ◌∷◌, ◌++◌, Option, none, some,
}
use videobackup.Base.{
  ℤ, pos, subst, ◌≤ℤ◌, ◌<ℤ◌, ◌-ℤ◌, ltb_ℤ, ltb_ℤ→lt, ltb_ℤ→le, int_laws, All, All-filter_by,
  Bool-cases, Text, codes,
}
use videobackup.Base.Effects.{Outcome, ok, raised}
use videobackup.Host.Memory.{World, Machine, memory, find_file, glob_match}
use videobackup.Retention.{RemoteFile}
use videobackup.Spool.Names.{names_of, HasDistinctNames, All-find_file}
use videobackup.Spool.Quiet.{matching}
use videobackup.Recorder.{report, newer, newest, stat_newer, judge, opened_at, stalled_segment}

abbrev pub latest : List RemoteFile → Option (Text × ℤ) → Option (Text × ℤ)
latest [] best = best
latest (f ∷ fs) best = latest fs (newer best f.name f.mod_time)

-- A file of that name and time is in the list.
abbrev pub IsIn : Text → ℤ → List RemoteFile → Type 0
IsIn name t [] = ⊥
IsIn name t (f ∷ fs) = ((f.name ≡ name) × (f.mod_time ≡ t)) ⊎ IsIn name t fs

abbrev IsAfter : Option (Text × ℤ) → ℤ → Type 0
IsAfter none t = Unit
IsAfter (some (name, time)) t = time ≤ℤ t

-- The result is the latest of the files and of the best one so far.
abbrev IsLatest : List RemoteFile → Option (Text × ℤ) → Option (Text × ℤ) → Type 0
IsLatest fs best none = Unit
IsLatest fs best (some (name, t)) =
    All (λ g. g.mod_time ≤ℤ t) fs × IsAfter best t × ((best ≡ some (name, t)) ⊎ IsIn name t fs)

abbrev parts : Option (Text × ℤ) → Text × ℤ
parts none = ([], pos 0)
parts (some pair) = pair

here :
    (f : RemoteFile) (fs : List RemoteFile) (name : Text) (t : ℤ)
    → (◌≡◌ {A = Option (Text × ℤ)} (some (f.name, f.mod_time)) (some (name, t))) ⊎ IsIn name t fs
    → IsIn name t (f ∷ fs)
here f fs name t (inl e) = inl (ap (λ o. (parts o).0) e, ap (λ o. (parts o).1) e)
here f fs name t (inr i) = inr i

later :
    {A : Type 0} (f : RemoteFile) (fs : List RemoteFile) (name : Text) (t : ℤ)
    → A ⊎ IsIn name t fs
    → A ⊎ IsIn name t (f ∷ fs)
later f fs name t (inl e) = inl e
later f fs name t (inr i) = inr (inr i)

add :
    (f : RemoteFile) (fs : List RemoteFile) (best o : Option (Text × ℤ))
    → IsLatest fs (newer best f.name f.mod_time) o
    → IsLatest (f ∷ fs) best o
unfolding newer
add f fs best none h = tt
add f fs none (some (name, t)) (a, b, i) = ((b, a), tt, inr (here f fs name t i))
add f fs (some (n0, t0)) (some (name, t)) h = elim (Bool-cases (ltb_ℤ t0 f.mod_time)) [
  | inl e ↦
      let h1 : IsLatest fs (some (f.name, f.mod_time)) (some (name, t)) = rw e at h in
      let before = ltb_ℤ→lt t0 f.mod_time e in
      ((h1.1, h1.0), omega (int_laws, before, h1.1), inr (here f fs name t h1.2))
  | inr e ↦
      let h1 : IsLatest fs (some (n0, t0)) (some (name, t)) = rw e at h in
      let before = ltb_ℤ→le t0 f.mod_time e in
      ((omega (int_laws, before, h1.1), h1.0), h1.1, later f fs name t h1.2)
]

latest-IsLatest :
    (fs : List RemoteFile) (best : Option (Text × ℤ)) → IsLatest fs best (latest fs best)
latest-IsLatest [] none = tt
latest-IsLatest [] (some (name, t)) = (tt, omega int_laws, inl refl)
latest-IsLatest (f ∷ fs) best =
    add f fs best (latest fs (newer best f.name f.mod_time)) (latest-IsLatest fs _)

module _ (m : Machine) (directory : Text) (w : World) where
  newest_found :
      (fs : List RemoteFile) (best : Option (Text × ℤ))
      → All (λ f. find_file f.name (w.dirs directory) ≡ some f) fs
      → newest (memory m) directory (names_of fs) best w ≡ (ok (latest fs best), w)
  unfolding newest stat_newer
  newest_found [] best _ = refl
  newest_found (f ∷ fs) best (h, hs) = rw h (newest_found fs (newer best f.name f.mod_time) hs)

  module _ (strptime : Text → Outcome ℤ) (prefix : Text) (limit : ℤ) where
    -- The files whose name starts with the prefix and an underscore.
    abbrev pub segments : List RemoteFile
    segments = matching (prefix ++ codes "_*") (w.dirs directory)

    -- Written last, and for longer than the limit since the time in its name.
    abbrev pub IsStalled : Text → Type 0
    IsStalled name =
        (t : ℤ) × (opened : ℤ) × IsIn name t segments
        × All (λ g. g.mod_time ≤ℤ t) segments
        × (opened_at strptime name ≡ ok (some opened))
        × (limit <ℤ t -ℤ opened)

    report-some :
        (n name : Text) (t : ℤ) (o : Outcome (Option ℤ))
        → report limit n t o ≡ ok (some name)
        → (opened : ℤ) × (n ≡ name) × (o ≡ ok (some opened)) × (limit <ℤ t -ℤ opened)
    unfolding report
    report-some n name t (raised x) h = cc
    report-some n name t (ok none) h = cc
    report-some n name t (ok (some opened)) h = elim (Bool-cases (ltb_ℤ limit (t -ℤ opened))) [
      | inl b ↦
          let told : ◌≡◌ {A = Outcome (Option Text)} (ok (some n)) (ok (some name)) = rw b at h in
          (opened, ap (name_of n) told, refl, ltb_ℤ→lt limit (t -ℤ opened) b)
      | inr b ↦
          let told : ◌≡◌ {A = Outcome (Option Text)} (ok none) (ok (some name)) = rw b at h in
          absurd (refused told)
    ]
      where
        name_of : Text → Outcome (Option Text) → Text
        name_of default (ok (some s)) = s
        name_of default _ = default

        refused : ¬ (◌≡◌ {A = Outcome (Option Text)} (ok none) (ok (some name)))
        refused k = cc

    judged :
        (o : Option (Text × ℤ)) (name : Text)
        → IsLatest segments none o
        → judge strptime limit o ≡ ok (some name)
        → IsStalled name
    unfolding judge
    judged none name l h = cc
    judged (some (n, t)) name (a, _, inl k) h = cc
    judged (some (n, t)) name (a, _, inr i) h =
        let (opened, same, known, long) = report-some n name t (opened_at strptime n) h in
        (
          t,
          opened,
          subst (λ s. IsIn s t segments) same i,
          a,
          subst (λ s. opened_at strptime s ≡ ok (some opened)) same known,
          long,
        )

    pub stalled_segment_lem :
        HasDistinctNames (w.dirs directory)
        → stalled_segment (memory m) strptime directory prefix limit w
          ≡ (judge strptime limit (latest segments none), w)
    unfolding stalled_segment
    stalled_segment_lem d =
        let found =
          All-filter_by _ (λ f. glob_match (prefix ++ codes "_*") f.name) _
            (All-find_file (w.dirs directory) d) in
        rw (newest_found segments none found) refl

    -- A segment that `_stalled_segment` reports was written last of the files whose name starts with
    -- the given camera's name and an underscore, which may be files of another camera, and its time is
    -- more than the limit after the time in its name. This holds on a machine on which nothing else
    -- acts, where no two files of the directory have a name in common.
    pub stalled_segment-IsStalled :
        (name : Text)
        → HasDistinctNames (w.dirs directory)
        → (stalled_segment (memory m) strptime directory prefix limit w).0 ≡ ok (some name)
        → IsStalled name
    stalled_segment-IsStalled name d h =
        judged (latest segments none) name (latest-IsLatest segments none)
          (sym (ap (λ r. r.0) (stalled_segment_lem d)) ∙ h)
