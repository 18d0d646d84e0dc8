-- ===== src/Spool/Chosen.antt =====
-- The files that `select_for_deletion` of videobackup/retention.py chooses, taken away by name.
use mathlib.Core.Path.{ap₂}
use videobackup.Base.{
  ◌≡◌, refl, sym, ◌∙◌, subst, ◌↔◌, Bool, true, false, not, List, [], ◌∷◌, inl, inr, ℤ, pos, ◌≤ℤ◌,
  filter_by, All, All-take, length, take, drop, take-append-drop, Bool-cases, is_among, arith,
}
use videobackup.Retention.{RemoteFile, select_for_deletion, sorted_by_time}
use videobackup.Retention.Least.{IsWithinLimits, is_expired, select_for_deletion-least}
use videobackup.Retention.Settled.{All-sorted_by_time}
use videobackup.Spool.Names.{
  names_of, without, HasDistinctNames, HasDistinctNames-take, sorted_by_time-HasDistinctNames,
  total_size-filter_sorted, without-append,
}

All-filter_iff {κ} :
    (P : RemoteFile → Type κ) (q : RemoteFile → Bool) (fs : List RemoteFile)
    → All P (filter_by q fs) ↔ All (λ f. q f ≡ true → P f) fs
All-filter_iff P q [] = (λ h. h, λ h. h)
All-filter_iff P q (f ∷ fs) = elim (Bool-cases (q f)) [
  | inl e ↦
      let ih = All-filter_iff P q fs in rw e (λ h. (λ _. h.0, ih.0 h.1), λ h. (h.0 refl, ih.1 h.1))
  | inr e ↦
      let ih = All-filter_iff P q fs in
      rw e (λ h. (λ k. absurd (ground arith), ih.0 h), λ h. ih.1 h.1)
]

module _ (files : List RemoteFile) (cap now days : ℤ) (h : pos 0 ≤ℤ cap) where
  abbrev pub chosen : List RemoteFile
  chosen = select_for_deletion files cap now days

  pub chosen-HasDistinctNames : HasDistinctNames files → HasDistinctNames chosen
  chosen-HasDistinctNames d =
      subst HasDistinctNames (sym (select_for_deletion-least files cap now days h).0)
        (HasDistinctNames-take _ _ (sorted_by_time-HasDistinctNames files d))

  pub chosen-All {κ} : (P : RemoteFile → Type κ) → All P files → All P chosen
  chosen-All P a =
      subst (All P) (sym (select_for_deletion-least files cap now days h).0)
        (All-take P _ _ ((All-sorted_by_time P files).1 a))

  left_ordered :
      HasDistinctNames files
      → without (names_of chosen) (sorted_by_time files)
        ≡ drop (length chosen) (sorted_by_time files)
  left_ordered d =
      let ordered = sorted_by_time files in
      let n = length chosen in
      let front = (select_for_deletion-least files cap now days h).0 in
      ap₂ (λ a b. without (names_of a) b) front (sym (take-append-drop n ordered))
      ∙ without-append (take n ordered) (drop n ordered)
          (rw (take-append-drop n ordered) (sorted_by_time-HasDistinctNames files d))

  -- What does not bear the name of a chosen file is within both limits.
  pub left-IsWithinLimits :
      HasDistinctNames files → IsWithinLimits cap now days (without (names_of chosen) files)
  left-IsWithinLimits d = (
    (All-filter_iff fresh stays files).1 (
        (All-sorted_by_time (λ f. stays f ≡ true → fresh f) files).0
          ((All-filter_iff fresh stays (sorted_by_time files)).0 (rw (left_ordered d) least.0))),
    rw (← total_size-filter_sorted stays files) (rw (left_ordered d) least.1),
  )
    where
      stays : RemoteFile → Bool
      stays f = not (is_among f.name (names_of chosen))

      fresh : RemoteFile → Type 0
      fresh f = is_expired now days f ≡ false

      least : IsWithinLimits cap now days (drop (length chosen) (sorted_by_time files))
      least = (select_for_deletion-least files cap now days h).1
