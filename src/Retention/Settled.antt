-- ===== src/Retention/Settled.antt =====
-- When `select_for_deletion` of videobackup/retention.py has nothing to delete.
use videobackup.Base.{ℕ, ◌<◌, false, ◌≡◌, refl, ◌↔◌, List, [], ◌∷◌, arith, inl, inr}
use videobackup.Base.{ℤ, pos, ◌+ℤ◌, ◌≤ℤ◌, leb_ℤ, int_laws}
use videobackup.Base.{length, take, drop, All, Bool-cases}
use videobackup.Retention.{RemoteFile, insert_by_time, sorted_by_time, total_size}
use videobackup.Retention.{select_for_deletion}
use videobackup.Retention.Least.{IsWithinLimits, select_for_deletion-least, is_expired}

pub swap_sizes : (a b c : ℤ) → b +ℤ (a +ℤ c) ≡ a +ℤ (b +ℤ c)
swap_sizes a b c = omega int_laws

total_size-insert_by_time :
    (f : RemoteFile) (fs : List RemoteFile)
    → total_size (insert_by_time f fs) ≡ f.size +ℤ total_size fs
unfolding insert_by_time total_size
total_size-insert_by_time f [] = refl
total_size-insert_by_time f (g ∷ gs) = elim (Bool-cases (leb_ℤ f.mod_time g.mod_time)) [
  | inl e ↦ rw (e, insert_by_time) refl
  | inr e ↦
      rw (e, insert_by_time)
        (rw (total_size-insert_by_time f gs) (swap_sizes f.size g.size (total_size gs)))
]

pub total_size-sorted_by_time :
    (fs : List RemoteFile) → total_size (sorted_by_time fs) ≡ total_size fs
unfolding sorted_by_time total_size
total_size-sorted_by_time [] = refl
total_size-sorted_by_time (f ∷ fs) =
    rw (total_size-insert_by_time f (sorted_by_time fs), total_size-sorted_by_time fs) refl

module _ {κ} (P : RemoteFile → Type κ) where
  pub All-insert_by_time :
      (f : RemoteFile) (fs : List RemoteFile) → All P (insert_by_time f fs) ↔ (P f × All P fs)
  unfolding insert_by_time
  All-insert_by_time f [] = (λ h. h, λ h. h)
  All-insert_by_time f (g ∷ gs) = elim (Bool-cases (leb_ℤ f.mod_time g.mod_time)) [
    | inl e ↦ rw (e, insert_by_time) (λ h. h, λ h. h)
    | inr e ↦
        let ih = All-insert_by_time f gs in
        rw (e, insert_by_time)
          (λ h. ((ih.0 h.1).0, (h.0, (ih.0 h.1).1)), λ h. (h.1.0, ih.1 (h.0, h.1.1)))
  ]

  pub All-sorted_by_time : (fs : List RemoteFile) → All P (sorted_by_time fs) ↔ All P fs
  unfolding sorted_by_time
  All-sorted_by_time [] = (λ h. h, λ h. h)
  All-sorted_by_time (f ∷ fs) =
      let here = All-insert_by_time f (sorted_by_time fs) in
      let ih = All-sorted_by_time fs in
      (λ h. ((here.0 h).0, ih.0 (here.0 h).1), λ h. here.1 (h.0, ih.1 h.1))

module _ (files : List RemoteFile) (max_bytes now max_age_days : ℤ) where
  -- `select_for_deletion` chooses nothing exactly when no file is past the age limit and the files fit the size limit,
  -- whose value is not negative.
  pub select_for_deletion-nil_iff :
      pos 0 ≤ℤ max_bytes
      → (select_for_deletion files max_bytes now max_age_days ≡ [])
        ↔ IsWithinLimits max_bytes now max_age_days files
  select_for_deletion-nil_iff h = (
    λ e.
        let kept : IsWithinLimits max_bytes now max_age_days (sorted_by_time files) =
          rw e at least.1 in
        (ages.0 kept.0, rw (total_size-sorted_by_time files) at kept.1),
    λ fit.
        length-nil victims
          (λ k. least.2 0 k (ages.1 fit.0, rw (total_size-sorted_by_time files) fit.1)),
  )
    where
      victims : List RemoteFile
      victims = select_for_deletion files max_bytes now max_age_days

      least :
          (victims ≡ take (length victims) (sorted_by_time files))
          × IsWithinLimits max_bytes now max_age_days (drop (length victims) (sorted_by_time files))
          × ((k : ℕ)
              → k < length victims
              → ¬ IsWithinLimits max_bytes now max_age_days (drop k (sorted_by_time files)))
      least = select_for_deletion-least files max_bytes now max_age_days h

      ages :
          All (λ f. is_expired now max_age_days f ≡ false) (sorted_by_time files)
          ↔ All (λ f. is_expired now max_age_days f ≡ false) files
      ages = All-sorted_by_time (λ f. is_expired now max_age_days f ≡ false) files

      length-nil : (fs : List RemoteFile) → ¬ (0 < length fs) → fs ≡ []
      length-nil [] _ = refl
      length-nil (f ∷ fs) h = absurd (h (omega arith))
