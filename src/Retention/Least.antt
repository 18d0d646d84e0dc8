-- ===== src/Retention/Least.antt =====
-- `select_for_deletion` of videobackup/retention.py against its specification: the shortest
-- prefix of the files, oldest first, whose removal leaves a folder within both limits.
use mathlib.Core.Path.{fun_ext}
use videobackup.Base.{ℕ, zero, suc, ◌<◌, ◌≡◌, refl, sym, ap, ◌∙◌, Bool, true, false, ◌||◌, arith}
use videobackup.Base.{List, [], ◌∷◌, ◌++◌, append-nil, append_assoc, inl, inr}
use videobackup.Base.{ℤ, pos, ◌+ℤ◌, ◌-ℤ◌, ◌≤ℤ◌, scale, ltb_ℤ, +ℤ_cancel_left}
use videobackup.Base.{length, take, drop, filter_by, All, Bool-cases, if◌then◌else◌}
use videobackup.Retention.{RemoteFile, sorted_by_time, total_size, age_pass, size_pass}
use videobackup.Retention.{day, select_for_deletion}
use videobackup.Retention.Order.{IsAscending, sorted_by_time-IsAscending}

-- Whether a file is past the age limit, which 0 days or fewer turn off.
abbrev pub is_expired : ℤ → ℤ → RemoteFile → Bool
is_expired now max_age_days f =
    if ltb_ℤ (pos 0) max_age_days then ltb_ℤ f.mod_time (now -ℤ scale day max_age_days) else false

-- No file is too old, and together they fit.
abbrev pub IsWithinLimits : ℤ → ℤ → ℤ → List RemoteFile → Type 0
IsWithinLimits max_bytes now max_age_days fs =
    All (λ f. is_expired now max_age_days f ≡ false) fs × (total_size fs ≤ℤ max_bytes)

module _ (max_bytes : ℤ) where
  -- What the size-based loop takes.
  excess : List RemoteFile → List RemoteFile
  excess [] = []
  excess (f ∷ fs) =
      let rest = f ∷ excess fs in if ltb_ℤ max_bytes (total_size (f ∷ fs)) then rest else []

  size_pass-excess :
      (fs out : List RemoteFile) → size_pass max_bytes (total_size fs) fs out ≡ out ++ excess fs
  unfolding size_pass excess total_size
  size_pass-excess [] out = sym (append-nil out)
  size_pass-excess (f ∷ fs) out = elim (Bool-cases (ltb_ℤ max_bytes (f.size +ℤ total_size fs))) [
    | inl e ↦
        simp (e, size_pass, excess, +ℤ_cancel_left f.size (total_size fs))
          (size_pass-excess fs (out ++ f ∷ []) ∙ append_assoc out (f ∷ []) (excess fs))
    | inr e ↦ simp (e, size_pass, excess, append-nil)
  ]

  module _ (old : RemoteFile → Bool) where
    -- Both loops in one pass over the ordered files.
    doomed : List RemoteFile → List RemoteFile
    doomed [] = []
    doomed (f ∷ fs) =
        let rest = f ∷ doomed fs in
        if old f || ltb_ℤ max_bytes (total_size (f ∷ fs)) then rest else []

    -- Behind a file that is not old, none is.
    abbrev AgesDown : List RemoteFile → Type 0
    AgesDown [] = Unit
    AgesDown (f ∷ fs) = (old f ≡ false → All (λ g. old g ≡ false) fs) × AgesDown fs

    abbrev Fits : List RemoteFile → Type 0
    Fits fs = All (λ f. old f ≡ false) fs × (total_size fs ≤ℤ max_bytes)

    doomed-Fits :
        pos 0 ≤ℤ max_bytes
        → (fs : List RemoteFile) → AgesDown fs
        → Fits (drop (length (doomed fs)) fs)
    unfolding doomed total_size
    doomed-Fits h [] _ = (tt, h)
    doomed-Fits h (f ∷ fs) (p, q) =
        elim (Bool-cases (old f || ltb_ℤ max_bytes (f.size +ℤ total_size fs))) [
          | inl e ↦ rw (e, doomed) (doomed-Fits h fs q)
          | inr e ↦ rw (e, doomed) ((ground arith, p (ground arith)), ground arith)
        ]

    doomed-take : (fs : List RemoteFile) → doomed fs ≡ take (length (doomed fs)) fs
    unfolding doomed
    doomed-take [] = refl
    doomed-take (f ∷ fs) = elim (Bool-cases (old f || ltb_ℤ max_bytes (total_size (f ∷ fs)))) [
      | inl e ↦ rw (e, doomed) (ap (◌∷◌ f) (doomed-take fs))
      | inr e ↦ rw (e, doomed) refl
    ]

    doomed-least : (fs : List RemoteFile) (k : ℕ) → k < length (doomed fs) → ¬ Fits (drop k fs)
    unfolding doomed total_size
    doomed-least [] k h = elim h [ ]
    doomed-least (f ∷ fs) zero h = ground arith
    doomed-least (f ∷ fs) (suc k) h =
        elim (Bool-cases (old f || ltb_ℤ max_bytes (f.size +ℤ total_size fs))) [
          | inl e ↦ doomed-least fs k (ground arith)
          | inr e ↦ absurd (ground arith)
        ]

    abbrev is_fresh : RemoteFile → Bool
    is_fresh f = if old f then false else true

    filter-old_of_fresh :
        (fs : List RemoteFile)
        → All (λ f. old f ≡ false) fs
        → (filter_by old fs ≡ []) × (filter_by is_fresh fs ≡ fs)
    filter-old_of_fresh [] _ = (refl, refl)
    filter-old_of_fresh (f ∷ fs) (p, q) =
        let ih = filter-old_of_fresh fs q in (rw p ih.0, rw p (ap (◌∷◌ f) ih.1))

    excess-eq-doomed : (fs : List RemoteFile) → All (λ f. old f ≡ false) fs → excess fs ≡ doomed fs
    unfolding excess doomed
    excess-eq-doomed [] _ = refl
    excess-eq-doomed (f ∷ fs) (p, q) = rw (p, excess-eq-doomed fs q) refl

    filter-doomed :
        (fs : List RemoteFile)
        → AgesDown fs
        → filter_by old fs ++ excess (filter_by is_fresh fs) ≡ doomed fs
    unfolding doomed excess
    filter-doomed [] _ = refl
    filter-doomed (f ∷ fs) (p, q) = elim (Bool-cases (old f)) [
      | inl e ↦ rw e (ap (◌∷◌ f) (filter-doomed fs q))
      | inr e ↦
          let fresh = filter-old_of_fresh (f ∷ fs) (e, p e) in
          rw (fresh.0, fresh.1) (excess-eq-doomed (f ∷ fs) (e, p e))
    ]

age_pass-filter :
    (cutoff : ℤ) (fs out kept : List RemoteFile)
    → let old : RemoteFile → Bool = λ f. ltb_ℤ f.mod_time cutoff in
      age_pass cutoff fs out kept
      ≡ (out ++ filter_by old fs, kept ++ filter_by (λ f. if old f then false else true) fs)
unfolding age_pass
age_pass-filter cutoff [] out kept = rw (append-nil out, append-nil kept) refl
age_pass-filter cutoff (f ∷ fs) out kept = elim (Bool-cases (ltb_ℤ f.mod_time cutoff)) [
  | inl e ↦ rw (e, age_pass) (age_pass-filter cutoff fs (out ++ f ∷ []) kept ∙ simp append_assoc)
  | inr e ↦ rw (e, age_pass) (age_pass-filter cutoff fs out (kept ++ f ∷ []) ∙ simp append_assoc)
]

-- In an ascending list the age limit cuts once.
later_fresh :
    (cutoff t : ℤ) (fs : List RemoteFile)
    → ltb_ℤ t cutoff ≡ false
    → All (λ g. t ≤ℤ g.mod_time) fs
    → All (λ g. ltb_ℤ g.mod_time cutoff ≡ false) fs
later_fresh cutoff t [] h _ = tt
later_fresh cutoff t (g ∷ gs) h (p, q) = (ground arith, later_fresh cutoff t gs h q)

IsAscending-AgesDown :
    (max_bytes cutoff : ℤ) (fs : List RemoteFile)
    → IsAscending fs
    → AgesDown max_bytes (λ f. ltb_ℤ f.mod_time cutoff) fs
IsAscending-AgesDown max_bytes cutoff [] _ = tt
IsAscending-AgesDown max_bytes cutoff (f ∷ fs) (p, q) =
    (λ h. later_fresh cutoff f.mod_time fs h p, IsAscending-AgesDown max_bytes cutoff fs q)

none_expired : (gs : List RemoteFile) → All (λ g. ◌≡◌ {A = Bool} false false) gs
none_expired [] = tt
none_expired (g ∷ gs) = (refl, none_expired gs)

never-AgesDown : (max_bytes : ℤ) (fs : List RemoteFile) → AgesDown max_bytes (λ _. false) fs
never-AgesDown max_bytes [] = tt
never-AgesDown max_bytes (f ∷ fs) = (λ _. none_expired fs, never-AgesDown max_bytes fs)

module _ (now max_age_days : ℤ) where
  is_expired_on :
      ltb_ℤ (pos 0) max_age_days ≡ true
      → is_expired now max_age_days ≡ (λ f. ltb_ℤ f.mod_time (now -ℤ scale day max_age_days))
  is_expired_on h = fun_ext (λ f. rw h refl)

  is_expired_off : ltb_ℤ (pos 0) max_age_days ≡ false → is_expired now max_age_days ≡ (λ _. false)
  is_expired_off h = fun_ext (λ f. rw h refl)

-- The two passes of the code are one pass over the ordered files.
select-eq-doomed :
    (files : List RemoteFile) (max_bytes now max_age_days : ℤ)
    → (select_for_deletion files max_bytes now max_age_days
        ≡ doomed max_bytes (is_expired now max_age_days) (sorted_by_time files))
      × AgesDown max_bytes (is_expired now max_age_days) (sorted_by_time files)
unfolding select_for_deletion
select-eq-doomed files max_bytes now max_age_days = elim (Bool-cases (ltb_ℤ (pos 0) max_age_days)) [
  | inl e ↦
      rw (is_expired_on now max_age_days e, e, age_pass-filter cutoff ordered [] [])
        (size_pass-excess max_bytes _ _ ∙ filter-doomed max_bytes _ ordered down, down)
  | inr e ↦
      rw (is_expired_off now max_age_days e, e)
        (
          size_pass-excess max_bytes ordered []
              ∙ excess-eq-doomed max_bytes _ ordered (none_expired ordered),
          never-AgesDown max_bytes ordered,
        )
]
  where
    cutoff : ℤ
    cutoff = now -ℤ scale day max_age_days

    ordered : List RemoteFile
    ordered = sorted_by_time files

    down : AgesDown max_bytes (λ f. ltb_ℤ f.mod_time cutoff) ordered
    down = IsAscending-AgesDown max_bytes cutoff ordered (sorted_by_time-IsAscending files)

module _ (files : List RemoteFile) (max_bytes now max_age_days : ℤ) where
  abbrev pub victims : List RemoteFile
  victims = select_for_deletion files max_bytes now max_age_days

  -- What `select_for_deletion` chooses is a prefix of the files ordered by time, oldest first. Without it the folder
  -- is within both limits, if the size limit is not negative, and no shorter prefix does that.
  pub select_for_deletion-least :
      pos 0 ≤ℤ max_bytes
      → (victims ≡ take (length victims) (sorted_by_time files))
        × IsWithinLimits max_bytes now max_age_days (drop (length victims) (sorted_by_time files))
        × ((k : ℕ)
            → k < length victims
            → ¬ IsWithinLimits max_bytes now max_age_days (drop k (sorted_by_time files)))
  select_for_deletion-least h =
      let same = select-eq-doomed files max_bytes now max_age_days in
      let old = is_expired now max_age_days in
      let ordered = sorted_by_time files in
      rw same.0 (
        doomed-take max_bytes old ordered,
        doomed-Fits max_bytes old h ordered same.1,
        doomed-least max_bytes old ordered,
      )
