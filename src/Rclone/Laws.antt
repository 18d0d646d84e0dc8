-- ===== src/Rclone/Laws.antt =====
-- What `classify` of videobackup/rclone.py reads in a text.
use mathlib.Core.Path.{ap₂}
use videobackup.Base.{
  subst, sym, ◌≡◌, refl, ap, ◌↔◌, ◌⊎◌, inl, inr, true, List, [], ◌∷◌, ◌++◌, arith,
}
use videobackup.Base.{==→eq, any_of, Bool-cases, Text, starts_with}
use videobackup.Base.Values.{lower}
use videobackup.Rclone.{contains, classify, rate_limit_markers, out_of_space_markers, auth_markers}

-- `m` stands somewhere in `s`.
abbrev pub Occurs : Text → Text → Type 0
Occurs m s = (before : Text) × (after : Text) × (s ≡ before ++ (m ++ after))

-- A predicate at some element.
abbrev pub Any : (Text → Type 0) → List Text → Type 0
Any P [] = ⊥
Any P (x ∷ xs) = P x ⊎ Any P xs

starts_with_sound : (s p : Text) → starts_with s p ≡ true → (after : Text) × (s ≡ p ++ after)
unfolding starts_with
starts_with_sound s [] h = (s, refl)
starts_with_sound [] (y ∷ ys) h = cc
starts_with_sound (x ∷ xs) (y ∷ ys) h =
    let rest = starts_with_sound xs ys (ground arith) in
    let e = ==→eq x y (ground arith) in (rest.0, ap₂ ◌∷◌ e rest.1)

starts_with-append : (p after : Text) → starts_with (p ++ after) p ≡ true
unfolding starts_with
starts_with-append [] after = refl
starts_with-append (x ∷ xs) after = ground (arith, starts_with-append xs after)

contains_sound : (m s : Text) → contains m s ≡ true → Occurs m s
unfolding contains
contains_sound m [] h = let front = starts_with_sound [] m h in ([], front.0, front.1)
contains_sound m (c ∷ s) h = elim (Bool-cases (starts_with (c ∷ s) m)) [
  | inl e ↦ let front = starts_with_sound (c ∷ s) m e in ([], front.0, front.1)
  | inr e ↦
      let later = contains_sound m s (ground arith) in (c ∷ later.0, later.1, ap (◌∷◌ c) later.2)
]

contains-front : (m s : Text) → starts_with s m ≡ true → contains m s ≡ true
unfolding contains
contains-front m [] h = h
contains-front m (c ∷ s) h = rw h refl

contains_complete : (m before after : Text) → contains m (before ++ (m ++ after)) ≡ true
unfolding contains
contains_complete m [] after = contains-front m (m ++ after) (starts_with-append m after)
contains_complete m (c ∷ before) after = ground (arith, contains_complete m before after)

either :
    (m : Text) (ms : List Text) (s : Text)
    → (any_of (λ m. contains m s) ms ≡ true) ↔ Any (λ m. Occurs m s) ms
    → (any_of (λ m. contains m s) (m ∷ ms) ≡ true) ↔ (Occurs m s ⊎ Any (λ m. Occurs m s) ms)
either m ms s rest = (to, from)
  where
    to : any_of (λ m. contains m s) (m ∷ ms) ≡ true → Occurs m s ⊎ Any (λ m. Occurs m s) ms
    to h = elim (Bool-cases (contains m s)) [
      | inl e ↦ inl (contains_sound m s e)
      | inr e ↦ inr (rest.0 (rw e at h))
    ]

    from : Occurs m s ⊎ Any (λ m. Occurs m s) ms → any_of (λ m. contains m s) (m ∷ ms) ≡ true
    from (inl (before, after, e)) =
        rw (subst (λ t. contains m t ≡ true) (sym e) (contains_complete m before after)) refl
    from (inr a) = ground (arith, rest.1 a)

any_of-contains_iff :
    (ms : List Text) (s : Text) → (any_of (λ m. contains m s) ms ≡ true) ↔ Any (λ m. Occurs m s) ms
any_of-contains_iff [] s = (λ h. cc, λ h. absurd h)
any_of-contains_iff (m ∷ ms) s = either m ms s (any_of-contains_iff ms s)

-- `classify` sets each flag exactly when one of its markers stands somewhere in the lowered text.
pub classify-flags_iff :
    (stderr : Text)
    → (((classify stderr).rate_limited ≡ true)
        ↔ Any (λ m. Occurs m (lower stderr)) rate_limit_markers)
      × (((classify stderr).out_of_space ≡ true)
          ↔ Any (λ m. Occurs m (lower stderr)) out_of_space_markers)
      × (((classify stderr).auth_expired ≡ true) ↔ Any (λ m. Occurs m (lower stderr)) auth_markers)
unfolding classify
classify-flags_iff stderr = (
  any_of-contains_iff rate_limit_markers (lower stderr),
  any_of-contains_iff out_of_space_markers (lower stderr),
  any_of-contains_iff auth_markers (lower stderr),
)
