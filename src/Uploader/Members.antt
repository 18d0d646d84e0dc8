-- ===== src/Uploader/Members.antt =====
-- The names of files, and which are among them.
use videobackup.Base.{
  ◌≡◌, refl, ap, ◌∙◌, sym, Bool, true, false, not, ◌||◌, ◌&&◌, subst, List, [], ◌∷◌, ◌++◌,
  filter_by, length, All, All-map, Text, suc, is_among, same, same→eq, same_refl, Bool-cases, inl,
  inr, arith,
}
use videobackup.Encrypt.Sorted.{passing}
use videobackup.Host.Memory.{glob_match}
use videobackup.Retention.{RemoteFile}
use videobackup.Spool.Names.{names_of, without}
use videobackup.Spool.Quiet.{matching}

module _ (x : Text) where
  pub is_among-append :
      (xs ys : List RemoteFile)
      → is_among x (names_of (xs ++ ys)) ≡ (is_among x (names_of xs) || is_among x (names_of ys))
  unfolding is_among
  is_among-append [] ys = refl
  is_among-append (f ∷ fs) ys = ground (arith, is_among-append fs ys)

  pub is_among-filter_by :
      (p : Text → Bool) (fs : List RemoteFile)
      → is_among x (names_of (filter_by (λ f. p f.name) fs)) ≡ (is_among x (names_of fs) && p x)
  unfolding is_among
  is_among-filter_by p [] = refl
  is_among-filter_by p (f ∷ fs) =
      let ih = is_among-filter_by p fs in
      elim (Bool-cases (same x f.name)) [
        | inl e ↦
            let at_x : p f.name ≡ p x = ap p (sym (same→eq x f.name e)) in
            elim (Bool-cases (p x)) [
              | inl k ↦ rw (at_x, k, e) (ground (arith, ih))
              | inr k ↦ rw (at_x, k, e) (ground (arith, ih))
            ]
        | inr e ↦ ground (arith, ih)
      ]

  -- A name that was there is not among new ones.
  not_fresh :
      (old : List Text) (fs : List RemoteFile)
      → is_among x old ≡ true
      → All (λ f. is_among f.name old ≡ false) fs
      → is_among x (names_of fs) ≡ false
  unfolding is_among
  not_fresh old [] h _ = refl
  not_fresh old (f ∷ fs) h (k, ks) = elim (Bool-cases (same x f.name)) [
    | inl e ↦ let k' = subst (λ n. is_among n old ≡ false) (sym (same→eq x f.name e)) k in cc
    | inr e ↦ rw e (not_fresh old fs h ks)
  ]

  pub is_among-move :
      (moved : List Text) (old fresh : List RemoteFile)
      → is_among x (names_of old) ≡ true
      → All (λ f. is_among f.name (names_of old) ≡ false) fresh
      → is_among x (names_of (without moved old ++ fresh)) ≡ not (is_among x moved)
  is_among-move moved old fresh h new =
      is_among-append (without moved old) fresh
      ∙ rw
          (
            is_among-filter_by (λ n. not (is_among n moved)) old,
            h,
            not_fresh (names_of old) fresh h new,
          )
          (unit_laws (is_among x moved))
    where
      unit_laws : (b : Bool) → ((true && not b) || false) ≡ not b
      unit_laws true = refl
      unit_laws false = refl

-- The names of a directory's files, among which each of them is.
pub names_among :
    (pattern : Text) (all fs : List RemoteFile)
    → All (λ f. is_among f.name (names_of all) ≡ true) fs
    → All
        (λ x. (is_among x (names_of all) ≡ true) × (glob_match pattern x ≡ true))
        (names_of (matching pattern fs))
names_among pattern all [] _ = tt
names_among pattern all (f ∷ fs) (h, hs) = elim (Bool-cases (glob_match pattern f.name)) [
  | inl e ↦ rw e ((h, e), names_among pattern all fs hs)
  | inr e ↦ rw e (names_among pattern all fs hs)
]

pub each_among : (fs : List RemoteFile) → All (λ f. is_among f.name (names_of fs) ≡ true) fs
unfolding is_among
each_among [] = tt
each_among (f ∷ fs) =
    (rw (same_refl f.name) refl, All-map _ _ fs (λ g h. ground (arith, h)) (each_among fs))

module _ (p q : Text → Bool) where
  pub passing-cong : (xs : List Text) → All (λ x. p x ≡ q x) xs → passing p xs ≡ passing q xs
  passing-cong [] _ = refl
  passing-cong (x ∷ xs) (h, hs) = elim (Bool-cases (q x)) [
    | inl e ↦ rw (h, e) (ap suc (passing-cong xs hs))
    | inr e ↦ rw (h, e) (passing-cong xs hs)
  ]

pub passing-names_of :
    (p : Text → Bool) (fs : List RemoteFile)
    → passing p (names_of fs) ≡ length (filter_by (λ f. p f.name) fs)
passing-names_of p [] = refl
passing-names_of p (f ∷ fs) = elim (Bool-cases (p f.name)) [
  | inl e ↦ rw e (ap suc (passing-names_of p fs))
  | inr e ↦ rw e (passing-names_of p fs)
]
