-- ===== src/Encrypt/Sorted.antt =====
-- Sorting names keeps what is among them, and how many pass a test.
use videobackup.Base.{
  ◌++◌, ◌||◌, ◌≡◌, refl, ap, ◌∙◌, Bool, ℕ, suc, List, [], ◌∷◌, filter_by, length, All, Text,
  is_among, Bool-cases, inl, inr, arith,
}
use videobackup.Encrypt.{le_text, insert_name, sorted_names}

module _ (p : Text → Bool) where
  abbrev pub passing : List Text → ℕ
  passing ns = length (filter_by p ns)

  passing_cons :
      (n : Text) (xs ys : List Text) → passing xs ≡ passing ys → passing (n ∷ xs) ≡ passing (n ∷ ys)
  passing_cons n xs ys e = elim (Bool-cases (p n)) [ inl h ↦ rw h (ap suc e) | inr h ↦ rw h e ]

  passing_swap : (n m : Text) (ns : List Text) → passing (n ∷ m ∷ ns) ≡ passing (m ∷ n ∷ ns)
  passing_swap n m ns = ground arith

  passing-insert_name : (n : Text) (ns : List Text) → passing (insert_name n ns) ≡ passing (n ∷ ns)
  unfolding insert_name
  passing-insert_name n [] = refl
  passing-insert_name n (m ∷ ms) = elim (Bool-cases (le_text n m)) [
    | inl e ↦ rw e refl
    | inr e ↦ rw e (
        passing_cons m (insert_name n ms) (n ∷ ms) (passing-insert_name n ms) ∙ passing_swap m n ms)
  ]

  pub passing-sorted_names : (ns : List Text) → passing (sorted_names ns) ≡ passing ns
  unfolding sorted_names
  passing-sorted_names [] = refl
  passing-sorted_names (n ∷ ns) =
      passing-insert_name n (sorted_names ns) ∙ passing_cons n _ _ (passing-sorted_names ns)

module _ (x : Text) where
  is_among_cons :
      (n : Text) (xs ys : List Text)
      → is_among x xs ≡ is_among x ys
      → is_among x (n ∷ xs) ≡ is_among x (n ∷ ys)
  unfolding is_among
  is_among_cons n xs ys e = rw e refl

  is_among-insert_name :
      (n : Text) (ns : List Text) → is_among x (insert_name n ns) ≡ is_among x (n ∷ ns)
  unfolding insert_name is_among
  is_among-insert_name n [] = refl
  is_among-insert_name n (m ∷ ms) = elim (Bool-cases (le_text n m)) [
    | inl e ↦ rw e refl
    | inr e ↦
        rw e
          (is_among_cons m (insert_name n ms) (n ∷ ms) (is_among-insert_name n ms) ∙ ground arith)
  ]

  pub is_among-sorted_names : (ns : List Text) → is_among x (sorted_names ns) ≡ is_among x ns
  unfolding sorted_names
  is_among-sorted_names [] = refl
  is_among-sorted_names (n ∷ ns) =
      is_among-insert_name n (sorted_names ns) ∙ is_among_cons n _ _ (is_among-sorted_names ns)

  pub among_either : (xs ys : List Text) → is_among x (xs ++ ys) ≡ (is_among x xs || is_among x ys)
  unfolding is_among
  among_either [] ys = refl
  among_either (n ∷ ns) ys = ground (arith, among_either ns ys)

module _ {κ} (P : Text → Type κ) where
  All-insert_name : (n : Text) (ns : List Text) → P n → All P ns → All P (insert_name n ns)
  unfolding insert_name
  All-insert_name n [] h _ = (h, tt)
  All-insert_name n (m ∷ ms) h (k, ks) = elim (Bool-cases (le_text n m)) [
    | inl e ↦ rw e (h, (k, ks))
    | inr e ↦ rw e (k, All-insert_name n ms h ks)
  ]

  pub All-sorted_names : (ns : List Text) → All P ns → All P (sorted_names ns)
  unfolding sorted_names
  All-sorted_names [] _ = tt
  All-sorted_names (n ∷ ns) (h, hs) = All-insert_name n (sorted_names ns) h (All-sorted_names ns hs)
