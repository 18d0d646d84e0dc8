-- ===== src/Spool/Names.antt =====
-- Files told apart by their names.
use videobackup.Base.{◌≡◌, refl, ap, ◌∙◌, Bool, true, false, not, List, [], ◌∷◌, ◌++◌, map, arith}
use videobackup.Base.{
  inl, inr, some, zero, suc, ℕ, leb_ℤ, filter_by, All, All-map, take, Bool-cases,
}
use videobackup.Base.{
  filter_by-All, All-filter_by, All-take, Text, same, is_among, same→eq, same_refl,
}
use videobackup.Host.Memory.{find_file, remove_file}
use videobackup.Retention.{RemoteFile, insert_by_time, sorted_by_time, total_size}
use videobackup.Retention.Settled.{All-insert_by_time, All-sorted_by_time, swap_sizes}

abbrev pub names_of : List RemoteFile → List Text
names_of = map (λ f. f.name)

-- The files that do not bear one of the names.
abbrev pub without : List Text → List RemoteFile → List RemoteFile
without names fs = filter_by (λ f. not (is_among f.name names)) fs

-- No two files bear one name.
abbrev pub HasDistinctNames : List RemoteFile → Type 0
HasDistinctNames [] = Unit
HasDistinctNames (f ∷ fs) = All (λ g. same f.name g.name ≡ false) fs × HasDistinctNames fs

pub same_sym : (a b : Text) → same a b ≡ same b a
unfolding same
same_sym [] [] = refl
same_sym [] (y ∷ ys) = refl
same_sym (x ∷ xs) [] = refl
same_sym (x ∷ xs) (y ∷ ys) = ground (arith, same_sym xs ys)

pub HasDistinctNames-filter_by :
    (p : RemoteFile → Bool) (fs : List RemoteFile)
    → HasDistinctNames fs
    → HasDistinctNames (filter_by p fs)
HasDistinctNames-filter_by p [] _ = tt
HasDistinctNames-filter_by p (f ∷ fs) (h, hs) = elim (Bool-cases (p f)) [
  | inl e ↦ rw e (All-filter_by _ p fs h, HasDistinctNames-filter_by p fs hs)
  | inr e ↦ rw e (HasDistinctNames-filter_by p fs hs)
]

insert_by_time-HasDistinctNames :
    (f : RemoteFile) (fs : List RemoteFile)
    → HasDistinctNames (f ∷ fs)
    → HasDistinctNames (insert_by_time f fs)
unfolding insert_by_time
insert_by_time-HasDistinctNames f [] h = h
insert_by_time-HasDistinctNames f (g ∷ gs) ((fg, fgs), (gh, gsh)) =
    elim (Bool-cases (leb_ℤ f.mod_time g.mod_time)) [
      | inl e ↦ rw (e, insert_by_time) ((fg, fgs), (gh, gsh))
      | inr e ↦
          rw (e, insert_by_time)
            (
              (All-insert_by_time (λ k. same g.name k.name ≡ false) f gs).1
                  (same_sym g.name f.name ∙ fg, gh),
              insert_by_time-HasDistinctNames f gs (fgs, gsh),
            )
    ]

pub sorted_by_time-HasDistinctNames :
    (fs : List RemoteFile) → HasDistinctNames fs → HasDistinctNames (sorted_by_time fs)
unfolding sorted_by_time
sorted_by_time-HasDistinctNames [] _ = tt
sorted_by_time-HasDistinctNames (f ∷ fs) (h, hs) =
    insert_by_time-HasDistinctNames f (sorted_by_time fs) (
      (All-sorted_by_time (λ g. same f.name g.name ≡ false) fs).1 h,
      sorted_by_time-HasDistinctNames fs hs,
    )

-- A file that is there is found by its name.
find_file_later :
    (f : RemoteFile) (fs gs : List RemoteFile)
    → All (λ g. same f.name g.name ≡ false) gs
    → All (λ g. find_file g.name fs ≡ some g) gs
    → All (λ g. find_file g.name (f ∷ fs) ≡ some g) gs
unfolding find_file
find_file_later f fs [] _ _ = tt
find_file_later f fs (g ∷ gs) (n, ns) (h, hs) =
    (rw (same_sym g.name f.name, n) h, find_file_later f fs gs ns hs)

pub All-find_file :
    (fs : List RemoteFile) → HasDistinctNames fs → All (λ f. find_file f.name fs ≡ some f) fs
unfolding find_file
All-find_file [] _ = tt
All-find_file (f ∷ fs) (h, hs) =
    (rw (same_refl f.name) refl, find_file_later f fs fs h (All-find_file fs hs))

pub find_file-remove_file :
    (a b : Text) (fs : List RemoteFile)
    → same a b ≡ false
    → find_file a (remove_file b fs) ≡ find_file a fs
unfolding find_file remove_file
find_file-remove_file a b [] h = refl
find_file-remove_file a b (f ∷ fs) h = elim (Bool-cases (same f.name b)) [
  | inl e ↦ rw e (rw (ap (same a) (same→eq f.name b e) ∙ h) (find_file-remove_file a b fs h))
  | inr e ↦ rw e (rw (find_file-remove_file a b fs h))
]

pub without_cons :
    (name : Text) (names : List Text) (fs : List RemoteFile)
    → without (name ∷ names) fs ≡ without names (remove_file name fs)
unfolding is_among remove_file
without_cons name names [] = refl
without_cons name names (f ∷ fs) = ground (arith, without_cons name names fs)

-- What bears none of the names stays whole.
pub without_none :
    (names : List Text) (fs : List RemoteFile)
    → All (λ f. is_among f.name names ≡ false) fs
    → without names fs ≡ fs
without_none names fs h = filter_by-All _ fs (All-map _ _ fs (λ f e. rw e refl) h)

others_not_among :
    (f : RemoteFile) (names : List Text) (fs : List RemoteFile)
    → All (λ g. same f.name g.name ≡ false) fs
    → All (λ g. is_among g.name names ≡ false) fs
    → All (λ g. is_among g.name (f.name ∷ names) ≡ false) fs
unfolding is_among
others_not_among f names [] _ _ = tt
others_not_among f names (g ∷ gs) (h, hs) (k, ks) =
    (rw (same_sym g.name f.name, h) k, others_not_among f names gs hs ks)

pub none_among_nil : (fs : List RemoteFile) → All (λ g. is_among g.name [] ≡ false) fs
unfolding is_among
none_among_nil [] = tt
none_among_nil (f ∷ fs) = (refl, none_among_nil fs)

remove_file_absent :
    (name : Text) (fs : List RemoteFile)
    → All (λ g. same name g.name ≡ false) fs
    → remove_file name fs ≡ fs
unfolding remove_file
remove_file_absent name fs h =
    filter_by-All _ fs (All-map _ _ fs (λ g e. rw (same_sym g.name name, e) refl) h)

-- Taking away the files at the front, by name, leaves those behind.
pub without-append :
    (fs gs : List RemoteFile) → HasDistinctNames (fs ++ gs) → without (names_of fs) (fs ++ gs) ≡ gs
unfolding is_among
without-append [] gs h = without_none [] gs (none_among_nil gs)
without-append (f ∷ fs) gs (h, hs) = rw (same_refl f.name) (
    without_cons f.name (names_of fs) (fs ++ gs)
    ∙ ap (without (names_of fs)) (remove_file_absent f.name (fs ++ gs) h)
    ∙ without-append fs gs hs)

-- Sums do not depend on the order.
total_size-filter_insert :
    (p : RemoteFile → Bool) (f : RemoteFile) (fs : List RemoteFile)
    → total_size (filter_by p (insert_by_time f fs)) ≡ total_size (filter_by p (f ∷ fs))
unfolding insert_by_time total_size
total_size-filter_insert p f [] = refl
total_size-filter_insert p f (g ∷ gs) = elim (Bool-cases (leb_ℤ f.mod_time g.mod_time)) [
  | inl e ↦ rw (e, insert_by_time) refl
  | inr e ↦
      rw (e, insert_by_time)
        (ground (
          arith,
          total_size-filter_insert p f gs,
          swap_sizes f.size g.size (total_size (filter_by p gs)),
        ))
]

pub total_size-filter_sorted :
    (p : RemoteFile → Bool) (fs : List RemoteFile)
    → total_size (filter_by p (sorted_by_time fs)) ≡ total_size (filter_by p fs)
unfolding sorted_by_time total_size
total_size-filter_sorted p [] = refl
total_size-filter_sorted p (f ∷ fs) =
    total_size-filter_insert p f (sorted_by_time fs) ∙ ground (arith, total_size-filter_sorted p fs)

pub HasDistinctNames-take :
    (n : ℕ) (fs : List RemoteFile) → HasDistinctNames fs → HasDistinctNames (take n fs)
HasDistinctNames-take zero fs h = tt
HasDistinctNames-take (suc n) [] h = tt
HasDistinctNames-take (suc n) (f ∷ fs) (h, hs) = (All-take _ n fs h, HasDistinctNames-take n fs hs)

-- A name that fails a test is not among names that pass it.
pub not_among_of_test :
    (p : Text → Bool) (name : Text) (fs : List RemoteFile)
    → p name ≡ false
    → All (λ f. p f.name ≡ true) fs
    → is_among name (names_of fs) ≡ false
unfolding is_among
not_among_of_test p name [] h _ = refl
not_among_of_test p name (f ∷ fs) h (k, ks) = elim (Bool-cases (same name f.name)) [
  | inl e ↦ cc (same→eq name f.name e)
  | inr e ↦ rw e (not_among_of_test p name fs h ks)
]

-- Files whose names fail the test are not touched by names that pass it.
pub filter-without :
    (p : Text → Bool) (gone fs : List RemoteFile)
    → All (λ f. p f.name ≡ true) gone
    → filter_by (λ f. not (p f.name)) (without (names_of gone) fs)
      ≡ filter_by (λ f. not (p f.name)) fs
filter-without p gone [] h = refl
filter-without p gone (f ∷ fs) h = elim (Bool-cases (p f.name)) [
  | inl e ↦ ground (arith, filter-without p gone fs h)
  | inr e ↦
      rw (not_among_of_test p f.name gone e h) (rw e (ap (◌∷◌ f) (filter-without p gone fs h)))
]
