-- ===== src/Retention/Order.antt =====
-- The stable sort of videobackup/retention.py by modification time: a rearrangement, ascending.
use mathlib.Core.List.{Perm}
use mathlib.Core.List.Perm
use videobackup.Base.{List, [], ◌∷◌, inl, inr, arith}
use videobackup.Base.{ℤ, ◌≤ℤ◌, leb_ℤ, All, Bool-cases}
use videobackup.Retention.{RemoteFile, insert_by_time, sorted_by_time}

-- Each file is at least as old as all that follow it.
abbrev pub IsAscending : List RemoteFile → Type 0
IsAscending [] = Unit
IsAscending (f ∷ fs) = All (λ g. f.mod_time ≤ℤ g.mod_time) fs × IsAscending fs

module _ (f : RemoteFile) where
  insert_by_time-perm : (fs : List RemoteFile) → Perm (insert_by_time f fs) (f ∷ fs)
  unfolding insert_by_time
  insert_by_time-perm [] = Perm.refl _
  insert_by_time-perm (g ∷ gs) = elim (Bool-cases (leb_ℤ f.mod_time g.mod_time)) [
    | inl e ↦ rw (e, insert_by_time) (Perm.refl _)
    | inr e ↦
        rw (e, insert_by_time)
          (Perm.trans (Perm.cons g (insert_by_time-perm gs)) (Perm.swap f g gs))
  ]

pub sorted_by_time-perm : (fs : List RemoteFile) → Perm (sorted_by_time fs) fs
unfolding sorted_by_time
sorted_by_time-perm [] = Perm.refl _
sorted_by_time-perm (f ∷ fs) =
    Perm.trans (insert_by_time-perm f (sorted_by_time fs)) (Perm.cons f (sorted_by_time-perm fs))

-- What is later than every element of a list is later than what is older.
All-later :
    (a b : ℤ) (fs : List RemoteFile)
    → a ≤ℤ b
    → All (λ g. b ≤ℤ g.mod_time) fs
    → All (λ g. a ≤ℤ g.mod_time) fs
All-later a b [] h _ = tt
All-later a b (g ∷ gs) h (p, q) = (omega arith, All-later a b gs h q)

All-insert_by_time :
    (a : ℤ) (f : RemoteFile) (fs : List RemoteFile)
    → a ≤ℤ f.mod_time
    → All (λ g. a ≤ℤ g.mod_time) fs
    → All (λ g. a ≤ℤ g.mod_time) (insert_by_time f fs)
unfolding insert_by_time
All-insert_by_time a f [] h _ = (h, tt)
All-insert_by_time a f (g ∷ gs) h (p, q) = elim (Bool-cases (leb_ℤ f.mod_time g.mod_time)) [
  | inl e ↦ rw (e, insert_by_time) (h, (p, q))
  | inr e ↦ rw (e, insert_by_time) (p, All-insert_by_time a f gs h q)
]

insert_by_time-IsAscending :
    (f : RemoteFile) (fs : List RemoteFile) → IsAscending fs → IsAscending (insert_by_time f fs)
unfolding insert_by_time
insert_by_time-IsAscending f [] _ = (tt, tt)
insert_by_time-IsAscending f (g ∷ gs) (p, q) = elim (Bool-cases (leb_ℤ f.mod_time g.mod_time)) [
  | inl e ↦
      rw (e, insert_by_time)
        ((ground arith, All-later f.mod_time g.mod_time gs (ground arith) p), (p, q))
  | inr e ↦
      rw (e, insert_by_time)
        (All-insert_by_time g.mod_time f gs (ground arith) p, insert_by_time-IsAscending f gs q)
]

pub sorted_by_time-IsAscending : (fs : List RemoteFile) → IsAscending (sorted_by_time fs)
unfolding sorted_by_time
sorted_by_time-IsAscending [] = tt
sorted_by_time-IsAscending (f ∷ fs) =
    insert_by_time-IsAscending f (sorted_by_time fs) (sorted_by_time-IsAscending fs)
