-- ===== src/Uploader/Parts.antt =====
-- The spool as videobackup/uploader.py lists it, against the names that videobackup/encrypt.py gives.
use videobackup.Base.{
  ◌≡◌, refl, ap, ◌∙◌, Bool, true, false, ◌&&◌, [], ◌∷◌, ◌++◌, append_assoc, ℕ, Text, is_among,
  codes, arith,
}
use videobackup.Base.After.{After}
use videobackup.Encrypt.{encrypted_name, part_name}
use videobackup.Encrypt.Sorted.{is_among-sorted_names}
use videobackup.Host.Memory.{World, Machine, memory, glob_match, some_tail}
use videobackup.Encrypt.{sorted_names}
use videobackup.Spool.Quiet.{matching}
use videobackup.Spool.Names.{names_of}
use videobackup.Uploader.{ready_files}
use videobackup.Uploader.Members.{is_among-filter_by}

-- What is matched against each tail of a name.
abbrev ends_here : Text → Bool
ends_here = glob_match (codes ".gpg")

-- It takes four characters, not more.
five_fail : (a b c d e : ℕ) (s : Text) → ends_here (a ∷ b ∷ c ∷ d ∷ e ∷ s) ≡ false
unfolding glob_match
five_fail a b c d e s = ground arith

abbrev part_end : Text
part_end = codes ".gpg.part"

longer_fails : (c : ℕ) (x : Text) → ends_here (c ∷ (x ++ part_end)) ≡ false
longer_fails c [] = five_fail c _ _ _ _ _
longer_fails c (a ∷ []) = five_fail c a _ _ _ _
longer_fails c (a ∷ b ∷ []) = five_fail c a b _ _ _
longer_fails c (a ∷ b ∷ d ∷ []) = five_fail c a b d _ _
longer_fails c (a ∷ b ∷ d ∷ e ∷ x) = five_fail c a b d e _

no_part : (x : Text) → some_tail ends_here (x ++ part_end) ≡ false
unfolding glob_match
no_part [] = refl
no_part (c ∷ x) = rw (longer_fails c x) (no_part x)

gpg_end : (x : Text) → some_tail ends_here (x ++ codes ".gpg") ≡ true
unfolding glob_match
gpg_end [] = refl
gpg_end (c ∷ x) = ground (arith, gpg_end x)

star_gpg : (x : Text) → glob_match (codes "*.gpg") x ≡ some_tail ends_here x
unfolding glob_match
star_gpg x = refl

part_fails : (name : Text) → glob_match (codes "*.gpg") (part_name (encrypted_name name)) ≡ false
part_fails name =
    star_gpg (part_name (encrypted_name name))
    ∙ (ap (some_tail ends_here) (append_assoc name (codes ".gpg") (codes ".part")) ∙ no_part name)

and_true : (b : Bool) → (b && true) ≡ b
and_true true = refl
and_true false = refl

and_false : (b : Bool) → (b && false) ≡ false
and_false true = refl
and_false false = refl

module _ (m : Machine) (spool name : Text) (w : World) where
  -- Whether a name is listed, from whether it is there and matches.
  listed :
      (x : Text)
      → is_among x (sorted_names (names_of (matching (codes "*.gpg") (w.dirs spool))))
        ≡ (is_among x (names_of (w.dirs spool)) && glob_match (codes "*.gpg") x)
  listed x =
      is_among-sorted_names x _ ∙ is_among-filter_by x (glob_match (codes "*.gpg")) (w.dirs spool)

  -- Among the files that the upload lists, the encrypted name of a segment is exactly if it is in
  -- the spool, and the name under which gpg writes it never is: for every segment's name, directory
  -- and machine in memory.
  pub ready_files-no_part :
      After
        (λ names _.
          (is_among (encrypted_name name) names
            ≡ is_among (encrypted_name name) (names_of (w.dirs spool)))
          × (is_among (part_name (encrypted_name name)) names ≡ false))
        (λ _. ⊥)
        (ready_files (memory m) spool w)
  unfolding ready_files
  ready_files-no_part = (
    rw (listed (encrypted_name name), star_gpg (encrypted_name name), gpg_end name) (and_true _),
    rw (listed (part_name (encrypted_name name)), part_fails name) (and_false _),
  )
