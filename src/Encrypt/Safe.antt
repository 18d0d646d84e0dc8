-- ===== src/Encrypt/Safe.antt =====
-- What it means that videobackup/encrypt.py loses no footage, and what gpg is relied on for.
use videobackup.Base.{
  ◌≡◌, refl, ap, ◌∙◌, ◌≢◌, ◌⊎◌, inl, inr, true, false, [], ◌∷◌, ◌++◌, none, ℕ, arith,
}
use videobackup.Base.{Text, codes, same, same→eq, Bool-cases}
use videobackup.Config.{Config, join, spool_raw, spool_encrypted}
use videobackup.Drive.{is_zero}
use videobackup.Encrypt.{encrypted_name, part_name, gpg_args}
use videobackup.Host.Memory.{World, Machine, find_file}
use videobackup.Spool.Names.{same_sym}

-- The directory has a file of that name.
abbrev pub IsThere : World → Text → Text → Type 0
IsThere w directory name = find_file name (w.dirs directory) ≢ none

same-append : (p a b : Text) → same (p ++ a) (p ++ b) ≡ same a b
unfolding same
same-append [] a b = refl
same-append (x ∷ p) a b = ground (arith, same-append p a b)

module _ (config : Config) where
  pub raw_apart : same (spool_encrypted config) (spool_raw config) ≡ false
  unfolding spool_encrypted spool_raw
  raw_apart = same-append config.local_spool _ _ ∙ apart
    where
      apart : same (b'/' ∷ codes "encrypted") (b'/' ∷ codes "raw") ≡ false
      apart = unfold same in refl

  pub encrypted_apart : same (spool_raw config) (spool_encrypted config) ≡ false
  encrypted_apart = same_sym (spool_raw config) (spool_encrypted config) ∙ raw_apart

  -- From `w` to `w'` each segment stays as it is or has its encrypted copy, and no copy is lost.
  pub record IsSafe (w : World) (w' : World) : Type 0 where
    pub kept :
        (n : Text)
        → (find_file n (w'.dirs (spool_raw config)) ≡ find_file n (w.dirs (spool_raw config)))
          ⊎ IsThere w' (spool_encrypted config) (encrypted_name n)
    pub copies :
        (n : Text)
        → IsThere w (spool_encrypted config) (encrypted_name n)
        → IsThere w' (spool_encrypted config) (encrypted_name n)

  pub IsSafe-refl : (w : World) → IsSafe w w
  IsSafe-refl w = record { kept = λ n. inl refl; copies = λ n h. h }

  pub IsSafe-trans : (u v w : World) → IsSafe u v → IsSafe v w → IsSafe u w
  IsSafe-trans u v w a b = record {
    kept = λ n. kept_both n (a.kept n) (b.kept n);
    copies = λ n h. b.copies n (a.copies n h);
  }
    where
      kept_both :
          (n : Text)
          → (find_file n (v.dirs (spool_raw config)) ≡ find_file n (u.dirs (spool_raw config)))
            ⊎ IsThere v (spool_encrypted config) (encrypted_name n)
          → (find_file n (w.dirs (spool_raw config)) ≡ find_file n (v.dirs (spool_raw config)))
            ⊎ IsThere w (spool_encrypted config) (encrypted_name n)
          → (find_file n (w.dirs (spool_raw config)) ≡ find_file n (u.dirs (spool_raw config)))
            ⊎ IsThere w (spool_encrypted config) (encrypted_name n)
      kept_both n (inl p) (inl q) = inl (q ∙ p)
      kept_both n (inr p) q = inr (b.copies n p)
      kept_both n p (inr q) = inr q

last_char : Text → ℕ
last_char [] = 0
last_char (c ∷ []) = c
last_char (c ∷ d ∷ s) = last_char (d ∷ s)

last_char-append : (p : Text) (c : ℕ) (s : Text) → last_char (p ++ (c ∷ s)) ≡ last_char (c ∷ s)
unfolding last_char
last_char-append [] c s = refl
last_char-append (x ∷ []) c s = refl
last_char-append (x ∷ y ∷ p) c s = last_char-append (y ∷ p) c s

-- An encrypted file and one that gpg is still writing have different names.
pub part_apart : (n k : Text) → same (encrypted_name n) (part_name (encrypted_name k)) ≡ false
part_apart n k = elim (Bool-cases (same (encrypted_name n) (part_name (encrypted_name k)))) [
  | inl e ↦ absurd (ends (ap last_char (same→eq _ _ e)))
  | inr e ↦ e
]
  where
    ends : ¬ (last_char (encrypted_name n) ≡ last_char (part_name (encrypted_name k)))
    ends =
        rw
          (
            last_char-append n b'.' (codes "gpg"),
            last_char-append (encrypted_name k) b'.' (codes "part"),
          )
          (unfold last_char in λ e. omega arith)

-- What gpg is relied on for: it writes its output file alone, and on success that file is there.
pub record IsGpg (m : Machine) (config : Config) : Type 0 where
  pub leaves_raw :
      (name n : Text) (w : World)
      → let dest = part_name (encrypted_name name) in
        let argv =
          gpg_args config.gpg_recipient
            (join (spool_encrypted config) dest)
            (join (spool_raw config) name) in
        find_file n ((m.run argv w).1.dirs (spool_raw config))
        ≡ find_file n (w.dirs (spool_raw config))
  pub leaves_others :
      (name n : Text) (w : World)
      → let dest = part_name (encrypted_name name) in
        let argv =
          gpg_args config.gpg_recipient
            (join (spool_encrypted config) dest)
            (join (spool_raw config) name) in
        same n dest ≡ false
        → find_file n ((m.run argv w).1.dirs (spool_encrypted config))
          ≡ find_file n (w.dirs (spool_encrypted config))
  pub writes :
      (name : Text) (w : World)
      → let dest = part_name (encrypted_name name) in
        let argv =
          gpg_args config.gpg_recipient
            (join (spool_encrypted config) dest)
            (join (spool_raw config) name) in
        is_zero (m.run argv w).0.returncode ≡ true
        → IsThere (m.run argv w).1 (spool_encrypted config) dest
