-- ===== src/Encrypt/Finish.antt =====
-- Each closed segment that videobackup/encrypt.py comes to is encrypted and deleted, on a quiet machine
-- where gpg succeeds and no deletion in the raw spool is refused.
use videobackup.Base.{
  ◌≡◌, refl, sym, ◌∙◌, subst, ◌≢◌, inl, inr, Bool, true, false, List, [], ◌∷◌, Option, none, some,
}
use videobackup.Base.{ℤ, ◌-ℤ◌, leb_ℤ, Text, same, same_refl, Bool-cases}
use videobackup.Base.Effects.{ok, follow, recover, pure, branch, throw}
use videobackup.Base.After.{After, follow-After, recover-After, if-After, After-weaken}
use videobackup.Config.{Config, join, spool_raw, spool_encrypted}
use videobackup.Drive.{is_zero}
use videobackup.Encrypt.{
  encrypted_name, part_name, gpg_args, settle_margin, unlink_missing_ok, is_closed, encrypt_file,
  encrypt_or_log, encrypt_closed, encrypt_segment, is_file_not_found,
}
use videobackup.Host.Memory.{
  World, Machine, memory, find_file, remove_file, set_dir, delete_found, rename_found, is_found,
}
use videobackup.Retention.{RemoteFile}
use videobackup.Encrypt.Safe.{IsThere, raw_apart, IsGpg}
use videobackup.Encrypt.Safety.{found→there}
use videobackup.Spool.Names.{same_sym}

pub find_file-removed :
    (name : Text) (fs : List RemoteFile) → find_file name (remove_file name fs) ≡ none
unfolding find_file remove_file
find_file-removed name [] = refl
find_file-removed name (f ∷ fs) = elim (Bool-cases (same f.name name)) [
  | inl e ↦ rw e (find_file-removed name fs)
  | inr e ↦ rw e (rw (same_sym name f.name ∙ e) (find_file-removed name fs))
]

-- gpg succeeds on every segment, and deletions in the raw spool are not refused.
pub record Works (m : Machine) (config : Config) : Type 0 where
  pub gpg : IsGpg m config
  pub succeeds :
      (name : Text) (w : World)
      → is_zero
          (m.run
            (gpg_args config.gpg_recipient
              (join (spool_encrypted config) (part_name (encrypted_name name)))
              (join (spool_raw config) name))
            w).0.returncode
        ≡ true
  pub deletes : (name : Text) → m.refuses (spool_raw config) name ≡ false

-- The segment is gone, and its copy is there.
abbrev pub IsDone : Config → Text → World → Type 0
IsDone config name w =
    (find_file name (w.dirs (spool_raw config)) ≡ none)
    × IsThere w (spool_encrypted config) (encrypted_name name)

-- Written long enough before `now`.
abbrev pub IsSettled : ℤ → RemoteFile → Type 0
IsSettled now f = leb_ℤ settle_margin (now -ℤ f.mod_time) ≡ true

-- A segment that is closed is gone afterwards, and its copy is there.
abbrev pub Finishes : Config → ℤ → Text → World → World → Type 0
Finishes config now name w w' =
    (f : RemoteFile)
    → find_file name (w.dirs (spool_raw config)) ≡ some f
    → IsSettled now f
    → IsDone config name w'

module _ (m : Machine) (config : Config) (works : Works m config) where
  -- Deleting a segment whose copy is there.
  delete-IsDone :
      (name : Text) (o : Option RemoteFile) (w : World)
      → find_file name (w.dirs (spool_raw config)) ≡ o
      → IsThere w (spool_encrypted config) (encrypted_name name)
      → After
          (λ _. IsDone config name)
          (λ _. ⊥)
          (recover
            (delete_found m (spool_raw config) name o w)
            (λ e. branch (is_file_not_found e) (pure tt) (throw e)))
  unfolding delete_found set_dir
  delete-IsDone name none w e there = (e, there)
  delete-IsDone name (some f) w e there =
      rw (works.deletes name, same_refl (spool_raw config), raw_apart config)
        (find_file-removed name (w.dirs (spool_raw config)), there)

  drop-IsDone :
      (name : Text) (b : Bool) (w : World)
      → IsThere w (spool_encrypted config) (encrypted_name name)
      → After
          (λ _. IsDone config name)
          (λ _. ⊥)
          (follow (unlink_missing_ok (memory m) (spool_raw config) name w) (λ _. pure b))
  unfolding unlink_missing_ok
  drop-IsDone name b w there =
      follow-After (λ _. IsDone config name) (λ _. ⊥) (λ _. IsDone config name)
        (recover
          (delete_found m (spool_raw config) name (find_file name (w.dirs (spool_raw config))) w) _)
        (λ _. pure b) (delete-IsDone name _ w refl there) (λ _ s h. h)

  -- The finished file takes its name.
  rename-IsThere :
      (name new_name : Text) (o : Option RemoteFile) (w : World)
      → o ≢ none
      → After
          (λ _ w'. IsThere w' (spool_encrypted config) new_name)
          (λ _. ⊥)
          (rename_found m (spool_encrypted config) name new_name o w)
  unfolding rename_found set_dir find_file
  rename-IsThere name new_name none w h = absurd (h refl)
  rename-IsThere name new_name (some f) w h =
      rw (same_refl (spool_encrypted config), same_refl new_name) (λ e. cc)

  encrypt_file-succeeds :
      (name : Text) (w : World)
      → After
          (λ _ w'. IsThere w' (spool_encrypted config) (encrypted_name name))
          (λ _. ⊥)
          (encrypt_file
            (memory m)
            (spool_raw config)
            name
            (spool_encrypted config)
            (encrypted_name name)
            config.gpg_recipient
            w)
  unfolding encrypt_file
  encrypt_file-succeeds name w =
      if-After (λ _ w'. IsThere w' (spool_encrypted config) (encrypted_name name)) (λ _. ⊥) _ _ _
        (λ e. rename-IsThere _ _ _ _ (works.gpg.writes name w e))
        (λ e. let t = works.succeeds name w in cc)

  -- Whatever it finds, it deletes the segment in the end.
  pub encrypt_closed-IsDone :
      (name : Text) (w : World)
      → After (λ _. IsDone config name) (λ _. ⊥) (encrypt_closed (memory m) config name w)
  unfolding encrypt_closed encrypt_or_log
  encrypt_closed-IsDone name w =
      if-After (λ _. IsDone config name) (λ _. ⊥)
        (is_found (find_file (encrypted_name name) (w.dirs (spool_encrypted config)))) _ _
        (λ e. drop-IsDone name false w (found→there _ e))
        (λ _.
          follow-After
            (λ done w'. (done ≡ true) × IsThere w' (spool_encrypted config) (encrypted_name name))
            (λ _. ⊥) (λ _. IsDone config name) _ _
            (recover-After
              (λ done w'. (done ≡ true) × IsThere w' (spool_encrypted config) (encrypted_name name))
              (λ _. ⊥) (λ _. ⊥) _ _
              (follow-After (λ _ w'. IsThere w' (spool_encrypted config) (encrypted_name name))
                (λ _. ⊥)
                (λ done w'.
                  (done ≡ true) × IsThere w' (spool_encrypted config) (encrypted_name name))
                _ (λ _. pure true) (encrypt_file-succeeds name w) (λ _ s h. (refl, h)))
              (λ e s h. absurd h))
            (λ done s h.
              if-After (λ _. IsDone config name) (λ _. ⊥) done _ (ok false, s)
                (λ _. drop-IsDone name true s h.1) (λ e. absurd (let t = h.0 in cc))))

  -- The same file is not both closed and open.
  found_once :
      (now : ℤ) (o : Option RemoteFile) (f g : RemoteFile)
      → o ≡ some f
      → o ≡ some g
      → IsSettled now f
      → IsSettled now g
  found_once now o f g p q h = subst (IsSettled now) (some_inj f g (sym p ∙ q)) h
    where
      some_inj : (x y : RemoteFile) → ◌≡◌ {A = Option RemoteFile} (some x) (some y) → x ≡ y
      some_inj x y e = cc

  segment_from :
      (now : ℤ) (name : Text) (w : World) (o : Option RemoteFile)
      → find_file name (w.dirs (spool_raw config)) ≡ o
      → After
          (λ _. Finishes config now name w)
          (λ _. ⊥)
          (encrypt_segment (memory m) config now name w)
  unfolding encrypt_segment is_closed
  segment_from now name w none e = rw e (λ f p settled. cc)
  segment_from now name w (some g) e = rw e (
      if-After (λ _. Finishes config now name w) (λ _. ⊥) (leb_ℤ settle_margin (now -ℤ g.mod_time))
        _ _
        (λ _.
          After-weaken (λ _. IsDone config name) (λ _. Finishes config now name w) (λ _. ⊥) (λ _. ⊥)
            _ (encrypt_closed-IsDone name w) (λ _ s h f p settled. h) (λ s h. h))
        (λ still f p settled.
          let again : IsSettled now g = found_once now _ f g p e settled in
          absurd (let clash : true ≡ false = sym again ∙ still in cc)))

  pub encrypt_segment-Finishes :
      (now : ℤ) (name : Text) (w : World)
      → After
          (λ _. Finishes config now name w)
          (λ _. ⊥)
          (encrypt_segment (memory m) config now name w)
  encrypt_segment-Finishes now name w = segment_from now name w _ refl
