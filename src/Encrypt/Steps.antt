-- ===== src/Encrypt/Steps.antt =====
-- The file operations of videobackup/encrypt.py on a quiet machine lose no footage.
use videobackup.Base.{refl, sym, subst, inl, inr, Option, none, some}
use videobackup.Base.{Text, same, same→eq, same_refl, Bool-cases}
use videobackup.Base.Effects.{ok, raised}
use videobackup.Base.After.{After, recover-After, if-After}
use videobackup.Config.{Config, spool_raw, spool_encrypted}
use videobackup.Encrypt.{encrypted_name, part_name, unlink_missing_ok, is_file_not_found}
use videobackup.Host.Memory.{
  World, Machine, memory, find_file, remove_file, set_dir, delete_found, delete_file, rename_found,
}
use videobackup.Retention.{RemoteFile}
use videobackup.Spool.Names.{find_file-remove_file}
use videobackup.Encrypt.Safe.{IsThere, raw_apart, encrypted_apart, IsSafe, part_apart}

module _ (m : Machine) (config : Config) where
  abbrev pub dropped : Text → Text → World → World
  dropped directory name w = record w {
    dirs = set_dir directory (remove_file name (w.dirs directory)) w.dirs;
  }

  delete_found-After :
      (Q : World → Type 0) (directory name : Text) (o : Option RemoteFile) (w : World)
      → Q w
      → Q (dropped directory name w)
      → After (λ _. Q) Q (delete_found m directory name o w)
  unfolding delete_found
  delete_found-After Q directory name none w h k = h
  delete_found-After Q directory name (some f) w h k =
      if-After (λ _. Q) Q (m.refuses directory name) _ _ (λ _. h) (λ _. k)

  pub unlink_missing_ok-After :
      (Q : World → Type 0) (directory name : Text) (w : World)
      → Q w
      → Q (dropped directory name w)
      → After (λ _. Q) Q (unlink_missing_ok (memory m) directory name w)
  unfolding unlink_missing_ok
  unlink_missing_ok-After Q directory name w h k =
      recover-After (λ _. Q) Q Q (delete_file m directory name w) _
        (delete_found-After Q directory name (find_file name (w.dirs directory)) w h k)
        (λ e s q.
          if-After (λ _. Q) Q (is_file_not_found e) (ok tt, s) (raised e, s) (λ _. q) (λ _. q))

  -- Deleting a segment whose copy is there.
  pub dropped_raw-IsSafe :
      (name : Text) (w : World)
      → IsThere w (spool_encrypted config) (encrypted_name name)
      → IsSafe config w (dropped (spool_raw config) name w)
  unfolding set_dir
  dropped_raw-IsSafe name w h = record {
    kept = λ n. elim (Bool-cases (same n name)) [
      | inl e ↦ inr (
          rw (raw_apart config) (
            subst (λ k. IsThere w (spool_encrypted config) (encrypted_name k))
              (sym (same→eq n name e)) h))
      | inr e ↦ inl (rw (same_refl (spool_raw config)) (find_file-remove_file n name _ e))
    ];
    copies = λ n k. rw (raw_apart config) k;
  }

  -- Deleting a file that gpg left unfinished.
  pub dropped_part-IsSafe :
      (name : Text) (w : World)
      → IsSafe config w (dropped (spool_encrypted config) (part_name (encrypted_name name)) w)
  unfolding set_dir
  dropped_part-IsSafe name w = record {
    kept = λ n. inl (rw (encrypted_apart config) refl);
    copies = λ n k.
        rw (same_refl (spool_encrypted config))
          (rw (find_file-remove_file (encrypted_name n) _ _ (part_apart n name)) k);
  }

  -- The finished file takes its name.
  pub renamed-IsSafe :
      (name : Text) (f : RemoteFile) (w : World)
      → let r =
          rename_found m
            (spool_encrypted config)
            (part_name (encrypted_name name))
            (encrypted_name name)
            (some f)
            w in
        IsSafe config w r.1 × IsThere r.1 (spool_encrypted config) (encrypted_name name)
  unfolding rename_found set_dir
  renamed-IsSafe name f w = (
    record {
      kept = λ n. inl (rw (encrypted_apart config) refl);
      copies = λ n k.
          rw (same_refl (spool_encrypted config))
            (elim (Bool-cases (same (encrypted_name n) (encrypted_name name))) [
              | inl e ↦ unfold find_file in rw e (λ h. cc)
              | inr e ↦
                  unfold find_file in
                  rw e (
                    rw (find_file-remove_file (encrypted_name n) _ _ e)
                      (rw (find_file-remove_file (encrypted_name n) _ _ (part_apart n name)) k))
            ]);
    },
    rw (same_refl (spool_encrypted config))
        (unfold find_file in rw (same_refl (encrypted_name name)) (λ h. cc)),
  )
