-- ===== src/Main/Guarded/Less.antt =====
-- On a quiet machine the code makes no segment: the loops' laws, with nothing to know before a deletion.
use videobackup.Base.{◌≡◌, refl, ◌∙◌, ◌⊎◌, inl, inr, List, Option, none, some}
use videobackup.Base.{ℕ, ℤ, ◌<ℤ◌, Text, same, same_refl, same→eq, Bool-cases}
use videobackup.Base.Effects.{M, Outcome, ok, raised}
use videobackup.Base.Keeps.{Keeps}
use videobackup.Host.Frame.{CallsKeep, trivial-OpsKeep}
use videobackup.Encrypt.{part_name}
use videobackup.Base.After.{After}
use videobackup.Config.{Config, spool_raw, spool_encrypted}
use videobackup.Encrypt.{encrypted_name, encrypt_segment, encrypt_segments}
use videobackup.Encrypt.Safe.{encrypted_apart}
use videobackup.Encrypt.Finish.{find_file-removed}
use videobackup.Host.Quiet.{files-CallsKeep}
use videobackup.Host.Memory.{World, Machine, memory, find_file, set_dir, delete_found, rename_found}
use videobackup.Main.Guarded.{Guarded}
use videobackup.Main.Guarded.Encrypt.{encrypt_segment-Safe, encrypt_segments-Safe}
use videobackup.Retention.{RemoteFile}
use videobackup.Spool.Names.{find_file-remove_file}

module _ (m : Machine) (config : Config)
    (tools : (argv : List Text) (w : World) (n : Text)
      → find_file n ((m.run argv w).1.dirs (spool_raw config))
        ≡ find_file n (w.dirs (spool_raw config))) where
  -- A segment is as it was, or it is gone.
  abbrev pub IsLess : World → World → Type 0
  IsLess v w =
      (n : Text)
      → (find_file n (w.dirs (spool_raw config)) ≡ find_file n (v.dirs (spool_raw config)))
        ⊎ (find_file n (w.dirs (spool_raw config)) ≡ none)

  IsLess-trans : (u v w : World) → IsLess u v → IsLess v w → IsLess u w
  IsLess-trans u v w a b n = elim (b n) [
    | inl e ↦ (elim (a n) [ inl e' ↦ inl (e ∙ e') | inr e' ↦ inr (e ∙ e') ])
    | inr e ↦ inr e
  ]

  delete_raw-IsLess :
      (name : Text) (o : Option RemoteFile) (w : World)
      → IsLess w (delete_found m (spool_raw config) name o w).1
  unfolding delete_found set_dir
  delete_raw-IsLess name none w n = inl refl
  delete_raw-IsLess name (some f) w n = elim (Bool-cases (m.refuses (spool_raw config) name)) [
    | inl e ↦ rw e (inl refl)
    | inr e ↦
        rw (e, same_refl (spool_raw config))
          (elim (Bool-cases (same n name)) [
            | inl k ↦
                inr (rw (same→eq n name k) (find_file-removed name (w.dirs (spool_raw config))))
            | inr k ↦ inl (find_file-remove_file n name (w.dirs (spool_raw config)) k)
          ])
  ]

  delete_encrypted-IsLess :
      (name : Text) (o : Option RemoteFile) (w : World)
      → IsLess w (delete_found m (spool_encrypted config) name o w).1
  unfolding delete_found set_dir
  delete_encrypted-IsLess name none w n = inl refl
  delete_encrypted-IsLess name (some f) w n =
      elim (Bool-cases (m.refuses (spool_encrypted config) name)) [
        | inl e ↦ rw e (inl refl)
        | inr e ↦ rw (e, encrypted_apart config) (inl refl)
      ]

  rename_encrypted-IsLess :
      (name new_name : Text) (o : Option RemoteFile) (w : World)
      → IsLess w (rename_found m (spool_encrypted config) name new_name o w).1
  unfolding rename_found set_dir
  rename_encrypted-IsLess name new_name none w n = inl refl
  rename_encrypted-IsLess name new_name (some f) w n = rw (encrypted_apart config) (inl refl)

  -- What an operation keeps that makes no segment.
  keeps-IsLess :
      {A : Type 0} (v : World) (op : M World A)
      → ((w : World) → IsLess w (op w).1)
      → Keeps (IsLess v) op
  keeps-IsLess v op k = record { at = λ w h. IsLess-trans v w (op w).1 h (k w) }

  calls-IsLess : (v : World) → CallsKeep (memory m) (IsLess v)
  calls-IsLess v =
      files-CallsKeep m
        (λ dirs.
          (n : Text)
          → (find_file n (dirs (spool_raw config)) ≡ find_file n (v.dirs (spool_raw config)))
            ⊎ (find_file n (dirs (spool_raw config)) ≡ none))
        (λ argv. keeps-IsLess v ((memory m).run argv) (λ w n. inl (tools argv w n)))

  After-any :
      {A : Type 0} (P : A → World → Type 0)
      → ((a : A) (w : World) → P a w)
      → (r : Outcome A × World) → After P (λ _. Unit) r
  After-any P h (ok a, w) = h a w
  After-any P h (raised e, w) = tt

  guarded_less : (v : World) → Guarded (memory m) config
  guarded_less v = record {
    Copied = λ n w. Unit;
    Large = λ n w. Unit;
    Safe = IsLess v;
    copied = λ n. trivial-OpsKeep (memory m) _ (λ w. tt);
    large = λ n. trivial-OpsKeep (memory m) _ (λ w. tt);
    calls = calls-IsLess v;
    is_stopped = record { at = λ w h. h };
    wait = λ seconds. record { at = λ w h. h };
    replace = λ name new_name.
        keeps-IsLess v ((memory m).replace (spool_encrypted config) name new_name) (λ w.
          rename_encrypted-IsLess name new_name (find_file name (w.dirs (spool_encrypted config)))
            w);
    unlink_encrypted = λ name.
        keeps-IsLess v ((memory m).unlink (spool_encrypted config) name)
          (λ w. delete_encrypted-IsLess name (find_file name (w.dirs (spool_encrypted config))) w);
    unlink_raw = λ name w h _.
        (keeps-IsLess v ((memory m).unlink (spool_raw config) name)
            (λ u. delete_raw-IsLess name (find_file name (u.dirs (spool_raw config))) u)).at
          w h;
    found = λ name w e. tt;
    finished = λ name w.
        After-any (λ _ _. Unit) (λ _ _. tt)
          ((memory m).replace (spool_encrypted config) (part_name (encrypted_name name))
            (encrypted_name name) w);
    measured = λ name w.
        After-any (λ st _. config.max_drive_bytes <ℤ st.size → Unit) (λ _ _ over. tt)
          ((memory m).stat (spool_raw config) name w);
  }

  pub encrypt_segment-IsLess :
      (now : ℤ) (name : Text) (w : World)
      → IsLess w (encrypt_segment (memory m) config now name w).1
  unfolding guarded_less
  encrypt_segment-IsLess now name w =
      (encrypt_segment-Safe (memory m) config (guarded_less w) now name).at w (λ n. inl refl)

  pub encrypt_segments-IsLess :
      (now : ℤ) (names : List Text) (count : ℕ) (w : World)
      → IsLess w (encrypt_segments (memory m) config now names count w).1
  unfolding guarded_less
  encrypt_segments-IsLess now names count w =
      (encrypt_segments-Safe (memory m) config (guarded_less w) now names count).at w
        (λ n. inl refl)
