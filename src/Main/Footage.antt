-- ===== src/Main/Footage.antt =====
-- The encryption loop of videobackup/main.py loses no footage on a quiet machine.
use videobackup.Base.{◌≡◌, refl, sym, ◌∙◌, ◌⊎◌, inl, inr, ℕ, zero, suc, true, false, Text, ℤ}
use videobackup.Base.Keeps.{Keeps, Keeps-pure, Keeps-branch, Keeps-bind, Keeps-attempt}
use videobackup.Config.{Config, spool_raw, spool_encrypted}
use videobackup.Encrypt.{encrypted_name, encrypt_pending}
use videobackup.Encrypt.Safe.{IsThere, IsSafe, IsGpg}
use videobackup.Encrypt.Safety.{encrypt_pending-IsSafe}
use videobackup.Host.Memory.{World, Machine, memory, find_file}
use videobackup.Spool.{prune_raw_spool}
use videobackup.Spool.Raw.{WasTooLarge, LostLargeOnly, prune_raw_spool-LostLargeOnly}
use videobackup.Main.{encrypt_cycle, encrypt_rounds}

module _ (config : Config) where
  -- Each segment is as it was, or its encrypted copy is there, or it was larger than the remote
  -- folder may be; and the encrypted copies that were there are there.
  pub record NoLoss (w : World) (w' : World) : Type 0 where
    pub kept :
        (n : Text)
        → (find_file n (w'.dirs (spool_raw config)) ≡ find_file n (w.dirs (spool_raw config)))
          ⊎ (IsThere w' (spool_encrypted config) (encrypted_name n) ⊎ WasTooLarge config w n)
    pub copies :
        (n : Text)
        → IsThere w (spool_encrypted config) (encrypted_name n)
        → IsThere w' (spool_encrypted config) (encrypted_name n)

  NoLoss-IsSafe : (w w' : World) → IsSafe config w w' → NoLoss w w'
  NoLoss-IsSafe w w' safe = record {
    kept = λ n. elim (safe.kept n) [ inl e ↦ inl e | inr there ↦ inr (inl there) ];
    copies = safe.copies;
  }

  NoLoss-LostLargeOnly : (w w' : World) → LostLargeOnly config w w' → NoLoss w w'
  NoLoss-LostLargeOnly w w' (lost, same_copies) = record {
    kept = λ n. elim (lost n) [ inl e ↦ inl e | inr large ↦ inr (inr large) ];
    copies = λ n h. rw same_copies h;
  }

  -- What was too large in between was so before, unless its copy is there.
  large_before :
      (u v : World) (n : Text)
      → NoLoss u v
      → WasTooLarge config v n
      → IsThere v (spool_encrypted config) (encrypted_name n) ⊎ WasTooLarge config u n
  large_before u v n a (size, (f, found, sized), over) = elim (a.kept n) [
    | inl e ↦ inr (size, (f, sym e ∙ found, sized), over)
    | inr there_or_large ↦ there_or_large
  ]

  NoLoss-trans : (u v w : World) → NoLoss u v → NoLoss v w → NoLoss u w
  NoLoss-trans u v w a b = record {
    kept = λ n. kept_both n (a.kept n) (b.kept n);
    copies = λ n h. b.copies n (a.copies n h);
  }
    where
      later :
          (n : Text)
          → IsThere v (spool_encrypted config) (encrypted_name n) ⊎ WasTooLarge config u n
          → IsThere w (spool_encrypted config) (encrypted_name n) ⊎ WasTooLarge config u n
      later n (inl there) = inl (b.copies n there)
      later n (inr large) = inr large

      kept_both :
          (n : Text)
          → (find_file n (v.dirs (spool_raw config)) ≡ find_file n (u.dirs (spool_raw config)))
            ⊎ (IsThere v (spool_encrypted config) (encrypted_name n) ⊎ WasTooLarge config u n)
          → (find_file n (w.dirs (spool_raw config)) ≡ find_file n (v.dirs (spool_raw config)))
            ⊎ (IsThere w (spool_encrypted config) (encrypted_name n) ⊎ WasTooLarge config v n)
          → (find_file n (w.dirs (spool_raw config)) ≡ find_file n (u.dirs (spool_raw config)))
            ⊎ (IsThere w (spool_encrypted config) (encrypted_name n) ⊎ WasTooLarge config u n)
      kept_both n (inl e) (inl e') = inl (e' ∙ e)
      kept_both n (inr h) (inl e') = inr (later n h)
      kept_both n k (inr (inl there)) = inr (inl there)
      kept_both n k (inr (inr large)) = inr (later n (large_before u v n a large))

module _ (m : Machine) (config : Config) (gpg : IsGpg m config) (w : World) where
  prune_keeps : Keeps (NoLoss config w) (prune_raw_spool (memory m) config)
  prune_keeps = record {
    at = λ s q.
        NoLoss-trans config w s _ q
          (NoLoss-LostLargeOnly config s _ (prune_raw_spool-LostLargeOnly m config s));
  }

  encrypt_keeps : Keeps (NoLoss config w) (encrypt_pending (memory m) config)
  encrypt_keeps = record {
    at = λ s q.
        NoLoss-trans config w s _ q
          (NoLoss-IsSafe config s _ (encrypt_pending-IsSafe m config gpg s));
  }

  cycle_keeps : Keeps (NoLoss config w) (encrypt_cycle (memory m) config)
  unfolding encrypt_cycle
  cycle_keeps = Keeps-bind _ _ prune_keeps λ dropped. encrypt_keeps

  stopped_keeps : Keeps (NoLoss config w) (memory m).is_stopped
  stopped_keeps = record { at = λ s q. record { kept = q.kept; copies = q.copies } }

  wait_keeps : (seconds : ℤ) → Keeps (NoLoss config w) ((memory m).wait seconds)
  wait_keeps seconds = record { at = λ s q. record { kept = q.kept; copies = q.copies } }

  rounds_keep : (fuel : ℕ) → Keeps (NoLoss config w) (encrypt_rounds (memory m) fuel config)
  unfolding encrypt_rounds
  rounds_keep zero = Keeps-pure false
  rounds_keep (suc fuel) = Keeps-bind _ _ stopped_keeps λ stopped.
      Keeps-branch stopped _ _ (Keeps-pure true) (
        Keeps-bind _ _ (Keeps-attempt _ cycle_keeps) λ result.
          Keeps-bind _ _ (wait_keeps config.encrypt_interval_seconds) λ waited. rounds_keep fuel)

  -- The encryption loop loses no footage, however many rounds it runs: after them a segment that
  -- was there at the start is as it was, or its encrypted copy is there, or it is larger than the
  -- remote folder may be; and no encrypted copy is gone. This holds on a machine on which nothing
  -- else acts, where gpg writes its output file alone and, where it reports success, has written it.
  pub encrypt_rounds-NoLoss :
      (fuel : ℕ) → NoLoss config w (encrypt_rounds (memory m) fuel config w).1
  encrypt_rounds-NoLoss fuel =
      (rounds_keep fuel).at w (record { kept = λ n. inl refl; copies = λ n h. h })
