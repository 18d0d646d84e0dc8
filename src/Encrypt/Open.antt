-- ===== src/Encrypt/Open.antt =====
-- videobackup/encrypt.py leaves an open segment, one that is still written, as it is.
use videobackup.Base.{
  ◌≡◌, refl, sym, ◌∙◌, inl, inr, false, List, Option, none, some, ℤ, ◌-ℤ◌, leb_ℤ, Text, codes, same,
  same→eq, same_refl, Bool-cases, subst,
}
use videobackup.Base.Keeps.{Keeps, Keeps-bind, Keeps-branch, Keeps-pure}
use videobackup.Config.{Config, spool_raw, spool_encrypted}
use videobackup.Encrypt.{settle_margin, is_closed, encrypt_segment, encrypt_pending, glob_all}
use videobackup.Encrypt.Keeps.{is_closed-Keeps, encrypt_closed-Keeps, encrypt_segments-Keeps}
use videobackup.Encrypt.Safe.{encrypted_apart}
use videobackup.Host.Frame.{CallsKeep}
use videobackup.Host.Quiet.{files-CallsKeep}
use videobackup.Host.Memory.{World, Machine, memory, find_file, set_dir, delete_found, rename_found}
use videobackup.Retention.{RemoteFile}
use videobackup.Spool.Names.{find_file-remove_file}

module _ (m : Machine) (config : Config)
    (tools : (argv : List Text) (w : World) (n : Text)
      → find_file n ((m.run argv w).1.dirs (spool_raw config))
        ≡ find_file n (w.dirs (spool_raw config)))
    (n : Text) (f : RemoteFile) where
  -- The segment is there, as it was.
  abbrev Stays : World → Type 0
  Stays w = find_file n (w.dirs (spool_raw config)) ≡ some f

  calls-Stays : CallsKeep (memory m) Stays
  calls-Stays =
      files-CallsKeep m (λ dirs. find_file n (dirs (spool_raw config)) ≡ some f)
        (λ argv. record { at = λ w h. tools argv w n ∙ h })

  replace-Stays :
      (name new_name : Text)
      → Keeps Stays ((memory m).replace (spool_encrypted config) name new_name)
  replace-Stays name new_name = record { at = λ w. from (find_file name _) w }
    where
      from :
          (o : Option RemoteFile) (w : World)
          → Stays w
          → Stays (rename_found m (spool_encrypted config) name new_name o w).1
      from none w h = unfold rename_found in h
      from (some g) w h = unfold rename_found set_dir in rw (encrypted_apart config) h

  delete_encrypted-Stays :
      (name : Text) → Keeps Stays ((memory m).unlink (spool_encrypted config) name)
  delete_encrypted-Stays name = record { at = λ w. from (find_file name _) w }
    where
      from :
          (o : Option RemoteFile) (w : World)
          → Stays w
          → Stays (delete_found m (spool_encrypted config) name o w).1
      from none w h = unfold delete_found in h
      from (some g) w h =
          unfold delete_found set_dir in
          elim (Bool-cases (m.refuses (spool_encrypted config) name)) [
            | inl e ↦ rw e h
            | inr e ↦ rw (e, encrypted_apart config) h
          ]

  delete_raw-Stays :
      (name : Text) → same n name ≡ false → Keeps Stays ((memory m).unlink (spool_raw config) name)
  delete_raw-Stays name apart = record { at = λ w. from (find_file name _) w }
    where
      from :
          (o : Option RemoteFile) (w : World)
          → Stays w
          → Stays (delete_found m (spool_raw config) name o w).1
      from none w h = unfold delete_found in h
      from (some g) w h =
          unfold delete_found set_dir in
          elim (Bool-cases (m.refuses (spool_raw config) name)) [
            | inl e ↦ rw e h
            | inr e ↦
                rw
                  (
                    e,
                    same_refl (spool_raw config),
                    find_file-remove_file n name (w.dirs (spool_raw config)) apart,
                  )
                  h
          ]

  module _ (now : ℤ) (still : leb_ℤ settle_margin (now -ℤ f.mod_time) ≡ false) where
    -- The open segment's own turn changes nothing.
    own_turn : (w : World) → Stays w → (encrypt_segment (memory m) config now n w).1 ≡ w
    unfolding encrypt_segment is_closed
    own_turn w h = rw (h, still) refl

    encrypt_segment-Stays : (name : Text) → Keeps Stays (encrypt_segment (memory m) config now name)
    unfolding encrypt_segment
    encrypt_segment-Stays name = elim (Bool-cases (same n name)) [
      | inl e ↦
          subst (λ k. Keeps Stays (encrypt_segment (memory m) config now k)) (same→eq n name e)
            (record { at = λ w h. subst Stays (sym (own_turn w h)) h })
      | inr e ↦
          Keeps-bind _ _
            (is_closed-Keeps (memory m) Stays calls-Stays config replace-Stays
              delete_encrypted-Stays (spool_raw config) name now)
            λ closed.
              Keeps-branch closed _ _
                (encrypt_closed-Keeps (memory m) Stays calls-Stays config replace-Stays
                  delete_encrypted-Stays name (delete_raw-Stays name e))
                (Keeps-pure false)
    ]

  -- `encrypt_pending` leaves an open segment as it is: a file of the raw spool that was last written
  -- less than 15 seconds before the pass is the same afterwards, whatever gpg answers and whichever
  -- deletions are refused, and also where the pass raises. This holds on a machine on which nothing
  -- else acts and programs leave the raw spool as it is.
  pub encrypt_pending-open :
      (w : World)
      → find_file n (w.dirs (spool_raw config)) ≡ some f
      → leb_ℤ settle_margin (w.clock -ℤ f.mod_time) ≡ false
      → find_file n ((encrypt_pending (memory m) config w).1.dirs (spool_raw config)) ≡ some f
  unfolding encrypt_pending glob_all
  encrypt_pending-open w there still = elim (Bool-cases (m.installed (codes "gpg"))) [
    | inl e ↦ rw e (
        (encrypt_segments-Keeps (memory m) Stays calls-Stays config replace-Stays
            delete_encrypted-Stays w.clock (encrypt_segment-Stays w.clock still) _ 0).at
          w there)
    | inr e ↦ rw e there
  ]
