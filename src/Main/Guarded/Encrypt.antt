-- ===== src/Main/Guarded/Encrypt.antt =====
-- videobackup/encrypt.py deletes a segment only once its encrypted copy has been there.
use videobackup.Base.{◌≡◌, inl, ℕ, Bool, true, false, List, [], ◌∷◌, Text, ℤ}
use videobackup.Base.Effects.{pure, throw, follow, ok, raised, is_runtime_error}
use videobackup.Base.Keeps.{Keeps, Keeps-pure, Keeps-bind, Keeps-branch, Keeps-throw, keeps_rules}
use videobackup.Base.After.{
  After, follow-After, recover-After, if-After, After-keeps, After-of, After-state,
}
use videobackup.Config.{Config, spool_raw, spool_encrypted, raw_segment_patterns}
use videobackup.Drive.{is_zero}
use videobackup.Encrypt.{
  encrypted_name, part_name, unlink_missing_ok, is_closed, encrypt_file, encrypt_or_log,
  encrypt_closed, encrypt_segment, encrypt_segments, encrypt_pending, gpg_failed, glob_all,
  sorted_names,
}
use videobackup.Host.{Host}
use videobackup.Main.Guarded.{Guarded}

module _ (H : Host) (config : Config) (G : Guarded H config) where
  -- The state is safe, and a copy of the segment has been there.
  abbrev Copied : Text → H.State → Type 0
  Copied name s = G.Safe s × G.Copied name s

  unlink_raw-Copied : (name : Text) → Keeps (Copied name) (H.unlink (spool_raw config) name)
  unlink_raw-Copied name = record {
    at = λ s (safe, copy). (
      G.unlink_raw name s safe (inl copy),
      ((G.copied name).unlink (spool_raw config) name).at s copy,
    );
  }

  drop_segment-Copied :
      (name : Text) → Keeps (Copied name) (unlink_missing_ok H (spool_raw config) name)
  unfolding unlink_missing_ok
  drop_segment-Copied name = search (keeps_rules, unlink_raw-Copied)

  drop_part-Safe : (name : Text) → Keeps G.Safe (unlink_missing_ok H (spool_encrypted config) name)
  unfolding unlink_missing_ok
  drop_part-Safe name = search (keeps_rules, G.unlink_encrypted)

  -- Where it returns, the copy is there.
  encrypt_file-Copied :
      (name : Text) (s : H.State)
      → G.Safe s
      → After
          (λ _. Copied name)
          G.Safe
          (encrypt_file H
            (spool_raw config)
            name
            (spool_encrypted config)
            (encrypted_name name)
            config.gpg_recipient
            s)
  unfolding encrypt_file
  encrypt_file-Copied name s safe =
      let tmp = part_name (encrypted_name name) in
      follow-After (λ _. G.Safe) G.Safe (λ _. Copied name) (H.run _ s) _
        (After-of G.Safe _ ((G.calls.run _).at s safe))
        (λ result s1 q.
          if-After (λ _. Copied name) G.Safe (is_zero result.returncode) _ _
            (λ _.
              After-keeps (λ _. G.Copied name) G.Safe _
                ((G.replace tmp (encrypted_name name)).at s1 q) (G.finished name s1))
            (λ _.
              follow-After (λ _. G.Safe) G.Safe (λ _. Copied name)
                (unlink_missing_ok H (spool_encrypted config) tmp s1)
                (λ _. throw (gpg_failed H name result))
                (After-of G.Safe _ ((drop_part-Safe tmp).at s1 q)) (λ _ s2 q2. q2)))

  -- Where it says that it encrypted the segment, the copy is there.
  abbrev Told : Text → Bool → H.State → Type 0
  Told name done s = G.Safe s × (done ≡ true → G.Copied name s)

  encrypt_or_log-Told :
      (name : Text) (s : H.State)
      → G.Safe s
      → After (Told name) G.Safe (
          encrypt_or_log H
            (spool_raw config)
            name
            (spool_encrypted config)
            (encrypted_name name)
            config.gpg_recipient
            s)
  unfolding encrypt_or_log
  encrypt_or_log-Told name s safe =
      recover-After (Told name) G.Safe G.Safe _ _
        (follow-After (λ _. Copied name) G.Safe (Told name)
          (encrypt_file H (spool_raw config) name (spool_encrypted config) (encrypted_name name)
            config.gpg_recipient s)
          (λ _. pure true) (encrypt_file-Copied name s safe) (λ _ s1 q. (q.0, λ _. q.1)))
        (λ e s1 q.
          if-After (Told name) G.Safe (is_runtime_error e) (ok false, s1) (raised e, s1)
            (λ _. (q, λ h. cc)) (λ _. q))

  -- What follows what it was told: the segment is deleted only if its copy is there.
  drop_told :
      (name : Text) (b : Bool) (s : H.State)
      → Copied name s
      → After
          (λ _. G.Safe)
          G.Safe
          (follow (unlink_missing_ok H (spool_raw config) name s) (λ _. pure b))
  drop_told name b s h =
      follow-After (λ _. G.Safe) G.Safe (λ _. G.Safe)
        (unlink_missing_ok H (spool_raw config) name s) (λ _. pure b)
        (After-of G.Safe _ ((drop_segment-Copied name).at s h).0) (λ _ s1 q. q)

  encrypt_closed-Safe : (name : Text) → Keeps G.Safe (encrypt_closed H config name)
  unfolding encrypt_closed
  encrypt_closed-Safe name = record {
    at = λ s safe. After-state G.Safe _ (
        follow-After (Told name) G.Safe (λ _. G.Safe)
          (H.exists (spool_encrypted config) (encrypted_name name) s) _
          (After-keeps (λ there s'. there ≡ true → G.Copied name s') G.Safe _
            ((G.calls.exists (spool_encrypted config) (encrypted_name name)).at s safe)
            (G.found name s))
          (λ there s1 q.
            if-After (λ _. G.Safe) G.Safe there _ _ (λ e. drop_told name false s1 (q.0, q.1 e))
              (λ _.
                follow-After (Told name) G.Safe (λ _. G.Safe)
                  (encrypt_or_log H (spool_raw config) name (spool_encrypted config)
                    (encrypted_name name) config.gpg_recipient s1)
                  _ (encrypt_or_log-Told name s1 q.0)
                  (λ done s2 q2.
                    if-After (λ _. G.Safe) G.Safe done _ (ok false, s2)
                      (λ e. drop_told name true s2 (q2.0, q2.1 e)) (λ _. q2.0)))));
  }

  is_closed-Safe : (name : Text) (now : ℤ) → Keeps G.Safe (is_closed H (spool_raw config) name now)
  unfolding is_closed
  is_closed-Safe name now = search (keeps_rules, G.calls.stat)

  pub encrypt_segment-Safe :
      (now : ℤ) (name : Text) → Keeps G.Safe (encrypt_segment H config now name)
  unfolding encrypt_segment
  encrypt_segment-Safe now name =
      Keeps-bind _ _ (is_closed-Safe name now)
        λ closed. Keeps-branch closed _ _ (encrypt_closed-Safe name) (Keeps-pure false)

  pub encrypt_segments-Safe :
      (now : ℤ) (names : List Text) (n : ℕ) → Keeps G.Safe (encrypt_segments H config now names n)
  unfolding encrypt_segments
  encrypt_segments-Safe now [] n = Keeps-pure n
  encrypt_segments-Safe now (name ∷ names) n =
      Keeps-bind _ _ (encrypt_segment-Safe now name) λ done. encrypt_segments-Safe now names _

  glob_all-Safe : (patterns : List Text) → Keeps G.Safe (glob_all H (spool_raw config) patterns)
  unfolding glob_all
  glob_all-Safe [] = Keeps-pure []
  glob_all-Safe (pattern ∷ patterns) =
      Keeps-bind _ _ (G.calls.glob (spool_raw config) pattern)
        λ found. Keeps-bind _ _ (glob_all-Safe patterns) λ rest. Keeps-pure _

  pub encrypt_pending-Safe : Keeps G.Safe (encrypt_pending H config)
  unfolding encrypt_pending
  encrypt_pending-Safe = Keeps-bind _ _ (G.calls.which _) λ installed.
      Keeps-branch installed _ _
        (Keeps-bind _ _ G.calls.now λ now.
          Keeps-bind _ _ (glob_all-Safe raw_segment_patterns)
            λ names. encrypt_segments-Safe now (sorted_names names) 0)
        (Keeps-throw _)
