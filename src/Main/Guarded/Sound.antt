-- ===== src/Main/Guarded/Sound.antt =====
-- What it means that no footage is lost on a machine that other threads and processes share, and
-- which operations see to it.
use videobackup.Base.{◌≡◌, sym, subst, ◌⊎◌, inl, inr, false, List, [], ◌∷◌, Option, none, some}
use videobackup.Base.{All, Text, same, same→eq, same_refl, Bool-cases}
use videobackup.Base.Effects.{M}
use videobackup.Base.Keeps.{Keeps}
use videobackup.Base.After.{After}
use videobackup.Config.{Config, spool_raw, spool_encrypted}
use videobackup.Encrypt.{encrypted_name}
use videobackup.Encrypt.Safe.{IsThere, encrypted_apart}
use videobackup.Host.Frame.{CallsKeep, OpsKeep}
use videobackup.Host.Memory.{World, Machine, memory, find_file, set_dir, delete_found, rename_found}
use videobackup.Host.Shared.{Shared, history, acts, take_turn, yield_turn, shared}
use videobackup.Retention.{RemoteFile}
use videobackup.Spool.Names.{find_file-remove_file}
use videobackup.Spool.Raw.{WasTooLarge}

-- In one of the states.
abbrev pub Once : (World → Type 0) → List World → Type 0
Once P [] = ⊥
Once P (w ∷ ws) = P w ⊎ Once P ws

module _ (config : Config) where
  -- A segment that may go: its copy has been in the encrypted spool, or the segment has been larger
  -- than the remote folder may be.
  abbrev pub MayGo : List World → Text → Type 0
  MayGo past n =
      Once (λ w. IsThere w (spool_encrypted config) (encrypted_name n)) past
      ⊎ Once (λ w. WasTooLarge config w n) past

  -- No segment goes from `v` to `w`.
  abbrev pub KeepsRaw : World → World → Type 0
  KeepsRaw v w = (n : Text) → IsThere v (spool_raw config) n → IsThere w (spool_raw config) n

  -- A step after which a segment is gone has a past in which the segment could go.
  abbrev pub Sound : List World → Type 0
  Sound [] = Unit
  Sound (w ∷ []) = Unit
  Sound (w ∷ v ∷ past) =
      Sound (v ∷ past)
      × ((n : Text)
          → IsThere v (spool_raw config) n
          → IsThere w (spool_raw config) n ⊎ MayGo (v ∷ past) n)

  -- The others delete no segment that waits.
  abbrev pub AreKind : List (World → World) → Type 0
  AreKind turns = All (λ turn. (w : World) → KeepsRaw w (turn w)) turns

  abbrev pub Safe : Shared → Type 0
  Safe s = Sound (history s) × AreKind s.turns

  take_turn-Safe :
      (turns : List (World → World)) (s : Shared)
      → Sound (history s)
      → AreKind turns
      → Safe (take_turn turns s)
  take_turn-Safe [] s sound _ = (sound, tt)
  take_turn-Safe (turn ∷ turns) s sound (k, ks) = ((sound, λ n there. inl (k s.world n there)), ks)

  take_turn-Once :
      (P : World → Type 0) (turns : List (World → World)) (s : Shared)
      → Once P (history s)
      → Once P (history (take_turn turns s))
  take_turn-Once P [] s h = h
  take_turn-Once P (turn ∷ turns) s h = inr h

  -- An operation that deletes no segment.
  pub acts-Safe :
      {A : Type 0} (m : M World A) → ((w : World) → KeepsRaw w (m w).1) → Keeps Safe (acts m)
  acts-Safe m k = record {
    at = λ s (sound, kind).
        let (before, later) = take_turn-Safe s.turns s sound kind in
        ((before, λ n there. inl (k (yield_turn s).world n there)), later);
  }

  pub acts-Once :
      {A : Type 0} (P : World → Type 0) (m : M World A) → Keeps (λ s. Once P (history s)) (acts m)
  acts-Once P m = record { at = λ s h. inr (take_turn-Once P s.turns s h) }

  module _ (m : Machine) where
    always-CallsKeep :
        (Q : Shared → Type 0)
        → ((A : Type 0) (op : M World A) → Keeps Q (acts op))
        → CallsKeep (shared m) Q
    always-CallsKeep Q k = record {
      glob = λ directory pattern. k _ ((memory m).glob directory pattern);
      stat = λ directory name. k _ ((memory m).stat directory name);
      exists = λ directory name. k _ ((memory m).exists directory name);
      mkdir = λ directory. k _ ((memory m).mkdir directory);
      write_temp = λ contents. k _ ((memory m).write_temp contents);
      unlink_temp = λ path. k _ ((memory m).unlink_temp path);
      which = λ tool. k _ ((memory m).which tool);
      now = k _ (memory m).now;
      monotonic = k _ (memory m).monotonic;
      run = λ argv. k _ ((memory m).run argv);
    }

    pub always-OpsKeep :
        (Q : Shared → Type 0)
        → ((A : Type 0) (op : M World A) → Keeps Q (acts op))
        → OpsKeep (shared m) Q
    always-OpsKeep Q k = record {
      calls = always-CallsKeep Q k;
      unlink = λ directory name. k _ ((memory m).unlink directory name);
      replace = λ directory name new_name. k _ ((memory m).replace directory name new_name);
    }

    pub delete_encrypted-KeepsRaw :
        (name : Text) (o : Option RemoteFile) (w : World)
        → KeepsRaw w (delete_found m (spool_encrypted config) name o w).1
    unfolding delete_found set_dir
    delete_encrypted-KeepsRaw name none w n h = h
    delete_encrypted-KeepsRaw name (some f) w n h =
        elim (Bool-cases (m.refuses (spool_encrypted config) name)) [
          | inl e ↦ rw e h
          | inr e ↦ rw (e, encrypted_apart config) h
        ]

    pub rename_encrypted-KeepsRaw :
        (name new_name : Text) (o : Option RemoteFile) (w : World)
        → KeepsRaw w (rename_found m (spool_encrypted config) name new_name o w).1
    unfolding rename_found set_dir
    rename_encrypted-KeepsRaw name new_name none w n h = h
    rename_encrypted-KeepsRaw name new_name (some f) w n h = rw (encrypted_apart config) h

    -- The deletion of a segment leaves the others.
    delete_raw-others :
        (name : Text) (o : Option RemoteFile) (w : World) (n : Text)
        → same n name ≡ false
        → IsThere w (spool_raw config) n
        → IsThere (delete_found m (spool_raw config) name o w).1 (spool_raw config) n
    unfolding delete_found set_dir
    delete_raw-others name none w n apart h = h
    delete_raw-others name (some f) w n apart h =
        elim (Bool-cases (m.refuses (spool_raw config) name)) [
          | inl e ↦ rw e h
          | inr e ↦
              rw
                (
                  e,
                  same_refl (spool_raw config),
                  find_file-remove_file n name (w.dirs (spool_raw config)) apart,
                )
                h
        ]

    take_turn-MayGo :
        (turns : List (World → World)) (s : Shared) (n : Text)
        → MayGo (history s) n
        → MayGo (history (take_turn turns s)) n
    take_turn-MayGo turns s n (inl h) = inl (take_turn-Once _ turns s h)
    take_turn-MayGo turns s n (inr h) = inr (take_turn-Once _ turns s h)

    pub delete_raw-Safe :
        (name : Text) (s : Shared)
        → Safe s
        → MayGo (history s) name
        → Safe ((shared m).unlink (spool_raw config) name s).1
    delete_raw-Safe name s (sound, kind) may_go =
        let (before, later) = take_turn-Safe s.turns s sound kind in
        let u = yield_turn s in
        (
          (
            before,
            λ n there. elim (Bool-cases (same n name)) [
              | inl e ↦ inr (
                  subst (MayGo (history u)) (sym (same→eq n name e))
                    (take_turn-MayGo s.turns s name may_go))
              | inr e ↦ inl (delete_raw-others name _ u.world n e there)
            ],
          ),
          later,
        )

    pub renamed-IsThere :
        (name new_name : Text) (o : Option RemoteFile) (w : World)
        → After
            (λ _ w'. IsThere w' (spool_encrypted config) new_name)
            (λ _. Unit)
            (rename_found m (spool_encrypted config) name new_name o w)
    unfolding rename_found set_dir find_file
    renamed-IsThere name new_name none w = tt
    renamed-IsThere name new_name (some f) w =
        rw (same_refl (spool_encrypted config), same_refl new_name) (λ e. cc)
