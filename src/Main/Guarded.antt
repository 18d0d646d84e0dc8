-- ===== src/Main/Guarded.antt =====
-- What the encryption loop of videobackup/main.py relies on and guarantees while other threads act
-- between its calls: laws of a host about three predicates of its state. `Copied n` and `Large n`
-- say that a copy of a segment has been there, and that it has been too large; whatever happens,
-- they stay true. `Safe` survives the deletion of a segment only where one of the two holds.
pub mod Spool
pub mod Encrypt
pub mod Loop
pub mod Sound
pub mod Less
pub mod Memory
use videobackup.Base.{◌≡◌, true, ◌⊎◌, List, Text, ℤ, ◌<ℤ◌}
use videobackup.Base.Keeps.{Keeps}
use videobackup.Base.After.{After}
use videobackup.Config.{Config, spool_raw, spool_encrypted}
use videobackup.Encrypt.{encrypted_name, part_name}
use videobackup.Host.{Host}
use videobackup.Host.Frame.{CallsKeep, OpsKeep}

pub record Guarded (H : Host) (config : Config) : Type 1 where
  pub Copied : Text → H.State → Type 0
  pub Large : Text → H.State → Type 0
  pub Safe : H.State → Type 0
  pub copied : (n : Text) → OpsKeep H (Copied n)
  pub large : (n : Text) → OpsKeep H (Large n)
  pub calls : CallsKeep H Safe
  pub is_stopped : Keeps Safe H.is_stopped
  pub wait : (seconds : ℤ) → Keeps Safe (H.wait seconds)
  pub replace :
      (name new_name : Text) → Keeps Safe (H.replace (spool_encrypted config) name new_name)
  pub unlink_encrypted : (name : Text) → Keeps Safe (H.unlink (spool_encrypted config) name)
  pub unlink_raw :
      (name : Text) (s : H.State)
      → Safe s
      → Copied name s ⊎ Large name s
      → Safe (H.unlink (spool_raw config) name s).1
  -- What the loop learns from its calls.
  pub found :
      (name : Text) (s : H.State)
      → After
          (λ there s'. there ≡ true → Copied name s')
          (λ _. Unit)
          (H.exists (spool_encrypted config) (encrypted_name name) s)
  pub finished :
      (name : Text) (s : H.State)
      → After
          (λ _. Copied name)
          (λ _. Unit)
          (H.replace
            (spool_encrypted config)
            (part_name (encrypted_name name))
            (encrypted_name name)
            s)
  pub measured :
      (name : Text) (s : H.State)
      → After
          (λ st s'. config.max_drive_bytes <ℤ st.size → Large name s')
          (λ _. Unit)
          (H.stat (spool_raw config) name s)
