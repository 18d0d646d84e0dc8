-- ===== src/Host/Frame.antt =====
-- Properties of a host's state that its operations keep, but for the stop event's.
use videobackup.Base.{Text, List}
use videobackup.Base.Keeps.{Keeps}
use videobackup.Host.{Host}

-- Kept by the operations that neither delete nor rename a file.
pub record CallsKeep (H : Host) (Q : H.State → Type 0) : Type 0 where
  pub glob : (directory pattern : Text) → Keeps Q (H.glob directory pattern)
  pub stat : (directory name : Text) → Keeps Q (H.stat directory name)
  pub exists : (directory name : Text) → Keeps Q (H.exists directory name)
  pub mkdir : (directory : Text) → Keeps Q (H.mkdir directory)
  pub write_temp : (contents : Text) → Keeps Q (H.write_temp contents)
  pub unlink_temp : (path : Text) → Keeps Q (H.unlink_temp path)
  pub which : (tool : Text) → Keeps Q (H.which tool)
  pub now : Keeps Q H.now
  pub monotonic : Keeps Q H.monotonic
  pub run : (argv : List Text) → Keeps Q (H.run argv)

pub record OpsKeep (H : Host) (Q : H.State → Type 0) : Type 0 where
  pub calls : CallsKeep H Q
  pub unlink : (directory name : Text) → Keeps Q (H.unlink directory name)
  pub replace : (directory name new_name : Text) → Keeps Q (H.replace directory name new_name)

-- What is true of every state is kept.
module _ (H : Host) (Q : H.State → Type 0) (always : (s : H.State) → Q s) where
  trivial-CallsKeep : CallsKeep H Q
  trivial-CallsKeep = record {
    glob = λ directory pattern. record { at = λ s h. always _ };
    stat = λ directory name. record { at = λ s h. always _ };
    exists = λ directory name. record { at = λ s h. always _ };
    mkdir = λ directory. record { at = λ s h. always _ };
    write_temp = λ contents. record { at = λ s h. always _ };
    unlink_temp = λ path. record { at = λ s h. always _ };
    which = λ tool. record { at = λ s h. always _ };
    now = record { at = λ s h. always _ };
    monotonic = record { at = λ s h. always _ };
    run = λ argv. record { at = λ s h. always _ };
  }

  pub trivial-OpsKeep : OpsKeep H Q
  trivial-OpsKeep = record {
    calls = trivial-CallsKeep;
    unlink = λ directory name. record { at = λ s h. always _ };
    replace = λ directory name new_name. record { at = λ s h. always _ };
  }
