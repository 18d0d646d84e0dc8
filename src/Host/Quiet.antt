-- ===== src/Host/Quiet.antt =====
-- A property of the files alone, on a machine in memory: only deletions, renamings and programs change it.
use videobackup.Base.{List, Text}
use videobackup.Base.Keeps.{Keeps}
use videobackup.Host.Frame.{CallsKeep}
use videobackup.Host.Memory.{Machine, memory}
use videobackup.Retention.{RemoteFile}

pub files-CallsKeep :
    (m : Machine) (Q : (Text → List RemoteFile) → Type 0)
    → ((argv : List Text) → Keeps (λ w. Q w.dirs) ((memory m).run argv))
    → CallsKeep (memory m) (λ w. Q w.dirs)
files-CallsKeep m Q runs = record {
  glob = λ directory pattern. record { at = λ w h. h };
  stat = λ directory name. record { at = λ w h. h };
  exists = λ directory name. record { at = λ w h. h };
  mkdir = λ directory. record { at = λ w h. h };
  write_temp = λ contents. record { at = λ w h. h };
  unlink_temp = λ path. record { at = λ w h. h };
  which = λ tool. record { at = λ w h. h };
  now = record { at = λ w h. h };
  monotonic = record { at = λ w h. h };
  run = runs;
}
