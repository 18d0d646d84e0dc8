-- ===== src/Examples/Uploading.antt =====
-- An upload on the small machine, during which a new segment is encrypted.
use videobackup.Base.{◌≡◌, refl, List, [], ◌∷◌, ◌++◌, Text, codes, same, is_among, length}
use videobackup.Base.Effects.{ok}
use videobackup.Config.{spool_encrypted}
use videobackup.Host.Memory.{Machine, memory, set_dir}
use videobackup.Rclone.{classify}
use videobackup.Retention.{RemoteFile}
use videobackup.Spool.Names.{without}
use videobackup.Spool.Quiet.{matching}
use videobackup.Uploader.{upload_pending}
use videobackup.Uploader.Moved.{among, IsMove, upload_pending-count}
use videobackup.Base.{false}
use videobackup.Base.After.{After}
use videobackup.Encrypt.{encrypted_name, part_name}
use videobackup.Spool.Names.{names_of}
use videobackup.Uploader.{ready_files}
use videobackup.Uploader.Parts.{ready_files-no_part}
use videobackup.Examples.Machines.{file_of, machine, succeeded, test_config, world}

abbrev pub moved_names : List Text
moved_names = codes "c.gpg" ∷ codes "b.gpg" ∷ []

abbrev pub new_files : List RemoteFile
new_files = file_of (codes "e.gpg") 8 10 ∷ []

abbrev mover : Machine
mover = record machine {
  run = λ argv w. (
    succeeded [],
    record w {
      dirs =
          set_dir (codes "s/encrypted")
            (without moved_names (w.dirs (codes "s/encrypted")) ++ new_files) w.dirs;
    },
  );
}

mover-IsMove : IsMove mover test_config world moved_names new_files
unfolding same set_dir spool_encrypted is_among classify
mover-IsMove = record { installed = refl; grant = refl; leaves = refl; fresh_names = (refl, tt) }

upload_pending-count_example :
    (upload_pending (memory mover) test_config world).0
    ≡ ok (
        length
          (among moved_names (matching (codes "*.gpg") (world.dirs (spool_encrypted test_config)))))
upload_pending-count_example =
    upload_pending-count mover test_config world moved_names new_files mover-IsMove

ready_files-no_part_example :
    After
      (λ names _.
        (is_among (encrypted_name (codes "d")) names
          ≡ is_among (encrypted_name (codes "d")) (names_of (world.dirs (codes "s/encrypted"))))
        × (is_among (part_name (encrypted_name (codes "d"))) names ≡ false))
      (λ _. ⊥)
      (ready_files (memory machine) (codes "s/encrypted") world)
ready_files-no_part_example = ready_files-no_part machine (codes "s/encrypted") (codes "d") world
