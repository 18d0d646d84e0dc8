-- ===== src/Examples.antt =====
-- Runs on a small machine, and the theorems at concrete data.
mod Interleaving
mod Encrypting
mod Machines
mod Recording
mod Settings
mod Viewing
mod Ending
mod Gate
mod Supervising
mod Uploading
mod Commands
use videobackup.Base.{
  ℕ, ◌+◌, ◌≡◌, refl, ◌↔◌, Bool, true, false, List, [], ◌∷◌, Option, none, some, map, not, filter_by,
  All, length, ℤ, pos, ◌+ℤ◌, ◌≤ℤ◌, Text, codes, is_among, same, take, drop, ◌<◌, arith,
}
use videobackup.Base.Effects.{value_error, Outcome, ok, raised, ◌>>=◌, ◌>>◌}
use videobackup.Base.Values.{lower}
use videobackup.Config.{Config, spool_encrypted, spool_raw}
use videobackup.Drive.Stamps.{IsPlainTime, parse_mod_time-fraction}
use videobackup.Drive.{parse_mod_time, prune, list_remote, join_lines}
use videobackup.Drive.Lines.{lines_of, lines_of-plain, IsPlainName}
use videobackup.Drive.Quiet.{list_remote_lem}
use videobackup.Drive.Room.{prune-room, prune-free, remote_cap, remote_victims}
use videobackup.Encrypt.{encrypt_pending}
use videobackup.Encrypt.Safe.{IsSafe}
use videobackup.Encrypt.Safety.{encrypt_pending-IsSafe}
use videobackup.Host.Memory.{
  World, Machine, memory, set_dir, glob_match, find_file, delete_found, remove_file,
}
use videobackup.Main.{run_upload_loop, encrypt_rounds, run_batch_loop}
use videobackup.Main.Survive.{IsCalm, loops-IsCalm}
use videobackup.Rclone.{classify, rate_limit_markers, out_of_space_markers, auth_markers}
use videobackup.Rclone.Laws.{Occurs, Any, classify-flags_iff}
use videobackup.Retention.{
  RemoteFile, total_size, select_for_deletion, select_oversize, sorted_by_time, effective_prune_cap,
}
use videobackup.Retention.Cap.{KeepsFree, effective_prune_cap-quota_iff, effective_prune_cap_bounds}
use videobackup.Retention.Least.{IsWithinLimits, select_for_deletion-least, victims}
use videobackup.Retention.Settled.{select_for_deletion-nil_iff}
use videobackup.Spool.{
  prune_spool, scan_dir, scan_names, scan_file, drop_oversize, drop_files, unlink_all,
  unlink_victims, unlink_victim, cap_backlog, without_dropped,
}
use videobackup.Spool.Names.{names_of, without, HasDistinctNames}
use videobackup.Spool.Quiet.{Changes, matching, deletable, unlink_victims_lem}
use videobackup.Spool.Bound.{oversize, backlog_victims, prune_spool_lem}
use videobackup.Spool.Left.{prune_spool-bound}
use Machines.{
  rclone-FreesSpace, test_config, spool_files, remote_files, world, machine, gpg, rclone,
}

pruned : Outcome ℕ × World
unfolding prune_spool scan_dir scan_names scan_file drop_oversize drop_files unlink_all
    unlink_victims unlink_victim cap_backlog without_dropped select_for_deletion select_oversize
    is_among spool_encrypted glob_match find_file delete_found set_dir remove_file ◌+ℤ◌
pruned = prune_spool (memory machine) test_config world

pruned_count : pruned.0 ≡ ok 2
unfolding pruned
pruned_count = refl

pruned_left :
    names_of (pruned.1.dirs (codes "s/encrypted"))
    ≡ codes "b.gpg" ∷ codes "c.gpg" ∷ codes "d.gpg.part" ∷ []
unfolding pruned set_dir
pruned_left = refl

-- The oldest file goes, since the account is to keep 40 bytes free after 40 more.
remote_pruned :
    names_of (remote_victims machine test_config world rclone (pos 40)) ≡ codes "x.gpg" ∷ []
unfolding select_for_deletion effective_prune_cap ◌+ℤ◌
remote_pruned = refl

plain : All IsPlainName (names_of remote_files)
plain = (p, (p, (p, tt)))
  where
    p : All (λ (c : ℕ). ◌≡◌ {A = Bool} true true) (codes "x.gpg")
    p = (refl, (refl, (refl, (refl, (refl, tt)))))

remote_distinct : HasDistinctNames remote_files
unfolding same
remote_distinct = ((refl, (refl, tt)), ((refl, tt), (tt, tt)))

spool_distinct : HasDistinctNames spool_files
unfolding same
spool_distinct = (
  (refl, (refl, (refl, (refl, tt)))),
  ((refl, (refl, (refl, tt))), ((refl, (refl, tt)), ((refl, tt), (tt, tt)))),
)

prune-room_example :
    ((prune (memory machine) test_config (pos 40) world).0 ≡ ok 1)
    × ((prune (memory machine) test_config (pos 40) world).1.remote
        ≡ without (codes "x.gpg" ∷ []) remote_files)
    × IsWithinLimits
        (pos 55)
        (pos 100000000)
        (pos 0)
        (prune (memory machine) test_config (pos 40) world).1.remote
    × (total_size (prune (memory machine) test_config (pos 40) world).1.remote +ℤ pos 40 ≤ℤ pos 100)
unfolding select_for_deletion effective_prune_cap ◌+ℤ◌
prune-room_example =
    prune-room machine test_config world rclone (pos 40) remote_distinct plain (omega arith)
      (omega arith)

prune-free_example : pos 80 ≤ℤ (prune (memory machine) test_config (pos 40) world).1.free
unfolding total_size ◌+ℤ◌
prune-free_example =
    prune-free machine test_config world rclone (pos 40) remote_distinct plain (omega arith)
      (omega arith) (omega arith) (omega arith, (omega arith, (omega arith, tt))) (omega arith) refl
      rclone-FreesSpace

encrypt_pending-IsSafe_example :
    IsSafe test_config world (encrypt_pending (memory machine) test_config world).1
encrypt_pending-IsSafe_example = encrypt_pending-IsSafe machine test_config gpg world

select_for_deletion-least_example :
    (victims remote_files (pos 55) (pos 100000000) (pos 0) ≡ take 1 (sorted_by_time remote_files))
    × IsWithinLimits (pos 55) (pos 100000000) (pos 0) (drop 1 (sorted_by_time remote_files))
    × ((k : ℕ)
        → k < 1
        → ¬ IsWithinLimits (pos 55) (pos 100000000) (pos 0) (drop k (sorted_by_time remote_files)))
unfolding select_for_deletion ◌+ℤ◌
select_for_deletion-least_example =
    select_for_deletion-least remote_files (pos 55) (pos 100000000) (pos 0) (omega arith)

select_for_deletion-nil_iff_example :
    (select_for_deletion remote_files (pos 55) (pos 100000000) (pos 0) ≡ [])
    ↔ IsWithinLimits (pos 55) (pos 100000000) (pos 0) remote_files
select_for_deletion-nil_iff_example =
    select_for_deletion-nil_iff remote_files (pos 55) (pos 100000000) (pos 0) (omega arith)

effective_prune_cap-quota_iff_example :
    (pos 50 ≤ℤ effective_prune_cap (pos 100) (pos 40) (pos 75) (some (pos 60)) (pos 40))
    ↔ ((pos 90 ≤ℤ pos 100) × KeepsFree (pos 40) (pos 40) (pos 75) (pos 60) (pos 50))
unfolding ◌+ℤ◌
effective_prune_cap-quota_iff_example =
    effective_prune_cap-quota_iff (pos 100) (pos 40) (pos 75) (pos 50) (pos 40) (pos 60)
      (omega arith) (omega arith) (omega arith) (omega arith) (omega arith)

effective_prune_cap_bounds_example :
    (pos 0 ≤ℤ effective_prune_cap (pos 100) (pos 40) (pos 75) (some (pos 60)) (pos 40))
    × (effective_prune_cap (pos 100) (pos 40) (pos 75) (some (pos 60)) (pos 40) +ℤ pos 40
        ≤ℤ pos 100)
effective_prune_cap_bounds_example =
    effective_prune_cap_bounds (pos 100) (pos 40) (pos 75) (some (pos 60)) (pos 40) (omega arith)
      (omega arith)

prune_spool_lem_example :
    ((prune_spool (memory machine) test_config world).0 ≡ ok 2)
    × Changes
        (codes "s/encrypted")
        (without (codes "a.gpg" ∷ []) (without (codes "huge.gpg" ∷ []) spool_files))
        world
        (prune_spool (memory machine) test_config world).1
unfolding select_for_deletion select_oversize is_among same glob_match spool_encrypted ◌+ℤ◌ set_dir
prune_spool_lem_example =
    prune_spool_lem machine test_config world spool_distinct (λ name. refl) (omega arith)

prune_spool-bound_example :
    let after = (prune_spool (memory machine) test_config world).1.dirs (codes "s/encrypted") in
    (total_size (matching (codes "*.gpg") after) ≤ℤ pos 50)
    × All (λ f. f.size ≤ℤ pos 100) (matching (codes "*.gpg") after)
    × (filter_by (λ f. not (glob_match (codes "*.gpg") f.name)) after
        ≡ filter_by (λ f. not (glob_match (codes "*.gpg") f.name)) spool_files)
unfolding spool_encrypted set_dir same
prune_spool-bound_example =
    prune_spool-bound machine test_config world spool_distinct (λ name. refl) (omega arith)
      (omega arith)

unlink_victims_lem_example :
    let r = unlink_victims (memory machine) (codes "s/encrypted") spool_files 1 (pos 5) world in
    (r.0 ≡ ok (6, pos 666))
    × Changes (codes "s/encrypted") (without (names_of spool_files) spool_files) world r.1
unfolding set_dir same ◌+ℤ◌ find_file total_size
unlink_victims_lem_example =
    unlink_victims_lem machine (codes "s/encrypted") spool_files 1 (pos 5) world spool_distinct
      (refl, (refl, (refl, (refl, (refl, tt)))))

loops-IsCalm_example :
    IsCalm (run_upload_loop (memory machine) 3 test_config)
    × IsCalm (encrypt_rounds (memory machine) 3 test_config)
    × IsCalm (run_batch_loop (memory machine) 3 test_config)
loops-IsCalm_example = loops-IsCalm (memory machine) test_config (λ s. tt) (λ seconds s. tt) 3

-- Neither a `Z` nor a dot.
second_two : IsPlainTime (codes "1970-01-01T00:00:02")
second_two = search tt

no_nanoseconds : IsPlainTime (codes "000000000")
no_nanoseconds = search tt

parse_mod_time-fraction_example :
    (parse_mod_time (memory machine) (codes "1970-01-01T00:00:02.000000000Z") ≡ ok (pos 2000000))
    × (parse_mod_time (memory machine) (codes "1970-01-01T00:00:02.000000000+00:00")
        ≡ ok (pos 2000000))
unfolding same
parse_mod_time-fraction_example =
    parse_mod_time-fraction (memory machine) (codes "1970-01-01T00:00:02") (codes "000000000")
      value_error second_two no_nanoseconds refl refl
