-- ===== src/Host/Memory.antt =====
-- A host in memory, on which no other thread or process acts. gpg and rclone are functions of a
-- machine, and so are the two functions of Python's library and the files whose deletion the
-- system refuses.
use videobackup.Base.{ℕ, ◌==◌, Bool, true, false, not, List, [], ◌∷◌, Option, none, some, map}
use videobackup.Base.{ℤ, ◌+ℤ◌, scale, filter_by, Text, codes, same, if◌then◌else◌}
use videobackup.Base.Effects.{M, Outcome, ok, raised, os_error, file_not_found}
use videobackup.Base.Values.{Value}
use videobackup.Host.{Host, Stat, Completed}
use videobackup.Retention.{RemoteFile}

-- Some tail of the text passes.
abbrev pub some_tail : (Text → Bool) → Text → Bool
some_tail p [] = p []
some_tail p (c ∷ s) = let rest = some_tail p s in if p (c ∷ s) then true else rest

abbrev pub head_matches : ℕ → (Text → Bool) → Text → Bool
head_matches p rest [] = false
head_matches p rest (c ∷ s) = if p == c then rest s else false

-- A name against a pattern, whose `*` stand for any texts.
unfoldable pub glob_match : Text → Text → Bool
glob_match [] [] = true
glob_match [] (c ∷ s) = false
glob_match (p ∷ ps) s =
    let rest = glob_match ps in if p == b'*' then some_tail rest s else head_matches p rest s

-- The files of each directory, one of a name; the remote folder and the account's free bytes; the
-- temporary file; the clocks; and what the stop event will answer, until it is set.
pub record World : Type 0 where
  pub dirs : Text → List RemoteFile
  pub remote : List RemoteFile
  pub free : ℤ
  pub temp : Option Text
  pub clock : ℤ
  pub ticks : ℤ
  pub stops : List Bool

pub record Machine : Type 0 where
  pub refuses : Text → Text → Bool
  pub installed : Text → Bool
  pub run : List Text → World → Completed × World
  pub loads : Text → Outcome Value
  pub fromisoformat : Text → Outcome ℤ

unfoldable pub find_file : Text → List RemoteFile → Option RemoteFile
unfolding same
find_file name [] = none
find_file name (f ∷ fs) = let rest = find_file name fs in if same name f.name then some f else rest

unfoldable pub remove_file : Text → List RemoteFile → List RemoteFile
unfolding same
remove_file name fs = filter_by (λ f. not (same f.name name)) fs

-- The directories with `files` in place of one.
unfoldable pub set_dir : Text → List RemoteFile → (Text → List RemoteFile) → Text → List RemoteFile
unfolding same
set_dir directory files dirs d = if same d directory then files else dirs d

abbrev pub temp_path : Text
temp_path = codes "/tmp/videobackup-prune-0.txt"

abbrev pub is_found : Option RemoteFile → Bool
is_found none = false
is_found (some f) = true

abbrev pub stat_of : Option RemoteFile → Outcome Stat
stat_of none = raised file_not_found
stat_of (some f) = ok (record { size = f.size; mtime = f.mod_time })

-- The next answer of the stop event; `true` once it is set.
abbrev pub next_stop : List Bool → Bool × List Bool
next_stop [] = (true, [])
next_stop (b ∷ bs) = (b, if b then [] else bs)

module _ (m : Machine) where
  unfoldable pub delete_found : Text → Text → Option RemoteFile → M World (Unit {0})
  delete_found directory name none w = (raised file_not_found, w)
  delete_found directory name (some f) w =
      if m.refuses directory name then (raised os_error, w) else (
        ok tt,
        record w { dirs = set_dir directory (remove_file name (w.dirs directory)) w.dirs },
      )

  abbrev pub delete_file : Text → Text → M World (Unit {0})
  delete_file directory name w = delete_found directory name (find_file name (w.dirs directory)) w

  -- The file takes the place of one that bears the new name.
  unfoldable pub rename_found : Text → Text → Text → Option RemoteFile → M World (Unit {0})
  rename_found directory name new_name none w = (raised file_not_found, w)
  rename_found directory name new_name (some f) w = (
    ok tt,
    record w {
      dirs =
          set_dir directory
            (record f { name = new_name }
              ∷ remove_file new_name (remove_file name (w.dirs directory)))
            w.dirs;
    },
  )

  abbrev pub rename_file : Text → Text → Text → M World (Unit {0})
  rename_file directory name new_name w =
      rename_found directory name new_name (find_file name (w.dirs directory)) w

  abbrev pub memory : Host
  memory = record {
    State = World;
    glob = λ directory pattern w.
        (ok (map (λ f. f.name) (filter_by (λ f. glob_match pattern f.name) (w.dirs directory))), w);
    stat = λ directory name w. (stat_of (find_file name (w.dirs directory)), w);
    unlink = delete_file;
    exists = λ directory name w. (ok (is_found (find_file name (w.dirs directory))), w);
    replace = rename_file;
    mkdir = λ directory w. (ok tt, w);
    write_temp = λ contents w. (ok temp_path, record w { temp = some contents });
    unlink_temp = λ path w. (ok tt, record w { temp = none });
    which = λ tool w. (ok (m.installed tool), w);
    now = λ w. (ok w.clock, w);
    monotonic = λ w. (ok w.ticks, w);
    run = λ argv w. let (r, w') = m.run argv w in (ok r, w');
    is_stopped = λ w. let (b, rest) = next_stop w.stops in (ok b, record w { stops = rest });
    wait = λ seconds w.
        let (b, rest) = next_stop w.stops in
        (
          ok b,
          record w {
            stops = rest;
            clock = w.clock +ℤ scale 1000000 seconds;
            ticks = w.ticks +ℤ scale 1000000 seconds;
          },
        );
    loads = m.loads;
    fromisoformat = m.fromisoformat;
  }
