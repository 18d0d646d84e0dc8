-- ===== src/Host/Shared.antt =====
-- A machine in memory that other threads and processes share: before each operation of the code
-- they take a turn, as a schedule says, and the states that the machine goes through are kept.
use videobackup.Base.{List, [], ◌∷◌}
use videobackup.Base.Effects.{M}
use videobackup.Host.{Host}
use videobackup.Host.Memory.{World, Machine, memory}

-- The machine as it is, the states before, the last one first, and the others' turns to come.
pub record Shared : Type 0 where
  pub world : World
  pub past : List World
  pub turns : List (World → World)

abbrev pub history : Shared → List World
history s = s.world ∷ s.past

abbrev pub begin : World → List (World → World) → Shared
begin w turns = record { world = w; past = []; turns = turns }

-- The machine goes on to another state.
abbrev pub move_on : World → List (World → World) → Shared → Shared
move_on w turns s = record { world = w; past = history s; turns = turns }

abbrev pub take_turn : List (World → World) → Shared → Shared
take_turn [] s = record s { turns = [] }
take_turn (turn ∷ turns) s = move_on (turn s.world) turns s

-- The others' turn, if they have one left.
abbrev pub yield_turn : Shared → Shared
yield_turn s = take_turn s.turns s

abbrev pub acts : {A : Type 0} → M World A → M Shared A
acts m s = let u = yield_turn s in let (r, w) = m u.world in (r, move_on w u.turns u)

abbrev pub shared : Machine → Host
shared m =
    let H = memory m in
    record {
      State = Shared;
      glob = λ directory pattern. acts (H.glob directory pattern);
      stat = λ directory name. acts (H.stat directory name);
      unlink = λ directory name. acts (H.unlink directory name);
      exists = λ directory name. acts (H.exists directory name);
      replace = λ directory name new_name. acts (H.replace directory name new_name);
      mkdir = λ directory. acts (H.mkdir directory);
      write_temp = λ contents. acts (H.write_temp contents);
      unlink_temp = λ path. acts (H.unlink_temp path);
      which = λ tool. acts (H.which tool);
      now = acts H.now;
      monotonic = acts H.monotonic;
      run = λ argv. acts (H.run argv);
      is_stopped = acts H.is_stopped;
      wait = λ seconds. acts (H.wait seconds);
      loads = H.loads;
      fromisoformat = H.fromisoformat;
    }
