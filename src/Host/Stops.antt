-- ===== src/Host/Stops.antt =====
-- A host whose stop event is set in the end: a measure of the state that counts the answers
-- `false` that `is_set` has left, and that no other operation raises.
use videobackup.Base.{
  ℕ, ◌≤◌, ◌<◌, arith, Bool, true, false, List, [], ◌∷◌, ℤ, Text, refl, ◌≡◌, Option, none, some,
  subst, sym, if◌then◌else◌,
}
use videobackup.Base.Lists.{length}
use videobackup.Base.Effects.{M, Outcome, raised, os_error}
use videobackup.Base.After.{After}
use videobackup.Host.{Host}
use videobackup.Host.Frame.{CallsKeep, OpsKeep}
use videobackup.Host.Memory.{World, Machine, memory, next_stop, delete_found, rename_found}
use videobackup.Retention.{RemoteFile}

-- `false` lowers the measure; asking never raises.
abbrev pub AsksStop : {S : Type 0} → (S → ℕ) → M S Bool → Type 0
AsksStop {S} μ m = (s : S) → After (λ b s'. (μ s' ≤ μ s) × (b ≡ false → μ s' < μ s)) (λ _. ⊥) (m s)

pub record StopsInTheEnd (H : Host) (μ : H.State → ℕ) : Type 0 where
  pub ops : (n : ℕ) → OpsKeep H (λ s. μ s ≤ n)
  pub is_stopped : AsksStop μ H.is_stopped
  pub wait : (seconds : ℤ) (s : H.State) → After (λ _ s'. μ s' ≤ μ s) (λ _. ⊥) (H.wait seconds s)

-- A machine in memory stops once its answers are used up, if its programs leave them alone.
module _ (m : Machine)
    (calm : (argv : List Text) (w : World) → (m.run argv w).1.stops ≡ w.stops) where
  next_stop-length :
      (bs : List Bool)
      → (length (next_stop bs).1 ≤ length bs)
        × ((next_stop bs).0 ≡ false → length (next_stop bs).1 < length bs)
  next_stop-length [] = ground arith
  next_stop-length (true ∷ bs) = ground arith
  next_stop-length (false ∷ bs) = ground arith

  if-stops :
      (b : Bool) (x y : Outcome (Unit {0}) × World) (w : World)
      → x.1.stops ≡ w.stops
      → y.1.stops ≡ w.stops
      → (if b then x else y).1.stops ≡ w.stops
  if-stops true x y w hx hy = hx
  if-stops false x y w hx hy = hy

  delete_found-stops :
      (directory name : Text) (f : Option RemoteFile) (w : World)
      → (delete_found m directory name f w).1.stops ≡ w.stops
  unfolding delete_found
  delete_found-stops directory name none w = refl
  delete_found-stops directory name (some f) w =
      if-stops (m.refuses directory name) (raised os_error, w) _ w refl refl

  rename_found-stops :
      (directory name new_name : Text) (f : Option RemoteFile) (w : World)
      → (rename_found m directory name new_name f w).1.stops ≡ w.stops
  unfolding rename_found
  rename_found-stops directory name new_name none w = refl
  rename_found-stops directory name new_name (some f) w = refl

  still_within : (n : ℕ) (xs ys : List Bool) → xs ≡ ys → length ys ≤ n → length xs ≤ n
  still_within n xs ys e h = subst (λ r. length r ≤ n) (sym e) h

  memory-CallsKeep : (n : ℕ) → CallsKeep (memory m) (λ w. length w.stops ≤ n)
  memory-CallsKeep n = record {
    glob = λ directory pattern. record { at = λ w h. h };
    stat = λ directory name. record { at = λ w h. h };
    exists = λ directory name. record { at = λ w h. h };
    mkdir = λ directory. record { at = λ w h. h };
    write_temp = λ contents. record { at = λ w h. h };
    unlink_temp = λ path. record { at = λ w h. h };
    which = λ tool. record { at = λ w h. h };
    now = record { at = λ w h. h };
    monotonic = record { at = λ w h. h };
    run = λ argv. record { at = λ w. still_within n _ w.stops (calm argv w) };
  }

  memory-OpsKeep : (n : ℕ) → OpsKeep (memory m) (λ w. length w.stops ≤ n)
  memory-OpsKeep n = record {
    calls = memory-CallsKeep n;
    unlink = λ directory name. record {
      at = λ w. still_within n _ w.stops (delete_found-stops directory name _ w);
    };
    replace = λ directory name new_name. record {
      at = λ w. still_within n _ w.stops (rename_found-stops directory name new_name _ w);
    };
  }

  pub memory-StopsInTheEnd : StopsInTheEnd (memory m) (λ w. length w.stops)
  memory-StopsInTheEnd = record {
    ops = memory-OpsKeep;
    is_stopped = λ w. next_stop-length w.stops;
    wait = λ seconds w. (next_stop-length w.stops).0;
  }
