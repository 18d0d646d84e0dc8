-- ===== src/Viewer/Turns.antt =====
-- Each step of videobackup/viewer.py keeps the files that are held, on every system.
use videobackup.Base.{
  ◌≡◌, refl, inl, inr, List, [], ◌∷◌, ◌++◌, append-nil, ap, ◌∙◌, Option, none, some,
}
use videobackup.Base.{ℕ, ◌+◌, arith, same, Bool-cases, Text, codes}
use videobackup.Base.Effects.{
  ok, raised, Outcome, attempt, lift, follow, is_runtime_error, is_import_error,
}
use videobackup.Base.After.{
  After, follow-After, recover-After, if-After, After-state, After-weaken, Leaves, attempt-Leaves,
  lift-Leaves,
}
use videobackup.Viewer.{
  Clip, waiting, Callback, play_file, show_failure, Screen, Env, Player, Handler, opens_dialog,
  toggles_pause, stops_clip, closes_window, unlink_temp, discard_found, discard_tmp, require_mpv,
  ensure_player, ensure_player_from, play_with, play, toggle_found, toggle_pause, stop, stop_found,
  end_found, close_box, on_close, decrypt_failed, run_callback, load, open_dialog, handle,
  decrypting_text,
}
use videobackup.Viewer.Files.{worker_files, queue_files, without_file}
use videobackup.Viewer.Kept.{
  once, occurs, in_tmp, IsKeptWith, IsKept, present_small, present-without_file, occurs-waiting,
}

module _ (e : Env) where
  -- The window has no clip, and `x f` more holders are allowed for.
  abbrev IsFreeWith : (Text → ℕ) → Screen → Type 0
  IsFreeWith x s = (s.tmp ≡ none) × IsKeptWith x s

  discarded :
      (x : Text → ℕ) (t : Text) (s : Screen)
      → s.tmp ≡ some t
      → IsKeptWith x s
      → IsKeptWith x (record s { tmp = none; files = without_file t s.files })
  discarded x t s p h f = elim (Bool-cases (same f t)) [
    | inl k ↦
        (let one : in_tmp f s.tmp ≡ 1 = rw p (rw k refl) in
          omega (arith, h f, one, present_small f s.files))
    | inr k ↦ rw (present-without_file f t s.files k) (omega (arith, h f))
  ]

  discard_found-IsFreeWith :
      (x : Text → ℕ) (o : Option Text) (s : Screen)
      → s.tmp ≡ o
      → IsKeptWith x s
      → After (λ _. IsFreeWith x) (λ _. ⊥) (discard_found e o s)
  unfolding discard_found unlink_temp
  discard_found-IsFreeWith x none s p h = (p, h)
  discard_found-IsFreeWith x (some t) s p h = elim (Bool-cases (e.refuses t)) [
    | inl k ↦ rw k (refl, λ f. omega (arith, h f))
    | inr k ↦ rw k (refl, discarded x t s p h)
  ]

  discard_tmp-IsFreeWith :
      (Q : Screen → Type 0) (x : Text → ℕ) (s : Screen)
      → IsKeptWith x s
      → After (λ _. IsFreeWith x) Q (discard_tmp e s)
  unfolding discard_tmp
  discard_tmp-IsFreeWith Q x s h =
      After-weaken (λ _. IsFreeWith x) (λ _. IsFreeWith x) (λ _. ⊥) Q _
        (discard_found-IsFreeWith x s.tmp s refl h) (λ _ t k. k) (λ t k. absurd k)

  discard_tmp-Leaves : (s : Screen) → IsKept s → Leaves IsKept (discard_tmp e s)
  discard_tmp-Leaves s h =
      After-weaken (λ _. IsFreeWith (λ _. 0)) (λ _. IsKept) IsKept IsKept (discard_tmp e s)
        (discard_tmp-IsFreeWith IsKept (λ _. 0) s (λ f. omega (arith, h f)))
        (λ _ t k f. omega (arith, k.1 f)) (λ t k. k)

  -- An answer of the system, and then a change of the screen.
  lifted :
      (o : Outcome (Unit {0})) (g : Screen → Screen) (s : Screen)
      → IsKept s
      → ((t : Screen) → IsKept t → IsKept (g t))
      → Leaves IsKept (follow (lift o s) (λ _ t. (ok tt, g t)))
  lifted o g s h k =
      follow-After (λ _. IsKept) IsKept (λ _. IsKept) (lift o s) _ (lift-Leaves IsKept o s h)
        (λ _ t j. k t j)

  require_mpv-Leaves : (s : Screen) → IsKept s → Leaves IsKept (require_mpv e s)
  unfolding require_mpv
  require_mpv-Leaves s h =
      recover-After (λ _. IsKept) IsKept IsKept (lift e.imports_mpv s) _
        (lift-Leaves IsKept e.imports_mpv s h)
        (λ exn t k. if-After (λ _. IsKept) IsKept (is_import_error exn) _ _ (λ _. k) (λ _. k))

  ensure_player_from-Leaves :
      (o : Option Player) (s : Screen) → IsKept s → Leaves IsKept (ensure_player_from e o s)
  unfolding ensure_player_from
  ensure_player_from-Leaves (some player) s h = h
  ensure_player_from-Leaves none s h =
      follow-After (λ _. IsKept) IsKept (λ _. IsKept) (require_mpv e s) _ (require_mpv-Leaves s h)
        (λ _ t k.
          follow-After (λ _. IsKept) IsKept (λ _. IsKept) (lift e.makes_player t) _
            (lift-Leaves IsKept e.makes_player t k) (λ _ t2 k2. k2))

  play_with-Leaves :
      (plain : Text) (r : Outcome Player) (s : Screen)
      → IsKept s
      → Leaves IsKept (play_with e plain r s)
  unfolding play_with
  play_with-Leaves plain (ok player) s h =
      follow-After (λ _. IsKept) IsKept (λ _. IsKept) (lift (e.plays plain) s) _
        (lift-Leaves IsKept (e.plays plain) s h) (λ _ t k. k)
  play_with-Leaves plain (raised exn) s h =
      if-After (λ _. IsKept) IsKept (is_runtime_error exn) _ _ (λ _. h) (λ _. h)

  -- The file to be played becomes the window's clip.
  play-Leaves :
      (plain : Text) (s : Screen)
      → IsKeptWith (λ f. once f plain) s
      → Leaves IsKept (play e plain s)
  unfolding play ensure_player
  play-Leaves plain s h =
      follow-After (λ _. IsFreeWith (λ f. once f plain)) IsKept (λ _. IsKept) (discard_tmp e s) _
        (discard_tmp-IsFreeWith IsKept (λ f. once f plain) s h)
        λ _ t k.
          let now : Screen = record t { tmp = some plain } in
          let taken : IsKept now =
            λ f. (let free : in_tmp f t.tmp ≡ 0 = rw k.0 refl in omega (arith, k.1 f, free)) in
          follow-After (λ _. IsKept) IsKept (λ _. IsKept) (attempt (ensure_player e) now) _
            (attempt-Leaves IsKept (ensure_player e now)
              (ensure_player_from-Leaves now.player now taken))
            (λ r u. play_with-Leaves plain r u)

  pub run_callback-IsKept :
      (callback : Callback) (rest : List Callback) (s : Screen)
      → s.queue ≡ callback ∷ rest
      → IsKept s
      → IsKept (run_callback e callback (record s { queue = rest })).1
  unfolding run_callback decrypt_failed
  run_callback-IsKept (play_file plain) rest s p h = After-state IsKept _ (
      play-Leaves plain (record s { queue = rest })
        (λ f.
          let queued : occurs f (queue_files s.queue) ≡ once f plain + occurs f (queue_files rest) =
            rw p refl in
          omega (arith, h f, queued)))
  run_callback-IsKept (show_failure exn) rest s p h = λ f.
      let queued : occurs f (queue_files s.queue) ≡ occurs f (queue_files rest) = rw p refl in
      omega (arith, h f, queued)

  pub load-IsKept : (src : Clip) (s : Screen) → IsKept s → IsKept (load e src s).1
  unfolding load
  load-IsKept src s h = After-state IsKept _ (
      if-After (λ _. IsKept) IsKept (e.exists src) _ _
        (λ _. lifted e.starts_thread _ (record s { status = decrypting_text src.name }) h more)
        (λ _. h))
    where
      more : (t : Screen) → IsKept t → IsKept (record t { workers = t.workers ++ waiting src ∷ [] })
      more t k f =
          let waits : occurs f (worker_files (t.workers ++ waiting src ∷ []))
              ≡ occurs f (worker_files t.workers) =
            occurs-waiting f src [] t.workers
            ∙ ap (λ ws. occurs f (worker_files ws)) (append-nil t.workers) in
          omega (arith, k f, waits)

  toggle_found-IsKept : (o : Option Player) (s : Screen) → IsKept s → IsKept (toggle_found e o s).1
  unfolding toggle_found
  toggle_found-IsKept none s h = h
  toggle_found-IsKept (some player) s h = After-state IsKept _ (lifted e.pauses _ s h (λ _ k. k))

  stop_found-Leaves : (o : Option Player) (s : Screen) → IsKept s → Leaves IsKept (stop_found e o s)
  unfolding stop_found
  stop_found-Leaves none s h = h
  stop_found-Leaves (some player) s h = lifted e.stops_player _ s h (λ _ k. k)

  end_found-Leaves : (o : Option Player) (s : Screen) → IsKept s → Leaves IsKept (end_found e o s)
  unfolding end_found
  end_found-Leaves none s h = h
  end_found-Leaves (some player) s h = lifted e.ends_player _ s h (λ _ k. k)

  pub close_box-IsKept : (others : ℕ) (s : Screen) → IsKept s → IsKept (close_box e others s).1
  close_box-IsKept others s h =
      After-state IsKept _ (discard_tmp-Leaves (record s { unread = others }) h)

  pub handle-IsKept :
      (chosen : Option Clip) (handler : Handler) (s : Screen)
      → IsKept s
      → IsKept (handle e chosen handler s).1
  unfolding handle open_dialog toggle_pause stop on_close
  handle-IsKept none opens_dialog s h = h
  handle-IsKept (some src) opens_dialog s h = load-IsKept src s h
  handle-IsKept chosen toggles_pause s h = toggle_found-IsKept s.player s h
  handle-IsKept chosen stops_clip s h = After-state IsKept _ (
      follow-After (λ _. IsKept) IsKept (λ _. IsKept) (stop_found e s.player s) _
        (stop_found-Leaves s.player s h)
        (λ _ t k. discard_tmp-Leaves (record t { status = codes "Stopped." }) k))
  handle-IsKept chosen closes_window s h = After-state IsKept _ (
      follow-After (λ _. IsKept) IsKept (λ _. IsKept) (end_found e s.player s) _
        (end_found-Leaves s.player s h)
        (λ _ t k.
          follow-After (λ _. IsKept) IsKept (λ _. IsKept) (discard_tmp e t) _
            (discard_tmp-Leaves t k) (λ _ u k2. k2)))
