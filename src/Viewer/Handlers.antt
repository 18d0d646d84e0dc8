-- ===== src/Viewer/Handlers.antt =====
-- Each handler of the window in videobackup/viewer.py keeps the temporary files accounted for.
use videobackup.Base.{
  ◌≡◌, refl, sym, ap, ◌∙◌, ◌⊎◌, inl, inr, false, List, [], ◌∷◌, Option, none, some,
}
use videobackup.Base.{Text, codes}
use videobackup.Base.Effects.{ok, raised, Outcome, attempt, lift, is_runtime_error, is_import_error}
use videobackup.Base.After.{
  After, follow-After, recover-After, if-After, After-state, After-weaken, Leaves, attempt-Leaves,
  lift-Leaves,
}
use videobackup.Host.{Completed}
use videobackup.Viewer.{
  Callback, play_file, show_failure, Screen, Env, Player, unlink_temp, discard_found, discard_tmp,
  ensure_player, ensure_player_from, require_mpv, decrypt_failed, play_with, play, toggle_found,
  toggle_pause, stop, stop_found, run_callback,
}
use videobackup.Viewer.Files.{
  In, without_file, IsHeld, IsAccounted, In-without_file, not-same, queue_files,
}

-- No deletion is refused, and gpg runs to its end.
pub record IsKind (e : Env) : Type 0 where
  pub deletes : (f : Text) → e.refuses f ≡ false
  pub runs : (argv : List Text) → (c : Completed) × (e.gpg argv ≡ ok c)

-- Each temporary file is held, or one of the given.
abbrev pub IsAccountedBut : List Text → Screen → Type 0
IsAccountedBut extra s = (f : Text) → In f s.files → IsHeld s f ⊎ In f extra

-- The window has no clip, besides.
abbrev pub IsIdle : List Text → Screen → Type 0
IsIdle extra s = (s.tmp ≡ none) × IsAccountedBut extra s

pub none-some : {f : Text} {A : Type 0} → ◌≡◌ {A = Option Text} none (some f) → A
none-some h = cc

some-eq : (t f : Text) → some t ≡ some f → f ≡ t
some-eq t f h = sym (ap (from_some t) h)
  where
    from_some : Text → Option Text → Text
    from_some d none = d
    from_some d (some x) = x

pub exact : (s : Screen) → IsAccountedBut [] s → IsAccounted s
exact s h f i = elim (h f i) [ inl held ↦ held | inr no_more ↦ absurd no_more ]

pub loose : (s : Screen) → IsAccounted s → IsAccountedBut [] s
loose s h f i = inl (h f i)

module _ (e : Env) (kind : IsKind e) where
  discard_found-IsIdle :
      (Q : Screen → Type 0) (extra : List Text) (o : Option Text) (s : Screen)
      → s.tmp ≡ o
      → IsAccountedBut extra s
      → After (λ _. IsIdle extra) Q (discard_found e o s)
  unfolding discard_found unlink_temp
  discard_found-IsIdle Q extra none s p h = (p, h)
  discard_found-IsIdle Q extra (some t) s p h = rw (kind.deletes t) (refl, still)
    where
      still : IsAccountedBut extra (record s { tmp = none; files = without_file t s.files })
      still f i =
          let (there, differs) = In-without_file f t s.files i in
          elim (h f there) [
            | inl (inl is_tmp) ↦ not-same f t (some-eq t f (sym p ∙ is_tmp)) differs
            | inl (inr elsewhere) ↦ inl (inr elsewhere)
            | inr more ↦ inr more
          ]

  pub discard_tmp-IsIdle :
      (Q : Screen → Type 0) (extra : List Text) (s : Screen)
      → IsAccountedBut extra s
      → After (λ _. IsIdle extra) Q (discard_tmp e s)
  unfolding discard_tmp
  discard_tmp-IsIdle Q extra s h = discard_found-IsIdle Q extra s.tmp s refl h

  pub discard_tmp-Leaves : (s : Screen) → IsAccounted s → Leaves IsAccounted (discard_tmp e s)
  discard_tmp-Leaves s h =
      After-weaken (λ _. IsIdle []) (λ _. IsAccounted) IsAccounted IsAccounted (discard_tmp e s)
        (discard_tmp-IsIdle IsAccounted [] s (loose s h)) (λ _ t k. exact t k.1) (λ t k. k)

  require_mpv-Leaves : (s : Screen) → IsAccounted s → Leaves IsAccounted (require_mpv e s)
  unfolding require_mpv
  require_mpv-Leaves s h =
      recover-After (λ _. IsAccounted) IsAccounted IsAccounted (lift e.imports_mpv s) _
        (lift-Leaves IsAccounted e.imports_mpv s h)
        (λ exn t k.
          if-After (λ _. IsAccounted) IsAccounted (is_import_error exn) _ _ (λ _. k) (λ _. k))

  ensure_player_from-Leaves :
      (o : Option Player) (s : Screen)
      → IsAccounted s
      → Leaves IsAccounted (ensure_player_from e o s)
  unfolding ensure_player_from
  ensure_player_from-Leaves (some player) s h = h
  ensure_player_from-Leaves none s h =
      follow-After (λ _. IsAccounted) IsAccounted (λ _. IsAccounted) (require_mpv e s) _
        (require_mpv-Leaves s h)
        (λ _ t k.
          follow-After (λ _. IsAccounted) IsAccounted (λ _. IsAccounted) (lift e.makes_player t) _
            (lift-Leaves IsAccounted e.makes_player t k) (λ _ t2 k2. k2))

  ensure_player-Leaves : (s : Screen) → IsAccounted s → Leaves IsAccounted (ensure_player e s)
  unfolding ensure_player
  ensure_player-Leaves s h = ensure_player_from-Leaves s.player s h

  play_with-Leaves :
      (plain : Text) (r : Outcome Player) (s : Screen)
      → IsAccounted s
      → Leaves IsAccounted (play_with e plain r s)
  unfolding play_with
  play_with-Leaves plain (ok player) s h =
      follow-After (λ _. IsAccounted) IsAccounted (λ _. IsAccounted) (lift (e.plays plain) s) _
        (lift-Leaves IsAccounted (e.plays plain) s h) (λ _ t k. k)
  play_with-Leaves plain (raised exn) s h =
      if-After (λ _. IsAccounted) IsAccounted (is_runtime_error exn) _ _ (λ _. h) (λ _. h)

  -- The file to be played becomes the window's clip.
  play-Leaves :
      (plain : Text) (s : Screen)
      → IsAccountedBut (plain ∷ []) s
      → Leaves IsAccounted (play e plain s)
  unfolding play
  play-Leaves plain s h =
      follow-After (λ _. IsIdle (plain ∷ [])) IsAccounted (λ _. IsAccounted) (discard_tmp e s) _
        (discard_tmp-IsIdle IsAccounted (plain ∷ []) s h)
        λ _ t k.
          let now : Screen = record t { tmp = some plain } in
          let taken : IsAccounted now = takes t k in
          follow-After (λ _. IsAccounted) IsAccounted (λ _. IsAccounted)
            (attempt (ensure_player e) now) _
            (attempt-Leaves IsAccounted (ensure_player e now) (ensure_player-Leaves now taken))
            (λ r u. play_with-Leaves plain r u)
    where
      takes : (t : Screen) → IsIdle (plain ∷ []) t → IsAccounted (record t { tmp = some plain })
      takes t (idle, known) f i = elim (known f i) [
        | inl (inl is_tmp) ↦ none-some (sym idle ∙ is_tmp)
        | inl (inr elsewhere) ↦ inr elsewhere
        | inr (inl is_plain) ↦ inl (ap some (sym is_plain))
        | inr (inr no_more) ↦ absurd no_more
      ]

  pub run_callback-IsAccounted :
      (callback : Callback) (rest : List Callback) (s : Screen)
      → s.queue ≡ callback ∷ rest
      → IsAccounted s
      → IsAccounted (run_callback e callback (record s { queue = rest })).1
  unfolding run_callback decrypt_failed
  run_callback-IsAccounted (play_file plain) rest s p h =
      After-state IsAccounted _ (play-Leaves plain (record s { queue = rest }) but)
    where
      but : IsAccountedBut (plain ∷ []) (record s { queue = rest })
      but f i = elim (h f i) [
        | inl is_tmp ↦ inl (inl is_tmp)
        | inr (inl queued) ↦
            (elim (let q : In f (queue_files (play_file plain ∷ rest)) = rw p at queued in q) [
              | inl is_plain ↦ inr (inl is_plain)
              | inr later_on ↦ inl (inr (inl later_on))
            ])
        | inr (inr working) ↦ inl (inr (inr working))
      ]
  run_callback-IsAccounted (show_failure exn) rest s p h = λ f i. elim (h f i) [
    | inl is_tmp ↦ inl is_tmp
    | inr (inl queued) ↦ inr (inl (let q : In f (queue_files rest) = rw p at queued in q))
    | inr (inr working) ↦ inr (inr working)
  ]

  stop_found-Leaves :
      (o : Option Player) (s : Screen) → IsAccounted s → Leaves IsAccounted (stop_found e o s)
  unfolding stop_found
  stop_found-Leaves none s h = h
  stop_found-Leaves (some player) s h =
      follow-After (λ _. IsAccounted) IsAccounted (λ _. IsAccounted) (lift e.stops_player s) _
        (lift-Leaves IsAccounted e.stops_player s h) (λ _ t k. k)

  pub stop-IsAccounted : (s : Screen) → IsAccounted s → IsAccounted (stop e s).1
  unfolding stop
  stop-IsAccounted s h = After-state IsAccounted _ (
      follow-After (λ _. IsAccounted) IsAccounted (λ _. IsAccounted) (stop_found e s.player s) _
        (stop_found-Leaves s.player s h)
        (λ _ t k. discard_tmp-Leaves (record t { status = codes "Stopped." }) k))

  pub toggle_found-IsAccounted :
      (o : Option Player) (s : Screen) → IsAccounted s → IsAccounted (toggle_found e o s).1
  unfolding toggle_found
  toggle_found-IsAccounted none s h = h
  toggle_found-IsAccounted (some player) s h = After-state IsAccounted _ (
      follow-After (λ _. IsAccounted) IsAccounted (λ _. IsAccounted) (lift e.pauses s) _
        (lift-Leaves IsAccounted e.pauses s h) (λ _ t k. k))

  pub toggle_pause-IsAccounted : (s : Screen) → IsAccounted s → IsAccounted (toggle_pause e s).1
  unfolding toggle_pause
  toggle_pause-IsAccounted s h = toggle_found-IsAccounted s.player s h
