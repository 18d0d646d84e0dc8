-- ===== src/Viewer/Closing.antt =====
-- What closing the window of videobackup/viewer.py, or a message box of it, does to the temporary
-- files and to what is known of them.
use videobackup.Base.{◌≡◌, refl, false, [], Option, none, some}
use videobackup.Base.{Text, ℕ}
use videobackup.Base.Effects.{ok, lift}
use videobackup.Base.After.{follow-After, After-state, Leaves, lift-Leaves}
use videobackup.Viewer.{
  Screen, Env, Player, unlink_temp, discard_found, discard_tmp, end_found, close_box, on_close,
}
use videobackup.Viewer.Files.{IsAccounted}
use videobackup.Viewer.Handlers.{IsKind, IsIdle, loose, discard_tmp-Leaves, discard_tmp-IsIdle}

-- Where mpv ends, so does the player.
pub end_found_lem :
    (e : Env) (o : Option Player) (s : Screen)
    → e.ends_player ≡ ok tt
    → (p : Option Player) × (end_found e o s ≡ (ok tt, record s { player = p }))
unfolding end_found
end_found_lem e none s ended = (s.player, refl)
end_found_lem e (some player) s ended = (none, rw ended refl)

module _ (e : Env) (kind : IsKind e) where
  end_found-Leaves :
      (o : Option Player) (s : Screen) → IsAccounted s → Leaves IsAccounted (end_found e o s)
  unfolding end_found
  end_found-Leaves none s h = h
  end_found-Leaves (some player) s h =
      follow-After (λ _. IsAccounted) IsAccounted (λ _. IsAccounted) (lift e.ends_player s) _
        (lift-Leaves IsAccounted e.ends_player s h) (λ _ t k. k)

  pub on_close-IsAccounted : (s : Screen) → IsAccounted s → IsAccounted (on_close e s).1
  unfolding on_close
  on_close-IsAccounted s h = After-state IsAccounted _ (
      follow-After (λ _. IsAccounted) IsAccounted (λ _. IsAccounted) (end_found e s.player s) _
        (end_found-Leaves s.player s h)
        (λ _ t k.
          follow-After (λ _. IsAccounted) IsAccounted (λ _. IsAccounted) (discard_tmp e t) _
            (discard_tmp-Leaves e kind t k) (λ _ u k2. k2)))

  pub close_box-IsAccounted :
      (others : ℕ) (s : Screen) → IsAccounted s → IsAccounted (close_box e others s).1
  close_box-IsAccounted others s h =
      After-state IsAccounted _ (discard_tmp-Leaves e kind (record s { unread = others }) h)

  discard_found-IsClosed :
      (o : Option Text) (s : Screen) → s.is_open ≡ false → (discard_found e o s).1.is_open ≡ false
  unfolding discard_found unlink_temp
  discard_found-IsClosed none s h = h
  discard_found-IsClosed (some t) s h = rw (kind.deletes t) h

  pub close_box-IsClosed :
      (others : ℕ) (s : Screen) → s.is_open ≡ false → (close_box e others s).1.is_open ≡ false
  unfolding discard_tmp
  close_box-IsClosed others s h = discard_found-IsClosed s.tmp (record s { unread = others }) h

  -- Discarding touches no thread and no callback.
  abbrev pub IsSame : Screen → Screen → Type 0
  IsSame s t = (t.workers ≡ s.workers) × (t.queue ≡ s.queue)

  discard_found-IsSame : (o : Option Text) (s : Screen) → Leaves (IsSame s) (discard_found e o s)
  unfolding discard_found unlink_temp
  discard_found-IsSame none s = (refl, refl)
  discard_found-IsSame (some t) s = rw (kind.deletes t) (refl, refl)

  pub on_close-IsSame : (s : Screen) → e.ends_player ≡ ok tt → IsSame s (on_close e s).1
  unfolding on_close discard_tmp
  on_close-IsSame s ended =
      let (p, ends) = end_found_lem e s.player s ended in
      rw ends (
        After-state (IsSame s) _ (
          follow-After (λ _. IsSame s) (IsSame s) (λ _. IsSame s)
            (discard_tmp e (record s { player = p })) _
            (discard_found-IsSame s.tmp (record s { player = p })) (λ _ t k. k)))

  -- Closing the window discards its clip.
  pub on_close-IsIdle :
      (s : Screen) → e.ends_player ≡ ok tt → IsAccounted s → IsIdle [] (on_close e s).1
  unfolding on_close
  on_close-IsIdle s ended h =
      let (p, ends) = end_found_lem e s.player s ended in
      rw ends (
        After-state (IsIdle []) _ (
          follow-After (λ _. IsIdle []) (IsIdle []) (λ _. IsIdle [])
            (discard_tmp e (record s { player = p })) _
            (discard_tmp-IsIdle e kind (IsIdle []) [] (record s { player = p }) (loose s h))
            (λ _ t k. k)))
