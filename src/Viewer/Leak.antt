-- ===== src/Viewer/Leak.antt =====
-- The window of videobackup/viewer.py loses track of no temporary file, and what it leaves on disk
-- when it is closed.
use videobackup.Base.{
  ◌≡◌, refl, sym, ap, ◌∙◌, subst, inl, inr, true, false, List, [], ◌∷◌, ◌++◌, Option, none, some,
}
use videobackup.Base.{same, same→eq, Bool-cases, Text}
use videobackup.Base.Effects.{ok, ◌>>=◌}
use videobackup.Base.After.{After, Leaves, follow-After, After-state, After-weaken}
use videobackup.Viewer.{
  Screen, Env, Clip, Handler, opens_dialog, toggles_pause, stops_clip, closes_window, handle,
  run_viewer, unlink_temp, discard_found, discard_tmp, on_close, close_box, decrypt_worker,
}
use videobackup.Viewer.System.{
  Step, clicks, preselects, calls, reads, begins, gives_up, ends, Reach, start, later, finish,
}
use videobackup.Viewer.Files.{In, without_file, IsAccounted, worker_files, queue_files}
use videobackup.Viewer.Handlers.{
  IsKind, IsIdle, none-some, stop-IsAccounted, toggle_pause-IsAccounted, run_callback-IsAccounted,
}
use videobackup.Viewer.Closing.{
  end_found_lem, on_close-IsAccounted, on_close-IsSame, IsSame, on_close-IsIdle,
  close_box-IsAccounted, close_box-IsClosed,
}
use videobackup.Viewer.Threads.{
  open_dialog-IsAccounted, load_preselected-IsAccounted, begin-IsAccounted, finish-IsAccounted,
  gives_up-IsAccounted, gives_up-IsClosed, finish-IsClosed,
}

handle-IsAccounted :
    (e : Env)
    → IsKind e
    → (chosen : Option Clip) (handler : Handler) (s : Screen) → IsAccounted s
    → IsAccounted (handle e chosen handler s).1
unfolding handle
handle-IsAccounted e kind chosen opens_dialog s h = open_dialog-IsAccounted e kind chosen s h
handle-IsAccounted e kind chosen toggles_pause s h = toggle_pause-IsAccounted e kind s h
handle-IsAccounted e kind chosen stops_clip s h = stop-IsAccounted e kind s h
handle-IsAccounted e kind chosen closes_window s h = on_close-IsAccounted e kind s h

-- Each temporary file is held, as long as the window is open.
abbrev IsTracked : Screen → Type 0
IsTracked s = s.is_open ≡ true → IsAccounted s

-- A step that keeps a closed window closed is judged on the open window alone.
still_open :
    (s t : Screen)
    → (s.is_open ≡ false → t.is_open ≡ false)
    → (s.is_open ≡ true → IsAccounted s → IsAccounted t)
    → IsTracked s
    → IsTracked t
still_open s t closed opened h o = elim (Bool-cases s.is_open) [
  | inl k ↦ opened k (h k)
  | inr k ↦ (let clash : true ≡ false = sym o ∙ closed k in cc)
]

Step-IsTracked : {s t : Screen} → Step IsKind s t → IsTracked s → IsTracked t
Step-IsTracked {s} {t} (clicks e chosen handler kind o p) h =
    λ _. subst IsAccounted (sym p) (handle-IsAccounted e kind chosen handler s (h o))
Step-IsTracked {s} {t} (preselects e src kind o q p) h =
    λ _. subst IsAccounted (sym p) (load_preselected-IsAccounted e kind src s (h o))
Step-IsTracked {s} {t} (calls e callback rest kind o q p) h =
    λ _. subst IsAccounted (sym p) (run_callback-IsAccounted e kind callback rest s q (h o))
Step-IsTracked {s} {t} (reads e others kind q p) h = subst IsTracked (sym p) (
    still_open s (close_box e others s).1 (close_box-IsClosed e kind others s)
      (λ _ k. close_box-IsAccounted e kind others s k) h)
Step-IsTracked {s} {t} (begins e src tmp before after kind _ _ q p) h =
    subst IsTracked (sym p) (λ o. begin-IsAccounted e kind src tmp before after s q (h o))
Step-IsTracked {s} {t} (gives_up e src exn before after kind refused q p) h =
    subst IsTracked (sym p) (
      still_open s (decrypt_worker e src (record s { workers = before ++ after })).1
        (gives_up-IsClosed e src exn (record s { workers = before ++ after }) refused)
        (λ o k. gives_up-IsAccounted e kind src exn before after s refused q o k) h)
Step-IsTracked {s} {t} (ends e src tmp before after kind q p) h = subst IsTracked (sym p) (
    still_open s (finish e src tmp (record s { workers = before ++ after }))
      (finish-IsClosed e src tmp (record s { workers = before ++ after }))
      (λ o k. finish-IsAccounted e kind src tmp before after s q o k) h)

-- In any state that the window and its threads reach while the window is open, each temporary file on
-- disk is the window's clip, waits to be played, or is being written by a thread, on a system where no
-- deletion is refused and each call of gpg returns, with any return code. Threads may fail to start,
-- temporary files to be made, and mpv to be imported, made, told to play, pause and stop, and ended;
-- other callbacks may run while a message box is shown.
pub Reach-IsAccounted : {s : Screen} → Reach IsKind s → s.is_open ≡ true → IsAccounted s
unfolding run_viewer
Reach-IsAccounted (start to_path file) = λ o f i. absurd i
Reach-IsAccounted (later r st) = Step-IsTracked st (Reach-IsAccounted r)

no_files : (fs : List Text) → ((f : Text) → ¬ (In f fs)) → fs ≡ []
no_files [] h = refl
no_files (f ∷ fs) h = absurd (h f (inl refl))

-- Closing the window leaves no temporary file, in any state that is reached with the window open, where
-- no thread decrypts and no clip waits to be played. This holds on a system where no deletion is
-- refused, each call of gpg returns, and mpv's player can be ended.
pub on_close-clean :
    {s : Screen} (e : Env)
    → IsKind e
    → Reach IsKind s
    → s.is_open ≡ true
    → e.ends_player ≡ ok tt
    → worker_files s.workers ≡ []
    → queue_files s.queue ≡ []
    → (on_close e s).1.files ≡ []
on_close-clean {s} e kind r o ended w q = no_files (on_close e s).1.files none_left
  where
    idle : IsIdle [] (on_close e s).1
    idle = on_close-IsIdle e kind s ended (Reach-IsAccounted r o)

    same_then : IsSame e kind s (on_close e s).1
    same_then = on_close-IsSame e kind s ended

    none_left : (f : Text) → ¬ (In f (on_close e s).1.files)
    none_left f i = elim (idle.1 f i) [
      | inl (inl is_tmp) ↦ none-some (sym idle.0 ∙ is_tmp)
      | inl (inr (inl queued)) ↦
          (let k : In f [] = subst (In f) (ap queue_files same_then.1 ∙ q) queued in k)
      | inl (inr (inr working)) ↦
          (let k : In f [] = subst (In f) (ap worker_files same_then.0 ∙ w) working in k)
      | inr no_more ↦ absurd no_more
    ]

In-kept : (f tmp : Text) (fs : List Text) → ¬ (f ≡ tmp) → In f fs → In f (without_file tmp fs)
In-kept f tmp [] n h = absurd h
In-kept f tmp (g ∷ gs) n (inl p) = elim (Bool-cases (same g tmp)) [
  | inl e ↦ absurd (n (p ∙ same→eq g tmp e))
  | inr e ↦ rw e (inl p)
]
In-kept f tmp (g ∷ gs) n (inr i) = elim (Bool-cases (same g tmp)) [
  | inl e ↦ rw e (In-kept f tmp gs n i)
  | inr e ↦ rw e (inr (In-kept f tmp gs n i))
]

discard_found-left :
    (e : Env) (f : Text) (o : Option Text) (s : Screen)
    → ¬ (o ≡ some f)
    → In f s.files
    → After (λ _ t. In f t.files) (λ _. ⊥) (discard_found e o s)
unfolding discard_found unlink_temp
discard_found-left e f none s n i = i
discard_found-left e f (some tmp) s n i = elim (Bool-cases (e.refuses tmp)) [
  | inl r ↦ rw r i
  | inr r ↦ rw r (In-kept f tmp s.files (λ p. n (ap some (sym p))) i)
]

-- Closing the window, where mpv's player can be ended, ends the turns of its callbacks and leaves each
-- temporary file but its own clip on disk: so also a clip that waits to be played or is being
-- decrypted.
pub on_close-left :
    (e : Env) (s : Screen) (f : Text)
    → e.ends_player ≡ ok tt
    → ¬ (s.tmp ≡ some f)
    → In f s.files
    → ((on_close e s).1.is_open ≡ false) × In f (on_close e s).1.files
unfolding on_close discard_tmp
on_close-left e s f ended n i =
    let (p, ended_too) = end_found_lem e s.player s ended in
    rw ended_too (
      After-state (λ u. (u.is_open ≡ false) × In f u.files)
        ((discard_tmp e >>= λ _ u. (ok tt, record u { is_open = false })) (record s { player = p }))
        (discarded (record s { player = p }) n i))
  where
    discarded :
        (t : Screen)
        → ¬ (t.tmp ≡ some f)
        → In f t.files
        → Leaves
            (λ u. (u.is_open ≡ false) × In f u.files)
            ((discard_tmp e >>= λ _ u. (ok tt, record u { is_open = false })) t)
    discarded t m k =
        let closed : Screen → Type 0 = λ u. (u.is_open ≡ false) × In f u.files in
        follow-After (λ _ u. In f u.files) closed (λ _. closed) (discard_tmp e t)
          (λ _ u. (ok tt, record u { is_open = false }))
          (After-weaken (λ _ u. In f u.files) (λ _ u. In f u.files) (λ _. ⊥) closed
            (discard_tmp e t) (discard_found-left e f t.tmp t m k) (λ _ u j. j) (λ u j. absurd j))
          (λ _ u j. (refl, j))
