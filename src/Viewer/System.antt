-- ===== src/Viewer/System.antt =====
-- The window and the threads of videobackup/viewer.py, interleaved in any order.
use videobackup.Base.{Option, some, ◌≡◌, refl, true, List, ◌∷◌, ◌++◌}
use videobackup.Base.{Text, is_among, false, ℕ, suc}
use videobackup.Base.Effects.{attempt, ◌>>=◌, Exn, ok, raised}
use videobackup.Viewer.{
  Clip, Worker, waiting, decrypting, Callback, show_failure, Screen, Env, make_temp, temp_suffix,
  decrypt_into, close_box, post, post_result, decrypt_worker, decrypt_to_temp, Handler, handle,
  load_preselected, run_viewer, run_callback,
}

-- The last part of `_decrypt_worker`, from the moment where gpg is started.
abbrev pub finish : Env → Clip → Text → Screen → Screen
finish e src tmp s = ((attempt (decrypt_into e src tmp) >>= post_result e) s).1

-- Its first part: the temporary file is made.
abbrev pub begin : Text → Screen → Screen
begin tmp s = record s { files = tmp ∷ s.files }

-- A click of the user, the turn of a callback or of the clip that was given at the start, while the
-- window is open, a message box that is closed, or a thread's progress, on a system whose answers are
-- among those allowed. A fresh temporary file has a name that no other has.
pub data Step (Allowed : Env → Type 0) (s : Screen) (t : Screen) : Type 0 where
  clicks :
      (e : Env) (chosen : Option Clip) (handler : Handler)
      → Allowed e
      → s.is_open ≡ true
      → t ≡ (handle e chosen handler s).1
      → Step Allowed s t
  preselects :
      (e : Env) (src : Clip)
      → Allowed e
      → s.is_open ≡ true
      → s.preselected ≡ some src
      → t ≡ (load_preselected e src s).1
      → Step Allowed s t
  calls :
      (e : Env) (callback : Callback) (rest : List Callback)
      → Allowed e
      → s.is_open ≡ true
      → s.queue ≡ callback ∷ rest
      → t ≡ (run_callback e callback (record s { queue = rest })).1
      → Step Allowed s t
  reads :
      (e : Env) (others : ℕ)
      → Allowed e
      → s.unread ≡ suc others
      → t ≡ (close_box e others s).1
      → Step Allowed s t
  begins :
      (e : Env) (src : Clip) (tmp : Text) (before after : List Worker)
      → Allowed e
      → e.fresh (temp_suffix src.name) ≡ ok tmp
      → is_among tmp s.files ≡ false
      → s.workers ≡ before ++ waiting src ∷ after
      → t ≡ begin tmp (record s { workers = before ++ decrypting src tmp ∷ after })
      → Step Allowed s t
  gives_up :
      (e : Env) (src : Clip) (exn : Exn) (before after : List Worker)
      → Allowed e
      → e.fresh (temp_suffix src.name) ≡ raised exn
      → s.workers ≡ before ++ waiting src ∷ after
      → t ≡ (decrypt_worker e src (record s { workers = before ++ after })).1
      → Step Allowed s t
  ends :
      (e : Env) (src : Clip) (tmp : Text) (before after : List Worker)
      → Allowed e
      → s.workers ≡ before ++ decrypting src tmp ∷ after
      → t ≡ finish e src tmp (record s { workers = before ++ after })
      → Step Allowed s t

pub data Reach (Allowed : Env → Type 0) : Screen → Type 0 where
  start : (to_path : Text → Clip) (file : Option Text) → Reach Allowed (run_viewer to_path file)
  later : {s t : Screen} → Reach Allowed s → Step Allowed s t → Reach Allowed t

-- The two parts of a thread, one after the other, are what it runs.
pub decrypt_worker-begin :
    (e : Env) (src : Clip) (tmp : Text) (s : Screen)
    → e.fresh (temp_suffix src.name) ≡ ok tmp
    → (decrypt_worker e src s).1 ≡ finish e src tmp (begin tmp s)
unfolding decrypt_worker decrypt_to_temp make_temp
decrypt_worker-begin e src tmp s p = rw p refl

-- Where no temporary file can be made, a thread says so, and that is all.
pub decrypt_worker-raised :
    (e : Env) (src : Clip) (exn : Exn) (s : Screen)
    → e.fresh (temp_suffix src.name) ≡ raised exn
    → decrypt_worker e src s ≡ post e (show_failure exn) s
unfolding decrypt_worker decrypt_to_temp make_temp post_result
decrypt_worker-raised e src exn s p = rw p refl
