-- ===== src/Viewer/Threads.antt =====
-- Each thread of videobackup/viewer.py, from its start on, keeps the temporary files accounted for.
use videobackup.Base.{Option, none, some, true, false}
use videobackup.Base.{◌≡◌, refl, sym, subst, ◌⊎◌, inl, inr, List, [], ◌∷◌, ◌++◌}
use videobackup.Base.{Bool-cases, Text}
use videobackup.Base.Effects.{follow, reify, lift, Exn, Outcome, raised, ok, attempt}
use videobackup.Base.After.{if-After, follow-After, lift-Leaves, Leaves, After-state}
use videobackup.Base.Keeps.{Keeps, Keeps-bind, Keeps-attempt, keeps_rules}
use videobackup.Drive.{is_zero}
use videobackup.Host.{Completed}
use videobackup.Viewer.{
  Clip, Worker, waiting, decrypting, Callback, play_file, Screen, Env, unlink_temp, check_decrypted,
  decrypt_args, post, post_result, load, load_preselected, decrypting_text, open_dialog,
  start_thread, show_failure, decrypt_worker, decrypt_into, temp_suffix,
}
use videobackup.Viewer.System.{finish, begin, decrypt_worker-raised}
use videobackup.Viewer.Files.{
  In, IsHeld, IsAccounted, In-without_file, not-same, worker_files, worker_files-append_left,
  worker_files-new, worker_files-others, worker_files-left, worker_files-gone,
  queue_files-append_left, queue_files-last,
}
use videobackup.Viewer.Handlers.{IsKind}

module _ (e : Env) (kind : IsKind e) where
  load-IsAccounted : (src : Clip) (s : Screen) → IsAccounted s → IsAccounted (load e src s).1
  unfolding load
  load-IsAccounted src s h = After-state IsAccounted _ (
      if-After (λ _. IsAccounted) IsAccounted (e.exists src) _ _
        (λ _. started (record s { status = decrypting_text src.name }) h) (λ _. h))
    where
      more :
          (t : Screen)
          → IsAccounted t
          → IsAccounted (record t { workers = t.workers ++ waiting src ∷ [] })
      more t k f i = elim (k f i) [
        | inl is_tmp ↦ inl is_tmp
        | inr (inl queued) ↦ inr (inl queued)
        | inr (inr working) ↦
            inr (inr (worker_files-append_left f t.workers (waiting src ∷ []) working))
      ]

      started : (t : Screen) → IsAccounted t → Leaves IsAccounted (start_thread e src t)
      started t k =
          follow-After (λ _. IsAccounted) IsAccounted (λ _. IsAccounted) (lift e.starts_thread t) _
            (lift-Leaves IsAccounted e.starts_thread t k) (λ _ u k2. more u k2)

  pub load_preselected-IsAccounted :
      (src : Clip) (s : Screen) → IsAccounted s → IsAccounted (load_preselected e src s).1
  unfolding load_preselected
  load_preselected-IsAccounted src s h = load-IsAccounted src (record s { preselected = none }) h

  pub open_dialog-IsAccounted :
      (chosen : Option Clip) (s : Screen) → IsAccounted s → IsAccounted (open_dialog e chosen s).1
  unfolding open_dialog
  open_dialog-IsAccounted none s h = h
  open_dialog-IsAccounted (some src) s h = load-IsAccounted src s h

  pub begin-IsAccounted :
      (src : Clip) (tmp : Text) (before after : List Worker) (s : Screen)
      → s.workers ≡ before ++ waiting src ∷ after
      → IsAccounted s
      → IsAccounted (begin tmp (record s { workers = before ++ decrypting src tmp ∷ after }))
  begin-IsAccounted src tmp before after s p h f (inl is_new) =
      inr (inr (worker_files-new f src tmp after before is_new))
  begin-IsAccounted src tmp before after s p h f (inr i) = elim (h f i) [
    | inl is_tmp ↦ inl is_tmp
    | inr (inl queued) ↦ inr (inl queued)
    | inr (inr working) ↦ inr (
        inr (
          worker_files-others f src tmp after before
            (let w : In f (worker_files (before ++ waiting src ∷ after)) = rw p at working in w)))
  ]

  decrypt_into_lem :
      (src : Clip) (tmp : Text) (s : Screen)
      → (c : Completed) × (decrypt_into e src tmp s ≡ check_decrypted e tmp c s)
  unfolding decrypt_into
  decrypt_into_lem src tmp s = let (c, ran) = kind.runs (decrypt_args tmp src) in (c, rw ran refl)

  pub finish-IsAccounted :
      (src : Clip) (tmp : Text) (before after : List Worker) (s : Screen)
      → s.workers ≡ before ++ decrypting src tmp ∷ after
      → s.is_open ≡ true
      → IsAccounted s
      → IsAccounted (finish e src tmp (record s { workers = before ++ after }))
  unfolding check_decrypted post_result post unlink_temp
  finish-IsAccounted src tmp before after s p opened h =
      let (c, ran) = decrypt_into_lem src tmp (record s { workers = before ++ after }) in
      subst (λ r. IsAccounted (follow (reify r) (post_result e)).1) (sym ran)
        (elim (Bool-cases (is_zero c.returncode)) [
          | inl good ↦ rw good (
              rw opened (λ f i. elim (others f i) [
                | inl is_tmp ↦ inr (inl (queue_files-last f tmp s.queue is_tmp))
                | inr held ↦ held (play_file tmp)
              ]))
          | inr bad ↦ rw bad (
              rw (kind.deletes tmp) (
                rw opened (λ f i.
                  let (there, differs) = In-without_file f tmp s.files i in
                  elim (others f there) [
                    | inl is_tmp ↦ not-same f tmp is_tmp differs
                    | inr held ↦ held _
                  ])))
        ])
    where
      others :
          (f : Text)
          → In f s.files
          → (f ≡ tmp)
            ⊎ ((callback : Callback)
                → IsHeld
                    (record s { workers = before ++ after; queue = s.queue ++ callback ∷ [] })
                    f)
      others f i = elim (h f i) [
        | inl is_clip ↦ inr (λ callback. inl is_clip)
        | inr (inl queued) ↦
            inr (λ callback. inr (inl (queue_files-append_left f s.queue (callback ∷ []) queued)))
        | inr (inr working) ↦
            (elim (worker_files-gone f src tmp after before (
              let w : In f (worker_files (before ++ decrypting src tmp ∷ after)) =
                rw p at working in
              w)) [
                | inl is_tmp ↦ inl is_tmp
                | inr others_too ↦ inr (λ callback. inr (inr others_too))
              ])
      ]

  pub gives_up-IsAccounted :
      (src : Clip) (exn : Exn) (before after : List Worker) (s : Screen)
      → e.fresh (temp_suffix src.name) ≡ raised exn
      → s.workers ≡ before ++ waiting src ∷ after
      → s.is_open ≡ true
      → IsAccounted s
      → IsAccounted (decrypt_worker e src (record s { workers = before ++ after })).1
  unfolding post
  gives_up-IsAccounted src exn before after s q p opened h =
      rw (decrypt_worker-raised e src exn (record s { workers = before ++ after }) q) (
        rw opened (λ f i. elim (h f i) [
          | inl is_tmp ↦ inl is_tmp
          | inr (inl queued) ↦
              inr (inl (queue_files-append_left f s.queue (show_failure exn ∷ []) queued))
          | inr (inr working) ↦ inr (
              inr (
                worker_files-left f src after before (
                  let w : In f (worker_files (before ++ waiting src ∷ after)) = rw p at working in
                  w)))
        ]))

-- A window that is closed stays so.
module _ (e : Env) where
  post-IsClosed :
      (callback : Callback) (s : Screen) → s.is_open ≡ false → (post e callback s).1.is_open ≡ false
  unfolding post
  post-IsClosed callback s h = rw h refl

  pub gives_up-IsClosed :
      (src : Clip) (exn : Exn) (s : Screen)
      → e.fresh (temp_suffix src.name) ≡ raised exn
      → s.is_open ≡ false
      → (decrypt_worker e src s).1.is_open ≡ false
  gives_up-IsClosed src exn s q h =
      rw (decrypt_worker-raised e src exn s q) (post-IsClosed (show_failure exn) s h)

  unlink_temp-IsClosed : (tmp : Text) → Keeps (λ s. s.is_open ≡ false) (unlink_temp e tmp)
  unfolding unlink_temp
  unlink_temp-IsClosed tmp = record {
    at = λ s h. elim (Bool-cases (e.refuses tmp)) [ inl r ↦ rw r h | inr r ↦ rw r h ];
  }

  decrypt_into-IsClosed :
      (src : Clip) (tmp : Text) → Keeps (λ s. s.is_open ≡ false) (decrypt_into e src tmp)
  unfolding decrypt_into check_decrypted
  decrypt_into-IsClosed src tmp = search (unlink_temp-IsClosed, keeps_rules)

  post_result-IsClosed : (r : Outcome Text) → Keeps (λ s. s.is_open ≡ false) (post_result e r)
  unfolding post_result
  post_result-IsClosed (ok plain) = record { at = post-IsClosed (play_file plain) }
  post_result-IsClosed (raised exn) = record { at = post-IsClosed (show_failure exn) }

  pub finish-IsClosed :
      (src : Clip) (tmp : Text) (s : Screen)
      → s.is_open ≡ false
      → (finish e src tmp s).is_open ≡ false
  finish-IsClosed src tmp s h =
      (Keeps-bind (attempt (decrypt_into e src tmp)) (post_result e)
          (Keeps-attempt (decrypt_into e src tmp) (decrypt_into-IsClosed src tmp))
          post_result-IsClosed).at
        s h
