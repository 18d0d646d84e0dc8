-- ===== src/Viewer/Owned.antt =====
-- The window of videobackup/viewer.py deletes no temporary file before its turn.
use videobackup.Base.{◌≡◌, refl, sym, subst, inl, inr, false, List, ◌∷◌, ◌++◌, none}
use videobackup.Base.{◌+◌, ◌≤◌, arith, same, same→eq, is_among, Bool-cases, Text}
use videobackup.Base.Effects.{Exn, throw}
use videobackup.Base.Effects.{ok, raised, Outcome, lift, follow, reify}
use videobackup.Base.After.{After, follow-After, if-After, After-weaken, lift-Leaves}
use videobackup.Drive.{is_zero}
use videobackup.Viewer.{
  Clip, Worker, waiting, decrypting, Screen, Env, unlink_temp, load_preselected, run_viewer,
  decrypt_worker, show_failure, decrypt_into, check_decrypted, decrypt_args, post, post_result,
  temp_suffix,
}
use videobackup.Viewer.System.{
  Step, clicks, preselects, calls, reads, begins, gives_up, ends, Reach, start, later, begin,
  finish, decrypt_worker-raised,
}
use videobackup.Viewer.Files.{worker_files, without_file}
use videobackup.Viewer.Kept.{
  once, occurs, holds, present, IsKeptWith, IsKept, present_small, present-without_file,
  occurs-played, occurs-failed, occurs-waiting, occurs-decrypting,
}
use videobackup.Viewer.Turns.{close_box-IsKept, load-IsKept, handle-IsKept, run_callback-IsKept}

module _ (e : Env) (src : Clip) (before after : List Worker) (s : Screen) where
  -- A thread makes its file, whose name no other file has.
  begin-IsKept :
      (tmp : Text)
      → is_among tmp s.files ≡ false
      → s.workers ≡ before ++ waiting src ∷ after
      → IsKept s
      → IsKept (begin tmp (record s { workers = before ++ decrypting src tmp ∷ after }))
  unfolding is_among
  begin-IsKept tmp new p h f =
      let was : occurs f (worker_files s.workers) ≡ occurs f (worker_files (before ++ after)) =
        rw p (occurs-waiting f src after before) in
      let is_now = occurs-decrypting f src tmp after before in
      elim (Bool-cases (same f tmp)) [
        | inl k ↦
            (let unused : present f s.files ≡ 0 = rw (same→eq f tmp k) (rw new refl) in
              let one : once f tmp ≡ 1 = rw k refl in
              rw k (omega (arith, h f, was, is_now, unused, one)))
        | inr k ↦
            (let zero_times : once f tmp ≡ 0 = rw k refl in
              rw k (omega (arith, h f, was, is_now, zero_times)))
      ]

  -- A thread that ends hands its file on, or deletes it.
  decrypt_into-After :
      (tmp : Text) (t : Screen)
      → IsKeptWith (λ f. once f tmp) t
      → After
          (λ plain u. (plain ≡ tmp) × IsKeptWith (λ f. once f tmp) u)
          IsKept
          (decrypt_into e src tmp t)
  unfolding decrypt_into check_decrypted unlink_temp
  decrypt_into-After tmp t h =
      follow-After (λ _. IsKeptWith (λ f. once f tmp)) IsKept
        (λ plain u. (plain ≡ tmp) × IsKeptWith (λ f. once f tmp) u)
        (lift (e.gpg (decrypt_args tmp src)) t) _
        (After-weaken (λ _. IsKeptWith (λ f. once f tmp)) (λ _. IsKeptWith (λ f. once f tmp))
          (IsKeptWith (λ f. once f tmp)) IsKept _
          (lift-Leaves (IsKeptWith (λ f. once f tmp)) (e.gpg (decrypt_args tmp src)) t h)
          (λ _ u k. k) (λ u k. looser u k))
        (λ result u k.
          if-After (λ plain v. (plain ≡ tmp) × IsKeptWith (λ f. once f tmp) v) IsKept
            (is_zero result.returncode) _ _ (λ _. (refl, k)) (λ _. deleted _ u k))
    where
      looser : (u : Screen) → IsKeptWith (λ f. once f tmp) u → IsKept u
      looser u k f = omega (arith, k f)

      gone :
          (u : Screen)
          → IsKeptWith (λ f. once f tmp) u
          → IsKept (record u { files = without_file tmp u.files })
      gone u k f = elim (Bool-cases (same f tmp)) [
        | inl is_tmp ↦
            (let one : once f tmp ≡ 1 = rw is_tmp refl in
              omega (arith, k f, one, present_small f u.files))
        | inr other ↦ rw (present-without_file f tmp u.files other) (omega (arith, k f))
      ]

      deleted :
          (x : Exn) (u : Screen)
          → IsKeptWith (λ f. once f tmp) u
          → After
              (λ (plain : Text) v. (plain ≡ tmp) × IsKeptWith (λ f. once f tmp) v)
              IsKept
              (follow (unlink_temp e tmp u) (λ _. throw x))
      deleted x u k = elim (Bool-cases (e.refuses tmp)) [
        | inl r ↦ rw r (looser u k)
        | inr r ↦ rw r (gone u k)
      ]

  post_failure-IsKept : (exn : Exn) (u : Screen) → IsKept u → IsKept (post e (show_failure exn) u).1
  unfolding post
  post_failure-IsKept exn u k = elim (Bool-cases u.is_open) [
    | inl o ↦ rw o (λ f. omega (arith, k f, occurs-failed f exn u.queue))
    | inr c ↦ rw c k
  ]

  posted :
      (tmp : Text) (r : Outcome Text × Screen)
      → After (λ plain u. (plain ≡ tmp) × IsKeptWith (λ f. once f tmp) u) IsKept r
      → IsKept (follow (reify r) (post_result e)).1
  unfolding post_result post
  posted tmp (ok plain, u) (p, k) = elim (Bool-cases u.is_open) [
    | inl o ↦ rw o (λ f.
        let named : once f plain ≡ once f tmp = rw p refl in
        omega (arith, k f, named, occurs-played f plain u.queue))
    | inr c ↦ rw c (λ f. omega (arith, k f))
  ]
  posted tmp (raised exn, u) k = post_failure-IsKept exn u k

  -- A thread that cannot make its file ends.
  gives_up-IsKept :
      (exn : Exn)
      → e.fresh (temp_suffix src.name) ≡ raised exn
      → s.workers ≡ before ++ waiting src ∷ after
      → IsKept s
      → IsKept (decrypt_worker e src (record s { workers = before ++ after })).1
  gives_up-IsKept exn refused p h =
      rw (decrypt_worker-raised e src exn (record s { workers = before ++ after }) refused) (
        post_failure-IsKept exn (record s { workers = before ++ after })
          (λ f.
            let was : occurs f (worker_files s.workers)
                ≡ occurs f (worker_files (before ++ after)) =
              rw p (occurs-waiting f src after before) in
            omega (arith, h f, was)))

  finish-IsKept :
      (tmp : Text)
      → s.workers ≡ before ++ decrypting src tmp ∷ after
      → IsKept s
      → IsKept (finish e src tmp (record s { workers = before ++ after }))
  finish-IsKept tmp p h = posted tmp _ (
      decrypt_into-After tmp (record s { workers = before ++ after })
        (λ f.
          let was : occurs f (worker_files s.workers)
              ≡ once f tmp + occurs f (worker_files (before ++ after)) =
            rw p (occurs-decrypting f src tmp after before) in
          omega (arith, h f, was)))

Step-IsKept : {Allowed : Env → Type 0} {s t : Screen} → Step Allowed s t → IsKept s → IsKept t
unfolding load_preselected
Step-IsKept {s = s} (clicks e chosen handler _ _ p) h =
    subst IsKept (sym p) (handle-IsKept e chosen handler s h)
Step-IsKept {s = s} (preselects e src _ _ q p) h =
    subst IsKept (sym p) (load-IsKept e src (record s { preselected = none }) h)
Step-IsKept {s = s} (calls e callback rest _ _ q p) h =
    subst IsKept (sym p) (run_callback-IsKept e callback rest s q h)
Step-IsKept {s = s} (reads e others _ q p) h = subst IsKept (sym p) (close_box-IsKept e others s h)
Step-IsKept {s = s} (begins e src tmp before after _ _ new q p) h =
    subst IsKept (sym p) (begin-IsKept e src before after s tmp new q h)
Step-IsKept {s = s} (gives_up e src exn before after _ refused q p) h =
    subst IsKept (sym p) (gives_up-IsKept e src before after s exn refused q h)
Step-IsKept {s = s} (ends e src tmp before after _ q p) h =
    subst IsKept (sym p) (finish-IsKept e src before after s tmp q h)

-- No temporary file is deleted before its turn: in any state that the window and its threads reach,
-- a file that is the window's clip, waits to be played or is being written is on disk, and is only
-- one of these, once. This holds whichever deletions are refused, however gpg ends, whether or not
-- a temporary file can be made, a thread starts and mpv can be imported, made, told to play, pause and
-- stop, and ended, and whatever runs while a message box is shown, if a fresh temporary file has a name
-- that no other has.
pub Reach-IsKept :
    (Allowed : Env → Type 0) {s : Screen} (f : Text)
    → Reach Allowed s
    → holds f s ≤ present f s.files
unfolding run_viewer
Reach-IsKept Allowed f (start to_path file) = omega arith
Reach-IsKept Allowed {s} f (later r st) = Step-IsKept st (λ g. Reach-IsKept Allowed g r) f
