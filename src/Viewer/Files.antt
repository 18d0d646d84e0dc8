-- ===== src/Viewer/Files.antt =====
-- The temporary files that a screen of videobackup/viewer.py still knows of.
use videobackup.Base.{◌≡◌, sym, ap, ◌∙◌, ◌⊎◌, inl, inr, true, false, not, List, [], ◌∷◌, ◌++◌, some}
use videobackup.Base.{filter_by, same, same_refl, Bool-cases, Text}
use videobackup.Viewer.{
  Clip, Worker, waiting, decrypting, Callback, play_file, show_failure, Screen,
}

abbrev pub In : Text → List Text → Type 0
In f [] = ⊥
In f (g ∷ gs) = (f ≡ g) ⊎ In f gs

-- The files that threads write, and those that wait to be played.
abbrev pub worker_files : List Worker → List Text
worker_files [] = []
worker_files (waiting src ∷ ws) = worker_files ws
worker_files (decrypting src tmp ∷ ws) = tmp ∷ worker_files ws

abbrev pub queue_files : List Callback → List Text
queue_files [] = []
queue_files (play_file tmp ∷ cs) = tmp ∷ queue_files cs
queue_files (show_failure exn ∷ cs) = queue_files cs

-- The clip of the window, one that is to be played, or one that is being decrypted.
abbrev pub IsHeld : Screen → Text → Type 0
IsHeld s f = (s.tmp ≡ some f) ⊎ (In f (queue_files s.queue) ⊎ In f (worker_files s.workers))

-- Each temporary file on disk is held.
abbrev pub IsAccounted : Screen → Type 0
IsAccounted s = (f : Text) → In f s.files → IsHeld s f

abbrev pub without_file : Text → List Text → List Text
without_file tmp fs = filter_by (λ f. not (same f tmp)) fs

pub In-without_file :
    (f tmp : Text) (fs : List Text) → In f (without_file tmp fs) → In f fs × (same f tmp ≡ false)
In-without_file f tmp [] h = absurd h
In-without_file f tmp (g ∷ gs) h = elim (Bool-cases (same g tmp)) [
  | inl e ↦ let later = In-without_file f tmp gs (rw e at h) in (inr later.0, later.1)
  | inr e ↦ elim (kept e h) [
    | inl p ↦ (inl p, rw p e)
    | inr i ↦ let later = In-without_file f tmp gs i in (inr later.0, later.1)
  ]
]
  where
    kept :
        same g tmp ≡ false → In f (without_file tmp (g ∷ gs)) → (f ≡ g) ⊎ In f (without_file tmp gs)
    kept e h = rw e at h

pub not-same : {A : Type 0} (f : Text) (tmp : Text) → f ≡ tmp → same f tmp ≡ false → A
not-same f tmp p e = absurd (clash (sym (same_refl f) ∙ ap (same f) p ∙ e))
  where
    clash : ¬ (true ≡ false)
    clash c = cc

pub worker_files-append_left :
    (f : Text) (ws vs : List Worker) → In f (worker_files ws) → In f (worker_files (ws ++ vs))
worker_files-append_left f [] vs h = absurd h
worker_files-append_left f (waiting src ∷ ws) vs h = worker_files-append_left f ws vs h
worker_files-append_left f (decrypting src tmp ∷ ws) vs (inl p) = inl p
worker_files-append_left f (decrypting src tmp ∷ ws) vs (inr i) =
    inr (worker_files-append_left f ws vs i)

module _ (f : Text) (src : Clip) (tmp : Text) (after : List Worker) where
  -- A thread that has made its file, among the others.
  pub worker_files-new :
      (before : List Worker) → f ≡ tmp → In f (worker_files (before ++ decrypting src tmp ∷ after))
  worker_files-new [] p = inl p
  worker_files-new (waiting other ∷ ws) p = worker_files-new ws p
  worker_files-new (decrypting other t ∷ ws) p = inr (worker_files-new ws p)

  pub worker_files-others :
      (before : List Worker)
      → In f (worker_files (before ++ waiting src ∷ after))
      → In f (worker_files (before ++ decrypting src tmp ∷ after))
  worker_files-others [] h = inr h
  worker_files-others (waiting other ∷ ws) h = worker_files-others ws h
  worker_files-others (decrypting other t ∷ ws) (inl p) = inl p
  worker_files-others (decrypting other t ∷ ws) (inr i) = inr (worker_files-others ws i)

  pub worker_files-gone :
      (before : List Worker)
      → In f (worker_files (before ++ decrypting src tmp ∷ after))
      → (f ≡ tmp) ⊎ In f (worker_files (before ++ after))
  worker_files-gone [] h = h
  worker_files-gone (waiting other ∷ ws) h = worker_files-gone ws h
  worker_files-gone (decrypting other t ∷ ws) (inl p) = inr (inl p)
  worker_files-gone (decrypting other t ∷ ws) (inr i) = elim (worker_files-gone ws i) [
    | inl p ↦ inl p
    | inr k ↦ inr (inr k)
  ]

-- A thread that has not yet made its file has none.
pub worker_files-left :
    (f : Text) (src : Clip) (after before : List Worker)
    → In f (worker_files (before ++ waiting src ∷ after))
    → In f (worker_files (before ++ after))
worker_files-left f src after [] h = h
worker_files-left f src after (waiting other ∷ ws) h = worker_files-left f src after ws h
worker_files-left f src after (decrypting other t ∷ ws) (inl p) = inl p
worker_files-left f src after (decrypting other t ∷ ws) (inr i) =
    inr (worker_files-left f src after ws i)

pub queue_files-append_left :
    (f : Text) (cs ds : List Callback) → In f (queue_files cs) → In f (queue_files (cs ++ ds))
queue_files-append_left f [] ds h = absurd h
queue_files-append_left f (play_file tmp ∷ cs) ds (inl p) = inl p
queue_files-append_left f (play_file tmp ∷ cs) ds (inr i) = inr (queue_files-append_left f cs ds i)
queue_files-append_left f (show_failure exn ∷ cs) ds h = queue_files-append_left f cs ds h

pub queue_files-last :
    (f tmp : Text) (cs : List Callback) → f ≡ tmp → In f (queue_files (cs ++ play_file tmp ∷ []))
queue_files-last f tmp [] p = inl p
queue_files-last f tmp (play_file other ∷ cs) p = inr (queue_files-last f tmp cs p)
queue_files-last f tmp (show_failure exn ∷ cs) p = queue_files-last f tmp cs p
