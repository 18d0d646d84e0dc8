-- ===== src/Base/After.antt =====
-- What holds after a run: `P` of a result and the state left with it, `Q` of the state that an
-- exception leaves.
use mathlib.Core.Bool.{Bool, true, false}
use mathlib.Core.Path.{◌≡◌, refl}
use videobackup.Base.Tests.{if◌then◌else◌}
use videobackup.Base.Effects.{Exn, Outcome, ok, raised, M, follow, recover, reify, lift}

module _ {S : Type 0} where
  abbrev pub After : {A : Type 0} → (A → S → Type 0) → (S → Type 0) → Outcome A × S → Type 0
  After P Q (ok a, s) = P a s
  After P Q (raised e, s) = Q s

  pub follow-After :
      {A B : Type 0} (P : A → S → Type 0) (Q : S → Type 0) (P' : B → S → Type 0) (r : Outcome A × S)
      (f : A → M S B)
      → After P Q r
      → ((a : A) (s : S) → P a s → After P' Q (f a s))
      → After P' Q (follow r f)
  follow-After P Q P' (ok a, s) f h k = k a s h
  follow-After P Q P' (raised e, s) f h k = h

  pub recover-After :
      {A : Type 0} (P : A → S → Type 0) (Q Q' : S → Type 0) (r : Outcome A × S) (g : Exn → M S A)
      → After P Q r
      → ((e : Exn) (s : S) → Q s → After P Q' (g e s))
      → After P Q' (recover r g)
  recover-After P Q Q' (ok a, s) g h k = h
  recover-After P Q Q' (raised e, s) g h k = k e s h

  pub if-After :
      {A : Type 0} (P : A → S → Type 0) (Q : S → Type 0) (b : Bool) (x y : Outcome A × S)
      → (b ≡ true → After P Q x)
      → (b ≡ false → After P Q y)
      → After P Q (if b then x else y)
  if-After P Q true x y hx hy = hx refl
  if-After P Q false x y hx hy = hy refl

  -- The state is left in `Q` either way.
  pub After-state : {A : Type 0} (Q : S → Type 0) (r : Outcome A × S) → After (λ _. Q) Q r → Q r.1
  After-state Q (ok a, s) h = h
  After-state Q (raised e, s) h = h

  pub After-weaken :
      {A : Type 0} (P P' : A → S → Type 0) (Q Q' : S → Type 0) (r : Outcome A × S)
      → After P Q r
      → ((a : A) (s : S) → P a s → P' a s)
      → ((s : S) → Q s → Q' s)
      → After P' Q' r
  After-weaken P P' Q Q' (ok a, s) h p q = p a s h
  After-weaken P P' Q Q' (raised e, s) h p q = q s h

  -- One property of the state, whatever the result.
  abbrev pub Leaves : {A : Type 0} → (S → Type 0) → Outcome A × S → Type 0
  Leaves Q r = After (λ _. Q) Q r

  pub attempt-Leaves :
      {A : Type 0} (Q : S → Type 0) (r : Outcome A × S) → Leaves Q r → Leaves Q (reify r)
  attempt-Leaves Q (ok a, s) h = h
  attempt-Leaves Q (raised e, s) h = h

  pub lift-Leaves :
      {A : Type 0} (Q : S → Type 0) (o : Outcome A) (s : S) → Q s → Leaves Q (lift o s)
  lift-Leaves Q (ok a) s h = h
  lift-Leaves Q (raised e) s h = h

  -- After a run that ends in `R`, or raises in `Q`, and one that leaves `Q`, the state is in `Q`.
  pub follow_state :
      {A B : Type 0} (R : A → S → Type 0) (Q : S → Type 0) (r : Outcome A × S) (f : A → M S B)
      → After R Q r
      → ((a : A) (s : S) → R a s → Q (f a s).1)
      → Q (follow r f).1
  follow_state R Q (ok a, s) f h k = k a s h
  follow_state R Q (raised e, s) f h k = h

  -- What a run keeps, with what is known after it.
  pub After-keeps :
      {A : Type 0} (P : A → S → Type 0) (Q : S → Type 0) (r : Outcome A × S)
      → Q r.1
      → After P (λ _. Unit) r
      → After (λ a s. Q s × P a s) Q r
  After-keeps P Q (ok a, s) q h = (q, h)
  After-keeps P Q (raised e, s) q h = q

  pub After-and :
      {A : Type 0} (C : S → Type 0) (P : A → S → Type 0) (Q : S → Type 0) (r : Outcome A × S)
      → C r.1
      → After P Q r
      → After (λ a s. C s × P a s) Q r
  After-and C P Q (ok a, s) c h = (c, h)
  After-and C P Q (raised e, s) c h = h

  pub After-of : {A : Type 0} (Q : S → Type 0) (r : Outcome A × S) → Q r.1 → After (λ _. Q) Q r
  After-of Q (ok a, s) h = h
  After-of Q (raised e, s) h = h
