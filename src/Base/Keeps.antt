-- ===== src/Base/Keeps.antt =====
-- Properties of the state that an action keeps, whether it returns or raises: one rule for each way
-- to build an action.
use mathlib.Core.Bool.{Bool, true, false}
use videobackup.Base.Effects.{
  Exn, Outcome, ok, raised, M, pure, throw, follow, ◌>>=◌, ◌>>◌, recover, catch, lift, branch,
  reify, attempt, finally,
}

pub record Keeps {S A : Type 0} (Q : S → Type 0) (m : M S A) : Type 0 where
  pub at : (s : S) → Q s → Q (m s).1

module _ {S A : Type 0} where
  keeps_reify : (P : S → Type 0) (r : Outcome A × S) → P r.1 → P (reify r).1
  keeps_reify P (ok a, s) h = h
  keeps_reify P (raised e, s) h = h

module _ {S A : Type 0} {Q : S → Type 0} where
  pub Keeps-pure : (a : A) → Keeps Q (pure {S = S} a)
  Keeps-pure a = record { at = λ s h. h }

  pub Keeps-throw : (e : Exn) → Keeps {A = A} Q (throw e)
  Keeps-throw e = record { at = λ s h. h }

  pub Keeps-lift : (o : Outcome A) → Keeps Q (lift {S = S} o)
  Keeps-lift (ok a) = Keeps-pure a
  Keeps-lift (raised e) = Keeps-throw e

  pub Keeps-branch : (b : Bool) (m n : M S A) → Keeps Q m → Keeps Q n → Keeps Q (branch b m n)
  Keeps-branch true m n km kn = km
  Keeps-branch false m n km kn = kn

  keeps_recover :
      (r : Outcome A × S) (g : Exn → M S A)
      → Q r.1
      → ((e : Exn) → Keeps Q (g e))
      → Q (recover r g).1
  keeps_recover (ok a, s) g h k = h
  keeps_recover (raised e, s) g h k = (k e).at s h

  pub Keeps-catch :
      (m : M S A) (g : Exn → M S A) → Keeps Q m → ((e : Exn) → Keeps Q (g e)) → Keeps Q (catch m g)
  Keeps-catch m g km kg = record { at = λ s h. keeps_recover (m s) g (km.at s h) kg }

  pub Keeps-attempt : (m : M S A) → Keeps Q m → Keeps Q (attempt m)
  Keeps-attempt m km = record { at = λ s h. keeps_reify Q (m s) (km.at s h) }

module _ {S A B : Type 0} {Q : S → Type 0} where
  keeps_follow :
      (r : Outcome A × S) (f : A → M S B) → Q r.1 → ((a : A) → Keeps Q (f a)) → Q (follow r f).1
  keeps_follow (ok a, s) f h k = (k a).at s h
  keeps_follow (raised e, s) f h k = h

  pub Keeps-bind :
      (m : M S A) (f : A → M S B) → Keeps Q m → ((a : A) → Keeps Q (f a)) → Keeps Q (m >>= f)
  Keeps-bind m f km kf = record { at = λ s h. keeps_follow (m s) f (km.at s h) kf }

module _ {S A : Type 0} {Q : S → Type 0} where
  pub Keeps-finally :
      (m : M S A) (c : M S (Unit {0})) → Keeps Q m → Keeps Q c → Keeps Q (finally m c)
  Keeps-finally m c km kc =
      Keeps-bind (attempt m) (λ r. c >> lift r) (Keeps-attempt m km)
        λ r. Keeps-bind c (λ _. lift r) kc (λ _. Keeps-lift r)

pub ruleset keeps_rules = (
  Keeps-pure, Keeps-throw, Keeps-lift, Keeps-branch, Keeps-catch, Keeps-attempt, Keeps-bind,
  Keeps-finally,
)
