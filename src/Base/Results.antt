-- ===== src/Base/Results.antt =====
-- Pure code that may raise: `do` blocks over Outcome.
use mathlib.Core.Path.{◌≡◌, refl}
use mathlib.Core.Bool.{Bool, true, false}
use videobackup.Base.Effects.{Exn, Outcome, ok, raised}
use videobackup.Base.Tests.{if◌then◌else◌}

infixl 5 ◌>>=◌ ◌>>◌
abbrev pub ◌>>=◌ : {A B : Type 0} → Outcome A → (A → Outcome B) → Outcome B
ok a >>= f = f a
raised e >>= f = raised e

abbrev pub ◌>>◌ : {B : Type 0} → Outcome (Unit {0}) → Outcome B → Outcome B
m >> k = m >>= λ _. k

-- `if b: raise e`
abbrev pub reject_if : Bool → Exn → Outcome (Unit {0})
reject_if b e = if b then raised e else ok tt

abbrev pub recover_pure : {A : Type 0} → Outcome A → (Exn → Outcome A) → Outcome A
recover_pure (ok a) h = ok a
recover_pure (raised e) h = h e

-- What is returned has a property.
abbrev pub Returns : {A : Type 0} → (A → Type 0) → Outcome A → Type 0
Returns P (ok a) = P a
Returns P (raised e) = Unit

pub Returns-bind :
    {A B : Type 0} (P : A → Type 0) (Q : B → Type 0) (m : Outcome A) (f : A → Outcome B)
    → Returns P m
    → ((a : A) → P a → Returns Q (f a))
    → Returns Q (m >>= f)
Returns-bind P Q (ok a) f h k = k a h
Returns-bind P Q (raised e) f h k = tt

-- Nothing is known of what is returned.
pub Returns-any :
    {A B : Type 0} (Q : B → Type 0) (m : Outcome A) (f : A → Outcome B)
    → ((a : A) → Returns Q (f a))
    → Returns Q (m >>= f)
Returns-any Q (ok a) f k = k a
Returns-any Q (raised e) f k = tt

-- What passed a check.
pub Returns-reject_if :
    {B : Type 0} (Q : B → Type 0) (b : Bool) (e : Exn) (m : Outcome B)
    → (b ≡ false → Returns Q m)
    → Returns Q (reject_if b e >> m)
Returns-reject_if Q true e m k = tt
Returns-reject_if Q false e m k = k refl

pub Returns-weaken :
    {A : Type 0} (P Q : A → Type 0) (m : Outcome A)
    → ((a : A) → P a → Q a)
    → Returns P m
    → Returns Q m
Returns-weaken P Q (ok a) k h = k a h
Returns-weaken P Q (raised e) k h = tt
