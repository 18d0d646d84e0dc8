-- ===== src/Base/Effects.antt =====
-- Code that acts on a state and may raise, as the Python code does: a result or an exception, and
-- the state that is left in either case.
use mathlib.Core.Path.{◌≡◌, ap}
use mathlib.Core.Bool.{Bool, true, false}
use videobackup.Base.Texts.{Text}
use videobackup.Base.Tests.{if◌then◌else◌}

-- The exceptions that the code raises or tells apart.
pub data Exn : Type 0 where
  runtime_error : Text → Exn
  auth_error : Text → Exn
  config_error : Text → Exn
  file_not_found os_error value_error key_error type_error overflow_error import_error : Exn

-- `RcloneAuthError` is a `RuntimeError`, `FileNotFoundError` an `OSError`, `ConfigError` a
-- `ValueError`.
abbrev pub is_os_error : Exn → Bool
is_os_error file_not_found = true
is_os_error os_error = true
is_os_error _ = false

abbrev pub is_runtime_error : Exn → Bool
is_runtime_error (runtime_error _) = true
is_runtime_error (auth_error _) = true
is_runtime_error _ = false

abbrev pub is_value_error : Exn → Bool
is_value_error value_error = true
is_value_error (config_error _) = true
is_value_error _ = false

abbrev pub is_import_error : Exn → Bool
is_import_error import_error = true
is_import_error _ = false

abbrev pub is_key_error : Exn → Bool
is_key_error key_error = true
is_key_error _ = false

pub data Outcome {ℓ} (A : Type ℓ) : Type ℓ where
  ok : A → Outcome A
  raised : Exn → Outcome A

abbrev pub M : Type 0 → Type 0 → Type 0
M S A = S → Outcome A × S

module _ {S : Type 0} where
  abbrev pub pure : {A : Type 0} → A → M S A
  pure a s = (ok a, s)

  abbrev pub throw : {A : Type 0} → Exn → M S A
  throw e s = (raised e, s)

  abbrev pub follow : {A B : Type 0} → Outcome A × S → (A → M S B) → Outcome B × S
  follow (ok a, s) f = f a s
  follow (raised e, s) f = (raised e, s)

  infixl 5 ◌>>=◌ ◌>>◌
  abbrev pub ◌>>=◌ : {A B : Type 0} → M S A → (A → M S B) → M S B
  ◌>>=◌ m f s = follow (m s) f

  abbrev pub ◌>>◌ : {B : Type 0} → M S (Unit {0}) → M S B → M S B
  m >> k = m >>= λ _. k

  abbrev pub recover : {A : Type 0} → Outcome A × S → (Exn → M S A) → Outcome A × S
  recover (ok a, s) h = (ok a, s)
  recover (raised e, s) h = h e s

  -- `try: m; except: h`, where `h` raises again what it does not catch.
  abbrev pub catch : {A : Type 0} → M S A → (Exn → M S A) → M S A
  catch m h s = recover (m s) h

  -- A value of pure code that may raise.
  abbrev pub lift : {A : Type 0} → Outcome A → M S A
  lift (ok a) = pure a
  lift (raised e) = throw e

  abbrev pub branch : {A : Type 0} → Bool → M S A → M S A → M S A
  branch b m k s = if b then m s else k s

  abbrev pub reify : {A : Type 0} → Outcome A × S → Outcome (Outcome A) × S
  reify (r, s) = (ok r, s)

  -- The result or the exception, as a value.
  abbrev pub attempt : {A : Type 0} → M S A → M S (Outcome A)
  attempt m s = reify (m s)

  -- `try: m; finally: cleanup`
  abbrev pub finally : {A : Type 0} → M S A → M S (Unit {0}) → M S A
  finally m cleanup = do r ← attempt m; cleanup; lift r

  -- A run whose result is known.
  pub run-ok : {A : Type 0} (r : Outcome A × S) {o : Outcome A} → r.0 ≡ o → r ≡ (o, r.1)
  run-ok r h = ap (λ x. (x, r.1)) h
