-- ===== src/Command/Exits.antt =====
-- The exit codes of videobackup/main.py.
use videobackup.Base.{
  ℕ, ◌<◌, Bool, true, false, Option, some, ℤ, pos, Text, codes, same, ◌≡◌, refl, ◌↔◌, ◌≢◌,
  Bool-cases, inl, inr,
}
use videobackup.Base.Effects.{M, pure, throw, branch, recover, follow, Outcome, run-ok, ok, raised}
use videobackup.Base.Values.{Value}
use videobackup.Config.{Config}
use videobackup.Config.Load.{Python, load_config}
use videobackup.Host.{Host}
use videobackup.Host.Stops.{StopsInTheEnd}
use videobackup.Main.{is_auth_error}
use videobackup.Main.Stop.{run_batch_loop-stops}
use videobackup.Recorder.Fleet.{Threads}
use videobackup.Command.{
  Args, batch_loop, is_config_error, exit_config, exit_auth, code_of, run_command, exit_of,
  start_with, main,
}

-- A dead grant was raised.
abbrev pub IsAuthFailure : {A : Type 0} → Outcome A → Type 0
IsAuthFailure (ok a) = ⊥
IsAuthFailure (raised e) = is_auth_error e ≡ true

-- The configuration was rejected as one.
abbrev pub IsRejected : Outcome Config → Type 0
IsRejected (ok config) = ⊥
IsRejected (raised e) = is_config_error e ≡ true

-- The configuration was read, the command does something, and a dead grant stopped it.
abbrev pub StopsAtGrant : {S : Type 0} → (Config → M S Bool) → Bool → S → Outcome Config → Type 0
StopsAtGrant run checks s (raised e) = ⊥
StopsAtGrant run checks s (ok config) = (checks ≡ false) × IsAuthFailure (run config s).0

-- What the last lines of `main` make of a command's end.
abbrev caught : {S : Type 0} → Outcome Bool × S → Outcome (Option ℤ) × S
caught r =
    recover (follow r (λ ended. pure (code_of ended)))
      (λ e. branch (is_auth_error e) (pure (some exit_auth)) (throw e))

module _ {S : Type 0} where
  caught-auth : (r : Outcome Bool × S) → ((caught r).0 ≡ ok (some exit_auth)) ↔ IsAuthFailure r.0
  caught-auth (ok true, s) = (λ e. cc, λ h. absurd h)
  caught-auth (ok false, s) = (λ e. cc, λ h. absurd h)
  caught-auth (raised x, s) = elim (Bool-cases (is_auth_error x)) [
    | inl e ↦ rw e (λ _. refl, λ _. refl)
    | inr e ↦ rw e (λ h. cc, λ h. cc)
  ]

  caught-config : (r : Outcome Bool × S) → (caught r).0 ≢ ok (some exit_config)
  caught-config (ok true, s) = λ e. cc
  caught-config (ok false, s) = λ e. cc
  caught-config (raised x, s) = elim (Bool-cases (is_auth_error x)) [
    | inl e ↦ rw e (λ h. cc)
    | inr e ↦ rw e (λ h. cc)
  ]

module _ (H : Host) (T : Threads H.State) (fuel : ℕ) (command : Text) (s : H.State) where
  start_with-config :
      (o : Outcome Config)
      → ((start_with H T fuel command o s).0 ≡ ok (some exit_config)) ↔ IsRejected o
  unfolding start_with exit_of
  start_with-config (raised x) = elim (Bool-cases (is_config_error x)) [
    | inl e ↦ rw e (λ _. refl, λ _. refl)
    | inr e ↦ rw e (λ h. cc, λ h. cc)
  ]
  start_with-config (ok config) = elim (Bool-cases (same command (codes "check"))) [
    | inl e ↦ rw e (λ h. cc, λ h. absurd h)
    | inr e ↦
        rw e (λ h. absurd (caught-config (run_command H T fuel config command s) h), λ h. absurd h)
  ]

  start_with-auth :
      (o : Outcome Config)
      → ((start_with H T fuel command o s).0 ≡ ok (some exit_auth))
        ↔ StopsAtGrant
            (λ config. run_command H T fuel config command)
            (same command (codes "check"))
            s
            o
  unfolding start_with exit_of
  start_with-auth (raised x) = elim (Bool-cases (is_config_error x)) [
    | inl e ↦ rw e (λ h. cc, λ h. absurd h)
    | inr e ↦ rw e (λ h. cc, λ h. absurd h)
  ]
  start_with-auth (ok config) = elim (Bool-cases (same command (codes "check"))) [
    | inl e ↦ rw e (λ h. cc, λ h. cc)
    | inr e ↦
        let spec = caught-auth (run_command H T fuel config command s) in
        rw e (λ h. (refl, spec.0 h), λ h. spec.1 h.1)
  ]

  module _ (μ : H.State → ℕ) (stops : StopsInTheEnd H μ) (config : Config)
      (installed : (T.install_handlers s).0 ≡ ok tt)
      (enough : μ (T.install_handlers s).1 < fuel) where
    batch_loop_ends : (batch_loop H T fuel config s).0 ≡ ok true
    unfolding batch_loop
    batch_loop_ends =
        rw (run-ok (T.install_handlers s) installed)
          (run_batch_loop-stops H config μ stops fuel (T.install_handlers s).1 enough)

    start_with-batch_loop :
        (start_with H T fuel (codes "batch-loop") (ok config) s).0 ≡ ok (some (pos 0))
    unfolding start_with exit_of run_command same
    start_with-batch_loop = rw (run-ok (batch_loop H T fuel config s) batch_loop_ends) refl

module _ (H : Host) (T : Threads H.State) (fuel : ℕ) (py : Python) (args : Args) (is_file : Bool)
    (loaded : Outcome Value) (s : H.State) where
  -- The exit codes tell the failures apart, for every command, machine and file: `main` ends with 2
  -- exactly where the configuration is rejected by a `ConfigError`, and with 3 exactly where the
  -- configuration is read, the command is not `check`, and it raises `RcloneAuthError`.
  pub main-exit_codes :
      (((main H T fuel py args is_file loaded s).0 ≡ ok (some exit_config))
        ↔ IsRejected (load_config py args.config is_file loaded))
      × (((main H T fuel py args is_file loaded s).0 ≡ ok (some exit_auth))
          ↔ StopsAtGrant
              (λ config. run_command H T fuel config args.command)
              (same args.command (codes "check"))
              s
              (load_config py args.config is_file loaded))
  unfolding main
  main-exit_codes = (
    start_with-config H T fuel args.command s (load_config py args.config is_file loaded),
    start_with-auth H T fuel args.command s (load_config py args.config is_file loaded),
  )

  -- `batch-loop` exits with 0, never with the code of a dead grant or a traceback, whatever gpg,
  -- rclone and the file system do: if the configuration is read, the signal handlers can be
  -- installed, the stop event answers that it is unset at most `μ` times more after that, asking it
  -- and waiting for it never raise, and more rounds of fuel than that are given.
  pub main-batch_loop :
      (μ : H.State → ℕ)
      → StopsInTheEnd H μ
      → (config : Config) → load_config py args.config is_file loaded ≡ ok config
      → args.command ≡ codes "batch-loop"
      → (T.install_handlers s).0 ≡ ok tt
      → μ (T.install_handlers s).1 < fuel
      → (main H T fuel py args is_file loaded s).0 ≡ ok (some (pos 0))
  unfolding main
  main-batch_loop μ stops config read command installed enough =
      rw (read, command)
        (start_with-batch_loop H T fuel args.command s μ stops config installed enough)
