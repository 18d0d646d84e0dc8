-- ===== src/Command.antt =====
-- videobackup/main.py: the commands and their exit codes. `argparse` gives the arguments; the loops
-- are on fuel.
pub mod Exits
use videobackup.Base.{
  ℕ, Bool, true, false, Option, none, some, ℤ, pos, Text, codes, same, if◌then◌else◌,
}
use videobackup.Base.Effects.{
  M, pure, throw, catch, branch, ◌>>=◌, ◌>>◌, Exn, config_error, Outcome, ok, raised,
}
use videobackup.Base.Values.{Value}
use videobackup.Config.{Config}
use videobackup.Config.Load.{Python, load_config}
use videobackup.Host.{Host}
use videobackup.Drive.{prune}
use videobackup.Main.{is_auth_error, run_batch, run_batch_loop}
use videobackup.Recorder.Fleet.{Threads, run_forever}

abbrev pub exit_config : ℤ
exit_config = pos 2

abbrev pub exit_auth : ℤ
exit_auth = pos 3

-- What `parse_args` gives. (`verbose` sets the level of the log alone.)
pub record Args : Type 0 where
  pub config : Text
  pub command : Text

abbrev pub is_config_error : Exn → Bool
is_config_error (config_error _) = true
is_config_error _ = false

-- The exit code, where the command came to its end.
abbrev pub code_of : Bool → Option ℤ
code_of true = some (pos 0)
code_of false = none

module _ (H : Host) (T : Threads H.State) (fuel : ℕ) where
  unfoldable pub run_all : Config → M H.State Bool
  run_all config = do
    T.install_handlers
    T.start_worker (codes "encrypt")
    T.start_worker (codes "upload")
    run_forever H T fuel false config

  -- `run_batch_loop(config)`, without a stop event.
  unfoldable pub batch_loop : Config → M H.State Bool
  batch_loop config = do T.install_handlers; run_batch_loop H fuel config

  -- The `try` block; whether the command came to its end.
  unfoldable pub run_command : Config → Text → M H.State Bool
  run_command config command =
      branch (same command (codes "record")) (run_forever H T fuel true config) (
        branch (same command (codes "batch")) (do run_batch H config; pure true)
          (branch (same command (codes "batch-loop")) (batch_loop config) (
            branch (same command (codes "prune")) (do deleted ← prune H config (pos 0); pure true)
              (branch (same command (codes "run")) (run_all config) (pure true)))))

  unfoldable pub exit_of : Config → Text → M H.State (Option ℤ)
  exit_of config command =
      catch (do ended ← run_command config command; pure (code_of ended))
        (λ e. branch (is_auth_error e) (pure (some exit_auth)) (throw e))

  unfoldable pub start_with : Text → Outcome Config → M H.State (Option ℤ)
  start_with command (raised e) = branch (is_config_error e) (pure (some exit_config)) (throw e)
  start_with command (ok config) =
      branch (same command (codes "check")) (pure (some (pos 0))) (exit_of config command)

  -- From whether the configuration is a file, and what `yaml.safe_load` gives of it. `none` says that
  -- the fuel ran out.
  unfoldable pub main : Python → Args → Bool → Outcome Value → M H.State (Option ℤ)
  main py args is_file loaded = start_with args.command (load_config py args.config is_file loaded)
