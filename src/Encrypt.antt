-- ===== src/Encrypt.antt =====
-- videobackup/encrypt.py: the encryption of closed segments by gpg.
pub mod Safe
pub mod Steps
pub mod Safety
pub mod Keeps
pub mod Sorted
pub mod Finish
pub mod Open
use videobackup.Base.{ℕ, ◌+◌, ◌==◌, ltb, Bool, true, false, List, [], ◌∷◌, ◌++◌}
use videobackup.Base.{ℤ, pos, ◌-ℤ◌, leb_ℤ, Text, codes, if◌then◌else◌}
use videobackup.Base.Effects.{
  M, pure, throw, catch, branch, ◌>>=◌, ◌>>◌, Exn, file_not_found, runtime_error, is_runtime_error,
}
use videobackup.Base.Values.{decimal, strip}
use videobackup.Config.{Config, join, spool_raw, spool_encrypted, raw_segment_patterns}
use videobackup.Drive.{is_zero}
use videobackup.Host.{Host, Completed}

-- 15 seconds.
abbrev pub settle_margin : ℤ
settle_margin = pos 15000000

-- `a <= b`, for texts.
unfoldable pub le_text : Text → Text → Bool
le_text [] b = true
le_text (x ∷ a) [] = false
le_text (x ∷ a) (y ∷ b) =
    let rest = le_text a b in if ltb x y then true else if x == y then rest else false

unfoldable pub insert_name : Text → List Text → List Text
insert_name n [] = n ∷ []
insert_name n (m ∷ ms) =
    let later = m ∷ insert_name n ms in if le_text n m then n ∷ m ∷ ms else later

-- `sorted(paths)`, of paths in one directory.
unfoldable pub sorted_names : List Text → List Text
sorted_names [] = []
sorted_names (n ∷ ns) = insert_name n (sorted_names ns)

abbrev pub is_file_not_found : Exn → Bool
is_file_not_found file_not_found = true
is_file_not_found _ = false

-- `name + ".gpg"`, and the file that gpg writes first.
abbrev pub encrypted_name : Text → Text
encrypted_name name = name ++ codes ".gpg"

abbrev pub part_name : Text → Text
part_name dest = dest ++ codes ".part"

abbrev pub gpg_args : Text → Text → Text → List Text
gpg_args recipient tmp src =
    codes "gpg"
    ∷ codes "--batch"
    ∷ codes "--yes"
    ∷ codes "--no-tty"
    ∷ codes "--trust-model"
    ∷ codes "always"
    ∷ codes "--encrypt"
    ∷ codes "--recipient"
    ∷ recipient
    ∷ codes "--output"
    ∷ tmp
    ∷ src
    ∷ []

module _ (H : Host) where
  -- `path.unlink(missing_ok=True)`
  unfoldable pub unlink_missing_ok : Text → Text → M H.State (Unit {0})
  unlink_missing_ok directory name =
      catch (H.unlink directory name) (λ e. branch (is_file_not_found e) (pure tt) (throw e))

  -- A segment whose `stat` finds nothing counts as open.
  unfoldable pub is_closed : Text → Text → ℤ → M H.State Bool
  is_closed directory name now =
      catch (do st ← H.stat directory name; pure (leb_ℤ settle_margin (now -ℤ st.mtime)))
        (λ e. branch (is_file_not_found e) (pure false) (throw e))

  unfoldable pub gpg_failed : Text → Completed → Exn
  gpg_failed name result = runtime_error (
      codes "gpg failed for "
      ++ (name
          ++ (codes " (rc="
              ++ (decimal result.returncode ++ (codes "): " ++ strip result.stderr)))))

  unfoldable pub encrypt_file : Text → Text → Text → Text → Text → M H.State (Unit {0})
  encrypt_file src_dir name dest_dir dest recipient = do
    let tmp = part_name dest
    result ← H.run (gpg_args recipient (join dest_dir tmp) (join src_dir name))
    branch (is_zero result.returncode) (H.replace dest_dir tmp dest)
        do unlink_missing_ok dest_dir tmp; throw (gpg_failed name result)

  -- Whether gpg succeeded; a `RuntimeError` is logged.
  unfoldable pub encrypt_or_log : Text → Text → Text → Text → Text → M H.State Bool
  encrypt_or_log src_dir name dest_dir dest recipient =
      catch (do encrypt_file src_dir name dest_dir dest recipient; pure true)
        (λ e. branch (is_runtime_error e) (pure false) (throw e))

  -- One round of the loop over a segment that is closed: whether it was encrypted.
  unfoldable pub encrypt_closed : Config → Text → M H.State Bool
  encrypt_closed config name = do
    there ← H.exists (spool_encrypted config) (encrypted_name name)
    branch there (do unlink_missing_ok (spool_raw config) name; pure false)
        (do
          done ←
              encrypt_or_log (spool_raw config) name (spool_encrypted config) (encrypted_name name)
                config.gpg_recipient
          branch done (do unlink_missing_ok (spool_raw config) name; pure true) (pure false))

  unfoldable pub encrypt_segment : Config → ℤ → Text → M H.State Bool
  encrypt_segment config now name = do
    closed ← is_closed (spool_raw config) name now
    branch closed (encrypt_closed config name) (pure false)

  -- The loop, after `count` files.
  unfoldable pub encrypt_segments : Config → ℤ → List Text → ℕ → M H.State ℕ
  encrypt_segments config now [] count = pure count
  encrypt_segments config now (name ∷ names) count = do
    done ← encrypt_segment config now name
    encrypt_segments config now names (if done then count + 1 else count)

  unfoldable pub glob_all : Text → List Text → M H.State (List Text)
  glob_all directory [] = pure []
  glob_all directory (pattern ∷ patterns) = do
    found ← H.glob directory pattern
    rest ← glob_all directory patterns
    pure (found ++ rest)

  unfoldable pub encrypt_pending : Config → M H.State ℕ
  encrypt_pending config = do
    found ← H.which (codes "gpg")
    branch found
        (do
          now ← H.now
          names ← glob_all (spool_raw config) raw_segment_patterns
          encrypt_segments config now (sorted_names names) 0)
        (throw (runtime_error (codes "gpg is not installed or not on PATH")))
