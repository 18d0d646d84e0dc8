-- ===== src/Drive.antt =====
-- videobackup/retention.py: the remote folder through rclone. `json.loads` and
-- `datetime.fromisoformat` are the host's.
pub mod Lines
pub mod Quiet
pub mod Stamps
pub mod Room
pub mod Keeps
use videobackup.Base.{ℕ, zero, ◌-◌, ◌==◌, ◌||◌, Bool, true, false, List, [], ◌∷◌, ◌++◌, map}
use videobackup.Base.{
  Option, none, some, length, drop, ℤ, pos, ltb_ℤ, Text, codes, ends_with, if◌then◌else◌,
}
use videobackup.Base.Effects.{M, pure, throw, lift, finally, catch, branch, ◌>>=◌}
use videobackup.Base.Effects.{
  Exn, Outcome, ok, raised, runtime_error, auth_error, type_error, is_value_error, is_key_error,
}
use videobackup.Base.Values.{
  Value, int, text, list, dict, Items, nil, cons, Fields, end, field, item, get_default, to_int,
  strip,
}
use videobackup.Config.{Config, remote_path}
use videobackup.Host.{Host, Completed}
use videobackup.Rclone.{classify, auth_hint}
use videobackup.Retention.{RemoteFile, select_for_deletion, effective_prune_cap, total_size}

-- `z == 0`
abbrev pub is_zero : ℤ → Bool
is_zero (pos zero) = true
is_zero _ = false

-- `text.replace("Z", "+00:00")`
unfoldable pub expand_zulu : Text → Text
expand_zulu [] = []
expand_zulu (c ∷ s) = if c == b'Z' then codes "+00:00" ++ expand_zulu s else c ∷ expand_zulu s

-- `text.partition(".")` where there is a dot: what stands before the first one, and behind it.
unfoldable pub split_at_dot : Text → Option (Text × Text)
split_at_dot [] = none
split_at_dot (c ∷ s) =
    let rest : Option (Text × Text) = elim (split_at_dot s) [
      | none ↦ none
      | some (head, tail) ↦ some (c ∷ head, tail)
    ] in
    if c == b'.' then some ([], s) else rest

-- `tail[-6:]`
abbrev pub last_six : Text → Text
last_six s = drop (length s - 6) s

-- The offset that is put behind the trimmed time.
unfoldable pub kept_offset : Text → Text
kept_offset tail = if ends_with tail (codes "+00:00") then last_six tail else codes "+00:00"

abbrev pub delete_args : Text → Text → Bool → List Text
delete_args remote files_from use_trash =
    codes "delete"
    ∷ remote
    ∷ codes "--files-from"
    ∷ files_from
    ∷ (codes "--drive-use-trash=" ++ (if use_trash then codes "true" else codes "false"))
    ∷ []

-- `"\n".join(names) + "\n"`, for a name at least.
unfoldable pub join_lines : List Text → Text
join_lines [] = []
join_lines (name ∷ names) = name ++ (10 ∷ join_lines names)

-- The elements that `for e in value` runs through.
unfoldable pub keys_of : Fields → List Value
keys_of end = []
keys_of (field k v d) = text k ∷ keys_of d

unfoldable pub items_of : Items → List Value
items_of nil = []
items_of (cons v vs) = v ∷ items_of vs

unfoldable pub elements : Value → Outcome (List Value)
elements (list vs) = ok (items_of vs)
elements (dict d) = ok (keys_of d)
elements (text s) = ok (map (λ c. text (c ∷ [])) s)
elements _ = raised type_error

-- A name or a time, which rclone writes as text.
abbrev pub as_text : Value → Outcome Text
as_text (text s) = ok s
as_text _ = raised type_error

-- `stdout or default`
abbrev pub text_or : Text → Text → Text
text_or [] default = default
text_or (c ∷ s) default = c ∷ s

-- `value["free"]`
abbrev pub free_item : Value → Outcome Value
free_item (dict d) = item (codes "free") d
free_item _ = raised type_error

module _ (H : Host) where
  unfoldable pub run_rclone : List Text → M H.State Completed
  run_rclone args = do
    found ← H.which (codes "rclone")
    branch found (H.run (codes "rclone" ∷ args))
        (throw (runtime_error (codes "rclone is not installed or not on PATH")))

  unfoldable pub report_deleted : Completed → List Text → M H.State ℕ
  report_deleted result names = pure (if is_zero result.returncode then length names else 0)

  unfoldable pub delete_remote : Config → List Text → M H.State ℕ
  delete_remote config [] = pure 0
  delete_remote config (name ∷ names) = do
    list_path ← H.write_temp (join_lines (name ∷ names))
    result ←
        finally (run_rclone (delete_args (remote_path config) list_path config.use_trash))
          (H.unlink_temp list_path)
    report_deleted result (name ∷ names)

  -- The retry without the fraction of a second, if there is one.
  unfoldable pub parse_trimmed : Option (Text × Text) → Exn → Outcome ℤ
  parse_trimmed none e = raised e
  parse_trimmed (some (head, tail)) e = H.fromisoformat (head ++ kept_offset tail)

  unfoldable pub retry_parse : Text → Outcome ℤ → Outcome ℤ
  retry_parse s (ok t) = ok t
  retry_parse s (raised e) = if is_value_error e then parse_trimmed (split_at_dot s) e else raised e

  unfoldable pub parse_mod_time : Text → Outcome ℤ
  parse_mod_time value = let s = expand_zulu value in retry_parse s (H.fromisoformat s)

  unfoldable pub entry_of : Value → M H.State RemoteFile
  entry_of (dict e) = do
    name ← lift (item (codes "Name") e)
    size ← lift (to_int (get_default (codes "Size") (int (pos 0)) e))
    stamp ← lift (item (codes "ModTime") e)
    stamp_text ← lift (as_text stamp)
    time ← lift (parse_mod_time stamp_text)
    name_text ← lift (as_text name)
    pure (record { name = name_text; size = size; mod_time = time })
  entry_of _ = throw type_error

  unfoldable pub entries_of : List Value → M H.State (List RemoteFile)
  entries_of [] = pure []
  entries_of (v ∷ vs) = do f ← entry_of v; fs ← entries_of vs; pure (f ∷ fs)

  unfoldable pub list_remote : Config → M H.State (List RemoteFile)
  list_remote config = do
    result ← run_rclone (codes "lsjson" ∷ codes "--files-only" ∷ remote_path config ∷ [])
    branch (is_zero result.returncode)
        (do
          value ← lift (H.loads (text_or result.stdout (codes "[]")))
          vs ← lift (elements value)
          entries_of vs)
        (throw (
          if (classify result.stderr).auth_expired
          then auth_error (auth_hint config.rclone_remote)
          else runtime_error (codes "rclone lsjson failed: " ++ strip result.stderr)))

  -- `int(json.loads(stdout or "{}")["free"])`
  unfoldable pub free_of : Text → M H.State ℤ
  free_of stdout = do
    value ← lift (H.loads (text_or stdout (codes "{}")))
    free ← lift (free_item value)
    lift (to_int free)

  unfoldable pub remote_about : Config → M H.State (Option ℤ)
  remote_about config = do
    result ← run_rclone (codes "about" ∷ (config.rclone_remote ++ codes ":") ∷ codes "--json" ∷ [])
    branch (is_zero result.returncode)
        (catch (do free ← free_of result.stdout; pure (some free))
          (λ e. branch (is_value_error e || is_key_error e) (pure none) (throw e)))
        (pure none)

  unfoldable pub prune : Config → ℤ → M H.State ℕ
  prune config reserve_bytes = do
    files ← list_remote config
    now ← H.now
    account_free ← branch (ltb_ℤ (pos 0) config.min_free_bytes) (remote_about config) (pure none)
    let cap =
        effective_prune_cap config.max_drive_bytes reserve_bytes (total_size files) account_free
          config.min_free_bytes
    delete_remote config (map (λ f. f.name) (select_for_deletion files cap now config.max_age_days))
