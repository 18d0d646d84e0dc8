-- ===== src/Config/Load.antt =====
-- videobackup/config.py: `_as_bool`, `_require`, `_parse_cameras` and `load_config`, from what
-- `yaml.safe_load` gives; a mapping is read at its text keys.
use videobackup.Base.{ℕ, ◌+◌, Bool, true, false, not, List, [], ◌∷◌, ◌++◌, Option, none, some}
use videobackup.Base.{ℤ, pos, ltb_ℤ, leb_ℤ, any_of, Text, codes, is_among, if◌then◌else◌}
use videobackup.Base.Effects.{Exn, type_error, config_error, is_value_error, Outcome, ok, raised}
use videobackup.Base.Results.{◌>>=◌, ◌>>◌, reject_if, recover_pure}
use videobackup.Base.Values.{
  Value, null, boolean, int, text, list, dict, Items, nil, cons, Fields, end, get_field,
  get_default, is_truthy, to_int, strip, lower, decimal,
}
use videobackup.Config.{Camera, Config}

-- What Python does with a value: `str`, `repr`, `==`, `Path(s).expanduser()` as text, and the text
-- of an exception.
pub record Python : Type 0 where
  pub str : Value → Text
  pub repr : Value → Text
  pub equal : Value → Value → Bool
  pub expanduser : Text → Outcome Text
  pub message : Exn → Text

-- `repr` of a key, which has no quote in it.
abbrev pub quoted : Text → Text
quoted key = b'\'' ∷ (key ++ codes "'")

unfoldable pub as_bool : Value → Text → Outcome Bool
as_bool (boolean b) key = ok b
as_bool (text s) key =
    let low = lower (strip s) in
    if is_among low (codes "true" ∷ codes "yes" ∷ codes "1" ∷ codes "on" ∷ [])
    then ok true
    else if is_among low (codes "false" ∷ codes "no" ∷ codes "0" ∷ codes "off" ∷ [])
    then ok false
    else raised (config_error (quoted key ++ codes " must be a boolean (true/false)"))
as_bool _ key = raised (config_error (quoted key ++ codes " must be a boolean (true/false)"))

-- `value in (None, "")`
abbrev pub is_blank : Value → Bool
is_blank null = true
is_blank (text []) = true
is_blank _ = false

unfoldable pub require_found : Text → Option Value → Outcome Value
require_found key none = raised (config_error (codes "Missing required config key: " ++ quoted key))
require_found key (some v) =
    if is_blank v
    then raised (config_error (codes "Missing required config key: " ++ quoted key))
    else ok v

unfoldable pub require : Fields → Text → Outcome Value
require settings key = require_found key (get_field key settings)

-- Whether `name in seen` can hash the name.
abbrev pub is_hashable : Value → Bool
is_hashable (list vs) = false
is_hashable (dict d) = false
is_hashable _ = true

-- `entry.get("url") or entry.get("rtsp_url")`
abbrev pub url_of : Fields → Value
url_of entry =
    let url = get_default (codes "url") null entry in
    if is_truthy url then url else get_default (codes "rtsp_url") null entry

abbrev pub camera_at : ℕ → Text
camera_at i = codes "cameras[" ++ (decimal (pos i) ++ codes "]")

module _ (py : Python) where
  -- One round of the loop: the name, as it is added to `seen`, and the camera.
  unfoldable pub parse_camera : ℕ → List Value → Value → Outcome (Value × Camera)
  parse_camera i seen (dict entry) = do
    let name = get_default (codes "name") null entry
    let url = url_of entry
    reject_if (not (is_truthy name)) (config_error (camera_at i ++ codes " missing 'name'"))
    reject_if (not (is_truthy url))
        (config_error (codes "camera " ++ (py.repr name ++ codes " missing 'url'")))
    reject_if (not (is_hashable name)) type_error
    reject_if (any_of (py.equal name) seen)
        (config_error (codes "duplicate camera name: " ++ py.repr name))
    ok (name, record { name = py.str name; url = py.str url })
  parse_camera i seen _ = raised (config_error (camera_at i ++ codes " must be a mapping"))

  unfoldable pub parse_entries : ℕ → List Value → Items → Outcome (List Camera)
  parse_entries i seen nil = ok []
  parse_entries i seen (cons v vs) = do
    one ← parse_camera i seen v
    rest ← parse_entries (i + 1) (one.0 ∷ seen) vs
    ok (one.1 ∷ rest)

  unfoldable pub parse_cameras : Value → Outcome (List Camera)
  parse_cameras (list (cons v vs)) = parse_entries 0 [] (cons v vs)
  parse_cameras _ = raised (config_error (codes "'cameras' must be a non-empty list"))

-- The numeric settings.
pub record Numbers : Type 0 where
  pub max_drive_bytes : ℤ
  pub segment_seconds : ℤ
  pub max_age_days : ℤ
  pub min_free_bytes : ℤ
  pub batch_interval_seconds : ℤ
  pub encrypt_interval_seconds : ℤ
  pub upload_transfers : ℤ
  pub upload_tpslimit : ℤ
  pub upload_max_bytes : ℤ
  pub max_spool_bytes : ℤ

-- `int(settings.get(key, default))`
abbrev pub number : Fields → Text → ℤ → Outcome ℤ
number settings key default = to_int (get_default key (int default) settings)

unfoldable pub read_numbers : Fields → Outcome Numbers
read_numbers settings = do
  max_drive ← require settings (codes "max_drive_bytes")
  max_drive_bytes ← to_int max_drive
  segment_seconds ← number settings (codes "segment_seconds") (pos 300)
  max_age_days ← number settings (codes "max_age_days") (pos 0)
  min_free_bytes ← number settings (codes "min_free_bytes") (pos 0)
  batch_interval_seconds ← number settings (codes "batch_interval_seconds") (pos 300)
  encrypt_interval_seconds ← number settings (codes "encrypt_interval_seconds") (pos 20)
  upload_transfers ← number settings (codes "upload_transfers") (pos 4)
  upload_tpslimit ← number settings (codes "upload_tpslimit") (pos 0)
  upload_max_bytes ← number settings (codes "upload_max_bytes") (pos 0)
  max_spool_bytes ← number settings (codes "max_spool_bytes") (pos 0)
  ok (record {
    max_drive_bytes = max_drive_bytes;
    segment_seconds = segment_seconds;
    max_age_days = max_age_days;
    min_free_bytes = min_free_bytes;
    batch_interval_seconds = batch_interval_seconds;
    encrypt_interval_seconds = encrypt_interval_seconds;
    upload_transfers = upload_transfers;
    upload_tpslimit = upload_tpslimit;
    upload_max_bytes = upload_max_bytes;
    max_spool_bytes = max_spool_bytes;
  })

-- `except (TypeError, ValueError)`
abbrev pub is_numeric_error : Exn → Bool
is_numeric_error type_error = true
is_numeric_error e = is_value_error e

abbrev pub not_positive : ℤ → Text → Outcome (Unit {0})
not_positive z key =
    reject_if (leb_ℤ z (pos 0)) (config_error (quoted key ++ codes " must be positive"))

abbrev pub negative : ℤ → Text → Outcome (Unit {0})
negative z key = reject_if (ltb_ℤ z (pos 0)) (config_error (quoted key ++ codes " must be >= 0"))

unfoldable pub check_numbers : Numbers → Outcome Numbers
check_numbers n = do
  not_positive n.max_drive_bytes (codes "max_drive_bytes")
  not_positive n.segment_seconds (codes "segment_seconds")
  negative n.max_age_days (codes "max_age_days")
  negative n.min_free_bytes (codes "min_free_bytes")
  not_positive n.encrypt_interval_seconds (codes "encrypt_interval_seconds")
  not_positive n.upload_transfers (codes "upload_transfers")
  negative n.upload_tpslimit (codes "upload_tpslimit")
  negative n.upload_max_bytes (codes "upload_max_bytes")
  negative n.max_spool_bytes (codes "max_spool_bytes")
  ok n

module _ (py : Python) where
  -- The block that names each failure of a number.
  unfoldable pub parse_numbers : Fields → Outcome Numbers
  parse_numbers settings = recover_pure (read_numbers settings) (λ e. raised (
      if is_numeric_error e
      then config_error (codes "Numeric config value invalid: " ++ py.message e)
      else e))

  -- `str(_require(settings, key))`
  unfoldable pub required_text : Fields → Text → Outcome Text
  required_text settings key = do v ← require settings key; ok (py.str v)

  unfoldable pub build_config : Fields → List Camera → Numbers → Bool → Outcome Config
  build_config settings cameras n use_trash = do
    gpg_recipient ← required_text settings (codes "gpg_recipient")
    rclone_remote ← required_text settings (codes "rclone_remote")
    drive_folder ← required_text settings (codes "drive_folder")
    spool ← required_text settings (codes "local_spool")
    local_spool ← py.expanduser spool
    ok (record {
      udm_host = py.str (get_default (codes "udm_host") (text []) settings);
      cameras = cameras;
      gpg_recipient = gpg_recipient;
      rclone_remote = rclone_remote;
      drive_folder = drive_folder;
      max_drive_bytes = n.max_drive_bytes;
      local_spool = local_spool;
      segment_seconds = n.segment_seconds;
      max_age_days = n.max_age_days;
      min_free_bytes = n.min_free_bytes;
      batch_interval_seconds = n.batch_interval_seconds;
      encrypt_interval_seconds = n.encrypt_interval_seconds;
      upload_transfers = n.upload_transfers;
      upload_tpslimit = n.upload_tpslimit;
      upload_max_bytes = n.upload_max_bytes;
      max_spool_bytes = n.max_spool_bytes;
      use_trash = use_trash;
    })

  unfoldable pub read_config : Fields → Outcome Config
  read_config settings = do
    raw ← require settings (codes "cameras")
    cameras ← parse_cameras py raw
    found ← parse_numbers settings
    n ← check_numbers found
    use_trash ←
        as_bool (get_default (codes "use_trash") (boolean false) settings) (codes "use_trash")
    build_config settings cameras n use_trash

  -- `yaml.safe_load(fh) or {}`, which is to be a mapping.
  unfoldable pub as_mapping : Value → Outcome Fields
  as_mapping v =
      if is_truthy v
      then (elim v [
        | dict d ↦ ok d
        | _ ↦ raised (config_error (codes "Config root must be a mapping"))
      ])
      else ok end

  -- From whether the file is there and what reading it gives.
  unfoldable pub load_config : Text → Bool → Outcome Value → Outcome Config
  load_config path is_file loaded = do
    reject_if (not is_file) (config_error (codes "Config file not found: " ++ path))
    value ← loaded
    settings ← as_mapping value
    read_config settings
