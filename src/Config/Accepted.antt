-- ===== src/Config/Accepted.antt =====
-- What holds of a configuration that `load_config` of videobackup/config.py accepts.
use videobackup.Base.{◌<◌, ◌≡◌, subst, Bool, false, not, List, [], ◌∷◌, arith}
use videobackup.Base.{ℤ, pos, ◌≤ℤ◌, ◌<ℤ◌, ltb_ℤ, leb_ℤ, max_ℤ, length, Text, codes}
use videobackup.Base.Effects.{Outcome, ok}
use videobackup.Base.Results.{Returns, Returns-bind, Returns-any, Returns-reject_if}
use videobackup.Base.Values.{
  Value, null, boolean, int, real, text, list, dict, nil, cons, Fields, get_default,
}
use videobackup.Config.{Camera, Config, upload_slice_bytes}
use videobackup.Config.Load.{
  Python, Numbers, check_numbers, parse_numbers, build_config, required_text, read_config,
  as_mapping, load_config, parse_camera, parse_entries, parse_cameras, as_bool, require,
}

-- The bounds of the numeric settings.
abbrev pub IsBounded : Numbers → Type 0
IsBounded n =
    (pos 0 <ℤ n.max_drive_bytes)
    × (pos 0 <ℤ n.segment_seconds)
    × (pos 0 ≤ℤ n.max_age_days)
    × (pos 0 ≤ℤ n.min_free_bytes)
    × (pos 0 <ℤ n.encrypt_interval_seconds)
    × (pos 0 <ℤ n.upload_transfers)
    × (pos 0 ≤ℤ n.upload_tpslimit)
    × (pos 0 ≤ℤ n.upload_max_bytes)
    × (pos 0 ≤ℤ n.max_spool_bytes)

abbrev pub numbers_of : Config → Numbers
numbers_of c = record {
  max_drive_bytes = c.max_drive_bytes;
  segment_seconds = c.segment_seconds;
  max_age_days = c.max_age_days;
  min_free_bytes = c.min_free_bytes;
  batch_interval_seconds = c.batch_interval_seconds;
  encrypt_interval_seconds = c.encrypt_interval_seconds;
  upload_transfers = c.upload_transfers;
  upload_tpslimit = c.upload_tpslimit;
  upload_max_bytes = c.upload_max_bytes;
  max_spool_bytes = c.max_spool_bytes;
}

above : (a : ℤ) → leb_ℤ a (pos 0) ≡ false → pos 0 <ℤ a
above a h = ground arith

at_least : (a : ℤ) → ltb_ℤ a (pos 0) ≡ false → pos 0 ≤ℤ a
at_least a h = ground arith

check_numbers-Returns : (n : Numbers) → Returns IsBounded (check_numbers n)
unfolding check_numbers
check_numbers-Returns n = Returns-reject_if IsBounded (leb_ℤ n.max_drive_bytes (pos 0)) _ _ λ a.
    Returns-reject_if IsBounded (leb_ℤ n.segment_seconds (pos 0)) _ _ λ b.
      Returns-reject_if IsBounded (ltb_ℤ n.max_age_days (pos 0)) _ _ λ c.
        Returns-reject_if IsBounded (ltb_ℤ n.min_free_bytes (pos 0)) _ _ λ d.
          Returns-reject_if IsBounded (leb_ℤ n.encrypt_interval_seconds (pos 0)) _ _ λ e.
            Returns-reject_if IsBounded (leb_ℤ n.upload_transfers (pos 0)) _ _ λ f.
              Returns-reject_if IsBounded (ltb_ℤ n.upload_tpslimit (pos 0)) _ _ λ g.
                Returns-reject_if IsBounded (ltb_ℤ n.upload_max_bytes (pos 0)) _ _ λ h.
                  Returns-reject_if IsBounded (ltb_ℤ n.max_spool_bytes (pos 0)) _ _ λ i. (
                    above n.max_drive_bytes a,
                    above n.segment_seconds b,
                    at_least n.max_age_days c,
                    at_least n.min_free_bytes d,
                    above n.encrypt_interval_seconds e,
                    above n.upload_transfers f,
                    at_least n.upload_tpslimit g,
                    at_least n.upload_max_bytes h,
                    at_least n.max_spool_bytes i,
                  )

module _ (py : Python) where
  -- The bounds, and a camera at least.
  abbrev pub IsAccepted : Config → Type 0
  IsAccepted c = IsBounded (numbers_of c) × (pos 0 <ℤ upload_slice_bytes c) × (0 < length c.cameras)

  slice_positive : (c : Config) → pos 0 <ℤ upload_slice_bytes c
  unfolding upload_slice_bytes max_ℤ
  slice_positive c = ground arith

  parse_cameras-Returns : (raw : Value) → Returns (λ cs. 0 < length cs) (parse_cameras py raw)
  unfolding parse_cameras parse_entries
  parse_cameras-Returns (list (cons v vs)) =
      Returns-any _ (parse_camera py 0 [] v) _
        λ one. Returns-any _ (parse_entries py 1 (one.0 ∷ []) vs) _ λ rest. omega arith
  parse_cameras-Returns (list nil) = tt
  parse_cameras-Returns null = tt
  parse_cameras-Returns (boolean b) = tt
  parse_cameras-Returns (int z) = tt
  parse_cameras-Returns (real r) = tt
  parse_cameras-Returns (text s) = tt
  parse_cameras-Returns (dict d) = tt

  build_config-Returns :
      (settings : Fields) (cameras : List Camera) (n : Numbers) (use_trash : Bool)
      → 0 < length cameras
      → IsBounded n
      → Returns IsAccepted (build_config py settings cameras n use_trash)
  unfolding build_config
  build_config-Returns settings cameras n use_trash h k =
      Returns-any _ (required_text py settings (codes "gpg_recipient")) _ λ gpg.
        Returns-any _ (required_text py settings (codes "rclone_remote")) _ λ remote.
          Returns-any _ (required_text py settings (codes "drive_folder")) _ λ folder.
            Returns-any _ (required_text py settings (codes "local_spool")) _
              λ spool. Returns-any _ (py.expanduser spool) _ λ path. (k, slice_positive _, h)

  read_config-Returns : (settings : Fields) → Returns IsAccepted (read_config py settings)
  unfolding read_config
  read_config-Returns settings = Returns-any _ (require settings (codes "cameras")) _ λ raw.
      Returns-bind _ _ (parse_cameras py raw) _ (parse_cameras-Returns raw) λ cameras h.
        Returns-any _ (parse_numbers py settings) _ λ found.
          Returns-bind _ _ (check_numbers found) _ (check_numbers-Returns found) λ n k.
            Returns-any _
              (as_bool (get_default (codes "use_trash") (boolean false) settings)
                (codes "use_trash"))
              _ λ b. build_config-Returns settings cameras n b h k

  -- A configuration that `load_config` accepts has every number that it checks within its bounds, a positive
  -- upload slice and at least one camera, whatever the file holds.
  pub load_config-IsAccepted :
      (path : Text) (is_file : Bool) (loaded : Outcome Value) (c : Config)
      → load_config py path is_file loaded ≡ ok c
      → IsAccepted c
  unfolding load_config
  load_config-IsAccepted path is_file loaded c h = subst (Returns IsAccepted) h (
      Returns-reject_if _ (not is_file) _ _ λ _.
        Returns-any _ loaded _
          λ value. Returns-any _ (as_mapping py value) _ λ settings. read_config-Returns settings)
