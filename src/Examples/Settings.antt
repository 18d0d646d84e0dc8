-- ===== src/Examples/Settings.antt =====
-- Configuration files of videobackup/config.py, accepted and refused.
use videobackup.Base.{◌≡◌, refl, true, false, [], ◌∷◌, pos, codes, same, is_among}
use videobackup.Base.Effects.{ok, raised, config_error}
use videobackup.Base.Values.{
  Value, int, text, list, dict, Items, nil, cons, end, field, get_field, decimal,
}
use videobackup.Config.{Config}
use videobackup.Config.Load.{
  Python, load_config, read_config, as_mapping, build_config, required_text, parse_numbers,
  read_numbers, check_numbers, parse_camera, parse_entries, parse_cameras, as_bool, require,
  require_found,
}
use videobackup.Config.Accepted.{IsAccepted, load_config-IsAccepted}
use videobackup.Config.Distinct.{AreDistinct, KnowsTexts, parse_cameras-AreDistinct}

abbrev pub python : Python
python = record {
  str = λ v. elim v [ text s ↦ s | int z ↦ decimal z | _ ↦ [] ];
  repr = λ v. [];
  equal = λ v w. elim v [ text s ↦ elim w [ text t ↦ same s t | _ ↦ false ] | _ ↦ false ];
  expanduser = λ s. ok s;
  message = λ e. [];
}

knows : KnowsTexts python
knows = record { str_text = λ s. refl; equal_text = λ s t. refl }

abbrev pub camera : Value → Value
camera name = dict (field (codes "name") name (field (codes "url") (text (codes "rtsp://h")) end))

abbrev pub two_cameras : Items
two_cameras = cons (camera (text (codes "a"))) (cons (camera (text (codes "b"))) nil)

abbrev pub settings : Value → Items → Value
settings max_drive_bytes cameras = dict (
    field (codes "cameras") (list cameras) (
      field (codes "max_drive_bytes") max_drive_bytes (
        field (codes "gpg_recipient") (text (codes "me")) (
          field (codes "rclone_remote") (text (codes "g")) (
            field (codes "drive_folder") (text (codes "f")) (
              field (codes "local_spool") (text (codes "s"))
                (field (codes "use_trash") (text (codes "Yes")) end)))))))

abbrev pub expected : Config
expected = record {
  udm_host = [];
  cameras =
      record { name = codes "a"; url = codes "rtsp://h" }
      ∷ record { name = codes "b"; url = codes "rtsp://h" }
      ∷ [];
  gpg_recipient = codes "me";
  rclone_remote = codes "g";
  drive_folder = codes "f";
  max_drive_bytes = pos 100;
  local_spool = codes "s";
  segment_seconds = pos 300;
  max_age_days = pos 0;
  min_free_bytes = pos 0;
  batch_interval_seconds = pos 300;
  encrypt_interval_seconds = pos 20;
  upload_transfers = pos 4;
  upload_tpslimit = pos 0;
  upload_max_bytes = pos 0;
  max_spool_bytes = pos 0;
  use_trash = true;
}

-- The number may be a text, as `int` reads it; the other settings have their defaults.
pub loaded :
    load_config python (codes "c") true (ok (settings (text (codes " 1_00 ")) two_cameras))
    ≡ ok expected
unfolding load_config read_config as_mapping build_config required_text parse_numbers read_numbers
    check_numbers parse_camera parse_entries parse_cameras as_bool require require_found get_field
    is_among same
loaded = refl

zero_refused :
    load_config python (codes "c") true (ok (settings (int (pos 0)) two_cameras))
    ≡ raised (config_error (codes "'max_drive_bytes' must be positive"))
unfolding load_config read_config as_mapping build_config required_text parse_numbers read_numbers
    check_numbers parse_camera parse_entries parse_cameras as_bool require require_found get_field
    is_among same
zero_refused = refl

-- Two cameras of one name pass where YAML read one of the names as a number.
one_twice :
    parse_cameras python (list (cons (camera (int (pos 1))) (cons (camera (text (codes "1"))) nil)))
    ≡ ok (
        record { name = codes "1"; url = codes "rtsp://h" }
        ∷ record { name = codes "1"; url = codes "rtsp://h" }
        ∷ [])
unfolding parse_camera parse_entries parse_cameras get_field is_among same decimal
one_twice = refl

load_config-IsAccepted_example : IsAccepted python expected
load_config-IsAccepted_example =
    load_config-IsAccepted python (codes "c") true
      (ok (settings (text (codes " 1_00 ")) two_cameras)) expected loaded

two_parsed : parse_cameras python (list two_cameras) ≡ ok expected.cameras
unfolding parse_camera parse_entries parse_cameras get_field is_among same
two_parsed = refl

parse_cameras-AreDistinct_example : AreDistinct expected.cameras
unfolding get_field same
parse_cameras-AreDistinct_example =
    parse_cameras-AreDistinct python knows two_cameras expected.cameras
      ((codes "a", refl), ((codes "b", refl), tt)) two_parsed
