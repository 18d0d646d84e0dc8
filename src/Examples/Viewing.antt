-- ===== src/Examples/Viewing.antt =====
-- The window of videobackup/viewer.py: a clip that is opened and played, and one that is left.
use videobackup.Base.{is_among, ◌≡◌, refl, true, false, [], ◌∷◌, ◌++◌, none, some, inl, Text, codes}
use videobackup.Base.Effects.{ok}
use videobackup.Config.{Camera}
use videobackup.Encrypt.{encrypted_name}
use videobackup.Ffmpeg.Segments.{extension_of}
use videobackup.Viewer.{
  Clip, initial, opens_dialog, handle, run_viewer, file_argument, require_mpv, base_name,
  after_slash, decrypting_text, playing_text, decrypting, play_file, Screen, Env, temp_suffix,
  stem_and_suffix, split_at_last_dot, make_temp, decrypt_into, check_decrypted, post, post_result,
  load, open_dialog, discard_found, discard_tmp, ensure_player, ensure_player_from, play_with, play,
  on_close, run_callback,
}
use videobackup.Viewer.System.{clicks, calls, begins, ends, Reach, start, later}
use videobackup.Viewer.Files.{In, IsAccounted}
use videobackup.Viewer.Handlers.{IsKind}
use videobackup.Viewer.Leak.{Reach-IsAccounted, on_close-clean, on_close-left}
use videobackup.Base.{◌≤◌}
use videobackup.Viewer.Kept.{holds, present}
use videobackup.Viewer.Owned.{Reach-IsKept}
use videobackup.Viewer.Format.{temp_suffix-encrypted_name}
use videobackup.Examples.Machines.{succeeded}

abbrev env : Env
env = record {
  exists = λ src. true;
  fresh = λ suffix. ok (codes "/tmp/v0" ++ suffix);
  gpg = λ argv. ok (succeeded []);
  refuses = λ f. false;
  imports_mpv = ok tt;
  makes_player = ok tt;
  plays = λ f. ok tt;
  starts_thread = ok tt;
  pauses = ok tt;
  stops_player = ok tt;
  ends_player = ok tt;
  describe = λ exn. [];
}

kind : IsKind env
kind = record { deletes = λ f. refl; runs = λ argv. (succeeded [], refl) }

abbrev clip : Clip
clip = record { directory = codes "d"; name = codes "tv_1.ts.gpg" }

abbrev plain : Text
plain = codes "/tmp/v0.ts"

plain_named : codes "/tmp/v0" ++ temp_suffix clip.name ≡ plain
unfolding temp_suffix stem_and_suffix split_at_last_dot
plain_named = refl

abbrev clip_of : Text → Clip
clip_of path = record { directory = codes "d"; name = base_name path }

-- The window that is opened without an argument, after a clip was chosen.
abbrev begun : Screen
begun = record (initial none) { status = decrypting_text clip.name }

abbrev decrypting_one : Screen
decrypting_one = record begun { workers = decrypting clip plain ∷ []; files = plain ∷ [] }

abbrev playing_one : Screen
playing_one = record begun {
  tmp = some plain;
  player = some (record { paused = false; playing = some plain });
  files = plain ∷ [];
  status = playing_text (codes "v0.ts");
}

decrypts : Reach IsKind decrypting_one
unfolding is_among load open_dialog handle run_viewer file_argument make_temp temp_suffix
    stem_and_suffix split_at_last_dot
decrypts =
    later (later (start clip_of none) (clicks env (some clip) opens_dialog kind refl refl))
      (begins env clip plain [] [] kind refl refl refl refl)

plays : Reach IsKind playing_one
unfolding check_decrypted decrypt_into post post_result run_callback play play_with discard_tmp
    discard_found ensure_player ensure_player_from require_mpv base_name after_slash
plays =
    later (later decrypts (ends env clip plain [] [] kind refl refl))
      (calls env (play_file plain) [] kind refl refl refl)

Reach-IsAccounted_example : IsAccounted decrypting_one
Reach-IsAccounted_example = Reach-IsAccounted decrypts refl

Reach-IsKept_example : holds plain playing_one ≤ present plain playing_one.files
Reach-IsKept_example = Reach-IsKept IsKind plain plays

on_close-clean_example : (on_close env playing_one).1.files ≡ []
on_close-clean_example = on_close-clean env kind plays refl refl refl refl

on_close-left_example :
    ((on_close env decrypting_one).1.is_open ≡ false)
    × In plain (on_close env decrypting_one).1.files
on_close-left_example = on_close-left env decrypting_one plain refl (λ p. cc) (inl refl)

abbrev tuner : Camera
tuner = record { name = codes "tv"; url = codes "http://h/auto" }

temp_suffix-encrypted_name_example :
    temp_suffix (encrypted_name (codes "tv_1" ++ extension_of tuner)) ≡ extension_of tuner
temp_suffix-encrypted_name_example = temp_suffix-encrypted_name tuner (codes "tv_1") (λ p. cc)
