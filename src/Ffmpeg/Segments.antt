-- ===== src/Ffmpeg/Segments.antt =====
-- What ffmpeg is told to write by videobackup/recorder.py is what videobackup/encrypt.py looks for.
use videobackup.Base.{◌≡◌, refl, Bool, true, false, List, [], ◌∷◌, ◌++◌, arith, inl, inr}
use videobackup.Base.{any_of, Bool-cases, Text, codes, is_among, if◌then◌else◌, ℤ}
use videobackup.Config.{Camera, join, raw_segment_patterns}
use videobackup.Host.Memory.{glob_match, some_tail}
use videobackup.Ffmpeg.{ffmpeg_cmd, input_opts, segment_pattern, container, scheme, http_schemes}

-- A star takes any text in front of one that passes.
some_tail-append : (p : Text → Bool) (stem s : Text) → p s ≡ true → some_tail p (stem ++ s) ≡ true
some_tail-append p [] [] h = h
some_tail-append p [] (c ∷ s) h = rw h refl
some_tail-append p (c ∷ stem) s h = ground (arith, some_tail-append p stem s h)

-- `*.ext` matches each name with that extension.
extension :
    (stem ext : Text) → glob_match ext ext ≡ true → glob_match (b'*' ∷ ext) (stem ++ ext) ≡ true
unfolding glob_match
extension stem ext h = some_tail-append (glob_match ext) stem ext h

-- A segment's extension, with its dot.
abbrev pub extension_of : Camera → Text
extension_of camera = codes "." ++ (container camera).1

found-extension :
    (camera : Camera) (stem : Text)
    → any_of (λ p. glob_match p (stem ++ extension_of camera)) raw_segment_patterns ≡ true
unfolding container
found-extension camera stem = elim (Bool-cases (is_among (scheme camera) http_schemes)) [
  | inl e ↦ rw e (found_second _ (extension stem (codes ".ts") (unfold glob_match in refl)))
  | inr e ↦ rw e (found_first _ (extension stem (codes ".mp4") (unfold glob_match in refl)))
]
  where
    found_first : {a : Bool} (b : Bool) → a ≡ true → (if a then true else b) ≡ true
    found_first b h = rw h refl

    found_second :
        {b : Bool} (a : Bool) → b ≡ true → (if a then true else if b then true else false) ≡ true
    found_second a h = ground (arith, h)

abbrev pub last_of : List Text → Text
last_of [] = []
last_of (s ∷ []) = s
last_of (s ∷ t ∷ ts) = last_of (t ∷ ts)

-- The last argument of the ffmpeg command is a path in the raw spool that ends in the camera's
-- extension, and each name with that extension matches a pattern that the encryption looks for.
pub ffmpeg_cmd-found :
    (camera : Camera) (out_dir : Text) (segment_seconds : ℤ)
    → (last_of (ffmpeg_cmd camera out_dir segment_seconds)
        ≡ join out_dir (camera.name ++ (codes "_%Y%m%d_%H%M%S" ++ extension_of camera)))
      × ((stem : Text)
          → any_of (λ p. glob_match p (stem ++ extension_of camera)) raw_segment_patterns ≡ true)
unfolding ffmpeg_cmd segment_pattern input_opts
ffmpeg_cmd-found camera out_dir segment_seconds = (
  elim (Bool-cases (is_among (scheme camera) http_schemes)) [
    | inl e ↦ rw e refl
    | inr e ↦ rw e refl
  ],
  found-extension camera,
)
