-- ===== src/Ffmpeg.antt =====
-- videobackup/recorder.py, `_ffmpeg_cmd`: the command that records a camera; and the scheme of its
-- address, of videobackup/config.py.
pub mod Segments
use videobackup.Base.{Bool, true, false, List, [], ◌∷◌, ◌++◌, Option, none, some}
use videobackup.Base.{ℤ, is_among, starts_with, Text, codes, if◌then◌else◌}
use videobackup.Base.Values.{decimal, lower}
use videobackup.Config.{Camera, join}

abbrev pub http_schemes : List Text
http_schemes = codes "http" ∷ codes "https" ∷ []

-- `url.partition("://")` where it has a separator: what stands before the first one.
unfoldable pub before_scheme : Text → Option Text
before_scheme [] = none
before_scheme (c ∷ s) =
    let rest : Option Text = elim (before_scheme s) [ none ↦ none | some head ↦ some (c ∷ head) ] in
    if starts_with (c ∷ s) (codes "://") then some [] else rest

unfoldable pub scheme : Camera → Text
scheme camera = elim (before_scheme camera.url) [ none ↦ [] | some head ↦ lower head ]

-- The container of a camera's segments: ffmpeg's name for it, and the extension.
unfoldable pub container : Camera → Text × Text
container camera =
    if is_among (scheme camera) http_schemes
    then (codes "mpegts", codes "ts")
    else (codes "mp4", codes "mp4")

unfoldable pub input_opts : Camera → List Text
input_opts camera =
    if is_among (scheme camera) http_schemes
    then codes "-reconnect"
      ∷ codes "1"
      ∷ codes "-reconnect_streamed"
      ∷ codes "1"
      ∷ codes "-reconnect_delay_max"
      ∷ codes "5"
      ∷ codes "-fflags"
      ∷ codes "+genpts+discardcorrupt"
      ∷ []
    else codes "-rtsp_transport" ∷ codes "tcp" ∷ codes "-timeout" ∷ codes "10000000" ∷ []

unfoldable pub segment_pattern : Camera → Text
segment_pattern camera = camera.name ++ (codes "_%Y%m%d_%H%M%S." ++ (container camera).1)

unfoldable pub ffmpeg_cmd : Camera → Text → ℤ → List Text
ffmpeg_cmd camera out_dir segment_seconds =
    (codes "ffmpeg"
      ∷ codes "-nostdin"
      ∷ codes "-hide_banner"
      ∷ codes "-loglevel"
      ∷ codes "warning"
      ∷ [])
    ++ (input_opts camera
        ++ (codes "-i"
            ∷ camera.url
            ∷ codes "-c"
            ∷ codes "copy"
            ∷ codes "-f"
            ∷ codes "segment"
            ∷ codes "-segment_time"
            ∷ decimal segment_seconds
            ∷ codes "-segment_format"
            ∷ (container camera).0
            ∷ codes "-reset_timestamps"
            ∷ codes "1"
            ∷ codes "-strftime"
            ∷ codes "1"
            ∷ join out_dir (segment_pattern camera)
            ∷ []))
