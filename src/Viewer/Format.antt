-- ===== src/Viewer/Format.antt =====
-- The temporary file of videobackup/viewer.py keeps the format of the segment, which
-- videobackup/recorder.py chose and videobackup/encrypt.py kept in the name.
use videobackup.Base.{ℕ, ◌≡◌, ◌≢◌, refl, [], ◌∷◌, ◌++◌, some, inl, inr}
use videobackup.Base.{Bool-cases, Text, codes, is_among, if◌then◌else◌}
use videobackup.Config.{Camera}
use videobackup.Encrypt.{encrypted_name}
use videobackup.Ffmpeg.{container, scheme, http_schemes}
use videobackup.Ffmpeg.Segments.{extension_of}
use videobackup.Viewer.{split_at_last_dot, is_empty, stem_and_suffix, temp_suffix}

split-dot :
    (head tail : Text)
    → split_at_last_dot (b'.' ∷ tail) ≡ some ([], tail)
    → split_at_last_dot (head ++ (b'.' ∷ tail)) ≡ some (head, tail)
unfolding split_at_last_dot
split-dot [] tail h = h
split-dot (c ∷ head) tail h = rw (split-dot head tail h) refl

stem_and_suffix-dot :
    (c : ℕ) (head : Text) (d : ℕ) (tail : Text)
    → split_at_last_dot (b'.' ∷ d ∷ tail) ≡ some ([], d ∷ tail)
    → stem_and_suffix ((c ∷ head) ++ (b'.' ∷ d ∷ tail)) ≡ (c ∷ head, b'.' ∷ d ∷ tail)
unfolding stem_and_suffix split_at_last_dot
stem_and_suffix-dot c head d tail h = rw (split-dot (c ∷ head) (d ∷ tail) h) refl

inner :
    (camera : Camera) (c : ℕ) (stem : Text)
    → (let suffix = (stem_and_suffix (c ∷ (stem ++ extension_of camera))).1 in
        if is_empty suffix then codes ".mp4" else suffix)
      ≡ extension_of camera
unfolding container
inner camera c stem = elim (Bool-cases (is_among (scheme camera) http_schemes)) [
  | inl e ↦
      rw e
        (rw (stem_and_suffix-dot c stem b't' (codes "s") (unfold split_at_last_dot in refl)) refl)
  | inr e ↦
      rw e
        (rw (stem_and_suffix-dot c stem b'm' (codes "p4") (unfold split_at_last_dot in refl)) refl)
]

-- The temporary file of an encrypted segment has the extension of the segment's camera, if the
-- segment's name has something in front of it.
pub temp_suffix-encrypted_name :
    (camera : Camera) (stem : Text)
    → stem ≢ []
    → temp_suffix (encrypted_name (stem ++ extension_of camera)) ≡ extension_of camera
unfolding temp_suffix
temp_suffix-encrypted_name camera [] h = absurd (h refl)
temp_suffix-encrypted_name camera (c ∷ stem) h =
    rw
      (stem_and_suffix-dot c (stem ++ extension_of camera) b'g' (codes "pg")
        (unfold split_at_last_dot in refl))
      (inner camera c stem)
