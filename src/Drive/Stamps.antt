-- ===== src/Drive/Stamps.antt =====
-- How `_parse_mod_time` of videobackup/retention.py reads a time with more digits behind the second
-- than Python reads.
use videobackup.Base.{
  ◌≡◌, refl, ap, ◌∙◌, true, false, [], ◌∷◌, ◌++◌, inl, inr, some, ◌==◌, ◌-◌, arith, All, length,
  Bool-cases, Text, codes, ends_with,
}
use videobackup.Base.Effects.{Exn, raised, is_value_error}
use videobackup.Base.Lists.{length-append, drop-length-append}
use videobackup.Host.{Host}
use videobackup.Drive.{
  expand_zulu, split_at_dot, last_six, kept_offset, parse_trimmed, retry_parse, parse_mod_time,
}

-- Neither the mark of UTC nor the dot.
abbrev pub IsPlainTime : Text → Type 0
IsPlainTime s = All (λ c. ((c == b'Z') ≡ false) × ((c == b'.') ≡ false)) s

expand_zulu-append :
    (s rest : Text) → IsPlainTime s → expand_zulu (s ++ rest) ≡ s ++ expand_zulu rest
unfolding expand_zulu
expand_zulu-append [] rest _ = refl
expand_zulu-append (c ∷ s) rest (h, hs) = rw h.0 (ap (◌∷◌ c) (expand_zulu-append s rest hs))

split_at_dot-append :
    (s tail : Text) → IsPlainTime s → split_at_dot (s ++ b'.' ∷ tail) ≡ some (s, tail)
unfolding split_at_dot
split_at_dot-append [] tail _ = refl
split_at_dot-append (c ∷ s) tail (h, hs) = rw h.1 (rw (split_at_dot-append s tail hs) refl)

last_six-append : (s : Text) → last_six (s ++ codes "+00:00") ≡ codes "+00:00"
last_six-append s =
    let longer : length (s ++ codes "+00:00") - 6 ≡ length s =
      omega (arith, length-append s (codes "+00:00")) in
    rw longer (drop-length-append s (codes "+00:00"))

kept_offset-append : (s : Text) → kept_offset (s ++ codes "+00:00") ≡ codes "+00:00"
unfolding kept_offset
kept_offset-append s = elim (Bool-cases (ends_with (s ++ codes "+00:00") (codes "+00:00"))) [
  | inl e ↦ rw e (last_six-append s)
  | inr e ↦ rw e refl
]

module _ (H : Host) where
  retried :
      (text time fraction : Text) (exn : Exn)
      → IsPlainTime time
      → text ≡ time ++ b'.' ∷ (fraction ++ codes "+00:00")
      → H.fromisoformat text ≡ raised exn
      → is_value_error exn ≡ true
      → retry_parse H text (H.fromisoformat text) ≡ H.fromisoformat (time ++ codes "+00:00")
  unfolding retry_parse parse_trimmed
  retried text time fraction exn plain written refused is_value = rw refused (
      rw is_value (
        rw written (
          rw (split_at_dot-append time (fraction ++ codes "+00:00") plain)
            (ap (λ offset. H.fromisoformat (time ++ offset)) (kept_offset-append fraction)))))

  -- A time of UTC with a fraction of a second that Python does not read, as rclone writes it with nine
  -- digits and `Z`, or with `+00:00`, is read as the time without its fraction, where Python refuses
  -- the long form with a `ValueError`.
  pub parse_mod_time-fraction :
      (time fraction : Text) (exn : Exn)
      → IsPlainTime time
      → IsPlainTime fraction
      → H.fromisoformat (time ++ b'.' ∷ (fraction ++ codes "+00:00")) ≡ raised exn
      → is_value_error exn ≡ true
      → (parse_mod_time H (time ++ b'.' ∷ (fraction ++ codes "Z"))
          ≡ H.fromisoformat (time ++ codes "+00:00"))
        × (parse_mod_time H (time ++ b'.' ∷ (fraction ++ codes "+00:00"))
            ≡ H.fromisoformat (time ++ codes "+00:00"))
  unfolding parse_mod_time expand_zulu
  parse_mod_time-fraction time fraction exn plain digits refused is_value = (
    read (codes "Z") (expand_zulu-append fraction (codes "Z") digits),
    read (codes "+00:00") (expand_zulu-append fraction (codes "+00:00") digits),
  )
    where
      read :
          (offset : Text)
          → expand_zulu (fraction ++ offset) ≡ fraction ++ codes "+00:00"
          → parse_mod_time H (time ++ b'.' ∷ (fraction ++ offset))
            ≡ H.fromisoformat (time ++ codes "+00:00")
      read offset tail =
          rw
            (expand_zulu-append time (b'.' ∷ (fraction ++ offset)) plain
              ∙ ap (λ t. time ++ b'.' ∷ t) tail)
            (retried _ time fraction exn plain refl refused is_value)
