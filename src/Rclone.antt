-- ===== src/Rclone.antt =====
-- videobackup/rclone.py: what rclone's stderr says.
pub mod Laws
use videobackup.Base.{
  ℕ, zero, suc, ◌+◌, ◌-◌, ◌*◌, Bool, true, false, List, [], ◌∷◌, ◌++◌, Option, none, some,
}
use videobackup.Base.{◌==◌, ◌||◌, any_of, Text, codes, starts_with, if◌then◌else◌}
use videobackup.Base.Values.{is_digit, is_space, lower}

-- `m in s`
unfoldable pub contains : Text → Text → Bool
unfolding starts_with
contains m [] = starts_with [] m
contains m (c ∷ s) = let rest = contains m s in if starts_with (c ∷ s) m then true else rest

abbrev pub rate_limit_markers : List Text
rate_limit_markers =
    codes "ratelimitexceeded"
    ∷ codes "userratelimitexceeded"
    ∷ codes "quota metric"
    ∷ codes "quota exceeded"
    ∷ []

abbrev pub out_of_space_markers : List Text
out_of_space_markers = codes "storagequotaexceeded" ∷ codes "storage quota has been exceeded" ∷ []

abbrev pub auth_markers : List Text
auth_markers =
    codes "invalid_grant"
    ∷ codes "token has been expired or revoked"
    ∷ codes "couldn't fetch token"
    ∷ codes "failed to configure token"
    ∷ codes "error 401"
    ∷ []

pub record RcloneOutcome : Type 0 where
  pub errors : ℕ
  pub rate_limited : Bool
  pub out_of_space : Bool
  pub auth_expired : Bool

-- `(\d+)`, after `acc`: the digits at the front, of which there is one at least.
unfoldable pub leading_number : ℕ → Text → ℕ
leading_number acc [] = acc
leading_number acc (c ∷ s) = elim (is_digit c) [
  | true ↦ leading_number (acc * 10 + (c - b'0')) s
  | false ↦ acc
]

-- `\s+(\d+)`, after one blank at least if `spaced`.
unfoldable pub after_spaces : Bool → Text → Option ℕ
unfolding leading_number
after_spaces spaced [] = none
after_spaces spaced (c ∷ s) = elim (is_space c) [
  | true ↦ after_spaces true s
  | false ↦ if spaced then (if is_digit c then some (leading_number 0 (c ∷ s)) else none) else none
]

-- `Errors:\s+(\d+)` at the front of `s`.
unfoldable pub errors_at : Text → Text → Option ℕ
unfolding after_spaces
errors_at [] s = after_spaces false s
errors_at (m ∷ ms) [] = none
errors_at (m ∷ ms) (c ∷ s) = let rest = errors_at ms s in if m == c then rest else none

abbrev pub errors_word : Text
errors_word = codes "Errors:"

-- `_ERRORS_RE.search`: the first line start at which the pattern matches.
unfoldable pub search_errors : Bool → Text → Option ℕ
unfolding errors_at
search_errors at_start [] = none
search_errors at_start (c ∷ s) =
    let rest = search_errors (c == 10) s in
    let here : Option ℕ = elim (errors_at errors_word (c ∷ s)) [ some n ↦ some n | none ↦ rest ] in
    if at_start then here else rest

unfoldable pub classify : Text → RcloneOutcome
unfolding contains search_errors
classify stderr =
    let low = lower stderr in
    record {
      errors = elim (search_errors true stderr) [ some n ↦ n | none ↦ 0 ];
      rate_limited = any_of (λ m. contains m low) rate_limit_markers;
      out_of_space = any_of (λ m. contains m low) out_of_space_markers;
      auth_expired = any_of (λ m. contains m low) auth_markers;
    }

unfoldable pub auth_hint : Text → Text
auth_hint remote =
    codes "rclone's OAuth grant for '"
    ++ (remote
        ++ (codes
              "' has expired or been revoked; no amount of retrying will restore it. Reauthorize with: rclone config reconnect "
            ++ (remote
                ++ codes
                    ":   (the trailing colon is required -- without it rclone answers 'backend doesn't support reconnect'). If this recurs about every 7 days, the Google Cloud project's OAuth consent screen is still in 'Testing', which expires refresh tokens on that cycle; set it to 'In production' to stop it.")))
