-- ===== src/Drive/Lines.antt =====
-- The list of names that videobackup/retention.py hands to `rclone delete --files-from`.
use videobackup.Base.{
  ◌≡◌, refl, ap, ◌∙◌, ℕ, Bool, true, false, List, [], ◌∷◌, ◌++◌, ◌==◌, arith, All, Text, append-nil,
  append_assoc, leb, not, ◌||◌, if◌then◌else◌,
}
use videobackup.Drive.{join_lines}

-- The lines of a file of names; `line` holds what stands before in the first.
unfoldable pub lines_from : Text → Text → List Text
lines_from line [] = []
lines_from line (c ∷ s) = elim (c == 10) [
  | true ↦ line ∷ lines_from [] s
  | false ↦ lines_from (line ++ c ∷ []) s
]

abbrev pub lines_of : Text → List Text
lines_of = lines_from []

-- It has no line end in it.
abbrev pub IsOneLine : Text → Type 0
IsOneLine = All (λ c. (c == 10) ≡ false)

lines_from-line :
    (line name rest : Text)
    → IsOneLine name
    → lines_from line (name ++ (10 ∷ rest)) ≡ (line ++ name) ∷ lines_from [] rest
unfolding lines_from
lines_from-line line [] rest _ = rw (append-nil line) refl
lines_from-line line (c ∷ s) rest (h, hs) =
    rw (h, lines_from)
      (lines_from-line (line ++ c ∷ []) s rest hs ∙ rw (append_assoc line (c ∷ []) s) refl)

-- What is written is what rclone reads, for names of one line.
pub lines_of-join_lines :
    (names : List Text) → All IsOneLine names → lines_of (join_lines names) ≡ names
unfolding join_lines lines_from
lines_of-join_lines [] _ = refl
lines_of-join_lines (name ∷ names) (h, hs) =
    lines_from-line [] name (join_lines names) h ∙ ap (◌∷◌ name) (lines_of-join_lines names hs)

-- A character that does not end a line of the list and has no other meaning in it.
abbrev pub is_plain : ℕ → Bool
is_plain c = if leb c 32 then false else not (c == b'#' || c == b';')

-- A name that stands for itself in the list.
abbrev pub IsPlainName : Text → Type 0
IsPlainName = All (λ c. is_plain c ≡ true)

IsPlainName-IsOneLine : (name : Text) → IsPlainName name → IsOneLine name
IsPlainName-IsOneLine [] _ = tt
IsPlainName-IsOneLine (c ∷ s) (h, hs) = (ground arith, IsPlainName-IsOneLine s hs)

-- The lines of the list that is written for `rclone delete` are the names, where these are plain.
pub lines_of-plain :
    (names : List Text) → All IsPlainName names → lines_of (join_lines names) ≡ names
lines_of-plain names h = lines_of-join_lines names (weaken names h)
  where
    weaken : (l : List Text) → All IsPlainName l → All IsOneLine l
    weaken [] _ = tt
    weaken (n ∷ ns) (k, ks) = (IsPlainName-IsOneLine n k, weaken ns ks)
