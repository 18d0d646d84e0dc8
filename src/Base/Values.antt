-- ===== src/Base/Values.antt =====
-- The values that `yaml.safe_load` and `json.loads` build, and what Python does with them:
-- truth, `int`, the printing of integers and the trimming and lowering of text. Text is read as
-- ASCII where Python would also know other digits, blanks and letters.
use Prim.Native.Nat.{ℕ, zero, suc, ◌+◌, ◌-◌, ◌*◌, ◌/◌, ◌%◌}
use mathlib.Core.Bool.{Bool, true, false, ◌&&◌, ◌||◌}
use mathlib.Core.List.{[], ◌∷◌, map, reverse}
use mathlib.Core.Option.{Option, none, some}
use videobackup.Base.Tests.{ltb, leb, ◌==◌, if◌then◌else◌}
use videobackup.Base.Int.{ℤ, pos, negsuc, sub_ℕ}
use videobackup.Base.Texts.{Text, same}
use videobackup.Base.Effects.{
  type_error, value_error, overflow_error, key_error, Outcome, ok, raised,
}

-- A float, as far as `int` and truth look at it: the whole part, and whether it is zero.
pub data Real : Type 0 where
  finite : ℤ → Bool → Real
  infinite not_a_number : Real

mutual
  pub data Value : Type 0 where
    null : Value
    boolean : Bool → Value
    int : ℤ → Value
    real : Real → Value
    text : Text → Value
    list : Items → Value
    dict : Fields → Value

  pub data Items : Type 0 where
    nil : Items
    cons : Value → Items → Items

  pub data Fields : Type 0 where
    end : Fields
    field : Text → Value → Fields → Fields

-- `d.get(key)`; the keys of a mapping are distinct.
unfoldable pub get_field : Text → Fields → Option Value
unfolding same
get_field k end = none
get_field k (field j v d) = let rest = get_field k d in if same k j then some v else rest

-- `d.get(key, default)`
abbrev pub get_default : Text → Value → Fields → Value
get_default k default d = elim (get_field k d) [ none ↦ default | some v ↦ v ]

-- `d[key]`
abbrev pub item : Text → Fields → Outcome Value
item k d = elim (get_field k d) [ none ↦ raised key_error | some v ↦ ok v ]

-- `bool(v)`
abbrev pub is_truthy : Value → Bool
is_truthy null = false
is_truthy (boolean b) = b
is_truthy (int (pos zero)) = false
is_truthy (int (pos (suc n))) = true
is_truthy (int (negsuc n)) = true
is_truthy (real (finite whole is_zero)) = if is_zero then false else true
is_truthy (real infinite) = true
is_truthy (real not_a_number) = true
is_truthy (text []) = false
is_truthy (text (c ∷ s)) = true
is_truthy (list nil) = false
is_truthy (list (cons v vs)) = true
is_truthy (dict end) = false
is_truthy (dict (field k v d)) = true

abbrev pub is_digit : ℕ → Bool
is_digit c = leb b'0' c && leb c b'9'

-- Blanks, tabs, line ends and the other ASCII separators.
abbrev pub is_space : ℕ → Bool
is_space c = c == 32 || (leb 9 c && leb c 13) || (leb 28 c && leb c 31)

abbrev pub trim_left : Text → Text
trim_left [] = []
trim_left (c ∷ s) = let rest = trim_left s in if is_space c then rest else c ∷ s

-- `s.strip()`
abbrev pub strip : Text → Text
strip s = reverse (trim_left (reverse (trim_left s)))

-- Digits with single `_` between them, after `acc`; `after` tells whether a digit stands before.
abbrev pub read_digits : Bool → ℕ → Text → Option ℕ
read_digits true acc [] = some acc
read_digits false acc [] = none
read_digits after acc (c ∷ s) = elim (is_digit c) [
  | true ↦ read_digits true (acc * 10 + (c - b'0')) s
  | false ↦ elim (after && c == b'_') [ true ↦ read_digits false acc s | false ↦ none ]
]

abbrev pub signed : Text → Option ℤ
signed [] = none
signed (c ∷ s) =
    if c == b'-'
    then elim (read_digits false 0 s) [ none ↦ none | some n ↦ some (sub_ℕ 0 n) ]
    else if c == b'+'
    then elim (read_digits false 0 s) [ none ↦ none | some n ↦ some (pos n) ]
    else elim (read_digits false 0 (c ∷ s)) [ none ↦ none | some n ↦ some (pos n) ]

-- `int(v)`
abbrev pub to_int : Value → Outcome ℤ
to_int null = raised type_error
to_int (boolean b) = ok (if b then pos 1 else pos 0)
to_int (int z) = ok z
to_int (real (finite whole _)) = ok whole
to_int (real infinite) = raised overflow_error
to_int (real not_a_number) = raised value_error
to_int (text s) = elim (signed (strip s)) [ none ↦ raised value_error | some z ↦ ok z ]
to_int (list vs) = raised type_error
to_int (dict d) = raised type_error

-- The decimal digits of a number, in front of `rest`; a number has fewer digits than `fuel`.
abbrev pub put_digits : ℕ → ℕ → Text → Text
put_digits zero n rest = rest
put_digits (suc fuel) n rest =
    let more = put_digits fuel (n / 10) ((b'0' + n % 10) ∷ rest) in
    if ltb n 10 then (b'0' + n) ∷ rest else more

-- `str(z)`
unfoldable pub decimal : ℤ → Text
decimal (pos n) = put_digits (suc n) n []
decimal (negsuc n) = b'-' ∷ put_digits (suc (suc n)) (suc n) []

abbrev pub lower_char : ℕ → ℕ
lower_char c = if leb b'A' c && leb c b'Z' then c + 32 else c

-- `s.lower()`
abbrev pub lower : Text → Text
lower = map lower_char
