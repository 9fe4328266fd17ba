-- ===== src/Strutil/Trim.antt =====
-- `TrimLeftSpace`, `TrimRightSpace`, `TrimSpace`, `TrimLeadingCurdir`, `FormatForCommandSubstitution`
-- and `IsInteger` of src/strutil.cc. The place that a loop has reached is the rest of the text from
-- there on; from the right it is the rest of the reversed text.
pub mod Blank
use mathlib.Core.List.{reverse}
use kati.Prelude.{
  ℕ, zero, suc, ◌+◌, ◌-◌, ◌≤◌, ◌<◌, Bool, true, false, not, ◌&&◌, ◌||◌, Option, none, some, List,
  [], ◌∷◌, ◌++◌, Bytes, leb, ltb, ◌==◌, if◌then◌else◌, map,
}
use kati.Strutil.Words.{is_space}

abbrev pub newline : ℕ
newline = b'\n'

abbrev pub return : ℕ
return = 13

abbrev pub backslash : ℕ
backslash = b'\\'

abbrev pub ends_line : ℕ → Bool
ends_line n = n == return || n == newline

-- `TrimLeftSpace`: spaces, and newlines behind a backslash.
unfoldable pub trim_left_space : Bytes → Bytes
trim_left_space [] = []
trim_left_space (c ∷ []) = if is_space c then [] else c ∷ []
trim_left_space (c ∷ n ∷ s) =
    let one = trim_left_space (n ∷ s) in
    let two = trim_left_space s in
    if is_space c then one else if c == backslash && ends_line n then two else c ∷ n ∷ s

-- The loop of `TrimRightSpace`, from the last byte on.
unfoldable pub trim_back : Bytes → Bytes
trim_back [] = []
trim_back (c ∷ []) = if is_space c then [] else c ∷ []
trim_back (c ∷ p ∷ s) =
    let one = trim_back (p ∷ s) in
    let two = trim_back s in
    if is_space c then (if ends_line c && p == backslash then two else one) else c ∷ p ∷ s

unfoldable pub trim_right_space : Bytes → Bytes
unfolding trim_back
trim_right_space s = reverse (trim_back (reverse s))

unfoldable pub trim_space : Bytes → Bytes
unfolding trim_left_space trim_right_space
trim_space s = trim_right_space (trim_left_space s)

-- `TrimLeadingCurdir`.
unfoldable pub trim_leading_curdir : Bytes → Bytes
trim_leading_curdir [] = []
trim_leading_curdir (c ∷ []) = c ∷ []
trim_leading_curdir (c ∷ d ∷ s) =
    let rest = trim_leading_curdir s in if c == b'.' && d == b'/' then rest else c ∷ d ∷ s

-- The first loop of `FormatForCommandSubstitution`, from the last byte on. `none` is a read before
-- the first byte, which happens where no byte is left.
unfoldable pub pop_newlines : Bytes → Option Bytes
pop_newlines [] = none
pop_newlines (c ∷ s) = if c == newline then pop_newlines s else some (c ∷ s)

abbrev pub space_for_newline : ℕ → ℕ
space_for_newline c = if c == newline then b' ' else c

unfoldable pub format_for_command_substitution : Bytes → Option Bytes
unfolding pop_newlines
format_for_command_substitution s = elim (pop_newlines (reverse s)) [
  | none ↦ none
  | some r ↦ some (map space_for_newline (reverse r))
]

-- `IsInteger`.
unfoldable pub all_digits : Bytes → Bool
all_digits [] = true
all_digits (c ∷ s) = if ltb c b'0' || ltb b'9' c then false else all_digits s

unfoldable pub is_integer : Bytes → Bool
unfolding all_digits
is_integer [] = false
is_integer (c ∷ s) = all_digits (c ∷ s)
