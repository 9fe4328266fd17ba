-- ===== src/Strutil/Words.antt =====
-- `WordScanner`, `WordWriter`, `JoinStrings` and `HasWord` of src/strutil.h and src/strutil.cc.
-- A range-for over a scanner is the list of the pieces that it visits. Lengths and places, which the
-- source keeps in an int, are natural numbers: a text is taken to be shorter than 2 to the 31st.
pub mod Reference
pub mod RoundTrip
pub mod First
use kati.Prelude.{
  ℕ, zero, suc, ◌+◌, ◌-◌, Bool, true, false, not, ◌&&◌, ◌||◌, Option, none, some, List, [], ◌∷◌,
  ◌++◌, Bytes, length, drop, ltb, leb, ◌==◌, if◌then◌else◌,
}
use kati.Piece.{get, substr, find}

-- `isSpace`.
abbrev pub is_space : ℕ → Bool
is_space c = leb 9 c && leb c 13 || c == 32

-- Where a scan over the bytes stops: at the first byte that the test accepts, or at the end.
unfoldable pub count_until : (ℕ → Bool) → Bytes → ℕ
count_until stop [] = 0
count_until stop (c ∷ s) = if stop c then 0 else suc (count_until stop s)

-- `SkipUntil`: `strcspn` stops at the delimiters, and at a NUL byte.
unfoldable pub skip_until : Bytes → (ℕ → Bool) → ℕ
unfolding count_until
skip_until s is_delimiter = count_until (λ c. is_delimiter c || c == 0) s

-- `Iterator::operator++`, from the place `i + 1`: the bounds of the next word, or `none` for `end()`.
unfoldable pub advance : Bytes → ℕ → Option (ℕ × ℕ)
unfolding count_until skip_until
advance text from =
    let s = from + count_until (λ c. not (is_space c)) (drop from text) in
    if leb (length text) s then none else some (s, s + skip_until (drop s text) is_space)

-- The loop of a range-for; `begin()` advances from -1, so it looks at place 0 first.
unfoldable pub scan : ℕ → Bytes → ℕ → List Bytes
scan zero text from = []
scan (suc fuel) text from = elim (advance text from) [
  | none ↦ []
  | some (s, i) ↦ substr text s (some (i - s)) ∷ scan fuel text (i + 1)
]

-- `for (StringPiece tok : WordScanner(text))`, and `Split`. Each round passes a byte.
unfoldable pub words : Bytes → List Bytes
unfolding scan advance substr
words text = scan (length text + 1) text 0

-- `WordWriter`: the text written so far, and whether the next word needs a space before it.
pub record Writer : Type 0 where
  pub out : Bytes
  pub needs_space : Bool

abbrev pub writer : Bytes → Writer
writer out = record { out = out; needs_space = false }

unfoldable pub maybe_add_whitespace : Writer → Writer
maybe_add_whitespace w =
    if w.needs_space then record w { out = w.out ++ b' ' ∷ [] } else record w { needs_space = true }

-- `AppendString`, through the writer's string.
abbrev pub append_string : Bytes → Writer → Writer
append_string s w = record w { out = w.out ++ s }

unfoldable pub write : Bytes → Writer → Writer
unfolding maybe_add_whitespace
write s w = append_string s (maybe_add_whitespace w)

unfoldable pub write_all : List Bytes → Writer → Writer
write_all [] w = w
write_all (t ∷ ts) w = write_all ts (write t w)

-- `JoinStrings`: no separator while the result is empty.
unfoldable pub join_from : List Bytes → Bytes → Bytes → Bytes
join_from [] sep r = r
join_from (s ∷ v) sep r = join_from v sep ((if length r == 0 then r else r ++ sep) ++ s)

unfoldable pub join_strings : List Bytes → Bytes → Bytes
unfolding join_from
join_strings v sep = join_from v sep []

-- `HasWord`.
unfoldable pub has_word : Bytes → Bytes → Bool
unfolding find
has_word str w = elim (find str w 0) [
  | none ↦ false
  | some found ↦
      let end = found + length w in
      if not (found == 0) && not (is_space (get str (found - 1)))
      then false
      else if not (end == length str) && not (is_space (get str end))
      then false
      else true
]
