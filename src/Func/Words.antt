-- ===== src/Func/Words.antt =====
-- `word`, `wordlist`, `words`, `firstword` and `lastword` of src/func.cc, and their numbers.
pub mod Numeric
pub mod Select
use kati.Prelude.{
  ℕ, zero, suc, ◌+◌, ◌-◌, ◌*◌, ◌/◌, ◌%◌, ◌^◌, Bool, true, false, not, ◌&&◌, ◌||◌, Option, none,
  some, List, [], ◌∷◌, ◌++◌, Bytes, length, drop, ltb, leb, ◌==◌, if◌then◌else◌, codes,
}
use kati.Strutil.Words.{Writer, is_space, count_until, words, writer, write}
use kati.Strutil.Trim.{trim_left_space}

-- What a function does: it appends, or ends the program with a message.
pub data Result : Type 0 where
  done : Bytes → Result
  failed : Bytes → Result

abbrev pub is_digit : ℕ → Bool
is_digit c = leb b'0' c && leb c b'9'

-- `LONG_MAX`.
abbrev pub long_max : ℕ
long_max = 2 ^ 63 - 1

-- The digits at the start of a text, as a number.
unfoldable pub digits_value : ℕ → Bytes → ℕ
digits_value n [] = n
digits_value n (c ∷ s) =
    let rest = digits_value (n * 10 + (c - b'0')) s in if is_digit c then rest else n

unfoldable pub digits_count : Bytes → ℕ
digits_count [] = 0
digits_count (c ∷ s) = if is_digit c then suc (digits_count s) else 0

-- The sign at the start of a text, 0 for none.
abbrev pub sign_of : Bytes → ℕ
sign_of [] = 0
sign_of (c ∷ s) = if c == b'-' || c == b'+' then c else 0

-- `strtol` in base 10: the value and how many bytes it took. The value is at most `LONG_MAX`; of a
-- negative one it matters only that it is negative, so it is `none`. With no digits nothing is taken.
unfoldable pub strtol : Bytes → Option ℕ × ℕ
unfolding count_until digits_value digits_count
strtol s =
    let blank = count_until (λ c. not (is_space c)) s in
    let t = drop blank s in
    let sign = if sign_of t == 0 then 0 else 1 in
    let ds = drop sign t in
    let n = digits_value 0 ds in
    if digits_count ds == 0
    then (some 0, 0)
    else (if sign_of t == b'-' && not (n == 0)
        then (none, blank + sign + digits_count ds)
        else (some (if ltb n long_max then n else long_max), blank + sign + digits_count ds))

-- The conversion of a `long` that is not negative to `int`; `none` for a negative result.
unfoldable pub to_int : ℕ → Option ℕ
to_int n = let m = n % 2 ^ 32 in if ltb m (2 ^ 31) then some m else none

-- `GetNumericValueForFunc`; `none` for a negative result.
unfoldable pub get_numeric_value : Bytes → Option ℕ
unfolding trim_left_space strtol to_int
get_numeric_value buf =
    let s = trim_left_space buf in
    let (value, taken) = strtol s in
    elim value [
      | none ↦ none
      | some n ↦ if n == long_max || not (length s == taken) then none else to_int n
    ]

-- The loop of `WordFunc`.
unfoldable pub nth_word : List Bytes → ℕ → Bytes → Bytes
nth_word [] n s = s
nth_word (tok ∷ toks) n s = if n - 1 == 0 then s ++ tok else nth_word toks (n - 1) s

-- `WordFunc`.
unfoldable pub word_func : Bytes → Bytes → Bytes → Result
unfolding get_numeric_value words nth_word
word_func n_str text s = elim (get_numeric_value n_str) [
  | none ↦
      failed (codes "*** non-numeric first argument to `word' function: '" ++ (n_str ++ codes "'."))
  | some n ↦
      if n == 0
      then failed (codes "*** first argument to `word' function must be greater than 0.")
      else done (nth_word (words text) n s)
]

-- The loop of `WordlistFunc`.
unfoldable pub write_range : ℕ → ℕ → ℕ → List Bytes → Writer → Writer
unfolding write
write_range si ei i [] w = w
write_range si ei i (tok ∷ toks) w =
    write_range si ei (i + 1) toks (if leb si (i + 1) && leb (i + 1) ei then write tok w else w)

-- `WordlistFunc`.
unfoldable pub wordlist_func : Bytes → Bytes → Bytes → Bytes → Result
unfolding get_numeric_value words write_range
wordlist_func s_str e_str text s = elim (get_numeric_value s_str) [
  | none ↦
      failed
        (codes "*** non-numeric first argument to `wordlist' function: '" ++ (s_str ++ codes "'."))
  | some si ↦
      if si == 0
      then failed
          (codes "*** invalid first argument to `wordlist' function: " ++ (s_str ++ codes "`"))
      else (elim (get_numeric_value e_str) [
        | none ↦ failed (
            codes "*** non-numeric second argument to `wordlist' function: '"
            ++ (e_str ++ codes "'."))
        | some ei ↦ done (write_range si ei 0 (words text) (writer s)).out
      ])
]

-- `%d` of a number that is not negative; the fuel is at least its number of digits.
unfoldable pub decimal : ℕ → ℕ → Bytes
decimal zero n = []
decimal (suc fuel) n =
    let front = decimal fuel (n / 10) in
    if ltb n 10 then (b'0' + n) ∷ [] else front ++ (b'0' + n % 10) ∷ []

-- `WordsFunc`.
unfoldable pub words_func : Bytes → Bytes → Bytes
unfolding words decimal
words_func text s = let n = length (words text) in s ++ decimal (n + 1) n

-- `FirstwordFunc`.
unfoldable pub firstword_func : Bytes → Bytes → Bytes
unfolding words
firstword_func text s = elim (words text) [ [] ↦ s | tok ∷ toks ↦ s ++ tok ]

-- The loop of `LastwordFunc`.
unfoldable pub last_word : Bytes → List Bytes → Bytes
last_word last [] = last
last_word last (tok ∷ toks) = last_word tok toks

-- `LastwordFunc`.
unfoldable pub lastword_func : Bytes → Bytes → Bytes
unfolding words last_word
lastword_func text s = s ++ last_word [] (words text)
