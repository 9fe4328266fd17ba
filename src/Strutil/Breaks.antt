-- ===== src/Strutil/Breaks.antt =====
-- `NoLineBreak` and `FindEndOfLine` of src/strutil.cc. A loop has the number of rounds left as its
-- first argument and gives `none` where that is used up.
pub mod Ends
use kati.Prelude.{
  ℕ, zero, suc, ◌+◌, ◌-◌, Bool, true, false, not, ◌&&◌, ◌||◌, Option, none, some, List, [], ◌∷◌,
  ◌++◌, Bytes, length, drop, take, get_or, leb, ltb, ◌==◌, if◌then◌else◌, codes,
}
use kati.Piece.{substr, find_byte}
use kati.Strutil.Words.{skip_until}
use kati.Strutil.Trim.{newline, return, backslash}

-- The string with the newline at `index` written as a backslash and `n`.
abbrev pub write_break : ℕ → Bytes → Bytes
write_break index r = substr r 0 (some index) ++ (backslash ∷ (b'n' ∷ substr r (index + 1) none))

-- The loop of `NoLineBreak`, with the place of the next newline.
unfoldable pub break_loop : ℕ → Option ℕ → Bytes → Option Bytes
unfolding substr find_byte
break_loop fuel none r = some r
break_loop zero (some index) r = none
break_loop (suc fuel) (some index) r =
    let s = write_break index r in break_loop fuel (find_byte s newline (index + 2)) s

-- `NoLineBreak`.
unfoldable pub no_line_break : ℕ → Bytes → Option Bytes
unfolding find_byte break_loop
no_line_break fuel s = break_loop fuel (find_byte s newline 0) s

-- What a round of `FindEndOfLine` ends with: the place and the number of line feeds, and whether
-- they are returned.
pub data Round : Type 0 where
  stop : ℕ → ℕ → Round
  go_on : ℕ → ℕ → Round

-- Behind a backslash at `e`.
abbrev pub after_backslash : Bytes → ℕ → ℕ → Round
after_backslash mem e lf_cnt =
    let c = get_or mem (e + 1) 0 in
    if c == newline
    then go_on (e + 2) (lf_cnt + 1)
    else if c == return && get_or mem (e + 2) 0 == newline
    then go_on (e + 3) (lf_cnt + 1)
    else if c == backslash
    then go_on (e + 2) lf_cnt
    else go_on (e + 1) lf_cnt

-- One round, in the memory `mem` from the start of a piece of `size` bytes: the bytes behind a
-- backslash are read without a look at the size.
unfoldable pub line_round : Bytes → ℕ → ℕ → ℕ → Round
unfolding skip_until
line_round mem size e lf_cnt =
    let e' = e + skip_until (take (size - e) (drop e mem)) (λ c. c == newline || c == backslash) in
    let c = get_or mem e' 0 in
    if leb size e' || c == 0
    then stop e' lf_cnt
    else if c == backslash
    then after_backslash mem e' lf_cnt
    else stop e' (lf_cnt + 1)

-- `FindEndOfLine`.
unfoldable pub find_end_of_line : ℕ → Bytes → ℕ → ℕ → ℕ → Option (ℕ × ℕ)
unfolding line_round
find_end_of_line zero mem size e lf_cnt = none
find_end_of_line (suc fuel) mem size e lf_cnt =
    if leb size e then some (e, lf_cnt) else (elim (line_round mem size e lf_cnt) [
      | stop e' n ↦ some (e', n)
      | go_on e' n ↦ find_end_of_line fuel mem size e' n
    ])
