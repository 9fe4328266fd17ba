-- ===== src/Strutil/Breaks/Ends.antt =====
-- `FindEndOfLine` of src/strutil.cc: its rounds go forward, so the loop ends.
use kati.Prelude.{
  ℕ, zero, suc, ◌+◌, ◌-◌, ◌≤◌, ◌<◌, ◌≡◌, Bool, true, false, Option, none, some, Bytes, arith, leb,
  ◌==◌, ◌&&◌, ◌||◌, get_or, if◌then◌else◌, take, drop,
}
use kati.Strutil.Trim.{newline, return, backslash}
use kati.Strutil.Words.{skip_until}
use kati.Strutil.Breaks.{Round, stop, go_on, after_backslash, line_round, find_end_of_line}

-- A round stops no earlier than it starts, or goes on behind that place.
abbrev IsForward : ℕ → Round → Type 0
IsForward e (stop e' n) = e ≤ e'
IsForward e (go_on e' n) = e < e'

-- There is a result, and its place is not before `e`.
abbrev pub IsBehind : ℕ → Option (ℕ × ℕ) → Type 0
IsBehind e none = ⊥
IsBehind e (some (e', n)) = e ≤ e'

either :
    (e : ℕ) (b : Bool) (r s : Round)
    → IsForward e r
    → IsForward e s
    → IsForward e (if b then r else s)
either e true r s p q = p
either e false r s p q = q

after_backslash-IsForward :
    (mem : Bytes) (e i n : ℕ) → e ≤ i → IsForward e (after_backslash mem i n)
after_backslash-IsForward mem e i n p =
    let c = get_or mem (i + 1) 0 in
    either e (c == newline) _ _ (omega arith) (
      either e (c == return && get_or mem (i + 2) 0 == newline) _ _ (omega arith)
        (either e (c == backslash) _ _ (omega arith) (omega arith)))

line_round-IsForward : (mem : Bytes) (size e n : ℕ) → IsForward e (line_round mem size e n)
unfolding line_round
line_round-IsForward mem size e n =
    let i = e + skip_until (take (size - e) (drop e mem)) (λ c. c == newline || c == backslash) in
    let c = get_or mem i 0 in
    either e (leb size i || c == 0) _ _ (omega arith) (
      either e (c == backslash) _ _ (after_backslash-IsForward mem e i n (omega arith))
        (omega arith))

behind_either :
    (e : ℕ) (b : Bool) (r s : Option (ℕ × ℕ))
    → IsBehind e r
    → IsBehind e s
    → IsBehind e (if b then r else s)
behind_either e true r s p q = p
behind_either e false r s p q = q

IsBehind-later : (e e' : ℕ) (r : Option (ℕ × ℕ)) → e < e' → IsBehind e' r → IsBehind e r
IsBehind-later e e' none p h = h
IsBehind-later e e' (some (i, n)) p h = omega arith

-- A round joined to what those behind it do.
joined :
    (e : ℕ) (rest : ℕ → ℕ → Option (ℕ × ℕ)) (r : Round)
    → IsForward e r
    → ((e' n : ℕ) → e < e' → IsBehind e' (rest e' n))
    → IsBehind e (elim r [ stop e' n ↦ some (e', n) | go_on e' n ↦ rest e' n ])
joined e rest (stop e' n) p h = p
joined e rest (go_on e' n) p h = IsBehind-later e e' (rest e' n) p (h e' n p)

-- With more rounds than there are bytes from `e` to the end of the piece, `FindEndOfLine` returns, and
-- the place that it returns is not before `e`.
pub find_end_of_line-IsBehind :
    (fuel : ℕ) (mem : Bytes) (size e n : ℕ)
    → size ≤ e + fuel
    → IsBehind e (find_end_of_line (suc fuel) mem size e n)
unfolding find_end_of_line
find_end_of_line-IsBehind zero mem size e n p =
    let q : leb size e ≡ true = ground arith in rw q (omega arith)
find_end_of_line-IsBehind (suc fuel) mem size e n p =
    behind_either e (leb size e) _ _ (omega arith) (
      joined e (find_end_of_line (suc fuel) mem size) (line_round mem size e n)
        (line_round-IsForward mem size e n)
        (λ e' n' h. find_end_of_line-IsBehind fuel mem size e' n' (omega arith)))
