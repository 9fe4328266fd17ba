-- ===== src/Strutil/Paren.antt =====
-- `FindOutsideParen`, `FindTwoOutsideParen` and `FindThreeOutsideParen` of src/strutil.cc.
pub mod Balanced
use kati.Prelude.{
  ℕ, zero, suc, ◌+◌, Bool, true, false, not, ◌&&◌, ◌||◌, Option, none, some, List, [], ◌∷◌, Bytes,
  length, ◌==◌, if◌then◌else◌,
}
use kati.Strutil.Escape.{backslash}

abbrev pub open_paren : ℕ
open_paren = b'('

abbrev pub close_paren : ℕ
close_paren = b')'

abbrev pub open_brace : ℕ
open_brace = b'{'

abbrev pub close_brace : ℕ
close_brace = b'}'

-- A closing byte takes its like off the stack.
abbrev pub close : ℕ → Bytes → Bytes
close c [] = []
close c (top ∷ stack) = if c == top then stack else top ∷ stack

-- The switch: the closing bytes that are waited for, with the last one first.
unfoldable pub change_stack : ℕ → Bytes → Bytes
change_stack c stack =
    if c == open_paren
    then close_paren ∷ stack
    else if c == open_brace
    then close_brace ∷ stack
    else if c == close_paren || c == close_brace
    then close c stack
    else stack

-- `FindOutsideParenImpl` from the place `i` on.
unfoldable pub find_from : (ℕ → Bool) → Bytes → ℕ → Bytes → Bool → Option ℕ
unfolding change_stack
find_from cond [] i stack prev_backslash = none
find_from cond (c ∷ s) i stack prev_backslash =
    let next =
      find_from cond s (i + 1) (change_stack c stack) (c == backslash && not prev_backslash) in
    if cond c && (length stack == 0 && not prev_backslash) then some i else next

unfoldable pub find_outside_paren : Bytes → ℕ → Option ℕ
unfolding find_from
find_outside_paren s c = find_from (λ d. c == d) s 0 [] false

unfoldable pub find_two_outside_paren : Bytes → ℕ → ℕ → Option ℕ
unfolding find_from
find_two_outside_paren s c1 c2 = find_from (λ d. d == c1 || d == c2) s 0 [] false

unfoldable pub find_three_outside_paren : Bytes → ℕ → ℕ → ℕ → Option ℕ
unfolding find_from
find_three_outside_paren s c1 c2 c3 = find_from (λ d. d == c1 || (d == c2 || d == c3)) s 0 [] false
