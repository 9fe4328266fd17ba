-- ===== src/Strutil/Paren/Balanced.antt =====
-- What stands in balanced parentheses is passed over.
use kati.Prelude.{
  and_false, ℕ, ◌+◌, ◌≡◌, ◌≢◌, refl, sym, ap, ◌∙◌, inl, inr, Bool, true, false, not, ◌&&◌, ◌||◌,
  Option, none, some, [], ◌∷◌, ◌++◌, append_assoc, arith, Bytes, length, length-append, ◌==◌,
  Bool-cases, ==-suc_zero,
}
use kati.Piece.{shift}
use kati.Strutil.Escape.{backslash}
use kati.Strutil.Paren.{
  open_paren, close_paren, open_brace, close_brace, change_stack, find_from, find_outside_paren,
}

-- A byte that is no parenthesis, no brace and no backslash.
abbrev pub is_plain : ℕ → Bool
is_plain c = not (
    c == open_paren
    || (c == open_brace || (c == close_paren || (c == close_brace || c == backslash))))

-- Texts in which parentheses and braces are balanced, and that hold no backslash.
pub data Balanced : Bytes → Type 0 where
  nothing : Balanced []
  plain : {c : ℕ} {s : Bytes} → is_plain c ≡ true → Balanced s → Balanced (c ∷ s)
  parens : {a s : Bytes} → Balanced a → Balanced s → Balanced (open_paren ∷ (a ++ close_paren ∷ s))
  braces : {a s : Bytes} → Balanced a → Balanced s → Balanced (open_brace ∷ (a ++ close_brace ∷ s))

shift-shift : (i j : ℕ) (o : Option ℕ) → shift i (shift j o) ≡ shift (i + j) o
shift-shift i j none = refl
shift-shift i j (some k) = ap some (omega arith)

find_from-shift :
    (cond : ℕ → Bool) (s : Bytes) (i : ℕ) (stack : Bytes) (prev : Bool)
    → find_from cond s i stack prev ≡ shift i (find_from cond s 0 stack prev)
unfolding find_from
find_from-shift cond [] i stack prev = refl
find_from-shift cond (c ∷ s) i stack prev =
    elim (Bool-cases (cond c && (length stack == 0 && not prev))) [
      | inl e ↦ rw e (ap some (omega arith))
      | inr e ↦ rw e (
          find_from-shift cond s (i + 1) (change_stack c stack) (c == backslash && not prev)
          ∙ sym (
              ap (shift i)
                (find_from-shift cond s 1 (change_stack c stack) (c == backslash && not prev))
              ∙ shift-shift i 1
                  (find_from cond s 0 (change_stack c stack) (c == backslash && not prev))))
    ]

-- One byte inside parentheses.
find_from-inside :
    (cond : ℕ → Bool) (c : ℕ) (s : Bytes) (i top : ℕ) (stack : Bytes) (prev : Bool)
    → find_from cond (c ∷ s) i (top ∷ stack) prev
      ≡ find_from cond s (i + 1) (change_stack c (top ∷ stack)) (c == backslash && not prev)
unfolding find_from
find_from-inside cond c s i top stack prev =
    rw (==-suc_zero (length stack), and_false (cond c)) refl

change_stack-plain : (c : ℕ) (stack : Bytes) → is_plain c ≡ true → change_stack c stack ≡ stack
unfolding change_stack
change_stack-plain c stack h = ground arith

-- The place only counts.
find_from-place :
    (cond : ℕ → Bool) (s : Bytes) (i j : ℕ) (stack : Bytes) (prev : Bool)
    → i ≡ j
    → find_from cond s i stack prev ≡ find_from cond s j stack prev
find_from-place cond s i j stack prev e = ap (λ k. find_from cond s k stack prev) e

-- A group: an opening byte, what is passed over, and the byte that closes it.
find_from-group :
    (cond : ℕ → Bool) (o k : ℕ) (a rest : Bytes) (i top : ℕ) (stack : Bytes)
    → change_stack o (top ∷ stack) ≡ k ∷ top ∷ stack
    → change_stack k (k ∷ top ∷ stack) ≡ top ∷ stack
    → (o == backslash) ≡ false
    → (k == backslash) ≡ false
    → find_from cond (a ++ k ∷ rest) (i + 1) (k ∷ top ∷ stack) false
      ≡ find_from cond (k ∷ rest) (i + 1 + length a) (k ∷ top ∷ stack) false
    → find_from cond (o ∷ (a ++ k ∷ rest)) i (top ∷ stack) false
      ≡ find_from cond rest (i + 1 + length a + 1) (top ∷ stack) false
find_from-group cond o k a rest i top stack opens closes o_plain k_plain inside =
    find_from-inside cond o (a ++ k ∷ rest) i top stack false
    ∙ rw (opens, o_plain) inside
    ∙ find_from-inside cond k rest (i + 1 + length a) k (top ∷ stack) false
    ∙ rw (closes, k_plain) refl

find_from-Balanced :
    (cond : ℕ → Bool) (b rest : Bytes) (i top : ℕ) (stack : Bytes)
    → Balanced b
    → find_from cond (b ++ rest) i (top ∷ stack) false
      ≡ find_from cond rest (i + length b) (top ∷ stack) false
unfolding change_stack
find_from-Balanced cond [] rest i top stack nothing =
    find_from-place cond rest i (i + 0) (top ∷ stack) false (omega arith)
find_from-Balanced cond (c ∷ s) rest i top stack (plain h k) =
    let p : (c == backslash) ≡ false = ground arith in
    find_from-inside cond c (s ++ rest) i top stack false
    ∙ rw (change_stack-plain c (top ∷ stack) h, p)
        (find_from-Balanced cond s rest (i + 1) top stack k
          ∙ find_from-place cond rest _ _ (top ∷ stack) false (omega arith))
find_from-Balanced cond _ rest i top stack (parens {a} {s} h k) =
    rw (append_assoc a (close_paren ∷ s) rest) (
      find_from-group cond open_paren close_paren a (s ++ rest) i top stack refl refl refl refl
        (find_from-Balanced cond a (close_paren ∷ (s ++ rest)) (i + 1) close_paren (top ∷ stack) h)
      ∙ find_from-Balanced cond s rest (i + 1 + length a + 1) top stack k
      ∙ find_from-place cond rest _ _ (top ∷ stack) false
          (omega (arith, length-append a (close_paren ∷ s))))
find_from-Balanced cond _ rest i top stack (braces {a} {s} h k) =
    rw (append_assoc a (close_brace ∷ s) rest) (
      find_from-group cond open_brace close_brace a (s ++ rest) i top stack refl refl refl refl
        (find_from-Balanced cond a (close_brace ∷ (s ++ rest)) (i + 1) close_brace (top ∷ stack) h)
      ∙ find_from-Balanced cond s rest (i + 1 + length a + 1) top stack k
      ∙ find_from-place cond rest _ _ (top ∷ stack) false
          (omega (arith, length-append a (close_brace ∷ s))))

-- `FindOutsideParen` passes over a pair of parentheses with a text between them that holds no backslash
-- and in which parentheses and braces are balanced: it finds the byte where it finds it behind them, if
-- it does not look for an opening parenthesis, even if the byte stands inside.
pub find_outside_paren-Balanced :
    (b rest : Bytes) (c : ℕ)
    → c ≢ open_paren
    → Balanced b
    → find_outside_paren (open_paren ∷ (b ++ close_paren ∷ rest)) c
      ≡ shift (length b + 2) (find_outside_paren rest c)
unfolding find_outside_paren find_from change_stack
find_outside_paren-Balanced b rest c n h =
    let other : (c == open_paren) ≡ false = ground arith in
    rw other (
      find_from-Balanced (λ d. c == d) b (close_paren ∷ rest) 1 close_paren [] h
      ∙ find_from-inside (λ d. c == d) close_paren rest (1 + length b) close_paren [] false
      ∙ find_from-shift (λ d. c == d) rest (1 + length b + 1) [] false
      ∙ ap (λ k. shift k (find_from (λ d. c == d) rest 0 [] false)) (omega arith))
