-- ===== src/Parser/Assign.antt =====
-- Assignments as src/parser.cc takes them apart.
use kati.Prelude.{
  ℕ, ◌+◌, ◌-◌, ◌<◌, ◌≡◌, refl, sym, ap, ◌∙◌, Bool, true, false, ◌||◌, none, some, [], ◌∷◌, ◌++◌,
  arith, Bytes, length, length-append, append_assoc, ◌==◌, All, All-get_or, get_or-append_left,
  get_or-append_right,
}
use kati.Piece.{get, substr}
use kati.Strutil.Escape.{backslash}
use kati.Strutil.Paren.{find_from, change_stack, find_three_outside_paren}
use kati.Strutil.Pattern.Affix.{substr-front, substr-back}
use kati.Strutil.Trim.{trim_left_space, trim_space}
use kati.Eval.{AssignOp}
use kati.Parser.{Parser}
use kati.Parser.Statements.{parse_assign_statement, parse_rule_or_assign, parse_assign}

-- What stands before the `=` of an operator.
abbrev pub mark_of : AssignOp → Bytes
mark_of AssignOp.eq = []
mark_of AssignOp.colon_eq = b':' ∷ []
mark_of AssignOp.plus_eq = b'+' ∷ []
mark_of AssignOp.question_eq = b'?' ∷ []

-- A byte that ends a left side, or that opens or escapes something in it.
abbrev pub is_special : ℕ → Bool
is_special c =
    c == b':' || (c == b'=' || (c == b';' || (c == b'(' || (c == b'{' || c == backslash))))

abbrev separates : ℕ → Bool
separates d = d == b':' || (d == b'=' || d == b';')

-- A left side, which with a lone `=` does not end in the mark of another operator.
abbrev pub IsLhs : AssignOp → Bytes → Type 0
IsLhs op lhs =
    (0 < length lhs)
    × All (λ c. is_special c ≡ false) lhs
    × (length (mark_of op) ≡ 0
        → (get lhs (length lhs - 1) == b'+' || get lhs (length lhs - 1) == b'?') ≡ false)

find_from-step :
    (c : ℕ) (s : Bytes) (i : ℕ)
    → is_special c ≡ false
    → find_from separates (c ∷ s) i [] false ≡ find_from separates s (i + 1) [] false
unfolding find_from change_stack
find_from-step c s i h = ground arith

find_from-plain :
    (lhs t : Bytes) (i : ℕ)
    → All (λ c. is_special c ≡ false) lhs
    → find_from separates (lhs ++ t) i [] false ≡ find_from separates t (length lhs + i) [] false
find_from-plain [] t i h = ap (λ k. find_from separates t k [] false) (omega arith)
find_from-plain (c ∷ lhs) t i h =
    find_from-step c (lhs ++ t) i h.0
    ∙ find_from-plain lhs t (i + 1) h.1
    ∙ ap (λ k. find_from separates t k [] false) (omega arith)

find_from-here :
    (c : ℕ) (s : Bytes) (i : ℕ)
    → separates c ≡ true
    → find_from separates (c ∷ s) i [] false ≡ some i
unfolding find_from
find_from-here c s i h = ground arith

-- The place of the first `:` or `=`, from that of the mark on.
abbrev skipped : AssignOp → ℕ
skipped AssignOp.eq = 0
skipped AssignOp.colon_eq = 0
skipped AssignOp.plus_eq = 1
skipped AssignOp.question_eq = 1

-- An assignment as it is written, and the place of its `=`.
abbrev pub written : AssignOp → Bytes → Bytes → Bytes
written op lhs rhs = lhs ++ (mark_of op ++ b'=' ∷ rhs)

abbrev pub place : AssignOp → Bytes → ℕ
place op lhs = length lhs + length (mark_of op)

mark-found :
    (op : AssignOp) (rhs : Bytes) (i : ℕ)
    → find_from separates (mark_of op ++ b'=' ∷ rhs) i [] false ≡ some (i + skipped op)
mark-found AssignOp.eq rhs i = find_from-here b'=' rhs i refl ∙ ap some (omega arith)
mark-found AssignOp.colon_eq rhs i = find_from-here b':' (b'=' ∷ rhs) i refl ∙ ap some (omega arith)
mark-found AssignOp.plus_eq rhs i =
    find_from-step b'+' (b'=' ∷ rhs) i refl ∙ find_from-here b'=' rhs (i + 1) refl
mark-found AssignOp.question_eq rhs i =
    find_from-step b'?' (b'=' ∷ rhs) i refl ∙ find_from-here b'=' rhs (i + 1) refl

separator-found :
    (op : AssignOp) (lhs rhs : Bytes)
    → IsLhs op lhs
    → find_three_outside_paren (written op lhs rhs) b':' b'=' b';' ≡ some (length lhs + skipped op)
unfolding find_three_outside_paren
separator-found op lhs rhs h =
    find_from-plain lhs (mark_of op ++ b'=' ∷ rhs) 0 h.1
    ∙ mark-found op rhs (length lhs + 0)
    ∙ ap some (omega arith)

get-behind : (lhs t : Bytes) (k n : ℕ) → n ≡ length lhs + k → get (lhs ++ t) n ≡ get t k
get-behind lhs t k n e = get_or-append_right lhs t n k 0 e

by_op :
    (fuel : ℕ) (op : AssignOp) (lhs rhs : Bytes) (p : Parser)
    → IsLhs op lhs
    → parse_rule_or_assign fuel (written op lhs rhs) p
      ≡ parse_assign fuel (written op lhs rhs) (place op lhs) p
unfolding parse_rule_or_assign
by_op fuel AssignOp.eq lhs rhs p h =
    rw (separator-found AssignOp.eq lhs rhs h, parse_rule_or_assign)
      (rw (get-behind lhs (b'=' ∷ rhs) 0 (length lhs + 0) refl) refl)
by_op fuel AssignOp.colon_eq lhs rhs p h =
    rw (separator-found AssignOp.colon_eq lhs rhs h, parse_rule_or_assign)
      (rw
        (
          get-behind lhs (b':' ∷ b'=' ∷ rhs) 0 (length lhs + 0) refl,
          get-behind lhs (b':' ∷ b'=' ∷ rhs) 1 (length lhs + 0 + 1) (omega arith),
        )
        (ap (λ k. parse_assign fuel (written AssignOp.colon_eq lhs rhs) k p) (omega arith)))
by_op fuel AssignOp.plus_eq lhs rhs p h =
    rw (separator-found AssignOp.plus_eq lhs rhs h, parse_rule_or_assign)
      (rw (get-behind lhs (b'+' ∷ b'=' ∷ rhs) 1 (length lhs + 1) refl) refl)
by_op fuel AssignOp.question_eq lhs rhs p h =
    rw (separator-found AssignOp.question_eq lhs rhs h, parse_rule_or_assign)
      (rw (get-behind lhs (b'?' ∷ b'=' ∷ rhs) 1 (length lhs + 1) refl) refl)

rhs_of :
    (op : AssignOp) (lhs rhs : Bytes) → substr (written op lhs rhs) (place op lhs + 1) none ≡ rhs
rhs_of op lhs rhs =
    let front = lhs ++ (mark_of op ++ b'=' ∷ []) in
    let again : written op lhs rhs ≡ front ++ rhs =
      ap (λ t. lhs ++ t) (sym (append_assoc (mark_of op) (b'=' ∷ []) rhs))
      ∙ sym (append_assoc lhs (mark_of op ++ b'=' ∷ []) rhs) in
    ap (λ t. substr t (place op lhs + 1) none) again
    ∙ substr-back front rhs (place op lhs + 1) (
        omega (
          arith,
          length-append lhs (mark_of op ++ b'=' ∷ []),
          length-append (mark_of op) (b'=' ∷ []),
        ))

-- With a mark before the `=`.
marked : (c : ℕ) (lhs rhs : Bytes) → get (lhs ++ c ∷ b'=' ∷ rhs) (length lhs + 1 - 1) ≡ c
marked c lhs rhs = get-behind lhs (c ∷ b'=' ∷ rhs) 0 (length lhs + 1 - 1) (omega arith)

lhs_of :
    (op : AssignOp) (lhs rhs : Bytes) (n : ℕ)
    → n ≡ length lhs
    → substr (written op lhs rhs) 0 (some n) ≡ lhs
lhs_of op lhs rhs n e = substr-front lhs (mark_of op ++ b'=' ∷ rhs) n e

last_byte :
    (lhs t : Bytes)
    → 0 < length lhs
    → get (lhs ++ t) (length lhs + 0 - 1) ≡ get lhs (length lhs - 1)
last_byte lhs t h =
    let e : length lhs + 0 - 1 ≡ length lhs - 1 = omega arith in
    rw e (get_or-append_left lhs t (length lhs - 1) 0 (omega arith))

not_colon : (c : ℕ) → is_special c ≡ false → (c == b':') ≡ false
not_colon c h = ground arith

statement_of :
    (op : AssignOp) (lhs rhs : Bytes)
    → IsLhs op lhs
    → parse_assign_statement (written op lhs rhs) (place op lhs)
      ≡ (trim_space lhs, trim_left_space rhs, op)
unfolding parse_assign_statement
statement_of AssignOp.eq lhs rhs h =
    let c-is = last_byte lhs (b'=' ∷ rhs) h.0 in
    let special : is_special (get lhs (length lhs - 1)) ≡ false =
      All-get_or _ lhs (length lhs - 1) 0 h.1 (omega arith) in
    rw c-is (
      ground (
        arith,
        not_colon (get lhs (length lhs - 1)) special,
        h.2 refl,
        lhs_of AssignOp.eq lhs rhs (length lhs + 0) (omega arith),
        rhs_of AssignOp.eq lhs rhs,
      ))
statement_of AssignOp.colon_eq lhs rhs h =
    rw
      (
        marked b':' lhs rhs,
        lhs_of AssignOp.colon_eq lhs rhs (length lhs + 1 - 1) (omega arith),
        rhs_of AssignOp.colon_eq lhs rhs,
      )
      refl
statement_of AssignOp.plus_eq lhs rhs h =
    rw
      (
        marked b'+' lhs rhs,
        lhs_of AssignOp.plus_eq lhs rhs (length lhs + 1 - 1) (omega arith),
        rhs_of AssignOp.plus_eq lhs rhs,
      )
      refl
statement_of AssignOp.question_eq lhs rhs h =
    rw
      (
        marked b'?' lhs rhs,
        lhs_of AssignOp.question_eq lhs rhs (length lhs + 1 - 1) (omega arith),
        rhs_of AssignOp.question_eq lhs rhs,
      )
      refl

-- An assignment with any of the four operators is found as one: `ParseRuleOrAssign` goes on with
-- `ParseAssign` at the `=`, and `ParseAssignStatement` gives the operator, the left side without
-- spaces at its ends and the right side without those before it. The left side is not empty and holds no
-- byte of `:=;({` and no backslash, and before a lone `=` it does not end in `+` or `?`.
pub parse_rule_or_assign-written :
    (fuel : ℕ) (op : AssignOp) (lhs rhs : Bytes) (p : Parser)
    → IsLhs op lhs
    → (parse_rule_or_assign fuel (written op lhs rhs) p
        ≡ parse_assign fuel (written op lhs rhs) (place op lhs) p)
      × (parse_assign_statement (written op lhs rhs) (place op lhs)
          ≡ (trim_space lhs, trim_left_space rhs, op))
parse_rule_or_assign-written fuel op lhs rhs p h =
    (by_op fuel op lhs rhs p h, statement_of op lhs rhs h)
