-- ===== src/Parser/Stack.antt =====
-- The stack of conditionals of src/parser.cc: frames that are put on it and taken off.
use kati.Prelude.{
  ℕ, zero, suc, ◌+◌, ◌≤◌, ◌≡◌, refl, not, Option, List, [], ◌∷◌, ◌++◌, arith, Bytes, length, ◌==◌,
  if_intro, length-append, ap, subst, or_true,
}
use kati.Expr.{Value}
use kati.Parser.{
  Parser, IfState, Stmt, if_stmt, CondOp, Outcome, AssignHandler, to_define, to_export, to_override,
}
use kati.Parser.Statements.{push_to, push_back}
use kati.Parser.Conditionals.{enter_if, parse_define, parse_endif, pop_frames, top_stmts}
use kati.Parser.Nested.{
  Holds, holds, Frames, HasNest, IsNested, Same, Same-HasNest, weaken, length-push_to,
  error-HasNest,
}

pub same : {r : Outcome Parser} (p : Parser) → Holds (Same p) r → IsNested p → Holds IsNested r
same p s h = weaken s (λ q k. Same-HasNest p q k h)

Frames-le : (m n : ℕ) (stack : List IfState) → m ≤ n → Frames m stack → Frames n stack
Frames-le m n [] le h = omega arith
Frames-le m n (st ∷ stack) le h = (h.0, omega arith, omega arith, Frames-le m n stack le h.3)

pub enter_if-HasNest :
    {k : ℕ} (op : CondOp) (lhs : Value) (rhs : Option Value) (p : Parser)
    → k ≤ length p.if_stack
    → HasNest k p
    → HasNest k (enter_if op lhs rhs p)
unfolding enter_if push_back
enter_if-HasNest {k} op lhs rhs p le h =
    let n = length p.vectors in
    let s = if_stmt p.loc op lhs rhs n (n + 1) in
    let vs = push_to p.out_stmts s p.vectors in
    let two : List (List Stmt) = [] ∷ [] ∷ [] in
    let grown : length (vs ++ two) ≡ n + 2 =
      omega (arith, length-append vs two, length-push_to p.out_stmts s p.vectors) in
    (
      (
        refl,
        (
          omega (arith, h.1),
          omega (arith, grown),
          omega (arith, grown),
          Frames-le n _ p.if_stack (omega (arith, grown)) h.0.1,
        ),
        h.0.2,
      ),
      h.1,
    )

pub by_stack :
    {P : Parser → Type 0} {x : Outcome Parser} {f : IfState → List IfState → Outcome Parser}
    (l : List IfState)
    → Holds P x
    → ((st : IfState) (stack : List IfState) → l ≡ st ∷ stack → Holds P (f st stack))
    → Holds P (elim l [ [] ↦ x | st ∷ stack ↦ f st stack ])
by_stack [] h k = h
by_stack (st ∷ stack) h k = k st stack refl

pub by_assign :
    {P : Parser → Type 0} {x y z : Outcome Parser} (i : AssignHandler)
    → Holds P x
    → Holds P y
    → Holds P z
    → Holds P (elim i [ to_define ↦ x | to_export ↦ y | to_override ↦ z ])
by_assign to_define h k l = h
by_assign to_export h k l = k
by_assign to_override h k l = l

-- The top frame of a stack that has one goes.
pop_top :
    {n k : ℕ} {P : Parser → Type 0} (x : Outcome Parser) (f : List IfState → Outcome Parser)
    (l : List IfState)
    → Frames n l
    → suc k ≤ length l
    → ((stack : List IfState) → k ≤ length stack → Frames n stack → Holds P (f stack))
    → Holds P (elim l [ [] ↦ x | st ∷ stack ↦ f stack ])
pop_top x f [] h le g = absurd (omega arith)
pop_top x f (st ∷ stack) h le g = g stack (omega arith) h.3

pop_frames-IsNested :
    (n : ℕ) (p : Parser) → n ≤ length p.if_stack → IsNested p → Holds IsNested (pop_frames n p)
unfolding pop_frames
pop_frames-IsNested zero p le h = holds h
pop_frames-IsNested (suc n) p le h = pop_top _ _ p.if_stack h.0.1 le (λ stack le' framed.
    pop_frames-IsNested n (record p { if_stack = stack; out_stmts = top_stmts stack }) le'
      ((refl, framed, h.0.2), h.1))

pub parse_endif-IsNested :
    (line : Bytes) (p : Parser) → IsNested p → Holds IsNested (parse_endif line p)
unfolding parse_endif
parse_endif-IsNested line p h = by_stack p.if_stack (holds (error-HasNest _ p h)) (λ st stack e.
    let framed : Frames (length p.vectors) (st ∷ stack) =
      subst (Frames (length p.vectors)) e h.0.1 in
    if_intro (Holds IsNested) (not (length line == 0)) (λ t. holds (error-HasNest _ p h))
      (λ t. pop_frames-IsNested (st.num_nest + 1) p (omega (arith, framed.0, ap length e)) h))

pub parse_define-IsNested :
    (line : Bytes) (p : Parser) → IsNested p → IsNested (parse_define line p)
unfolding parse_define
parse_define-IsNested line p h =
    if_intro IsNested (length line == 0) (λ e. error-HasNest _ p h)
      (λ e. ((h.0.0, h.0.1, or_true (length line == 0)), h.1))
