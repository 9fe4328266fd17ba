-- ===== src/Parser/Balanced.antt =====
-- Conditionals that nest properly, as src/parser.cc reads them: each has its `endif`, and a chain
-- of `else ifdef` has one for all of it.
use kati.Prelude.{
  ℕ, ◌+◌, ◌≡◌, refl, sym, ap, subst, ◌∙◌, true, false, not, List, [], ◌∷◌, ◌++◌, arith, Bytes,
  length, ◌==◌, if_intro,
}
use kati.Strutil.Trim.{trim_left_space}
use kati.Parser.{
  Parser, Buffer, IfState, Outcome, to_ifdef, to_if, to_else, no_directive, find_handler,
  else_if_directives, get_directive, rest_of,
}
use kati.Parser.Statements.{push_back}
use kati.Parser.Line.{handle, handle_if, parse_else, else_if, parse_line}
use kati.Parser.Conditionals.{enter_if, parse_endif, pop_frames, top_stmts}
use kati.Parser.Run.{before_line}
use kati.Parser.Nested.{Holds, holds, after, after_parse, weaken}
use kati.Parser.Blocks.{
  Block, nothing, plain, conditional, Branch, closed, otherwise, otherwise_if, lines, branch_lines,
  IsDirective, argument, IsEnd, IsElseIf, IsBlock, IsBranch, At, from_some, clash, run, run-append,
  by_directive, plain-At,
}

from_cons :
    {P : Parser → Type 0} (x : Outcome Parser) (f : IfState → List IfState → Outcome Parser)
    {st : IfState} {stack : List IfState} (l : List IfState)
    → l ≡ st ∷ stack
    → Holds P (f st stack)
    → Holds P (elim l [ [] ↦ x | st' ∷ stack' ↦ f st' stack' ])
from_cons {P} x f l e h =
    subst (λ k. Holds P (elim k [ [] ↦ x | st' ∷ stack' ↦ f st' stack' ])) (sym e) h

true_branch :
    (st : IfState) (stack : List IfState)
    → st.is_in_else ≡ false
    → st.true_stmts ≡ top_stmts (st ∷ stack)
true_branch st stack e = ground arith

module _ (fuel : ℕ) (buf : Buffer) where
  -- The frames of a chain go together.
  pop_frames-At :
      {stack : List IfState} (frames : List IfState) (p : Parser)
      → (p.if_stack ≡ frames ++ stack) × (p.define_name ≡ []) × (p.num_if_nest ≡ 0)
      → p.out_stmts ≡ top_stmts (frames ++ stack)
      → Holds (At stack) (pop_frames (length frames) p)
  unfolding pop_frames
  pop_frames-At [] p h e = holds (h.0, e, h.1, h.2)
  pop_frames-At {stack} (st ∷ frames) p h e = from_cons _ _ p.if_stack h.0 (
      pop_frames-At frames
        (record p { if_stack = frames ++ stack; out_stmts = top_stmts (frames ++ stack) })
        (refl, h.1, h.2) refl)

  -- `endif` takes away the last frame and those that go with it.
  end-At :
      {stack : List IfState} (line : Bytes) (st : IfState) (others : List IfState) (p : Parser)
      → IsEnd line
      → st.num_nest ≡ length others
      → At (st ∷ (others ++ stack)) p
      → Holds (At stack) (parse_line fuel buf line p)
  unfolding handle parse_endif
  end-At {stack} line st others p d n h =
      let p' : Parser = record p { current_directive = no_directive } in
      let count : length (st ∷ others) ≡ st.num_nest + 1 = omega (arith, n) in
      by_directive fuel buf line p d.0 h.2 (
        from_cons _ _ p.if_stack h.0 (
          if_intro (Holds (At stack)) (not (length (argument line) == 0))
            (λ t. absurd (ground (arith, ap length d.1)))
            (λ t.
              subst (λ k. Holds (At stack) (pop_frames k p')) count
                (pop_frames-At (st ∷ others) p' (h.0, h.2, h.3) h.1))))

  -- A conditional is open, as the frame on top of a stack, with `k` others that go with it.
  abbrev Opened : ℕ → List IfState → Parser → Type 0
  Opened k stack q =
      (st : IfState) × (st.is_in_else ≡ false) × (st.num_nest ≡ k) × At (st ∷ stack) q

  -- The same, while the number for the next frame is still set.
  abbrev Entered : ℕ → List IfState → Parser → Type 0
  Entered k stack q =
      (st : IfState) × (st.is_in_else ≡ false)
      × (st.num_nest ≡ k)
      × (q.if_stack ≡ st ∷ stack)
      × (q.out_stmts ≡ st.true_stmts)
      × (q.define_name ≡ [])
      × (q.num_if_nest ≡ k)

  ifdef-Entered :
      {stack : List IfState} (line directive : Bytes) (p : Parser)
      → p.if_stack ≡ stack
      → p.define_name ≡ []
      → Holds (Entered p.num_if_nest stack) (handle_if fuel to_ifdef line directive p)
  unfolding handle_if enter_if push_back
  ifdef-Entered line directive p e d =
      let n = length p.vectors in
      let st : IfState = record {
        true_stmts = n;
        false_stmts = n + 1;
        is_in_else = false;
        num_nest = p.num_if_nest;
      } in
      after_parse _ _ (λ v k loc. holds (st, refl, refl, ap (◌∷◌ st) e, refl, d, refl))

  Entered-Opened :
      (k : ℕ) (stack : List IfState) (q : Parser)
      → Entered k stack q
      → Opened k stack (record q { num_if_nest = 0 })
  Entered-Opened k stack q (st, b, n, e, out, d, m) =
      (st, b, n, (e, out ∙ true_branch st stack b, d, refl))

  head-Opened :
      {stack : List IfState} (line : Bytes) (p : Parser)
      → IsDirective line (to_if to_ifdef)
      → At stack p
      → Holds (Opened 0 stack) (parse_line fuel buf line p)
  unfolding handle
  head-Opened {stack} line p d h = by_directive fuel buf line p d h.2 (
      weaken
        (ifdef-Entered (argument line) (get_directive (trim_left_space line))
          (record p { current_directive = no_directive }) h.0 h.2)
        (λ q t.
          let zero_nest : q.num_if_nest ≡ 0 = t.6 ∙ h.3 in
          let (st, b, n, at) =
            subst (λ k. Opened k stack (record q { num_if_nest = 0 })) h.3
              (Entered-Opened p.num_if_nest stack q t) in
          (st, b, n, (at.0, at.1, at.2, zero_nest))))

  abbrev in_else : IfState → IfState
  in_else st = record st { is_in_else = true }

  else-At :
      {stack : List IfState} (line : Bytes) (st : IfState) (p : Parser)
      → IsDirective line to_else
      → (length (trim_left_space (argument line)) == 0) ≡ true
      → st.is_in_else ≡ false
      → At (st ∷ stack) p
      → Holds (At (in_else st ∷ stack)) (parse_line fuel buf line p)
  unfolding handle parse_else
  else-At {stack} line st p d e b h = by_directive fuel buf line p d h.2 (
      from_cons _ _ p.if_stack h.0 (
        if_intro (Holds (At (in_else st ∷ stack))) st.is_in_else (λ t. absurd (clash t b))
          (λ t.
            if_intro (Holds (At (in_else st ∷ stack)))
              (length (trim_left_space (argument line)) == 0)
              (λ u.
                holds
                  {a = record p {
                    current_directive = no_directive;
                    if_stack = in_else st ∷ stack;
                    out_stmts = st.false_stmts;
                  }}
                  (refl, refl, h.2, h.3))
              (λ u. absurd (clash e u)))))

  else_if-Opened :
      {stack : List IfState} (line : Bytes) (st : IfState) (p : Parser)
      → IsElseIf line
      → st.is_in_else ≡ false
      → At (st ∷ stack) p
      → Holds (Opened (st.num_nest + 1) (in_else st ∷ stack)) (parse_line fuel buf line p)
  unfolding handle parse_else else_if
  else_if-Opened {stack} line st p d b h = by_directive fuel buf line p d.0 h.2 (
      let next_if = trim_left_space (argument line) in
      let above = in_else st ∷ stack in
      let nested : Parser = record p {
        current_directive = no_directive;
        if_stack = above;
        out_stmts = st.false_stmts;
        num_if_nest = st.num_nest + 1;
      } in
      from_cons _ _ p.if_stack h.0 (
        if_intro (Holds (Opened (st.num_nest + 1) above)) st.is_in_else (λ t. absurd (clash t b))
          (λ t.
            if_intro (Holds (Opened (st.num_nest + 1) above)) (length next_if == 0)
              (λ u. absurd (clash u d.1))
              (λ u. from_some _ _ (find_handler else_if_directives (get_directive next_if)) d.2 (
                after (ifdef-Entered (rest_of next_if) (get_directive next_if) nested refl h.2)
                  (λ q k. holds (Entered-Opened (st.num_nest + 1) above q k)))))))

  mutual
    unfolding run lines branch_lines

    run-At :
        (b : Block) {stack : List IfState} (p : Parser)
        → IsBlock b
        → At stack p
        → Holds (At stack) (run fuel buf (lines b) p)
    run-At nothing p v h = holds h
    run-At (plain line b) p v h =
        after (plain-At fuel buf line (before_line line p) v.0 h) (λ q k. run-At b q v.1 k)
    run-At (conditional head body br b) {stack} p v h =
        after (head-Opened head (before_line head p) v.0 h) (λ q o.
          let (st, e, n, at) = o in
          run-append fuel buf (lines body) (branch_lines br ++ lines b) q (run-At body q v.1 at)
            (λ r at'.
              run-append fuel buf (branch_lines br) (lines b) r (branch-At br st [] r v.2 e n at')
                (λ r' k. run-At b r' v.3 k)))

    branch-At :
        (br : Branch) {stack : List IfState} (st : IfState) (others : List IfState) (p : Parser)
        → IsBranch br
        → st.is_in_else ≡ false
        → st.num_nest ≡ length others
        → At (st ∷ (others ++ stack)) p
        → Holds (At stack) (run fuel buf (branch_lines br) p)
    branch-At (closed end) st others p v e n h =
        after (end-At end st others (before_line end p) v n h) (λ q k. holds k)
    branch-At (otherwise else_line body end) st others p v e n h =
        after (else-At else_line st (before_line else_line p) v.0 v.1 e h) (λ q at.
          run-append fuel buf (lines body) (end ∷ []) q (run-At body q v.2 at) (λ r at'.
            after (end-At end (in_else st) others (before_line end r) v.3 n at') (λ r' k. holds k)))
    branch-At (otherwise_if else_line body br) st others p v e n h =
        after (else_if-Opened else_line st (before_line else_line p) v.0 e h) (λ q o.
          let (st', e', n', at) = o in
          run-append fuel buf (lines body) (branch_lines br) q (run-At body q v.1 at)
            (λ r at'. branch-At br st' (in_else st ∷ others) r v.2 e' (omega (arith, n, n')) at'))

-- Lines with conditionals that nest properly, in any depth: each begins with `ifdef` or `ifndef`, goes
-- on with a chain of `else ifdef` and `else ifndef` of any length and perhaps an `else`, and ends with
-- `endif`; the other lines hold no directive. If the lines are read to the end, the stack of
-- conditionals is as before, statements go where they went, and no definition is open. Before them, no
-- definition is open either, and statements go to the branch of the frame on top.
pub run-Balanced :
    (fuel : ℕ) (buf : Buffer) (b : Block) (stack : List IfState) (p : Parser)
    → IsBlock b
    → At stack p
    → Holds (At stack) (run fuel buf (lines b) p)
run-Balanced fuel buf b stack p v h = run-At fuel buf b p v h
