-- ===== src/Parser/Frames.antt =====
-- The conditionals, the directives and the lines of src/parser.cc keep the frames in order.
use kati.Prelude.{
  ℕ, zero, suc, ◌+◌, ◌-◌, ◌≤◌, ◌<◌, ◌≡◌, refl, Bool, true, false, not, ◌&&◌, ◌||◌, none, some, [],
  ◌∷◌, arith, Bytes, length, text_eq, ◌==◌, if_intro, subst,
}
use kati.Piece.{get, substr, find_byte}
use kati.Strutil.Trim.{trim_left_space}
use kati.Rule.{Loc}
use kati.Parser.{
  Parser, Buffer, IfState, IfHandler, to_ifdef, to_ifeq, to_define, to_export, to_override,
  MakeHandler, to_include, to_else, to_endif, to_unexport, to_if, to_assign, no_directive,
  find_handler, assign_directives, make_directives, else_if_directives, get_directive, rest_of,
}
use kati.Parser.Statements.{push_back}
use kati.Parser.Line.{
  quoted, paren_sides, quoted_sides, handle_if, parse_if_eq_cond, else_if, parse_else, unmarked,
  modified, handle, end_define, parse_inside_define, directive_line, plain_line, parse_line,
}
use kati.Parser.Conditionals.{define_nest, is_after_rule, mark, top_stmts}
use kati.Parser.Nested.{
  Holds, holds, Any, Frames, Framed, HasNest, IsNested, after, by_option, after_parse,
  length-push_to, push_back-HasNest, error-HasNest, parse_include-Same, create_export-Same,
  parse_rule_or_assign-Same,
}
use kati.Parser.Shorter.{rest_of-shorter}
use kati.Parser.Stack.{
  same, enter_if-HasNest, by_stack, by_assign, parse_endif-IsNested, parse_define-IsNested,
}

module _ (fuel : ℕ) where
  quoted-Any : (loc : Loc) (s : Bytes) → Holds Any (quoted fuel loc s)
  unfolding quoted
  quoted-Any loc s = by_option (find_byte s (get s 0) 1) (holds tt) (λ end e.
      if_intro (Holds Any) (get s 0 == b'\'' || get s 0 == b'"')
        (λ t. after_parse _ _ (λ v n loc. holds tt)) (λ t. holds tt))

  parse_if_eq_cond-Any : (s : Bytes) (p : Parser) → Holds Any (parse_if_eq_cond fuel s p)
  unfolding parse_if_eq_cond paren_sides quoted_sides
  parse_if_eq_cond-Any s p =
      if_intro (Holds Any) (length s == 0) (λ e. holds tt)
        (λ e.
          if_intro (Holds Any) (get s 0 == b'(' && get s (length s - 1) == b')')
            (λ t. after_parse _ _ (λ v n loc.
              if_intro (Holds Any) (not (get (substr s 1 (some (length s - 2))) n == b','))
                (λ u. holds tt) (λ u. after_parse _ _ (λ w m loc'. holds tt))))
            (λ t. after (quoted-Any p.loc s) (λ o u. by_option o (holds tt) (λ r r-is.
              after (quoted-Any r.2 r.1)
                (λ o' u'. by_option o' (holds tt) (λ r' r'-is. holds tt))))))

  handle_if-HasNest :
      {k : ℕ} (h : IfHandler) (line directive : Bytes) (p : Parser)
      → k ≤ length p.if_stack
      → HasNest k p
      → Holds (HasNest k) (handle_if fuel h line directive p)
  unfolding handle_if
  handle_if-HasNest to_ifdef line directive p le h =
      after_parse _ _ (λ v n loc. holds (enter_if-HasNest _ v none p le h))
  handle_if-HasNest to_ifeq line directive p le h = after (parse_if_eq_cond-Any line p) (λ sides u.
      by_option sides (holds (error-HasNest _ p h))
        (λ r e. holds (enter_if-HasNest _ r.0 (some r.1) p le h)))

  else_if-IsNested :
      (next_if : Bytes) (st : IfState) (p : Parser)
      → st.num_nest + 1 ≤ length p.if_stack
      → Framed p
      → Holds IsNested (else_if fuel next_if st p)
  unfolding else_if
  else_if-IsNested next_if st p le h =
      by_option (find_handler else_if_directives (get_directive next_if)) (holds (h, refl)) (λ i e.
        after
          (handle_if-HasNest i (rest_of next_if) (get_directive next_if)
            (record p { num_if_nest = st.num_nest + 1 }) le (h, refl))
          (λ q k. holds (k.0, refl)))

  parse_else-IsNested :
      (line : Bytes) (p : Parser) → IsNested p → Holds IsNested (parse_else fuel line p)
  unfolding parse_else
  parse_else-IsNested line p h = by_stack p.if_stack (holds (error-HasNest _ p h)) (λ st stack e.
      let framed : Frames (length p.vectors) (st ∷ stack) =
        subst (Frames (length p.vectors)) e h.0.1 in
      let inside : Parser = record p {
        if_stack = record st { is_in_else = true } ∷ stack;
        out_stmts = st.false_stmts;
      } in
      if_intro (Holds IsNested) st.is_in_else (λ t. holds (error-HasNest _ p h))
        (λ t.
          if_intro (Holds IsNested) (length (trim_left_space line) == 0)
            (λ u. holds {a = inside} ((refl, framed, h.0.2), h.1))
            (λ u.
              else_if-IsNested (trim_left_space line) st inside (omega (arith, framed.0))
                (refl, framed, h.0.2))))

  unmarked-IsNested :
      (line : Bytes) (p : Parser) → IsNested p → Holds IsNested (unmarked fuel line p)
  unfolding unmarked
  unmarked-IsNested line p h =
      after
        (if_intro (Holds IsNested) p.current_directive.export
          (λ e. same p (create_export-Same fuel line true p) h) (λ e. holds h))
        (λ q k. same q (parse_rule_or_assign-Same fuel line q) k)

  modified-IsNested :
      (steps : ℕ) (b : Bool) (line : Bytes) (p : Parser)
      → length line < steps
      → IsNested p
      → Holds IsNested (modified fuel steps b line p)
  unfolding modified
  modified-IsNested zero b line p le h = absurd (omega arith)
  modified-IsNested (suc steps) b line p le h =
      by_option (find_handler assign_directives (get_directive line))
        (unmarked-IsNested line (mark b p) h)
        (λ i e.
          let shorter : length (rest_of line) < steps =
            omega (arith, rest_of-shorter assign_directives line refl e) in
          by_assign i (holds (parse_define-IsNested (rest_of line) (mark b p) h))
            (modified-IsNested steps true (rest_of line) (mark b p) shorter h)
            (modified-IsNested steps false (rest_of line) (mark b p) shorter h))

  handle-IsNested :
      (i : MakeHandler) (line directive : Bytes) (p : Parser)
      → IsNested p
      → Holds IsNested (handle fuel i line directive p)
  unfolding handle
  handle-IsNested to_include line directive p h =
      same p (parse_include-Same fuel line directive p) h
  handle-IsNested to_else line directive p h = parse_else-IsNested line p h
  handle-IsNested to_endif line directive p h = parse_endif-IsNested line p h
  handle-IsNested to_unexport line directive p h = same p (create_export-Same fuel line false p) h
  handle-IsNested (to_if i) line directive p h =
      handle_if-HasNest i line directive p (omega arith) h
  handle-IsNested (to_assign to_define) line directive p h = holds (parse_define-IsNested line p h)
  handle-IsNested (to_assign to_export) line directive p h =
      modified-IsNested (length line + 1) true line p (omega arith) h
  handle-IsNested (to_assign to_override) line directive p h =
      modified-IsNested (length line + 1) false line p (omega arith) h

  -- Framed but for the depth of the definition, which is closed.
  end_define-IsNested :
      (buf : Buffer) (p : Parser)
      → (p.out_stmts ≡ top_stmts p.if_stack)
        × Frames (length p.vectors) p.if_stack
        × (p.num_if_nest ≡ 0)
      → Holds IsNested (end_define fuel buf p)
  unfolding end_define push_back
  end_define-IsNested buf p h = after_parse _ _ (λ v n loc.
      after_parse _ _
        (λ w m loc'. holds ((h.0, rw (length-push_to p.out_stmts _ p.vectors) h.1, refl), h.2)))

  parse_inside_define-IsNested :
      (buf : Buffer) (line : Bytes) (p : Parser)
      → IsNested p
      → Holds IsNested (parse_inside_define fuel buf line p)
  unfolding parse_inside_define
  parse_inside_define-IsNested buf line p h =
      let nest = define_nest line p.num_define_nest in
      if_intro (Holds IsNested) (nest == 0)
        (λ e. end_define-IsNested buf (record p { num_define_nest = nest }) (h.0.0, h.0.1, h.1))
        (λ e. holds ((h.0.0, h.0.1, ground arith), h.1))

  directive_line-IsNested :
      (line : Bytes) (p : Parser) → IsNested p → Holds IsNested (directive_line fuel line p)
  unfolding directive_line
  directive_line-IsNested line p h =
      by_option (find_handler make_directives (get_directive line))
        (same p (parse_rule_or_assign-Same fuel line p) h)
        (λ i e. handle-IsNested i (rest_of line) (get_directive line) p h)

  -- A line keeps the frames in order, whatever it is.
  pub parse_line-IsNested :
      (buf : Buffer) (line : Bytes) (p : Parser)
      → IsNested p
      → Holds IsNested (parse_line fuel buf line p)
  unfolding parse_line plain_line push_back
  parse_line-IsNested buf line p h =
      if_intro (Holds IsNested) (not (length p.define_name == 0))
        (λ e. parse_inside_define-IsNested buf line p h)
        (λ e.
          if_intro (Holds IsNested) (length line == 0 || text_eq line (b'\r' ∷ [])) (λ t. holds h)
            (λ t.
              if_intro (Holds IsNested) (get line 0 == b'\t' && is_after_rule p.state)
                (λ u. after_parse _ _ (λ v n loc. holds (push_back-HasNest _ p h)))
                (λ u.
                  if_intro (Holds IsNested) (get (trim_left_space line) 0 == b'#') (λ w. holds h)
                    (λ w.
                      directive_line-IsNested (trim_left_space line)
                        (record p { current_directive = no_directive }) h))))
