-- ===== src/Parser/Line.antt =====
-- The conditionals, the definitions and the directives of src/parser.cc, and `ParseLine`. Warnings
-- are left out. A directive that marks assignments can stand behind another one; `steps` bounds how
-- many.
use kati.Prelude.{
  ℕ, zero, suc, ◌+◌, ◌-◌, Bool, true, false, not, ◌&&◌, ◌||◌, Option, none, some, [], ◌∷◌, Bytes,
  length, drop, take, ◌==◌, if◌then◌else◌, codes, text_eq,
}
use kati.Piece.{get, substr, find_byte}
use kati.Strutil.Trim.{trim_left_space}
use kati.Rule.{Loc}
use kati.Eval.{AssignOp}
use kati.Expr.{Value}
use kati.Expr.Scan.{ParseExprOpt, next_line}
use kati.Expr.Parse.{parse_expr, parse_expr_impl}
use kati.Parser.{
  Parser, Buffer, IfState, assign_stmt, command_stmt, CondOp, Outcome, result, ◌>>=◌, no_directive,
  IfHandler, to_ifdef, to_ifeq, to_define, to_export, to_override, MakeHandler, to_include, to_else,
  to_endif, to_unexport, to_if, to_assign, else_if_directives, assign_directives, make_directives,
  find_handler, get_directive, rest_of,
}
use kati.Parser.Statements.{
  push_back, error, ended, create_export, parse_include, parse_rule_or_assign,
}
use kati.Parser.Conditionals.{
  enter_if, Sides, parse_endif, parse_define, mark, cond_op, define_nest, is_after_rule,
}

module _ (fuel : ℕ) where
  -- One quoted side of `ifeq`, and the text behind it.
  unfoldable pub quoted : Loc → Bytes → Outcome (Option (Value × Bytes × Loc))
  unfolding find_byte substr trim_left_space
  quoted loc s = elim (find_byte s (get s 0) 1) [
    | none ↦ result none
    | some end ↦
        if get s 0 == b'\'' || get s 0 == b'"'
        then (do
          (v, n, loc') ←
              ended (parse_expr fuel loc (substr s 1 (some (end - 1))) ParseExprOpt.normal)
          result (some (v, trim_left_space (substr s (end + 1) none), loc')))
        else result none
  ]

  -- `ParseIfEqCond` of a condition in parentheses, which are taken off, and of one in quotes.
  unfoldable pub paren_sides : Loc → Bytes → Outcome Sides
  unfolding substr trim_left_space
  paren_sides loc s = do
    let terms = some (b',' ∷ [])
    (lhs, n, loc') ← ended (parse_expr_impl fuel loc s terms ParseExprOpt.normal true)
    let behind = trim_left_space (substr s (n + 1) none)
    if not (get s n == b',') then result none else (do
      (rhs, m, loc'') ← ended (parse_expr_impl fuel loc' behind none ParseExprOpt.normal false)
      result (some (lhs, rhs)))

  unfoldable pub quoted_sides : Loc → Bytes → Outcome Sides
  unfolding quoted
  quoted_sides loc s = do
    first ← quoted loc s
    elim first [
      | none ↦ result none
      | some (lhs, behind, loc') ↦ do
        second ← quoted loc' behind
        elim second [ none ↦ result none | some (rhs, rest, loc'') ↦ result (some (lhs, rhs)) ]
    ]

  -- `ParseIfEqCond`.
  unfoldable pub parse_if_eq_cond : Bytes → Parser → Outcome Sides
  unfolding paren_sides quoted_sides substr
  parse_if_eq_cond s p =
      if length s == 0
      then result none
      else if get s 0 == b'(' && get s (length s - 1) == b')'
      then paren_sides p.loc (substr s 1 (some (length s - 2)))
      else quoted_sides p.loc s

  -- `ParseIfdef` and `ParseIfeq`.
  unfoldable pub handle_if : IfHandler → Bytes → Bytes → Parser → Outcome Parser
  unfolding enter_if parse_if_eq_cond error
  handle_if to_ifdef line directive p = do
    (v, n, loc) ← ended (parse_expr fuel p.loc line ParseExprOpt.normal)
    result (enter_if (cond_op directive CondOp.ifdef CondOp.ifndef) v none p)
  handle_if to_ifeq line directive p = do
    sides ← parse_if_eq_cond line p
    elim sides [
      | none ↦ result (error (codes "*** invalid syntax in conditional.") p)
      | some (lhs, rhs) ↦
          result (enter_if (cond_op directive CondOp.ifeq CondOp.ifneq) lhs (some rhs) p)
    ]

  -- The end of `ParseElse`, inside the second branch of `st`: another condition may follow on the line.
  unfoldable pub else_if : Bytes → IfState → Parser → Outcome Parser
  unfolding handle_if find_handler get_directive rest_of
  else_if next_if st p = elim (find_handler else_if_directives (get_directive next_if)) [
    | none ↦ result (record p { num_if_nest = 0 })
    | some h ↦ do
      let nested = record p { num_if_nest = st.num_nest + 1 }
      p' ← handle_if h (rest_of next_if) (get_directive next_if) nested
      result (record p' { num_if_nest = 0 })
  ]

  -- `ParseElse`, with `CheckIfStack`.
  unfoldable pub parse_else : Bytes → Parser → Outcome Parser
  unfolding error else_if trim_left_space
  parse_else line p = elim p.if_stack [
    | [] ↦ result (error (codes "*** extraneous `else'.") p)
    | st ∷ stack ↦
        let p' = record p {
          if_stack = record st { is_in_else = true } ∷ stack;
          out_stmts = st.false_stmts;
        } in
        if st.is_in_else
        then result (error (codes "*** only one `else' per conditional.") p)
        else if length (trim_left_space line) == 0
        then result p'
        else else_if (trim_left_space line) st p'
  ]

  -- Behind `override` or `export` where no other directive follows.
  unfoldable pub unmarked : Bytes → Parser → Outcome Parser
  unfolding create_export parse_rule_or_assign
  unmarked line p = do
    p' ← if p.current_directive.export then create_export fuel line true p else result p
    parse_rule_or_assign fuel line p'

  -- `ParseExport` and `ParseOverride`.
  unfoldable pub modified : ℕ → Bool → Bytes → Parser → Outcome Parser
  unfolding unmarked parse_define find_handler get_directive rest_of
  modified zero is_export line p = Outcome.out_of_rounds
  modified (suc steps) is_export line p =
      elim (find_handler assign_directives (get_directive line)) [
        | none ↦ unmarked line (mark is_export p)
        | some to_define ↦ result (parse_define (rest_of line) (mark is_export p))
        | some to_export ↦ modified steps true (rest_of line) (mark is_export p)
        | some to_override ↦ modified steps false (rest_of line) (mark is_export p)
      ]

  -- The handlers of the whole table.
  unfoldable pub handle : MakeHandler → Bytes → Bytes → Parser → Outcome Parser
  unfolding parse_include parse_else parse_endif create_export handle_if modified parse_define
  handle to_include line directive p = parse_include fuel line directive p
  handle to_else line directive p = parse_else line p
  handle to_endif line directive p = parse_endif line p
  handle to_unexport line directive p = create_export fuel line false p
  handle (to_if h) line directive p = handle_if h line directive p
  handle (to_assign to_define) line directive p = result (parse_define line p)
  handle (to_assign to_export) line directive p = modified (length line + 1) true line p
  handle (to_assign to_override) line directive p = modified (length line + 1) false line p

  -- The statement of a definition that ends before the line at `l`.
  unfoldable pub end_define : Buffer → Parser → Outcome Parser
  unfolding push_back substr
  end_define buf p = do
    let at = record p.loc { lineno = p.define_start_line }
    let body = substr (take buf.size buf.mem) p.define_start (some (p.l - p.define_start - 1))
    let rhs = if p.define_start == 0 then [] else body
    (lhs, n, loc) ← ended (parse_expr fuel at p.define_name ParseExprOpt.normal)
    (value, m, loc') ← ended (parse_expr fuel (next_line loc) rhs ParseExprOpt.define)
    result
        (record (push_back (assign_stmt at lhs value rhs AssignOp.eq p.current_directive false) p) {
          define_name = [];
        })

  -- `ParseInsideDefine`.
  unfoldable pub parse_inside_define : Buffer → Bytes → Parser → Outcome Parser
  unfolding define_nest end_define
  parse_inside_define buf line p =
      let nest = define_nest line p.num_define_nest in
      let start = if p.define_start == 0 then p.l else p.define_start in
      if nest == 0
      then end_define buf (record p { num_define_nest = nest })
      else result (record p { num_define_nest = nest; define_start = start })

  -- `ParseLine` behind the test for a command.
  unfoldable pub directive_line : Bytes → Parser → Outcome Parser
  unfolding handle parse_rule_or_assign find_handler get_directive rest_of
  directive_line line p = elim (find_handler make_directives (get_directive line)) [
    | none ↦ parse_rule_or_assign fuel line p
    | some h ↦ handle h (rest_of line) (get_directive line) p
  ]

  unfoldable pub plain_line : Bytes → Parser → Outcome Parser
  unfolding directive_line push_back trim_left_space
  plain_line line p =
      if get line 0 == b'\t' && is_after_rule p.state
      then (do
        (v, n, loc) ← ended (parse_expr fuel p.loc (drop 1 line) ParseExprOpt.command)
        result (push_back (command_stmt p.loc v line) p))
      else if get (trim_left_space line) 0 == b'#'
      then result p
      else directive_line (trim_left_space line) p

  -- `ParseLine`.
  unfoldable pub parse_line : Buffer → Bytes → Parser → Outcome Parser
  unfolding parse_inside_define plain_line
  parse_line buf line p =
      if not (length p.define_name == 0)
      then parse_inside_define buf line p
      else if length line == 0 || text_eq line (b'\r' ∷ [])
      then result p
      else plain_line line (record p { current_directive = no_directive })
