-- ===== src/Parser/Statements.antt =====
-- The handlers of src/parser.cc that add one statement: rules, assignments, commands, includes, exports and
-- errors. Every read behind the end of a line is taken to give 0. `fuel` is that of the parser of
-- expressions.
use kati.Prelude.{
  ℕ, zero, suc, ◌+◌, ◌-◌, Bool, true, false, ◌&&◌, Option, none, some, List, [], ◌∷◌, ◌++◌, Bytes,
  length, leb, ltb, ◌==◌, if◌then◌else◌, codes,
}
use kati.Piece.{get, substr, shift}
use kati.Strutil.Paren.{find_two_outside_paren, find_three_outside_paren}
use kati.Strutil.Trim.{trim_left_space, trim_space}
use kati.Rule.{Loc}
use kati.Eval.{AssignOp}
use kati.Expr.{Value}
use kati.Expr.Scan.{ParseExprOpt, Parsed, parsed}
use kati.Expr.Parse.{parse_expr}
use kati.Parser.{
  Parser, ParserState, Stmt, rule_stmt, assign_stmt, include_stmt, export_stmt, parse_error_stmt,
  RuleSep, sep_null, sep_semicolon, sep_eq, sep_finaleq, Outcome, result, stopped, out_of_fuel,
  undefined, ◌>>=◌,
}

-- A statement more at the end of the vector with this number.
unfoldable pub push_to : ℕ → Stmt → List (List Stmt) → List (List Stmt)
push_to n s [] = []
push_to zero s (v ∷ vs) = (v ++ s ∷ []) ∷ vs
push_to (suc n) s (v ∷ vs) = v ∷ push_to n s vs

-- `out_stmts_->push_back`.
unfoldable pub push_back : Stmt → Parser → Parser
unfolding push_to
push_back s p = record p { vectors = push_to p.out_stmts s p.vectors }

-- `Error`.
unfoldable pub error : Bytes → Parser → Parser
unfolding push_back
error msg p =
    let s = parse_error_stmt p.loc msg in
    record (push_back s p) { parse_errors = p.parse_errors ++ s ∷ [] }

-- How a parser of expressions ends: the value, the place behind it and the location.
unfoldable pub ended : Parsed Value → Outcome (Value × ℕ × Loc)
ended (parsed v n loc) = result (v, n, loc)
ended (Parsed.stopped m) = stopped m
ended Parsed.out_of_fuel = out_of_fuel

-- `ParseAssignStatement`: the left side, the right side and the operator.
unfoldable pub parse_assign_statement : Bytes → ℕ → Bytes × Bytes × AssignOp
unfolding substr trim_left_space trim_space
parse_assign_statement line sep =
    let c = get line (sep - 1) in
    let lhs = λ (n : ℕ). trim_space (substr line 0 (some n)) in
    let rhs = trim_left_space (substr line (sep + 1) none) in
    if c == b':'
    then (lhs (sep - 1), rhs, AssignOp.colon_eq)
    else if c == b'+'
    then (lhs (sep - 1), rhs, AssignOp.plus_eq)
    else if c == b'?'
    then (lhs (sep - 1), rhs, AssignOp.question_eq)
    else (lhs sep, rhs, AssignOp.eq)

-- Whether a right side begins with `$=`, and what it is then.
abbrev pub is_final_rhs : Bytes → Bool
is_final_rhs rhs = leb 2 (length rhs) && (get rhs 0 == b'$' && get rhs 1 == b'=')

-- The separator of a rule with a `;` or `=` at `found`, and the place of its last byte.
unfoldable pub separator : Bytes → ℕ → RuleSep × ℕ
separator line found =
    if get line found == b';'
    then (sep_semicolon, found)
    else if ltb (found + 2) (length line)
        && (get line (found + 1) == b'$' && get line (found + 2) == b'=')
    then (sep_finaleq, found + 2)
    else (sep_eq, found)

abbrev pub opt_of : RuleSep → ParseExprOpt
opt_of sep_semicolon = ParseExprOpt.command
opt_of _ = ParseExprOpt.normal

-- `sep + 1`, which is 0 for `npos`.
abbrev pub after_sep : Option ℕ → ℕ
after_sep none = 0
after_sep (some n) = n + 1

abbrev pub is_colon_at : Bytes → Option ℕ → Bool
is_colon_at line none = false
is_colon_at line (some n) = get line n == b':'

-- A rule ends with its statement, and the state after it.
abbrev pub end_rule : Bool → Stmt → Parser → Parser
end_rule is_rule s p = record (push_back s p) {
  state = if is_rule then ParserState.after_rule else ParserState.maybe_after_rule;
}

module _ (fuel : ℕ) where
  -- The statement of `ParseRule` and the rest of that function.
  unfoldable pub rule_of : Bytes → Option ℕ → Parser → Outcome Parser
  unfolding push_back find_two_outside_paren substr trim_left_space trim_space separator
  rule_of line sep p = elim (find_two_outside_paren (substr line (after_sep sep) none) b'=' b';') [
    | none ↦ do
      (lhs, n, loc) ← ended (parse_expr fuel p.loc line ParseExprOpt.normal)
      result (end_rule (is_colon_at line sep) (rule_stmt p.loc lhs sep_null none) p)
    | some i ↦ do
      let found = i + after_sep sep
      let (kind, last) = separator line found
      let lhs_text = trim_space (substr line 0 (some found))
      let rhs_text = trim_left_space (substr line (last + 1) none)
      (lhs, n, loc) ← ended (parse_expr fuel p.loc lhs_text ParseExprOpt.normal)
      (rhs, m, loc') ← ended (parse_expr fuel loc rhs_text (opt_of kind))
      result (end_rule (is_colon_at line sep) (rule_stmt p.loc lhs kind (some rhs)) p)
  ]

  -- `ParseRule` of the line that it goes on with.
  unfoldable pub rule_line : Bytes → Option ℕ → Parser → Outcome Parser
  unfolding rule_of error trim_left_space
  rule_line line sep p =
      let trimmed = trim_left_space line in
      if length trimmed == 0
      then result p
      else if get p.orig_line_with_directives 0 == b'\t'
      then result (error (codes "*** commands commence before first target.") p)
      else rule_of trimmed sep p

  -- `ParseRule`: behind a directive the whole line is read again, with the separator moved.
  unfoldable pub parse_rule : Bytes → Option ℕ → Parser → Outcome Parser
  unfolding rule_line
  parse_rule line sep p =
      let orig = p.orig_line_with_directives in
      if p.current_directive.export
      then result p
      else if p.current_directive.override
      then rule_line orig (shift (length orig - length line) sep) p
      else rule_line line sep p

  -- `ParseAssign`.
  unfoldable pub parse_assign : Bytes → ℕ → Parser → Outcome Parser
  unfolding push_back error parse_assign_statement substr trim_left_space
  parse_assign line separator_pos p = elim (separator_pos == 0) [
    | true ↦ result (error (codes "*** empty variable name ***") p)
    | false ↦ do
      let (lhs_text, rhs, op) = parse_assign_statement line separator_pos
      let is_final = is_final_rhs rhs
      let rhs_text = if is_final then trim_left_space (substr rhs 2 none) else rhs
      (lhs, n, loc) ← ended (parse_expr fuel p.loc lhs_text ParseExprOpt.normal)
      (value, m, loc') ← ended (parse_expr fuel loc rhs_text ParseExprOpt.normal)
      result
          (record (push_back (assign_stmt p.loc lhs value rhs_text op p.current_directive is_final)
            p) { state = ParserState.not_after_rule })
  ]

  -- `ParseRuleOrAssign`.
  unfoldable pub parse_rule_or_assign : Bytes → Parser → Outcome Parser
  unfolding parse_rule parse_assign find_three_outside_paren
  parse_rule_or_assign line p = elim (find_three_outside_paren line b':' b'=' b';') [
    | none ↦ parse_rule line none p
    | some sep ↦
        if get line sep == b';'
        then parse_rule line none p
        else if get line sep == b'='
        then parse_assign line sep p
        else if get line (sep + 1) == b'='
        then parse_assign line (sep + 1) p
        else if get line sep == b':'
        then parse_rule line (some sep) p
        else undefined
  ]

  -- `ParseInclude`, with whether the directive begins with an `i`.
  unfoldable pub parse_include : Bytes → Bytes → Parser → Outcome Parser
  unfolding push_back
  parse_include line directive p = do
    (v, n, loc) ← ended (parse_expr fuel p.loc line ParseExprOpt.normal)
    result (record (push_back (include_stmt p.loc v (get directive 0 == b'i')) p) {
      state = ParserState.not_after_rule;
    })

  -- `CreateExport`.
  unfoldable pub create_export : Bytes → Bool → Parser → Outcome Parser
  unfolding push_back
  create_export line is_export p = do
    (v, n, loc) ← ended (parse_expr fuel p.loc line ParseExprOpt.normal)
    result (push_back (export_stmt p.loc v is_export) p)
