-- ===== src/Examples/Parser.antt =====
-- src/parser.cc at concrete inputs.
use kati.Prelude.{
  arith, length, ◌≡◌, refl, true, false, none, some, [], ◌∷◌, ◌++◌, Bytes, codes, List, ℕ,
}
use kati.Piece.{index_of, scan_up, lookup_table}
use kati.Strutil.Trim.{trim_space, trim_left_space}
use kati.Rule.{Loc}
use kati.Eval.{AssignOp}
use kati.Expr.{literal}
use kati.Expr.Scan.{scan_round, chop_return, finish}
use kati.Expr.Parse.{parse_expr}
use kati.Parser.{
  Parser, ParserState, Buffer, find_handler, get_directive, rest_of, Stmt, Outcome, result, ◌>>=◌,
  rule_stmt, assign_stmt, if_stmt, parse_error_stmt, CondOp, no_directive, sep_null,
}
use kati.Parser.Statements.{parse_rule_or_assign, parse_assign, parse_assign_statement}
use kati.Parser.Run.{parse_makefile, parse, new_parser}
use kati.Parser.Nested.{Holds}
use kati.Parser.Ends.{IsClosed, parse-IsClosed}
use kati.Parser.Blocks.{
  Block, nothing, plain, conditional, closed, otherwise, otherwise_if, IsBlock, At, run, lines,
}
use kati.Parser.Balanced.{run-Balanced}
use kati.Parser.Assign.{written, parse_rule_or_assign-written}

abbrev at_line : ℕ → Loc
at_line n = record { filename = some []; lineno = some n }

abbrev vectors_of : Outcome Parser → Outcome (List (List Stmt))
vectors_of o = o >>= λ p. result p.vectors

abbrev lines_of : List Bytes → Bytes
lines_of [] = []
lines_of (l ∷ ls) = l ++ b'\n' ∷ lines_of ls

abbrev chain : List Bytes
chain =
    codes "ifdef A"
    ∷ codes "X := 1 # c"
    ∷ codes "else ifdef B"
    ∷ codes "else"
    ∷ codes "a: b"
    ∷ codes "endif"
    ∷ codes "all:"
    ∷ []

abbrev a_rule : ℕ → Bytes → Stmt
a_rule n text = rule_stmt (at_line n) (literal text) sep_null none

parses_chain :
    vectors_of (parse_makefile 40 [] (lines_of chain))
    ≡ result (
        (if_stmt (at_line 1) CondOp.ifdef (literal (codes "A")) none 1 2
          ∷ a_rule 7 (codes "all:")
          ∷ [])
        ∷ (assign_stmt
              (at_line 2)
              (literal (codes "X"))
              (literal (codes "1 "))
              (codes "1 # c")
              AssignOp.colon_eq
              no_directive
              false
            ∷ [])
        ∷ (if_stmt (at_line 3) CondOp.ifdef (literal (codes "B")) none 3 4 ∷ [])
        ∷ []
        ∷ (a_rule 5 (codes "a: b") ∷ [])
        ∷ [])
unfolding parse_makefile scan_up lookup_table parse_expr scan_round chop_return finish index_of
parses_chain = refl

abbrev defines : List Bytes
defines =
    codes "override define V" ∷ codes "define W" ∷ codes "endef" ∷ codes "endef" ∷ codes "else" ∷ []

parses_define :
    vectors_of (parse_makefile 40 [] (lines_of defines))
    ≡ result (
        (assign_stmt
            (at_line 1)
            (literal (codes "V"))
            (literal (codes "define W\nendef"))
            (codes "define W" ++ b'\n' ∷ codes "endef")
            AssignOp.eq
            (record { override = true; export = false })
            false
          ∷ parse_error_stmt (at_line 5) (codes "*** extraneous `else'.")
          ∷ [])
        ∷ [])
unfolding parse_makefile scan_up lookup_table parse_expr scan_round chop_return finish index_of
parses_define = refl

abbrev buffer_of : List Bytes → Buffer
buffer_of ls = record { mem = lines_of ls; size = length (lines_of ls) }

abbrev begun : Parser
begun = new_parser (at_line 0) false []

parse-IsClosed_example : Holds IsClosed (parse 40 (buffer_of chain) begun)
parse-IsClosed_example = parse-IsClosed 40 (buffer_of chain) (at_line 0) false []

-- A chain in an open conditional.
abbrev nested : Block
nested =
    conditional (codes "  ifdef A # c") (plain (codes "X := 1") nothing)
      (otherwise_if (codes "else ifndef B")
        (conditional (codes "ifdef C") nothing (closed (codes "endif")) nothing)
        (otherwise (codes "else") (plain (codes "# ifdef") nothing) (codes "endif # all")))
      nothing

nested-IsBlock : IsBlock nested
unfolding find_handler get_directive rest_of index_of scan_up lookup_table
nested-IsBlock = (
  (record { no_tab = refl; no_comment = refl; filled = refl; named = refl }),
  (refl, tt),
  (
    ((record { no_tab = refl; no_comment = refl; filled = refl; named = refl }), refl, refl),
    (
      (record { no_tab = refl; no_comment = refl; filled = refl; named = refl }),
      tt,
      ((record { no_tab = refl; no_comment = refl; filled = refl; named = refl }), refl),
      tt,
    ),
    (
      (record { no_tab = refl; no_comment = refl; filled = refl; named = refl }),
      refl,
      (refl, tt),
      ((record { no_tab = refl; no_comment = refl; filled = refl; named = refl }), refl),
    ),
  ),
  tt,
)

run-Balanced_example : Holds (At []) (run 40 (buffer_of []) (lines nested) begun)
run-Balanced_example =
    run-Balanced 40 (buffer_of []) nested [] begun nested-IsBlock (refl, refl, refl, refl)

abbrev sum_text : Bytes
sum_text = written AssignOp.plus_eq (codes "X ") (codes " $(Y) z")

parse_rule_or_assign-written_example :
    (parse_rule_or_assign 40 sum_text begun ≡ parse_assign 40 sum_text 3 begun)
    × (parse_assign_statement sum_text 3
        ≡ (trim_space (codes "X "), trim_left_space (codes " $(Y) z"), AssignOp.plus_eq))
parse_rule_or_assign-written_example =
    parse_rule_or_assign-written 40 AssignOp.plus_eq (codes "X ") (codes " $(Y) z") begun
      (omega arith, (refl, (refl, tt)), λ e. absurd (omega (arith, e)))

abbrev state_of : Outcome Parser → Outcome ParserState
state_of o = o >>= λ p. result p.state

-- The comment moves the separator of a rule behind `override`, which is then no rule for the parser.
overridden_rule :
    state_of (parse_makefile 60 [] (codes "override foo: X=1 # c"))
    ≡ result ParserState.maybe_after_rule
unfolding parse_makefile scan_up lookup_table parse_expr scan_round chop_return finish index_of
overridden_rule = refl

overridden_rule_alone :
    state_of (parse_makefile 60 [] (codes "override foo: X=1")) ≡ result ParserState.after_rule
unfolding parse_makefile scan_up lookup_table parse_expr scan_round chop_return finish index_of
overridden_rule_alone = refl
