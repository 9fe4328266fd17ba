-- ===== src/Parser/Run.antt =====
-- The loop of `Parser::Parse` over the lines, and the functions `Parse` of src/parser.cc. `rounds` bounds
-- the lines.
use kati.Prelude.{
  ℕ, zero, suc, ◌+◌, ◌-◌, Bool, true, false, ◌&&◌, none, some, List, [], ◌∷◌, Bytes, length, take,
  drop, ltb, ◌==◌, if◌then◌else◌, codes,
}
use kati.Piece.{get, substr}
use kati.Strutil.Breaks.{find_end_of_line}
use kati.Rule.{Loc}
use kati.Expr.Scan.{next_line}
use kati.Parser.{
  Parser, Buffer, ParserState, Stmt, Outcome, result, stopped, out_of_rounds, ◌>>=◌, no_directive,
}
use kati.Parser.Statements.{ended}
use kati.Parser.Line.{parse_line}

-- The line before `e`, without a carriage return at its end.
unfoldable pub line_of : Buffer → ℕ → ℕ → Bytes
unfolding substr
line_of buf l e =
    let line = take (e - l) (drop l buf.mem) in
    let n = length line in
    if ltb 0 n && get line (n - 1) == b'\r' then substr line 0 (some (n - 1)) else line

-- `loc_.lineno += lf_cnt - 1`, where the line was counted before.
abbrev pub add_lines : ℕ → Loc → Loc
add_lines lf_cnt loc = record loc {
  lineno = elim loc.lineno [ none ↦ none | some n ↦ some (n + lf_cnt - 1) ];
}

-- The state before and behind `ParseLine`.
abbrev pub before_line : Bytes → Parser → Parser
before_line line p = record p {
  loc = if p.fixed_lineno then p.loc else next_line p.loc;
  orig_line_with_directives = line;
}

abbrev pub behind_line : ℕ → ℕ → Parser → Parser
behind_line e lf_cnt p = record p {
  loc = if p.fixed_lineno then p.loc else add_lines lf_cnt p.loc;
  l = e + 1;
}

-- The tests behind the loop.
unfoldable pub finish : Parser → Outcome Parser
finish p =
    if ltb 0 (length p.if_stack)
    then stopped (codes "*** missing `endif'.")
    else if ltb 0 (length p.define_name)
    then stopped (codes "*** missing `endef', unterminated `define'.")
    else result p

module _ (fuel : ℕ) (buf : Buffer) where
  -- A round: the line up to `e`, and whether the text ends there.
  unfoldable pub one_line : ℕ → ℕ → Parser → Outcome (Parser × Bool)
  unfolding parse_line line_of ◌>>=◌ ended
  one_line e lf_cnt p = do
    let line = line_of buf p.l e
    p' ← parse_line fuel buf line (before_line line p)
    result (behind_line e lf_cnt p', e == buf.size)

  unfoldable pub parse_from : ℕ → Parser → Outcome Parser
  unfolding one_line find_end_of_line finish
  parse_from zero p = out_of_rounds
  parse_from (suc rounds) p = elim (ltb p.l buf.size) [
    | false ↦ finish p
    | true ↦ elim (find_end_of_line (buf.size + 1) buf.mem buf.size p.l 0) [
      | none ↦ out_of_rounds
      | some (e, lf_cnt) ↦ do
        (q, at_end) ← one_line e lf_cnt p
        elim at_end [ true ↦ finish q | false ↦ parse_from rounds q ]
    ]
  ]

  -- `Parser::Parse`.
  unfoldable pub parse : Parser → Outcome Parser
  unfolding parse_from
  parse p = parse_from (buf.size + 1) (record p { l = 0 })

-- The two constructors, for a vector of statements; a file begins with line 0.
abbrev pub new_parser : Loc → Bool → List Stmt → Parser
new_parser loc fixed_lineno stmts = record {
  l = 0;
  state = ParserState.not_after_rule;
  vectors = stmts ∷ [];
  out_stmts = 0;
  define_name = [];
  num_define_nest = 0;
  define_start = 0;
  define_start_line = none;
  orig_line_with_directives = [];
  current_directive = no_directive;
  num_if_nest = 0;
  if_stack = [];
  loc = loc;
  fixed_lineno = fixed_lineno;
  parse_errors = [];
}

-- `Parse` of a makefile, whose text is the whole memory.
unfoldable pub parse_makefile : ℕ → Bytes → Bytes → Outcome Parser
unfolding parse
parse_makefile fuel filename text =
    parse fuel (record { mem = text; size = length text })
      (new_parser (record { filename = some filename; lineno = some 0 }) false [])

-- `Parse` of a piece for `eval`, which adds to a vector.
unfoldable pub parse_piece : ℕ → Buffer → Loc → List Stmt → Outcome Parser
unfolding parse
parse_piece fuel buf loc stmts = parse fuel buf (new_parser loc true stmts)
