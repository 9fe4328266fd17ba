-- ===== src/Parser/Conditionals.antt =====
-- The conditionals and definitions of src/parser.cc, as far as no expression is parsed: the
-- stack of frames, `ParseEndif` and `ParseDefine`.
use kati.Prelude.{
  ℕ, zero, suc, ◌+◌, ◌-◌, Bool, true, false, not, Option, List, [], ◌∷◌, ◌++◌, Bytes, length, ◌==◌,
  if◌then◌else◌, codes, text_eq,
}
use kati.Piece.{get}
use kati.Strutil.Trim.{trim_left_space}
use kati.Expr.{Value}
use kati.Parser.{
  Parser, ParserState, IfState, if_stmt, CondOp, Outcome, result, undefined, get_directive,
}
use kati.Parser.Statements.{push_back, error}

-- `out_stmts_` where the stack is as it is: the vector of its top.
abbrev pub top_stmts : List IfState → ℕ
top_stmts [] = 0
top_stmts (st ∷ stack) = if st.is_in_else then st.false_stmts else st.true_stmts

-- A new conditional: its statement is added, with two new vectors, and `EnterIf`.
unfoldable pub enter_if : CondOp → Value → Option Value → Parser → Parser
unfolding push_back
enter_if op lhs rhs p =
    let n = length p.vectors in
    let p' = push_back (if_stmt p.loc op lhs rhs n (n + 1)) p in
    let st : IfState = record {
      true_stmts = n;
      false_stmts = n + 1;
      is_in_else = false;
      num_nest = p.num_if_nest;
    } in
    record p' { vectors = p'.vectors ++ [] ∷ [] ∷ []; if_stack = st ∷ p.if_stack; out_stmts = n }

-- The sides of `ifeq`, if the condition is well formed.
abbrev pub Sides : Type 0
Sides = Option (Value × Value)

-- The loop of `ParseEndif`: how many frames go; on an empty stack `top` is undefined.
unfoldable pub pop_frames : ℕ → Parser → Outcome Parser
pop_frames zero p = result p
pop_frames (suc n) p = elim p.if_stack [
  | [] ↦ undefined
  | st ∷ stack ↦ pop_frames n (record p { if_stack = stack; out_stmts = top_stmts stack })
]

-- `ParseEndif`, with `CheckIfStack`.
unfoldable pub parse_endif : Bytes → Parser → Outcome Parser
unfolding error pop_frames
parse_endif line p = elim p.if_stack [
  | [] ↦ result (error (codes "*** extraneous `endif'.") p)
  | st ∷ stack ↦
      if not (length line == 0)
      then result (error (codes "extraneous text after `endif` directive") p)
      else pop_frames (st.num_nest + 1) p
]

-- `ParseDefine`.
unfoldable pub parse_define : Bytes → Parser → Parser
unfolding error
parse_define line p =
    if length line == 0 then error (codes "*** empty variable name.") p else record p {
      define_name = line;
      num_define_nest = 1;
      define_start = 0;
      define_start_line = p.loc.lineno;
      state = ParserState.not_after_rule;
    }

-- `current_directive_` with one more bit.
abbrev pub mark : Bool → Parser → Parser
mark is_export p =
    let d = p.current_directive in
    record p {
      current_directive =
          if is_export then record d { export = true } else record d { override = true };
    }

abbrev pub cond_op : Bytes → CondOp → CondOp → CondOp
cond_op directive op negated = if get directive 2 == b'n' then negated else op

-- The depth of `define` behind a line inside of one.
unfoldable pub define_nest : Bytes → ℕ → ℕ
unfolding get_directive trim_left_space
define_nest line nest =
    let directive = get_directive (trim_left_space line) in
    if text_eq directive (codes "define")
    then nest + 1
    else if text_eq directive (codes "endef")
    then nest - 1
    else nest

abbrev pub is_after_rule : ParserState → Bool
is_after_rule ParserState.not_after_rule = false
is_after_rule _ = true
