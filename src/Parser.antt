-- ===== src/Parser.antt =====
-- The statements of src/stmt.h and the state of the class `Parser` of src/parser.cc, with its
-- tables of directives. The vectors of statements are numbered, with number 0 for the one that the
-- caller gave, and a pointer to a vector is its number: `out_stmts_` is one of them, and so are the
-- two of a conditional.
pub mod Statements
pub mod Conditionals
pub mod Line
pub mod Run
pub mod Shorter
pub mod Ends
pub mod Nested
pub mod Stack
pub mod Frames
pub mod Blocks
pub mod Balanced
pub mod Assign
use kati.Prelude.{
  ℕ, zero, suc, ◌+◌, Bool, true, false, Option, none, some, List, [], ◌∷◌, ◌++◌, Bytes, length, min,
  max, ltb, if◌then◌else◌, codes, text_eq,
}
use kati.Piece.{substr, find_first_of}
use kati.Strutil.Paren.{find_outside_paren}
use kati.Strutil.Trim.{trim_left_space, trim_right_space}
use kati.Rule.{Loc}
use kati.Eval.{AssignOp}
use kati.Expr.{Value}

-- `AssignDirective`, with a flag for each of its bits.
pub record AssignDirective : Type 0 where
  pub override : Bool
  pub export : Bool

abbrev pub no_directive : AssignDirective
no_directive = record { override = false; export = false }

pub data CondOp : Type 0 where
  ifeq ifneq ifdef ifndef : CondOp

-- The separators of `RuleStmt`.
pub data RuleSep : Type 0 where
  sep_null sep_semicolon sep_eq sep_finaleq : RuleSep

-- The subclasses of `Stmt`, with their fields in order; the place comes first.
pub data Stmt : Type 0 where
  rule_stmt : Loc → Value → RuleSep → Option Value → Stmt
  assign_stmt : Loc → Value → Value → Bytes → AssignOp → AssignDirective → Bool → Stmt
  command_stmt : Loc → Value → Bytes → Stmt
  if_stmt : Loc → CondOp → Value → Option Value → ℕ → ℕ → Stmt
  include_stmt : Loc → Value → Bool → Stmt
  export_stmt : Loc → Value → Bool → Stmt
  parse_error_stmt : Loc → Bytes → Stmt

pub data ParserState : Type 0 where
  not_after_rule after_rule maybe_after_rule : ParserState

-- `IfState`; of the statement it has the numbers of the two vectors.
pub record IfState : Type 0 where
  pub true_stmts : ℕ
  pub false_stmts : ℕ
  pub is_in_else : Bool
  pub num_nest : ℕ

-- `buf_`, which the constructor sets: a piece of `size` bytes, with the memory from its start.
pub record Buffer : Type 0 where
  pub mem : Bytes
  pub size : ℕ

-- The rest of a parser. The top of `if_stack` is its first entry. Of the errors of all parsers,
-- `parse_errors` has those of this one.
pub record Parser : Type 0 where
  pub l : ℕ
  pub state : ParserState
  pub vectors : List (List Stmt)
  pub out_stmts : ℕ
  pub define_name : Bytes
  pub num_define_nest : ℕ
  pub define_start : ℕ
  pub define_start_line : Option ℕ
  pub orig_line_with_directives : Bytes
  pub current_directive : AssignDirective
  pub num_if_nest : ℕ
  pub if_stack : List IfState
  pub loc : Loc
  pub fixed_lineno : Bool
  pub parse_errors : List Stmt

-- How a step ends: with a result; the program ends with a message; the parser of expressions is out
-- of fuel; a loop is out of rounds; or a failed `CHECK` or a call that the language leaves
-- undefined.
pub data Outcome (A : Type 0) : Type 0 where
  result : A → Outcome A
  stopped : Bytes → Outcome A
  out_of_fuel out_of_rounds undefined : Outcome A

infixl 5 ◌>>=◌
unfoldable pub ◌>>=◌ : {A B : Type 0} → Outcome A → (A → Outcome B) → Outcome B
result a >>= f = f a
stopped m >>= f = stopped m
out_of_fuel >>= f = out_of_fuel
out_of_rounds >>= f = out_of_rounds
undefined >>= f = undefined

-- The handlers of the three tables.
pub data IfHandler : Type 0 where
  to_ifdef to_ifeq : IfHandler

pub data AssignHandler : Type 0 where
  to_define to_export to_override : AssignHandler

pub data MakeHandler : Type 0 where
  to_include to_else to_endif to_unexport : MakeHandler
  to_if : IfHandler → MakeHandler
  to_assign : AssignHandler → MakeHandler

abbrev pub Table : Type 0 → Type 0
Table A = List (Bytes × A)

abbrev pub else_if_directives : Table IfHandler
else_if_directives =
    (codes "ifdef", to_ifdef)
    ∷ (codes "ifndef", to_ifdef)
    ∷ (codes "ifeq", to_ifeq)
    ∷ (codes "ifneq", to_ifeq)
    ∷ []

abbrev pub assign_directives : Table AssignHandler
assign_directives =
    (codes "define", to_define) ∷ (codes "export", to_export) ∷ (codes "override", to_override) ∷ []

abbrev pub make_directives : Table MakeHandler
make_directives =
    (codes "include", to_include)
    ∷ (codes "-include", to_include)
    ∷ (codes "sinclude", to_include)
    ∷ (codes "define", to_assign to_define)
    ∷ (codes "ifdef", to_if to_ifdef)
    ∷ (codes "ifndef", to_if to_ifdef)
    ∷ (codes "ifeq", to_if to_ifeq)
    ∷ (codes "ifneq", to_if to_ifeq)
    ∷ (codes "else", to_else)
    ∷ (codes "endif", to_endif)
    ∷ (codes "override", to_assign to_override)
    ∷ (codes "export", to_assign to_export)
    ∷ (codes "unexport", to_unexport)
    ∷ []

unfoldable pub find_handler : {A : Type 0} → Table A → Bytes → Option A
find_handler [] name = none
find_handler ((n, h) ∷ t) name = if text_eq n name then some h else find_handler t name

unfoldable pub shortest : ℕ → Table MakeHandler → ℕ
shortest n [] = n
shortest n ((name, h) ∷ t) = shortest (min (length name) n) t

unfoldable pub longest : ℕ → Table MakeHandler → ℕ
longest n [] = n
longest n ((name, h) ∷ t) = longest (max (length name) n) t

-- `RemoveComment`.
unfoldable pub remove_comment : Bytes → Bytes
unfolding find_outside_paren substr
remove_comment line = elim (find_outside_paren line b'#') [
  | none ↦ line
  | some i ↦ substr line 0 (some i)
]

-- `GetDirective`.
unfoldable pub get_directive : Bytes → Bytes
unfolding shortest longest substr find_first_of
get_directive line =
    let prefix = substr line 0 (some (longest 0 make_directives + 1)) in
    if ltb (length line) (shortest 9999 make_directives)
    then []
    else substr prefix 0 (find_first_of prefix (b' ' ∷ b'\t' ∷ b'#' ∷ []) 0)

-- What `HandleDirective` gives to a handler: the line behind the directive.
unfoldable pub rest_of : Bytes → Bytes
unfolding get_directive remove_comment substr trim_left_space trim_right_space
rest_of line =
    trim_right_space
      (remove_comment (trim_left_space (substr line (length (get_directive line)) none)))
