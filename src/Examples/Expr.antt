-- ===== src/Examples/Expr.antt =====
-- src/expr.cc at concrete inputs.
use kati.Prelude.{
  ◌≡◌, refl, true, false, Bool, none, some, [], ◌∷◌, arith, Bytes, codes, List, ℕ, ◌==◌, not, ◌&&◌,
  Lacks,
}
use kati.Piece.{index_of}
use kati.Rule.{Loc}
use kati.Var.{VarOrigin, Var, recursive_var, lookup, find_var, peek, var_used, base_used}
use kati.Eval.{Evaluator, lookup_var_global}
use kati.Expr.{
  Value, literal, sym_ref, var_subst, func, value_list, entry, FuncInfo, to_values, values,
  no_values, func_info_map,
}
use kati.Expr.Scan.{ParseExprOpt, Parsed, parsed, stopped, scan_round, chop_return, finish}
use kati.Expr.Parse.{
  parse_expr, name_end, reference, func_of, skip_spaces, after_argument, check_arity,
}
use kati.Expr.Scan.{close_paren, is_term, strchr}
use kati.Expr.{new_expr}
use kati.Prelude.{length}
use kati.Expr.Written.{Text, last, more, dollars, named, short, print, values_of, IsWritten}
use kati.Expr.Written.Read.{parse_expr-print}
use kati.Expr.Written.Expanded.{HasAll, Runs, expand, parse_expr-expand}
use kati.Expr.Eval.Expanded.{outside}
use kati.Prelude.{text_eq, if◌then◌else◌}
use kati.Var.{simple_var}
use kati.Expr.Fuel.{parse_expr-EndsIn}
use kati.Expr.Within.{EndsIn}
use kati.Expr.Eval.{eval, eval_name}
use kati.Expr.Lookup.{Machine, State, exhausted, failed, has_name, lookup_var, running}
use kati.Expr.Eval.SelfReference.{
  Meets, MeetsIn, references_itself, eval_name-Meets, var_subst-diverges,
}

abbrev here : Loc
here = record { filename = none; lineno = some 1 }

parses_names :
    parse_expr 90 here (codes "a$$$(b)${c:.x=.y}") ParseExprOpt.normal
    ≡ parsed
        (value_list here (
          to_values (
            literal (codes "a")
            ∷ literal (codes "$")
            ∷ sym_ref here (codes "b")
            ∷ var_subst here (literal (codes "c")) (literal (codes ".x")) (literal (codes ".y"))
            ∷ [])))
        17
        here
unfolding parse_expr index_of scan_round chop_return finish name_end reference func_of func_info_map
    skip_spaces after_argument check_arity
parses_names = refl

-- `a b$(X)/$$@$@-`.
abbrev written : Text
written =
    more (codes "a b") (named (codes "X"))
      (more (codes "/") dollars (more (codes "@") (short b'@') (last (codes "-"))))

written-IsWritten : IsWritten written
unfolding close_paren is_term strchr
written-IsWritten = (
  omega arith,
  (omega arith, ((omega arith, refl), tt)),
  (omega arith, tt, (omega arith, (omega arith, refl), omega arith)),
)

parse_expr-print_example :
    parse_expr 20 here (print written) ParseExprOpt.normal
    ≡ parsed (new_expr here (values_of here written)) (length (print written)) here
parse_expr-print_example =
    parse_expr-print written 20 here ParseExprOpt.normal refl written-IsWritten
      (unfold print in omega arith) (unfold print in omega arith)

prints : print written ≡ codes "a b$(X)/$$@$@-"
unfolding print
prints = refl

parses_calls :
    parse_expr 90 here (codes "$(word 1,a (b,c) d)#x") ParseExprOpt.normal
    ≡ parsed
        (func here
          (entry (codes "word") 2 2 false false)
          (to_values (literal (codes "1") ∷ literal (codes "a (b,c) d") ∷ [])))
        21
        here
unfolding parse_expr index_of scan_round chop_return finish name_end reference func_of func_info_map
    skip_spaces after_argument check_arity
parses_calls = refl

parses_nested :
    parse_expr 90 here (codes "$(subst $(x),b)") ParseExprOpt.normal
    ≡ stopped (codes "*** insufficient number of arguments to function `subst'.")
unfolding parse_expr index_of scan_round chop_return finish name_end reference func_of func_info_map
    skip_spaces after_argument check_arity
parses_nested = refl

never_ends : parse_expr 90 here (codes "$(subst $(a:b") ParseExprOpt.normal ≡ Parsed.out_of_fuel
unfolding parse_expr index_of scan_round chop_return finish name_end reference func_of func_info_map
    skip_spaces after_argument check_arity
never_ends = refl

-- Whether a byte does not occur.
abbrev lacks : ℕ → Bytes → Bool
lacks b [] = true
lacks b (c ∷ s) = not (c == b) && lacks b s

lacks-Lacks : (b : ℕ) (s : Bytes) → lacks b s ≡ true → Lacks b s
lacks-Lacks b [] h = tt
lacks-Lacks b (c ∷ s) h = (ground arith, lacks-Lacks b s (ground arith))

abbrev call_text : Bytes
call_text = codes "$(word 1,a (b,c) d)#x"

parse_expr-EndsIn_example : EndsIn 0 21 (parse_expr 90 here call_text ParseExprOpt.normal)
parse_expr-EndsIn_example =
    parse_expr-EndsIn 90 here call_text ParseExprOpt.normal (lacks-Lacks b':' call_text refl)
      (omega arith)

-- Functions that need the system do nothing, and there are no names.
abbrev no_other : FuncInfo → List Value → State → Bytes × Machine
no_other fi args st = ([], running st)

abbrev no_names : Bool → Evaluator Value → Bytes
no_names all ev = []

-- `X = $(X:.c=.o)`.
abbrev itself : Value
itself = var_subst here (literal (codes "X")) (literal (codes ".c")) (literal (codes ".o"))

abbrev recursive : Value → Bytes → Var Value
recursive v orig = record {
  content = recursive_var v orig;
  origin = VarOrigin.file;
  definition = none;
  loc = here;
  readonly = false;
  deprecated = false;
  obsolete = false;
  self_referential = false;
  message = [];
}

abbrev with_globals : List (Bytes × Var Value) → List Bytes → State
with_globals globals names = record {
  ev = record {
    is_bootstrap = false;
    is_commandline = false;
    globals = globals;
    current_scope = none;
    used_env_vars = [];
    used_undefined_vars = [];
    frame = 0;
    loc = here;
    has_last_rule = false;
    warnings = 0;
  };
  symbols_for_eval = names;
  is_evaluating_command = false;
}

abbrev one_global : Value → Bytes → List (Bytes × Var Value)
one_global v orig = (codes "X", recursive v orig) ∷ []

-- `X := v`, and no other variable.
abbrev simple_global : List (Bytes × Var Value)
simple_global =
    (codes "X", record (recursive itself (codes "v")) { content = simple_var (codes "v") }) ∷ []

abbrev text_in : Bytes → Bytes
text_in name = if text_eq name (codes "X") then codes "v" else []

written-HasAll : HasAll simple_global text_in written
unfolding peek
written-HasAll = ((refl, refl), (tt, ((refl, refl), tt)))

parse_expr-expand_example :
    (v : Value) × (parse_expr 20 here (print written) ParseExprOpt.normal
      ≡ parsed v (length (print written)) here)
    × Runs no_other no_names simple_global
        (expand text_in written)
        (eval no_other no_names 20 v (running (outside simple_global (with_globals [] []))))
parse_expr-expand_example =
    parse_expr-expand no_other no_names simple_global text_in written 20 20 here ParseExprOpt.normal
      (with_globals [] []) refl written-IsWritten (unfold print in omega arith) written-HasAll
      (unfold print in omega arith) (unfold print in omega arith)

expands : expand text_in written ≡ codes "a bv/$@-"
unfolding expand
expands = refl

-- `X = a$(X)$(Y)`.
abbrev around : Value
around =
    value_list here
      (to_values (literal (codes "a") ∷ sym_ref here (codes "X") ∷ sym_ref here (codes "Y") ∷ []))

around-Meets : Meets (codes "X") 5 around
unfolding to_values
around-Meets = Meets.inside here (
    MeetsIn.later (codes "a")
      (MeetsIn.first (values (sym_ref here (codes "Y")) no_values) (Meets.here here)))

eval_name-Meets_example :
    (eval_name no_other no_names 7
      (codes "X")
      (running (with_globals (one_global around (codes "a$(X)$(Y)")) []))).1
    ≡ failed (references_itself (codes "X"))
eval_name-Meets_example =
    eval_name-Meets no_other no_names 5 (codes "X") around (codes "a$(X)$(Y)")
      (with_globals (one_global around (codes "a$(X)$(Y)")) []) around-Meets
      (unfold lookup_var lookup lookup_var_global find_var peek in refl)
      (unfold lookup_var lookup lookup_var_global find_var peek var_used base_used in refl)
      (unfold has_name in refl)

var_subst-diverges_example :
    (eval no_other no_names 500 itself
      (running (with_globals (one_global itself (codes "$(X:.c=.o)")) []))).1
    ≡ exhausted
var_subst-diverges_example =
    var_subst-diverges no_other no_names 500 here (codes "X") (codes ".c") (codes ".o")
      (codes "$(X:.c=.o)") (with_globals (one_global itself (codes "$(X:.c=.o)")) [])
      (unfold lookup_var lookup lookup_var_global find_var peek in refl)
      (unfold lookup_var lookup lookup_var_global find_var peek var_used base_used in refl)
