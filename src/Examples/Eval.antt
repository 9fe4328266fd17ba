-- ===== src/Examples/Eval.antt =====
-- Variables and assignments of src/var.cc, src/symtab.cc and src/eval.cc at concrete inputs.
use kati.Prelude.{◌≡◌, refl, true, false, none, some, List, [], ◌∷◌, ◌++◌, arith, Bytes, codes}
use kati.Rule.{Loc}
use kati.Var.{
  VarOrigin, simple_var, Var, find_var, peek, put, scoped_orig, scoped_enter, scoped_leave,
  set_global_var, var_used, base_used,
}
use kati.Var.Table.{scoped_leave-scoped_enter}
use kati.Var.Protect.{Leaves, Run}
use kati.Eval.{AssignOp, Evaluator, eval_assign}
use kati.Eval.Keep.{statement, EndsWith}
use kati.Eval.Append.{appended, looked_up, eval_assign-append}

abbrev at : Loc
at = record { filename = some (codes "Makefile"); lineno = some 1 }

-- Values are texts that evaluate to themselves.
abbrev simple : VarOrigin → Bytes → Var Bytes
simple origin s = record {
  content = simple_var s;
  origin = origin;
  definition = none;
  loc = at;
  readonly = false;
  deprecated = false;
  obsolete = false;
  self_referential = false;
  message = [];
}

abbrev from_command_line : Var Bytes
from_command_line = simple VarOrigin.command_line (codes "a")

abbrev table : List (Bytes × Var Bytes)
table = (codes "X", from_command_line) ∷ []

-- While a makefile is read.
abbrev reading : Evaluator Bytes
reading = record {
  is_bootstrap = false;
  is_commandline = false;
  globals = table;
  current_scope = none;
  used_env_vars = [];
  used_undefined_vars = [];
  frame = 7;
  loc = at;
  has_last_rule = true;
  warnings = 0;
}

abbrev itself : Bytes → Evaluator Bytes → Bytes
itself s ev = s

scoped_example :
    scoped_leave (codes "X") (scoped_orig (codes "X") table) (
      put
        (codes "X")
        (simple VarOrigin.file (codes "c"))
        (scoped_enter (codes "X") (simple VarOrigin.file (codes "b")) table))
    ≡ table
scoped_example =
    scoped_leave-scoped_enter (codes "X") (simple VarOrigin.file (codes "b"))
      (simple VarOrigin.file (codes "c")) table

abbrev longer : List (Bytes × Var Bytes)
longer = (codes "X", from_command_line) ∷ (codes "Y", simple VarOrigin.file (codes "b")) ∷ []

-- A makefile assigns another variable, and then the one of the command line, which is kept.
sets_other :
    Leaves table (set_global_var (codes "Y") (simple VarOrigin.file (codes "b")) false table) longer
unfolding set_global_var peek find_var put
sets_other = refl

keeps_same :
    Leaves longer
      (set_global_var (codes "X") (simple VarOrigin.file (codes "c")) false longer)
      longer
unfolding set_global_var peek find_var put
keeps_same = refl

abbrev both_run : Run table longer
both_run =
    Run.set (codes "Y") (simple VarOrigin.file (codes "b")) false sets_other
      (Run.set (codes "X") (simple VarOrigin.file (codes "c")) false keeps_same Run.done)

eval_assign-append_example :
    EndsWith
      (eval_assign itself
        (λ s t. s ++ t)
        (statement at (codes "X") (codes "b") (codes "b") AssignOp.plus_eq false)
        reading)
      (put
        (codes "X")
        (appended itself
          (λ s t. s ++ t)
          (looked_up itself
            (λ s t. s ++ t)
            (record reading { loc = at; has_last_rule = false })
            (codes "X"))
          (peek (codes "X") table)
          (codes "a")
          (codes "b"))
        table)
eval_assign-append_example =
    eval_assign-append itself (λ s t. s ++ t) reading at (codes "X") (codes "b") (codes "b")
      (codes "a") false false (refl, refl, refl) ((omega arith), refl)
      (unfold peek find_var in refl) (unfold var_used base_used peek find_var in refl)
      (unfold peek find_var in refl)
