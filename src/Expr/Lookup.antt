-- ===== src/Expr/Lookup.antt =====
-- The state of evaluation, the lookup of variables and the replacement of words, of src/expr.cc
-- and src/var.cc.
use kati.Prelude.{
  ℕ, ◌+◌, Bool, true, false, ◌||◌, Option, none, some, List, [], ◌∷◌, Bytes, if◌then◌else◌, codes,
  text_eq,
}
use kati.Strutil.Words.{Writer, writer, maybe_add_whitespace, append_string}
use kati.Strutil.Pattern.{Pattern, subst_ref}
use kati.Var.{
  undefined_var, simple_var, recursive_var, variable_names_var, shell_status_var, Var, is_defined,
  lookup, used, use_failed, var_used, undefined_variable,
}
use kati.Eval.{Evaluator, lookup_var_global}
use kati.Expr.{Value, Values, no_values, values}
use kati.Func.Words
use kati.Func.Words.{word_func, wordlist_func, words_func, firstword_func, lastword_func, decimal}

-- The evaluator with the names that are being evaluated.
pub record State : Type 0 where
  pub ev : Evaluator Value
  pub symbols_for_eval : List Bytes
  pub is_evaluating_command : Bool

-- The source ends the process at an error, and has no state then: `failed` is that end, with the
-- message. `exhausted` is an evaluation that has run out of fuel.
pub data Machine : Type 0 where
  running : State → Machine
  failed : Bytes → Machine
  exhausted : Machine

-- What a step does to a machine that runs.
abbrev pub on {ℓ} : {A : Type ℓ} → A → Machine → (State → A × Machine) → A × Machine
on a (running st) step = step st
on a (failed m) step = (a, failed m)
on a exhausted step = (a, exhausted)

abbrev pub exhaust : Machine → Machine
exhaust (running st) = exhausted
exhaust (failed m) = failed m
exhaust exhausted = exhausted

unfoldable pub of_values : Values → List Value
of_values no_values = []
of_values (values v vs) = v ∷ of_values vs

unfoldable pub has_name : Bytes → List Bytes → Bool
has_name name [] = false
has_name name (n ∷ names) = text_eq n name || has_name name names

-- `erase` of a set: a name stands in the list once for each time it was put there.
unfoldable pub without : Bytes → List Bytes → List Bytes
without name [] = []
without name (n ∷ names) = if text_eq n name then without name names else n ∷ without name names

-- `LookupVar`.
unfoldable pub lookup_var : Bytes → Evaluator Value → Var Value × Evaluator Value
unfolding lookup lookup_var_global
lookup_var name ev = elim ev.current_scope [
  | none ↦ lookup_var_global name ev
  | some scope ↦
      let (v, used_env) = lookup name scope ev.used_env_vars in
      let ev' = record ev { used_env_vars = used_env } in
      if is_defined v then (v, ev') else lookup_var_global name ev'
]

abbrev pub look_up : Bytes → Machine → Var Value × Machine
look_up name m =
    on undefined_variable m
      (λ st. let (v, ev) = lookup_var name st.ev in (v, running (record st { ev = ev })))

-- `LookupVarForEval`. The mark on a variable is read at once by `Used`, where it ends the program
-- for a recursive variable, and has no effect on another; so it is put on the variable that is
-- returned.
unfoldable pub lookup_var_for_eval : Bytes → State → Var Value × State
unfolding lookup_var has_name
lookup_var_for_eval name st =
    let (v, ev) = lookup_var name st.ev in
    let st' = record st { ev = ev; symbols_for_eval = name ∷ st.symbols_for_eval } in
    (
      if has_name name st.symbols_for_eval
          then record v { self_referential = true }
          else record v { self_referential = false },
      st',
    )

-- `Used`.
unfoldable pub use_var : Var Value → Bytes → Machine → Machine
unfolding var_used
use_var v name (running st) = elim (var_used v name) [
  | use_failed m ↦ failed m
  | used warns ↦
      let ev = st.ev in
      running (if warns then record st { ev = record ev { warnings = ev.warnings + 1 } } else st)
]
use_var v name (failed m) = failed m
use_var v name exhausted = exhausted

-- `VarEvalComplete`.
unfoldable pub var_eval_complete : Bytes → Machine → Machine
unfolding without
var_eval_complete name (running st) =
    running (record st { symbols_for_eval = without name st.symbols_for_eval })
var_eval_complete name (failed m) = failed m
var_eval_complete name exhausted = exhausted

-- `String` of a variable.
abbrev pub var_string : Var Value → Bytes
var_string v = elim v.content [
  | undefined_var ↦ []
  | simple_var s ↦ s
  | recursive_var x orig ↦ orig
  | variable_names_var name all ↦ name
  | shell_status_var status ↦ elim status [ none ↦ [] | some n ↦ decimal (n + 1) n ]
]

-- `ShellStatusVar::Eval`.
unfoldable pub shell_status : Option ℕ → State → Bytes × Machine
unfolding decimal
shell_status status st =
    if st.is_evaluating_command
    then ([], failed (codes "Kati does not support using .SHELLSTATUS inside of a rule"))
    else (elim status [ none ↦ ([], running st) | some n ↦ (decimal (n + 1) n, running st) ])

-- The words of a `VarSubst`; `none` where a substitution runs out of fuel.
unfoldable pub subst_words : ℕ → Pattern → Bytes → List Bytes → Writer → Option Bytes
unfolding subst_ref maybe_add_whitespace
subst_words fuel pat subst [] w = some w.out
subst_words fuel pat subst (tok ∷ toks) w = elim (subst_ref fuel pat tok subst) [
  | none ↦ none
  | some r ↦ subst_words fuel pat subst toks (append_string r (maybe_add_whitespace w))
]

unfoldable pub subst_refs : ℕ → Pattern → Bytes → List Bytes → Option Bytes
unfolding subst_words
subst_refs fuel pat subst toks = subst_words fuel pat subst toks (writer [])

-- A text and what it costs: an error ends the program.
abbrev pub answer : Words.Result → Machine → Bytes × Machine
answer (Words.done s) m = (s, m)
answer (Words.failed e) m =
    ([], elim m [ running st ↦ failed e | failed e' ↦ failed e' | exhausted ↦ exhausted ])

abbrev pub answer_some : Option Bytes → Machine → Bytes × Machine
answer_some (some s) m = (s, m)
answer_some none m = ([], exhaust m)
