-- ===== src/Eval.antt =====
-- Assignments in src/eval.cc: `EvalRHS`, `EvalAssign` and the lookups that they use. How a value is
-- evaluated in a state is a parameter, and so is the value that `+=` makes of two; an assignment inside
-- an evaluation, and the trace of assignments, are left out.
pub mod Keep
pub mod Append
use kati.Prelude.{
  ℕ, zero, suc, ◌+◌, Bool, true, false, not, ◌&&◌, ◌||◌, Option, none, some, List, [], ◌∷◌, ◌++◌,
  Bytes, length, ◌==◌, if◌then◌else◌, codes, text_eq,
}
use kati.Strutil.Words.{words}
use kati.Rule.{Loc}
use kati.Var.{
  VarOrigin, Content, undefined_var, simple_var, recursive_var, variable_names_var,
  shell_status_var, Var, Assigned, stored, kept, refused, failed, is_defined, find_var, peek,
  lookup, put, set_global_var, Use, used, use_failed, var_used,
}

-- `AssignOp` of src/stmt.h.
pub data AssignOp : Type 0 where
  eq : AssignOp
  colon_eq : AssignOp
  plus_eq : AssignOp
  question_eq : AssignOp

-- The parts of an `Evaluator` that assignments use. `frame` is the last one of the
-- stack; of `last_rule_` it is kept whether there is one.
pub record Evaluator (Value : Type 0) : Type 0 where
  pub is_bootstrap : Bool
  pub is_commandline : Bool
  pub globals : List (Bytes × Var Value)
  pub current_scope : Option (List (Bytes × Var Value))
  pub used_env_vars : List Bytes
  pub used_undefined_vars : List Bytes
  pub frame : ℕ
  pub loc : Loc
  pub has_last_rule : Bool
  pub warnings : ℕ

-- `AssignStmt`, with its left side as a symbol.
pub record AssignStmt (Value : Type 0) : Type 0 where
  pub stmt_loc : Loc
  pub lhs : Bytes
  pub rhs : Value
  pub orig_rhs : Bytes
  pub op : AssignOp
  pub is_override : Bool
  pub is_final : Bool

-- How a right side ends: the variable, whether it is to be assigned, and the state; or an error.
pub data Rhs (Value : Type 0) : Type 0 where
  result : Var Value → Bool → Evaluator Value → Rhs Value
  rhs_error : Bytes → Rhs Value

pub data Done (Value : Type 0) : Type 0 where
  done : Evaluator Value → Done Value
  error : Bytes → Done Value

module _ {Value : Type 0} where
  -- `in_bootstrap`, `in_command_line` and `in_toplevel_makefile`.
  abbrev pub in_bootstrap : Evaluator Value → Evaluator Value
  in_bootstrap ev = record ev { is_bootstrap = true; is_commandline = false }

  abbrev pub in_command_line : Evaluator Value → Evaluator Value
  in_command_line ev = record ev { is_bootstrap = false; is_commandline = true }

  abbrev pub in_toplevel_makefile : Evaluator Value → Evaluator Value
  in_toplevel_makefile ev = record ev { is_commandline = false }

  -- `LookupVarGlobal`.
  unfoldable pub lookup_var_global : Bytes → Evaluator Value → Var Value × Evaluator Value
  unfolding lookup
  lookup_var_global name ev =
      let (v, used_env) = lookup name ev.globals ev.used_env_vars in
      let ev' = record ev { used_env_vars = used_env } in
      (
        v,
        if is_defined v
            then ev'
            else record ev' { used_undefined_vars = name ∷ ev.used_undefined_vars },
      )

  -- `LookupVarInCurrentScope`.
  unfoldable pub lookup_in_current_scope : Bytes → Evaluator Value → Var Value × Evaluator Value
  unfolding lookup_var_global lookup
  lookup_in_current_scope name ev = elim ev.current_scope [
    | none ↦ lookup_var_global name ev
    | some scope ↦
        let (v, used_env) = lookup name scope ev.used_env_vars in
        (v, record ev { used_env_vars = used_env })
  ]

  -- `PeekVarInCurrentScope`.
  unfoldable pub peek_in_current_scope : Bytes → Evaluator Value → Var Value
  unfolding peek
  peek_in_current_scope name ev = elim ev.current_scope [
    | none ↦ peek name ev.globals
    | some scope ↦ peek name scope
  ]

  -- What is changed through the pointer that a lookup in the current scope gave.
  unfoldable pub put_in_current_scope : Bytes → Var Value → Evaluator Value → Evaluator Value
  unfolding put
  put_in_current_scope name v ev = elim ev.current_scope [
    | none ↦ record ev { globals = put name v ev.globals }
    | some scope ↦ record ev { current_scope = some (put name v scope) }
  ]

  -- The origin and the frame of a new variable.
  abbrev pub new_origin : Bool → Evaluator Value → VarOrigin × Option ℕ
  new_origin is_override ev =
      if ev.is_bootstrap
      then (VarOrigin.default, none)
      else if ev.is_commandline
      then (VarOrigin.command_line, none)
      else if is_override
      then (VarOrigin.override, some ev.frame)
      else (VarOrigin.file, some ev.frame)

  abbrev pub new_var : Content Value → Bool → Evaluator Value → Var Value
  new_var content is_override ev =
      let (origin, definition) = new_origin is_override ev in
      record {
        content = content;
        origin = origin;
        definition = definition;
        loc = ev.loc;
        readonly = false;
        deprecated = false;
        obsolete = false;
        self_referential = false;
        message = [];
      }

  -- `prev->Used(this, lhs)` and the mark of a deprecated variable on a new one.
  unfoldable pub finish_rhs : Bytes → Var Value → Var Value → Bool → Evaluator Value → Rhs Value
  unfolding var_used
  finish_rhs lhs prev v needs_assign ev = elim (var_used prev lhs) [
    | use_failed m ↦ rhs_error m
    | used warns ↦
        result
          (if prev.deprecated && needs_assign
            then record v { deprecated = true; message = prev.message }
            else v)
          needs_assign (if warns then record ev { warnings = ev.warnings + 1 } else ev)
  ]

  -- `.KATI_READONLY`: each name must be that of a global variable.
  unfoldable pub mark_readonly : List Bytes → Evaluator Value → Done Value
  unfolding lookup put
  mark_readonly [] ev = done ev
  mark_readonly (name ∷ names) ev =
      let (v, used_env) = lookup name ev.globals ev.used_env_vars in
      let rest = mark_readonly names (record ev {
        globals = put name (record v { readonly = true }) ev.globals;
        used_env_vars = used_env;
      }) in
      if is_defined v then rest else error (codes "*** unknown variable: " ++ name)

  -- The end of `EvalAssign`: a final variable is marked where it stands.
  abbrev pub final_in_scope : AssignStmt Value → Var Value → Evaluator Value → Evaluator Value
  final_in_scope stmt v ev =
      if stmt.is_final then put_in_current_scope stmt.lhs (record v { readonly = true }) ev else ev

  abbrev pub final_var : AssignStmt Value → Var Value → Var Value
  final_var stmt v = if stmt.is_final then record v { readonly = true } else v

  unfoldable pub store_result : AssignStmt Value → Rhs Value → Done Value
  unfolding set_global_var put_in_current_scope put
  store_result stmt (rhs_error m) = error m
  store_result stmt (result v false ev) = done (final_in_scope stmt v ev)
  store_result stmt (result v true ev) =
      elim (set_global_var stmt.lhs v stmt.is_override ev.globals) [
        | stored globals ↦ done (record ev { globals = put stmt.lhs (final_var stmt v) globals })
        | kept ↦ done ev
        | refused ↦ error (codes "*** cannot assign to readonly variable: " ++ stmt.lhs)
        | failed m ↦ error m
      ]

module _ {Value : Type 0} (eval : Value → Evaluator Value → Bytes)
    (append_value : Value → Value → Value) where
  -- `AppendVar` of the classes that have one; the others fail a `CHECK`.
  unfoldable pub append_var : Var Value → Value → Evaluator Value → Option (Var Value)
  append_var v x ev = elim v.content [
    | simple_var s ↦
        some (record v { content = simple_var (s ++ b' ' ∷ eval x ev); definition = some ev.frame })
    | recursive_var y orig ↦
        some
          (record v { content = recursive_var (append_value y x) orig; definition = some ev.frame })
    | undefined_var ↦ none
    | variable_names_var s b ↦ none
    | shell_status_var o ↦ none
  ]

  -- The `+=` of a variable that is defined and can be written.
  unfoldable pub append_rhs : Bytes → Value → Var Value → Evaluator Value → Rhs Value
  unfolding append_var put_in_current_scope finish_rhs
  append_rhs lhs rhs prev ev = elim (append_var prev rhs ev) [
    | none ↦ rhs_error (codes "CHECK failed")
    | some v ↦ finish_rhs lhs prev v false (put_in_current_scope lhs v ev)
  ]

  -- `EvalRHS`.
  unfoldable pub eval_rhs : Bytes → Value → Bytes → AssignOp → Bool → Evaluator Value → Rhs Value
  unfolding peek_in_current_scope lookup_in_current_scope append_rhs finish_rhs
  eval_rhs lhs rhs orig_rhs AssignOp.colon_eq is_override ev =
      finish_rhs lhs (peek_in_current_scope lhs ev)
        (new_var (simple_var (eval rhs ev)) is_override ev) true ev
  eval_rhs lhs rhs orig_rhs AssignOp.eq is_override ev =
      finish_rhs lhs (peek_in_current_scope lhs ev)
        (new_var (recursive_var rhs orig_rhs) is_override ev) true ev
  eval_rhs lhs rhs orig_rhs AssignOp.plus_eq is_override ev =
      let (prev, ev') = lookup_in_current_scope lhs ev in
      if not (is_defined prev)
      then finish_rhs lhs prev (new_var (recursive_var rhs orig_rhs) is_override ev') true ev'
      else if prev.readonly
      then rhs_error (codes "*** cannot assign to readonly variable: " ++ lhs)
      else append_rhs lhs rhs prev ev'
  eval_rhs lhs rhs orig_rhs AssignOp.question_eq is_override ev =
      let (prev, ev') = lookup_in_current_scope lhs ev in
      if not (is_defined prev)
      then finish_rhs lhs prev (new_var (recursive_var rhs orig_rhs) is_override ev') true ev'
      else finish_rhs lhs prev prev false ev'

  -- `EvalAssign`.
  unfoldable pub eval_assign : AssignStmt Value → Evaluator Value → Done Value
  unfolding words mark_readonly eval_rhs store_result
  eval_assign stmt ev =
      let ev' = record ev { loc = stmt.stmt_loc; has_last_rule = false } in
      if length stmt.lhs == 0
      then error (codes "*** empty variable name.")
      else if text_eq stmt.lhs (codes ".KATI_READONLY")
      then mark_readonly (words (eval stmt.rhs ev')) ev'
      else store_result stmt (eval_rhs stmt.lhs stmt.rhs stmt.orig_rhs stmt.op stmt.is_override ev')
