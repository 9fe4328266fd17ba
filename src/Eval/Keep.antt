-- ===== src/Eval/Keep.antt =====
-- How `=` treats a variable of the command line.
use kati.Prelude.{
  ℕ, ◌+◌, ◌≡◌, ◌≢◌, refl, Bool, true, false, ◌&&◌, none, List, Bytes, length, ◌==◌, if◌then◌else◌,
  codes, text_eq, arith,
}
use kati.Rule.{Loc}
use kati.Var.{Var, used, var_used}
use kati.Eval.{
  AssignOp, Evaluator, AssignStmt, result, Done, done, finish_rhs, store_result, eval_rhs,
  eval_assign,
}

-- An ordinary name.
abbrev pub IsName : Bytes → Type 0
IsName lhs = (length lhs ≢ 0) × (text_eq lhs (codes ".KATI_READONLY") ≡ false)

module _ {Value : Type 0} where
  -- A statement with no mark that the variable is final.
  abbrev pub statement : Loc → Bytes → Value → Bytes → AssignOp → Bool → AssignStmt Value
  statement at lhs rhs orig op is_override = record {
    stmt_loc = at;
    lhs = lhs;
    rhs = rhs;
    orig_rhs = orig;
    op = op;
    is_override = is_override;
    is_final = false;
  }

  -- A makefile is read, outside of any rule.
  abbrev pub IsReading : Evaluator Value → Type 0
  IsReading ev = (ev.is_bootstrap ≡ false) × (ev.is_commandline ≡ false) × (ev.current_scope ≡ none)

  -- The globals at the end.
  abbrev pub EndsWith : Done Value → List (Bytes × Var Value) → Type 0
  EndsWith d globals = (ev : Evaluator Value) × (d ≡ done ev) × (ev.globals ≡ globals)

==-nonzero : (n : ℕ) → n ≢ 0 → (n == 0) ≡ false
==-nonzero n h = ground arith

module _ {Value : Type 0} where
  -- `finish_rhs` where the old variable may be used.
  abbrev pub warned : Bool → Evaluator Value → Evaluator Value
  warned w ev = if w then record ev { warnings = ev.warnings + 1 } else ev

  pub warned-globals : (w : Bool) (ev : Evaluator Value) → (warned w ev).globals ≡ ev.globals
  warned-globals true ev = refl
  warned-globals false ev = refl

  abbrev pub marked : Bool → Var Value → Var Value → Var Value
  marked b prev v = if b then record v { deprecated = true; message = prev.message } else v

  pub finish_rhs-used :
      (lhs : Bytes) (prev v : Var Value) (needs_assign w : Bool) (ev : Evaluator Value)
      → var_used prev lhs ≡ used w
      → finish_rhs lhs prev v needs_assign ev
        ≡ result (marked (prev.deprecated && needs_assign) prev v) needs_assign (warned w ev)
  unfolding finish_rhs
  finish_rhs-used lhs prev v needs_assign w ev h = rw (finish_rhs, h) refl

module _ {Value : Type 0} (eval : Value → Evaluator Value → Bytes)
    (append_value : Value → Value → Value) where
  pub eval_assign-store :
      (ev : Evaluator Value) (at : Loc) (lhs : Bytes) (rhs : Value) (orig : Bytes) (op : AssignOp)
      (is_override : Bool)
      → IsName lhs
      → eval_assign eval append_value (statement at lhs rhs orig op is_override) ev
        ≡ store_result (statement at lhs rhs orig op is_override) (
            eval_rhs eval append_value lhs rhs orig op is_override
              (record ev { loc = at; has_last_rule = false }))
  unfolding eval_assign
  eval_assign-store ev at lhs rhs orig op is_override name =
      let n : (length lhs == 0) ≡ false = ==-nonzero (length lhs) name.0 in
      rw (eval_assign, n, name.1) refl
