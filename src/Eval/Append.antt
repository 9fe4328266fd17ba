-- ===== src/Eval/Append.antt =====
-- How `+=` treats a simple variable, whatever its origin.
use kati.Prelude.{
  and_false, ◌≡◌, refl, ap, ◌∙◌, Bool, true, false, none, some, ◌∷◌, ◌++◌, Bytes, codes,
}
use kati.Rule.{Loc}
use kati.Var.{simple_var, Var, is_defined, peek, lookup, put, used, var_used}
use kati.Eval.{
  AssignOp, Evaluator, AssignStmt, result, rhs_error, finish_rhs, store_result, eval_rhs,
  eval_assign, append_rhs, append_var, lookup_in_current_scope, lookup_var_global,
  put_in_current_scope,
}
use kati.Eval.Keep.{
  statement, IsName, IsReading, EndsWith, warned, warned-globals, marked, finish_rhs-used,
  eval_assign-store,
}

module _ {Value : Type 0} (eval : Value → Evaluator Value → Bytes)
    (append_value : Value → Value → Value) where
  -- A lookup outside of any rule, of a variable that is defined.
  abbrev pub looked_up : Evaluator Value → Bytes → Evaluator Value
  looked_up ev lhs = record ev { used_env_vars = (lookup lhs ev.globals ev.used_env_vars).1 }

  lookup-defined :
      (ev : Evaluator Value) (lhs : Bytes)
      → ev.current_scope ≡ none
      → is_defined (peek lhs ev.globals) ≡ true
      → lookup_in_current_scope lhs ev ≡ (peek lhs ev.globals, looked_up ev lhs)
  lookup-defined ev lhs h d = outside ∙ noted
    where
      outside : lookup_in_current_scope lhs ev ≡ lookup_var_global lhs ev
      outside = unfold lookup_in_current_scope in rw h refl

      noted : lookup_var_global lhs ev ≡ (peek lhs ev.globals, looked_up ev lhs)
      noted = unfold lookup_var_global lookup in rw d refl

  eval_rhs-append :
      (ev ev' : Evaluator Value) (lhs : Bytes) (rhs : Value) (orig : Bytes) (prev : Var Value)
      (is_override : Bool)
      → lookup_in_current_scope lhs ev ≡ (prev, ev')
      → is_defined prev ≡ true
      → prev.readonly ≡ false
      → eval_rhs eval append_value lhs rhs orig AssignOp.plus_eq is_override ev
        ≡ append_rhs eval append_value lhs rhs prev ev'
  unfolding eval_rhs
  eval_rhs-append ev ev' lhs rhs orig prev is_override h d r = rw (eval_rhs, h, d, r) refl

  -- The variable that `+=` leaves.
  abbrev pub appended : Evaluator Value → Var Value → Bytes → Value → Var Value
  appended ev v s rhs = record v {
    content = simple_var (s ++ b' ' ∷ eval rhs ev);
    definition = some ev.frame;
  }

  append_rhs-simple :
      (ev : Evaluator Value) (lhs : Bytes) (rhs : Value) (prev : Var Value) (s : Bytes) (w : Bool)
      → ev.current_scope ≡ none
      → prev.content ≡ simple_var s
      → var_used prev lhs ≡ used w
      → append_rhs eval append_value lhs rhs prev ev
        ≡ result
            (appended ev prev s rhs)
            false
            (warned w (record ev { globals = put lhs (appended ev prev s rhs) ev.globals }))
  append_rhs-simple ev lhs rhs prev s w h c u =
      opened
      ∙ ap (finish_rhs lhs prev v false) stored_globals
      ∙ finish_rhs-used lhs prev v false w (record ev { globals = put lhs v ev.globals }) u
      ∙ ap
          (λ b.
            result (marked b prev v) false
              (warned w (record ev { globals = put lhs v ev.globals })))
          (and_false prev.deprecated)
    where
      v : Var Value
      v = appended ev prev s rhs

      longer : append_var eval append_value prev rhs ev ≡ some v
      longer = unfold append_var in rw c refl

      opened :
          append_rhs eval append_value lhs rhs prev ev
          ≡ finish_rhs lhs prev v false (put_in_current_scope lhs v ev)
      opened =
          unfold append_rhs in
          ap
            (λ o. elim o [
              | none ↦ rhs_error (codes "CHECK failed")
              | some x ↦ finish_rhs lhs prev x false (put_in_current_scope lhs x ev)
            ])
            longer

      stored_globals : put_in_current_scope lhs v ev ≡ record ev { globals = put lhs v ev.globals }
      stored_globals = unfold put_in_current_scope in rw h refl

  -- `+=` on a simple variable that may be used and can be written appends a space and the value of the
  -- right side, outside of any rule, whatever the origin of the variable is: one of the command line or
  -- of `override` is changed as well.
  pub eval_assign-append :
      (ev : Evaluator Value) (at : Loc) (lhs : Bytes) (rhs : Value) (orig s : Bytes)
      (is_override w : Bool)
      → IsReading ev
      → IsName lhs
      → (peek lhs ev.globals).content ≡ simple_var s
      → var_used (peek lhs ev.globals) lhs ≡ used w
      → (peek lhs ev.globals).readonly ≡ false
      → EndsWith
          (eval_assign eval append_value
            (statement at lhs rhs orig AssignOp.plus_eq is_override)
            ev)
          (put lhs
            (appended
              (looked_up (record ev { loc = at; has_last_rule = false }) lhs)
              (peek lhs ev.globals)
              s
              rhs)
            ev.globals)
  eval_assign-append ev at lhs rhs orig s is_override w reading name c u r = (
    warned w (record found { globals = put lhs v ev.globals }),
    eval_assign-store eval append_value ev at lhs rhs orig AssignOp.plus_eq is_override name
        ∙ ap (store_result stmt) (
            eval_rhs-append (record ev { loc = at; has_last_rule = false }) found lhs rhs orig prev
              is_override
              (lookup-defined (record ev { loc = at; has_last_rule = false }) lhs reading.2 defined)
              defined r
            ∙ append_rhs-simple found lhs rhs prev s w reading.2 c u)
        ∙ unfold store_result in refl,
    warned-globals w (record found { globals = put lhs v ev.globals }),
  )
    where
      stmt : AssignStmt Value
      stmt = statement at lhs rhs orig AssignOp.plus_eq is_override

      prev : Var Value
      prev = peek lhs ev.globals

      found : Evaluator Value
      found = looked_up (record ev { loc = at; has_last_rule = false }) lhs

      v : Var Value
      v = appended found prev s rhs

      defined : is_defined prev ≡ true
      defined = rw c refl
