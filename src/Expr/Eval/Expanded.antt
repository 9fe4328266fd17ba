-- ===== src/Expr/Eval/Expanded.antt =====
-- The evaluation of references to variables with a text, by src/expr.cc and src/var.cc.
use kati.Prelude.{
  ℕ, zero, suc, ◌+◌, ◌≤◌, ◌≡◌, refl, ap, ◌∙◌, inl, inr, Bool, false, none, List, [], ◌∷◌, arith,
  Bytes, if◌then◌else◌, Bool-cases,
}
use kati.Var.{
  Content, undefined_var, simple_var, recursive_var, variable_names_var, shell_status_var, Var,
  is_defined, peek, lookup, used, var_used,
}
use kati.Eval.{Evaluator, lookup_var_global}
use kati.Expr.{Value, FuncInfo}
use kati.Expr.Lookup.{
  State, Machine, running, lookup_var_for_eval, use_var, has_name, without, var_eval_complete,
}
use kati.Expr.Eval.{eval_name, eval_var}

-- A variable that has a text, or none where it is undefined.
abbrev pub Shows : Content Value → Bytes → Type 0
Shows undefined_var s = [] ≡ s
Shows (simple_var x) s = x ≡ s
Shows (recursive_var x orig) s = ⊥
Shows (variable_names_var name all) s = ⊥
Shows (shell_status_var status) s = ⊥

-- The state outside of any rule, with the given global variables.
abbrev pub outside : List (Bytes × Var Value) → State → State
outside globals st = record st { ev = record st.ev { globals = globals; current_scope = none } }

var_used-used :
    (c : Content Value) (v : Var Value) (name s : Bytes)
    → v.content ≡ c
    → Shows c s
    → v.obsolete ≡ false
    → var_used v name ≡ used v.deprecated
unfolding var_used
var_used-used undefined_var v name s e h o = ground arith
var_used-used (simple_var x) v name s e h o = ground arith
var_used-used (recursive_var x orig) v name s e h o = absurd h
var_used-used (variable_names_var n all) v name s e h o = absurd h
var_used-used (shell_status_var status) v name s e h o = absurd h

eval_var-shown :
    (other : FuncInfo → List Value → State → Bytes × Machine)
    (variable_names : Bool → Evaluator Value → Bytes) (f : ℕ) (c : Content Value) (v : Var Value)
    (s : Bytes) (m : Machine)
    → v.content ≡ c
    → Shows c s
    → eval_var other variable_names (suc f) v m ≡ (s, m)
unfolding eval_var
eval_var-shown other variable_names f undefined_var v s m e h =
    rw (e, eval_var) (ap (λ (t : Bytes). (t, m)) h)
eval_var-shown other variable_names f (simple_var x) v s m e h =
    rw (e, eval_var) (ap (λ (t : Bytes). (t, m)) h)
eval_var-shown other variable_names f (recursive_var x orig) v s m e h = absurd h
eval_var-shown other variable_names f (variable_names_var n all) v s m e h = absurd h
eval_var-shown other variable_names f (shell_status_var status) v s m e h = absurd h

complete : Bytes → Bytes × Machine → Bytes × Machine
complete name r = (r.0, var_eval_complete name r.1)

-- The rest of the evaluation of a name, behind its lookup.
module _ (other : FuncInfo → List Value → State → Bytes × Machine)
    (variable_names : Bool → Evaluator Value → Bytes) (f : ℕ) (name : Bytes) where
  behind_lookup : Var Value × State → Bytes × Machine
  unfolding complete
  behind_lookup r =
      complete name (eval_var other variable_names f r.0 (use_var r.0 name (running r.1)))

  eval_name-lookup_var_for_eval :
      (st : State)
      → eval_name other variable_names (suc f) name (running st)
        ≡ behind_lookup (lookup_var_for_eval name st)
  unfolding eval_name behind_lookup
  eval_name-lookup_var_for_eval st = refl

module _ (globals : List (Bytes × Var Value)) where
  use_var-used :
      (v : Var Value) (name s : Bytes) (st : State)
      → Shows v.content s
      → v.obsolete ≡ false
      → (st' : State) × (use_var v name (running (outside globals st))
          ≡ running (outside globals st'))
  unfolding use_var
  use_var-used v name s st h o =
      let used_now = var_used-used v.content v name s refl h o in
      elim (Bool-cases v.deprecated) [
        | inl e ↦ (
          record st { ev = record st.ev { warnings = st.ev.warnings + 1 } },
          rw (used_now, use_var, e) refl,
        )
        | inr e ↦ (st, rw (used_now, use_var, e) refl)
      ]

  lookup_var_for_eval-global :
      (name : Bytes) (st : State)
      → (st' : State) × (b : Bool) × (lookup_var_for_eval name (outside globals st)
          ≡ (record (peek name globals) { self_referential = b }, outside globals st'))
  unfolding lookup_var_for_eval lookup_var_global lookup
  lookup_var_for_eval-global name st =
      let v = peek name globals in
      let seen = has_name name st.symbols_for_eval in
      (
        record st {
          ev = record st.ev {
            used_env_vars = (lookup name globals st.ev.used_env_vars).1;
            used_undefined_vars =
                if is_defined v
                then st.ev.used_undefined_vars
                else name ∷ st.ev.used_undefined_vars;
          };
          symbols_for_eval = name ∷ st.symbols_for_eval;
        },
        seen,
        elim (Bool-cases seen) [
          | inl s ↦ elim (Bool-cases (is_defined v)) [
            | inl d ↦ rw (s, d) refl
            | inr d ↦ rw (s, d) refl
          ]
          | inr s ↦ elim (Bool-cases (is_defined v)) [
            | inl d ↦ rw (s, d) refl
            | inr d ↦ rw (s, d) refl
          ]
        ],
      )

  -- A name is evaluated to the text of its variable, whatever else is being evaluated.
  pub eval_name-shown :
      (other : FuncInfo → List Value → State → Bytes × Machine)
      (variable_names : Bool → Evaluator Value → Bytes) (f : ℕ) (name s : Bytes) (st : State)
      → Shows (peek name globals).content s
      → (peek name globals).obsolete ≡ false
      → 2 ≤ f
      → (st' : State) × (eval_name other variable_names f name (running (outside globals st))
          ≡ (s, running (outside globals st')))
  unfolding behind_lookup var_eval_complete
  eval_name-shown other variable_names zero name s st h o lt = absurd (omega arith)
  eval_name-shown other variable_names (suc zero) name s st h o lt = absurd (omega arith)
  eval_name-shown other variable_names (suc (suc f)) name s st h o lt =
      let (st1, b, looked) = lookup_var_for_eval-global name st in
      let v = record (peek name globals) { self_referential = b } in
      let (st2, taken) = use_var-used v name s st1 h o in
      let show =
        eval_var-shown other variable_names f v.content v s (running (outside globals st2)) refl
          h in
      (
        record st2 { symbols_for_eval = without name st2.symbols_for_eval },
        eval_name-lookup_var_for_eval other variable_names (suc f) name (outside globals st)
            ∙ ap (behind_lookup other variable_names (suc f) name) looked
            ∙ ap (λ (m : Machine). complete name (eval_var other variable_names (suc f) v m)) taken
            ∙ ap (complete name) show,
      )
