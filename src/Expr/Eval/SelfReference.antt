-- ===== src/Expr/Eval/SelfReference.antt =====
-- Recursive variables that refer to themselves: the test of `RecursiveVar::Used`, and where it is
-- not reached.
use kati.Prelude.{
  ℕ, zero, suc, ◌+◌, ◌≡◌, refl, ap, ◌∙◌, Bool, true, false, Option, none, some, List, ◌++◌, arith,
  Bytes, codes, if◌then◌else◌, text_eq_iff,
}
use kati.Rule.{Loc}
use kati.Var.{Var, recursive_var, lookup, var_used, Use, used, use_failed}
use kati.Eval.{Evaluator, lookup_var_global}
use kati.Expr.{Value, Values, values, literal, value_list, sym_ref, var_ref, var_subst, FuncInfo}
use kati.Expr.Eval.{eval, eval_name, eval_var, eval_values}
use kati.Expr.Lookup.{
  Machine, State, answer_some, exhausted, failed, has_name, lookup_var, lookup_var_for_eval,
  running, use_var, var_eval_complete,
}
use kati.Expr.Eval.Errors.{eval_var-failed, name-IsStopped, values-IsStopped}

-- The error of `RecursiveVar::Used`.
abbrev pub references_itself : Bytes → Bytes
references_itself name =
    codes "*** Recursive variable \"" ++ (name ++ codes "\" references itself (eventually).")

-- What a lookup finds does not change what a later lookup finds.
lookup_var_again :
    (name : Bytes) (ev : Evaluator Value)
    → (lookup_var name (lookup_var name ev).1).0 ≡ (lookup_var name ev).0
unfolding lookup_var lookup lookup_var_global
lookup_var_again name ev = ground arith

use_var_self :
    (v : Var Value) (name : Bytes) (st : State) (x : Value) (orig : Bytes)
    → v.content ≡ recursive_var x orig
    → v.self_referential ≡ true
    → use_var v name (running st) ≡ failed (references_itself name)
unfolding use_var
use_var_self v name st x orig c s = ground arith

use_var_plain :
    (v : Var Value) (name : Bytes) (st : State)
    → var_used v name ≡ used false
    → use_var v name (running st) ≡ running st
unfolding use_var
use_var_plain v name st u = outcome (var_used v name) u
  where
    outcome :
        (r : Use)
        → r ≡ used false
        → (elim r [
          | use_failed m ↦ failed m
          | used warns ↦
              let ev = st.ev in
              running
                (if warns then record st { ev = record ev { warnings = ev.warnings + 1 } } else st)
        ])
          ≡ running st
    outcome r p = rw p refl

answered : (o : Option Bytes) (m : Machine) → m ≡ exhausted → (answer_some o m).1 ≡ exhausted
answered none m p = rw p refl
answered (some s) m p = p

marked :
    (name : Bytes) (st : State)
    → has_name name st.symbols_for_eval ≡ true
    → ((lookup_var_for_eval name st).0.content ≡ (lookup_var name st.ev).0.content)
      × ((lookup_var_for_eval name st).0.self_referential ≡ true)
unfolding lookup_var_for_eval
marked name st n = rw n (refl, refl)

unmarked :
    (name : Bytes) (st : State)
    → has_name name st.symbols_for_eval ≡ false
    → ((lookup_var_for_eval name st).0
        ≡ record (lookup_var name st.ev).0 { self_referential = false })
      × ((lookup_var_for_eval name st).1.ev ≡ (lookup_var name st.ev).1)
      × (has_name name (lookup_var_for_eval name st).1.symbols_for_eval ≡ true)
unfolding lookup_var_for_eval has_name
unmarked name st n = rw n (refl, refl, rw ((text_eq_iff name name).1 refl) refl)

ended : (name e : Bytes) (m : Machine) → m ≡ failed e → var_eval_complete name m ≡ failed e
unfolding var_eval_complete
ended name e m p = rw p refl

-- Where the evaluation of a value first comes to a reference to a name, behind plain texts, with the
-- fuel for the way there.
mutual
  pub data Meets (name : Bytes) : ℕ → Value → Type 0 where
    here : {f : ℕ} (loc : Loc) → Meets name (suc (suc f)) (sym_ref loc name)
    computed : {f : ℕ} {n : Value} (loc : Loc) → Meets name f n → Meets name (suc f) (var_ref loc n)
    inside :
        {f : ℕ} {vs : Values} (loc : Loc)
        → MeetsIn name f vs
        → Meets name (suc f) (value_list loc vs)

  pub data MeetsIn (name : Bytes) : ℕ → Values → Type 0 where
    first : {f : ℕ} {v : Value} (vs : Values) → Meets name f v → MeetsIn name (suc f) (values v vs)
    later :
        {f : ℕ} {vs : Values} (s : Bytes)
        → MeetsIn name (suc f) vs
        → MeetsIn name (suc (suc f)) (values (literal s) vs)

module _ (other : FuncInfo → List Value → State → Bytes × Machine)
    (variable_names : Bool → Evaluator Value → Bytes) where
  completed :
      (f : ℕ) (name e : Bytes) (v : Var Value) (m : Machine)
      → m ≡ failed e
      → var_eval_complete name (eval_var other variable_names f v m).1 ≡ failed e
  unfolding var_eval_complete
  completed f name e v m p = rw p (rw (eval_var-failed other variable_names e f v) refl)

  eval_var-recursive :
      (f : ℕ) (v : Var Value) (m : Machine) (x : Value) (orig : Bytes)
      → v.content ≡ recursive_var x orig
      → eval_var other variable_names (suc f) v m ≡ eval other variable_names f x m
  unfolding eval_var
  eval_var-recursive f v m x orig c = ground (arith, c)

  -- A recursive variable that is used while its own value is being evaluated.
  eval_name-nested :
      (f : ℕ) (name : Bytes) (st : State) (x : Value) (orig : Bytes)
      → (lookup_var name st.ev).0.content ≡ recursive_var x orig
      → has_name name st.symbols_for_eval ≡ true
      → (eval_name other variable_names (suc f) name (running st)).1
        ≡ failed (references_itself name)
  unfolding eval_name
  eval_name-nested f name st x orig c n =
      let v = (lookup_var_for_eval name st).0 in
      let t = marked name st n in
      completed f name (references_itself name) v _
        (use_var_self v name (lookup_var_for_eval name st).1 x orig (t.0 ∙ c) t.1)

  module _ (name : Bytes) (x : Value) (orig : Bytes) where
    -- The variable has its value, and is being evaluated.
    abbrev IsInside : State → Type 0
    IsInside st =
        ((lookup_var name st.ev).0.content ≡ recursive_var x orig)
        × (has_name name st.symbols_for_eval ≡ true)

    mutual
      unfolding eval eval_values

      eval-Meets :
          (f : ℕ) (v : Value) (st : State)
          → Meets name f v
          → IsInside st
          → (eval other variable_names f v (running st)).1 ≡ failed (references_itself name)
      eval-Meets _ _ st (here {f} loc) h = eval_name-nested f name st x orig h.0 h.1
      eval-Meets _ _ st (computed {f} {n} loc k) h =
          rw (eval-Meets f n st k h)
            (name-IsStopped other variable_names (references_itself name) f _)
      eval-Meets _ _ st (inside {f} {vs} loc k) h = eval_values-Meets f vs st k h

      eval_values-Meets :
          (f : ℕ) (vs : Values) (st : State)
          → MeetsIn name f vs
          → IsInside st
          → (eval_values other variable_names f vs (running st)).1 ≡ failed (references_itself name)
      eval_values-Meets _ _ st (first {f} {v} vs k) h =
          rw (eval-Meets f v st k h)
            (values-IsStopped other variable_names (references_itself name) f vs)
      eval_values-Meets _ _ st (later {f} {vs} s k) h = eval_values-Meets (suc f) vs st k h

  -- A recursive variable whose value comes to a reference to the variable itself, behind plain texts, in
  -- parts of parts and in the names of references, ends the program with the error that names it, with
  -- fuel for the way there, if it is not being evaluated yet and is neither deprecated nor obsolete;
  -- whatever stands behind the reference.
  pub eval_name-Meets :
      (f : ℕ) (name : Bytes) (x : Value) (orig : Bytes) (st : State)
      → Meets name f x
      → (lookup_var name st.ev).0.content ≡ recursive_var x orig
      → var_used (record (lookup_var name st.ev).0 { self_referential = false }) name ≡ used false
      → has_name name st.symbols_for_eval ≡ false
      → (eval_name other variable_names (suc (suc f)) name (running st)).1
        ≡ failed (references_itself name)
  unfolding eval_name
  eval_name-Meets f name x orig st k c u n =
      let v = (lookup_var_for_eval name st).0 in
      let st' = (lookup_var_for_eval name st).1 in
      let (is, globals, marks) = unmarked name st n in
      let used_once : var_used v name ≡ used false = ap (λ w. var_used w name) is ∙ u in
      let value : v.content ≡ recursive_var x orig = ap (λ w. w.content) is ∙ c in
      let again : (lookup_var name st'.ev).0.content ≡ recursive_var x orig =
        ap (λ g. (lookup_var name g).0.content) globals
        ∙ ap (λ w. w.content) (lookup_var_again name st.ev)
        ∙ c in
      ended name (references_itself name) _ (
        ap (λ m. (eval_var other variable_names (suc f) v m).1) (use_var_plain v name st' used_once)
        ∙ ap (λ r. r.1) (eval_var-recursive f v (running st') x orig value)
        ∙ eval-Meets name x orig f x st' k (again, marks))

  -- A recursive variable whose value is a substitution in itself, as `X = $(X:.c=.o)`, is evaluated
  -- without end: with any fuel the evaluation runs out of it, and no error is found, if the variable is
  -- neither deprecated nor obsolete.
  pub var_subst-diverges :
      (f : ℕ) (loc : Loc) (name pat subst orig : Bytes) (st : State)
      → (lookup_var name st.ev).0.content
        ≡ recursive_var (var_subst loc (literal name) (literal pat) (literal subst)) orig
      → var_used (lookup_var name st.ev).0 name ≡ used false
      → (eval other variable_names f
          (var_subst loc (literal name) (literal pat) (literal subst))
          (running st)).1
        ≡ exhausted
  unfolding eval use_var
  var_subst-diverges zero loc name pat subst orig st c u = refl
  var_subst-diverges (suc zero) loc name pat subst orig st c u = answered _ _ refl
  var_subst-diverges (suc (suc f)) loc name pat subst orig st c u =
      let v = (lookup_var name st.ev).0 in
      let st' = record st { ev = (lookup_var name st.ev).1 } in
      let again = lookup_var_again name st.ev in
      answered _ _ (
        ap (λ m. (eval_var other variable_names (suc f) v m).1) (use_var_plain v name st' u)
        ∙ ap (λ r. r.1) (eval_var-recursive f v (running st') _ orig c)
        ∙ var_subst-diverges f loc name pat subst orig st' (ap (λ w. w.content) again ∙ c)
            (ap (λ w. var_used w name) again ∙ u))
