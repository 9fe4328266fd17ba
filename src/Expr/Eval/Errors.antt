-- ===== src/Expr/Eval/Errors.antt =====
-- After an error nothing changes any more.
use kati.Prelude.{
  ℕ, zero, suc, ◌≡◌, refl, Bool, true, false, Option, none, some, List, [], ◌∷◌, arith, Bytes,
  if◌then◌else◌, get_or, drop, codes, text_eq,
}
use kati.Strutil.Words.{Writer, writer}
use kati.Var.{
  Var, Content, undefined_variable, get_origin_str, flavor, undefined_var, simple_var,
  recursive_var, variable_names_var, shell_status_var,
}
use kati.Eval.{Evaluator}
use kati.Expr.{
  Value, Values, no_values, values, literal, value_list, sym_ref, var_ref, var_subst, func,
  FuncInfo,
}
use kati.Func.Control.{if_func, and_from, or_func}
use kati.Func.Words
use kati.Func.Words.{word_func, wordlist_func}
use kati.Expr.Eval.{
  eval_args, foreach_words, foreach_func, of_var, checked, call_word, call_wordlist, text_func,
  call_func, eval, eval_name, eval_var, eval_values,
}
use kati.Expr.Lookup.{
  Machine, State, answer, answer_some, failed, of_values, on, use_var, var_eval_complete,
  var_string,
}

-- What is done after an error leaves the error.
abbrev IsStopped : {A : Type 0} → Bytes → A × Machine → Type 0
IsStopped e r = r.1 ≡ failed e

module _ (e : Bytes) (ev : Value → Machine → Bytes × Machine)
    (h : (v : Value) → (ev v (failed e)).1 ≡ failed e) where
  one :
      (b : Bool) (x y : Bytes × Machine)
      → IsStopped e x
      → IsStopped e y
      → IsStopped e (if b then x else y)
  one true x y p q = p
  one false x y p q = q

  if_func-IsStopped :
      (a b : Value) (rest : List Value) → IsStopped e (if_func ev a b rest [] (failed e))
  unfolding if_func
  if_func-IsStopped a b [] = rw (h a) (ground (arith, h b))
  if_func-IsStopped a b (c ∷ rest) = rw (h a) (ground (arith, h b, h c))

  and_from-IsStopped :
      (args : List Value) (c s : Bytes) → IsStopped e (and_from ev args c s (failed e))
  unfolding and_from
  and_from-IsStopped [] c s = refl
  and_from-IsStopped (a ∷ args) c s =
      rw (h a) (ground (arith, and_from-IsStopped args (ev a (failed e)).0 s))

  or_func-IsStopped : (args : List Value) (s : Bytes) → IsStopped e (or_func ev args s (failed e))
  unfolding or_func
  or_func-IsStopped [] s = refl
  or_func-IsStopped (a ∷ args) s = ground (arith, h a, or_func-IsStopped args s)

  eval_args-IsStopped : (args : List Value) → IsStopped e (eval_args ev args (failed e))
  unfolding eval_args
  eval_args-IsStopped [] = refl
  eval_args-IsStopped (a ∷ args) = rw (h a) (eval_args-IsStopped args)

  foreach_words-IsStopped :
      (name : Bytes) (body : Value) (toks : List Bytes) (w : Writer)
      → IsStopped e (foreach_words ev name body toks w (failed e))
  unfolding foreach_words
  foreach_words-IsStopped name body [] w = refl
  foreach_words-IsStopped name body (t ∷ toks) w = refl

  foreach_func-IsStopped : (a b c : Value) → IsStopped e (foreach_func ev a b c (failed e))
  unfolding foreach_func
  foreach_func-IsStopped a b c =
      rw (h a) (rw (h b) (foreach_words-IsStopped (ev a (failed e)).0 c _ (writer [])))

  of_var-IsStopped :
      (part : Var Value → Bytes) (a : Value) → IsStopped e (of_var ev part a (failed e))
  unfolding of_var
  of_var-IsStopped part a = rw (h a) refl

  answer-IsStopped : (r : Words.Result) → IsStopped e (answer r (failed e))
  answer-IsStopped (Words.done s) = refl
  answer-IsStopped (Words.failed m) = refl

  checked-IsStopped :
      (a : Value) (test : Bytes → Words.Result) (rest : Bytes → Machine → Bytes × Machine)
      → ((s : Bytes) → IsStopped e (rest s (failed e)))
      → IsStopped e (checked ev a test rest (failed e))
  unfolding checked
  checked-IsStopped a test rest k = tested (test (ev a (failed e)).0) (ev a (failed e)).1 (h a)
    where
      tested :
          (r : Words.Result) (m : Machine)
          → m ≡ failed e
          → IsStopped {A = Bytes} e (elim r [
            | Words.failed x ↦ answer (Words.failed x) m
            | Words.done s ↦ rest (ev a (failed e)).0 m
          ])
      tested (Words.failed x) m q = rw q refl
      tested (Words.done s) m q = rw q (k (ev a (failed e)).0)

  answered-IsStopped :
      (b : Value) (k : Bytes → Words.Result)
      → IsStopped {A = Bytes} e (answer (k (ev b (failed e)).0) (ev b (failed e)).1)
  answered-IsStopped b k = rw (h b) (answer-IsStopped (k (ev b (failed e)).0))

  call_word-IsStopped : (a b : Value) → IsStopped e (call_word ev a b (failed e))
  unfolding call_word
  call_word-IsStopped a b =
      checked-IsStopped a (λ x. word_func x [] [])
        (λ x m'. let (t, m'') = ev b m' in answer (word_func x t []) m'')
        (λ s. answered-IsStopped b (λ t. word_func s t []))

  call_wordlist-IsStopped : (a b c : Value) → IsStopped e (call_wordlist ev a b c (failed e))
  unfolding call_wordlist
  call_wordlist-IsStopped a b c =
      checked-IsStopped a (λ x. wordlist_func x (codes "1") [] [])
        (λ x.
          checked ev b (λ y. wordlist_func x y [] [])
            (λ y m'. let (t, m'') = ev c m' in answer (wordlist_func x y t []) m''))
        (λ s.
          checked-IsStopped b (λ y. wordlist_func s y [] [])
            (λ y m'. let (t, m'') = ev c m' in answer (wordlist_func s y t []) m'')
            (λ t. answered-IsStopped c (λ x. wordlist_func s t x [])))

answer_some-IsStopped : (e : Bytes) (o : Option Bytes) → IsStopped e (answer_some o (failed e))
answer_some-IsStopped e none = refl
answer_some-IsStopped e (some s) = refl

module _ (other : FuncInfo → List Value → State → Bytes × Machine)
    (variable_names : Bool → Evaluator Value → Bytes) where
  call_func-IsStopped :
      (e : Bytes) (fuel : ℕ) (ev : Value → Machine → Bytes × Machine)
      → ((v : Value) → (ev v (failed e)).1 ≡ failed e)
      → (fi : FuncInfo) (args : List Value)
      → IsStopped e (call_func other variable_names fuel ev fi args (failed e))
  unfolding call_func
  call_func-IsStopped e fuel ev h fi args =
      let a = get_or args 0 (literal []) in
      let b = get_or args 1 (literal []) in
      let c = get_or args 2 (literal []) in
      let is = text_eq fi.name in
      let test = one e ev h in
      test (is (codes "if")) _ _ (if_func-IsStopped e ev h a b (drop 2 args)) (
        test (is (codes "and")) _ _ (and_from-IsStopped e ev h args [] []) (
          test (is (codes "or")) _ _ (or_func-IsStopped e ev h args []) (
            test (is (codes "foreach")) _ _ (foreach_func-IsStopped e ev h a b c) (
              test (is (codes "value")) _ _ (of_var-IsStopped e ev h var_string a) (
                test (is (codes "origin")) _ _
                  (of_var-IsStopped e ev h (λ v. get_origin_str v.origin) a)
                  (test (is (codes "flavor")) _ _ (of_var-IsStopped e ev h (λ v. flavor v) a) (
                    test (is (codes "word")) _ _ (call_word-IsStopped e ev h a b) (
                      test (is (codes "wordlist")) _ _ (call_wordlist-IsStopped e ev h a b c) (
                        texts (text_func fuel fi.name (eval_args ev args (failed e)).0)
                          (eval_args ev args (failed e)).1
                          (eval_args-IsStopped e ev h args))))))))))
    where
      texts :
          (o : Option (Option Bytes)) (m : Machine)
          → m ≡ failed e
          → IsStopped {A = Bytes} e (elim o [
            | some r ↦ answer_some r m
            | none ↦ on [] (failed e) (λ st. other fi args st)
          ])
      texts none m q = refl
      texts (some r) m q = rw q (answer_some-IsStopped e r)

  content-IsStopped :
      (e : Bytes) (ev : Value → Machine → Bytes × Machine)
      → ((v : Value) → (ev v (failed e)).1 ≡ failed e)
      → (c : Content Value)
      → IsStopped {A = Bytes} e (elim c [
        | undefined_var ↦ ([], failed e)
        | simple_var s ↦ (s, failed e)
        | recursive_var x orig ↦ ev x (failed e)
        | variable_names_var name all ↦ ([], failed e)
        | shell_status_var status ↦ ([], failed e)
      ])
  content-IsStopped e ev h undefined_var = refl
  content-IsStopped e ev h (simple_var s) = refl
  content-IsStopped e ev h (recursive_var x orig) = h x
  content-IsStopped e ev h (variable_names_var name all) = refl
  content-IsStopped e ev h (shell_status_var status) = refl

  mutual
    unfolding eval eval_name eval_var eval_values use_var var_eval_complete

    eval-IsStopped :
        (e : Bytes) (f : ℕ) (v : Value) → IsStopped e (eval other variable_names f v (failed e))
    eval-IsStopped e zero v = refl
    eval-IsStopped e (suc f) (literal s) = refl
    eval-IsStopped e (suc f) (value_list loc vs) = values-IsStopped e f vs
    eval-IsStopped e (suc f) (sym_ref loc name) = name-IsStopped e f name
    eval-IsStopped e (suc f) (var_ref loc n) = rw (eval-IsStopped e f n) (name-IsStopped e f _)
    eval-IsStopped e (suc f) (var_subst loc n p s) =
        let m1 = eval-IsStopped e f n in
        rw m1 (
          rw (eval-IsStopped e f p) (
            rw (eval-IsStopped e f s)
              (rw (var-IsStopped e f undefined_variable) (answer_some-IsStopped e _))))
    eval-IsStopped e (suc f) (func loc fi args) =
        call_func-IsStopped e f (eval other variable_names f) (λ v. eval-IsStopped e f v) fi
          (of_values args)

    pub name-IsStopped :
        (e : Bytes) (f : ℕ) (name : Bytes)
        → IsStopped e (eval_name other variable_names f name (failed e))
    name-IsStopped e zero name = refl
    name-IsStopped e (suc f) name = refl

    var-IsStopped :
        (e : Bytes) (f : ℕ) (v : Var Value)
        → IsStopped e (eval_var other variable_names f v (failed e))
    var-IsStopped e zero v = refl
    var-IsStopped e (suc f) v =
        content-IsStopped e (eval other variable_names f) (λ x. eval-IsStopped e f x) v.content

    pub values-IsStopped :
        (e : Bytes) (f : ℕ) (vs : Values)
        → IsStopped e (eval_values other variable_names f vs (failed e))
    values-IsStopped e zero vs = refl
    values-IsStopped e (suc f) no_values = refl
    values-IsStopped e (suc f) (values v vs) = rw (eval-IsStopped e f v) (values-IsStopped e f vs)

  pub eval_var-failed :
      (e : Bytes) (f : ℕ) (v : Var Value)
      → (eval_var other variable_names f v (failed e)).1 ≡ failed e
  eval_var-failed e f v = var-IsStopped e f v
