-- ===== src/Expr/Eval.antt =====
-- The evaluation of values: `Eval` of the subclasses of `Value` in src/expr.cc and of `Var` in
-- src/var.cc, the lookups of src/eval.cc that it uses, and the functions of src/func.cc that need
-- no system. A call costs a unit of fuel. Once an error has ended the program nothing changes any
-- more, so an evaluation runs on a `Machine` that may have stopped. What is left out: the depth of
-- the stack, frames and traces. The functions that reach the system or evaluate statements are a
-- parameter, and so are the names that `.VARIABLES` gives.
pub mod Errors
pub mod SelfReference
pub mod Expanded
use kati.Prelude.{
  ℕ, zero, suc, ◌+◌, Bool, true, false, not, ◌&&◌, ◌||◌, Option, none, some, List, [], ◌∷◌, ◌++◌,
  Bytes, length, get_or, drop, if◌then◌else◌, codes, text_eq, ◌==◌,
}
use kati.Strutil.Words.{words, Writer, writer, maybe_add_whitespace, append_string, write}
use kati.Strutil.Pattern.{Pattern, pattern_of, subst_ref}
use kati.Strutil.Trim.{trim_space}
use kati.Rule.{Loc}
use kati.Var.{
  VarOrigin, get_origin_str, Content, undefined_var, simple_var, recursive_var, variable_names_var,
  shell_status_var, Var, is_defined, flavor, peek, lookup, put, Use, used, use_failed, var_used,
  undefined_variable,
}
use kati.Eval.{Evaluator, lookup_var_global}
use kati.Expr.{
  Value, Values, no_values, values, literal, value_list, sym_ref, var_ref, var_subst, func,
  FuncInfo,
}
use kati.Func.Texts.{
  patsubst_func, strip_func, subst_func, findstring_func, filter_func, filter_out_func, sort_func,
}
use kati.Func.Words
use kati.Func.Words.{word_func, wordlist_func, words_func, firstword_func, lastword_func, decimal}
use kati.Func.Names.{
  join_func, dir_func, notdir_func, suffix_func, basename_func, addsuffix_func, addprefix_func,
}
use kati.Func.Control.{if_func, and_func, or_func}
use kati.Expr.Lookup.{
  State, Machine, on, exhaust, of_values, has_name, lookup_var, look_up, lookup_var_for_eval,
  use_var, var_eval_complete, var_string, shell_status, subst_refs, answer, answer_some, running,
  failed, exhausted,
}

module _ (eval : Value → Machine → Bytes × Machine) where
  -- The arguments from left to right.
  unfoldable pub eval_args : List Value → Machine → List Bytes × Machine
  eval_args [] m = ([], m)
  eval_args (a ∷ args) m =
      let (s, m') = eval a m in let (ss, m'') = eval_args args m' in (s ∷ ss, m'')

  -- The rounds of `ForeachFunc`, each with the variable set and then put back.
  unfoldable pub foreach_words : Bytes → Value → List Bytes → Writer → Machine → Writer × Machine
  unfolding peek put maybe_add_whitespace
  foreach_words name body [] w m = (w, m)
  foreach_words name body (tok ∷ toks) w m =
      let w' = maybe_add_whitespace w in
      let v = record undefined_variable {
        content = simple_var tok;
        origin = VarOrigin.automatic;
      } in
      elim m [
        | failed e ↦ (w, failed e)
        | exhausted ↦ (w, exhausted)
        | running st ↦
            let ev = st.ev in
            let orig = peek name ev.globals in
            let inside = record st { ev = record ev { globals = put name v ev.globals } } in
            let (r, m') = eval body (running inside) in
            foreach_words name body toks (append_string r w') (elim m' [
              | failed e ↦ failed e
              | exhausted ↦ exhausted
              | running st' ↦
                  let ev' = st'.ev in
                  running (record st' { ev = record ev' { globals = put name orig ev'.globals } })
            ])
      ]

  -- `ForeachFunc`.
  unfoldable pub foreach_func : Value → Value → Value → Machine → Bytes × Machine
  unfolding foreach_words words
  foreach_func varname list body m =
      let (name, m') = eval varname m in
      let (text, m'') = eval list m' in
      let (w, m''') = foreach_words name body (words text) (writer []) m'' in (w.out, m''')

  -- `ValueFunc`, `OriginFunc` and `FlavorFunc`, by what they take of the variable.
  unfoldable pub of_var : (Var Value → Bytes) → Value → Machine → Bytes × Machine
  unfolding lookup_var
  of_var part arg m = let (name, m') = eval arg m in let (v, m'') = look_up name m' in (part v, m'')

  -- An argument that is tested before the next is evaluated: the test is the function with the later
  -- arguments empty, where only what is wrong with this one can fail.
  unfoldable pub checked :
      Value
      → (Bytes → Words.Result)
      → (Bytes → Machine → Bytes × Machine)
      → Machine
      → Bytes × Machine
  checked arg test rest m =
      let (s, m') = eval arg m in
      elim (test s) [ Words.failed e ↦ answer (Words.failed e) m' | Words.done r ↦ rest s m' ]

  -- `WordFunc`.
  unfoldable pub call_word : Value → Value → Machine → Bytes × Machine
  unfolding checked word_func
  call_word n text m =
      checked n (λ a. word_func a [] [])
        (λ a m'. let (t, m'') = eval text m' in answer (word_func a t []) m'') m

  -- `WordlistFunc`.
  unfoldable pub call_wordlist : Value → Value → Value → Machine → Bytes × Machine
  unfolding checked wordlist_func
  call_wordlist first last text m =
      checked first (λ a. wordlist_func a (codes "1") [] [])
        (λ a.
          checked last (λ b. wordlist_func a b [] [])
            (λ b m'. let (t, m'') = eval text m' in answer (wordlist_func a b t []) m''))
        m

-- The functions of texts, on evaluated arguments; the inner `none` stands for a substitution that
-- runs out of fuel.
unfoldable pub text_func : ℕ → Bytes → List Bytes → Option (Option Bytes)
unfolding patsubst_func
text_func fuel name args =
    let a = get_or args 0 [] in
    let b = get_or args 1 [] in
    let c = get_or args 2 [] in
    let is = text_eq name in
    if is (codes "patsubst")
    then some (patsubst_func fuel a b c [])
    else if is (codes "subst")
    then some (some (subst_func a b c []))
    else if is (codes "strip")
    then some (some (strip_func a []))
    else if is (codes "findstring")
    then some (some (findstring_func a b []))
    else if is (codes "filter")
    then some (some (filter_func a b []))
    else if is (codes "filter-out")
    then some (some (filter_out_func a b []))
    else if is (codes "sort")
    then some (some (sort_func a []))
    else if is (codes "words")
    then some (some (words_func a []))
    else if is (codes "firstword")
    then some (some (firstword_func a []))
    else if is (codes "lastword")
    then some (some (lastword_func a []))
    else if is (codes "join")
    then some (some (join_func a b []))
    else if is (codes "dir")
    then some (some (dir_func a []))
    else if is (codes "notdir")
    then some (some (notdir_func a []))
    else if is (codes "suffix")
    then some (some (suffix_func a []))
    else if is (codes "basename")
    then some (some (basename_func a []))
    else if is (codes "addsuffix")
    then some (some (addsuffix_func a b []))
    else if is (codes "addprefix")
    then some (some (addprefix_func a b []))
    else none

module _ (other : FuncInfo → List Value → State → Bytes × Machine)
    (variable_names : Bool → Evaluator Value → Bytes) where
  -- A function by its name and arguments, with as many arguments as the parser lets through.
  unfoldable pub call_func :
      ℕ → (Value → Machine → Bytes × Machine) → FuncInfo → List Value → Machine → Bytes × Machine
  unfolding if_func and_func or_func foreach_func of_var call_word call_wordlist eval_args text_func
  call_func fuel eval fi args m =
      let is = text_eq fi.name in
      let a = get_or args 0 (literal []) in
      let b = get_or args 1 (literal []) in
      let c = get_or args 2 (literal []) in
      let (texts, m') = eval_args eval args m in
      if is (codes "if")
      then if_func eval a b (drop 2 args) [] m
      else if is (codes "and")
      then and_func eval args [] m
      else if is (codes "or")
      then or_func eval args [] m
      else if is (codes "foreach")
      then foreach_func eval a b c m
      else if is (codes "value")
      then of_var eval var_string a m
      else if is (codes "origin")
      then of_var eval (λ v. get_origin_str v.origin) a m
      else if is (codes "flavor")
      then of_var eval (λ v. flavor v) a m
      else if is (codes "word")
      then call_word eval a b m
      else if is (codes "wordlist")
      then call_wordlist eval a b c m
      else (elim (text_func fuel fi.name texts) [
        | some r ↦ answer_some r m'
        | none ↦ on [] m (λ st. other fi args st)
      ])

  -- `Eval` of a value, of a variable by its name, of a variable, and of the values of a list.
  unfoldable mutual
    unfolding call_func of_values use_var lookup_var_for_eval var_eval_complete lookup_var

    pub eval : ℕ → Value → Machine → Bytes × Machine
    eval zero v m = ([], exhaust m)
    eval (suc f) (literal s) m = (s, m)
    eval (suc f) (value_list loc vs) m = eval_values f vs m
    eval (suc f) (sym_ref loc name) m = eval_name f name m
    eval (suc f) (var_ref loc n) m = let (name, m') = eval f n m in eval_name f name m'
    eval (suc f) (var_subst loc n p s) m =
        let (name, m1) = eval f n m in
        let (v, m2) = look_up name m1 in
        let (pat_str, m3) = eval f p m2 in
        let (subst, m4) = eval f s m3 in
        let (value, m5) = eval_var f v (use_var v name m4) in
        answer_some (subst_refs f (pattern_of pat_str) subst (words value)) m5
    eval (suc f) (func loc fi args) m = call_func f (eval f) fi (of_values args) m

    pub eval_name : ℕ → Bytes → Machine → Bytes × Machine
    eval_name zero name m = ([], exhaust m)
    eval_name (suc f) name m = on [] m (λ st.
        let (v, st') = lookup_var_for_eval name st in
        let (s, m') = eval_var f v (use_var v name (running st')) in (s, var_eval_complete name m'))

    pub eval_var : ℕ → Var Value → Machine → Bytes × Machine
    eval_var zero v m = ([], exhaust m)
    eval_var (suc f) v m = elim v.content [
      | undefined_var ↦ ([], m)
      | simple_var s ↦ (s, m)
      | recursive_var x orig ↦ eval f x m
      | variable_names_var name all ↦ on [] m (λ st. (variable_names all st.ev, running st))
      | shell_status_var status ↦ on [] m (λ st. shell_status status st)
    ]

    pub eval_values : ℕ → Values → Machine → Bytes × Machine
    eval_values zero vs m = ([], exhaust m)
    eval_values (suc f) no_values m = ([], m)
    eval_values (suc f) (values v vs) m =
        let (s, m') = eval f v m in let (t, m'') = eval_values f vs m' in (s ++ t, m'')
