-- ===== src/Expr/Written/Expanded.antt =====
-- Texts of plain parts and references, parsed and evaluated by src/expr.cc.
use kati.Prelude.{
  ℕ, zero, suc, ◌+◌, ◌≤◌, ◌≡◌, refl, ap, sym, ◌∙◌, Bool, false, List, [], ◌∷◌, ◌++◌, append-nil,
  length-append, arith, Bytes, length, Lacks, codes,
}
use kati.Strutil.Trim.{return}
use kati.Rule.{Loc}
use kati.Var.{Var, peek}
use kati.Eval.{Evaluator}
use kati.Expr.{Value, FuncInfo, literal, sym_ref, to_values, new_expr}
use kati.Expr.Scan.{ParseExprOpt, parsed, is_func_args}
use kati.Expr.Parse.{parse_expr}
use kati.Expr.Lookup.{State, Machine, running}
use kati.Expr.Eval.{eval, eval_values}
use kati.Expr.Eval.Expanded.{Shows, outside, eval_name-shown}
use kati.Expr.Written.{
  Special, dollars, named, short, Text, last, more, print_special, print, value_of, values_of,
  IsWritten,
}
use kati.Expr.Written.Dollars.{plain_values}
use kati.Expr.Written.Read.{length-print_special, parse_expr-print}

-- A text with the text of a variable in the place of each reference, and one dollar for two.
module _ (texts : Bytes → Bytes) where
  unfoldable pub expand_special : Special → Bytes
  expand_special dollars = codes "$"
  expand_special (named name) = texts name
  expand_special (short c) = texts (c ∷ [])

  unfoldable pub expand : Text → Bytes
  unfolding expand_special
  expand (last p) = p
  expand (more p special t) = p ++ (expand_special special ++ expand t)

-- A name has the text in a table: its variable is not obsolete, and is simple or undefined.
module _ (globals : List (Bytes × Var Value)) (texts : Bytes → Bytes) where
  abbrev pub Has : Bytes → Type 0
  Has name = Shows (peek name globals).content (texts name) × ((peek name globals).obsolete ≡ false)

  abbrev pub HasSpecial : Special → Type 0
  HasSpecial dollars = Unit {0}
  HasSpecial (named name) = Has name
  HasSpecial (short c) = Has (c ∷ [])

  abbrev pub HasAll : Text → Type 0
  HasAll (last p) = Unit {0}
  HasAll (more p special t) = HasSpecial special × HasAll t

length-plain_values : (p : Bytes) → length (plain_values p) ≤ length p
length-plain_values [] = omega arith
length-plain_values (c ∷ p) = omega arith

length-values_of : (loc : Loc) (t : Text) → length (values_of loc t) ≤ length (print t)
unfolding values_of print
length-values_of loc (last p) = length-plain_values p
length-values_of loc (more p special t) = omega (
  arith,
  length-plain_values p,
  length-values_of loc t,
  length-print_special special,
  length-append (plain_values p) (value_of loc special ∷ values_of loc t),
  length-append p (print_special special ++ print t),
  length-append (print_special special) (print t),
)

module _ (other : FuncInfo → List Value → State → Bytes × Machine)
    (variable_names : Bool → Evaluator Value → Bytes) (globals : List (Bytes × Var Value)) where
  -- A machine that runs outside of any rule is left so, with a text.
  abbrev pub Runs : Bytes → Bytes × Machine → Type 0
  Runs s r = (st' : State) × (r ≡ (s, running (outside globals st')))

  abbrev Gives : Value → Bytes → Type 0
  Gives v s =
      (f : ℕ) (st : State)
      → 3 ≤ f
      → Runs s (eval other variable_names f v (running (outside globals st)))

  abbrev GivesAll : List Value → Bytes → Type 0
  GivesAll [] s = s ≡ []
  GivesAll (v ∷ vs) s = (x : Bytes) × (y : Bytes) × (s ≡ x ++ y) × Gives v x × GivesAll vs y

  literal-Gives : (s : Bytes) → Gives (literal s) s
  unfolding eval
  literal-Gives s zero st lt = absurd (omega arith)
  literal-Gives s (suc f) st lt = (st, refl)

  sym_ref-Gives :
      (texts : Bytes → Bytes) (loc : Loc) (name : Bytes)
      → Has globals texts name
      → Gives (sym_ref loc name) (texts name)
  unfolding eval
  sym_ref-Gives texts loc name h zero st lt = absurd (omega arith)
  sym_ref-Gives texts loc name h (suc f) st lt =
      eval_name-shown globals other variable_names f name (texts name) st h.0 h.1 (omega arith)

  eval_values-Gives :
      (vs : List Value) (s : Bytes) (f : ℕ) (st : State)
      → GivesAll vs s
      → length vs + 4 ≤ f
      → Runs s (eval_values other variable_names f (to_values vs) (running (outside globals st)))
  unfolding eval_values to_values
  eval_values-Gives vs s zero st g lt = absurd (omega arith)
  eval_values-Gives [] s (suc f) st g lt = (st, rw g refl)
  eval_values-Gives (v ∷ vs) s (suc f) st (x, y, e, g, gs) lt =
      let (st1, first) = g f st (omega arith) in
      let (st2, rest) = eval_values-Gives vs y f st1 gs (omega arith) in
      (st2, rw (first, rest, e) refl)

  new_expr-Gives :
      (loc : Loc) (vs : List Value) (s : Bytes) (f : ℕ) (st : State)
      → GivesAll vs s
      → length vs + 5 ≤ f
      → Runs s (eval other variable_names f (new_expr loc vs) (running (outside globals st)))
  unfolding eval new_expr
  new_expr-Gives loc vs s zero st g lt = absurd (omega arith)
  new_expr-Gives loc [] s (suc f) st g lt = eval_values-Gives [] s f st g (omega arith)
  new_expr-Gives loc (v ∷ []) s (suc f) st (x, y, e, g, none_left) lt =
      let (st1, only) = g (suc f) st (omega arith) in
      (
        st1,
        only
            ∙ ap (λ (t : Bytes). (t, running (outside globals st1)))
                (sym (e ∙ ap (λ (t : Bytes). x ++ t) none_left ∙ append-nil x)),
      )
  new_expr-Gives loc (v ∷ w ∷ vs) s (suc f) st g lt =
      eval_values-Gives (v ∷ w ∷ vs) s f st g (omega arith)

  plain-GivesAll :
      (p s : Bytes) (vs : List Value) → GivesAll vs s → GivesAll (plain_values p ++ vs) (p ++ s)
  plain-GivesAll [] s vs g = g
  plain-GivesAll (c ∷ p) s vs g = (c ∷ p, s, refl, literal-Gives (c ∷ p), g)

  last-GivesAll : (p : Bytes) → GivesAll (plain_values p) p
  last-GivesAll [] = refl
  last-GivesAll (c ∷ p) = (c ∷ p, [], sym (append-nil (c ∷ p)), literal-Gives (c ∷ p), refl)

  value_of-Gives :
      (texts : Bytes → Bytes) (loc : Loc) (special : Special)
      → HasSpecial globals texts special
      → Gives (value_of loc special) (expand_special texts special)
  unfolding value_of expand_special
  value_of-Gives texts loc dollars h = literal-Gives (codes "$")
  value_of-Gives texts loc (named name) h = sym_ref-Gives texts loc name h
  value_of-Gives texts loc (short c) h = sym_ref-Gives texts loc (c ∷ []) h

  values_of-GivesAll :
      (texts : Bytes → Bytes) (loc : Loc) (t : Text)
      → HasAll globals texts t
      → GivesAll (values_of loc t) (expand texts t)
  unfolding values_of expand
  values_of-GivesAll texts loc (last p) h = last-GivesAll p
  values_of-GivesAll texts loc (more p special t) h = plain-GivesAll p _ _ (
    expand_special texts special,
    expand texts t,
    refl,
    value_of-Gives texts loc special h.0,
    values_of-GivesAll texts loc t h.1,
  )

-- Texts are expanded: a text of plain parts, doubled dollars and references `$(NAME)` and `$c`, with no
-- carriage return, is parsed by `ParseExpr` to a value, and `Eval` of that value, outside of any rule,
-- gives the text with one dollar for two and with the text of the variable for each reference; it
-- leaves the global variables as they are, and no error ends the program. So it is if no variable of
-- these is obsolete and each is simple or undefined, where an undefined one has the empty text, for
-- parts and names as the parser takes them for such, with fuel for the bytes of the text and five units
-- more.
pub parse_expr-expand :
    (other : FuncInfo → List Value → State → Bytes × Machine)
    (variable_names : Bool → Evaluator Value → Bytes) (globals : List (Bytes × Var Value))
    (texts : Bytes → Bytes) (t : Text) (f g : ℕ) (loc : Loc) (opt : ParseExprOpt) (st : State)
    → is_func_args opt ≡ false
    → IsWritten t
    → Lacks return (print t)
    → HasAll globals texts t
    → length (print t) + 3 ≤ f
    → length (print t) + 5 ≤ g
    → (v : Value) × (parse_expr f loc (print t) opt ≡ parsed v (length (print t)) loc)
      × Runs other variable_names globals
          (expand texts t)
          (eval other variable_names g v (running (outside globals st)))
parse_expr-expand other variable_names globals texts t f g loc opt st args h cr has f1 g1 = (
  new_expr loc (values_of loc t),
  parse_expr-print t f loc opt args h cr f1,
  new_expr-Gives other variable_names globals loc (values_of loc t) (expand texts t) g st
      (values_of-GivesAll other variable_names globals texts loc t has)
      (omega (arith, length-values_of loc t)),
)
