-- ===== src/Expr/Written/References.antt =====
-- `ParseDollar` of src/expr.cc at the name of a variable.
use kati.Prelude.{
  ℕ, zero, suc, ◌+◌, ◌-◌, ◌<◌, ◌≤◌, ◌≡◌, ◌≢◌, refl, ap, ◌∙◌, true, false, some, List, [], ◌∷◌, ◌++◌,
  arith, Bytes, length, drop, get_or-append_right, All, All-get_or, Lacks, leb, ◌==◌,
}
use kati.Piece.{get}
use kati.Strutil.Trim.{return}
use kati.Rule.{Loc}
use kati.Expr.{Value, literal, sym_ref, new_expr}
use kati.Expr.Scan.{ParseExprOpt, parsed, leave, scan_round, chop_return, close_paren, is_term}
use kati.Expr.Parse.{parse_expr_impl, parse_dollar, parse_name, reference, name_end}
use kati.Expr.Written.Plain.{IsPlainByte, standing, get-drop, parse_loop-plain, parse_loop-leave}
use kati.Expr.Written.Dollars.{plain_values, substr-part, finish-part}

pub chop_return-Lacks : (s : Bytes) → Lacks return s → chop_return s ≡ s
unfolding chop_return
chop_return-Lacks [] h = refl
chop_return-Lacks (c ∷ s) h =
    let other : get (c ∷ s) (length (c ∷ s) - 1) ≢ return =
      All-get_or _ (c ∷ s) (length (c ∷ s) - 1) 0 h (omega arith) in
    let stays : (get (c ∷ s) (length (c ∷ s) - 1) == return) ≡ false = ground arith in rw stays refl

-- What ends a name in parentheses.
abbrev pub name_terms : Bytes
name_terms = b')' ∷ b':' ∷ b' ' ∷ []

abbrev pub IsName : Bytes → Type 0
IsName name =
    (0 < length name) × All (λ c. IsPlainByte c × (is_term (some name_terms) c ≡ false)) name

scan_round-term :
    (s : Bytes) (loc : Loc) (j b : ℕ) (list : List Value) (r : Bytes)
    → drop j s ≡ b')' ∷ r
    → scan_round ParseExprOpt.normal s (standing (some name_terms) loc j b list) ≡ leave loc
unfolding scan_round is_term
scan_round-term s loc j b list r e =
    let (g, lt, d) = get-drop s r j b')' e in
    let inside : leb (length s) j ≡ false = ground arith in rw (inside, g) refl

drop-part : (p r : Bytes) → drop (length p) (p ++ r) ≡ r
drop-part [] r = refl
drop-part (c ∷ p) r = drop-part p r

new_expr-plain : (loc : Loc) (p : Bytes) → 0 < length p → new_expr loc (plain_values p) ≡ literal p
unfolding new_expr
new_expr-plain loc [] h = absurd (omega arith)
new_expr-plain loc (c ∷ p) h = refl

-- The name is read as a literal, up to the parenthesis.
parse_name-literal :
    (f : ℕ) (loc : Loc) (name r : Bytes)
    → IsName name
    → Lacks return (name ++ b')' ∷ r)
    → length name + 2 ≤ f
    → parse_expr_impl f loc (name ++ b')' ∷ r) (some name_terms) ParseExprOpt.normal false
      ≡ parsed (literal name) (length name) loc
unfolding parse_expr_impl
parse_name-literal zero loc name r h cr lt = absurd (omega arith)
parse_name-literal (suc f) loc name r h cr lt =
    let s = name ++ b')' ∷ r in
    let g = f - length name - 1 in
    rw (chop_return-Lacks s cr) (
      parse_loop-plain ParseExprOpt.normal s (some name_terms) loc refl name (b')' ∷ r) f (suc g) 0
        (length name) 0 false loc [] (omega arith) (omega arith) refl h.1
      ∙ parse_loop-leave g ParseExprOpt.normal false loc loc s
          (standing (some name_terms) loc (length name) 0 [])
          (scan_round-term s loc (length name) 0 [] r (drop-part name (b')' ∷ r)))
      ∙ finish-part s name (b')' ∷ r) (some name_terms) loc loc loc 0 (length name) [] refl
          (omega arith)
      ∙ ap (λ (v : Value). parsed v (length name) loc) (new_expr-plain loc name h.0))

-- `$(NAME)` is a reference to the variable of the name.
pub parse_dollar-reference :
    (f : ℕ) (loc : Loc) (name r : Bytes)
    → IsName name
    → Lacks return (name ++ b')' ∷ r)
    → length name + 4 ≤ f
    → parse_dollar f loc (b'$' ∷ b'(' ∷ (name ++ b')' ∷ r))
      ≡ parsed (sym_ref loc name) (length name + 3) loc
unfolding parse_dollar parse_name close_paren reference name_end
parse_dollar-reference zero loc name r h cr lt = absurd (omega arith)
parse_dollar-reference (suc zero) loc name r h cr lt = absurd (omega arith)
parse_dollar-reference (suc (suc f)) loc name r h cr lt =
    let closes : get (b'$' ∷ b'(' ∷ (name ++ b')' ∷ r)) (length name + 2) ≡ b')' =
      get_or-append_right (b'$' ∷ b'(' ∷ name) (b')' ∷ r) (length name + 2) 0 0 (omega arith) in
    rw (parse_name-literal f loc name r h cr (omega arith), closes) refl

-- `$c` is a reference to the variable with the name of one byte.
pub parse_dollar-short :
    (f : ℕ) (loc : Loc) (c : ℕ) (r : Bytes)
    → close_paren c ≡ 0
    → parse_dollar (suc f) loc (b'$' ∷ c ∷ r) ≡ parsed (sym_ref loc (c ∷ [])) 2 loc
unfolding parse_dollar
parse_dollar-short f loc c r h =
    let single : (close_paren c == 0) ≡ true = ground arith in
    rw (single, substr-part (b'$' ∷ c ∷ r) (c ∷ []) r 1 (omega arith) refl) refl
