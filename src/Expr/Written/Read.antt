-- ===== src/Expr/Written/Read.antt =====
-- `ParseExpr` of src/expr.cc on texts of plain parts and references.
use kati.Prelude.{
  ℕ, zero, suc, ◌+◌, ◌-◌, ◌<◌, ◌≤◌, ◌≡◌, ◌≢◌, refl, ap, sym, subst, ◌∙◌, false, none, List, [], ◌∷◌,
  ◌++◌, append_assoc, append-nil, arith, Bytes, length, length-append, length-drop, drop, drop-drop,
  drop-append, All, All-drop, Lacks, codes,
}
use kati.Strutil.Trim.{return}
use kati.Rule.{Loc}
use kati.Expr.{Value, literal, sym_ref, new_expr}
use kati.Expr.Scan.{ParseExprOpt, Parsed, parsed, is_func_args, is_term}
use kati.Expr.Parse.{parse_expr, parse_loop, parse_dollar}
use kati.Expr.Written.{
  Special, dollars, named, short, Text, last, more, print_special, print, value_of, values_of,
  IsPlain, IsSpecial, IsWritten,
}
use kati.Expr.Written.Plain.{
  IsPlainByte, standing, parse_loop-plain, parse_loop-next, parse_loop-leave, parse_loop-dollar,
}
use kati.Expr.Written.Dollars.{
  plain_values, flush-part, scan_round-dollars, scan_round-dollar, scan_round-end, finish-part,
}
use kati.Expr.Written.References.{chop_return-Lacks, parse_dollar-reference, parse_dollar-short}

-- Outside of names every byte of a plain part is passed over.
unlisted : (p : Bytes) → IsPlain p → All (λ c. IsPlainByte c × (is_term none c ≡ false)) p
unfolding is_term
unlisted [] h = tt
unlisted (c ∷ p) h = ((h.0, refl), unlisted p h.1)

drop-part : (s p r : Bytes) (i j : ℕ) → drop i s ≡ p ++ r → j ≡ i + length p → drop j s ≡ r
drop-part s p r i j e ej =
    sym (drop-drop (length p) i j s ej)
    ∙ ap (λ (t : Bytes). drop (length p) t) e
    ∙ drop-append (length p) p r refl

pub length-print_special : (special : Special) → 2 ≤ length (print_special special)
unfolding print_special
length-print_special dollars = omega arith
length-print_special (named name) = omega arith
length-print_special (short c) = omega arith

module _ (opt : ParseExprOpt) (s : Bytes) (list_loc loc : Loc) (plain : is_func_args opt ≡ false)
    (cr : Lacks return s) where
  -- The loop from a place at which a part begins.
  abbrev from : ℕ → ℕ → List Value → Parsed Value
  from n i list = parse_loop n opt false list_loc s (standing none loc i i list)

  -- A reference is read behind a plain part.
  from-dollar :
      (p r : Bytes) (c n i m : ℕ) (v : Value) (list : List Value)
      → IsPlain p
      → c ≢ b'$'
      → drop i s ≡ p ++ b'$' ∷ c ∷ r
      → length p < n
      → parse_dollar (n - length p - 1) loc (b'$' ∷ c ∷ r) ≡ parsed v m loc
      → from n i list
        ≡ from (n - length p - 1) (i + length p + m) (list ++ (plain_values p ++ v ∷ []))
  from-dollar p r c n i m v list h other e lt d =
      let j = i + length p in
      let f = n - length p - 1 in
      let here : drop j s ≡ b'$' ∷ c ∷ r = drop-part s p (b'$' ∷ c ∷ r) i j e refl in
      parse_loop-plain opt s none loc plain p (b'$' ∷ c ∷ r) n (suc f) i j i false list_loc list
        (omega arith) refl e (unlisted p h)
      ∙ parse_loop-dollar f m opt false list_loc loc s (standing none loc j i list) _ v
          (scan_round-dollar opt s loc j i c list r here other)
          (ap (λ (t : Bytes). parse_dollar f loc t) here ∙ d)
      ∙ ap
          (λ (l : List Value).
            parse_loop f opt false list_loc s (standing none loc (j + m) (j + m) l))
          (ap (λ (l : List Value). l ++ v ∷ [])
              (flush-part s p (b'$' ∷ c ∷ r) none loc i j list e refl)
            ∙ append_assoc list (plain_values p) (v ∷ []))

  -- Something special is read, and the loop goes on behind it.
  from-special :
      (special : Special) (p r : Bytes) (n i : ℕ) (list : List Value)
      → IsPlain p
      → IsSpecial special
      → drop i s ≡ p ++ (print_special special ++ r)
      → length p + length (print_special special) + 2 ≤ n
      → from n i list
        ≡ from
            (n - length p - 1)
            (i + length p + length (print_special special))
            (list ++ (plain_values p ++ value_of loc special ∷ []))
  unfolding print_special value_of
  from-special dollars p r n i list h k e lt =
      let j = i + length p in
      let f = n - length p - 1 in
      let here : drop j s ≡ b'$' ∷ b'$' ∷ r = drop-part s p (b'$' ∷ b'$' ∷ r) i j e refl in
      parse_loop-plain opt s none loc plain p (b'$' ∷ b'$' ∷ r) n (suc f) i j i false list_loc list
        (omega arith) refl e (unlisted p h)
      ∙ parse_loop-next f opt false list_loc s (standing none loc j i list) _
          (scan_round-dollars opt s loc j i list r here)
      ∙ ap
          (λ (l : List Value).
            parse_loop f opt false list_loc s (standing none loc (j + 2) (j + 2) l))
          (ap (λ (l : List Value). l ++ literal (codes "$") ∷ [])
              (flush-part s p (b'$' ∷ b'$' ∷ r) none loc i j list e refl)
            ∙ append_assoc list (plain_values p) (literal (codes "$") ∷ []))
  from-special (short c) p r n i list h k e lt =
      let rounds : n - length p - 1 ≡ suc (n - length p - 2) = omega arith in
      from-dollar p r c n i 2 (sym_ref loc (c ∷ [])) list h k.0 e (omega arith)
        (rw rounds (parse_dollar-short (n - length p - 2) loc c r k.1))
  from-special (named name) p r n i list h k e lt =
      let rest = name ++ b')' ∷ r in
      let size : suc (suc (length (name ++ b')' ∷ []))) ≡ length name + 3 =
        omega (arith, length-append name (b')' ∷ [])) in
      let whole : drop i s ≡ p ++ b'$' ∷ b'(' ∷ rest =
        e ∙ ap (λ (t : Bytes). p ++ b'$' ∷ b'(' ∷ t) (append_assoc name (b')' ∷ []) r) in
      let behind = drop-part s p (b'$' ∷ b'(' ∷ rest) i (i + length p) whole refl in
      let clean = subst (λ t. Lacks return t) behind (All-drop _ (i + length p) s cr) in
      rw size (
        from-dollar p rest b'(' n i (length name + 3) (sym_ref loc name) list h (omega arith) whole
          (omega arith)
          (parse_dollar-reference (n - length p - 1) loc name r k clean.1.1 (omega (arith, size))))

  -- The rest of a text is read from where one of its parts begins.
  parse_loop-print :
      (t : Text) (n i : ℕ) (list : List Value)
      → IsWritten t
      → drop i s ≡ print t
      → i ≤ length s
      → length (print t) + 2 ≤ n
      → from n i list ≡ parsed (new_expr list_loc (list ++ values_of loc t)) (length s) loc
  unfolding print values_of
  parse_loop-print (last p) n i list h e le lt =
      let j = i + length p in
      let f = n - length p - 1 in
      let part = e ∙ sym (append-nil p) in
      let end : j ≡ length s = omega (arith, length-drop i s, ap (λ (t : Bytes). length t) e) in
      parse_loop-plain opt s none loc plain p [] n (suc f) i j i false list_loc list (omega arith)
        refl part (unlisted p h)
      ∙ parse_loop-leave f opt false list_loc loc s (standing none loc j i list)
          (scan_round-end opt s loc none j i list (drop-part s p [] i j part refl))
      ∙ finish-part s p [] none list_loc loc loc i j list part refl
      ∙ ap (λ (k : ℕ). parsed (new_expr list_loc (list ++ plain_values p)) k loc) end
  parse_loop-print (more p special t) n i list (h, k, g) e le lt =
      let v = value_of loc special in
      let long = length-print_special special in
      let j = i + length p + length (print_special special) in
      let behind =
        drop-part s (print_special special) (print t) (i + length p) j
          (drop-part s p (print_special special ++ print t) i (i + length p) e refl) refl in
      let whole = length-append p (print_special special ++ print t) in
      let rest = length-append (print_special special) (print t) in
      from-special special p (print t) n i list h k e (omega (arith, whole, rest))
      ∙ parse_loop-print t (n - length p - 1) j (list ++ (plain_values p ++ v ∷ [])) g behind
          (omega (arith, length-drop i s, ap (λ (b : Bytes). length b) e, whole, rest))
          (omega (arith, whole, rest, long))
      ∙ ap (λ (l : List Value). parsed (new_expr list_loc l) (length s) loc)
          (append_assoc list (plain_values p ++ v ∷ []) (values_of loc t)
            ∙ ap (λ (l : List Value). list ++ l)
                (append_assoc (plain_values p) (v ∷ []) (values_of loc t)))

-- What is written is read back: a text of plain parts, doubled dollars and references `$(NAME)` and
-- `$c`, with no carriage return, is parsed by `ParseExpr` to its end, and the value is that of its
-- parts in order, where an empty part has none: the text of a plain part, one dollar for two, and a
-- reference to the variable of each name. A plain part has no `$`, no `#`, no backslash and no NUL byte,
-- and a name is such a part that is not empty and has no `)`, no colon and no space; `c` is any byte but
-- a dollar and an opening parenthesis or brace. So it is for every option but that of the arguments of
-- a function, with fuel for the bytes of the text and three units more.
pub parse_expr-print :
    (t : Text) (f : ℕ) (loc : Loc) (opt : ParseExprOpt)
    → is_func_args opt ≡ false
    → IsWritten t
    → Lacks return (print t)
    → length (print t) + 3 ≤ f
    → parse_expr f loc (print t) opt
      ≡ parsed (new_expr loc (values_of loc t)) (length (print t)) loc
unfolding parse_expr
parse_expr-print t zero loc opt plain h cr lt = absurd (omega arith)
parse_expr-print t (suc f) loc opt plain h cr lt =
    rw (chop_return-Lacks (print t) cr)
      (parse_loop-print opt (print t) loc loc plain cr t f 0 [] h refl (omega arith) (omega arith))
