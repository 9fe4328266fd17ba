-- ===== src/Expr/Fuel.antt =====
-- How much fuel the parsers of src/expr.cc need.
use kati.Prelude.{
  ℕ, zero, suc, ◌+◌, ◌*◌, ◌≤◌, ◌≡◌, ◌≢◌, Bool, false, Option, none, some, List, [], ◌∷◌, ◌++◌,
  arith, Bytes, length, drop, ◌==◌, if◌then◌else◌, Lacks, All-drop, Bool-cases, inl, inr,
  length-drop,
}
use kati.Piece.{get}
use kati.Rule.{Loc}
use kati.Expr.{Value, FuncInfo}
use kati.Expr.Scan.{ParseExprOpt, Scan, scan_round, finish, chop_return, start_scan, close_paren}
use kati.Expr.Parse.{
  name_end, after_argument, parse_expr_impl, parse_loop, parse_dollar, parse_name, parse_func,
  parse_arguments, parse_expr, skip_spaces, trim_argument, func_of, terms_of,
}
use kati.Expr.Rounds.{is_blank, scan_round-IsForward}
use kati.Expr.Stops.{parse_expr_impl-StopsPlain}
use kati.Expr.Within.{
  EndsIn, EndsIn-weaken, followed, after_round, name_end-IsEndOf, after_name,
  after_argument-IsAfter, after_lookup, after_test, plain_terms, close_paren-plain, followed_plain,
  within, blank_within, not_both, no_colon, unmatched_reference-EndsIn, skip_spaces-le,
  trim_argument-le, chop_return-Lacks, length-chop_return, after_end, check_arity-EndsIn,
}

-- In a text with no colon, three units of fuel for each byte and two more are enough.
mutual
  unfolding parse_expr_impl parse_loop parse_dollar parse_name parse_func parse_arguments finish

  impl-EndsIn :
      (f : ℕ) (loc : Loc) (s : Bytes) (terms : Option Bytes) (opt : ParseExprOpt)
      (trim_right : Bool)
      → Lacks b':' s
      → 3 * length s + 2 ≤ f
      → EndsIn 0 (length s) (parse_expr_impl f loc s terms opt trim_right)
  impl-EndsIn zero loc s terms opt trim_right lacks h = absurd (omega arith)
  impl-EndsIn (suc f) loc s terms opt trim_right lacks h =
      let le = length-chop_return s in
      EndsIn-weaken 0 (length (chop_return s)) 0 (length s)
        (parse_loop f opt trim_right loc (chop_return s) (start_scan terms loc)) (omega arith) le
        (loop-EndsIn f opt trim_right loc (chop_return s) (start_scan terms loc)
          (chop_return-Lacks s lacks) (omega arith) (omega arith))

  loop-EndsIn :
      (f : ℕ) (opt : ParseExprOpt) (trim_right : Bool) (list_loc : Loc) (s : Bytes) (w : Scan)
      → Lacks b':' s
      → w.i ≤ length s
      → 3 * length s + 1 ≤ f + 3 * w.i
      → EndsIn 0 (length s) (parse_loop f opt trim_right list_loc s w)
  loop-EndsIn zero opt trim_right list_loc s w lacks le h = absurd (omega arith)
  loop-EndsIn (suc f) opt trim_right list_loc s w lacks le h =
      after_round s w (scan_round opt s w) _ _ _ _ (scan_round-IsForward s w opt le)
        (λ loc. (omega arith, le)) (λ list n p. (omega arith, p))
        (λ list p.
          let d = length-drop w.i s in
          followed 2 (length (drop w.i s)) 0 (length s) (parse_dollar f w.loc (drop w.i s)) _
            (dollar-EndsIn f w.loc (drop w.i s) (All-drop _ w.i s lacks) (omega arith)
              (omega arith))
            (λ v n loc lo hi.
              loop-EndsIn f opt trim_right list_loc s
                (record w { i = w.i + n; b = w.i + n; list = list ++ v ∷ []; loc = loc }) lacks
                (omega arith) (omega arith)))
        (λ w' p q. loop-EndsIn f opt trim_right list_loc s w' lacks q (omega arith))

  dollar-EndsIn :
      (f : ℕ) (loc : Loc) (s : Bytes)
      → Lacks b':' s
      → 2 ≤ length s
      → 3 * length s ≤ suc f
      → EndsIn 2 (length s) (parse_dollar f loc s)
  dollar-EndsIn zero loc s lacks two h = absurd (omega arith)
  dollar-EndsIn (suc f) loc s lacks two h = elim (Bool-cases (close_paren (get s 1) == 0)) [
    | inl e ↦ rw e (omega arith, two)
    | inr e ↦ rw e (
        first_name-EndsIn f loc loc s (close_paren (get s 1)) lacks two (ground arith)
          (close_paren-plain (get s 1)) (omega arith))
  ]

  first_name-EndsIn :
      (f : ℕ) (start loc : Loc) (s : Bytes) (cp : ℕ)
      → Lacks b':' s
      → 2 ≤ length s
      → cp ≢ 0
      → is_blank cp ≡ false
      → 3 * length s ≤ f + 2
      → EndsIn 2 (length s) (parse_name f start loc s cp (b':' ∷ b' ' ∷ []))
  first_name-EndsIn zero start loc s cp lacks two c p h = absurd (omega arith)
  first_name-EndsIn (suc f) start loc s cp lacks two c p h =
      let d = length-drop 2 s in
      followed 0 (length (drop 2 s)) 2 (length s) _ _
        (impl-EndsIn f loc (drop 2 s) (some (cp ∷ b':' ∷ b' ' ∷ [])) ParseExprOpt.normal false
          (All-drop _ 2 s lacks) (omega arith))
        (λ vname n loc' lo hi.
          after_name s cp (get s (n + 2)) (name_end cp (get s (n + 2))) _ _ _ _
            (name_end-IsEndOf cp _)
            (λ e. let i = within s (n + 2) cp e c in (omega arith, omega arith))
            (λ e.
              let i = blank_within s (n + 2) e in
              after_lookup (length s) (func_of vname) _ _
                (second_name-EndsIn f start loc' s cp lacks two c p (omega arith))
                (λ fi.
                  func-EndsIn f start loc' s cp fi (n + 3) lacks c (omega arith) (omega arith)
                    (omega arith)))
            (λ e. absurd (no_colon s (n + 2) lacks e))
            (unmatched_reference-EndsIn start s cp loc' two))

  second_name-EndsIn :
      (f : ℕ) (start loc : Loc) (s : Bytes) (cp : ℕ)
      → Lacks b':' s
      → 2 ≤ length s
      → cp ≢ 0
      → is_blank cp ≡ false
      → 3 * length s ≤ f + 3
      → EndsIn 2 (length s) (parse_name f start loc s cp (b':' ∷ []))
  second_name-EndsIn zero start loc s cp lacks two c p h = absurd (omega arith)
  second_name-EndsIn (suc f) start loc s cp lacks two c p h =
      let d = length-drop 2 s in
      let t = plain_terms cp p in
      followed_plain (drop 2 s) 0 (length (drop 2 s)) 2 (length s) _ _
        (impl-EndsIn f loc (drop 2 s) (some (cp ∷ b':' ∷ [])) ParseExprOpt.normal false
          (All-drop _ 2 s lacks) (omega arith))
        (parse_expr_impl-StopsPlain f loc (drop 2 s) (cp ∷ b':' ∷ []) ParseExprOpt.normal false t.0
          t.1)
        (λ vname n loc' lo hi plain.
          after_name s cp (get s (n + 2)) (name_end cp (get s (n + 2))) _ _ _ _
            (name_end-IsEndOf cp _)
            (λ e. let i = within s (n + 2) cp e c in (omega arith, omega arith))
            (λ e. absurd (not_both s n e plain)) (λ e. absurd (no_colon s (n + 2) lacks e))
            (unmatched_reference-EndsIn start s cp loc' two))

  func-EndsIn :
      (f : ℕ) (start loc : Loc) (s : Bytes) (cp : ℕ) (fi : FuncInfo) (i : ℕ)
      → Lacks b':' s
      → cp ≢ 0
      → 2 ≤ i
      → i ≤ length s
      → 3 * length s + 4 ≤ f + 3 * i
      → EndsIn 2 (length s) (parse_func f start loc s cp fi i)
  func-EndsIn zero start loc s cp fi i lacks c two le h = absurd (omega arith)
  func-EndsIn (suc f) start loc s cp fi i lacks c two le h =
      let skipped = skip_spaces (cp ∷ b',' ∷ []) (drop i s) loc in
      let k = skip_spaces-le (cp ∷ b',' ∷ []) (drop i s) loc in
      let d = length-drop i s in
      after_test (length s) (i + skipped.0 == length s) _ _ (λ e. (omega arith, omega arith))
        (λ e.
          followed (i + skipped.0) (length s) 2 (length s) _ _
            (arguments-EndsIn f skipped.1 s cp fi (i + skipped.0) [] lacks c (omega arith)
              (omega arith))
            (λ vs n loc' lo hi. (omega arith, hi)))

  arguments-EndsIn :
      (f : ℕ) (loc : Loc) (s : Bytes) (cp : ℕ) (fi : FuncInfo) (i : ℕ) (args : List Value)
      → Lacks b':' s
      → cp ≢ 0
      → i ≤ length s
      → 3 * length s + 3 ≤ f + 3 * i
      → EndsIn i (length s) (parse_arguments f loc s cp fi i args)
  arguments-EndsIn zero loc s cp fi i args lacks c le h = absurd (omega arith)
  arguments-EndsIn (suc f) loc s cp fi i args lacks c le h =
      let trimmed = if fi.trim_space then trim_argument (drop i s) loc else (0, loc) in
      let k : i + trimmed.0 ≤ length s =
        ground (arith, trim_argument-le (drop i s) loc, length-drop i s) in
      let d = length-drop (i + trimmed.0) s in
      followed 0 (length (drop (i + trimmed.0) s)) i (length s) _ _
        (impl-EndsIn f trimmed.1 (drop (i + trimmed.0) s) (some (terms_of fi cp (length args + 1)))
          ParseExprOpt.func_args _ (All-drop _ (i + trimmed.0) s lacks) (omega arith))
        (λ v n loc' lo hi.
          after_end n (after_argument cp s (i + trimmed.0 + n)) _ _ _ i (length s)
            (after_argument-IsAfter cp s i (i + trimmed.0 + n) c (omega arith) (omega arith)) tt
            (λ i' lo' hi'.
              check_arity-EndsIn fi (args ++ v ∷ []) i' i (length s) loc' (omega arith) hi')
            (λ i' lo' hi'.
              EndsIn-weaken i' (length s) i (length s)
                (parse_arguments f loc' s cp fi i' (args ++ v ∷ [])) (omega arith) (omega arith)
                (arguments-EndsIn f loc' s cp fi i' (args ++ v ∷ []) lacks c hi' (omega arith))))

-- In a text with no colon and with a NUL byte behind it, as a string has, `ParseExpr` comes to an end
-- within the text or with an error, if the calls have three units of fuel for each byte and two more:
-- no text of this kind makes the parsers call one another without end.
pub parse_expr-EndsIn :
    (fuel : ℕ) (loc : Loc) (s : Bytes) (opt : ParseExprOpt)
    → Lacks b':' s
    → 3 * length s + 2 ≤ fuel
    → EndsIn 0 (length s) (parse_expr fuel loc s opt)
unfolding parse_expr
parse_expr-EndsIn fuel loc s opt lacks h = impl-EndsIn fuel loc s none opt false lacks h
