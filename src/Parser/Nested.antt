-- ===== src/Parser/Nested.antt =====
-- What the handlers of src/parser.cc keep of the stack of conditionals.
use kati.Prelude.{
  ℕ, zero, suc, ◌+◌, ◌-◌, ◌≤◌, ◌<◌, ◌≡◌, refl, Bool, true, false, not, ◌&&◌, ◌||◌, Option, none,
  some, List, [], ◌∷◌, arith, Bytes, length, ltb, ◌==◌, if_intro, ap, sym, subst, ◌∙◌, Bool-cases,
  inl, inr,
}
use kati.Piece.{get, substr}
use kati.Strutil.Paren.{find_from, change_stack, find_two_outside_paren, find_three_outside_paren}
use kati.Strutil.Escape.{backslash}
use kati.Strutil.Trim.{trim_left_space}
use kati.Rule.{Loc}
use kati.Expr.{Value}
use kati.Expr.Scan.{Parsed, parsed}
use kati.Parser.{Parser, IfState, Stmt, Outcome, result, stopped, out_of_fuel, ◌>>=◌}
use kati.Parser.Statements.{
  push_to, push_back, error, ended, rule_of, rule_line, parse_rule, parse_assign, after_sep,
  parse_rule_or_assign, parse_include, create_export,
}
use kati.Parser.Conditionals.{top_stmts}

-- A step ends with a result as asked, or the program ends, or the expressions need more fuel; no
-- loop is out of rounds and nothing is undefined.
pub data Holds {A : Type 0} (P : A → Type 0) : Outcome A → Type 0 where
  holds : {a : A} → P a → Holds P (result a)
  ends : {m : Bytes} → Holds P (stopped m)
  starved : Holds P out_of_fuel

pub weaken :
    {A : Type 0} {P Q : A → Type 0} {r : Outcome A} → Holds P r → ((a : A) → P a → Q a) → Holds Q r
weaken (holds {a} h) f = holds (f a h)
weaken ends f = ends
weaken starved f = starved

abbrev pub Any : {A : Type 0} → A → Type 0
Any a = Unit {0}

-- The frames below a frame are at least as many as the others that go with it, and the numbers of
-- the vectors are those of vectors.
abbrev pub Frames : ℕ → List IfState → Type 0
Frames n [] = 0 < n
Frames n (st ∷ stack) =
    (st.num_nest ≤ length stack) × (st.true_stmts < n) × (st.false_stmts < n) × Frames n stack

-- The statements go to the branch of the top frame, and in a definition the depth is not 0.
abbrev pub Framed : Parser → Type 0
Framed p =
    (p.out_stmts ≡ top_stmts p.if_stack)
    × Frames (length p.vectors) p.if_stack
    × ((length p.define_name == 0 || ltb 0 p.num_define_nest) ≡ true)

-- With a number for the next frame of how many others go with it.
abbrev pub HasNest : ℕ → Parser → Type 0
HasNest k p = Framed p × (p.num_if_nest ≡ k)

-- Between two lines.
abbrev pub IsNested : Parser → Type 0
IsNested = HasNest 0

module _ {A B : Type 0} {P : B → Type 0} where
  pub after :
      {Q : A → Type 0} {r : Outcome A} {f : A → Outcome B}
      → Holds Q r
      → ((a : A) → Q a → Holds P (f a))
      → Holds P (r >>= f)
  unfolding ◌>>=◌
  after (holds {a} h) k = k a h
  after ends k = ends
  after starved k = starved

  pub by_option :
      {x : Outcome B} {f : A → Outcome B} (o : Option A)
      → Holds P x
      → ((a : A) → o ≡ some a → Holds P (f a))
      → Holds P (elim o [ none ↦ x | some a ↦ f a ])
  by_option none h k = h
  by_option (some a) h k = k a refl

pub by_test :
    {A : Type 0} {P : A → Type 0} (b : Bool) {x y : Outcome A}
    → Holds P x
    → Holds P y
    → Holds P (elim b [ true ↦ x | false ↦ y ])
by_test true h k = h
by_test false h k = k

pub after_parse :
    {B : Type 0} {P : B → Type 0} (r : Parsed Value) (f : Value × ℕ × Loc → Outcome B)
    → ((v : Value) (n : ℕ) (loc : Loc) → Holds P (f (v, n, loc)))
    → Holds P (ended r >>= f)
unfolding ended ◌>>=◌
after_parse (parsed v n loc) f k = k v n loc
after_parse (Parsed.stopped m) f k = ends
after_parse Parsed.out_of_fuel f k = starved

pub length-push_to :
    (n : ℕ) (s : Stmt) (vs : List (List Stmt)) → length (push_to n s vs) ≡ length vs
unfolding push_to
length-push_to n s [] = refl
length-push_to zero s (v ∷ vs) = refl
length-push_to (suc n) s (v ∷ vs) = ap suc (length-push_to n s vs)

-- The stack of conditionals, the definition and the number of vectors are those of `p`.
abbrev pub Same : Parser → Parser → Type 0
Same p q =
    (q.out_stmts ≡ p.out_stmts)
    × (q.if_stack ≡ p.if_stack)
    × (q.define_name ≡ p.define_name)
    × (q.num_define_nest ≡ p.num_define_nest)
    × (q.num_if_nest ≡ p.num_if_nest)
    × (length q.vectors ≡ length p.vectors)

pub push_back-Same : (s : Stmt) (p : Parser) → Same p (push_back s p)
unfolding push_back
push_back-Same s p = (refl, refl, refl, refl, refl, length-push_to p.out_stmts s p.vectors)

pub error-Same : (m : Bytes) (p : Parser) → Same p (error m p)
unfolding error push_back
error-Same m p = push_back-Same _ p

pub Same-HasNest : {k : ℕ} (p q : Parser) → Same p q → HasNest k p → HasNest k q
Same-HasNest p q s h = (
  (
    s.0 ∙ h.0.0 ∙ ap top_stmts (sym s.1),
    subst (λ n. Frames n q.if_stack) (sym s.5) (subst (Frames (length p.vectors)) (sym s.1) h.0.1),
    ground (arith, s.2, s.3, h.0.2),
  ),
  s.4 ∙ h.1,
)

pub push_back-HasNest : {k : ℕ} (s : Stmt) (p : Parser) → HasNest k p → HasNest k (push_back s p)
push_back-HasNest s p h = Same-HasNest p (push_back s p) (push_back-Same s p) h

pub error-HasNest : {k : ℕ} (m : Bytes) (p : Parser) → HasNest k p → HasNest k (error m p)
error-HasNest m p h = Same-HasNest p (error m p) (error-Same m p) h

-- A byte that `FindThreeOutsideParen` finds is one that it looks for.
find_from-byte :
    (cond : ℕ → Bool) (s : Bytes) (i : ℕ) (stack : Bytes) (b : Bool) (k : ℕ)
    → find_from cond s i stack b ≡ some k
    → (i ≤ k) × (cond (get s (k - i)) ≡ true)
unfolding find_from
find_from-byte cond [] i stack b k e = absurd cc
find_from-byte cond (c ∷ s) i stack b k e =
    elim (Bool-cases (cond c && (length stack == 0 && not b))) [
      | inl t ↦
          let at : i ≡ k = ground (arith, rw t at e) in
          let here : k - i ≡ 0 = omega arith in (omega arith, rw here (ground (arith, t)))
      | inr t ↦
          let (le, found) =
            find_from-byte cond s (i + 1) (change_stack c stack) (c == backslash && not b) k
              (rw t at e) in
          let next : k - i ≡ suc (k - (i + 1)) = omega arith in (omega arith, rw next found)
    ]

not_found :
    (line : Bytes) (sep : ℕ)
    → find_three_outside_paren line b':' b'=' b';' ≡ some sep
    → (get line sep == b';') ≡ false
    → (get line sep == b'=') ≡ false
    → (get line sep == b':') ≡ false
    → ⊥
unfolding find_three_outside_paren
not_found line sep e t u v =
    ground
      (arith, find_from-byte (λ d. d == b':' || (d == b'=' || d == b';')) line 0 [] false sep e)

module _ (fuel : ℕ) where
  rule_of-Same :
      (line : Bytes) (sep : Option ℕ) (p : Parser) → Holds (Same p) (rule_of fuel line sep p)
  unfolding rule_of push_back
  rule_of-Same line sep p =
      by_option (find_two_outside_paren (substr line (after_sep sep) none) b'=' b';')
        (after_parse _ _ (λ v n loc. holds (push_back-Same _ p)))
        (λ i e.
          after_parse _ _ (λ v n loc. after_parse _ _ (λ w m loc'. holds (push_back-Same _ p))))

  rule_line-Same :
      (line : Bytes) (sep : Option ℕ) (p : Parser) → Holds (Same p) (rule_line fuel line sep p)
  unfolding rule_line
  rule_line-Same line sep p =
      if_intro (Holds (Same p)) (length (trim_left_space line) == 0)
        (λ e. holds (refl, refl, refl, refl, refl, refl))
        (λ e.
          if_intro (Holds (Same p)) (get p.orig_line_with_directives 0 == b'\t')
            (λ e'. holds (error-Same _ p)) (λ e'. rule_of-Same (trim_left_space line) sep p))

  parse_rule-Same :
      (line : Bytes) (sep : Option ℕ) (p : Parser) → Holds (Same p) (parse_rule fuel line sep p)
  unfolding parse_rule
  parse_rule-Same line sep p =
      if_intro (Holds (Same p)) p.current_directive.export
        (λ e. holds (refl, refl, refl, refl, refl, refl))
        (λ e.
          if_intro (Holds (Same p)) p.current_directive.override
            (λ e'. rule_line-Same p.orig_line_with_directives _ p)
            (λ e'. rule_line-Same line sep p))

  parse_assign-Same :
      (line : Bytes) (n : ℕ) (p : Parser) → Holds (Same p) (parse_assign fuel line n p)
  unfolding parse_assign push_back
  parse_assign-Same line n p =
      by_test (n == 0) (holds (error-Same _ p))
        (after_parse _ _ (λ v k loc. after_parse _ _ (λ w m loc'. holds (push_back-Same _ p))))

  pub parse_rule_or_assign-Same :
      (line : Bytes) (p : Parser) → Holds (Same p) (parse_rule_or_assign fuel line p)
  unfolding parse_rule_or_assign
  parse_rule_or_assign-Same line p =
      by_option (find_three_outside_paren line b':' b'=' b';') (parse_rule-Same line none p)
        (λ sep e.
          if_intro (Holds (Same p)) (get line sep == b';') (λ t. parse_rule-Same line none p)
            (λ t.
              if_intro (Holds (Same p)) (get line sep == b'=') (λ t'. parse_assign-Same line sep p)
                (λ t'.
                  if_intro (Holds (Same p)) (get line (sep + 1) == b'=')
                    (λ u. parse_assign-Same line (sep + 1) p)
                    (λ u.
                      if_intro (Holds (Same p)) (get line sep == b':')
                        (λ u'. parse_rule-Same line (some sep) p)
                        (λ u'. absurd (not_found line sep e t t' u'))))))

  pub parse_include-Same :
      (line directive : Bytes) (p : Parser) → Holds (Same p) (parse_include fuel line directive p)
  unfolding parse_include push_back
  parse_include-Same line directive p = after_parse _ _ (λ v n loc. holds (push_back-Same _ p))

  pub create_export-Same :
      (line : Bytes) (b : Bool) (p : Parser) → Holds (Same p) (create_export fuel line b p)
  unfolding create_export push_back
  create_export-Same line b p = after_parse _ _ (λ v n loc. holds (push_back-Same _ p))
