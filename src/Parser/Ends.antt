-- ===== src/Parser/Ends.antt =====
-- The loop of `Parser::Parse` of src/parser.cc comes to an end.
use kati.Prelude.{
  ℕ, zero, suc, ◌+◌, ◌≤◌, ◌≡◌, refl, Bool, false, Option, none, some, List, [], ◌∷◌, arith, length,
  ltb, if_intro, ap, subst, ◌∙◌,
}
use kati.Strutil.Breaks.{find_end_of_line}
use kati.Strutil.Breaks.Ends.{IsBehind, find_end_of_line-IsBehind}
use kati.Rule.{Loc}
use kati.Parser.{Parser, Buffer, Stmt, Outcome}
use kati.Parser.Conditionals.{top_stmts}
use kati.Parser.Run.{line_of, before_line, finish, one_line, parse_from, parse, new_parser}
use kati.Parser.Nested.{Holds, holds, ends, IsNested, after, by_test}
use kati.Parser.Frames.{parse_line-IsNested}

-- No conditional and no definition is open, and statements go to the vector of the caller.
abbrev pub IsClosed : Parser → Type 0
IsClosed q = (q.if_stack ≡ []) × (q.define_name ≡ []) × (q.out_stmts ≡ 0)

none_left {ℓ} : {A : Type ℓ} (l : List A) → ltb 0 (length l) ≡ false → l ≡ []
none_left [] e = refl
none_left (x ∷ l) e = absurd (ground arith)

finish-IsClosed : (p : Parser) → IsNested p → Holds IsClosed (finish p)
unfolding finish
finish-IsClosed p h =
    if_intro (Holds IsClosed) (ltb 0 (length p.if_stack)) (λ e. ends)
      (λ e.
        if_intro (Holds IsClosed) (ltb 0 (length p.define_name)) (λ d. ends)
          (λ d. holds (
            none_left p.if_stack e,
            none_left p.define_name d,
            h.0.0 ∙ ap top_stmts (none_left p.if_stack e),
          )))

-- A split on the end of a line, which lies behind the place where it is looked for.
by_end :
    {P : Parser → Type 0} (x : Outcome Parser) (f : ℕ → ℕ → Outcome Parser) (l : ℕ)
    (o : Option (ℕ × ℕ))
    → IsBehind l o
    → ((e n : ℕ) → l ≤ e → Holds P (f e n))
    → Holds P (elim o [ none ↦ x | some (e, n) ↦ f e n ])
by_end x f l none h k = absurd h
by_end x f l (some (e, n)) h k = k e n h

module _ (fuel : ℕ) (buf : Buffer) where
  -- Behind a round the parser is between two lines, and the next line begins behind the end of this one.
  abbrev Behind : ℕ → Parser × Bool → Type 0
  Behind e r = IsNested r.0 × (r.0.l ≡ e + 1)

  one_line-Behind : (e n : ℕ) (p : Parser) → IsNested p → Holds (Behind e) (one_line fuel buf e n p)
  unfolding one_line
  one_line-Behind e n p h =
      after (parse_line-IsNested fuel buf (line_of buf p.l e) (before_line (line_of buf p.l e) p) h)
        (λ q k. holds (k, refl))

  line_end : (l : ℕ) → IsBehind l (find_end_of_line (buf.size + 1) buf.mem buf.size l 0)
  line_end l =
      subst (λ k. IsBehind l (find_end_of_line k buf.mem buf.size l 0)) (omega arith)
        (find_end_of_line-IsBehind buf.size buf.mem buf.size l 0 (omega arith))

  parse_from-IsClosed :
      (rounds : ℕ) (p : Parser)
      → buf.size ≤ p.l + rounds
      → IsNested p
      → Holds IsClosed (parse_from fuel buf (suc rounds) p)
  unfolding parse_from
  parse_from-IsClosed zero p le h =
      let past : ltb p.l buf.size ≡ false = ground arith in
      rw (past, parse_from) (finish-IsClosed p h)
  parse_from-IsClosed (suc rounds) p le h =
      by_test (ltb p.l buf.size)
        (by_end _ _ p.l (find_end_of_line (buf.size + 1) buf.mem buf.size p.l 0) (line_end p.l)
          (λ e n behind. after (one_line-Behind e n p h) (λ r k.
            by_test r.1 (finish-IsClosed r.0 k.0)
              (parse_from-IsClosed rounds r.0 (omega (arith, k.1)) k.0))))
        (finish-IsClosed p h)

-- `Parse` of any text, in a file or for `eval`, comes to an end with no conditional and no
-- definition open, and the statements go to the vector of the caller then; or it ends the program,
-- or the expressions are given too little fuel. It takes no more rounds than there are bytes, and
-- one more; it never takes a frame from an empty stack of conditionals, and no `CHECK` fails.
pub parse-IsClosed :
    (fuel : ℕ) (buf : Buffer) (loc : Loc) (fixed_lineno : Bool) (stmts : List Stmt)
    → Holds IsClosed (parse fuel buf (new_parser loc fixed_lineno stmts))
unfolding parse
parse-IsClosed fuel buf loc fixed_lineno stmts =
    let next : suc buf.size ≡ buf.size + 1 = omega arith in
    subst (λ k. Holds IsClosed (parse_from fuel buf k (new_parser loc fixed_lineno stmts))) next
      (parse_from-IsClosed fuel buf buf.size (new_parser loc fixed_lineno stmts) (omega arith)
        ((refl, omega arith, refl), refl))
