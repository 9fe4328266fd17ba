-- ===== src/Parser/Blocks.antt =====
-- Lines of a makefile with conditionals that nest properly, and how src/parser.cc reads such lines.
use kati.Prelude.{
  ℕ, ◌≡◌, refl, sym, ap, subst, ◌∙◌, Bool, true, false, not, ◌&&◌, ◌||◌, Option, none, some, List,
  [], ◌∷◌, ◌++◌, arith, Bytes, length, text_eq, ◌==◌, if_intro,
}
use kati.Piece.{get}
use kati.Strutil.Trim.{trim_left_space}
use kati.Parser.{
  Parser, Buffer, IfState, Outcome, result, ◌>>=◌, MakeHandler, to_ifdef, to_if, to_else, to_endif,
  no_directive, find_handler, make_directives, else_if_directives, get_directive, rest_of,
}
use kati.Parser.Statements.{push_back}
use kati.Parser.Line.{handle, directive_line, plain_line, parse_line}
use kati.Parser.Conditionals.{is_after_rule, top_stmts}
use kati.Parser.Run.{before_line}
use kati.Parser.Nested.{
  Holds, holds, ends, starved, Same, after_parse, weaken, parse_rule_or_assign-Same,
}

-- Lines with conditionals among them; behind the first branch comes the `endif`, an `else` with the
-- second branch and the `endif`, or an `else ifdef` with a branch and more.
mutual
  pub data Block : Type 0 where
    nothing : Block
    plain : Bytes → Block → Block
    conditional : Bytes → Block → Branch → Block → Block

  pub data Branch : Type 0 where
    closed : Bytes → Branch
    otherwise : Bytes → Block → Bytes → Branch
    otherwise_if : Bytes → Block → Branch → Branch

unfoldable mutual
  pub lines : Block → List Bytes
  lines nothing = []
  lines (plain line b) = line ∷ lines b
  lines (conditional head body br b) = head ∷ (lines body ++ (branch_lines br ++ lines b))

  pub branch_lines : Branch → List Bytes
  branch_lines (closed end) = end ∷ []
  branch_lines (otherwise else_line body end) = else_line ∷ (lines body ++ end ∷ [])
  branch_lines (otherwise_if else_line body br) = else_line ∷ (lines body ++ branch_lines br)

-- A line with this directive, if no definition is open: it is no command, no comment and not empty.
pub record IsDirective (line : Bytes) (h : MakeHandler) : Type 0 where
  pub no_tab : (get line 0 == b'\t') ≡ false
  pub no_comment : (get (trim_left_space line) 0 == b'#') ≡ false
  pub filled : (length line == 0 || text_eq line (b'\r' ∷ [])) ≡ false
  pub named : find_handler make_directives (get_directive (trim_left_space line)) ≡ some h

-- What stands behind the directive, without the comment.
abbrev pub argument : Bytes → Bytes
argument line = rest_of (trim_left_space line)

abbrev pub IsPlain : Bytes → Type 0
IsPlain line = find_handler make_directives (get_directive (trim_left_space line)) ≡ none

abbrev pub IsEnd : Bytes → Type 0
IsEnd line = IsDirective line to_endif × (argument line ≡ [])

abbrev pub IsElseIf : Bytes → Type 0
IsElseIf line =
    IsDirective line to_else
    × ((length (trim_left_space (argument line)) == 0) ≡ false)
    × (find_handler else_if_directives (get_directive (trim_left_space (argument line)))
        ≡ some to_ifdef)

-- The lines are of the kinds that their places ask for.
abbrev mutual
  pub IsBlock : Block → Type 0
  IsBlock nothing = Unit {0}
  IsBlock (plain line b) = IsPlain line × IsBlock b
  IsBlock (conditional head body br b) =
      IsDirective head (to_if to_ifdef) × IsBlock body × IsBranch br × IsBlock b

  pub IsBranch : Branch → Type 0
  IsBranch (closed end) = IsEnd end
  IsBranch (otherwise else_line body end) =
      IsDirective else_line to_else
      × ((length (trim_left_space (argument else_line)) == 0) ≡ true)
      × IsBlock body
      × IsEnd end
  IsBranch (otherwise_if else_line body br) = IsElseIf else_line × IsBlock body × IsBranch br

-- Between two lines, outside of definitions, with this stack.
abbrev pub At : List IfState → Parser → Type 0
At stack p =
    (p.if_stack ≡ stack)
    × (p.out_stmts ≡ top_stmts stack)
    × (p.define_name ≡ [])
    × (p.num_if_nest ≡ 0)

Same-At : {stack : List IfState} (p q : Parser) → Same p q → At stack p → At stack q
Same-At p q s h = (s.1 ∙ h.0, s.0 ∙ h.1, s.2 ∙ h.2, s.4 ∙ h.3)

module _ {A : Type 0} {P : Parser → Type 0} (x : Outcome Parser) (f : A → Outcome Parser) where
  pub from_some :
      {a : A} (o : Option A)
      → o ≡ some a
      → Holds P (f a)
      → Holds P (elim o [ none ↦ x | some b ↦ f b ])
  from_some o e h = subst (λ k. Holds P (elim k [ none ↦ x | some b ↦ f b ])) (sym e) h

  pub from_none :
      (o : Option A) → o ≡ none → Holds P x → Holds P (elim o [ none ↦ x | some b ↦ f b ])
  from_none o e h = subst (λ k. Holds P (elim k [ none ↦ x | some b ↦ f b ])) (sym e) h

pub clash : {b : Bool} → b ≡ true → b ≡ false → ⊥
clash t f = cc

and_left : (a b : Bool) → (a && b) ≡ true → a ≡ true
and_left true b h = refl
and_left false b h = h

rebind :
    {A : Type 0} {P Q : Parser → Type 0} (f g : A → Outcome Parser) (r : Outcome A)
    → Holds P (r >>= f)
    → ((a : A) → Holds P (f a) → Holds Q (g a))
    → Holds Q (r >>= g)
unfolding ◌>>=◌
rebind f g (result a) h k = k a h
rebind f g (Outcome.stopped m) h k = ends
rebind f g Outcome.out_of_fuel h k = starved
rebind f g Outcome.out_of_rounds h k = elim h [ ]
rebind f g Outcome.undefined h k = elim h [ ]

module _ (fuel : ℕ) (buf : Buffer) where
  -- The lines, one after the other.
  unfoldable pub run : List Bytes → Parser → Outcome Parser
  run [] p = result p
  run (line ∷ ls) p = parse_line fuel buf line (before_line line p) >>= run ls

  pub run-append :
      {P Q : Parser → Type 0} (ls ms : List Bytes) (p : Parser)
      → Holds P (run ls p)
      → ((q : Parser) → P q → Holds Q (run ms q))
      → Holds Q (run (ls ++ ms) p)
  unfolding run
  run-append [] ms p (holds h) k = k p h
  run-append (line ∷ ls) ms p h k =
      rebind (run ls) (run (ls ++ ms)) (parse_line fuel buf line (before_line line p)) h
        (λ q u. run-append ls ms q u k)

  -- Such a line is handed to the handler of its directive.
  pub by_directive :
      {h : MakeHandler} {P : Parser → Type 0} (line : Bytes) (p : Parser)
      → IsDirective line h
      → p.define_name ≡ []
      → Holds P (
          handle fuel h
            (argument line)
            (get_directive (trim_left_space line))
            (record p { current_directive = no_directive }))
      → Holds P (parse_line fuel buf line p)
  unfolding parse_line plain_line directive_line
  by_directive {P} line p d e h =
      if_intro (Holds P) (not (length p.define_name == 0))
        (λ t. absurd (ground (arith, ap length e)))
        (λ t.
          if_intro (Holds P) (length line == 0 || text_eq line (b'\r' ∷ []))
            (λ u. absurd (clash u d.filled))
            (λ u.
              if_intro (Holds P) (get line 0 == b'\t' && is_after_rule p.state)
                (λ v. absurd (clash (and_left _ _ v) d.no_tab))
                (λ v.
                  if_intro (Holds P) (get (trim_left_space line) 0 == b'#')
                    (λ w. absurd (clash w d.no_comment))
                    (λ w.
                      from_some _ _
                        (find_handler make_directives (get_directive (trim_left_space line)))
                        d.named h))))

  pub plain-At :
      {stack : List IfState} (line : Bytes) (p : Parser)
      → IsPlain line
      → At stack p
      → Holds (At stack) (parse_line fuel buf line p)
  unfolding parse_line plain_line directive_line push_back
  plain-At {stack} line p e h =
      let p' : Parser = record p { current_directive = no_directive } in
      if_intro (Holds (At stack)) (not (length p.define_name == 0))
        (λ t. absurd (ground (arith, ap length h.2)))
        (λ t.
          if_intro (Holds (At stack)) (length line == 0 || text_eq line (b'\r' ∷ [])) (λ u. holds h)
            (λ u.
              if_intro (Holds (At stack)) (get line 0 == b'\t' && is_after_rule p.state)
                (λ v. after_parse _ _ (λ w n loc. holds h))
                (λ v.
                  if_intro (Holds (At stack)) (get (trim_left_space line) 0 == b'#') (λ w. holds h)
                    (λ w.
                      from_none _
                        (λ i.
                          handle fuel i (argument line) (get_directive (trim_left_space line)) p')
                        (find_handler make_directives (get_directive (trim_left_space line))) e
                        (weaken (parse_rule_or_assign-Same fuel (trim_left_space line) p')
                          (λ q s. Same-At p' q s h))))))
