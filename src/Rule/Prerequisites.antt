-- ===== src/Rule/Prerequisites.antt =====
-- What `ParsePrerequisites` makes of the output patterns of a rule.
use kati.Prelude.{
  ℕ, ◌+◌, ◌≡◌, ◌⊎◌, refl, inl, inr, Bool, true, false, not, Option, none, some, List, [], ◌∷◌,
  Bytes, length, ◌==◌, if◌then◌else◌, Bool-cases, Option-cases, subst, codes,
}
use kati.Piece.{get, substr, find_byte}
use kati.Strutil.Words.{words}
use kati.Rule.{
  Rule, is_pattern_rule, Separator, Parsed, parsed, stopped, split_command, target_patterns,
  check_patterns, finish_static, parse_static, parse_prerequisites,
}

module _ {Value : Type 0} (literal : Bytes → Value) where
  -- One pattern, with a percent sign.
  abbrev pub IsStatic : List Bytes → Type 0
  IsStatic ps = (p : Bytes) × (ps ≡ p ∷ []) × (is_pattern_rule p ≡ true)

  -- Every rule that results has the patterns `ps`, or one pattern with a percent sign.
  abbrev pub KeepsOrStatic : List Bytes → Parsed Value → Type 0
  KeepsOrStatic ps (stopped m) = Unit
  KeepsOrStatic ps (parsed r w) = (r.output_patterns ≡ ps) ⊎ IsStatic r.output_patterns

  abbrev Keeps : List Bytes → Option (Rule Value) → Type 0
  Keeps ps none = Unit
  Keeps ps (some r) = r.output_patterns ≡ ps

  cut-Keeps :
      (b : Bool) (r r' : Rule Value)
      → r'.output_patterns ≡ r.output_patterns
      → Keeps r.output_patterns (if b then some r' else none)
  cut-Keeps true r r' e = e
  cut-Keeps false r r' e = tt

  split_command-Keeps :
      (line : Bytes) (separator_pos : Option ℕ) (sep : Separator) (r : Rule Value)
      → Keeps r.output_patterns (split_command literal line separator_pos sep r)
  unfolding split_command
  split_command-Keeps line none sep r = refl
  split_command-Keeps line (some pos) Separator.sep_semicolon r = refl
  split_command-Keeps line (some pos) Separator.sep_null r =
      cut-Keeps (get line pos == b';') r _ refl
  split_command-Keeps line (some pos) Separator.sep_eq r = cut-Keeps (get line pos == b';') r _ refl
  split_command-Keeps line (some pos) Separator.sep_finaleq r =
      cut-Keeps (get line pos == b';') r _ refl

  check_patterns-KeepsOrStatic :
      (ps qs : List Bytes) (r : Rule Value) (w : ℕ)
      → r.output_patterns ≡ qs
      → KeepsOrStatic ps (check_patterns literal r w)
  unfolding check_patterns
  check_patterns-KeepsOrStatic ps [] r w e = rw (check_patterns, e) tt
  check_patterns-KeepsOrStatic ps (p ∷ []) r w e = elim (Bool-cases (is_pattern_rule p)) [
    | inl k ↦ rw (check_patterns, e, k) (inr (p, e, k))
    | inr k ↦ rw (check_patterns, e, k) tt
  ]
  check_patterns-KeepsOrStatic ps (p ∷ q ∷ qs) r w e = rw (check_patterns, e) tt

  finish_static-KeepsOrStatic :
      (ps : List Bytes) (pos : ℕ) (result : Rule Value × ℕ)
      → KeepsOrStatic ps (finish_static literal pos result)
  unfolding finish_static
  finish_static-KeepsOrStatic ps pos (r, w) =
      check_patterns-KeepsOrStatic ps r.output_patterns
        (record r { prereq_string = substr r.prereq_string (pos + 1) none }) w refl

  parse_static-KeepsOrStatic :
      (r : Rule Value) → KeepsOrStatic r.output_patterns (parse_static literal r)
  unfolding parse_static
  parse_static-KeepsOrStatic r = elim (Option-cases (find_byte r.prereq_string b':' 0)) [
    | inl e ↦ rw (parse_static, e) (inl refl)
    | inr found ↦
        let (pos, e) = found in
        elim (Bool-cases (not (length r.output_patterns == 0))) [
          | inl k ↦ rw (parse_static, e, k) tt
          | inr k ↦ elim (Bool-cases (length r.outputs == 0)) [
            | inl n ↦ rw (parse_static, e, k, n) (inl refl)
            | inr n ↦
                rw (parse_static, e, k, n)
                  (finish_static-KeepsOrStatic r.output_patterns pos
                    (target_patterns literal (words (substr r.prereq_string 0 (some pos))) r 0))
          ]
        ]
  ]

  Keeps-through :
      (o : Option (Rule Value)) (ps : List Bytes)
      → Keeps ps o
      → KeepsOrStatic ps
          (elim o [ none ↦ stopped (codes "CHECK failed") | some r ↦ parse_static literal r ])
  Keeps-through none ps h = tt
  Keeps-through (some r) ps h =
      subst (λ qs. KeepsOrStatic qs (parse_static literal r)) h (parse_static-KeepsOrStatic r)

  -- A rule that `ParsePrerequisites` delivers has the output patterns that it had, or exactly one, and
  -- this one has a percent sign. So a rule with outputs, which begins with no pattern, has at most one
  -- afterwards, as the checks in src/dep.cc ask.
  pub parse_prerequisites-KeepsOrStatic :
      (line : Bytes) (separator_pos : Option ℕ) (sep : Separator) (r : Rule Value)
      → KeepsOrStatic r.output_patterns (parse_prerequisites literal line separator_pos sep r)
  unfolding parse_prerequisites
  parse_prerequisites-KeepsOrStatic line separator_pos sep r =
      Keeps-through (split_command literal line separator_pos sep r) r.output_patterns
        (split_command-Keeps line separator_pos sep r)
