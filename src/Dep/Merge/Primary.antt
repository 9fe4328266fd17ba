-- ===== src/Dep/Merge/Primary.antt =====
-- The merger of a target after all its rules have been added.
use kati.Prelude.{
  or_true, ℕ, ◌+◌, ◌≡◌, refl, sym, ap, ◌∙◌, inl, inr, Bool, true, false, not, ◌&&◌, ◌||◌, Option,
  none, some, List, [], ◌∷◌, ◌++◌, append_assoc, append-nil, Bytes, length, ◌==◌, if◌then◌else◌,
  Bool-cases, All,
}
use kati.Rule.{Rule}
use kati.Dep.Merge.{
  RuleMerger, Merged, merged, stopped, new_merger, is_suffix_rule, has_cmds, choose_primary,
  colons_agree, add_rule, add_rules,
}

-- Whether the first rule with commands is kept.
abbrev pub keeps_first : Bytes → Bool → Bool
keeps_first output d = is_suffix_rule output || d

module _ {Value : Type 0} where
  -- The first and the last rule that has commands.
  pub first_with_cmds : List (Rule Value) → Option (Rule Value)
  first_with_cmds [] = none
  first_with_cmds (r ∷ rs) = if has_cmds r then some r else first_with_cmds rs

  abbrev pub or_else : Option (Rule Value) → Option (Rule Value) → Option (Rule Value)
  or_else none o = o
  or_else (some r) o = some r

  pub last_with_cmds : List (Rule Value) → Option (Rule Value)
  last_with_cmds [] = none
  last_with_cmds (r ∷ rs) = or_else (last_with_cmds rs) (if has_cmds r then some r else none)

  -- The rule whose commands count: the first one, or the last one.
  abbrev pub pick : Bool → Option (Rule Value) → List (Rule Value) → Option (Rule Value)
  pick true p rs = or_else p (first_with_cmds rs)
  pick false p rs = or_else (last_with_cmds rs) p

  -- One rule's part of this.
  abbrev step : Bool → Option (Rule Value) → Rule Value → Option (Rule Value)
  step keep none r = if has_cmds r then some r else none
  step keep (some p) r = if has_cmds r && not keep then some r else some p

  or_else-none : (o : Option (Rule Value)) → or_else o none ≡ o
  or_else-none none = refl
  or_else-none (some r) = refl

  or_else_assoc : (a b c : Option (Rule Value)) → or_else (or_else a b) c ≡ or_else a (or_else b c)
  or_else_assoc none b c = refl
  or_else_assoc (some r) b c = refl

  pick-step :
      (keep : Bool) (p : Option (Rule Value)) (r : Rule Value) (rs : List (Rule Value))
      → pick keep p (r ∷ rs) ≡ pick keep (step keep p r) rs
  unfolding first_with_cmds last_with_cmds
  pick-step true none r rs = elim (Bool-cases (has_cmds r)) [
    | inl e ↦ rw e refl
    | inr e ↦ rw e refl
  ]
  pick-step true (some p) r rs = elim (Bool-cases (has_cmds r)) [
    | inl e ↦ rw e refl
    | inr e ↦ rw e refl
  ]
  pick-step false p r rs =
      or_else_assoc (last_with_cmds rs) (if has_cmds r then some r else none) p
      ∙ ap (or_else (last_with_cmds rs)) (last-step p)
    where
      last-step :
          (p : Option (Rule Value))
          → or_else (if has_cmds r then some r else none) p ≡ step false p r
      last-step none = or_else-none _
      last-step (some p) = elim (Bool-cases (has_cmds r)) [ inl e ↦ rw e refl | inr e ↦ rw e refl ]

  module _ (output : Bytes) (d : Bool) where
    choose_primary-step :
        (p : Option (Rule Value)) (r : Rule Value)
        → r.is_double_colon ≡ d
        → (k : ℕ) × (choose_primary false output p r ≡ some (step (keeps_first output d) p r, k))
    unfolding choose_primary
    choose_primary-step none r h = (0, refl)
    choose_primary-step (some p) r h = elim (Bool-cases (has_cmds r)) [
      | inr e ↦ rw e (0, refl)
      | inl e ↦ elim (Bool-cases (is_suffix_rule output)) [
        | inl s ↦ rw (e, s) (0, refl)
        | inr s ↦ elim (Bool-cases d) [
          | inl t ↦ rw (e, s, h, t) (0, refl)
          | inr t ↦ rw (e, s, h, t) (2, refl)
        ]
      ]
    ]

    colons_agree-same :
        (m : RuleMerger Value) (r : Rule Value)
        → m.is_double_colon ≡ d
        → r.is_double_colon ≡ d
        → colons_agree m r ≡ true
    colons_agree-same m r h k = elim (Bool-cases d) [
      | inl t ↦ rw (h, k, t) (or_true (length m.rules == 0))
      | inr t ↦ rw (h, k, t) (or_true (length m.rules == 0))
    ]

    add_rule-step :
        (m : RuleMerger Value) (r : Rule Value)
        → m.is_double_colon ≡ d
        → r.is_double_colon ≡ d
        → (k : ℕ) × (add_rule false output r m
            ≡ merged
                (record m {
                  rules = m.rules ++ r ∷ [];
                  primary_rule = step (keeps_first output d) m.primary_rule r;
                })
                k)
    unfolding add_rule
    add_rule-step m r h k =
        let (n, chosen) = choose_primary-step m.primary_rule r k in
        (
          n,
          rw (add_rule, colons_agree-same m r h k, chosen)
              (ap
                (λ c.
                  merged
                    (record m {
                      rules = m.rules ++ r ∷ [];
                      primary_rule = step (keeps_first output d) m.primary_rule r;
                      is_double_colon = c;
                    })
                    n)
                colon),
        )
      where
        colon :
            (if length m.rules == 0 then r.is_double_colon else m.is_double_colon)
            ≡ m.is_double_colon
        colon = elim (Bool-cases (length m.rules == 0)) [
          | inl e ↦ rw e (k ∙ sym h)
          | inr e ↦ rw e refl
        ]

    pick-nil : (keep : Bool) (p : Option (Rule Value)) → p ≡ pick keep p []
    unfolding first_with_cmds last_with_cmds
    pick-nil true p = sym (or_else-none p)
    pick-nil false p = refl

    -- The rules behind one that has been added.
    after : List (Rule Value) → ℕ → Merged Value → Merged Value
    after rs w (merged m k) = add_rules false output rs m (w + k)
    after rs w (stopped e) = stopped e

    add_rules-cons :
        (r : Rule Value) (rs : List (Rule Value)) (m : RuleMerger Value) (w : ℕ)
        → add_rules false output (r ∷ rs) m w ≡ after rs w (add_rule false output r m)
    unfolding add_rules after
    add_rules-cons r rs m w =
        elim (add_rule false output r m)
          as (λ x.
            (elim x [ merged m' k ↦ add_rules false output rs m' (w + k) | stopped e ↦ stopped e ])
            ≡ after rs w x) [ merged m' k ↦ refl | stopped e ↦ refl ]

    add_rules-more :
        (rs : List (Rule Value)) (m : RuleMerger Value) (w : ℕ)
        → m.is_double_colon ≡ d
        → All (λ (r : Rule Value). r.is_double_colon ≡ d) rs
        → (k : ℕ) × (add_rules false output rs m w
            ≡ merged
                (record m {
                  rules = m.rules ++ rs;
                  primary_rule = pick (keeps_first output d) m.primary_rule rs;
                })
                k)
    unfolding add_rules after
    add_rules-more [] m w h hs =
        (w, rw (append-nil m.rules, ← pick-nil (keeps_first output d) m.primary_rule) refl)
    add_rules-more (r ∷ rs) m w h hs =
        let (n, once) = add_rule-step m r h hs.0 in
        let (k, all) =
          add_rules-more rs
            (record m {
              rules = m.rules ++ r ∷ [];
              primary_rule = step (keeps_first output d) m.primary_rule r;
            })
            (w + n) h hs.1 in
        (
          k,
          add_rules-cons r rs m w
              ∙ ap (after rs w) once
              ∙ all
              ∙ rw
                  (
                    append_assoc m.rules (r ∷ []) rs,
                    pick-step (keeps_first output d) m.primary_rule r rs,
                  )
                  refl,
        )

    -- Rules with the same kind of colon are merged without an error, unless the flag is set that makes
    -- an error of commands that are overridden: the merger keeps all of the rules in order, and its
    -- primary rule is the last one with commands; the first one with commands for double colons and
    -- for a suffix rule.
    pub add_rules-pick :
        (r : Rule Value) (rs : List (Rule Value))
        → All (λ (q : Rule Value). q.is_double_colon ≡ d) (r ∷ rs)
        → (k : ℕ) × (add_rules false output (r ∷ rs) new_merger 0
            ≡ merged
                (record new_merger {
                  rules = r ∷ rs;
                  primary_rule = pick (keeps_first output d) none (r ∷ rs);
                  is_double_colon = d;
                })
                k)
    unfolding add_rule choose_primary after
    add_rules-pick r rs hs =
        let (k, all) =
          add_rules-more rs
            (record new_merger {
              rules = r ∷ [];
              primary_rule = step (keeps_first output d) none r;
              is_double_colon = d;
            })
            (0 + 0) refl hs.1 in
        (
          k,
          add_rules-cons r rs new_merger 0
              ∙ ap
                  (λ c. after rs 0 (
                    merged
                      (record new_merger {
                        rules = r ∷ [];
                        primary_rule = step (keeps_first output d) none r;
                        is_double_colon = c;
                      })
                      0))
                  hs.0
              ∙ all
              ∙ ap
                  (λ o.
                    merged
                      (record new_merger { rules = r ∷ rs; primary_rule = o; is_double_colon = d })
                      k)
                  (sym (pick-step (keeps_first output d) none r rs)),
        )
