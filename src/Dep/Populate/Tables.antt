-- ===== src/Dep/Populate/Tables.antt =====
-- What the first loop of `PopulateRules` of src/dep.cc puts into the table of rules.
use kati.Prelude.{
  ℕ, ◌+◌, ◌≡◌, refl, ap, subst, ◌∙◌, Bool, true, false, not, ◌||◌, none, some, List, [], ◌∷◌, ◌++◌,
  arith, Bytes, length, text_eq, text_eq→eq, Bool-cases, inl, inr, if◌then◌else◌, ◌==◌, codes,
}
use kati.Rule.{Rule}
use kati.Dep.Trie.{add}
use kati.Dep.Merge.{RuleMerger, Merged, merged, new_merger, add_rule, add_rules, is_suffix_rule}
use kati.Dep.Populate.{
  Builder, new_builder, Populated, populated, stopped, find_in, store_in, merger_of,
  populate_suffix_rule, add_patterns, add_outputs, first_of, populate_rules,
  is_ignorable_implicit_rule,
}
use kati.Dep.Populate.Kept.{find_in-store_in, find_in-store_in_other}

module _ {Value : Type 0} where
  -- The rules that name a target, once for each time they do.
  abbrev pub naming : Bytes → Rule Value → List Bytes → List (Rule Value)
  naming t rule [] = []
  naming t rule (output ∷ outputs) =
      if text_eq output t then rule ∷ naming t rule outputs else naming t rule outputs

  abbrev pub rules_for : Bytes → List (Rule Value) → List (Rule Value)
  rules_for t [] = []
  rules_for t (rule ∷ rules) = naming t rule rule.outputs ++ rules_for t rules

  -- `AddRule` of some rules makes one merger of another.
  abbrev pub Makes : Bool → Bytes → List (Rule Value) → RuleMerger Value → RuleMerger Value → Type 0
  Makes werror t rules m m' = (w : ℕ) → (k : ℕ) × (add_rules werror t rules m w ≡ merged m' k)

  -- `AddRule` of more rules, after some.
  abbrev onward : Bool → Bytes → List (Rule Value) → Merged Value → Merged Value
  onward werror t ys (merged m k) = add_rules werror t ys m k
  onward werror t ys (Merged.stopped e) = Merged.stopped e

  add_rules-append :
      (werror : Bool) (t : Bytes) (xs ys : List (Rule Value)) (m : RuleMerger Value) (w : ℕ)
      → add_rules werror t (xs ++ ys) m w ≡ onward werror t ys (add_rules werror t xs m w)
  unfolding add_rules
  add_rules-append werror t [] ys m w = refl
  add_rules-append werror t (x ∷ xs) ys m w =
      after_one (add_rule werror t x m) (λ m' k. add_rules-append werror t xs ys m' (w + k))
    where
      after_one :
          (r : Merged Value)
          → ((m' : RuleMerger Value) (k : ℕ)
              → add_rules werror t (xs ++ ys) m' (w + k)
                ≡ onward werror t ys (add_rules werror t xs m' (w + k)))
          → (elim r as (λ _. Merged Value) [
            | merged m' k ↦ add_rules werror t (xs ++ ys) m' (w + k)
            | Merged.stopped e ↦ Merged.stopped e
          ])
            ≡ onward werror t ys (elim r [
              | merged m' k ↦ add_rules werror t xs m' (w + k)
              | Merged.stopped e ↦ Merged.stopped e
            ])
      after_one (merged m' k) h = h m' k
      after_one (Merged.stopped e) h = refl

  Makes-append :
      (werror : Bool) (t : Bytes) (xs ys : List (Rule Value)) (m m' m'' : RuleMerger Value)
      → Makes werror t xs m m'
      → Makes werror t ys m' m''
      → Makes werror t (xs ++ ys) m m''
  Makes-append werror t xs ys m m' m'' f g w =
      let (k, e) = f w in
      let (k', e') = g k in
      (k', add_rules-append werror t xs ys m w ∙ ap (onward werror t ys) e ∙ e')

  Makes-one :
      (werror : Bool) (t : Bytes) (x : Rule Value) (xs : List (Rule Value))
      (m m' m'' : RuleMerger Value) (k : ℕ)
      → add_rule werror t x m ≡ merged m' k
      → Makes werror t xs m' m''
      → Makes werror t (x ∷ xs) m m''
  unfolding add_rules
  Makes-one werror t x xs m m' m'' k e g w = let (j, e') = g (w + k) in (j, ap (λ r. more r) e ∙ e')
    where
      more : Merged Value → Merged Value
      more (merged n i) = add_rules werror t xs n (w + i)
      more (Merged.stopped a) = Merged.stopped a

  add_patterns-rules :
      (rule : Rule Value) (ps : List Bytes) (b : Builder Value)
      → (add_patterns rule ps b).rules ≡ b.rules
  unfolding add_patterns
  add_patterns-rules rule [] b = refl
  add_patterns-rules rule (p ∷ ps) b =
      add_patterns-rules rule ps _
      ∙ kept (not (text_eq p (codes "%")) || not (is_ignorable_implicit_rule rule))
    where
      kept :
          (c : Bool)
          → (if c then record b { implicit_rules = add p rule b.implicit_rules } else b).rules
            ≡ b.rules
      kept true = refl
      kept false = refl

  suffix-rules :
      (rule : Rule Value) (output : Bytes) (b : Builder Value)
      → (populate_suffix_rule rule output b).rules ≡ b.rules
  unfolding populate_suffix_rule
  suffix-rules rule output b = elim (Bool-cases (not (is_suffix_rule output))) [
    | inl e ↦ rw e refl
    | inr e ↦ rw e refl
  ]

  merger_of-stored :
      (t : Bytes) (m : RuleMerger Value) (table : List (Bytes × RuleMerger Value))
      → merger_of t (store_in t m table) ≡ m
  unfolding merger_of
  merger_of-stored t m table =
      ap (λ r. elim r as (λ _. RuleMerger Value) [ none ↦ new_merger | some n ↦ n ])
        (find_in-store_in t m table)

  merger_of-other :
      (t output : Bytes) (m : RuleMerger Value) (table : List (Bytes × RuleMerger Value))
      → text_eq output t ≡ false
      → merger_of t (store_in output m table) ≡ merger_of t table
  unfolding merger_of
  merger_of-other t output m table ne =
      ap (λ r. elim r as (λ _. RuleMerger Value) [ none ↦ new_merger | some n ↦ n ])
        (find_in-store_in_other t output m table ne)

  abbrev of_populated : Bytes → ℕ → Populated Value → Merged Value
  of_populated t w (populated c) = merged (merger_of t c.rules) w
  of_populated t w (stopped e) = Merged.stopped e

  naming-empty :
      (t : Bytes) (rule : Rule Value) (outputs : List Bytes)
      → (length outputs == 0) ≡ true
      → naming t rule outputs ≡ []
  naming-empty t rule [] h = refl
  naming-empty t rule (output ∷ outputs) h = absurd (ground (arith, h))

  add_outputs-Makes :
      (werror : Bool) (t : Bytes) (rule : Rule Value) (outputs : List Bytes) (b b' : Builder Value)
      → add_outputs werror rule outputs b ≡ populated b'
      → Makes werror t (naming t rule outputs) (merger_of t b.rules) (merger_of t b'.rules)
  unfolding add_outputs add_rules
  add_outputs-Makes werror t rule [] b b' h = λ w. (w, ap (of_populated t w) h)
  add_outputs-Makes werror t rule (output ∷ outputs) b b' h =
      outcome (add_rule werror output rule (merger_of output b.rules)) refl h
        (λ m. add_outputs-Makes werror t rule outputs (next m) b')
    where
      next : RuleMerger Value → Builder Value
      next m = populate_suffix_rule rule output (record b {
        rules = store_in output m b.rules;
        first_rule = first_of b.first_rule output;
      })

      table : (m : RuleMerger Value) → (next m).rules ≡ store_in output m b.rules
      table m = suffix-rules rule output (record b {
        rules = store_in output m b.rules;
        first_rule = first_of b.first_rule output;
      })

      named :
          (m : RuleMerger Value) (k : ℕ)
          → add_rule werror output rule (merger_of output b.rules) ≡ merged m k
          → Makes werror t
              (naming t rule outputs)
              (merger_of t (next m).rules)
              (merger_of t b'.rules)
          → Makes werror t
              (naming t rule (output ∷ outputs))
              (merger_of t b.rules)
              (merger_of t b'.rules)
      named m k e g = elim (Bool-cases (text_eq output t)) [
        | inl p ↦
            let q = text_eq→eq output t p in
            rw p (
              Makes-one werror t rule (naming t rule outputs) (merger_of t b.rules) m
                (merger_of t b'.rules) k
                (subst (λ x. add_rule werror x rule (merger_of x b.rules) ≡ merged m k) q e)
                (subst (λ x. Makes werror t (naming t rule outputs) x (merger_of t b'.rules))
                  (ap (merger_of t) (table m)
                    ∙ ap (λ x. merger_of t (store_in x m b.rules)) q
                    ∙ merger_of-stored t m b.rules)
                  g))
        | inr p ↦ rw p (
            subst (λ x. Makes werror t (naming t rule outputs) x (merger_of t b'.rules))
              (ap (merger_of t) (table m) ∙ merger_of-other t output m b.rules p) g)
      ]

      outcome :
          (r : Merged Value)
          → add_rule werror output rule (merger_of output b.rules) ≡ r
          → (elim r [
            | Merged.stopped e ↦ stopped e
            | merged m k ↦ add_outputs werror rule outputs (next m)
          ])
            ≡ populated b'
          → ((m : RuleMerger Value)
              → add_outputs werror rule outputs (next m) ≡ populated b'
              → Makes werror t
                  (naming t rule outputs)
                  (merger_of t (next m).rules)
                  (merger_of t b'.rules))
          → Makes werror t
              (naming t rule (output ∷ outputs))
              (merger_of t b.rules)
              (merger_of t b'.rules)
      outcome (merged m k) e g f = named m k e (f m g)
      outcome (Merged.stopped a) e g f = absurd cc

  populate_rules-Makes :
      (werror : Bool) (t : Bytes) (rules : List (Rule Value)) (b b' : Builder Value)
      → populate_rules werror rules b ≡ populated b'
      → Makes werror t (rules_for t rules) (merger_of t b.rules) (merger_of t b'.rules)
  unfolding populate_rules add_rules
  populate_rules-Makes werror t [] b b' h = λ w. (w, ap (of_populated t w) h)
  populate_rules-Makes werror t (rule ∷ rules) b b' h =
      by_outputs (length rule.outputs == 0) refl h
        (λ c g. populate_rules-Makes werror t rules c b' g)
    where
      explicit :
          (r : Populated Value)
          → add_outputs werror rule rule.outputs b ≡ r
          → (elim r [ stopped e ↦ stopped e | populated c ↦ populate_rules werror rules c ])
            ≡ populated b'
          → ((c : Builder Value)
              → populate_rules werror rules c ≡ populated b'
              → Makes werror t (rules_for t rules) (merger_of t c.rules) (merger_of t b'.rules))
          → Makes werror t (rules_for t (rule ∷ rules)) (merger_of t b.rules) (merger_of t b'.rules)
      explicit (stopped e) p g f = absurd cc
      explicit (populated c) p g f =
          Makes-append werror t (naming t rule rule.outputs) (rules_for t rules)
            (merger_of t b.rules) (merger_of t c.rules) (merger_of t b'.rules)
            (add_outputs-Makes werror t rule rule.outputs b c p) (f c g)

      by_outputs :
          (e : Bool)
          → (length rule.outputs == 0) ≡ e
          → (elim e [
            | true ↦ populate_rules werror rules (add_patterns rule rule.output_patterns b)
            | false ↦ elim (add_outputs werror rule rule.outputs b) [
              | stopped a ↦ stopped a
              | populated c ↦ populate_rules werror rules c
            ]
          ])
            ≡ populated b'
          → ((c : Builder Value)
              → populate_rules werror rules c ≡ populated b'
              → Makes werror t (rules_for t rules) (merger_of t c.rules) (merger_of t b'.rules))
          → Makes werror t (rules_for t (rule ∷ rules)) (merger_of t b.rules) (merger_of t b'.rules)
      by_outputs true p g f = rw (naming-empty t rule rule.outputs p) (
          subst (λ x. Makes werror t (rules_for t rules) (merger_of t x) (merger_of t b'.rules))
            (add_patterns-rules rule rule.output_patterns b) (f _ g))
      by_outputs false p g f = explicit (add_outputs werror rule rule.outputs b) refl g f

  -- What the table has for a target after the first loop of `PopulateRules`, which adds the rules and
  -- comes before the variables of the targets are read, if there was no error: it is what `AddRule` of
  -- the rules that name the target makes of an empty merger, in the order of the rules and once for each
  -- time they do. The other rules have no effect on it in this loop, and `AddRule` of these ends
  -- without an error.
  pub populate_rules-add_rules :
      (werror : Bool) (rules : List (Rule Value)) (t : Bytes) (b : Builder Value)
      → populate_rules werror rules new_builder ≡ populated b
      → (k : ℕ) × (add_rules werror t (rules_for t rules) new_merger 0
          ≡ merged (merger_of t b.rules) k)
  unfolding merger_of find_in
  populate_rules-add_rules werror rules t b h =
      populate_rules-Makes werror t rules new_builder b h 0
