-- ===== src/Dep/Plan/Pick.antt =====
-- `PickRule` of src/dep.cc keeps the plan valid, whatever building a target does, if that does.
use kati.Prelude.{
  ℕ, ◌<◌, ap, Bool, true, false, not, ◌&&◌, ◌||◌, Option, none, some, List, [], ◌∷◌, arith, Bytes,
  length, drop, text_eq, if◌then◌else◌,
}
use mathlib.Core.List.{reverse}
use kati.Strutil.Pattern.{pattern_of, match, subst_pattern}
use kati.Rule.{Rule, apply_pattern}
use kati.Dep.Trie.{get_rules}
use kati.Dep.Merge.{replace_suffix}
use kati.Dep.Populate.{find_in, one_of}
use kati.Dep.Plan.{
  Outside, Plan, Planned, planned, aborted, and_then, is_some, parse_for, node_at, set_done, Picked,
}
use kati.Dep.Plan.Choose.{
  mark_others, exists, all_exist, is_last, try_pattern, try_patterns, can_pick_implicit_rule,
  pick_implicit, by_suffix, or_aborted, pick_suffix, suffix_rules_for, primary_of, pick_rule,
}
use kati.Dep.Plan.Keeps.{Keeps, After, and_then-After, set_done-Keeps}

-- Nothing more is asked of an answer.
abbrev pub Anything : {A P : Type 0} → A → P → Type 0
Anything a p = Unit {0}

module _ {Value S : Type 0} where
  -- The plan after a step, with nothing asked of the answer.
  abbrev pub Follows : {A : Type 0} → ℕ → List ℕ → List Bytes → Planned Value S A → Type 0
  Follows k stack targets r = After k stack targets Anything r

  pub follow :
      {A B : Type 0} (k : ℕ) (stack : List ℕ) (targets : List Bytes) (r : Planned Value S A)
      (g : A → Plan Value S → Planned Value S B)
      → Follows k stack targets r
      → ((a : A) (p : Plan Value S) → Keeps k stack targets p → Follows k stack targets (g a p))
      → Follows k stack targets (and_then r g)
  follow k stack targets r g h f =
      and_then-After k stack targets r g Anything Anything k stack targets h (λ a p q u. f a p q)

  pub on_test :
      {A : Type 0} (k : ℕ) (stack : List ℕ) (targets : List Bytes) (b : Bool)
      (x y : Planned Value S A)
      → Follows k stack targets x
      → Follows k stack targets y
      → Follows k stack targets (elim b [ true ↦ x | false ↦ y ])
  on_test k stack targets true x y g h = g
  on_test k stack targets false x y g h = h

  pub on_option :
      {A B : Type 0} (k : ℕ) (stack : List ℕ) (targets : List Bytes) (r : Option B)
      (x : Planned Value S A) (y : B → Planned Value S A)
      → Follows k stack targets x
      → ((b : B) → Follows k stack targets (y b))
      → Follows k stack targets (elim r [ none ↦ x | some b ↦ y b ])
  on_option k stack targets none x y u v = u
  on_option k stack targets (some b) x y u v = v b

  -- Building a target keeps the plan valid, gives a node that is there, and the target is done.
  abbrev pub Builds : (Bytes → Plan Value S → Planned Value S ℕ) → Type 0
  Builds build =
      (k : ℕ) (stack : List ℕ) (targets : List Bytes) (t : Bytes) (p : Plan Value S)
      → Keeps k stack targets p
      → After k stack (t ∷ targets) (λ n p'. n < length p'.nodes) (build t p)

module _ {Value S : Type 0} (o : Outside Value S) where
  marked :
      (k : ℕ) (stack : List ℕ) (targets : List Bytes) (qs : List Bytes) (matched output : Bytes)
      (n : ℕ) (p : Plan Value S)
      → n < k
      → Keeps k stack targets p
      → Follows k stack targets (mark_others o qs matched output n p)
  unfolding mark_others
  marked k stack targets [] matched output n p lt h = (h, tt)
  marked k stack targets (q ∷ qs) matched output n p lt h =
      either (text_eq q matched) _ _ (marked k stack targets qs matched output n p lt h) (
        on_option k stack targets (subst_pattern o.pattern_fuel (pattern_of matched) output q) _ _
          tt
          (λ buf.
            let g = set_done-Keeps k stack targets buf n p (omega (arith, h.0)) h in
            marked k stack targets qs matched output n (set_done buf n p) lt
              (g.0, g.1, g.2.1, g.3)))
    where
      either :
          (b : Bool) (x y : Planned Value S (Unit {0}))
          → Follows k stack targets x
          → Follows k stack targets y
          → Follows k stack targets (if b then x else y)
      either true x y u v = u
      either false x y u v = v

  module _ (build : Bytes → Plan Value S → Planned Value S ℕ) (builds : Builds build) where
    exists-Follows :
        (k : ℕ) (stack : List ℕ) (targets : List Bytes) (t : Bytes) (p : Plan Value S)
        → Keeps k stack targets p
        → Follows k stack targets (exists o build t p)
    unfolding exists
    exists-Follows k stack targets t p h =
        on_test k stack targets
          (is_some (find_in t o.builder.rules) || one_of t o.builder.phony || o.exists t) _ _
          (h, tt)
          (and_then-After k stack (t ∷ targets) (build t p) _ (λ n p'. n < length p'.nodes) Anything
            k stack targets (builds k stack targets t p h)
            (λ n p' g lt. ((g.0, g.1, g.2.1, g.3), tt)))

    all_exist-Follows :
        (k : ℕ) (stack : List ℕ) (targets inputs : List Bytes) (p : Plan Value S)
        → Keeps k stack targets p
        → Follows k stack targets (all_exist o build inputs p)
    unfolding all_exist
    all_exist-Follows k stack targets [] p h = (h, tt)
    all_exist-Follows k stack targets (i ∷ inputs) p h =
        follow k stack targets (exists o build i p) _ (exists-Follows k stack targets i p h)
          (λ b p' g.
            on_test k stack targets b _ _ (all_exist-Follows k stack targets inputs p' g) (g, tt))

    try_pattern-Follows :
        (k : ℕ) (stack : List ℕ) (targets : List Bytes) (rule : Rule Value) (output : Bytes) (n : ℕ)
        (q : Bytes) (p : Plan Value S)
        → Keeps k stack targets p
        → Follows k stack targets (try_pattern o build rule output n q p)
    unfolding try_pattern parse_for
    try_pattern-Follows k stack targets rule output n q p h =
        applied (apply_pattern o.pattern_fuel (pattern_of q) output rule)
      where
        applied :
            (r : Option (Rule Value))
            → Follows {A = Bool × Rule Value} k stack targets (elim r [
              | none ↦ aborted
              | some applied ↦
                  let (r', p') =
                    parse_for o
                      (node_at o n p)
                      applied
                      (record p { rule_stack = rule.number ∷ p.rule_stack }) in
                  and_then
                    (all_exist o build r'.inputs p')
                    (λ ok p''. planned (ok, r') (record p'' { rule_stack = drop 1 p''.rule_stack }))
            ])
        applied none = tt
        applied (some a) =
            let pushed : Plan Value S = record p { rule_stack = rule.number ∷ p.rule_stack } in
            let parsed = parse_for o (node_at o n p) a pushed in
            and_then-After k (rule.number ∷ stack) targets
              (all_exist o build parsed.0.inputs parsed.1) _ Anything Anything k stack targets
              (all_exist-Follows k (rule.number ∷ stack) targets parsed.0.inputs parsed.1
                (h.0, ap (λ s. rule.number ∷ s) h.1, h.2, h.3))
              (λ ok p' g u. ((g.0, ap (λ s. drop 1 s) g.1, g.2, g.3), tt))

    try_patterns-Follows :
        (k : ℕ) (stack : List ℕ) (targets : List Bytes) (rule : Rule Value) (output : Bytes) (n : ℕ)
        (qs : List Bytes) (p : Plan Value S)
        → Keeps k stack targets p
        → Follows k stack targets (try_patterns o build rule output n qs p)
    unfolding try_patterns
    try_patterns-Follows k stack targets rule output n [] p h = (h, tt)
    try_patterns-Follows k stack targets rule output n (q ∷ qs) p h =
        on_test k stack targets
          (match (pattern_of q) output && not (is_last o build rule p.rule_stack)) _ _
          (follow k stack targets (try_pattern o build rule output n q p) _
            (try_pattern-Follows k stack targets rule output n q p h)
            (λ tried p' g.
              on_test k stack targets tried.0 _ _ (g, tt)
                (try_patterns-Follows k stack targets rule output n qs p' g)))
          (try_patterns-Follows k stack targets rule output n qs p h)

    can_pick-Follows :
        (k : ℕ) (stack : List ℕ) (targets : List Bytes) (rule : Rule Value) (output : Bytes) (n : ℕ)
        (p : Plan Value S)
        → n < k
        → Keeps k stack targets p
        → Follows k stack targets (can_pick_implicit_rule o build rule output n p)
    unfolding can_pick_implicit_rule
    can_pick-Follows k stack targets rule output n p lt h =
        follow k stack targets (try_patterns o build rule output n rule.output_patterns p) _
          (try_patterns-Follows k stack targets rule output n rule.output_patterns p h)
          (λ tried p' g. picked tried p' g)
      where
        trimmed :
            (ps : List Bytes) (matched : Bytes) (applied : Rule Value) (p' : Plan Value S)
            → Keeps k stack targets p'
            → Follows k stack targets (elim ps [
              | [] ↦ planned (some applied) p'
              | q ∷ [] ↦ planned (some applied) p'
              | q ∷ q' ∷ qs ↦
                  and_then (mark_others o rule.output_patterns matched output n p') (λ u p''.
                    planned (some (record applied { output_patterns = matched ∷ [] })) p'')
            ])
        trimmed [] matched applied p' g = (g, tt)
        trimmed (q ∷ []) matched applied p' g = (g, tt)
        trimmed (q ∷ q' ∷ qs) matched applied p' g =
            follow k stack targets (mark_others o rule.output_patterns matched output n p') _
              (marked k stack targets rule.output_patterns matched output n p' lt g)
              (λ u p'' f. (f, tt))

        picked :
            (tried : Option (Bytes × Rule Value)) (p' : Plan Value S)
            → Keeps k stack targets p'
            → Follows k stack targets (elim tried [
              | none ↦ planned none p'
              | some (matched, applied) ↦ elim (applied.output_patterns) [
                | [] ↦ planned (some applied) p'
                | q ∷ [] ↦ planned (some applied) p'
                | q ∷ q' ∷ qs ↦
                    and_then (mark_others o rule.output_patterns matched output n p') (λ u p''.
                      planned (some (record applied { output_patterns = matched ∷ [] })) p'')
              ]
            ])
        picked none p' g = (g, tt)
        picked (some (matched, applied)) p' g = trimmed applied.output_patterns matched applied p' g

    pick_implicit-Follows :
        (k : ℕ) (stack : List ℕ) (targets : List Bytes) (rules : List (Rule Value)) (output : Bytes)
        (n : ℕ) (picked : Picked Value) (p : Plan Value S)
        → n < k
        → Keeps k stack targets p
        → Follows k stack targets (pick_implicit o build rules output n picked p)
    unfolding pick_implicit
    pick_implicit-Follows k stack targets [] output n picked p lt h = (h, tt)
    pick_implicit-Follows k stack targets (rule ∷ rules) output n picked p lt h =
        follow k stack targets (can_pick_implicit_rule o build rule output n p) _
          (can_pick-Follows k stack targets rule output n p lt h)
          (λ r p' g.
            on_option k stack targets r _ _
              (pick_implicit-Follows k stack targets rules output n picked p' lt g) (λ a. (g, tt)))

    pick_suffix-Follows :
        (k : ℕ) (stack : List ℕ) (targets : List Bytes) (rules : List (Rule Value)) (output : Bytes)
        (picked : Picked Value) (p : Plan Value S)
        → Keeps k stack targets p
        → Follows k stack targets (pick_suffix o build rules output picked p)
    unfolding pick_suffix
    pick_suffix-Follows k stack targets [] output picked p h = (h, tt)
    pick_suffix-Follows k stack targets (irule ∷ rules) output picked p h =
        single irule.inputs _ (λ input.
          follow k stack targets (exists o build (replace_suffix output input) p) _
            (exists-Follows k stack targets (replace_suffix output input) p h)
            (λ b p' g.
              on_test k stack targets b _ _ (some_or (by_suffix o build irule picked) p' g)
                (pick_suffix-Follows k stack targets rules output picked p' g)))
      where
        some_or :
            (a : Option (Picked Value)) (p' : Plan Value S)
            → Keeps k stack targets p'
            → Follows k stack targets (or_aborted o build a p')
        some_or none p' g = tt
        some_or (some a) p' g = (g, tt)

        single :
            (l : List Bytes) (x : Bytes → Planned Value S (Picked Value))
            → ((i : Bytes) → Follows k stack targets (x i))
            → Follows k stack targets
                (elim l [ input ∷ [] ↦ x input | [] ↦ aborted | input ∷ more ∷ rest ↦ aborted ])
        single [] x u = tt
        single (i ∷ []) x u = u i
        single (i ∷ j ∷ l) x u = tt

    pub pick_rule-Follows :
        (k : ℕ) (stack : List ℕ) (targets : List Bytes) (output : Bytes) (n : ℕ)
        (pr : Option (Rule Value)) (p : Plan Value S)
        → n < k
        → Keeps k stack targets p
        → Follows k stack targets (pick_rule o build output n pr p)
    unfolding pick_rule
    pick_rule-Follows k stack targets output n pr p lt h =
        on_option k stack targets (primary_of o build (find_in output o.builder.rules)) _ _
          (follow k stack targets _ _
            (pick_implicit-Follows k stack targets
              (reverse (get_rules output o.builder.implicit_rules)) output n _ p lt h)
            (λ found p' g.
              on_option k stack targets found _ _
                (pick_suffix-Follows k stack targets (suffix_rules_for o build output) output _ p'
                  g)
                (λ a. (g, tt))))
          (λ r. (h, tt))
