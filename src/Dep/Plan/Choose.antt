-- ===== src/Dep/Plan/Choose.antt =====
-- `PickRule` of `DepBuilder` in src/dep.cc and what it calls.
use kati.Prelude.{
  ℕ, Bool, true, false, not, ◌&&◌, ◌||◌, Option, none, some, List, [], ◌∷◌, Bytes, drop,
  if◌then◌else◌, ◌==◌, text_eq,
}
use mathlib.Core.List.{reverse}
use kati.Piece.{get}
use kati.Strutil.Path.{dot, get_ext}
use kati.Strutil.Pattern.{pattern_of, match, subst_pattern}
use kati.Rule.{Rule, apply_pattern}
use kati.Dep.Trie.{get_rules}
use kati.Dep.Merge.{RuleMerger, replace_suffix}
use kati.Dep.Populate.{one_of, find_in, store_in, suffixes_of}
use kati.Dep.Plan.{
  RuleVar, Outside, Plan, Planned, planned, aborted, and_then, merge_vars, set_done, Picked,
  is_some, parse_for, node_at,
}

module _ {Value S : Type 0} (o : Outside Value S) where
  -- `MergeImplicitRuleVars`.
  unfoldable pub merge_implicit_rule_vars :
      Bytes → Option (List (Bytes × RuleVar Value)) → Option (List (Bytes × RuleVar Value))
  unfolding find_in merge_vars
  merge_implicit_rule_vars output vars = elim (find_in output o.rule_vars) [
    | none ↦ vars
    | some found ↦ elim vars [ none ↦ some found | some vs ↦ some (merge_vars found vs) ]
  ]

  unfoldable pub merge_all :
      List Bytes → Option (List (Bytes × RuleVar Value)) → Option (List (Bytes × RuleVar Value))
  unfolding merge_implicit_rule_vars
  merge_all [] vars = vars
  merge_all (i ∷ is) vars = merge_all is (merge_implicit_rule_vars i vars)

  -- The marks on the other outputs of a pattern rule that was picked.
  unfoldable pub mark_others :
      List Bytes → Bytes → Bytes → ℕ → Plan Value S → Planned Value S (Unit {0})
  unfolding subst_pattern pattern_of store_in
  mark_others [] matched output n p = planned tt p
  mark_others (q ∷ qs) matched output n p =
      let rest = mark_others qs matched output n p in
      if text_eq q matched
      then rest
      else (elim (subst_pattern o.pattern_fuel (pattern_of matched) output q) [
        | none ↦ aborted
        | some buf ↦ mark_others qs matched output n (set_done buf n p)
      ])

  -- What is built for a target is the recursion.
  module _ (build : Bytes → Plan Value S → Planned Value S ℕ) where
    -- `Exists`.
    unfoldable pub exists : Bytes → Plan Value S → Planned Value S Bool
    unfolding find_in
    exists target p =
        elim (is_some (find_in target o.builder.rules)
          || one_of target o.builder.phony
          || o.exists target) [
            | true ↦ planned true p
            | false ↦ and_then (build target p) (λ n p'. planned (node_at o n p').has_rule p')
          ]

    -- Whether all inputs exist; the first that does not ends the loop.
    unfoldable pub all_exist : List Bytes → Plan Value S → Planned Value S Bool
    unfolding exists
    all_exist [] p = planned true p
    all_exist (i ∷ is) p =
        and_then (exists i p) (λ b p'. elim b [ false ↦ planned false p' | true ↦ all_exist is p' ])

    -- Whether the rule is the last on the stack.
    abbrev pub is_last : Rule Value → List ℕ → Bool
    is_last rule [] = false
    is_last rule (k ∷ ks) = k == rule.number

    -- The trial of one pattern that matches, with the rule on the stack.
    unfoldable pub try_pattern :
        Rule Value → Bytes → ℕ → Bytes → Plan Value S → Planned Value S (Bool × Rule Value)
    unfolding apply_pattern pattern_of parse_for all_exist
    try_pattern rule output n pattern p =
        elim (apply_pattern o.pattern_fuel (pattern_of pattern) output rule) [
          | none ↦ aborted
          | some applied ↦
              let (r, p') =
                parse_for o (node_at o n p) applied
                  (record p { rule_stack = rule.number ∷ p.rule_stack }) in
              and_then (all_exist r.inputs p')
                (λ ok p''. planned (ok, r) (record p'' { rule_stack = drop 1 p''.rule_stack }))
        ]

    -- The first loop of `CanPickImplicitRule`: the pattern that is picked, with the rule applied to it.
    unfoldable pub try_patterns :
        Rule Value
        → Bytes
        → ℕ
        → List Bytes
        → Plan Value S
        → Planned Value S (Option (Bytes × Rule Value))
    unfolding match pattern_of try_pattern
    try_patterns rule output n [] p = planned none p
    try_patterns rule output n (q ∷ qs) p =
        elim (match (pattern_of q) output && not (is_last rule p.rule_stack)) [
          | false ↦ try_patterns rule output n qs p
          | true ↦ and_then (try_pattern rule output n q p) (λ tried p'. elim tried.0 [
            | true ↦ planned (some (q, tried.1)) p'
            | false ↦ try_patterns rule output n qs p'
          ])
        ]

    -- `CanPickImplicitRule`, with the pattern rule if it can.
    unfoldable pub can_pick_implicit_rule :
        Rule Value → Bytes → ℕ → Plan Value S → Planned Value S (Option (Rule Value))
    unfolding try_patterns mark_others
    can_pick_implicit_rule rule output n p =
        and_then (try_patterns rule output n rule.output_patterns p) (λ tried p'. elim tried [
          | none ↦ planned none p'
          | some (matched, applied) ↦ elim (applied.output_patterns) [
            | [] ↦ planned (some applied) p'
            | q ∷ [] ↦ planned (some applied) p'
            | q ∷ q' ∷ qs ↦
                and_then (mark_others rule.output_patterns matched output n p')
                  (λ u p''. planned (some (record applied { output_patterns = matched ∷ [] })) p'')
          ]
        ])

    -- The loop of `PickRule` over the implicit rules.
    unfoldable pub pick_implicit :
        List (Rule Value)
        → Bytes
        → ℕ
        → Picked Value
        → Plan Value S
        → Planned Value S (Option (Picked Value))
    unfolding can_pick_implicit_rule merge_all
    pick_implicit [] output n picked p = planned none p
    pick_implicit (rule ∷ rules) output n picked p =
        and_then (can_pick_implicit_rule rule output n p) (λ r p'. elim r [
          | none ↦ pick_implicit rules output n picked p'
          | some applied ↦
              planned
                (some (record picked {
                  is_rule = true;
                  pattern_rule = some applied;
                  vars =
                      if is_some picked.rule_merger
                      then picked.vars
                      else merge_all applied.output_patterns picked.vars;
                }))
                p'
        ])

    -- The answer where a suffix rule is picked.
    unfoldable pub by_suffix : Rule Value → Picked Value → Option (Picked Value)
    unfolding merge_implicit_rule_vars
    by_suffix irule picked =
        let picked' : Picked Value = record picked { is_rule = true; pattern_rule = some irule } in
        if is_some picked.rule_merger || not (is_some picked.vars)
        then some picked'
        else (elim irule.outputs [
          | [] ↦ none
          | t ∷ [] ↦ some (record picked' { vars = merge_implicit_rule_vars t picked.vars })
          | t ∷ t' ∷ ts ↦ none
        ])

    abbrev pub or_aborted : {A : Type 0} → Option A → Plan Value S → Planned Value S A
    or_aborted none p = aborted
    or_aborted (some a) p = planned a p

    -- The loop of `PickRule` over the suffix rules.
    unfoldable pub pick_suffix :
        List (Rule Value) → Bytes → Picked Value → Plan Value S → Planned Value S (Picked Value)
    unfolding replace_suffix exists by_suffix
    pick_suffix [] output picked p = planned picked p
    pick_suffix (irule ∷ rules) output picked p = elim irule.inputs [
      | input ∷ [] ↦ and_then (exists (replace_suffix output input) p) (λ b p'. elim b [
        | false ↦ pick_suffix rules output picked p'
        | true ↦ or_aborted (by_suffix irule picked) p'
      ])
      | [] ↦ aborted
      | input ∷ more ∷ rest ↦ aborted
    ]

    -- The rules that `PickRule` tries for the suffix of a target.
    unfoldable pub suffix_rules_for : Bytes → List (Rule Value)
    unfolding get_ext find_in
    suffix_rules_for output =
        let suffix = get_ext output in
        if get suffix 0 == dot
        then suffixes_of (find_in (drop 1 suffix) o.builder.suffix_rules)
        else []

    abbrev pub primary_of : Option (RuleMerger Value) → Option (Rule Value)
    primary_of none = none
    primary_of (some m) = m.primary_rule

    abbrev pub implicit_outputs_of : Option (RuleMerger Value) → List Bytes
    implicit_outputs_of none = []
    implicit_outputs_of (some m) = m.implicit_outputs

    -- `PickRule`; the pattern rule that was there stays where none is picked.
    unfoldable pub pick_rule :
        Bytes → ℕ → Option (Rule Value) → Plan Value S → Planned Value S (Picked Value)
    unfolding find_in merge_all pick_implicit pick_suffix suffix_rules_for get_rules
    pick_rule output n pattern_rule p =
        let merger = find_in output o.builder.rules in
        let vars = find_in output o.rule_vars in
        let picked : Picked Value = record {
          is_rule = is_some merger;
          rule_merger = merger;
          pattern_rule = pattern_rule;
          vars = vars;
        } in
        elim (primary_of merger) [
          | some r ↦
              planned (record picked { vars = merge_all (implicit_outputs_of merger) vars }) p
          | none ↦
              and_then
                (pick_implicit (reverse (get_rules output o.builder.implicit_rules)) output n picked
                  p)
                (λ found p'. elim found [
                  | some picked' ↦ planned picked' p'
                  | none ↦ pick_suffix (suffix_rules_for output) output picked p'
                ])
        ]
