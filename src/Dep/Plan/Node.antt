-- ===== src/Dep/Plan/Node.antt =====
-- `FillDepNode` of `RuleMerger` in src/dep.cc.
use kati.Prelude.{
  Bool, true, false, Option, none, some, List, [], ◌∷◌, ◌++◌, Bytes, if◌then◌else◌, codes,
}
use kati.Rule.{Rule}
use kati.Dep.Merge.{RuleMerger, apply_output_pattern}
use kati.Dep.Populate.{one_of, find_in}
use kati.Dep.Plan.{
  DepNode, Outside, Plan, Planned, planned, stopped, aborted, and_then, is_some, is_rule,
  fill_dep_node_loc, parse_for,
}

module _ {Value S : Type 0} (o : Outside Value S) where
  -- What `FillDepNodeFromRule` adds to a node, once the inputs of the rule are parsed.
  unfoldable pub add_rule_inputs :
      Bool → Bytes → Rule Value → DepNode Value → Option (DepNode Value)
  unfolding apply_output_pattern
  add_rule_inputs is_double_colon output r n =
      let cmds = if is_double_colon then n.cmds ++ r.cmds else n.cmds in
      elim (apply_output_pattern o.pattern_fuel r output r.inputs n.actual_inputs) [
        | none ↦ none
        | some inputs ↦
            elim (apply_output_pattern o.pattern_fuel r output r.order_only_inputs
              n.actual_order_only_inputs) [
                | none ↦ none
                | some order_only ↦
                    let n' = record n {
                      cmds = cmds;
                      actual_inputs = inputs;
                      actual_order_only_inputs = order_only;
                    } in
                    elim r.output_patterns [
                      | [] ↦ some n'
                      | q ∷ [] ↦ some (record n' { output_pattern = some q })
                      | q ∷ q' ∷ qs ↦ none
                    ]
              ]
      ]

  -- `FillDepNodeFromRule`; the node that is being filled goes on as a value.
  unfoldable pub fill_dep_node_from_rule :
      Bool → Bytes → Rule Value → DepNode Value → Plan Value S → Planned Value S (DepNode Value)
  unfolding parse_for add_rule_inputs
  fill_dep_node_from_rule is_double_colon output rule n p =
      let (r, p') = parse_for o n rule p in
      elim (add_rule_inputs is_double_colon output r n) [ none ↦ aborted | some n' ↦ planned n' p' ]

  -- The loop of `FillDepNode` over the rules that are not the primary one.
  unfoldable pub fill_from_rules :
      RuleMerger Value
      → Bytes
      → List (Rule Value)
      → DepNode Value
      → Plan Value S
      → Planned Value S (DepNode Value)
  unfolding fill_dep_node_from_rule
  fill_from_rules m output [] n p = planned n p
  fill_from_rules m output (r ∷ rules) n p = elim (is_rule m.primary_rule r) [
    | true ↦ fill_from_rules m output rules n p
    | false ↦ and_then (fill_dep_node_from_rule m.is_double_colon output r n p) (λ n' p'.
        fill_from_rules m output rules
          (if is_some n'.loc.filename then n' else record n' { loc = r.loc }) p')
  ]

  -- The rules of one implicit output.
  unfoldable pub fill_from_all :
      Bool
      → Bytes
      → List (Rule Value)
      → DepNode Value
      → Plan Value S
      → Planned Value S (DepNode Value)
  unfolding fill_dep_node_from_rule
  fill_from_all is_double_colon output [] n p = planned n p
  fill_from_all is_double_colon output (r ∷ rules) n p =
      and_then (fill_dep_node_from_rule is_double_colon output r n p)
        (λ n' p'. fill_from_all is_double_colon output rules n' p')

  abbrev pub rules_of : Option (RuleMerger Value) → List (Rule Value)
  rules_of none = []
  rules_of (some m) = m.rules

  -- The loop of `FillDepNode` over the implicit outputs.
  unfoldable pub fill_implicit_outputs :
      Bool → Bytes → List Bytes → DepNode Value → Plan Value S → Planned Value S (DepNode Value)
  unfolding fill_from_all find_in
  fill_implicit_outputs is_double_colon output [] n p = planned n p
  fill_implicit_outputs is_double_colon output (i ∷ is) n p =
      and_then
        (fill_from_all is_double_colon output (rules_of (find_in i o.builder.rules))
          (record n { implicit_outputs = n.implicit_outputs ++ i ∷ [] }) p)
        (λ n' p'. fill_implicit_outputs is_double_colon output is n' p')

  -- The loop of `FillDepNode` over the symlink outputs.
  unfoldable pub fill_symlink_outputs :
      List Bytes → List Bytes → DepNode Value → Plan Value S → Planned Value S (DepNode Value)
  fill_symlink_outputs all_outputs [] n p = planned n p
  fill_symlink_outputs all_outputs (s ∷ ss) n p = elim (one_of s all_outputs) [
    | false ↦ stopped (codes "*** undeclared symlink output: " ++ s)
    | true ↦
        fill_symlink_outputs all_outputs ss
          (record n { symlink_outputs = n.symlink_outputs ++ s ∷ [] }) p
  ]

  -- The rule by which `FillDepNode` starts: the primary one or the pattern rule.
  unfoldable pub fill_by :
      Bool → Bytes → Rule Value → DepNode Value → Plan Value S → Planned Value S (DepNode Value)
  unfolding fill_dep_node_from_rule
  fill_by is_double_colon output r n p =
      and_then (fill_dep_node_from_rule is_double_colon output r n p)
        (λ n' p'. planned (record (fill_dep_node_loc r n') { cmds = r.cmds }) p')

  unfoldable pub fill_main :
      RuleMerger Value
      → Bytes
      → Option (Rule Value)
      → DepNode Value
      → Plan Value S
      → Planned Value S (DepNode Value)
  unfolding fill_by
  fill_main m output pattern_rule n p = elim m.primary_rule [
    | some r ↦ elim pattern_rule [
      | some q ↦ aborted
      | none ↦ fill_by m.is_double_colon output r n p
    ]
    | none ↦ elim pattern_rule [
      | some q ↦ fill_by m.is_double_colon output q n p
      | none ↦ planned n p
    ]
  ]

  -- `FillDepNode`.
  unfoldable pub fill_dep_node :
      RuleMerger Value
      → Bytes
      → Option (Rule Value)
      → DepNode Value
      → Plan Value S
      → Planned Value S (DepNode Value)
  unfolding fill_main fill_from_rules fill_implicit_outputs fill_symlink_outputs
  fill_dep_node m output pattern_rule n p = and_then (fill_main m output pattern_rule n p) (λ n1 p1.
      and_then (fill_from_rules m output m.rules n1 p1) (λ n2 p2.
        and_then (fill_implicit_outputs m.is_double_colon output m.implicit_outputs n2 p2) (λ n3 p3.
          and_then (fill_symlink_outputs (output ∷ m.implicit_outputs) m.symlink_outputs n3 p3)
            (λ n4 p4.
              planned (record n4 { actual_validations = n4.actual_validations ++ m.validations })
                p4))))
