-- ===== src/Dep/Plan/Fill.antt =====
-- `FillDepNode` of src/dep.cc leaves the nodes that a node depends on, and the plan, as they are.
use kati.Prelude.{
  ℕ, Bool, true, false, Option, none, some, List, [], ◌∷◌, ◌++◌, Bytes, length, if◌then◌else◌,
}
use kati.Rule.{Rule}
use kati.Dep.Merge.{RuleMerger, apply_output_pattern}
use kati.Dep.Populate.{find_in, one_of}
use kati.Dep.Plan.{
  DepNode, Outside, Plan, Planned, planned, stopped, aborted, and_then, is_some, is_rule, parse_for,
}
use kati.Dep.Plan.Node.{
  add_rule_inputs, fill_dep_node_from_rule, fill_from_rules, fill_from_all, rules_of,
  fill_implicit_outputs, fill_symlink_outputs, fill_by, fill_main, fill_dep_node,
}
use kati.Dep.Plan.Keeps.{Edges, Keeps, After, and_then-After}

module _ {Value S : Type 0} (o : Outside Value S) where
  -- A node that may be missing.
  abbrev SomeEdges : ℕ → Option (DepNode Value) → Type 0
  SomeEdges k none = Unit {0}
  SomeEdges k (some n) = Edges k n

  patterns-Edges :
      (k : ℕ) (ps : List Bytes) (n : DepNode Value)
      → Edges k n
      → SomeEdges k (elim ps [
        | [] ↦ some n
        | q ∷ [] ↦ some (record n { output_pattern = some q })
        | q ∷ q' ∷ qs ↦ none
      ])
  patterns-Edges k [] n h = h
  patterns-Edges k (q ∷ []) n h = h
  patterns-Edges k (q ∷ q' ∷ qs) n h = tt

  on_inputs :
      (k : ℕ) (i : Option (List Bytes)) (g : List Bytes → Option (DepNode Value))
      → ((l : List Bytes) → SomeEdges k (g l))
      → SomeEdges k (elim i [ none ↦ none | some l ↦ g l ])
  on_inputs k none g h = tt
  on_inputs k (some l) g h = h l

  add_rule_inputs-Edges :
      (k : ℕ) (dc : Bool) (output : Bytes) (r : Rule Value) (n : DepNode Value)
      → Edges k n
      → SomeEdges k (add_rule_inputs o dc output r n)
  unfolding add_rule_inputs
  add_rule_inputs-Edges k dc output r n h =
      on_inputs k (apply_output_pattern o.pattern_fuel r output r.inputs n.actual_inputs) _
        (λ inputs.
          on_inputs k
            (apply_output_pattern o.pattern_fuel r output r.order_only_inputs
              n.actual_order_only_inputs)
            _ (λ order_only. patterns-Edges k r.output_patterns _ h))

  -- What filling gives: a node whose edges are in the plan.
  abbrev pub Filled : DepNode Value → Plan Value S → Type 0
  Filled n p = Edges (length p.nodes) n

  module _ (k : ℕ) (stack : List ℕ) (targets : List Bytes) where
    abbrev Fills : Planned Value S (DepNode Value) → Type 0
    Fills = After k stack targets Filled

    from_some :
        (i : Option (DepNode Value)) (p : Plan Value S)
        → Keeps k stack targets p
        → SomeEdges (length p.nodes) i
        → Fills (elim i [ none ↦ aborted | some n ↦ planned n p ])
    from_some none p h e = tt
    from_some (some n) p h e = (h, e)

    fill_dep_node_from_rule-Fills :
        (dc : Bool) (output : Bytes) (rule : Rule Value) (n : DepNode Value) (p : Plan Value S)
        → Keeps k stack targets p
        → Filled n p
        → Fills (fill_dep_node_from_rule o dc output rule n p)
    unfolding fill_dep_node_from_rule parse_for
    fill_dep_node_from_rule-Fills dc output rule n p h e =
        from_some (add_rule_inputs o dc output (parse_for o n rule p).0 n) (parse_for o n rule p).1
          h (add_rule_inputs-Edges (length p.nodes) dc output (parse_for o n rule p).0 n e)

    step :
        (r : Planned Value S (DepNode Value))
        (g : DepNode Value → Plan Value S → Planned Value S (DepNode Value))
        → Fills r
        → ((n : DepNode Value) (p : Plan Value S)
            → Keeps k stack targets p
            → Filled n p
            → Fills (g n p))
        → Fills (and_then r g)
    step r g h f = and_then-After k stack targets r g Filled Filled k stack targets h f

    located :
        (b : Bool) (n m : DepNode Value) (p : Plan Value S)
        → Filled n p
        → Filled m p
        → Filled (if b then n else m) p
    located true n m p g h = g
    located false n m p g h = h

    fill_from_rules-Fills :
        (m : RuleMerger Value) (output : Bytes) (rules : List (Rule Value)) (n : DepNode Value)
        (p : Plan Value S)
        → Keeps k stack targets p
        → Filled n p
        → Fills (fill_from_rules o m output rules n p)
    unfolding fill_from_rules
    fill_from_rules-Fills m output [] n p h e = (h, e)
    fill_from_rules-Fills m output (r ∷ rules) n p h e =
        chosen (is_rule m.primary_rule r) _ _ (fill_from_rules-Fills m output rules n p h e) (
          step (fill_dep_node_from_rule o m.is_double_colon output r n p) _
            (fill_dep_node_from_rule-Fills m.is_double_colon output r n p h e)
            (λ n' p' h' e'.
              fill_from_rules-Fills m output rules _ p' h'
                (located (is_some n'.loc.filename) n' (record n' { loc = r.loc }) p' e' e')))
      where
        chosen :
            (b : Bool) (x y : Planned Value S (DepNode Value))
            → Fills x
            → Fills y
            → Fills (elim b [ true ↦ x | false ↦ y ])
        chosen true x y g g' = g
        chosen false x y g g' = g'

    fill_from_all-Fills :
        (dc : Bool) (output : Bytes) (rules : List (Rule Value)) (n : DepNode Value)
        (p : Plan Value S)
        → Keeps k stack targets p
        → Filled n p
        → Fills (fill_from_all o dc output rules n p)
    unfolding fill_from_all
    fill_from_all-Fills dc output [] n p h e = (h, e)
    fill_from_all-Fills dc output (r ∷ rules) n p h e =
        step (fill_dep_node_from_rule o dc output r n p) _
          (fill_dep_node_from_rule-Fills dc output r n p h e)
          (λ n' p' h' e'. fill_from_all-Fills dc output rules n' p' h' e')

    fill_implicit_outputs-Fills :
        (dc : Bool) (output : Bytes) (outs : List Bytes) (n : DepNode Value) (p : Plan Value S)
        → Keeps k stack targets p
        → Filled n p
        → Fills (fill_implicit_outputs o dc output outs n p)
    unfolding fill_implicit_outputs
    fill_implicit_outputs-Fills dc output [] n p h e = (h, e)
    fill_implicit_outputs-Fills dc output (i ∷ outs) n p h e =
        step _ _
          (fill_from_all-Fills dc output (rules_of o (find_in i o.builder.rules))
            (record n { implicit_outputs = n.implicit_outputs ++ i ∷ [] }) p h e)
          (λ n' p' h' e'. fill_implicit_outputs-Fills dc output outs n' p' h' e')

    fill_symlink_outputs-Fills :
        (all_outputs ss : List Bytes) (n : DepNode Value) (p : Plan Value S)
        → Keeps k stack targets p
        → Filled n p
        → Fills (fill_symlink_outputs o all_outputs ss n p)
    unfolding fill_symlink_outputs
    fill_symlink_outputs-Fills all_outputs [] n p h e = (h, e)
    fill_symlink_outputs-Fills all_outputs (s ∷ ss) n p h e = declared (one_of s all_outputs) _ _ (
        fill_symlink_outputs-Fills all_outputs ss
          (record n { symlink_outputs = n.symlink_outputs ++ s ∷ [] }) p h e)
      where
        declared :
            (b : Bool) (m : Bytes) (x : Planned Value S (DepNode Value))
            → Fills x
            → Fills (elim b [ false ↦ stopped m | true ↦ x ])
        declared true m x g = g
        declared false m x g = tt

    fill_by-Fills :
        (dc : Bool) (output : Bytes) (r : Rule Value) (n : DepNode Value) (p : Plan Value S)
        → Keeps k stack targets p
        → Filled n p
        → Fills (fill_by o dc output r n p)
    unfolding fill_by
    fill_by-Fills dc output r n p h e =
        step (fill_dep_node_from_rule o dc output r n p) _
          (fill_dep_node_from_rule-Fills dc output r n p h e) (λ n' p' h' e'. (h', e'))

    fill_main-Fills :
        (m : RuleMerger Value) (output : Bytes) (pr : Option (Rule Value)) (n : DepNode Value)
        (p : Plan Value S)
        → Keeps k stack targets p
        → Filled n p
        → Fills (fill_main o m output pr n p)
    unfolding fill_main
    fill_main-Fills m output pr n p h e = by_rule m.primary_rule pr
      where
        by_rule :
            (a b : Option (Rule Value))
            → Fills (elim a [
              | some r ↦ elim b [
                | some q ↦ aborted
                | none ↦ fill_by o m.is_double_colon output r n p
              ]
              | none ↦ elim b [
                | some q ↦ fill_by o m.is_double_colon output q n p
                | none ↦ planned n p
              ]
            ])
        by_rule (some r) (some q) = tt
        by_rule (some r) none = fill_by-Fills m.is_double_colon output r n p h e
        by_rule none (some q) = fill_by-Fills m.is_double_colon output q n p h e
        by_rule none none = (h, e)

    pub fill_dep_node-Fills :
        (m : RuleMerger Value) (output : Bytes) (pr : Option (Rule Value)) (n : DepNode Value)
        (p : Plan Value S)
        → Keeps k stack targets p
        → Filled n p
        → Fills (fill_dep_node o m output pr n p)
    unfolding fill_dep_node
    fill_dep_node-Fills m output pr n p h e =
        step _ _ (fill_main-Fills m output pr n p h e) (λ n1 p1 h1 e1.
          step _ _ (fill_from_rules-Fills m output m.rules n1 p1 h1 e1) (λ n2 p2 h2 e2.
            step _ _
              (fill_implicit_outputs-Fills m.is_double_colon output m.implicit_outputs n2 p2 h2 e2)
              (λ n3 p3 h3 e3.
                step _ _
                  (fill_symlink_outputs-Fills (output ∷ m.implicit_outputs) m.symlink_outputs n3 p3
                    h3 e3)
                  (λ n4 p4 h4 e4. (h4, e4)))))
