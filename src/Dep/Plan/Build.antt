-- ===== src/Dep/Plan/Build.antt =====
-- `BuildPlan` and `Build` of `DepBuilder` in src/dep.cc.
use kati.Prelude.{
  ℕ, zero, suc, true, false, not, ◌&&◌, ◌||◌, Option, none, some, List, [], ◌∷◌, ◌++◌, Bytes,
  length, if◌then◌else◌, ◌==◌, codes, text_eq,
}
use kati.Var.{Var, simple_var, undefined_variable, is_defined, find_var, peek, put, scoped_leave}
use kati.Eval.{AssignOp}
use kati.Dep.Merge.{RuleMerger, new_merger}
use kati.Dep.Populate.{find_in, store_in}
use kati.Dep.Plan.{
  RuleVar, DepNode, Outside, Plan, Planned, planned, stopped, aborted, and_then, change_at,
  push_node, set_done, change_node, Picked, new_node, node_at,
}
use kati.Dep.Plan.Node.{fill_dep_node}
use kati.Dep.Plan.Choose.{pick_rule}

module _ {Value S : Type 0} (o : Outside Value S) where
  module _ (build : Bytes → Plan Value S → Planned Value S ℕ) where
    -- The variable that a rule's variable stands for: `+=` appends to one that is defined. None where
    -- `?=` finds one.
    unfoldable pub rule_var :
        DepNode Value → Bytes → RuleVar Value → Plan Value S → Option (Var Value) × Plan Value S
    unfolding peek
    rule_var n name v p =
        let (global, ev) = o.global_var name p.ev in
        let scoped = peek name p.scope in
        let old : Var Value = if is_defined scoped then scoped else global in
        let p1 : Plan Value S = if is_defined scoped then p else record p { ev = ev } in
        let (s, ev2) = o.value_of old p1.scope p1.ev in
        let (t, ev3) = o.value_of v.var p1.scope ev2 in
        let whole = (if length s == 0 then s else s ++ b' ' ∷ []) ++ t in
        let appended : Var Value = record undefined_variable {
          content = simple_var whole;
          origin = old.origin;
          loc = n.loc;
        } in
        elim v.op [
          | AssignOp.plus_eq ↦
              if is_defined old then (some appended, record p1 { ev = ev3 }) else (some v.var, p1)
          | AssignOp.question_eq ↦ if is_defined old then (none, p1) else (some v.var, p1)
          | AssignOp.eq ↦ (some v.var, p)
          | AssignOp.colon_eq ↦ (some v.var, p)
        ]

    -- A variable of a rule takes effect: for the node, or for the scope, where what it hides is kept.
    unfoldable pub enter_var :
        ℕ → Bytes → Var Value → Plan Value S → Option (Option (Var Value)) × Plan Value S
    unfolding find_var put change_at
    enter_var n name v p =
        if text_eq name (codes ".KATI_DEPFILE")
        then (none, change_node n (λ m. record m { depfile_var = some v }) p)
        else if text_eq name (codes ".KATI_IMPLICIT_OUTPUTS")
            || text_eq name (codes ".KATI_VALIDATIONS")
        then (none, p)
        else if text_eq name (codes ".KATI_NINJA_POOL")
        then (none, change_node n (λ m. record m { ninja_pool_var = some v }) p)
        else (some (find_var name p.scope), record p { scope = put name v p.scope })

    -- The loop over the variables: what the scope hides, and the plan.
    unfoldable pub enter_vars :
        ℕ
        → List (Bytes × RuleVar Value)
        → Plan Value S
        → List (Bytes × Option (Var Value)) × Plan Value S
    unfolding rule_var enter_var
    enter_vars n [] p = ([], p)
    enter_vars n ((name, v) ∷ vars) p =
        let (new_var, p1) = rule_var (node_at o n p) name v p in
        elim new_var [
          | none ↦ enter_vars n vars p1
          | some w ↦
              let (hidden, p2) = enter_var n name w p1 in
              let (saved, p3) = enter_vars n vars p2 in
              (elim hidden [ none ↦ saved | some orig ↦ (name, orig) ∷ saved ], p3)
        ]

    -- The destructors of the scoped variables.
    unfoldable pub leave_vars :
        List (Bytes × Option (Var Value)) → List (Bytes × Var Value) → List (Bytes × Var Value)
    unfolding scoped_leave
    leave_vars [] scope = scope
    leave_vars ((name, orig) ∷ saved) scope = leave_vars saved (scoped_leave name orig scope)

    -- The targets of a node are built, in their order.
    unfoldable pub build_each : List Bytes → Plan Value S → Planned Value S (List (Bytes × ℕ))
    build_each [] p = planned [] p
    build_each (i ∷ is) p =
        and_then (build i p)
          (λ c p1. and_then (build_each is p1) (λ cs p2. planned ((i, c) ∷ cs) p2))

    unfoldable pub set_all_done : List Bytes → ℕ → Plan Value S → Plan Value S
    unfolding store_in
    set_all_done [] n p = p
    set_all_done (i ∷ is) n p = set_all_done is n (set_done i n p)

    -- The end of a node.
    unfoldable pub finish_node : Bytes → ℕ → Plan Value S → Plan Value S
    unfolding change_at
    finish_node output n p =
        change_node n
          (λ m. record m {
            has_rule = true;
            is_default_target = elim o.builder.first_rule [
              | none ↦ false
              | some t ↦ text_eq t output
            ];
            rule_vars = if length p.scope == 0 then none else some p.scope;
          })
          p

    -- The validations, which have to be allowed.
    unfoldable pub build_validations :
        List Bytes → Plan Value S → Planned Value S (List (Bytes × ℕ))
    unfolding build_each
    build_validations vs p =
        if not (length vs == 0) && not o.use_ninja_validations
        then stopped (codes ".KATI_VALIDATIONS not allowed without --use_ninja_validations")
        else build_each vs p

    -- What a node depends on.
    unfoldable pub build_deps : ℕ → Plan Value S → Planned Value S (Unit {0})
    unfolding build_each build_validations set_all_done change_at
    build_deps n p =
        let node = node_at o n p in
        and_then (build_each node.actual_inputs (set_all_done node.implicit_outputs n p))
          (λ deps p1.
            and_then
              (build_each node.actual_order_only_inputs
                (change_node n (λ m. record m { deps = deps }) p1))
              (λ order_onlys p2.
                and_then
                  (build_validations node.actual_validations
                    (change_node n (λ m. record m { order_onlys = order_onlys }) p2))
                  (λ validations p3.
                    if not o.use_ninja_symlink_outputs && not (length node.symlink_outputs == 0)
                    then stopped (
                        codes
                          ".KATI_SYMLINK_OUTPUTS not allowed without --use_ninja_symlink_outputs")
                    else planned tt
                        (change_node n (λ m. record m { validations = validations }) p3))))

    abbrev pub vars_of : Option (List (Bytes × RuleVar Value)) → List (Bytes × RuleVar Value)
    vars_of none = []
    vars_of (some vs) = vs

    abbrev pub merger_or_new : Option (RuleMerger Value) → RuleMerger Value
    merger_or_new none = new_merger
    merger_or_new (some m) = m

    -- The rest of `BuildPlan`, once a rule is picked.
    unfoldable pub plan_picked : Bytes → ℕ → Picked Value → Plan Value S → Planned Value S ℕ
    unfolding fill_dep_node enter_vars leave_vars build_deps finish_node change_at
    plan_picked output n picked p =
        and_then
          (fill_dep_node o (merger_or_new picked.rule_merger) output picked.pattern_rule
            (node_at o n p) p)
          (λ node p1.
            let (saved, p2) = enter_vars n (vars_of picked.vars) (change_node n (λ m. node) p1) in
            and_then (build_deps n p2) (λ u p3.
              let p4 = finish_node output n p3 in
              planned n (record p4 { scope = leave_vars saved p4.scope })))

    abbrev pub parent_of : Option (RuleMerger Value) → Option Bytes
    parent_of none = none
    parent_of (some m) = m.parent

    -- `BuildPlan` of a target that is not done, whose node is there.
    unfoldable pub plan_node : Bytes → ℕ → Plan Value S → Planned Value S ℕ
    unfolding pick_rule plan_picked store_in change_at
    plan_node output n p = and_then (pick_rule o build output n none p) (λ picked p1.
        elim picked.is_rule [
          | false ↦ planned n p1
          | true ↦ elim (parent_of picked.rule_merger) [
            | none ↦ plan_picked output n picked p1
            | some parent ↦
                and_then
                  (pick_rule o build parent n picked.pattern_rule
                    (change_node n (λ m. record m { output = parent }) (set_done parent n p1)))
                  (λ again p2. elim again.is_rule [
                    | false ↦ planned n p2
                    | true ↦ plan_picked parent n again p2
                  ])
          ]
        ])

  -- `BuildPlan`.
  unfoldable pub build_plan : ℕ → Bytes → Plan Value S → Planned Value S ℕ
  unfolding plan_node find_in store_in
  build_plan zero output p = aborted
  build_plan (suc f) output p = elim (find_in output p.done) [
    | some n ↦ planned n p
    | none ↦
        let n = length p.nodes in
        plan_node (build_plan f) output n (set_done output n (push_node (new_node o output) p))
  ]

  -- The loop of `Build`, each target with a scope of its own.
  unfoldable pub build_targets : ℕ → List Bytes → Plan Value S → Planned Value S (List (Bytes × ℕ))
  unfolding build_plan
  build_targets f [] p = planned [] p
  build_targets f (t ∷ ts) p = and_then (build_plan f t (record p { scope = [] })) (λ n p1.
      and_then (build_targets f ts (record p1 { scope = [] })) (λ ns p2. planned ((t, n) ∷ ns) p2))

  -- `Build` without `--gen_all_targets`.
  unfoldable pub build : ℕ → List Bytes → Plan Value S → Planned Value S (List (Bytes × ℕ))
  unfolding build_targets
  build f targets p = elim o.builder.first_rule [
    | none ↦ stopped (codes "*** No targets.")
    | some t ↦ build_targets f (if length targets == 0 then t ∷ [] else targets) p
  ]
