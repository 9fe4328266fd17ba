-- ===== src/Dep/Plan/Valid.antt =====
-- `BuildPlan` of src/dep.cc keeps the plan valid.
use kati.Prelude.{
  ℕ, zero, suc, ◌<◌, ◌≡◌, refl, ap, Bool, true, false, not, ◌&&◌, Option, none, some, List, [], ◌∷◌,
  arith, Bytes, length, if_intro, ◌==◌,
}
use kati.Dep.Populate.{find_in}
use kati.Dep.Plan.{
  Outside, Plan, Planned, planned, and_then, is_some, push_node, set_done, change_node, new_node,
  node_at, Picked,
}
use kati.Dep.Plan.Choose.{pick_rule}
use kati.Dep.Plan.Build.{
  enter_vars, build_each, set_all_done, finish_node, build_validations, build_deps, vars_of,
  merger_or_new, plan_picked, parent_of, plan_node, build_plan,
}
use kati.Dep.Plan.Keeps.{
  Below, Keeps, After, and_then-After, After-weaken, set_done-Keeps, change_node-Keeps,
  push_node-Keeps,
}
use kati.Dep.Plan.Fill.{Filled, fill_dep_node-Fills}
use kati.Dep.Plan.Pick.{Anything, Builds, pick_rule-Follows}
use kati.Dep.Plan.Entered.{set_all_done-Keeps, enter_vars-Keeps, find_in-Below, node_at-Filled}

module _ {Value S : Type 0} (o : Outside Value S)
    (build : Bytes → Plan Value S → Planned Value S ℕ) where
  module _ (builds : Builds build) where
    -- The nodes of the targets are there.
    abbrev There : List (Bytes × ℕ) → Plan Value S → Type 0
    There l p = Below (length p.nodes) l

    build_each-There :
        (k : ℕ) (stack : List ℕ) (targets is : List Bytes) (p : Plan Value S)
        → Keeps k stack targets p
        → After k stack targets There (build_each o build is p)
    unfolding build_each
    build_each-There k stack targets [] p h = (h, tt)
    build_each-There k stack targets (i ∷ is) p h =
        and_then-After k stack (i ∷ targets) (build i p) _ (λ n p'. n < length p'.nodes) There k
          stack targets (builds k stack targets i p h)
          (λ c p1 g lt.
            and_then-After (length p1.nodes) stack targets (build_each o build is p1) _ There There
              k stack targets
              (build_each-There (length p1.nodes) stack targets is p1
                ((omega arith), g.1, g.2.1, g.3))
              (λ cs p2 g2 b.
                (((omega (arith, g.0, g2.0)), g2.1, g2.2, g2.3), ((omega (arith, g2.0, lt)), b))))

    build_validations-There :
        (k : ℕ) (stack : List ℕ) (targets vs : List Bytes) (p : Plan Value S)
        → Keeps k stack targets p
        → After k stack targets There (build_validations o build vs p)
    unfolding build_validations
    build_validations-There k stack targets vs p h =
        if_intro (After k stack targets There) (not (length vs == 0) && not o.use_ninja_validations)
          (λ _. tt) (λ _. build_each-There k stack targets vs p h)

    build_deps-Follows :
        (k : ℕ) (stack : List ℕ) (targets : List Bytes) (n : ℕ) (p : Plan Value S)
        → n < k
        → Keeps k stack targets p
        → After k stack targets Anything (build_deps o build n p)
    unfolding build_deps
    build_deps-Follows k stack targets n p lt h =
        let node = node_at o n p in
        and_then-After k stack targets _ _ There Anything k stack targets
          (build_each-There k stack targets node.actual_inputs
            (set_all_done o build node.implicit_outputs n p)
            (set_all_done-Keeps o build k stack targets node.implicit_outputs n p lt h))
          (λ deps p1 h1 b1.
            and_then-After k stack targets _ _ There Anything k stack targets
              (build_each-There k stack targets node.actual_order_only_inputs
                (change_node n (λ m. record m { deps = deps }) p1)
                (change_node-Keeps k stack targets n _ p1 (λ m e. (b1, e.1, e.2)) h1))
              (λ order_onlys p2 h2 b2.
                and_then-After k stack targets _ _ There Anything k stack targets
                  (build_validations-There k stack targets node.actual_validations
                    (change_node n (λ m. record m { order_onlys = order_onlys }) p2)
                    (change_node-Keeps k stack targets n _ p2 (λ m e. (e.0, b2, e.2)) h2))
                  (λ vs p3 h3 b3.
                    if_intro (After k stack targets Anything)
                      (not o.use_ninja_symlink_outputs && not (length node.symlink_outputs == 0))
                      (λ _. tt)
                      (λ _. (
                        change_node-Keeps k stack targets n _ p3 (λ m e. (e.0, e.1, b3)) h3,
                        tt,
                      )))))

    -- The answer of `BuildPlan`: a node that is there.
    abbrev IsNode : ℕ → Plan Value S → Type 0
    IsNode n p = n < length p.nodes

    plan_picked-IsNode :
        (k : ℕ) (stack : List ℕ) (targets : List Bytes) (output : Bytes) (n : ℕ)
        (picked : Picked Value) (p : Plan Value S)
        → n < k
        → Keeps k stack targets p
        → After k stack targets IsNode (plan_picked o build output n picked p)
    unfolding plan_picked finish_node
    plan_picked-IsNode k stack targets output n picked p lt h =
        and_then-After k stack targets _ _ (Filled o) IsNode k stack targets
          (fill_dep_node-Fills o k stack targets (merger_or_new o build picked.rule_merger) output
            picked.pattern_rule (node_at o n p) p h (node_at-Filled o build n p h.3.1))
          (λ node p1 h1 e1.
            let p' = change_node n (λ m. node) p1 in
            let vars = vars_of o build picked.vars in
            and_then-After k stack targets (build_deps o build n (enter_vars o build n vars p').1) _
              Anything IsNode k stack targets
              (build_deps-Follows k stack targets n (enter_vars o build n vars p').1 lt (
                enter_vars-Keeps o build k stack targets n vars p'
                  (change_node-Keeps k stack targets n _ p1 (λ m e. e1) h1)))
              (λ u p3 h3 a.
                let h4 = change_node-Keeps k stack targets n _ p3 (λ m e. e) h3 in
                (h4, (omega (arith, h4.0, lt)))))

    plan_node-IsNode :
        (k : ℕ) (stack : List ℕ) (targets : List Bytes) (output : Bytes) (n : ℕ) (p : Plan Value S)
        → n < k
        → Keeps k stack targets p
        → After k stack targets IsNode (plan_node o build output n p)
    unfolding plan_node
    plan_node-IsNode k stack targets output n p lt h =
        and_then-After k stack targets _ _ Anything IsNode k stack targets
          (pick_rule-Follows o build builds k stack targets output n none p lt h)
          (λ picked p1 h1 a.
            tested picked.is_rule _ _ (h1, (omega (arith, h1.0, lt)))
              (parented picked p1 h1 (parent_of o build picked.rule_merger)))
      where
        tested :
            (b : Bool) (x y : Planned Value S ℕ)
            → After k stack targets IsNode x
            → After k stack targets IsNode y
            → After k stack targets IsNode (elim b [ false ↦ x | true ↦ y ])
        tested true x y u v = v
        tested false x y u v = u

        parented :
            (picked : Picked Value) (p1 : Plan Value S)
            → Keeps k stack targets p1
            → (t : Option Bytes)
            → After k stack targets IsNode (elim t [
              | none ↦ plan_picked o build output n picked p1
              | some parent ↦
                  and_then
                    (pick_rule o build parent n picked.pattern_rule
                      (change_node n (λ m. record m { output = parent }) (set_done parent n p1)))
                    (λ again p2. elim again.is_rule [
                      | false ↦ planned n p2
                      | true ↦ plan_picked o build parent n again p2
                    ])
            ])
        parented picked p1 h1 none = plan_picked-IsNode k stack targets output n picked p1 lt h1
        parented picked p1 h1 (some parent) =
            let g = set_done-Keeps k stack targets parent n p1 (omega (arith, h1.0, lt)) h1 in
            and_then-After k stack targets _ _ Anything IsNode k stack targets
              (pick_rule-Follows o build builds k stack targets parent n picked.pattern_rule _ lt (
                change_node-Keeps k stack targets n (λ m. record m { output = parent })
                  (set_done parent n p1) (λ m e. e) (g.0, g.1, g.2.1, g.3)))
              (λ again p2 h2 a.
                tested again.is_rule _ _ (h2, (omega (arith, h2.0, lt)))
                  (plan_picked-IsNode k stack targets parent n again p2 lt h2))

module _ {Value S : Type 0} (o : Outside Value S) where
  -- If each number of a node in a plan is that of a node that is there, this is so after `BuildPlan`
  -- too, unless it ends the program. There are no fewer nodes then, the rules that are being tried are
  -- the same, the targets that were done are still done, and so is the target that was asked for,
  -- with a node that is there.
  pub build_plan-IsValid :
      (f k : ℕ) (stack : List ℕ) (targets : List Bytes) (output : Bytes) (p : Plan Value S)
      → Keeps k stack targets p
      → After k stack (output ∷ targets) (λ n p'. n < length p'.nodes) (build_plan o f output p)
  unfolding build_plan
  build_plan-IsValid zero k stack targets output p h = tt
  build_plan-IsValid (suc f) k stack targets output p h =
      let pushed = push_node-Keeps stack targets (new_node o output) p k (tt, tt, tt) h in
      let marked =
        set_done-Keeps (suc (length p.nodes)) stack targets output (length p.nodes)
          (push_node (new_node o output) p) pushed.0 pushed in
      looked (find_in output p.done) refl _ (
        After-weaken k (suc (length p.nodes)) stack (output ∷ targets) (output ∷ targets) _
          (λ n p'. n < length p'.nodes) (λ n p'. n < length p'.nodes)
          (λ n p' g lt. (((omega (arith, g.0, h.0)), g.1, g.2, g.3), lt))
          (plan_node-IsNode o (build_plan o f)
            (λ k' stack' targets' t p' h'. build_plan-IsValid f k' stack' targets' t p' h')
            (suc (length p.nodes)) stack (output ∷ targets) output (length p.nodes) _ (omega arith)
            marked))
    where
      looked :
          (r : Option ℕ)
          → find_in output p.done ≡ r
          → (x : Planned Value S ℕ)
          → After k stack (output ∷ targets) (λ n p'. n < length p'.nodes) x
          → After k stack
              (output ∷ targets)
              (λ n p'. n < length p'.nodes)
              (elim r [ some n ↦ planned n p | none ↦ x ])
      looked (some n) e x g = (
        (h.0, h.1, (ap is_some e, h.2), h.3),
        find_in-Below (length p.nodes) output n p.done h.3.0 e,
      )
      looked none e x g = g
