-- ===== src/Dep/Plan/Entered.antt =====
-- The variables of a rule in `BuildPlan` of src/dep.cc keep the plan valid.
use kati.Prelude.{
  ℕ, zero, suc, ◌<◌, ◌≡◌, Bool, true, false, ◌||◌, Option, none, some, List, [], ◌∷◌, arith, Bytes,
  length, All, get_elem?, codes, text_eq, if◌then◌else◌, if_intro,
}
use kati.Var.{Var, peek, is_defined}
use kati.Eval.{AssignOp}
use kati.Dep.Populate.{find_in}
use kati.Dep.Plan.{RuleVar, DepNode, Outside, Plan, Planned, set_done, new_node, node_at}
use kati.Dep.Plan.Build.{rule_var, enter_var, enter_vars, set_all_done}
use kati.Dep.Plan.Keeps.{Below, Edges, Keeps, set_done-Keeps, change_node-Keeps}

elem-All :
    {A : Type 0} (P : A → Type 0) (l : List A) (n : ℕ) (d : A)
    → All P l
    → P d
    → P (elim (get_elem? l n) [ none ↦ d | some a ↦ a ])
elem-All P [] n d h g = g
elem-All P (a ∷ l) zero d h g = h.0
elem-All P (a ∷ l) (suc n) d h g = elem-All P l n d h.1 g

pub find_in-Below :
    (K : ℕ) (t : Bytes) (n : ℕ) (done : List (Bytes × ℕ))
    → Below K done
    → find_in t done ≡ some n
    → n < K
unfolding find_in
find_in-Below K t n [] h e = absurd cc
find_in-Below K t n ((m, c) ∷ done) h e = ground (arith, h.0, e, find_in-Below K t n done h.1)

module _ {Value S : Type 0} (o : Outside Value S)
    (build : Bytes → Plan Value S → Planned Value S ℕ) where
  pub node_at-Filled :
      (n : ℕ) (p : Plan Value S)
      → All (Edges (length p.nodes)) p.nodes
      → Edges (length p.nodes) (node_at o n p)
  node_at-Filled n p h = elem-All (Edges (length p.nodes)) p.nodes n (new_node o []) h (tt, tt, tt)

  module _ (k : ℕ) (stack : List ℕ) (targets : List Bytes) where
    abbrev pub K : Plan Value S → Type 0
    K = Keeps k stack targets

    by_op :
        (op : AssignOp) (b : Bool) (c a : Var Value) (p p1 q : Plan Value S)
        → K p
        → K p1
        → K q
        → K
            (elim op as (λ _. Option (Var Value) × Plan Value S) [
              | AssignOp.plus_eq ↦ if b then (some a, q) else (some c, p1)
              | AssignOp.question_eq ↦ if b then (none, p1) else (some c, p1)
              | AssignOp.eq ↦ (some c, p)
              | AssignOp.colon_eq ↦ (some c, p)
            ]).1
    by_op AssignOp.eq b c a p p1 q h h1 h2 = h
    by_op AssignOp.colon_eq b c a p p1 q h h1 h2 = h
    by_op AssignOp.plus_eq true c a p p1 q h h1 h2 = h2
    by_op AssignOp.plus_eq false c a p p1 q h h1 h2 = h1
    by_op AssignOp.question_eq true c a p p1 q h h1 h2 = h1
    by_op AssignOp.question_eq false c a p p1 q h h1 h2 = h1

    rule_var-Keeps :
        (n : DepNode Value) (name : Bytes) (v : RuleVar Value) (p : Plan Value S)
        → K p
        → K (rule_var o build n name v p).1
    unfolding rule_var
    rule_var-Keeps n name v p h =
        let b = is_defined (peek name p.scope) in
        let looked : K (if b then p else record p { ev = (o.global_var name p.ev).1 }) =
          if_intro K b (λ _. h) (λ _. h) in
        by_op v.op _ _ _ _ _ _ h looked looked

    enter_var-Keeps :
        (n : ℕ) (name : Bytes) (v : Var Value) (p : Plan Value S)
        → K p
        → K (enter_var o build n name v p).1
    unfolding enter_var
    enter_var-Keeps n name v p h =
        let P = λ (r : Option (Option (Var Value)) × Plan Value S). K r.1 in
        if_intro P (text_eq name (codes ".KATI_DEPFILE"))
          (λ _. change_node-Keeps k stack targets n _ p (λ m e. e) h)
          (λ _.
            if_intro P
              (text_eq name (codes ".KATI_IMPLICIT_OUTPUTS")
                || text_eq name (codes ".KATI_VALIDATIONS"))
              (λ _. h)
              (λ _.
                if_intro P (text_eq name (codes ".KATI_NINJA_POOL"))
                  (λ _. change_node-Keeps k stack targets n _ p (λ m e. e) h) (λ _. h)))

    pub enter_vars-Keeps :
        (n : ℕ) (vars : List (Bytes × RuleVar Value)) (p : Plan Value S)
        → K p
        → K (enter_vars o build n vars p).1
    unfolding enter_vars
    enter_vars-Keeps n [] p h = h
    enter_vars-Keeps n ((name, v) ∷ vars) p h =
        let r = rule_var o build (node_at o n p) name v p in
        entered r.0 _ _ (enter_vars-Keeps n vars r.1 (rule_var-Keeps (node_at o n p) name v p h))
          (λ w.
            let e = enter_var-Keeps n name w r.1 (rule_var-Keeps (node_at o n p) name v p h) in
            enter_vars-Keeps n vars (enter_var o build n name w r.1).1 e)
      where
        entered :
            (r : Option (Var Value)) (x : List (Bytes × Option (Var Value)) × Plan Value S)
            (y : Var Value → List (Bytes × Option (Var Value)) × Plan Value S)
            → K x.1
            → ((w : Var Value) → K (y w).1)
            → K
                (elim r as (λ _. List (Bytes × Option (Var Value)) × Plan Value S) [
                  | none ↦ x
                  | some w ↦ y w
                ]).1
        entered none x y u v = u
        entered (some w) x y u v = v w

    pub set_all_done-Keeps :
        (is : List Bytes) (n : ℕ) (p : Plan Value S) → n < k → K p → K (set_all_done o build is n p)
    unfolding set_all_done
    set_all_done-Keeps [] n p lt h = h
    set_all_done-Keeps (i ∷ is) n p lt h =
        let g = set_done-Keeps k stack targets i n p (omega (arith, h.0)) h in
        set_all_done-Keeps is n (set_done i n p) lt (g.0, g.1, g.2.1, g.3)
