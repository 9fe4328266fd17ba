-- ===== src/Dep/Plan/Keeps.antt =====
-- What every step of the building of a plan leaves as it should be, in src/dep.cc.
use kati.Prelude.{
  ℕ, zero, suc, ◌≤◌, ◌<◌, ◌≡◌, refl, Bool, true, false, List, [], ◌∷◌, ◌++◌, arith, Bytes, length,
  All, All-append, text_eq, text_eq_refl, Bool-cases, inl, inr, if◌then◌else◌, length-append,
}
use kati.Piece.{piece_lt}
use kati.Dep.Populate.{find_in, store_in}
use kati.Dep.Plan.{
  DepNode, Plan, Planned, planned, stopped, aborted, and_then, change_at, is_some, set_done,
  change_node, push_node,
}

-- Numbers of nodes that are below a bound.
abbrev pub Below : ℕ → List (Bytes × ℕ) → Type 0
Below k = All (λ e. e.1 < k)

pub Below-le : (j k : ℕ) (l : List (Bytes × ℕ)) → j ≤ k → Below j l → Below k l
Below-le j k [] le h = tt
Below-le j k (e ∷ l) le h = (omega arith, Below-le j k l le h.1)

module _ {Value : Type 0} where
  -- The nodes that a node depends on are below a bound.
  abbrev pub Edges : ℕ → DepNode Value → Type 0
  Edges k n = Below k n.deps × Below k n.order_onlys × Below k n.validations

  pub Edges-le : (j k : ℕ) (n : DepNode Value) → j ≤ k → Edges j n → Edges k n
  Edges-le j k n le h = (
    Below-le j k n.deps le h.0,
    Below-le j k n.order_onlys le h.1,
    Below-le j k n.validations le h.2,
  )

  pub All-Edges_le :
      (j k : ℕ) (ns : List (DepNode Value)) → j ≤ k → All (Edges j) ns → All (Edges k) ns
  All-Edges_le j k [] le h = tt
  All-Edges_le j k (n ∷ ns) le h = (Edges-le j k n le h.0, All-Edges_le j k ns le h.1)

-- Targets that are done.
abbrev pub AllDone : List (Bytes × ℕ) → List Bytes → Type 0
AllDone done = All (λ t. is_some (find_in t done) ≡ true)

find_in-store_in :
    (t name : Bytes) (n : ℕ) (done : List (Bytes × ℕ))
    → is_some (find_in t done) ≡ true
    → is_some (find_in t (store_in name n done)) ≡ true
unfolding find_in store_in
find_in-store_in t name n [] h = absurd cc
find_in-store_in t name n ((m, k) ∷ done) h = ground (arith, h, find_in-store_in t name n done)

stored_before :
    (b : Bool) (t m : Bytes) (n k : ℕ) (done later : List (Bytes × ℕ))
    → text_eq m t ≡ false
    → is_some (find_in t later) ≡ true
    → is_some (find_in t (if b then (t, n) ∷ done else (m, k) ∷ later)) ≡ true
unfolding find_in
stored_before true t m n k done later e h = rw (text_eq_refl t) refl
stored_before false t m n k done later e h = rw e h

find_in-stored :
    (t : Bytes) (n : ℕ) (done : List (Bytes × ℕ)) → is_some (find_in t (store_in t n done)) ≡ true
unfolding find_in store_in
find_in-stored t n [] = rw (text_eq_refl t) refl
find_in-stored t n ((m, k) ∷ done) = elim (Bool-cases (text_eq m t)) [
  | inl e ↦ rw e (rw e refl)
  | inr e ↦ rw e (
      stored_before (piece_lt t m) t m n k ((m, k) ∷ done) (store_in t n done) e
        (find_in-stored t n done))
]

either_Below :
    (bound : ℕ) (b : Bool) (x y : List (Bytes × ℕ))
    → Below bound x
    → Below bound y
    → Below bound (if b then x else y)
either_Below bound true x y p q = p
either_Below bound false x y p q = q

pub Below-store_in :
    (bound : ℕ) (name : Bytes) (n : ℕ) (done : List (Bytes × ℕ))
    → n < bound
    → Below bound done
    → Below bound (store_in name n done)
unfolding store_in
Below-store_in bound name n [] lt h = (lt, tt)
Below-store_in bound name n ((m, k) ∷ done) lt h =
    either_Below bound (text_eq m name) _ _ (lt, h.1)
      (either_Below bound (piece_lt name m) _ _ (lt, h)
        (h.0, Below-store_in bound name n done lt h.1))

module _ {A : Type 0} (P : A → Type 0) where
  pub length-change_at : (n : ℕ) (f : A → A) (l : List A) → length (change_at n f l) ≡ length l
  unfolding change_at
  length-change_at n f [] = refl
  length-change_at zero f (a ∷ l) = refl
  length-change_at (suc n) f (a ∷ l) = omega (arith, length-change_at n f l)

  pub All-change_at :
      (n : ℕ) (f : A → A) (l : List A)
      → ((a : A) → P a → P (f a))
      → All P l
      → All P (change_at n f l)
  unfolding change_at
  All-change_at n f [] g h = tt
  All-change_at zero f (a ∷ l) g h = (g a h.0, h.1)
  All-change_at (suc n) f (a ∷ l) g h = (h.0, All-change_at n f l g h.1)

module _ {Value S : Type 0} where
  -- All numbers of nodes in a plan are those of nodes that are there.
  abbrev pub IsValid : Plan Value S → Type 0
  IsValid p = Below (length p.nodes) p.done × All (Edges (length p.nodes)) p.nodes

  -- A plan after some steps: it has at least `k` nodes, the rules `stack` are being tried, some targets
  -- are done, and it is valid.
  abbrev pub Keeps : ℕ → List ℕ → List Bytes → Plan Value S → Type 0
  Keeps k stack targets p =
      (k ≤ length p.nodes) × (p.rule_stack ≡ stack) × AllDone p.done targets × IsValid p

  -- The same of the plan that a step gives, and a property of its answer.
  abbrev pub After :
      {A : Type 0}
      → ℕ
      → List ℕ
      → List Bytes
      → (A → Plan Value S → Type 0)
      → Planned Value S A
      → Type 0
  After k stack targets Q (planned a p) = Keeps k stack targets p × Q a p
  After k stack targets Q (stopped e) = Unit {0}
  After k stack targets Q aborted = Unit {0}

  pub and_then-After :
      {A B : Type 0} (k : ℕ) (stack : List ℕ) (targets : List Bytes) (r : Planned Value S A)
      (g : A → Plan Value S → Planned Value S B) (Q : A → Plan Value S → Type 0)
      (R : B → Plan Value S → Type 0) (j : ℕ) (stack' : List ℕ) (targets' : List Bytes)
      → After k stack targets Q r
      → ((a : A) (p : Plan Value S)
          → Keeps k stack targets p
          → Q a p
          → After j stack' targets' R (g a p))
      → After j stack' targets' R (and_then r g)
  and_then-After k stack targets (planned a p) g Q R j stack' targets' h f = f a p h.0 h.1
  and_then-After k stack targets (stopped e) g Q R j stack' targets' h f = tt
  and_then-After k stack targets aborted g Q R j stack' targets' h f = tt

  pub set_done-Keeps :
      (k : ℕ) (stack : List ℕ) (targets : List Bytes) (name : Bytes) (n : ℕ) (p : Plan Value S)
      → n < length p.nodes
      → Keeps k stack targets p
      → Keeps k stack (name ∷ targets) (set_done name n p)
  set_done-Keeps k stack targets name n p lt h = (
    h.0,
    h.1,
    (find_in-stored name n p.done, kept targets h.2),
    (Below-store_in (length p.nodes) name n p.done lt h.3.0, h.3.1),
  )
    where
      kept : (ts : List Bytes) → AllDone p.done ts → AllDone (store_in name n p.done) ts
      kept [] g = tt
      kept (t ∷ ts) g = (find_in-store_in t name n p.done g.0, kept ts g.1)

  pub change_node-Keeps :
      (k : ℕ) (stack : List ℕ) (targets : List Bytes) (n : ℕ) (f : DepNode Value → DepNode Value)
      (p : Plan Value S)
      → ((m : DepNode Value) → Edges (length p.nodes) m → Edges (length p.nodes) (f m))
      → Keeps k stack targets p
      → Keeps k stack targets (change_node n f p)
  change_node-Keeps k stack targets n f p g h =
      let e = length-change_at (Edges (length p.nodes)) n f p.nodes in
      (
        (omega (arith, e)),
        h.1,
        h.2,
        (
          Below-le (length p.nodes) (length (change_at n f p.nodes)) p.done (omega (arith, e))
              h.3.0,
          All-Edges_le (length p.nodes) (length (change_at n f p.nodes)) (change_at n f p.nodes)
              (omega (arith, e)) (All-change_at (Edges (length p.nodes)) n f p.nodes g h.3.1),
        ),
      )

  pub push_node-Keeps :
      (stack : List ℕ) (targets : List Bytes) (n : DepNode Value) (p : Plan Value S) (k : ℕ)
      → Edges (length p.nodes) n
      → Keeps k stack targets p
      → Keeps (suc (length p.nodes)) stack targets (push_node n p)
  push_node-Keeps stack targets n p k e h =
      let l = length-append p.nodes (n ∷ []) in
      let K = length (p.nodes ++ n ∷ []) in
      (
        (omega (arith, l)),
        h.1,
        h.2,
        (
          Below-le (length p.nodes) K p.done (omega (arith, l)) h.3.0,
          All-Edges_le (length p.nodes) K (p.nodes ++ n ∷ []) (omega (arith, l))
              (All-append (Edges (length p.nodes)) p.nodes (n ∷ []) h.3.1 (e, tt)),
        ),
      )

  -- More may be asked of the answer, and less of the plan.
  pub After-weaken :
      {A : Type 0} (j k : ℕ) (stack : List ℕ) (targets targets' : List Bytes)
      (r : Planned Value S A) (Q R : A → Plan Value S → Type 0)
      → ((a : A) (p : Plan Value S)
          → Keeps k stack targets p
          → Q a p
          → Keeps j stack targets' p × R a p)
      → After k stack targets Q r
      → After j stack targets' R r
  After-weaken j k stack targets targets' (planned a p) Q R g h = g a p h.0 h.1
  After-weaken j k stack targets targets' (stopped e) Q R g h = tt
  After-weaken j k stack targets targets' aborted Q R g h = tt
