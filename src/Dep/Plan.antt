-- ===== src/Dep/Plan.antt =====
-- The building of the plan by `DepBuilder` of src/dep.cc, with `FillDepNode` of `RuleMerger`. Nodes are
-- numbered in the order in which they are made, and a pointer to a node is its number. The table of
-- rules does not change here. The evaluation of texts and variables and the file system are parameters
-- (`Outside`); frames, logs and the warnings that flags ask for are left out, and no flag makes one an
-- error. `aborted` stands for a `CHECK` that fails and for a recursion or a substitution that runs out
-- of fuel.
pub mod Node
pub mod Choose
pub mod Build
pub mod Keeps
pub mod Fill
pub mod Pick
pub mod Entered
pub mod Valid
use kati.Prelude.{
  ℕ, zero, suc, ◌+◌, Bool, true, false, not, ◌&&◌, ◌||◌, Option, none, some, List, [], ◌∷◌, ◌++◌,
  Bytes, length, drop, get_elem?, if◌then◌else◌, ◌==◌, codes, text_eq,
}
use mathlib.Core.List.{reverse}
use kati.Piece.{get}
use kati.Strutil.Path.{dot, get_ext}
use kati.Strutil.Pattern.{Pattern, pattern_of, match, subst_pattern}
use kati.Rule.{Loc, Rule, parse_inputs, apply_pattern}
use kati.Var.{
  Var, simple_var, undefined_variable, is_defined, find_var, peek, put, erase, scoped_leave,
}
use kati.Eval.{AssignOp}
use kati.Dep.Trie.{Trie, get_rules}
use kati.Dep.Merge.{RuleMerger, new_merger, apply_output_pattern, replace_suffix}
use kati.Dep.Populate.{Builder, one_of, find_in, store_in, suffixes_of}

-- A variable of a rule, with its operator.
pub record RuleVar (Value : Type 0) : Type 0 where
  pub op : AssignOp
  pub var : Var Value

-- `DepNode`.
pub record DepNode (Value : Type 0) : Type 0 where
  pub output : Bytes
  pub cmds : List Value
  pub deps : List (Bytes × ℕ)
  pub order_onlys : List (Bytes × ℕ)
  pub validations : List (Bytes × ℕ)
  pub has_rule : Bool
  pub is_default_target : Bool
  pub is_phony : Bool
  pub is_restat : Bool
  pub implicit_outputs : List Bytes
  pub symlink_outputs : List Bytes
  pub actual_inputs : List Bytes
  pub actual_order_only_inputs : List Bytes
  pub actual_validations : List Bytes
  pub rule_vars : Option (List (Bytes × Var Value))
  pub depfile_var : Option (Var Value)
  pub ninja_pool_var : Option (Var Value)
  pub output_pattern : Option Bytes
  pub loc : Loc

-- What the plan is built from, and what it uses of other parts: `expand` is the evaluation of a text
-- for a node and a scope, and `value_of` that of a variable.
pub record Outside (Value S : Type 0) : Type 0 where
  pub builder : Builder Value
  pub rule_vars : List (Bytes × List (Bytes × RuleVar Value))
  pub generate_ninja : Bool
  pub use_ninja_validations : Bool
  pub use_ninja_symlink_outputs : Bool
  pub pattern_fuel : ℕ
  pub glob : Bytes → List Bytes
  pub exists : Bytes → Bool
  pub expand : DepNode Value → List (Bytes × Var Value) → Loc → Bytes → S → Bytes × S
  pub value_of : Var Value → List (Bytes × Var Value) → S → Bytes × S
  pub global_var : Bytes → S → Var Value × S

-- What changes while the plan is built; `cur_rule_vars_` is `scope`.
pub record Plan (Value S : Type 0) : Type 0 where
  pub nodes : List (DepNode Value)
  pub done : List (Bytes × ℕ)
  pub scope : List (Bytes × Var Value)
  pub rule_stack : List ℕ
  pub ev : S

pub data Planned (Value S A : Type 0) : Type 0 where
  planned : A → Plan Value S → Planned Value S A
  stopped : Bytes → Planned Value S A
  aborted : Planned Value S A

abbrev pub and_then :
    {Value S A B : Type 0}
    → Planned Value S A
    → (A → Plan Value S → Planned Value S B)
    → Planned Value S B
and_then (planned a p) k = k a p
and_then (stopped e) k = stopped e
and_then aborted k = aborted

module _ {A : Type 0} where
  -- A change of the node with a number.
  unfoldable pub change_at : ℕ → (A → A) → List A → List A
  change_at n f [] = []
  change_at zero f (a ∷ rest) = f a ∷ rest
  change_at (suc n) f (a ∷ rest) = a ∷ change_at n f rest

  -- `MergeImplicitRuleVars` where both have variables: those of the second argument win.
  unfoldable pub merge_vars : List (Bytes × A) → List (Bytes × A) → List (Bytes × A)
  unfolding store_in
  merge_vars found [] = found
  merge_vars found ((name, v) ∷ vars) = merge_vars (store_in name v found) vars

module _ {Value S : Type 0} where
  abbrev pub push_node : DepNode Value → Plan Value S → Plan Value S
  push_node n p = record p { nodes = p.nodes ++ n ∷ [] }

  abbrev pub set_done : Bytes → ℕ → Plan Value S → Plan Value S
  set_done output n p = record p { done = store_in output n p.done }

  abbrev pub change_node : ℕ → (DepNode Value → DepNode Value) → Plan Value S → Plan Value S
  change_node n f p = record p { nodes = change_at n f p.nodes }

-- The answer of `PickRule`: a merger, a pattern rule, the variables, and whether there is a rule.
pub record Picked (Value : Type 0) : Type 0 where
  pub is_rule : Bool
  pub rule_merger : Option (RuleMerger Value)
  pub pattern_rule : Option (Rule Value)
  pub vars : Option (List (Bytes × RuleVar Value))

abbrev pub is_some : {A : Type 0} → Option A → Bool
is_some none = false
is_some (some a) = true

-- `r == primary_rule`.
abbrev pub is_rule : {Value : Type 0} → Option (Rule Value) → Rule Value → Bool
is_rule none r = false
is_rule (some q) r = q.number == r.number

-- `FillDepNodeLoc`.
abbrev pub fill_dep_node_loc : {Value : Type 0} → Rule Value → DepNode Value → DepNode Value
fill_dep_node_loc r n =
    let loc = r.loc in
    record n {
      loc =
          if not (length r.cmds == 0) && not (r.cmd_lineno == 0)
          then record loc { lineno = some r.cmd_lineno }
          else loc;
    }

module _ {Value S : Type 0} (o : Outside Value S) where
  -- `ParseInputs` for a node.
  unfoldable pub parse_for : DepNode Value → Rule Value → Plan Value S → Rule Value × Plan Value S
  unfolding parse_inputs
  parse_for n r p =
      let (r', ev) = parse_inputs o.generate_ninja o.glob (o.expand n p.scope) r p.ev in
      (r', record p { ev = ev })

  -- `DepNode::DepNode`.
  abbrev pub new_node : Bytes → DepNode Value
  new_node output = record {
    output = output;
    cmds = [];
    deps = [];
    order_onlys = [];
    validations = [];
    has_rule = false;
    is_default_target = false;
    is_phony = one_of output o.builder.phony;
    is_restat = one_of output o.builder.restat;
    implicit_outputs = [];
    symlink_outputs = [];
    actual_inputs = [];
    actual_order_only_inputs = [];
    actual_validations = [];
    rule_vars = none;
    depfile_var = none;
    ninja_pool_var = none;
    output_pattern = none;
    loc = record { filename = none; lineno = none };
  }

  -- A node that is there; one that is not, which does not happen, is new.
  abbrev pub node_at : ℕ → Plan Value S → DepNode Value
  node_at n p = elim (get_elem? p.nodes n) [ none ↦ new_node [] | some node ↦ node ]
