-- ===== src/Dep/Populate.antt =====
-- `DepBuilder` of src/dep.cc up to the building of the plan: `PopulateRules` without the variables
-- named `.KATI`, and `HandleSpecialTargets`. The table of rules is a list in the order of the
-- names, as the map is; a pointer to a rule is the rule with its number. Warnings are left out, and
-- no flag makes one an error.
pub mod Kept
pub mod Tables
use kati.Prelude.{
  ℕ, zero, suc, ◌+◌, Bool, true, false, not, ◌&&◌, ◌||◌, Option, none, some, List, [], ◌∷◌, ◌++◌,
  Bytes, length, if◌then◌else◌, ◌==◌, codes, text_eq,
}
use kati.Piece.{substr, find_byte, piece_lt}
use kati.Strutil.Path.{dot}
use kati.Rule.{Loc, Rule, parse_inputs}
use kati.Dep.Trie.{Trie, empty_trie, add}
use kati.Dep.Merge.{
  RuleMerger, Merged, merged, new_merger, add_rule, is_special_target, is_suffix_rule,
}

-- The tables of `DepBuilder`.
pub record Builder (Value : Type 0) : Type 0 where
  pub rules : List (Bytes × RuleMerger Value)
  pub implicit_rules : Trie (Rule Value)
  pub suffix_rules : List (Bytes × List (Rule Value))
  pub first_rule : Option Bytes
  pub phony : List Bytes
  pub restat : List Bytes

-- How a step ends: with the tables, or with an error that ends the program.
pub data Populated (Value : Type 0) : Type 0 where
  populated : Builder Value → Populated Value
  stopped : Bytes → Populated Value

abbrev pub one_of : Bytes → List Bytes → Bool
one_of s [] = false
one_of s (t ∷ ts) = text_eq t s || one_of s ts

-- `IsIgnorableImplicitRule`.
unfoldable pub is_ignorable_implicit_rule : {Value : Type 0} → Rule Value → Bool
is_ignorable_implicit_rule rule = elim rule.inputs [
  | [] ↦ false
  | i ∷ is ↦
      length is == 0
      && length rule.order_only_inputs == 0
      && length rule.cmds == 0
      && one_of i
          (codes "RCS/%,v" ∷ codes "RCS/%" ∷ codes "%,v" ∷ codes "s.%" ∷ codes "SCCS/s.%" ∷ [])
]

-- The place behind a byte that was found; npos and 1 are 0.
abbrev pub behind : Option ℕ → ℕ
behind none = 0
behind (some i) = i + 1

-- The first rule, after one more output.
abbrev pub first_of : Option Bytes → Bytes → Option Bytes
first_of (some t) output = some t
first_of none output = if is_special_target output then none else some output

module _ {A : Type 0} where
  -- The search in a table.
  unfoldable pub find_in : Bytes → List (Bytes × A) → Option A
  find_in name [] = none
  find_in name ((n, a) ∷ table) = if text_eq n name then some a else find_in name table

  -- A store in a table that keeps the order of the names.
  unfoldable pub store_in : Bytes → A → List (Bytes × A) → List (Bytes × A)
  unfolding piece_lt
  store_in name a [] = (name, a) ∷ []
  store_in name a ((n, b) ∷ table) =
      let later = (n, b) ∷ store_in name a table in
      if text_eq n name
      then (n, a) ∷ table
      else if piece_lt name n
      then (name, a) ∷ (n, b) ∷ table
      else later

module _ {Value : Type 0} where
  abbrev pub new_builder : Builder Value
  new_builder = record {
    rules = [];
    implicit_rules = empty_trie;
    suffix_rules = [];
    first_rule = none;
    phony = [];
    restat = [];
  }

  -- The loop of `PopulateImplicitRule`.
  unfoldable pub add_patterns : Rule Value → List Bytes → Builder Value → Builder Value
  unfolding is_ignorable_implicit_rule add
  add_patterns rule [] b = b
  add_patterns rule (p ∷ ps) b = add_patterns rule ps (
      if not (text_eq p (codes "%")) || not (is_ignorable_implicit_rule rule)
      then record b { implicit_rules = add p rule b.implicit_rules }
      else b)

  abbrev pub suffixes_of : Option (List (Rule Value)) → List (Rule Value)
  suffixes_of none = []
  suffixes_of (some rs) = rs

  -- `PopulateSuffixRule`; the new rule stands in front, since the lists are reversed at the end.
  unfoldable pub populate_suffix_rule : Rule Value → Bytes → Builder Value → Builder Value
  unfolding is_suffix_rule substr find_byte find_in store_in
  populate_suffix_rule rule output b =
      let rest = substr output 1 none in
      let dot_index = find_byte rest dot 0 in
      let output_suffix = substr rest (behind dot_index) none in
      let r = record rule { inputs = substr rest 0 dot_index ∷ []; is_suffix_rule = true } in
      if not (is_suffix_rule output) then b else record b {
        suffix_rules =
            store_in output_suffix (r ∷ suffixes_of (find_in output_suffix b.suffix_rules))
              b.suffix_rules;
      }

  -- `rules_[output]`.
  unfoldable pub merger_of : Bytes → List (Bytes × RuleMerger Value) → RuleMerger Value
  unfolding find_in
  merger_of output rules = elim (find_in output rules) [ none ↦ new_merger | some m ↦ m ]

  -- The loop of `PopulateExplicitRule`.
  unfoldable pub add_outputs : Bool → Rule Value → List Bytes → Builder Value → Populated Value
  unfolding is_special_target add_rule merger_of store_in populate_suffix_rule
  add_outputs werror rule [] b = populated b
  add_outputs werror rule (output ∷ outputs) b =
      elim (add_rule werror output rule (merger_of output b.rules)) [
        | Merged.stopped e ↦ stopped e
        | merged m warnings ↦ add_outputs werror rule outputs (
            populate_suffix_rule rule output (record b {
              rules = store_in output m b.rules;
              first_rule = first_of b.first_rule output;
            }))
      ]

  -- The first loop of `PopulateRules`.
  unfoldable pub populate_rules : Bool → List (Rule Value) → Builder Value → Populated Value
  unfolding add_patterns add_outputs
  populate_rules werror [] b = populated b
  populate_rules werror (rule ∷ rules) b = elim (length rule.outputs == 0) [
    | true ↦ populate_rules werror rules (add_patterns rule rule.output_patterns b)
    | false ↦ elim (add_outputs werror rule rule.outputs b) [
      | stopped e ↦ stopped e
      | populated b' ↦ populate_rules werror rules b'
    ]
  ]

  module _ {S : Type 0} (parse : Rule Value → S → Rule Value × S) where
    -- The inputs of the rules, each parsed on a copy.
    unfoldable pub inputs_of : List (Rule Value) → S → List Bytes × S
    inputs_of [] st = ([], st)
    inputs_of (rule ∷ rules) st =
        let (r, st') = parse rule st in
        let (inputs, st'') = inputs_of rules st' in (r.inputs ++ inputs, st'')

    -- `GetRuleInputs`; `none` where there is no rule.
    unfoldable pub get_rule_inputs : Bytes → Builder Value → S → Option (List Bytes) × S
    unfolding find_in inputs_of
    get_rule_inputs s b st = elim (find_in s b.rules) [
      | none ↦ (none, st)
      | some m ↦ let (o, st') = inputs_of m.rules st in (some o, st')
    ]

    abbrev pub targets_of : Option (List Bytes) → List Bytes
    targets_of none = []
    targets_of (some ts) = ts

    -- `HandleSpecialTargets`, without the targets that are only warned of.
    unfoldable pub handle_special_targets : Builder Value → S → Builder Value × S
    unfolding get_rule_inputs
    handle_special_targets b st =
        let (phony, st1) = get_rule_inputs (codes ".PHONY") b st in
        let (restat, st2) = get_rule_inputs (codes ".KATI_RESTAT") b st1 in
        let (suffixes, st3) = get_rule_inputs (codes ".SUFFIXES") b st2 in
        let b' = record b {
          phony = b.phony ++ targets_of phony;
          restat = b.restat ++ targets_of restat;
        } in
        (
          elim suffixes [
            | none ↦ b'
            | some [] ↦ record b' { suffix_rules = [] }
            | some (t ∷ ts) ↦ b'
          ],
          st3,
        )
