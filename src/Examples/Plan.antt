-- ===== src/Examples/Plan.antt =====
-- `DepBuilder` of src/dep.cc at concrete inputs.
use kati.Prelude.{
  ℕ, ◌≡◌, ◌<◌, refl, true, false, none, some, List, [], ◌∷◌, Bytes, codes, length, arith, Option,
}
use kati.Piece.{index_of}
use kati.Rule.{Rule}
use kati.Var.{Var}
use kati.Dep.Trie.{empty_trie, add_all}
use kati.Dep.Merge.{merged, new_merger, add_rules}
use kati.Dep.Populate.{Builder, new_builder, populated, populate_rules, merger_of}
use kati.Dep.Populate.Tables.{rules_for, populate_rules-add_rules}
use kati.Dep.Plan.{Outside, Plan, planned, Planned}
use kati.Dep.Plan.Build.{build_plan}
use kati.Dep.Plan.Keeps.{After}
use kati.Dep.Plan.Valid.{build_plan-IsValid}
use kati.Examples.Dep.{rule_of}

-- `x.o: ; cc`, with a second rule for the same target, and `y: ; cc`.
abbrev rules : List (Rule Bytes)
rules =
    rule_of (codes "cc" ∷ [])
    ∷ record (rule_of (codes "cc" ∷ [])) { outputs = codes "y" ∷ []; number = 1 }
    ∷ record (rule_of []) { inputs = codes "y" ∷ []; parsed_inputs = true; number = 2 }
    ∷ []

abbrev tables : Builder Bytes
tables = record new_builder {
  rules =
      (
        codes "x.o",
        record new_merger {
          rules =
              rule_of (codes "cc" ∷ [])
              ∷ record (rule_of []) { inputs = codes "y" ∷ []; parsed_inputs = true; number = 2 }
              ∷ [];
          primary_rule = some (rule_of (codes "cc" ∷ []));
        },
      )
      ∷ (
        codes "y",
        record new_merger {
          rules = record (rule_of (codes "cc" ∷ [])) { outputs = codes "y" ∷ []; number = 1 } ∷ [];
          primary_rule =
              some (record (rule_of (codes "cc" ∷ [])) { outputs = codes "y" ∷ []; number = 1 });
        },
      )
      ∷ [];
  first_rule = some (codes "x.o");
}

populates : populate_rules false rules new_builder ≡ populated tables
unfolding populate_rules
populates = refl

populate_rules-add_rules_example :
    (k : ℕ) × (add_rules false (codes "x.o") (rules_for (codes "x.o") rules) new_merger 0
      ≡ merged (merger_of (codes "x.o") tables.rules) k)
populate_rules-add_rules_example =
    populate_rules-add_rules false rules (codes "x.o") tables populates

-- Texts evaluate to themselves, no file is there, and no variable is set.
abbrev outside : Builder Bytes → Outside Bytes ℕ
outside builder = record {
  builder = builder;
  rule_vars = [];
  generate_ninja = true;
  use_ninja_validations = false;
  use_ninja_symlink_outputs = false;
  pattern_fuel = 9;
  glob = λ s. [];
  exists = λ s. false;
  expand = λ n scope loc s ev. (s, ev);
  value_of = λ v scope ev. ([], ev);
  global_var = λ name ev. (kati.Var.undefined_variable, ev);
}

abbrev nothing_built : Plan Bytes ℕ
nothing_built = record { nodes = []; done = []; scope = []; rule_stack = []; ev = 0 }

build_plan-IsValid_example :
    After 0 []
      (codes "x.o" ∷ [])
      (λ n p. n < length p.nodes)
      (build_plan (outside tables) 9 (codes "x.o") nothing_built)
build_plan-IsValid_example =
    build_plan-IsValid (outside tables) 9 0 [] [] (codes "x.o") nothing_built
      ((omega arith), refl, tt, (tt, tt))

-- The numbers of the nodes, and the edges of the first.
abbrev summary : Planned Bytes ℕ ℕ → Option (ℕ × List (Bytes × ℕ))
summary (planned n p) = some (n, p.done)
summary _ = none

builds :
    summary (build_plan (outside tables) 9 (codes "x.o") nothing_built)
    ≡ some (0, (codes "x.o", 0) ∷ (codes "y", 1) ∷ [])
unfolding build_plan add_all index_of
builds = refl

-- The target `x.o` with the implicit output `i.y`, for which there is a pattern rule too.
abbrev with_implicit_output : Builder Bytes
with_implicit_output = record new_builder {
  rules =
      (codes "i.y", record new_merger { parent = some (codes "x.o") })
      ∷ (
        codes "x.o",
        record new_merger {
          rules = rule_of (codes "cc" ∷ []) ∷ [];
          primary_rule = some (rule_of (codes "cc" ∷ []));
          implicit_outputs = codes "i.y" ∷ [];
        },
      )
      ∷ [];
  implicit_rules =
      add_all
        ((
          codes "%.y",
          record (rule_of (codes "cc" ∷ [])) {
            outputs = [];
            output_patterns = codes "%.y" ∷ [];
            number = 3;
          },
        )
          ∷ [])
        empty_trie;
}

-- Asked for by the implicit output, the plan ends with the `CHECK` of `FillDepNode`; asked for by the
-- target, it does not.
implicit_output_aborts :
    summary (build_plan (outside with_implicit_output) 9 (codes "i.y") nothing_built) ≡ none
unfolding build_plan add_all index_of
implicit_output_aborts = refl

implicit_output_builds :
    summary (build_plan (outside with_implicit_output) 9 (codes "x.o") nothing_built)
    ≡ some (0, (codes "i.y", 0) ∷ (codes "x.o", 0) ∷ [])
unfolding build_plan add_all index_of
implicit_output_builds = refl
