-- ===== src/Examples/Dep.antt =====
-- src/dep.cc and src/rule.cc at concrete inputs.
use kati.Prelude.{ℕ, ◌≡◌, refl, true, false, none, some, List, [], ◌∷◌, Bytes, codes, length}
use kati.Strutil.Words.{words}
use kati.Rule.{Rule, Separator, parse_inputs_text, parse_prerequisites}
use kati.Rule.Inputs.{before_bar, behind_bar, prerequisites, extend, parse_inputs_text-split}
use kati.Rule.Prerequisites.{KeepsOrStatic, parse_prerequisites-KeepsOrStatic}
use kati.Dep.Trie.{empty_trie, get_rules, add_all}
use kati.Dep.Trie.Lookup.{levels, get_rules-levels}
use kati.Dep.Merge.{merged, new_merger, add_rules}
use kati.Dep.Merge.Primary.{pick, keeps_first, add_rules-pick}

-- A rule for `x.o` with a command.
abbrev pub rule_of : List Bytes → Rule Bytes
rule_of cmds = record {
  outputs = codes "x.o" ∷ [];
  inputs = [];
  order_only_inputs = [];
  output_patterns = [];
  validations = [];
  is_double_colon = false;
  is_suffix_rule = false;
  second_expansion = false;
  parsed_inputs = false;
  cmds = cmds;
  loc = record { filename = none; lineno = none };
  cmd_lineno = 0;
  prereq_string = [];
  number = 0;
}

abbrev pattern_rules : List (Bytes × Bytes)
pattern_rules = (codes "a.%", codes "first") ∷ (codes "%.o", codes "second") ∷ []

get_rules_example :
    get_rules (codes "a.o") (add_all pattern_rules empty_trie)
    ≡ levels (length (codes "a.o")) 0 (codes "a.o") pattern_rules
get_rules_example = get_rules-levels (codes "a.o") pattern_rules

parse_inputs_example :
    parse_inputs_text true (λ _. []) (codes "./a | b") (rule_of [])
    ≡ record (extend
        (prerequisites true (λ _. []) (before_bar (words (codes "./a | b"))))
        (prerequisites true (λ _. []) (behind_bar (words (codes "./a | b"))))
        (rule_of [])) { parsed_inputs = true }
parse_inputs_example = parse_inputs_text-split true (λ _. []) (codes "./a | b") (rule_of [])

parse_prerequisites_example :
    KeepsOrStatic
      (λ s. s)
      []
      (parse_prerequisites
        (λ s. s)
        (codes "%.o: %.c ; cc")
        (some 9)
        Separator.sep_null
        (rule_of []))
parse_prerequisites_example =
    parse_prerequisites-KeepsOrStatic (λ s. s) (codes "%.o: %.c ; cc") (some 9) Separator.sep_null
      (rule_of [])

add_rules_example :
    (k : ℕ) × (add_rules false
        (codes "x.o")
        (rule_of (codes "cc" ∷ []) ∷ rule_of (codes "ld" ∷ []) ∷ [])
        new_merger
        0
      ≡ merged
          (record new_merger {
            rules = rule_of (codes "cc" ∷ []) ∷ rule_of (codes "ld" ∷ []) ∷ [];
            primary_rule =
                pick
                  (keeps_first (codes "x.o") false)
                  none
                  (rule_of (codes "cc" ∷ []) ∷ rule_of (codes "ld" ∷ []) ∷ []);
            is_double_colon = false;
          })
          k)
add_rules_example =
    add_rules-pick (codes "x.o") false (rule_of (codes "cc" ∷ [])) (rule_of (codes "ld" ∷ []) ∷ [])
      (refl, (refl, tt))
