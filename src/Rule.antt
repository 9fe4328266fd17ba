-- ===== src/Rule.antt =====
-- The class `Rule` of src/rule.h and src/rule.cc. A symbol is the text that it stands for. The values
-- of the commands are a parameter, and so is what the file system has for a pattern of names.
pub mod Inputs
pub mod Prerequisites
use kati.Prelude.{
  ℕ, zero, suc, ◌+◌, Bool, true, false, not, ◌&&◌, ◌||◌, Option, none, some, List, [], ◌∷◌, ◌++◌,
  Bytes, length, drop, get_elem?, ltb, leb, ◌==◌, if◌then◌else◌, ◌>>=◌, codes, text_eq, map,
}
use kati.Piece.{get, substr, find_byte}
use kati.Strutil.Words.{words}
use kati.Strutil.Trim.{trim_left_space, trim_leading_curdir}
use kati.Strutil.Pattern.{percent, Pattern, pattern_of, match, subst_pattern}

-- `Loc` of src/loc.h; a line number of -1 is `none`.
pub record Loc : Type 0 where
  pub filename : Option Bytes
  pub lineno : Option ℕ

-- A rule, with its number: the place among the rules that were read. Two pointers to rules that were
-- read are equal if the numbers are.
pub record Rule (Value : Type 0) : Type 0 where
  pub number : ℕ
  pub outputs : List Bytes
  pub inputs : List Bytes
  pub order_only_inputs : List Bytes
  pub output_patterns : List Bytes
  pub validations : List Bytes
  pub is_double_colon : Bool
  pub is_suffix_rule : Bool
  pub second_expansion : Bool
  pub parsed_inputs : Bool
  pub cmds : List Value
  pub loc : Loc
  pub cmd_lineno : ℕ
  pub prereq_string : Bytes

-- `IsPatternRule`.
unfoldable pub is_pattern_rule : Bytes → Bool
unfolding find_byte
is_pattern_rule target = elim (find_byte target percent 0) [ none ↦ false | some i ↦ true ]

-- The names for one word: what the file system has for it, or the word itself.
unfoldable pub input_files : Bool → (Bytes → List Bytes) → Bytes → List Bytes
input_files generate_ninja glob input =
    let found = if generate_ninja then [] else glob input in
    if length found == 0 then input ∷ [] else found

module _ {Value : Type 0} where
  -- `push_back` to one of the two lists of inputs.
  abbrev pub push_input : Bool → Bytes → Rule Value → Rule Value
  push_input true sym r = record r { order_only_inputs = r.order_only_inputs ++ sym ∷ [] }
  push_input false sym r = record r { inputs = r.inputs ++ sym ∷ [] }

  unfoldable pub push_inputs : Bool → List Bytes → Rule Value → Rule Value
  unfolding trim_leading_curdir
  push_inputs order_only [] r = r
  push_inputs order_only (f ∷ files) r =
      push_inputs order_only files (push_input order_only (trim_leading_curdir f) r)

  -- The loop of `ParseInputs(StringPiece)`.
  unfoldable pub input_words :
      Bool → (Bytes → List Bytes) → Bool → List Bytes → Rule Value → Rule Value
  unfolding push_inputs input_files
  input_words ninja glob order_only [] r = r
  input_words ninja glob order_only (input ∷ toks) r =
      let switched = input_words ninja glob true toks r in
      let pushed =
        input_words ninja glob order_only toks
          (push_inputs order_only (input_files ninja glob input) r) in
      if text_eq input (codes "|") then switched else pushed

  -- `ParseInputs(StringPiece)`.
  unfoldable pub parse_inputs_text : Bool → (Bytes → List Bytes) → Bytes → Rule Value → Rule Value
  unfolding words input_words
  parse_inputs_text ninja glob inputs_str r =
      record (input_words ninja glob false (words inputs_str) r) { parsed_inputs = true }

  -- `ParseInputs(Evaluator*)`; `expand` parses and evaluates a text, at a place and in a state.
  unfoldable pub parse_inputs :
      {S : Type 0}
      → Bool
      → (Bytes → List Bytes)
      → (Loc → Bytes → S → Bytes × S)
      → Rule Value
      → S
      → Rule Value × S
  unfolding parse_inputs_text
  parse_inputs ninja glob expand r st =
      let (text, st') = expand r.loc r.prereq_string st in
      let expanded = parse_inputs_text ninja glob text (record r { prereq_string = text }) in
      let plain = parse_inputs_text ninja glob r.prereq_string r in
      if r.parsed_inputs
      then (r, st)
      else if r.second_expansion
      then (expanded, st')
      else (plain, st)

  -- `ApplyPattern`; `none` where the substitution runs out of fuel.
  unfoldable pub apply_pattern : ℕ → Pattern → Bytes → Rule Value → Option (Rule Value)
  unfolding subst_pattern
  apply_pattern fuel pat output r = do
    buf ← subst_pattern fuel pat output r.prereq_string
    some (record r { prereq_string = buf; parsed_inputs = false })

-- The separators of a `RuleStmt`.
pub data Separator : Type 0 where
  sep_null : Separator
  sep_semicolon : Separator
  sep_eq : Separator
  sep_finaleq : Separator

-- How `ParsePrerequisites` ends: with the rule and the number of warnings, or with an error that ends
-- the program.
pub data Parsed (Value : Type 0) : Type 0 where
  parsed : Rule Value → ℕ → Parsed Value
  stopped : Bytes → Parsed Value

module _ {Value : Type 0} (literal : Bytes → Value) where
  -- The command behind a semicolon is cut off; `none` where a `CHECK` fails.
  unfoldable pub split_command : Bytes → Option ℕ → Separator → Rule Value → Option (Rule Value)
  unfolding substr trim_left_space
  split_command line none sep r = some (record r { prereq_string = line })
  split_command line (some pos) Separator.sep_semicolon r = some (record r { prereq_string = line })
  split_command line (some pos) sep r =
      if get line pos == b';'
      then some (record r {
        cmds = r.cmds ++ literal (trim_left_space (substr line (pos + 1) none)) ∷ [];
        prereq_string = substr line 0 (some pos);
      })
      else none

  -- How many outputs do not match a target pattern.
  unfoldable pub mismatches : Bytes → List Bytes → ℕ
  unfolding match pattern_of
  mismatches target_pattern [] = 0
  mismatches target_pattern (target ∷ targets) =
      let rest = mismatches target_pattern targets in
      if match (pattern_of target_pattern) target then rest else suc rest

  -- The loop over the target patterns.
  unfoldable pub target_patterns : List Bytes → Rule Value → ℕ → Rule Value × ℕ
  unfolding mismatches trim_leading_curdir
  target_patterns [] r warnings = (r, warnings)
  target_patterns (t ∷ ts) r warnings =
      let target_pattern = trim_leading_curdir t in
      target_patterns ts (record r { output_patterns = r.output_patterns ++ target_pattern ∷ [] })
        (warnings + mismatches target_pattern r.outputs)

  -- The last tests.
  unfoldable pub check_patterns : Rule Value → ℕ → Parsed Value
  unfolding is_pattern_rule
  check_patterns r warnings = elim r.output_patterns [
    | [] ↦ stopped (codes "*** missing target pattern.")
    | p ∷ [] ↦
        if is_pattern_rule p
        then parsed r warnings
        else stopped (codes "*** target pattern contains no '%'.")
    | p ∷ q ∷ ps ↦ stopped (codes "*** multiple target patterns.")
  ]

  -- The text behind the colon is what is left.
  unfoldable pub finish_static : ℕ → Rule Value × ℕ → Parsed Value
  unfolding substr check_patterns
  finish_static pos (r, warnings) =
      check_patterns (record r { prereq_string = substr r.prereq_string (pos + 1) none }) warnings

  -- From the search for a colon on.
  unfoldable pub parse_static : Rule Value → Parsed Value
  unfolding find_byte substr words target_patterns finish_static
  parse_static r = elim (find_byte r.prereq_string b':' 0) [
    | none ↦ parsed r 0
    | some pos ↦
        if not (length r.output_patterns == 0)
        then stopped (codes "*** mixed implicit and normal rules: deprecated syntax")
        else if length r.outputs == 0
        then parsed r 0
        else finish_static pos (target_patterns (words (substr r.prereq_string 0 (some pos))) r 0)
  ]

  -- `ParsePrerequisites`.
  unfoldable pub parse_prerequisites : Bytes → Option ℕ → Separator → Rule Value → Parsed Value
  unfolding split_command parse_static
  parse_prerequisites line separator_pos sep r = elim (split_command line separator_pos sep r) [
    | none ↦ stopped (codes "CHECK failed")
    | some r' ↦ parse_static r'
  ]
