-- ===== src/Dep/Merge.antt =====
-- `IsSpecialTarget`, `IsSuffixRule`, `ReplaceSuffix`, `ApplyOutputPattern` and the struct `RuleMerger`
-- of src/dep.cc. A pointer to a merger is the name under which the table of rules has it.
pub mod Primary
use kati.Prelude.{
  ℕ, zero, suc, ◌+◌, Bool, true, false, not, ◌&&◌, ◌||◌, Option, none, some, List, [], ◌∷◌, ◌++◌,
  Bytes, length, ◌==◌, if◌then◌else◌, ◌>>=◌, codes,
}
use kati.Piece.{get, substr, find_byte}
use kati.Strutil.Path.{dot, strip_ext}
use kati.Strutil.Pattern.{Pattern, pattern_of, subst_pattern}
use kati.Rule.{Rule}

-- `IsSpecialTarget`.
unfoldable pub is_special_target : Bytes → Bool
is_special_target output = get output 0 == dot && not (get output 1 == dot)

-- `IsSuffixRule`: two dots, the first of them at the start.
unfoldable pub is_suffix_rule : Bytes → Bool
unfolding is_special_target substr find_byte
is_suffix_rule output =
    let rest = substr output 1 none in
    if length output == 0 || not (is_special_target output)
    then false
    else (elim (find_byte rest dot 0) [
      | none ↦ false
      | some dot_index ↦ elim (find_byte (substr rest (dot_index + 1) none) dot 0) [
        | none ↦ true
        | some i ↦ false
      ]
    ])

-- `ReplaceSuffix`.
unfoldable pub replace_suffix : Bytes → Bytes → Bytes
unfolding strip_ext
replace_suffix s newsuf = strip_ext s ++ (dot ∷ newsuf)

unfoldable pub replace_suffixes : Bytes → List Bytes → List Bytes → List Bytes
unfolding replace_suffix
replace_suffixes output [] out_inputs = out_inputs
replace_suffixes output (input ∷ inputs) out_inputs =
    replace_suffixes output inputs (out_inputs ++ replace_suffix output input ∷ [])

unfoldable pub subst_inputs : ℕ → Pattern → Bytes → List Bytes → List Bytes → Option (List Bytes)
unfolding subst_pattern
subst_inputs fuel pat output [] out_inputs = some out_inputs
subst_inputs fuel pat output (input ∷ inputs) out_inputs = do
  buf ← subst_pattern fuel pat output input
  subst_inputs fuel pat output inputs (out_inputs ++ buf ∷ [])

module _ {Value : Type 0} where
  -- `ApplyOutputPattern`; `none` where a substitution runs out of fuel or the `CHECK` fails.
  unfoldable pub apply_output_pattern :
      ℕ → Rule Value → Bytes → List Bytes → List Bytes → Option (List Bytes)
  unfolding replace_suffixes subst_inputs pattern_of
  apply_output_pattern fuel r output inputs out_inputs =
      if length inputs == 0
      then some out_inputs
      else if r.is_suffix_rule
      then some (replace_suffixes output inputs out_inputs)
      else (elim r.output_patterns [
        | [] ↦ some (out_inputs ++ inputs)
        | p ∷ [] ↦ subst_inputs fuel (pattern_of p) output inputs out_inputs
        | p ∷ q ∷ ps ↦ none
      ])

-- `RuleMerger`.
pub record RuleMerger (Value : Type 0) : Type 0 where
  pub rules : List (Rule Value)
  pub implicit_outputs : List Bytes
  pub symlink_outputs : List Bytes
  pub validations : List Bytes
  pub primary_rule : Option (Rule Value)
  pub parent : Option Bytes
  pub is_double_colon : Bool

-- How a change of a merger ends: with the merger and the number of warnings, or with an error, whose
-- message is kept without the places in makefiles.
pub data Merged (Value : Type 0) : Type 0 where
  merged : RuleMerger Value → ℕ → Merged Value
  stopped : Bytes → Merged Value

module _ {Value : Type 0} where
  abbrev pub new_merger : RuleMerger Value
  new_merger = record {
    rules = [];
    implicit_outputs = [];
    symlink_outputs = [];
    validations = [];
    primary_rule = none;
    parent = none;
    is_double_colon = false;
  }

  abbrev pub add_implicit_output : Bytes → RuleMerger Value → RuleMerger Value
  add_implicit_output output m = record m { implicit_outputs = m.implicit_outputs ++ output ∷ [] }

  abbrev pub add_symlink_output : Bytes → RuleMerger Value → RuleMerger Value
  add_symlink_output output m = record m { symlink_outputs = m.symlink_outputs ++ output ∷ [] }

  abbrev pub add_validation : Bytes → RuleMerger Value → RuleMerger Value
  add_validation validation m = record m { validations = m.validations ++ validation ∷ [] }

  -- `SetImplicitOutput`, with the merger of the target `p`.
  unfoldable pub set_implicit_output :
      Bytes → Bytes → RuleMerger Value → RuleMerger Value → Merged Value
  set_implicit_output output p merger m = elim merger.primary_rule [
    | none ↦ stopped (
        codes "*** implicit output `"
        ++ (output ++ (codes "' on phony target `" ++ (p ++ codes "'"))))
    | some r ↦ elim m.parent [
      | some q ↦ stopped (
          codes "*** implicit output `"
          ++ (output
              ++ (codes "' of `"
                  ++ (p ++ (codes "' was already defined by `" ++ (q ++ codes "'"))))))
      | none ↦ elim m.primary_rule [
        | some r' ↦
            stopped (codes "*** implicit output `" ++ (output ++ codes "' may not have commands"))
        | none ↦ merged (record m { parent = some p }) 0
      ]
    ]
  ]

  abbrev pub has_cmds : Rule Value → Bool
  has_cmds r = not (length r.cmds == 0)

  -- The primary rule that `AddRule` leaves, and the number of warnings; `none` for the error under
  -- `--werror_overriding_commands`.
  unfoldable pub choose_primary :
      Bool → Bytes → Option (Rule Value) → Rule Value → Option (Option (Rule Value) × ℕ)
  unfolding is_suffix_rule
  choose_primary werror output none r = some (if has_cmds r then some r else none, 0)
  choose_primary werror output (some primary) r =
      if has_cmds r && not (is_suffix_rule output) && not r.is_double_colon
      then (if werror then none else some (some r, 2))
      else some (some primary, 0)

  -- Whether the rule fits the colons of the others; the first rule decides.
  abbrev pub colons_agree : RuleMerger Value → Rule Value → Bool
  colons_agree m r =
      length m.rules == 0
      || (if m.is_double_colon then r.is_double_colon else not r.is_double_colon)

  -- `AddRule`.
  unfoldable pub add_rule : Bool → Bytes → Rule Value → RuleMerger Value → Merged Value
  unfolding choose_primary
  add_rule werror output r m =
      if colons_agree m r
      then (elim (choose_primary werror output m.primary_rule r) [
        | none ↦ stopped (
            codes "*** overriding commands for target `"
            ++ (output ++ codes "', previously defined"))
        | some (primary, warnings) ↦
            merged
              (record m {
                rules = m.rules ++ r ∷ [];
                primary_rule = primary;
                is_double_colon =
                    if length m.rules == 0 then r.is_double_colon else m.is_double_colon;
              })
              warnings
      ])
      else stopped (codes "*** target file `" ++ (output ++ codes "' has both : and :: entries."))

  -- `AddRule` of each rule, with the warnings of all.
  unfoldable pub add_rules : Bool → Bytes → List (Rule Value) → RuleMerger Value → ℕ → Merged Value
  unfolding add_rule
  add_rules werror output [] m warnings = merged m warnings
  add_rules werror output (r ∷ rs) m warnings = elim (add_rule werror output r m) [
    | merged m' k ↦ add_rules werror output rs m' (warnings + k)
    | stopped e ↦ stopped e
  ]
