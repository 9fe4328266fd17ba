-- ===== src/Expr.antt =====
-- The values of src/expr.h and src/expr.cc, with the table of functions of src/func.cc as the
-- parser reads it. A vector of values inside a value is `Values`; the body of a function is named
-- by its entry in the table.
pub mod Scan
pub mod Parse
pub mod Rounds
pub mod Stops
pub mod Within
pub mod Fuel
pub mod Written
pub mod Lookup
pub mod Eval
use kati.Prelude.{
  ℕ, Bool, true, false, Option, none, some, List, [], ◌∷◌, ◌++◌, Bytes, length, if◌then◌else◌,
  codes, text_eq,
}
use kati.Rule.{Loc}

-- `FuncInfo` of src/func.h, without the pointer to the function.
pub record FuncInfo : Type 0 where
  pub name : Bytes
  pub arity : ℕ
  pub min_arity : ℕ
  pub trim_space : Bool
  pub trim_right_space_1st : Bool

-- The subclasses of `Value`.
mutual
  pub data Value : Type 0 where
    literal : Bytes → Value
    value_list : Loc → Values → Value
    sym_ref : Loc → Bytes → Value
    var_ref : Loc → Value → Value
    var_subst : Loc → Value → Value → Value → Value
    func : Loc → FuncInfo → Values → Value

  pub data Values : Type 0 where
    no_values : Values
    values : Value → Values → Values

unfoldable pub to_values : List Value → Values
to_values [] = no_values
to_values (v ∷ vs) = values v (to_values vs)

-- `Value::NewExpr` of a vector: one value stands for itself.
unfoldable pub new_expr : Loc → List Value → Value
unfolding to_values
new_expr loc [] = value_list loc no_values
new_expr loc (v ∷ []) = v
new_expr loc (v ∷ w ∷ vs) = value_list loc (to_values (v ∷ w ∷ vs))

-- `IsLiteral` and `GetLiteralValueUnsafe` in one.
abbrev pub literal_value : Value → Option Bytes
literal_value (literal s) = some s
literal_value _ = none

-- An `ENTRY` of the table.
abbrev pub entry : Bytes → ℕ → ℕ → Bool → Bool → FuncInfo
entry name arity min_arity trim_space trim_right_space_1st = record {
  name = name;
  arity = arity;
  min_arity = min_arity;
  trim_space = trim_space;
  trim_right_space_1st = trim_right_space_1st;
}

-- Entries with as many arguments at least as at most, and no trimming.
unfoldable pub entries_of : ℕ → List Bytes → List FuncInfo
entries_of n [] = []
entries_of n (name ∷ names) = entry name n n false false ∷ entries_of n names

-- `g_func_info_map`.
unfoldable pub func_info_map : List FuncInfo
unfolding entries_of
func_info_map =
    entries_of 3 (codes "patsubst" ∷ codes "subst" ∷ codes "wordlist" ∷ codes "foreach" ∷ [])
    ++ (entries_of 2 (
          codes "findstring"
          ∷ codes "filter"
          ∷ codes "filter-out"
          ∷ codes "word"
          ∷ codes "join"
          ∷ codes "addsuffix"
          ∷ codes "addprefix"
          ∷ [])
        ++ (entries_of 1 (
              codes "strip"
              ∷ codes "sort"
              ∷ codes "words"
              ∷ codes "firstword"
              ∷ codes "lastword"
              ∷ codes "wildcard"
              ∷ codes "dir"
              ∷ codes "notdir"
              ∷ codes "suffix"
              ∷ codes "basename"
              ∷ codes "realpath"
              ∷ codes "abspath"
              ∷ codes "value"
              ∷ codes "eval"
              ∷ codes "shell"
              ∷ codes "origin"
              ∷ codes "flavor"
              ∷ codes "info"
              ∷ codes "warning"
              ∷ codes "error"
              ∷ codes "KATI_deprecate_export"
              ∷ codes "KATI_obsolete_export"
              ∷ codes "KATI_variable_location"
              ∷ [])
            ++ (entries_of 0 (codes "call" ∷ codes "KATI_profile_makefile" ∷ [])
                ++ (entry (codes "if") 3 2 false true
                    ∷ entry (codes "and") 0 0 true false
                    ∷ entry (codes "or") 0 0 true false
                    ∷ entry (codes "file") 2 1 false false
                    ∷ entry (codes "KATI_deprecated_var") 2 1 false false
                    ∷ entry (codes "KATI_obsolete_var") 2 1 false false
                    ∷ []))))

unfoldable pub find_info : Bytes → List FuncInfo → Option FuncInfo
find_info name [] = none
find_info name (i ∷ infos) = if text_eq i.name name then some i else find_info name infos

-- `GetFuncInfo`.
unfoldable pub get_func_info : Bytes → Option FuncInfo
unfolding find_info
get_func_info name = find_info name func_info_map
