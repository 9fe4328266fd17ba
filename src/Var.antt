-- ===== src/Var.antt =====
-- Variables: src/var.h, src/var.cc and the global variables of src/symtab.cc. A variable is its value;
-- a table has one variable for each name, and what the source changes through a pointer is put back
-- under the name. The values of recursive variables are a parameter.
pub mod Table
pub mod Protect
use kati.Prelude.{
  ℕ, zero, suc, Bool, true, false, not, ◌&&◌, ◌||◌, Option, none, some, List, [], ◌∷◌, ◌++◌, Bytes,
  length, ◌==◌, if◌then◌else◌, codes, text_eq,
}
use kati.Rule.{Loc}

-- `VarOrigin`.
pub data VarOrigin : Type 0 where
  undefined : VarOrigin
  default : VarOrigin
  environment : VarOrigin
  environment_override : VarOrigin
  file : VarOrigin
  command_line : VarOrigin
  override : VarOrigin
  automatic : VarOrigin

-- `GetOriginStr`.
unfoldable pub get_origin_str : VarOrigin → Bytes
get_origin_str VarOrigin.undefined = codes "undefined"
get_origin_str VarOrigin.default = codes "default"
get_origin_str VarOrigin.environment = codes "environment"
get_origin_str VarOrigin.environment_override = codes "environment override"
get_origin_str VarOrigin.file = codes "file"
get_origin_str VarOrigin.command_line = codes "command line"
get_origin_str VarOrigin.override = codes "override"
get_origin_str VarOrigin.automatic = codes "automatic"

-- The classes of variables; `.SHELLSTATUS` has no value until a command has run.
pub data Content (Value : Type 0) : Type 0 where
  undefined_var : Content Value
  simple_var : Bytes → Content Value
  recursive_var : Value → Bytes → Content Value
  variable_names_var : Bytes → Bool → Content Value
  shell_status_var : Option ℕ → Content Value

-- `Var`, with its diagnostic message. A frame is known by its number.
pub record Var (Value : Type 0) : Type 0 where
  pub content : Content Value
  pub origin : VarOrigin
  pub definition : Option ℕ
  pub loc : Loc
  pub readonly : Bool
  pub deprecated : Bool
  pub obsolete : Bool
  pub self_referential : Bool
  pub message : Bytes

-- The origins that an ordinary assignment does not replace.
abbrev pub is_overriding : VarOrigin → Bool
is_overriding VarOrigin.override = true
is_overriding VarOrigin.environment_override = true
is_overriding _ = false

abbrev pub is_environment : VarOrigin → Bool
is_environment VarOrigin.environment = true
is_environment VarOrigin.environment_override = true
is_environment _ = false

abbrev pub is_automatic : VarOrigin → Bool
is_automatic VarOrigin.automatic = true
is_automatic _ = false

abbrev pub is_command_line : VarOrigin → Bool
is_command_line VarOrigin.command_line = true
is_command_line _ = false

abbrev pub is_file : VarOrigin → Bool
is_file VarOrigin.file = true
is_file _ = false

-- How an assignment ends: with a changed table, with the table as it was, at a variable that is read
-- only, or with an error that ends the program.
pub data Assigned (Value : Type 0) : Type 0 where
  stored : List (Bytes × Var Value) → Assigned Value
  kept : Assigned Value
  refused : Assigned Value
  failed : Bytes → Assigned Value

module _ {Value : Type 0} where
  -- `Var::Undefined()`.
  abbrev pub undefined_variable : Var Value
  undefined_variable = record {
    content = undefined_var;
    origin = VarOrigin.undefined;
    definition = none;
    loc = record { filename = none; lineno = none };
    readonly = false;
    deprecated = false;
    obsolete = false;
    self_referential = false;
    message = [];
  }

  -- `IsDefined`.
  abbrev pub is_defined : Var Value → Bool
  is_defined v = elim v.content [
    | undefined_var ↦ false
    | simple_var s ↦ true
    | recursive_var x s ↦ true
    | variable_names_var s b ↦ true
    | shell_status_var o ↦ elim o [ none ↦ false | some n ↦ true ]
  ]

  -- `Flavor`.
  abbrev pub flavor : Var Value → Bytes
  flavor v = elim v.content [
    | undefined_var ↦ codes "undefined"
    | simple_var s ↦ codes "simple"
    | recursive_var x s ↦ codes "recursive"
    | variable_names_var s b ↦ codes "kati_variable_names"
    | shell_status_var o ↦ codes "simple"
  ]

  -- `find` in a table.
  unfoldable pub find_var : Bytes → List (Bytes × Var Value) → Option (Var Value)
  find_var name [] = none
  find_var name ((n, v) ∷ vars) = if text_eq n name then some v else find_var name vars

  -- `Peek`, and `PeekGlobalVar`.
  unfoldable pub peek : Bytes → List (Bytes × Var Value) → Var Value
  unfolding find_var
  peek name vars = elim (find_var name vars) [ none ↦ undefined_variable | some v ↦ v ]

  -- `Lookup`, and `GetGlobalVar`: the names of the environment's variables that are used are noted.
  unfoldable pub lookup : Bytes → List (Bytes × Var Value) → List Bytes → Var Value × List Bytes
  unfolding peek
  lookup name vars used_env =
      let v = peek name vars in (v, if is_environment v.origin then name ∷ used_env else used_env)

  -- An entry with a new variable, at the place of the old one if there is one.
  unfoldable pub put : Bytes → Var Value → List (Bytes × Var Value) → List (Bytes × Var Value)
  put name v [] = (name, v) ∷ []
  put name v ((n, w) ∷ vars) = if text_eq n name then (n, v) ∷ vars else (n, w) ∷ put name v vars

  -- `erase`.
  unfoldable pub erase : Bytes → List (Bytes × Var Value) → List (Bytes × Var Value)
  erase name [] = []
  erase name ((n, w) ∷ vars) = if text_eq n name then vars else (n, w) ∷ erase name vars

  -- `Vars::Assign`.
  unfoldable pub assign : Bytes → Var Value → List (Bytes × Var Value) → Assigned Value
  unfolding find_var put
  assign name v vars = elim (find_var name vars) [
    | none ↦ stored (put name v vars)
    | some orig ↦
        if orig.readonly
        then refused
        else if is_overriding orig.origin
        then kept
        else if is_automatic orig.origin
        then failed (codes "overriding automatic variable is not implemented yet")
        else stored (put name v vars)
  ]

  -- `Symbol::SetGlobalVar`.
  unfoldable pub set_global_var :
      Bytes → Var Value → Bool → List (Bytes × Var Value) → Assigned Value
  unfolding peek put
  set_global_var name v is_override globals =
      let orig = peek name globals in
      if orig.readonly
      then refused
      else if not is_override && is_overriding orig.origin
      then kept
      else if is_command_line orig.origin && is_file v.origin
      then kept
      else if is_automatic orig.origin
      then failed (codes "overriding automatic variable is not implemented yet")
      else stored (put name v globals)

  -- `ScopedVar`: what the constructor saves, the table inside, and what the destructor does.
  abbrev pub scoped_orig : Bytes → List (Bytes × Var Value) → Option (Var Value)
  scoped_orig name vars = find_var name vars

  abbrev pub scoped_enter : Bytes → Var Value → List (Bytes × Var Value) → List (Bytes × Var Value)
  scoped_enter name v vars = put name v vars

  unfoldable pub scoped_leave :
      Bytes → Option (Var Value) → List (Bytes × Var Value) → List (Bytes × Var Value)
  unfolding put erase
  scoped_leave name none vars = erase name vars
  scoped_leave name (some orig) vars = put name orig vars

-- `Var::Used`: an error for an obsolete variable, a warning for a deprecated one; a recursive variable
-- that references itself is an error before.
pub data Use : Type 0 where
  used : Bool → Use
  use_failed : Bytes → Use

unfoldable pub base_used : {Value : Type 0} → Var Value → Bytes → Use
base_used v name =
    if v.obsolete
    then use_failed (codes "*** " ++ (name ++ (codes " is obsolete" ++ (v.message ++ codes "."))))
    else used v.deprecated

unfoldable pub var_used : {Value : Type 0} → Var Value → Bytes → Use
unfolding base_used
var_used v name = elim v.content [
  | recursive_var x s ↦
      if v.self_referential
      then use_failed (
          codes "*** Recursive variable \"" ++ (name ++ codes "\" references itself (eventually)."))
      else base_used v name
  | undefined_var ↦ base_used v name
  | simple_var s ↦ base_used v name
  | variable_names_var s b ↦ base_used v name
  | shell_status_var o ↦ base_used v name
]
