-- ===== src/Ninja/Depfile.antt =====
-- The search of src/ninja.cc for the dependency file of a command.
use kati.Prelude.{
  ℕ, zero, suc, ◌+◌, Bool, true, false, not, ◌&&◌, ◌||◌, Option, none, some, [], ◌++◌, Bytes,
  length, drop, ◌==◌, if◌then◌else◌, codes,
}
use kati.Piece.{substr, find, find_first_of}
use kati.Strutil.Trim.{trim_left_space}
use kati.Strutil.Path.{strip_ext}

-- `FindCommandLineFlag`.
unfoldable pub find_command_line_flag : Bytes → Bytes → Option ℕ
unfolding find
find_command_line_flag cmd name = elim (find cmd name 0) [
  | none ↦ none
  | some zero ↦ none
  | some (suc i) ↦ some (suc i)
]

-- The text behind the last occurrence of a flag that a loop finds; each round shortens the text.
unfoldable pub behind_flags : ℕ → Bytes → Bytes → Bytes
unfolding find trim_left_space
behind_flags zero val name = val
behind_flags (suc f) val name = elim (find val name 0) [
  | none ↦ val
  | some index ↦ behind_flags f (trim_left_space (drop (index + length name) val)) name
]

-- `FindCommandLineFlagWithArg`.
unfoldable pub find_command_line_flag_with_arg : Bytes → Bytes → Bytes
unfolding find_command_line_flag behind_flags find_first_of substr trim_left_space
find_command_line_flag_with_arg cmd name = elim (find_command_line_flag cmd name) [
  | none ↦ []
  | some index ↦
      let val = behind_flags (length cmd) (trim_left_space (drop (index + length name) cmd)) name in
      substr val 0 (find_first_of val (codes " \t") 0)
]

-- How the search for a dependency file ends.
pub data Depfile : Type 0 where
  no_depfile : Depfile
  depfile : Bytes → Depfile
  no_output : Depfile

-- `GetDepfileFromCommandImpl`.
unfoldable pub get_depfile_from_command_impl : Bytes → Depfile
unfolding find_command_line_flag find_command_line_flag_with_arg strip_ext
get_depfile_from_command_impl cmd =
    let has = λ (flag : Bytes). elim (find_command_line_flag cmd flag) as (λ _. Bool) [
      | none ↦ false
      | some i ↦ true
    ] in
    let mf = find_command_line_flag_with_arg cmd (codes " -MF") in
    let out = find_command_line_flag_with_arg cmd (codes " -o") in
    if not (has (codes " -MD")) && not (has (codes " -MMD")) || not (has (codes " -c"))
    then no_depfile
    else if not (length mf == 0)
    then depfile mf
    else if length out == 0
    then no_output
    else depfile (strip_ext out ++ codes ".d")
