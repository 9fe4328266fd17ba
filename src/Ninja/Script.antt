-- ===== src/Ninja/Script.antt =====
-- `GenShellScript` of src/ninja.cc: the commands of a recipe become one script.
use kati.Prelude.{
  ℕ, ◌-◌, Bool, true, false, not, ◌&&◌, ◌||◌, Option, none, some, List, [], ◌∷◌, ◌++◌, Bytes,
  length, drop, ltb, ◌==◌, if◌then◌else◌, ◌>>=◌, codes,
}
use kati.Strutil.Words.{is_space}
use kati.Ninja.{translate_command, get_description_from_command, is_output_mkdir}

-- A command of a recipe, as `GenShellScript` reads it.
pub record Command : Type 0 where
  pub cmd : Bytes
  pub echo : Bool
  pub ignore_error : Bool

-- What `GenShellScript` has gathered: the script, the description, the number of commands that count.
pub record Script : Type 0 where
  pub cmd_buf : Bytes
  pub description : Option Bytes
  pub command_count : ℕ

abbrev pub skip_space : Bytes → Bytes
skip_space [] = []
skip_space (c ∷ s) = if is_space c then skip_space s else c ∷ s

-- The text that was translated, behind the first bytes of the buffer.
abbrev pub translated_from : ℕ → Bytes → Option Bytes
translated_from begin buf = if ltb (length buf) begin then none else some (drop begin buf)

-- One command of `GenShellScript`, without goma.
unfoldable pub gen_command : Bool → Bytes → Command → Script → Option Script
unfolding translate_command get_description_from_command is_output_mkdir
gen_command detect_android_echo name c s =
    let needs_subshell = ltb 1 s.command_count || c.ignore_error in
    let joined = s.cmd_buf ++ (if length s.cmd_buf == 0 then [] else codes " && ") in
    let start = joined ++ (if needs_subshell then codes "(" else []) in
    do
      buf ← translate_command (skip_space c.cmd) start
      translated ← translated_from (length start) buf
      let described : Option Bytes =
          if detect_android_echo
            && (elim s.description [ none ↦ true | some d ↦ false ])
            && not c.echo
          then get_description_from_command translated
          else none
      let is_mkdir = is_output_mkdir name translated && not c.echo && length s.cmd_buf == 0
      let dropped = record s { command_count = s.command_count - 1 }
      let kept = record s {
        cmd_buf =
            buf
            ++ (if c.ignore_error then codes " ; true" else [])
            ++ (if needs_subshell then codes " )" else []);
      }
      some (elim described [
        | some d ↦ record dropped { description = some d }
        | none ↦ if is_mkdir || length translated == 0 then dropped else kept
      ])

-- The loop of `GenShellScript`.
unfoldable pub gen_commands : Bool → Bytes → List Command → Script → Option Script
unfolding gen_command
gen_commands detect name [] s = some s
gen_commands detect name (c ∷ cs) s =
    gen_command detect name c s >>= λ s'. gen_commands detect name cs s'

-- `GenShellScript`: the script and the description.
unfoldable pub gen_shell_script : Bool → Bytes → List Command → Option Script
unfolding gen_commands
gen_shell_script detect name commands =
    gen_commands detect name commands
      (record { cmd_buf = []; description = none; command_count = length commands })
