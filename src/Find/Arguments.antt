-- ===== src/Find/Arguments.antt =====
-- The arguments of `find` and of `findleaves.py`, as `FindCommandParser` of src/find.cc reads them.
use kati.Prelude.{
  ℕ, zero, suc, ◌-◌, Bool, true, false, not, ◌||◌, Option, none, some, List, [], ◌∷◌, ◌++◌, Bytes,
  length, drop, ltb, ◌==◌, ◌^◌, if◌then◌else◌, ◌>>=◌, codes, text_eq,
}
use kati.Piece.{get, find_first_of}
use kati.Strutil.Pattern.{has_prefix}
use kati.Func.Words.{strtol, digits_value}
use kati.Find.{FindCond, name_cond, or_cond, find_type, FindCommand}
use kati.Find.Parse.{Lexer, get_next_token, get_some_token, expect, parse_cond}

-- The command that is being read, and whether it stands behind an `if`.
pub record Parser : Type 0 where
  pub lexer : Lexer
  pub fc : FindCommand
  pub has_if : Bool

abbrev pub int_max : ℕ
int_max = 2 ^ 31 - 1

-- `FindCommand::FindCommand`.
abbrev pub new_command : FindCommand
new_command = record {
  type = find_type;
  chdir = [];
  testdir = [];
  finddirs = [];
  follows_symlinks = false;
  print_cond = none;
  prune_cond = none;
  depth = int_max;
  mindepth = 0;
  redirect_to_devnull = false;
}

-- The number of `-maxdepth`.
unfoldable pub depth_of : Bytes → Option ℕ
unfolding strtol
depth_of tok =
    let (value, taken) = strtol tok in
    elim value [
      | none ↦ none
      | some d ↦ if not (taken == length tok) || ltb int_max d then none else some d
    ]

-- The number of `--mindepth=`, which may be negative: `strtol` gives no value then, and the digits
-- are those behind the sign.
unfoldable pub mindepth_of : Bytes → Option ℕ
unfolding strtol digits_value
mindepth_of tok =
    let (value, taken) = strtol tok in
    elim value [
      | none ↦
          if not (taken == length tok) || ltb (2 ^ 31) (digits_value 0 (drop 1 tok))
          then none
          else some 0
      | some d ↦ if not (taken == length tok) || ltb int_max d then none else some d
    ]

-- `ParseTest`.
unfoldable pub parse_test : Parser → Option Parser
unfolding expect get_some_token
parse_test p =
    let read = do
      l ← expect (codes "-d") p.lexer
      (tok, l') ← get_some_token l
      some (record p { lexer = l'; fc = (let fc = p.fc in record fc { testdir = tok }) })
    in if p.has_if || not (length p.fc.testdir == 0) then none else read

-- What a token of `find` asks for.
pub data Word : Type 0 where
  finish : Word
  follow : Word
  prune : Word
  print : Word
  maxdepth : Word
  condition : Word
  redirect : Word
  refuse : Word
  directory : Word

unfoldable pub word_of : Bytes → Word
unfolding find_first_of
word_of tok =
    let is = text_eq tok in
    if length tok == 0 || is (codes ";")
    then finish
    else if is (codes "-L")
    then follow
    else if is (codes "-prune")
    then prune
    else if is (codes "-print")
    then print
    else if is (codes "-maxdepth")
    then maxdepth
    else if get tok 0 == b'-' || is (codes "(") || is (codes "!")
    then condition
    else if is (codes "2>")
    then redirect
    else (elim (find_first_of tok (codes "|;&><'\"") 0) [ none ↦ directory | some i ↦ refuse ])

-- The loop of `ParseFind`.
unfoldable pub find_loop : ℕ → Lexer → FindCommand → Option (Lexer × FindCommand)
unfolding get_next_token get_some_token expect parse_cond word_of depth_of
find_loop zero l fc = none
find_loop (suc f) l fc = do
  (tok, l') ← get_next_token l
  elim (word_of tok) [
    | finish ↦ some (l', fc)
    | follow ↦ find_loop f l' (record fc { follows_symlinks = true })
    | prune ↦ elim fc.print_cond [
      | none ↦ none
      | some c ↦ elim fc.prune_cond [
        | some d ↦ none
        | none ↦ do
          l'' ← expect (codes "-o") l'
          find_loop f l'' (record fc { prune_cond = some c; print_cond = none })
      ]
    ]
    | print ↦ do l'' ← expect [] l'; some (l'', fc)
    | maxdepth ↦ do
      (t, l'') ← get_some_token l'
      d ← depth_of t
      find_loop f l'' (record fc { depth = d })
    | condition ↦ elim fc.print_cond [
      | some c ↦ none
      | none ↦ do
        (c, l'') ← parse_cond f tok l'
        find_loop f l'' (record fc { print_cond = some c })
    ]
    | redirect ↦ do
      l'' ← expect (codes "/dev/null") l'
      find_loop f l'' (record fc { redirect_to_devnull = true })
    | refuse ↦ none
    | directory ↦ find_loop f l' (record fc { finddirs = fc.finddirs ++ tok ∷ [] })
  ]

-- A condition with one more name to find.
abbrev pub or_name : Option FindCond → Bytes → FindCond
or_name none file = name_cond file
or_name (some c) file = or_cond c (name_cond file)

unfoldable pub or_names : Option FindCond → List Bytes → Option FindCond
or_names c [] = c
or_names c (file ∷ files) = or_names (some (or_name c file)) files

-- The last of a list is split off; `none` for the empty list.
unfoldable pub split_last : List Bytes → Option (List Bytes × Bytes)
split_last [] = none
split_last (x ∷ xs) = elim (split_last xs) [
  | none ↦ some ([], x)
  | some (front, last) ↦ some (x ∷ front, last)
]

-- The end of `findleaves.py`: with no `--dir=`, the last name is the file and the others are
-- directories.
unfoldable pub end_leaves : FindCommand → List Bytes → Option FindCommand
unfolding or_names split_last
end_leaves fc findfiles =
    if length fc.finddirs == 0
    then (if ltb (length findfiles) 2 then none else (elim (split_last findfiles) [
      | none ↦ none
      | some (dirs, file) ↦ some (record fc { finddirs = dirs; print_cond = some (name_cond file) })
    ]))
    else if length findfiles == 0
    then none
    else some (record fc { print_cond = or_names fc.print_cond findfiles })

-- The loop of `ParseFindLeaves`. An unknown flag is refused, with a warning or an error.
unfoldable pub leaves_loop : ℕ → Lexer → FindCommand → List Bytes → Option (Lexer × FindCommand)
unfolding get_next_token has_prefix mindepth_of end_leaves
leaves_loop zero l fc findfiles = none
leaves_loop (suc f) l fc findfiles = do
  (tok, l') ← get_next_token l
  let pruned =
      leaves_loop f l' (record fc { prune_cond = some (or_name fc.prune_cond (drop 8 tok)) })
        findfiles
  let deep =
      mindepth_of (drop 11 tok) >>= λ d. leaves_loop f l' (record fc { mindepth = d }) findfiles
  let under = leaves_loop f l' (record fc { finddirs = fc.finddirs ++ drop 6 tok ∷ [] }) findfiles
  let named = leaves_loop f l' fc (findfiles ++ tok ∷ [])
  (if length tok == 0
      then end_leaves fc findfiles >>= (λ fc'. some (l', fc'))
      else if has_prefix tok (codes "--prune=")
      then pruned
      else if has_prefix tok (codes "--mindepth=")
      then deep
      else if has_prefix tok (codes "--dir=")
      then under
      else if has_prefix tok (codes "--")
      then none
      else named)
