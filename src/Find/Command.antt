-- ===== src/Find/Command.antt =====
-- The commands that `FindCommandParser` of src/find.cc takes: `find`, `findleaves.py`, and what may
-- stand before them; and `FindCommand::Parse`. `none` stands for `false`: the command is not
-- emulated.
use kati.Prelude.{
  ℕ, zero, suc, true, false, not, ◌||◌, Option, none, some, [], ◌∷◌, Bytes, length, ◌==◌,
  if◌then◌else◌, ◌>>=◌, codes, text_eq,
}
use kati.Piece.{find_first_of}
use kati.Strutil.Words.{has_word}
use kati.Strutil.Normalize.{normalize_path}
use kati.Find.{find_type, findleaves, FindCommand, wildcards}
use kati.Find.Parse.{get_next_token, get_some_token, expect}
use kati.Find.Arguments.{Parser, new_command, parse_test, find_loop, leaves_loop}

-- A keyword at the start of a command.
pub data Keyword : Type 0 where
  no_word : Keyword
  cd_word : Keyword
  if_word : Keyword
  test_word : Keyword
  find_word : Keyword
  leaves_word : Keyword
  other_word : Keyword

unfoldable pub keyword_of : Bytes → Keyword
keyword_of tok =
    let is = text_eq tok in
    if length tok == 0
    then no_word
    else if is (codes "cd")
    then cd_word
    else if is (codes "if")
    then if_word
    else if is (codes "test")
    then test_word
    else if is (codes "find")
    then find_word
    else if is (codes "build/tools/findleaves.py") || is (codes "build/make/tools/findleaves.py")
    then leaves_word
    else other_word

-- `cd`: one directory with no wildcard, and a separator behind it.
unfoldable pub parse_cd : Parser → Option Parser
unfolding get_some_token get_next_token find_first_of
parse_cd p = do
  (dir, l) ← get_some_token p.lexer
  (sep, l') ← get_next_token l
  elim (find_first_of dir wildcards 0) [
    | some i ↦ none
    | none ↦
        if not (length p.fc.chdir == 0) || not (text_eq sep (codes ";") || text_eq sep (codes "&&"))
        then none
        else some (record p { lexer = l'; fc = (let fc = p.fc in record fc { chdir = dir }) })
  ]

-- `if [ -d DIR ] ; then`.
unfoldable pub parse_if : Parser → Option Parser
unfolding expect parse_test
parse_if p = do
  l ← expect (codes "[") p.lexer
  q ← parse_test (record p { lexer = l })
  l' ← expect (codes "]") q.lexer
  l'' ← expect (codes ";") l'
  l''' ← expect (codes "then") l''
  some (record q { lexer = l'''; has_if = true })

-- `test -d DIR &&`.
unfoldable pub parse_test_and : Parser → Option Parser
unfolding expect parse_test
parse_test_and p =
    let read = do q ← parse_test p; l ← expect (codes "&&") q.lexer; some (record q { lexer = l })
    in if not (length p.fc.chdir == 0) then none else read

-- `find` with its end, and `fi` before it behind an `if`.
unfoldable pub parse_find : ℕ → Parser → Option FindCommand
unfolding find_loop expect
parse_find f p = do
  let fc = p.fc
  (l, fc') ← find_loop f p.lexer (record fc { type = find_type })
  l' ← (if p.has_if then expect (codes "fi") l else some l)
  l'' ← expect [] l'
  some fc'

-- `ParseImpl`.
unfoldable pub parse_impl : ℕ → Parser → Option FindCommand
unfolding get_next_token keyword_of parse_cd parse_if parse_test_and parse_find leaves_loop
parse_impl zero p = none
parse_impl (suc f) p = do
  (tok, l) ← get_next_token p.lexer
  let q = record p { lexer = l }
  let fc = p.fc
  elim (keyword_of tok) [
    | no_word ↦ some fc
    | cd_word ↦ parse_cd q >>= (λ r. parse_impl f r)
    | if_word ↦ parse_if q >>= (λ r. parse_impl f r)
    | test_word ↦ parse_test_and q >>= (λ r. parse_impl f r)
    | find_word ↦ parse_find f q
    | leaves_word ↦ do
      (l', fc') ← leaves_loop f l (record fc { type = findleaves; follows_symlinks = true }) []
      some fc'
    | other_word ↦ none
  ]

-- `FindCommand::Parse`.
unfoldable pub parse : ℕ → Bytes → Option FindCommand
unfolding parse_impl has_word normalize_path
parse fuel cmd =
    let read = do
      fc ← parse_impl fuel (record {
        lexer = record { cur = cmd; unget_tok = [] };
        fc = new_command;
        has_if = false;
      })
      some (record fc {
        chdir = normalize_path fc.chdir;
        testdir = normalize_path fc.testdir;
        finddirs = if length fc.finddirs == 0 then codes "." ∷ [] else fc.finddirs;
      })
    in if has_word cmd (codes "find")
        || has_word cmd (codes "build/tools/findleaves.py")
        || has_word cmd (codes "build/make/tools/findleaves.py")
      then read
      else none
