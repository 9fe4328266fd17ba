-- ===== src/Examples/Ninja.antt =====
-- src/ninja.cc at concrete inputs.
use kati.Prelude.{
  ℕ, not, ◌||◌, ◌==◌, Bytes, if◌then◌else◌, ◌≡◌, refl, true, false, none, some, [], ◌∷◌, ◌++◌,
  arith, codes, List, ◌>>=◌,
}
use mathlib.Core.List.{reverse}
use kati.Piece.{scan_up, scan_down, lookup_table, starts_with, search_in}
use kati.Ninja.{translate_command, trim_back, escape_ninja, get_description_from_command}
use kati.Ninja.Depfile.{depfile, get_depfile_from_command_impl}
use kati.Ninja.Script.{Command, gen_shell_script}
use kati.Ninja.Translate.{joined, translate_command-joined}
use kati.Ninja.Escape.{ReadsPaths, is_special, is_path_byte, read-escape_ninja}

translate_command-joined_example :
    translate_command (codes "a \\\n$b") (codes "(")
    ≡ (trim_back (reverse (codes "(" ++ joined (codes "a \\\n$b"))) >>= λ r. some (reverse r))
translate_command-joined_example = translate_command-joined (codes "a \\\n$b") (codes "(") (
  (omega arith),
  ((omega arith), ((omega arith), ((omega arith), ((omega arith), ((omega arith), tt))))),
)

-- A reader of paths: a bar, an end of a line and a NUL byte end a path too, and a dollar before
-- another byte is an error, where nothing is read.
unfoldable read_path : Bytes → Bytes × Bytes
read_path [] = ([], [])
read_path (c ∷ []) = if is_special c || not (is_path_byte c) then ([], c ∷ []) else (c ∷ [], [])
read_path (c ∷ d ∷ s) =
    let (path, rest) = read_path (d ∷ s) in
    let (path2, rest2) = read_path s in
    if c == b'$'
    then (if is_special d then (d ∷ path2, rest2) else ([], c ∷ d ∷ s))
    else if is_special c || not (is_path_byte c)
    then ([], c ∷ d ∷ s)
    else (c ∷ path, rest)

read_path-escaped :
    (c : ℕ) (s : Bytes)
    → is_special c ≡ true
    → read_path (b'$' ∷ c ∷ s) ≡ (c ∷ (read_path s).0, (read_path s).1)
unfolding read_path
read_path-escaped c s h = rw h refl

read_path-ends :
    (c : ℕ) (s : Bytes) → (c == b':' || c == b' ') ≡ true → read_path (c ∷ s) ≡ ([], c ∷ s)
unfolding read_path
read_path-ends c [] h = ground arith
read_path-ends c (d ∷ s) h = ground arith

read_path-plain :
    (c : ℕ) (s : Bytes)
    → is_special c ≡ false
    → is_path_byte c ≡ true
    → read_path (c ∷ s) ≡ (c ∷ (read_path s).0, (read_path s).1)
unfolding read_path
read_path-plain c [] h p = ground arith
read_path-plain c (d ∷ s) h p = ground arith

read_path-ReadsPaths : ReadsPaths read_path
read_path-ReadsPaths = record {
  escaped = read_path-escaped;
  ends = read_path-ends;
  plain = read_path-plain;
}

read-escape_ninja_example :
    read_path (escape_ninja (codes "a b$") ++ b':' ∷ codes " r") ≡ (codes "a b$", b':' ∷ codes " r")
read-escape_ninja_example =
    read-escape_ninja read_path (codes "a b$") b':' (codes " r") read_path-ReadsPaths
      (refl, (refl, (refl, (refl, tt)))) refl

-- Some of the cases of the test of TranslateCommand, and what it does to a comment.
translates : translate_command (codes "echo '#' # x ;") [] ≡ some (codes "echo '#'")
unfolding translate_command
translates = refl

-- A comment that ends with a backslash takes a byte that is not its own.
takes_parenthesis : translate_command (codes "# x\\") (codes "echo && (") ≡ some (codes "echo &&")
unfolding translate_command
takes_parenthesis = refl

-- Nothing but a comment: the byte before the buffer is read.
reads_before : translate_command (codes "# x") [] ≡ none
unfolding translate_command
reads_before = refl

abbrev recipe : List Command
recipe =
    record { cmd = codes " mkdir -p out/"; echo = false; ignore_error = false }
    ∷ record { cmd = codes "cc -c a.c"; echo = true; ignore_error = true }
    ∷ []

scripts :
    gen_shell_script true (codes "out/a.o") recipe
    ≡ some (record { cmd_buf = codes "(cc -c a.c ; true )"; description = none; command_count = 1 })
unfolding gen_shell_script scan_down
scripts = refl

describes : get_description_from_command (codes "echo 'a; b' c") ≡ some (codes "a; b c")
unfolding get_description_from_command
describes = refl

finds_depfile : get_depfile_from_command_impl (codes "cc -MD -c -o a.o a.c") ≡ depfile (codes "a.d")
unfolding get_depfile_from_command_impl search_in starts_with scan_up lookup_table scan_down
finds_depfile = refl
