-- ===== src/Examples/Strutil.antt =====
-- src/string_piece.cc and src/strutil.cc at concrete inputs.
use kati.Prelude.{◌≡◌, refl, false, none, some, [], ◌∷◌, ◌++◌, arith, Bytes, codes, inr}
use kati.Piece.{index_of, scan_down}
use mathlib.Core.List.{reverse}
use kati.Prelude.{◌+◌}
use kati.Piece.{shift}
use kati.Strutil.Words.{has_word}
use kati.Strutil.Words.First.{has_word-first}
use kati.Strutil.Paren.{find_outside_paren}
use kati.Strutil.Paren.Balanced.{Balanced, find_outside_paren-Balanced}
use kati.Strutil.Escape.{escape_shell}
use kati.Strutil.Escape.Shell.{escaped, escape_shell-escaped}
use kati.Strutil.Normalize.{set_byte, normalize_path}
use kati.Strutil.Normalize.Reference.{normalized, ends_above}
use kati.Strutil.Normalize.Clean.{normalize_path-normalized, nul_behind}
use kati.Strutil.Breaks.{no_line_break, find_end_of_line}
use kati.Strutil.Trim.{trim_right_space}
use kati.Strutil.Trim.Blank.{IsBlankBack, IsTrimmedBack, Parted, trim_right_space_lem}
use kati.Strutil.Words.{words, writer, write_all}
use kati.Strutil.Words.Reference.{between, words-between}
use kati.Strutil.Words.RoundTrip.{words-write_all}
use kati.Strutil.Pattern.{pattern_of, subst_pattern}
use kati.Strutil.Pattern.Wild.{wild}
use kati.Strutil.Pattern.Substitute.{replace_percents}
use kati.Strutil.Pattern.Subst.{subst_pattern-stem, subst_pattern-diverges}

words-between_example : words (codes " a\tbc ") ≡ between (codes " a\tbc ")
words-between_example = words-between (codes " a\tbc ")

words-write_all_example :
    words (write_all (codes "ab" ∷ codes "c" ∷ []) (writer [])).out ≡ codes "ab" ∷ codes "c" ∷ []
words-write_all_example =
    words-write_all (codes "ab" ∷ codes "c" ∷ [])
      (((cc), (refl, (refl, tt))), (((cc), (refl, tt)), tt))

subst_pattern-stem_example :
    subst_pattern 4 (pattern_of (wild [] (codes ".c"))) (codes "x.c.c") (codes "%.o")
    ≡ some (replace_percents (codes "%.o") (codes "x.c"))
subst_pattern-stem_example =
    subst_pattern-stem [] (codes "x.c") (codes ".c") (codes "%.o") tt (omega arith)
      (inr (omega arith))

subst_pattern-diverges_example :
    subst_pattern 1000 (pattern_of (wild [] [])) (codes "%foo") (codes "%.o") ≡ none
subst_pattern-diverges_example =
    subst_pattern-diverges 1000 [] (codes "foo") [] (codes ".o") tt (omega arith)

escape_shell_example : escape_shell (codes "a$$b\"") ≡ escaped (codes "a$$b\"")
escape_shell_example = escape_shell-escaped (codes "a$$b\"")

trim_right_example :
    (b : Bytes) × (codes "a\\\n " ≡ trim_right_space (codes "a\\\n ") ++ reverse b)
    × IsBlankBack b
    × IsTrimmedBack (reverse (trim_right_space (codes "a\\\n ")))
    × Parted b (reverse (trim_right_space (codes "a\\\n ")))
trim_right_example = trim_right_space_lem (codes "a\\\n ")

has_word-first_example :
    (has_word (b'x' ∷ (codes "find" ++ b' ' ∷ codes "find")) (codes "find") ≡ false)
    × (words (b'x' ∷ (codes "find" ++ b' ' ∷ codes "find"))
        ≡ (b'x' ∷ codes "find") ∷ words (codes "find"))
has_word-first_example =
    has_word-first b'x' (codes "find") (codes "find") ((cc), (refl, (refl, (refl, (refl, tt)))))
      (omega arith) refl

find_outside_paren_example :
    find_outside_paren (b'(' ∷ (codes "a:" ++ b')' ∷ codes "b:")) b':'
    ≡ shift (2 + 2) (find_outside_paren (codes "b:") b':')
find_outside_paren_example =
    find_outside_paren-Balanced (codes "a:") (codes "b:") b':' (omega arith)
      (Balanced.plain refl (Balanced.plain refl Balanced.nothing))

-- TestWordScanner and TestSubstPattern.
scans :
    words (codes "foo bar baz hogeeeeeeeeeeeeeeee")
    ≡ codes "foo" ∷ codes "bar" ∷ codes "baz" ∷ codes "hogeeeeeeeeeeeeeeee" ∷ []
unfolding words
scans = refl

substitutes :
    subst_pattern 9 (pattern_of (codes "c.%")) (codes "c.x") (codes "o.%") ≡ some (codes "o.x")
unfolding subst_pattern pattern_of index_of scan_down
substitutes = refl

normalize_path-normalized_example :
    normalize_path (codes "a/../../b/./c//d/..")
    ≡ normalized (codes "a/../../b/./c//d/..")
      ++ nul_behind (ends_above (codes "a/../../b/./c//d/.."))
normalize_path-normalized_example =
    normalize_path-normalized (codes "a/../../b/./c//d/..") (omega arith)

-- A last `..` behind another one.
ends_in_nul : normalize_path (codes "a/../../..") ≡ codes "../.." ++ 0 ∷ []
unfolding normalize_path scan_down set_byte
ends_in_nul = refl

reads_up : normalized (codes "a/../../b/./c//d/..") ≡ codes "../b/c"
unfolding normalized
reads_up = refl

-- TestNormalizePath.
normalizes_up : normalize_path (codes "x/y/..//../foo") ≡ codes "foo"
unfolding normalize_path scan_down set_byte
normalizes_up = refl

normalizes_over : normalize_path (codes "x/../../foo") ≡ codes "../foo"
unfolding normalize_path scan_down set_byte
normalizes_over = refl

normalizes_root : normalize_path (codes "/a/../../foo") ≡ codes "/foo"
unfolding normalize_path scan_down set_byte
normalizes_root = refl

normalizes_ups : normalize_path (codes ".././../a/b") ≡ codes "../../a/b"
unfolding normalize_path scan_down set_byte
normalizes_ups = refl

-- Two `..` at the end leave a NUL byte behind the path.
normalizes_nul : normalize_path (codes "../..") ≡ codes "../.." ++ (0 ∷ [])
unfolding normalize_path scan_down set_byte
normalizes_nul = refl

-- TestNoLineBreak and TestFindEndOfLine.
breaks : no_line_break 3 (codes "a\nb\nc") ≡ some (codes "a\\nb\\nc")
unfolding no_line_break index_of
breaks = refl

ends : find_end_of_line 4 (codes "fo\\" ++ (0 ∷ codes "xy")) 6 0 0 ≡ some (3, 0)
unfolding find_end_of_line
ends = refl

continues : find_end_of_line 4 (codes "a\\\nb\nc") 6 0 0 ≡ some (4, 2)
unfolding find_end_of_line
continues = refl
