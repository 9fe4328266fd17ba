-- ===== src/Parser/Shorter.antt =====
-- What `HandleDirective` of src/parser.cc leaves of a line is shorter than the line.
use kati.Prelude.{
  ℕ, ◌-◌, ◌≤◌, ◌<◌, ◌≡◌, Option, none, some, [], ◌∷◌, arith, Bytes, length, drop, ltb,
  length-append, length-take, length-drop, ap, if◌then◌else◌,
}
use mathlib.Core.List.{reverse}
use kati.Piece.{substr, clamp}
use kati.Strutil.Paren.{find_outside_paren}
use kati.Strutil.Trim.{trim_left_space, trim_right_space}
use kati.Strutil.Trim.Blank.{trim_left_space_lem, trim_right_space_lem}
use kati.Parser.{find_handler, get_directive, rest_of, remove_comment, Table}

length-substr : (s : Bytes) (p : ℕ) (n : Option ℕ) → length (substr s p n) ≤ length s - p
unfolding substr
length-substr s p n =
    let q = if ltb (length s) p then length s else p in
    ground (arith, length-take (clamp (length s - q) n) (drop q s), length-drop q s)

length-trim_left : (s : Bytes) → length (trim_left_space s) ≤ length s
length-trim_left s =
    let (b, e, blank, trimmed) = trim_left_space_lem s in
    omega (arith, ap length e, length-append b (trim_left_space s))

length-trim_right : (s : Bytes) → length (trim_right_space s) ≤ length s
length-trim_right s =
    let (b, e, blank, trimmed, parted) = trim_right_space_lem s in
    omega (arith, ap length e, length-append (trim_right_space s) (reverse b))

length-up_to :
    (s : Bytes) (o : Option ℕ)
    → length (elim o [ none ↦ s | some i ↦ substr s 0 (some i) ]) ≤ length s
length-up_to s none = omega arith
length-up_to s (some i) = omega (arith, length-substr s 0 (some i))

length-remove_comment : (s : Bytes) → length (remove_comment s) ≤ length s
unfolding remove_comment
length-remove_comment s = length-up_to s (find_outside_paren s b'#')

named :
    {A : Type 0} (t : Table A) (d : Bytes) {h : A}
    → find_handler t [] ≡ none
    → find_handler t d ≡ some h
    → 0 < length d
named t [] e f = absurd cc
named t (c ∷ d) e f = omega arith

-- Behind a directive that stands in a table with no empty name, there is less of the line.
pub rest_of-shorter :
    {A : Type 0} (t : Table A) (line : Bytes) {h : A}
    → find_handler t [] ≡ none
    → find_handler t (get_directive line) ≡ some h
    → length (rest_of line) < length line
unfolding rest_of
rest_of-shorter t [] e f = absurd (unfold get_directive in cc (e, f))
rest_of-shorter t (c ∷ s) e f =
    let line : Bytes = c ∷ s in
    let behind = substr line (length (get_directive line)) none in
    let open_part = remove_comment (trim_left_space behind) in
    omega (
      arith,
      named t (get_directive line) e f,
      length-trim_right open_part,
      length-remove_comment (trim_left_space behind),
      length-trim_left behind,
      length-substr line (length (get_directive line)) none,
    )
