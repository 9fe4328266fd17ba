-- ===== src/Strutil/Pattern.antt =====
-- Prefixes, suffixes and the class `Pattern` of src/strutil.cc.
-- A `size_t` difference wraps around at 2 to the 64th; `ssize_t` differences are compared as orders.
pub mod Affix
pub mod Wild
pub mod Substitute
pub mod Subst
use kati.Prelude.{
  ℕ, zero, suc, ◌+◌, ◌-◌, ◌%◌, ◌^◌, Bool, true, false, not, ◌&&◌, ◌||◌, Option, none, some, List,
  [], ◌∷◌, ◌++◌, Bytes, length, take, drop, leb, ltb, ◌==◌, if◌then◌else◌, text_eq,
}
use kati.Piece.{substr, find_byte, rfind}

abbrev pub percent : ℕ
percent = b'%'

-- `HasPrefix`, `HasSuffix`.
unfoldable pub has_prefix : Bytes → Bytes → Bool
unfolding substr
has_prefix str prefix =
    leb (length prefix) (length str) && text_eq (substr str 0 (some (length prefix))) prefix

unfoldable pub has_suffix : Bytes → Bytes → Bool
unfolding substr
has_suffix str suffix =
    leb (length suffix) (length str)
    && text_eq (substr str (length str - length suffix) none) suffix

-- `TrimPrefix`, `TrimSuffix`.
unfoldable pub trim_prefix : Bytes → Bytes → Bytes
unfolding substr
trim_prefix str prefix =
    if ltb (length str) (length prefix)
      || not (text_eq (substr str 0 (some (length prefix))) prefix)
    then str
    else substr str (length prefix) none

unfoldable pub trim_suffix : Bytes → Bytes → Bytes
unfolding substr
trim_suffix str suffix =
    if ltb (length str) (length suffix)
      || not (text_eq (substr str (length str - length suffix) none) suffix)
    then str
    else substr str 0 (some (length str - length suffix))

-- A pattern with the place of its first percent sign.
pub record Pattern : Type 0 where
  pub pat : Bytes
  pub percent_index : Option ℕ

unfoldable pub pattern_of : Bytes → Pattern
unfolding find_byte
pattern_of pat = record { pat = pat; percent_index = find_byte pat percent 0 }

-- `MatchImpl`, for a pattern with a percent sign at `i`.
unfoldable pub match_impl : Bytes → ℕ → Bytes → Bool
unfolding has_prefix has_suffix
match_impl pat i str =
    has_prefix str (substr pat 0 (some i)) && has_suffix str (substr pat (i + 1) none)

-- `Match`.
unfoldable pub match : Pattern → Bytes → Bool
unfolding match_impl
match p str = elim p.percent_index [ none ↦ text_eq str p.pat | some i ↦ match_impl p.pat i str ]

-- `str.size() - pat_.size() + 1` in `size_t`.
unfoldable pub stem_size : Bytes → Bytes → ℕ
stem_size pat str = (length str + 2 ^ 64 - length pat + 1) % 2 ^ 64

-- `Stem`; for a pattern with no percent sign the place is `npos`, past the end of every text.
unfoldable pub stem : Pattern → Bytes → Bytes
unfolding match stem_size
stem p str =
    if not (match p str)
    then []
    else (elim p.percent_index [ none ↦ [] | some i ↦ substr str i (some (stem_size p.pat str)) ])

-- `str.replace(i, 1, stem)`.
abbrev pub replace_one : Bytes → ℕ → Bytes → Bytes
replace_one s i stem = take i s ++ (stem ++ drop (suc i) s)

-- `i - 1` as the last place of the next search: `npos` where `i` is 0.
abbrev pub before : ℕ → Option ℕ
before zero = none
before (suc i) = some i

-- `while ((i = s.rfind('%', i - 1)) != npos) s.replace(i, 1, stem);`. `none` means that the fuel ran
-- out. The search starts at the end; where `i` is 0 it starts at the end again.
unfoldable pub fill : ℕ → Bytes → Option ℕ → Bytes → Option Bytes
unfolding rfind
fill zero s last stem = none
fill (suc fuel) s last stem = elim (rfind s percent last) [
  | none ↦ some s
  | some i ↦ fill fuel (replace_one s i stem) (before i) stem
]

-- `AppendSubst`, without the append.
unfoldable pub subst_pattern : ℕ → Pattern → Bytes → Bytes → Option Bytes
unfolding match_impl stem_size fill
subst_pattern fuel p str subst = elim p.percent_index [
  | none ↦ some (if text_eq str p.pat then subst else str)
  | some i ↦
      let filled = fill fuel subst none (substr str i (some (stem_size p.pat str))) in
      if match_impl p.pat i str then filled else some str
]

-- `AppendSubstRef`, without the append.
unfoldable pub subst_ref : ℕ → Pattern → Bytes → Bytes → Option Bytes
unfolding subst_pattern trim_suffix
subst_ref fuel p str subst = elim p.percent_index [
  | none ↦ some (trim_suffix str p.pat ++ subst)
  | some i ↦ elim (find_byte subst percent 0) [
    | none ↦ some (trim_suffix str p.pat ++ subst)
    | some j ↦ subst_pattern fuel p str subst
  ]
]
