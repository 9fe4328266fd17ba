-- ===== src/Func/Texts.antt =====
-- `patsubst`, `strip`, `subst`, `findstring`, `filter`, `filter-out` and `sort` of src/func.cc.
pub mod Replace
pub mod Filter
pub mod Insertion
pub mod Sort
use kati.Prelude.{
  ℕ, zero, suc, ◌+◌, ◌-◌, Bool, true, false, not, ◌||◌, Option, none, some, List, [], ◌∷◌, ◌++◌,
  map, Bytes, length, drop, ltb, ◌==◌, if◌then◌else◌, ◌>>=◌,
}
use kati.Piece.{substr, find, starts_with, piece_eq, piece_lt}
use kati.Strutil.Words.{
  Writer, writer, words, maybe_add_whitespace, append_string, write, write_all,
}
use kati.Strutil.Pattern.{Pattern, pattern_of, match, subst_pattern}

-- The loop of `PatsubstFunc`; `none` where a substitution runs out of fuel.
unfoldable pub patsubst_words : ℕ → Pattern → Bytes → List Bytes → Writer → Option Writer
unfolding subst_pattern maybe_add_whitespace
patsubst_words fuel pat repl [] w = some w
patsubst_words fuel pat repl (tok ∷ toks) w = do
  r ← subst_pattern fuel pat tok repl
  patsubst_words fuel pat repl toks (append_string r (maybe_add_whitespace w))

-- `PatsubstFunc`.
unfoldable pub patsubst_func : ℕ → Bytes → Bytes → Bytes → Bytes → Option Bytes
unfolding patsubst_words pattern_of words
patsubst_func fuel pat_str repl str s = do
  w ← patsubst_words fuel (pattern_of pat_str) repl (words str) (writer s)
  some w.out

-- `StripFunc`.
unfoldable pub strip_func : Bytes → Bytes → Bytes
unfolding words write_all
strip_func str s = (write_all (words str) (writer s)).out

-- The loop of `SubstFunc` and the copy behind it, for a pattern that is not empty. Each round passes
-- a byte.
unfoldable pub subst_loop : ℕ → Bytes → Bytes → Bytes → ℕ → Bytes → Bytes
unfolding find substr
subst_loop zero pat repl str index s = s ++ substr str index none
subst_loop (suc fuel) pat repl str index s = elim (find str pat index) [
  | none ↦ s ++ substr str index none
  | some found ↦
      let next =
        subst_loop fuel pat repl str (found + length pat)
          ((s ++ substr str index (some (found - index))) ++ repl) in
      if ltb index (length str) then next else s ++ substr str index none
]

-- `SubstFunc`.
unfoldable pub subst_func : Bytes → Bytes → Bytes → Bytes → Bytes
unfolding subst_loop
subst_func pat repl str s =
    if length pat == 0 then (s ++ str) ++ repl else subst_loop (length str + 1) pat repl str 0 s

-- `FindstringFunc`.
unfoldable pub findstring_func : Bytes → Bytes → Bytes → Bytes
unfolding find
findstring_func needle text s = elim (find text needle 0) [ none ↦ s | some i ↦ s ++ needle ]

-- The inner loops of `FilterFunc` and `FilterOutFunc`: whether a pattern matches.
unfoldable pub match_any : List Pattern → Bytes → Bool
unfolding match
match_any [] tok = false
match_any (pat ∷ pats) tok = if match pat tok then true else match_any pats tok

abbrev pub patterns_of : Bytes → List Pattern
patterns_of pat_buf = map pattern_of (words pat_buf)

-- The loop of `FilterFunc`.
unfoldable pub filter_words : (Bytes → Bool) → List Bytes → Writer → Writer
unfolding write
filter_words keep [] w = w
filter_words keep (tok ∷ toks) w = filter_words keep toks (if keep tok then write tok w else w)

-- `FilterFunc`.
unfoldable pub filter_func : Bytes → Bytes → Bytes → Bytes
unfolding words pattern_of match_any filter_words
filter_func pat_buf text s =
    let pats = patterns_of pat_buf in (filter_words (match_any pats) (words text) (writer s)).out

-- The loop of `FilterOutFunc`, with its flag.
unfoldable pub filter_out_words : List Pattern → List Bytes → Writer → Writer
unfolding write match_any
filter_out_words pats [] w = w
filter_out_words pats (tok ∷ toks) w =
    let matched = match_any pats tok in
    filter_out_words pats toks (if not matched then write tok w else w)

-- `FilterOutFunc`.
unfoldable pub filter_out_func : Bytes → Bytes → Bytes → Bytes
unfolding words pattern_of filter_out_words
filter_out_func pat_buf text s =
    (filter_out_words (patterns_of pat_buf) (words text) (writer s)).out

-- `std::stable_sort` by `operator<`, as an insertion that keeps equal elements in their order.
unfoldable pub insert_word : Bytes → List Bytes → List Bytes
unfolding piece_lt
insert_word x [] = x ∷ []
insert_word x (y ∷ ys) = if piece_lt y x then y ∷ insert_word x ys else x ∷ y ∷ ys

unfoldable pub stable_sort : List Bytes → List Bytes
unfolding insert_word
stable_sort [] = []
stable_sort (x ∷ xs) = insert_word x (stable_sort xs)

-- The loop of `SortFunc`: a word equal to the last one written is passed over.
unfoldable pub write_changes : Bytes → List Bytes → Writer → Writer
unfolding write piece_eq
write_changes prev [] w = w
write_changes prev (tok ∷ toks) w =
    let changed = write_changes tok toks (write tok w) in
    let same = write_changes prev toks w in if not (piece_eq prev tok) then changed else same

-- `SortFunc`; a default `StringPiece` is empty.
unfoldable pub sort_func : Bytes → Bytes → Bytes
unfolding words stable_sort write_changes
sort_func list s = (write_changes [] (stable_sort (words list)) (writer s)).out
