-- ===== src/Expr/Scan.antt =====
-- The rounds of the loop of `ParseExprImpl` in src/expr.cc, and what is before and behind the loop.
-- `terms` is the list of its bytes, and `none` for a null pointer.
use kati.Prelude.{
  ℕ, suc, ◌+◌, ◌-◌, Bool, true, false, not, ◌&&◌, ◌||◌, Option, none, some, List, [], ◌∷◌, ◌++◌,
  Bytes, length, take, drop, leb, ltb, ◌==◌, if◌then◌else◌, codes,
}
use kati.Piece.{get, substr}
use kati.Strutil.Trim.{newline, return, backslash, trim_right_space}
use kati.Rule.{Loc}
use kati.Expr.{Value, literal, new_expr}

-- `ParseExprOpt`.
pub data ParseExprOpt : Type 0 where
  normal : ParseExprOpt
  define : ParseExprOpt
  command : ParseExprOpt
  func_args : ParseExprOpt

-- `ShouldHandleComments`.
abbrev pub should_handle_comments : ParseExprOpt → Bool
should_handle_comments ParseExprOpt.normal = true
should_handle_comments ParseExprOpt.define = false
should_handle_comments ParseExprOpt.command = false
should_handle_comments ParseExprOpt.func_args = true

abbrev pub is_func_args : ParseExprOpt → Bool
is_func_args ParseExprOpt.func_args = true
is_func_args _ = false

abbrev pub is_command : ParseExprOpt → Bool
is_command ParseExprOpt.command = true
is_command _ = false

-- `CloseParen`; 0 where the byte opens nothing.
unfoldable pub close_paren : ℕ → ℕ
close_paren c = if c == b'(' then b')' else if c == b'{' then b'}' else 0

-- `strchr(terms, c)`, which finds the NUL byte at the end too.
unfoldable pub strchr : Bytes → ℕ → Bool
strchr [] c = c == 0
strchr (t ∷ terms) c = t == c || strchr terms c

-- `terms && strchr(terms, c)`.
unfoldable pub is_term : Option Bytes → ℕ → Bool
unfolding strchr
is_term none c = false
is_term (some terms) c = strchr terms c

abbrev pub is_null : Option Bytes → Bool
is_null none = true
is_null (some terms) = false

-- `loc->lineno++`.
abbrev pub next_line : Loc → Loc
next_line loc = record loc { lineno = elim loc.lineno [ none ↦ none | some n ↦ some (n + 1) ] }

abbrev pub is_newline : ℕ → Bool
is_newline c = c == return || c == newline

-- How a parser ends: with what it read, the place behind it, and the location.
pub data Parsed (A : Type 0) : Type 0 where
  parsed : A → ℕ → Loc → Parsed A
  stopped : Bytes → Parsed A
  out_of_fuel : Parsed A

-- The variables of the loop of `ParseExprImpl`.
pub record Scan : Type 0 where
  pub i : ℕ
  pub b : ℕ
  pub save_paren : ℕ
  pub paren_depth : ℕ
  pub terms : Option Bytes
  pub list : List Value
  pub loc : Loc

-- How a round of the loop ends: the loop is left, at a location; the function returns at a place; a `$` is parsed;
-- or the next round comes.
pub data Round : Type 0 where
  leave : Loc → Round
  give : List Value → ℕ → Round
  dollar : List Value → Round
  next : Scan → Round

-- The list with the text since `b`, if there is any.
abbrev pub flush : Bytes → Scan → List Value
flush s w = if ltb w.b w.i then w.list ++ literal (substr s w.b (some (w.i - w.b))) ∷ [] else w.list

-- The end of a comment: a newline with no backslash before it, over the rest of the text.
unfoldable pub comment_end : Bool → Bytes → ℕ
comment_end was_backslash [] = 0
comment_end was_backslash (c ∷ s) =
    if c == newline && not was_backslash
    then 0
    else suc (comment_end (not was_backslash && c == backslash) s)

-- The loop over escaped newlines, spaces and tabs: how many bytes it skips, and the location.
unfoldable pub skip_blank : Bytes → Loc → ℕ × Loc
skip_blank [] loc = (0, loc)
skip_blank (c ∷ []) loc = (if c == b' ' || c == b'\t' then 1 else 0, loc)
skip_blank (c ∷ n ∷ s) loc =
    let (one, loc_one) = skip_blank (n ∷ s) loc in
    let (two, loc_two) = skip_blank s (next_line loc) in
    if c == backslash && is_newline n
    then (two + 2, loc_two)
    else if c == b' ' || c == b'\t'
    then (one + 1, loc_one)
    else (0, loc)

-- A newline behind a backslash: a space stands for it and for the blanks behind it.
unfoldable pub join_line : Bytes → Scan → Scan
unfolding substr trim_right_space skip_blank
join_line s w =
    let before =
      if ltb w.b w.i
      then w.list ++ literal (trim_right_space (substr s w.b (some (w.i - w.b)))) ∷ []
      else w.list in
    let start =
      if get s (w.i + 1) == return && get s (w.i + 2) == newline then w.i + 3 else w.i + 2 in
    let (n, loc) = skip_blank (drop start s) (next_line w.loc) in
    record w { i = start + n; b = start + n; list = before ++ literal (codes " ") ∷ []; loc = loc }

-- A `$` at `i`.
unfoldable pub dollar_round : Bytes → Scan → Round
unfolding is_term substr
dollar_round s w =
    let n = get s (w.i + 1) in
    if leb (length s) (w.i + 1)
    then leave w.loc
    else if n == b'$'
    then next (record w { i = w.i + 2; b = w.i + 2; list = flush s w ++ literal (codes "$") ∷ [] })
    else if is_term w.terms n
    then give (flush s w ++ literal (codes "$") ∷ []) (w.i + 1)
    else dollar (flush s w)

-- An open parenthesis in the arguments of a function: the first of `terms` does not count up to the
-- one that closes it.
unfoldable pub open_round : ℕ → Scan → Round
unfolding close_paren
open_round c w =
    let w' = record w { i = w.i + 1 } in
    let deeper = record w' { paren_depth = w.paren_depth + 1 } in
    elim w.terms [
      | none ↦ next (if close_paren c == w.save_paren then deeper else w')
      | some [] ↦ next (if close_paren c == w.save_paren then deeper else w')
      | some (t ∷ ts) ↦ next (
          if t == close_paren c
          then record deeper { save_paren = close_paren c; terms = some ts }
          else if close_paren c == w.save_paren
          then deeper
          else w')
    ]

-- The parenthesis that closes the outermost of those gives `terms` its first byte back. With no such
-- parenthesis open, the depth of the source falls below 0, which nothing reads.
unfoldable pub close_round : ℕ → Scan → Scan
close_round c w =
    if c == w.save_paren
    then (if w.paren_depth == 1
        then record w {
          paren_depth = 0;
          save_paren = 0;
          terms = elim w.terms [ none ↦ none | some ts ↦ some (w.save_paren ∷ ts) ];
        }
        else record w { paren_depth = w.paren_depth - 1 })
    else w

-- A backslash at `i`, if it escapes something.
unfoldable pub backslash_round : ParseExprOpt → Bytes → Scan → Round
unfolding is_term join_line substr
backslash_round opt s w =
    let n = get s (w.i + 1) in
    if n == backslash
    then next (record w { i = w.i + 2 })
    else if n == b'#' && should_handle_comments opt
    then next (record w {
      i = w.i + 2;
      b = w.i + 1;
      list = w.list ++ literal (substr s w.b (some (w.i - w.b))) ∷ [];
    })
    else if is_newline n
    then (if is_term w.terms b' ' then leave (next_line w.loc) else next (join_line s w))
    else next (record w { i = w.i + 1 })

-- One round of the loop, with its test.
unfoldable pub scan_round : ParseExprOpt → Bytes → Scan → Round
unfolding is_term comment_end dollar_round open_round close_round backslash_round substr
scan_round opt s w =
    let c = get s w.i in
    if leb (length s) w.i
    then leave w.loc
    else if is_term w.terms c && w.save_paren == 0
    then leave w.loc
    else if is_null w.terms && c == b'#' && should_handle_comments opt
    then give (flush s w) (w.i + comment_end false (drop w.i s))
    else if c == b'$'
    then dollar_round s w
    else if (c == b'(' || c == b'{') && is_func_args opt
    then open_round c w
    else if c == backslash && ltb (w.i + 1) (length s) && not (is_command opt)
    then backslash_round opt s w
    else next (close_round c (record w { i = w.i + 1 }))

-- What is behind the loop.
unfoldable pub finish : Bool → Loc → Bytes → Scan → Loc → Parsed Value
unfolding substr trim_right_space new_expr
finish trim_right list_loc s w loc =
    let rest = substr s w.b (some (w.i - w.b)) in
    let rest' = if trim_right then trim_right_space rest else rest in
    parsed
      (new_expr list_loc
        (if ltb w.b w.i && not (length rest' == 0) then w.list ++ literal rest' ∷ [] else w.list))
      w.i loc

-- `remove_suffix(1)` of a carriage return.
unfoldable pub chop_return : Bytes → Bytes
chop_return s = if get s (length s - 1) == return then take (length s - 1) s else s

abbrev pub start_scan : Option Bytes → Loc → Scan
start_scan terms loc = record {
  i = 0;
  b = 0;
  save_paren = 0;
  paren_depth = 0;
  terms = terms;
  list = [];
  loc = loc;
}
