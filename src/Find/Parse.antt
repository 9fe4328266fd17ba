-- ===== src/Find/Parse.antt =====
-- `FindCommandParser` of src/find.cc and `FindCommand::Parse`. A parser runs on the text that is left
-- and the token that was put back; `none` stands for `false` and for a null pointer, after which the
-- whole command is refused. Each call and each round costs a unit of fuel.
use kati.Prelude.{
  ℕ, zero, suc, ◌-◌, Bool, true, false, not, ◌||◌, Option, none, some, [], Bytes, length, take,
  drop, ltb, ◌==◌, if◌then◌else◌, ◌>>=◌, codes, text_eq,
}
use kati.Piece.{get, substr, index_of}
use kati.Strutil.Words.{is_space, count_until}
use kati.Strutil.Trim.{trim_left_space, backslash}
use kati.Find.{
  EntryType, blk, chr, dir, fifo, lnk, reg, sock, FindCond, name_cond, type_cond, not_cond,
  and_cond, or_cond,
}

-- `cur_` and `unget_tok_`.
pub record Lexer : Type 0 where
  pub cur : Bytes
  pub unget_tok : Bytes

abbrev pub ends_token : ℕ → Bool
ends_token c = is_space c || c == b';' || c == b'&'

-- What is left of a token: quotes around it, or a backslash before it.
unfoldable pub unquote : Bytes → Option Bytes
unfolding substr index_of
unquote tok =
    let c = get tok 0 in
    let inner = if c == backslash then drop 1 tok else tok in
    if c == b'\'' || c == b'"'
    then (if ltb (length tok) 2 || not (get tok (length tok - 1) == c)
        then none
        else some (substr tok 1 (some (length tok - 2))))
    else (elim (index_of backslash inner) [ none ↦ some inner | some i ↦ none ])

-- The first `n` bytes as a token.
unfoldable pub word_token : Bytes → ℕ → Option (Bytes × Lexer)
unfolding unquote
word_token cur n = elim (unquote (take n cur)) [
  | none ↦ none
  | some tok ↦ some (tok, record { cur = drop n cur; unget_tok = [] })
]

-- A token of the text with no blanks before it.
unfoldable pub scan_token : Bytes → Option (Bytes × Lexer)
unfolding count_until word_token
scan_token cur =
    let word = word_token cur (count_until ends_token cur) in
    if get cur 0 == b';'
    then some (take 1 cur, record { cur = drop 1 cur; unget_tok = [] })
    else if get cur 0 == b'&'
    then (if not (get cur 1 == b'&')
        then none
        else some (take 2 cur, record { cur = drop 2 cur; unget_tok = [] }))
    else word

-- `GetNextToken`; the token is empty at the end.
unfoldable pub get_next_token : Lexer → Option (Bytes × Lexer)
unfolding scan_token trim_left_space
get_next_token l =
    if not (length l.unget_tok == 0)
    then some (l.unget_tok, record l { unget_tok = [] })
    else scan_token (trim_left_space l.cur)

-- `UngetToken`; `none` where the `CHECK` fails.
unfoldable pub unget_token : Bytes → Lexer → Option Lexer
unget_token tok l =
    if not (length l.unget_tok == 0) then none else some (record l { unget_tok = tok })

-- A token that must be there.
unfoldable pub get_some_token : Lexer → Option (Bytes × Lexer)
unfolding get_next_token
get_some_token l = do (tok, l') ← get_next_token l; if length tok == 0 then none else some (tok, l')

-- A token that must be a given one.
unfoldable pub expect : Bytes → Lexer → Option Lexer
unfolding get_next_token
expect t l = do (tok, l') ← get_next_token l; if text_eq tok t then some l' else none

unfoldable pub parse_type : Bytes → Option EntryType
parse_type tok =
    if text_eq tok (codes "b")
    then some blk
    else if text_eq tok (codes "c")
    then some chr
    else if text_eq tok (codes "d")
    then some dir
    else if text_eq tok (codes "p")
    then some fifo
    else if text_eq tok (codes "l")
    then some lnk
    else if text_eq tok (codes "f")
    then some reg
    else if text_eq tok (codes "s")
    then some sock
    else none

abbrev pub is_not : Bytes → Bool
is_not tok = text_eq tok (codes "-not") || text_eq tok (codes "!")

abbrev pub is_and : Bytes → Bool
is_and tok = text_eq tok (codes "-and") || text_eq tok (codes "-a")

abbrev pub is_or : Bytes → Bool
is_or tok = text_eq tok (codes "-or") || text_eq tok (codes "-o")

-- A token with which a fact starts.
abbrev pub starts_fact : Bytes → Bool
starts_fact tok =
    is_not tok
    || text_eq tok (codes "(")
    || text_eq tok (codes "-name")
    || text_eq tok (codes "-type")

-- What a token at the start of a fact asks for.
pub data Fact : Type 0 where
  negation : Fact
  group : Fact
  name : Fact
  type : Fact
  no_fact : Fact

unfoldable pub fact_of : Bytes → Fact
fact_of tok =
    if is_not tok
    then negation
    else if text_eq tok (codes "(")
    then group
    else if text_eq tok (codes "-name")
    then name
    else if text_eq tok (codes "-type")
    then type
    else no_fact

-- What a token behind a fact asks for.
pub data Joint : Type 0 where
  and_next : Joint
  and_here : Joint
  or_next : Joint
  other : Joint

unfoldable pub joint_of : Bytes → Joint
joint_of tok =
    if is_and tok
    then and_next
    else if starts_fact tok
    then and_here
    else if is_or tok
    then or_next
    else other

unfoldable mutual
  -- `ParseFact`.
  pub parse_fact : ℕ → Bytes → Lexer → Option (FindCond × Lexer)
  parse_fact zero tok l = none
  parse_fact (suc f) tok l = elim (fact_of tok) [
    | no_fact ↦ none
    | negation ↦ do (t, l') ← get_some_token l; (c, l'') ← parse_fact f t l'; some (not_cond c, l'')
    | group ↦ do
      (t, l') ← get_some_token l
      (c, l'') ← parse_cond f t l'
      l''' ← expect (codes ")") l''
      some (c, l''')
    | name ↦ do (t, l') ← get_some_token l; some (name_cond t, l')
    | type ↦ do (t, l') ← get_some_token l; e ← parse_type t; some (type_cond e, l')
  ]

  -- `ParseTerm`.
  pub parse_term : ℕ → Bytes → Lexer → Option (FindCond × Lexer)
  parse_term zero tok l = none
  parse_term (suc f) tok l = do (c, l') ← parse_fact f tok l; parse_facts f c l'

  -- The loop of `ParseTerm`.
  pub parse_facts : ℕ → FindCond → Lexer → Option (FindCond × Lexer)
  parse_facts zero c l = none
  parse_facts (suc f) c l = do
    (tok, l') ← get_next_token l
    elim (joint_of tok) [
      | and_next ↦ do
        (t, l'') ← get_some_token l'
        (d, l''') ← parse_fact f t l''
        parse_facts f (and_cond c d) l'''
      | and_here ↦ do (d, l'') ← parse_fact f tok l'; parse_facts f (and_cond c d) l''
      | or_next ↦ do l'' ← unget_token tok l'; some (c, l'')
      | other ↦ do l'' ← unget_token tok l'; some (c, l'')
    ]

  -- `ParseExpr`, which is `ParseFindCond`.
  pub parse_cond : ℕ → Bytes → Lexer → Option (FindCond × Lexer)
  parse_cond zero tok l = none
  parse_cond (suc f) tok l = do (c, l') ← parse_term f tok l; parse_terms f c l'

  -- The loop of `ParseExpr`.
  pub parse_terms : ℕ → FindCond → Lexer → Option (FindCond × Lexer)
  parse_terms zero c l = none
  parse_terms (suc f) c l = do
    (tok, l') ← get_next_token l
    elim (is_or tok) [
      | false ↦ do l'' ← unget_token tok l'; some (c, l'')
      | true ↦ do
        (t, l'') ← get_some_token l'
        (d, l''') ← parse_term f t l''
        parse_terms f (or_cond c d) l'''
    ]
