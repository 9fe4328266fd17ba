-- ===== src/Ninja.antt =====
-- The texts that src/ninja.cc makes of commands and names. A command of the shell is translated byte by
-- byte into a buffer; `none` stands for a read or a cut in front of the buffer, which the source does not
-- guard against. A text is read up to its first NUL byte, so it has none here.
pub mod Translate
pub mod Escape
pub mod Depfile
pub mod Script
use kati.Prelude.{
  ℕ, zero, suc, ◌+◌, ◌-◌, Bool, true, false, not, ◌&&◌, ◌||◌, Option, none, some, List, [], ◌∷◌,
  ◌++◌, Bytes, length, take, drop, leb, ltb, ◌==◌, if◌then◌else◌, ◌>>=◌, codes, text_eq,
}
use mathlib.Core.List.{reverse}
use kati.Piece.{get, substr, find, find_first_of}
use kati.Strutil.Words.{is_space}
use kati.Strutil.Trim.{newline, backslash, trim_left_space}
use kati.Strutil.Path.{slash, dirname, strip_ext}
use kati.Strutil.Pattern.{has_prefix, has_suffix}

-- The variables of the loop of `TranslateCommand`; `in_comment` holds in its inner loop.
pub record Translation : Type 0 where
  pub buf : Bytes
  pub prev_backslash : Bool
  pub prev_char : ℕ
  pub quote : ℕ
  pub in_comment : Bool

abbrev pub put_text : Bytes → Translation → Translation
put_text s t = record t { buf = t.buf ++ s }

-- The end of a round, at the byte `c`.
abbrev pub end_round : ℕ → Translation → Translation
end_round c t = record t {
  prev_backslash = c == backslash && not t.prev_backslash;
  prev_char = c;
  in_comment = false;
}

-- `resize` to one byte less.
unfoldable pub chop : Bytes → Option Bytes
chop s = if length s == 0 then none else some (take (length s - 1) s)

abbrev pub is_quote : ℕ → Bool
is_quote c = c == b'\'' || c == b'"' || c == b'`'

-- The quote that is open after a quote.
abbrev pub quote_after : ℕ → Translation → ℕ
quote_after c t =
    if not (t.quote == 0)
    then (if t.quote == c then 0 else t.quote)
    else if t.prev_backslash
    then 0
    else c

-- A newline: it goes, with the backslash before it, or a space stands for it.
unfoldable pub end_line : Translation → Option Translation
unfolding chop
end_line t =
    if t.prev_backslash
    then (elim (chop t.buf) [ none ↦ none | some b ↦ some (record t { buf = b }) ])
    else some (put_text (codes " ") t)

-- The `switch` of `TranslateCommand`, outside a comment.
unfoldable pub translate_byte : ℕ → Translation → Option Translation
unfolding end_line
translate_byte c t =
    if is_quote c
    then some (put_text (c ∷ []) (record t { quote = quote_after c t }))
    else if c == b'$'
    then some (put_text (codes "$$") t)
    else if c == newline
    then end_line t
    else some (put_text (c ∷ []) t)

-- A round of the loop, or of the loop over a comment.
unfoldable pub translate_round : ℕ → Bool → Translation → Option Translation
unfolding translate_byte
translate_round c is_end t =
    if t.in_comment
    then some (if is_end || c == newline then end_round c t else t)
    else if c == b'#' && t.quote == 0 && is_space t.prev_char
    then some (if is_end then end_round c t else record t { in_comment = true })
    else (elim (translate_byte c t) [ none ↦ none | some t' ↦ some (end_round c t') ])

-- The loop of `TranslateCommand`.
unfoldable pub translate_loop : Bytes → Translation → Option Translation
unfolding translate_round
translate_loop [] t = some t
translate_loop (c ∷ s) t = elim (translate_round c (length s == 0) t) [
  | none ↦ none
  | some t' ↦ translate_loop s t'
]

-- The last loop of `TranslateCommand`, over the buffer from its end.
unfoldable pub trim_back : Bytes → Option Bytes
trim_back [] = none
trim_back (c ∷ r) = if is_space c || c == b';' then trim_back r else some (c ∷ r)

abbrev pub start_translation : Bytes → Translation
start_translation buf = record {
  buf = buf;
  prev_backslash = false;
  prev_char = b' ';
  quote = 0;
  in_comment = false;
}

-- `TranslateCommand`: the buffer at its end.
unfoldable pub translate_command : Bytes → Bytes → Option Bytes
unfolding translate_loop chop trim_back
translate_command s cmd_buf = do
  t ← translate_loop s (start_translation cmd_buf)
  b ← (if t.prev_backslash then chop t.buf else some t.buf)
  r ← trim_back (reverse b)
  some (reverse r)

-- `IsOutputMkdir`.
unfoldable pub is_output_mkdir : Bytes → Bytes → Bool
unfolding has_prefix substr dirname
is_output_mkdir name cmd =
    let rest = drop 9 cmd in
    let dir =
      if get rest (length rest - 1) == slash && not (length rest == 0)
      then take (length rest - 1) rest
      else rest in
    has_prefix cmd (codes "mkdir -p ") && text_eq dir (dirname name)

-- The loop of `GetDescriptionFromCommand`; `none` where the command is more than one `echo`.
unfoldable pub description_loop : Bool → ℕ → Bytes → Option Bytes
description_loop prev_backslash quote [] = some []
description_loop prev_backslash quote (c ∷ s) =
    let escaped = description_loop false quote s in
    let escaping = description_loop true quote s in
    let plain = description_loop false quote s in
    let closed = description_loop false 0 s in
    let opened = description_loop false c s in
    let kept =
      λ (o : Option Bytes). elim o as (λ _. Option Bytes) [ none ↦ none | some r ↦ some (c ∷ r) ] in
    if prev_backslash
    then kept escaped
    else if c == backslash
    then kept escaping
    else if not (quote == 0)
    then (if c == quote then closed else kept plain)
    else if is_quote c
    then opened
    else if c == b'<' || c == b'>' || c == b'&' || c == b'|' || c == b';'
    then none
    else kept plain

-- `GetDescriptionFromCommand`.
unfoldable pub get_description_from_command : Bytes → Option Bytes
unfolding has_prefix description_loop
get_description_from_command cmd =
    if has_prefix cmd (codes "echo ") then description_loop false 0 (drop 5 cmd) else none

-- `EscapeNinja`.
unfoldable pub escape_loop : Bytes → Bytes
escape_loop [] = []
escape_loop (c ∷ s) =
    if c == b'$' || c == b':' || c == b' ' then b'$' ∷ c ∷ escape_loop s else c ∷ escape_loop s

unfoldable pub escape_ninja : Bytes → Bytes
unfolding find_first_of escape_loop
escape_ninja s = elim (find_first_of s (codes "$: ") 0) [ none ↦ s | some i ↦ escape_loop s ]
