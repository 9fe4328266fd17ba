-- ===== src/Strutil/Escape.antt =====
-- `EchoEscape` and `EscapeShell` of src/strutil.cc.
pub mod Echo
pub mod Shell
use kati.Prelude.{
  ℕ, zero, suc, ◌+◌, ◌-◌, Bool, true, false, ◌&&◌, ◌||◌, Option, none, some, List, [], ◌∷◌, ◌++◌,
  Bytes, length, drop, ltb, ◌==◌, if◌then◌else◌,
}
use kati.Piece.{get, substr}
use kati.Strutil.Words.{skip_until}

abbrev pub backslash : ℕ
backslash = b'\\'

abbrev pub quote : ℕ
quote = b'"'

abbrev pub dollar : ℕ
dollar = b'$'

abbrev pub backquote : ℕ
backquote = b'`'

-- What one round of `EchoEscape` appends.
unfoldable pub echo_byte : ℕ → Bytes
echo_byte c =
    if c == backslash
    then backslash ∷ backslash ∷ backslash ∷ backslash ∷ []
    else if c == b'\n'
    then backslash ∷ b'n' ∷ []
    else if c == quote
    then backslash ∷ quote ∷ []
    else c ∷ []

-- `EchoEscape`: the loop over a C string ends at a NUL byte.
unfoldable pub echo_escape : Bytes → Bytes
unfolding echo_byte
echo_escape [] = []
echo_escape (c ∷ s) = if c == 0 then [] else echo_byte c ++ echo_escape s

-- The delimiters of `EscapeShell`.
abbrev pub is_delimiter : ℕ → Bool
is_delimiter c = c == quote || c == dollar || c == backslash || c == backquote

-- Two dollar signs at `i`.
abbrev pub is_double : Bytes → ℕ → Bool
is_double s i = get s i == dollar && get s (i + 1) == dollar

-- The loop of `EscapeShell`: `prev` is where the text that is not yet copied begins. Each round
-- passes a byte.
unfoldable pub escape_loop : ℕ → Bytes → ℕ → ℕ → Bytes → Bytes
unfolding skip_until substr
escape_loop zero s prev i r = r
escape_loop (suc fuel) s prev i r =
    let i' = if is_double s i then i + 1 else i in
    let r' = r ++ substr s prev (some (i - prev)) in
    let mark = if is_double s i then backslash ∷ dollar ∷ [] else backslash ∷ [] in
    let next =
      escape_loop fuel s (i' + 1) (i' + 1 + skip_until (drop (i' + 1) s) is_delimiter)
        (r' ++ (mark ++ get s i ∷ [])) in
    if ltb i (length s) then next else r ++ substr s prev none

unfoldable pub escape_shell : Bytes → Bytes
unfolding escape_loop
escape_shell s =
    let i = skip_until s is_delimiter in
    if i == length s then s else escape_loop (length s + 1) s 0 i []
