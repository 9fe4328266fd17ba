-- ===== src/Find/Tokens.antt =====
-- Tokens that are written with spaces between them, as the lexer of src/find.cc reads them.
use kati.Prelude.{
  ℕ, ◌≡◌, ◌≢◌, refl, ap, ◌∙◌, Bool, true, false, not, ◌&&◌, Option, none, some, List, [], ◌∷◌, ◌++◌,
  arith, Bytes, length, take, drop, take-append, drop-append, All, ==-suc_zero, ◌==◌, if◌then◌else◌,
}
use kati.Piece.{index_of}
use kati.Strutil.Words.{count_until}
use kati.Strutil.Trim.{trim_left_space, backslash}
use kati.Find.Parse.{
  Lexer, ends_token, unquote, word_token, scan_token, get_next_token, get_some_token,
}

-- A byte that is part of a plain token.
abbrev pub is_plain : ℕ → Bool
is_plain c = not (ends_token c) && not (c == backslash) && not (c == b'\'') && not (c == b'"')

-- A token that the lexer takes as it is.
abbrev pub IsToken : Bytes → Type 0
IsToken t = (t ≢ []) × All (λ c. is_plain c ≡ true) t

-- Tokens as a text, with a space before each.
abbrev pub spaced : List Bytes → Bytes
spaced [] = []
spaced (t ∷ ts) = b' ' ∷ (t ++ spaced ts)

abbrev pub lexer_of : List Bytes → Lexer
lexer_of ts = record { cur = spaced ts; unget_tok = [] }

abbrev pub put_back : Bytes → List Bytes → Lexer
put_back t ts = record { cur = spaced ts; unget_tok = t }

trim_left_space-plain : (c : ℕ) (s : Bytes) → is_plain c ≡ true → trim_left_space (c ∷ s) ≡ c ∷ s
unfolding trim_left_space
trim_left_space-plain c [] h = ground arith
trim_left_space-plain c (n ∷ s) h = ground arith

count_until-spaced :
    (t : Bytes) (ts : List Bytes)
    → All (λ c. is_plain c ≡ true) t
    → count_until ends_token (t ++ spaced ts) ≡ length t
unfolding count_until
count_until-spaced [] [] h = refl
count_until-spaced [] (t ∷ ts) h = refl
count_until-spaced (c ∷ t) ts h = ground (arith, h.0, count_until-spaced t ts h.1)

index_of-plain : (t : Bytes) → All (λ c. is_plain c ≡ true) t → index_of backslash t ≡ none
unfolding index_of
index_of-plain [] h = refl
index_of-plain (c ∷ t) h = ground (arith, h.0, index_of-plain t h.1)

unquote-plain :
    (c : ℕ) (t : Bytes) → All (λ d. is_plain d ≡ true) (c ∷ t) → unquote (c ∷ t) ≡ some (c ∷ t)
unfolding unquote
unquote-plain c t h = ground (arith, h.0, index_of-plain (c ∷ t) h)

-- A plain byte is neither of the separators.
not_special {ℓ} :
    {A : Type ℓ} (c : ℕ) (x y z : A) {r : A}
    → is_plain c ≡ true
    → z ≡ r
    → (if c == b';' then x else (if c == b'&' then y else z)) ≡ r
not_special c x y z h e =
    let p : (c == b';') ≡ false = ground (arith, h) in
    let q : (c == b'&') ≡ false = ground (arith, h) in rw p (rw q e)

as_token :
    (o : Option Bytes) (rest t : Bytes) (ts : List Bytes)
    → o ≡ some t
    → rest ≡ spaced ts
    → (elim o as (λ _. Option (Bytes × Lexer)) [
      | none ↦ none
      | some tok ↦ some (tok, record { cur = rest; unget_tok = [] })
    ])
      ≡ some (t, lexer_of ts)
as_token o rest t ts p q = rw p (rw q refl)

word_token-spaced :
    (c : ℕ) (t : Bytes) (ts : List Bytes) (n : ℕ)
    → All (λ d. is_plain d ≡ true) (c ∷ t)
    → n ≡ length (c ∷ t)
    → word_token ((c ∷ t) ++ spaced ts) n ≡ some (c ∷ t, lexer_of ts)
unfolding word_token
word_token-spaced c t ts n h e =
    as_token (unquote (take n ((c ∷ t) ++ spaced ts))) (drop n ((c ∷ t) ++ spaced ts)) (c ∷ t) ts
      (ap unquote (take-append n (c ∷ t) (spaced ts) e) ∙ unquote-plain c t h)
      (drop-append n (c ∷ t) (spaced ts) e)

scan_token-spaced :
    (c : ℕ) (t : Bytes) (ts : List Bytes)
    → All (λ d. is_plain d ≡ true) (c ∷ t)
    → scan_token ((c ∷ t) ++ spaced ts) ≡ some (c ∷ t, lexer_of ts)
unfolding scan_token
scan_token-spaced c t ts h =
    let w = word_token-spaced c t ts _ h (count_until-spaced (c ∷ t) ts h) in
    not_special c _ _ _ h.0 w

pub get_next_token-spaced :
    (t : Bytes) (ts : List Bytes)
    → IsToken t
    → get_next_token (lexer_of (t ∷ ts)) ≡ some (t, lexer_of ts)
unfolding get_next_token
get_next_token-spaced [] ts h = absurd (h.0 refl)
get_next_token-spaced (c ∷ t) ts h =
    ap scan_token (trim_left_space-plain c (t ++ spaced ts) h.1.0) ∙ scan_token-spaced c t ts h.1

pub get_some_token-spaced :
    (t : Bytes) (ts : List Bytes)
    → IsToken t
    → get_some_token (lexer_of (t ∷ ts)) ≡ some (t, lexer_of ts)
unfolding get_some_token
get_some_token-spaced [] ts h = absurd (h.0 refl)
get_some_token-spaced (c ∷ t) ts h =
    rw (get_next_token-spaced (c ∷ t) ts h) (rw (==-suc_zero (length t)) refl)

-- The lexer steps of the parsers, on tokens.
pub get_next_token-back :
    (c : ℕ) (t : Bytes) (ts : List Bytes)
    → get_next_token (put_back (c ∷ t) ts) ≡ some (c ∷ t, lexer_of ts)
unfolding get_next_token
get_next_token-back c t ts = rw (==-suc_zero (length t)) refl
