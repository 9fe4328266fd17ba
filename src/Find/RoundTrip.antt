-- ===== src/Find/RoundTrip.antt =====
-- Conditions of src/find.cc printed as arguments of `find`, with parentheses, and parsed again.
use kati.Prelude.{ℕ, zero, suc, ◌+◌, ◌≤◌, ◌≡◌, refl, ◌∙◌, some, List, [], ◌∷◌, arith, Bytes, codes}
use kati.Find.{
  EntryType, blk, chr, dir, fifo, lnk, reg, sock, FindCond, name_cond, type_cond, not_cond,
  and_cond, or_cond,
}
use kati.Find.Parse.{
  Lexer, unget_token, expect, parse_type, fact_of, joint_of, parse_fact, parse_term, parse_facts,
  parse_cond, parse_terms,
}
use kati.Find.Tokens.{
  IsToken, lexer_of, put_back, get_next_token-spaced, get_some_token-spaced, get_next_token-back,
}

-- The letter of `-type`.
abbrev pub letter : EntryType → Bytes
letter blk = codes "b"
letter chr = codes "c"
letter dir = codes "d"
letter fifo = codes "p"
letter lnk = codes "l"
letter reg = codes "f"
letter sock = codes "s"

letter-IsToken : (t : EntryType) → IsToken (letter t)
letter-IsToken blk = ((cc), (refl, tt))
letter-IsToken chr = ((cc), (refl, tt))
letter-IsToken dir = ((cc), (refl, tt))
letter-IsToken fifo = ((cc), (refl, tt))
letter-IsToken lnk = ((cc), (refl, tt))
letter-IsToken reg = ((cc), (refl, tt))
letter-IsToken sock = ((cc), (refl, tt))

parse_type-letter : (t : EntryType) → parse_type (letter t) ≡ some t
unfolding parse_type
parse_type-letter blk = refl
parse_type-letter chr = refl
parse_type-letter dir = refl
parse_type-letter fifo = refl
parse_type-letter lnk = refl
parse_type-letter reg = refl
parse_type-letter sock = refl

-- A condition as tokens: the first, and the others before some that follow.
abbrev pub head : FindCond → Bytes
head (name_cond n) = codes "-name"
head (type_cond t) = codes "-type"
head (not_cond c) = codes "!"
head (and_cond c d) = codes "("
head (or_cond c d) = codes "("

unfoldable pub tail : FindCond → List Bytes → List Bytes
tail (name_cond n) ts = n ∷ ts
tail (type_cond t) ts = letter t ∷ ts
tail (not_cond c) ts = head c ∷ tail c ts
tail (and_cond c d) ts = head c ∷ tail c (codes "-a" ∷ head d ∷ tail d (codes ")" ∷ ts))
tail (or_cond c d) ts = head c ∷ tail c (codes "-o" ∷ head d ∷ tail d (codes ")" ∷ ts))

-- The names in it are tokens.
abbrev pub IsPrintable : FindCond → Type 0
IsPrintable (name_cond n) = IsToken n
IsPrintable (type_cond t) = Unit {0}
IsPrintable (not_cond c) = IsPrintable c
IsPrintable (and_cond c d) = IsPrintable c × IsPrintable d
IsPrintable (or_cond c d) = IsPrintable c × IsPrintable d

-- The fuel that parsing takes.
unfoldable pub cost : FindCond → ℕ
cost (name_cond n) = 1
cost (type_cond t) = 1
cost (not_cond c) = 1 + cost c
cost (and_cond c d) = 6 + cost c + cost d
cost (or_cond c d) = 6 + cost c + cost d

head-IsToken : (c : FindCond) → IsToken (head c)
head-IsToken (name_cond n) = ((cc), (refl, (refl, (refl, (refl, (refl, tt))))))
head-IsToken (type_cond t) = ((cc), (refl, (refl, (refl, (refl, (refl, tt))))))
head-IsToken (not_cond c) = ((cc), (refl, tt))
head-IsToken (and_cond c d) = ((cc), (refl, tt))
head-IsToken (or_cond c d) = ((cc), (refl, tt))

two-IsToken : IsToken (codes "-a") × IsToken (codes "-o") × IsToken (codes ")")
two-IsToken = (((cc), (refl, (refl, tt))), ((cc), (refl, (refl, tt))), ((cc), (refl, tt)))

-- The rounds at a closing parenthesis and at `-o`, which stay in front.
facts-end :
    (f : ℕ) (c : FindCond) (ts : List Bytes)
    → parse_facts (suc f) c (lexer_of (codes ")" ∷ ts)) ≡ some (c, put_back (codes ")") ts)
unfolding parse_facts unget_token joint_of
facts-end f c ts = rw (get_next_token-spaced (codes ")") ts two-IsToken.2) refl

facts-or :
    (f : ℕ) (c : FindCond) (ts : List Bytes)
    → parse_facts (suc f) c (lexer_of (codes "-o" ∷ ts)) ≡ some (c, put_back (codes "-o") ts)
unfolding parse_facts unget_token joint_of
facts-or f c ts = rw (get_next_token-spaced (codes "-o") ts two-IsToken.1) refl

terms-end :
    (f : ℕ) (c : FindCond) (ts : List Bytes)
    → parse_terms (suc f) c (put_back (codes ")") ts) ≡ some (c, put_back (codes ")") ts)
unfolding parse_terms unget_token
terms-end f c ts = rw (get_next_token-back b')' [] ts) refl

-- A condition that parses as a fact, in front of any tokens.
abbrev Parses : ℕ → FindCond → Type 0
Parses f c =
    (ts : List Bytes) → parse_fact f (head c) (lexer_of (tail c ts)) ≡ some (c, lexer_of ts)

facts-and :
    (f : ℕ) (c d : FindCond) (ts : List Bytes)
    → Parses (suc f) d
    → parse_facts (suc (suc f)) c (lexer_of (codes "-a" ∷ head d ∷ tail d (codes ")" ∷ ts)))
      ≡ some (and_cond c d, put_back (codes ")") ts)
unfolding parse_facts joint_of
facts-and f c d ts h =
    rw (get_next_token-spaced (codes "-a") (head d ∷ tail d (codes ")" ∷ ts)) two-IsToken.0) (
      rw (get_some_token-spaced (head d) (tail d (codes ")" ∷ ts)) (head-IsToken d))
        (rw (h (codes ")" ∷ ts)) (facts-end f (and_cond c d) ts)))

term-from :
    (f : ℕ) (t : Bytes) (l l' : Lexer) (c : FindCond)
    → parse_fact f t l ≡ some (c, l')
    → parse_term (suc f) t l ≡ parse_facts f c l'
unfolding parse_term
term-from f t l l' c h = rw h refl

cond-from :
    (f : ℕ) (t : Bytes) (l l' : Lexer) (c : FindCond)
    → parse_term f t l ≡ some (c, l')
    → parse_cond (suc f) t l ≡ parse_terms f c l'
unfolding parse_cond
cond-from f t l l' c h = rw h refl

expect-back : (ts : List Bytes) → expect (codes ")") (put_back (codes ")") ts) ≡ some (lexer_of ts)
unfolding expect
expect-back ts = refl

-- A condition in parentheses.
group-from :
    (f : ℕ) (t : Bytes) (inside ts : List Bytes) (c : FindCond)
    → IsToken t
    → parse_cond f t (lexer_of inside) ≡ some (c, put_back (codes ")") ts)
    → parse_fact (suc f) (codes "(") (lexer_of (t ∷ inside)) ≡ some (c, lexer_of ts)
unfolding parse_fact fact_of
group-from f t inside ts c p h =
    rw (get_some_token-spaced t inside p) (rw h (rw (expect-back ts) refl))

group-and :
    (k : ℕ) (c d : FindCond) (ts : List Bytes)
    → Parses (suc (suc k)) c
    → Parses (suc k) d
    → parse_fact
        (suc (suc (suc (suc (suc k)))))
        (head (and_cond c d))
        (lexer_of (tail (and_cond c d) ts))
      ≡ some (and_cond c d, lexer_of ts)
unfolding tail
group-and k c d ts h g =
    let more = codes "-a" ∷ head d ∷ tail d (codes ")" ∷ ts) in
    group-from (suc (suc (suc (suc k)))) (head c) (tail c more) ts (and_cond c d) (head-IsToken c) (
      cond-from (suc (suc (suc k))) (head c) (lexer_of (tail c more)) (put_back (codes ")") ts)
        (and_cond c d)
        (term-from (suc (suc k)) (head c) (lexer_of (tail c more)) (lexer_of more) c (h more)
          ∙ facts-and k c d ts g)
      ∙ terms-end (suc (suc k)) (and_cond c d) ts)

terms-or :
    (k : ℕ) (c d : FindCond) (ts : List Bytes)
    → Parses (suc k) d
    → parse_terms (suc (suc (suc k))) c (put_back (codes "-o") (head d ∷ tail d (codes ")" ∷ ts)))
      ≡ some (or_cond c d, put_back (codes ")") ts)
unfolding parse_terms
terms-or k c d ts g =
    let more = head d ∷ tail d (codes ")" ∷ ts) in
    rw (get_next_token-back b'-' (codes "o") more) (
      rw (get_some_token-spaced (head d) (tail d (codes ")" ∷ ts)) (head-IsToken d)) (
        rw
          (term-from (suc k) (head d) (lexer_of (tail d (codes ")" ∷ ts)))
              (lexer_of (codes ")" ∷ ts)) d (g (codes ")" ∷ ts))
            ∙ facts-end k d ts)
          (terms-end (suc k) (or_cond c d) ts)))

group-or :
    (k : ℕ) (c d : FindCond) (ts : List Bytes)
    → Parses (suc (suc k)) c
    → Parses (suc k) d
    → parse_fact
        (suc (suc (suc (suc (suc k)))))
        (head (or_cond c d))
        (lexer_of (tail (or_cond c d) ts))
      ≡ some (or_cond c d, lexer_of ts)
unfolding tail
group-or k c d ts h g =
    let more = codes "-o" ∷ head d ∷ tail d (codes ")" ∷ ts) in
    let back = put_back (codes "-o") (head d ∷ tail d (codes ")" ∷ ts)) in
    group-from (suc (suc (suc (suc k)))) (head c) (tail c more) ts (or_cond c d) (head-IsToken c) (
      cond-from (suc (suc (suc k))) (head c) (lexer_of (tail c more)) back c (
        term-from (suc (suc k)) (head c) (lexer_of (tail c more)) (lexer_of more) c (h more)
        ∙ facts-or (suc k) c (head d ∷ tail d (codes ")" ∷ ts)))
      ∙ terms-or k c d ts g)

-- Each condition, printed with parentheses round `-a` and `-o`, is parsed to itself, with whatever
-- tokens follow left to be read, if its names are plain tokens and the fuel is at least its cost.
pub parse_fact-print :
    (c : FindCond) (f : ℕ) (ts : List Bytes)
    → IsPrintable c
    → cost c ≤ f
    → parse_fact f (head c) (lexer_of (tail c ts)) ≡ some (c, lexer_of ts)
unfolding parse_fact fact_of tail cost
parse_fact-print (name_cond n) zero ts p h = absurd (omega arith)
parse_fact-print (name_cond n) (suc f) ts p h = rw (get_some_token-spaced n ts p) refl
parse_fact-print (type_cond t) zero ts p h = absurd (omega arith)
parse_fact-print (type_cond t) (suc f) ts p h =
    rw (get_some_token-spaced (letter t) ts (letter-IsToken t)) (rw (parse_type-letter t) refl)
parse_fact-print (not_cond c) zero ts p h = absurd (omega arith)
parse_fact-print (not_cond c) (suc f) ts p h =
    rw (get_some_token-spaced (head c) (tail c ts) (head-IsToken c))
      (rw (parse_fact-print c f ts p (omega arith)) refl)
parse_fact-print (and_cond c d) zero ts p h = absurd (omega arith)
parse_fact-print (and_cond c d) (suc zero) ts p h = absurd (omega arith)
parse_fact-print (and_cond c d) (suc (suc zero)) ts p h = absurd (omega arith)
parse_fact-print (and_cond c d) (suc (suc (suc zero))) ts p h = absurd (omega arith)
parse_fact-print (and_cond c d) (suc (suc (suc (suc zero)))) ts p h = absurd (omega arith)
parse_fact-print (and_cond c d) (suc (suc (suc (suc (suc k))))) ts p h =
    group-and k c d ts (λ us. parse_fact-print c (suc (suc k)) us p.0 (omega arith))
      (λ us. parse_fact-print d (suc k) us p.1 (omega arith))
parse_fact-print (or_cond c d) zero ts p h = absurd (omega arith)
parse_fact-print (or_cond c d) (suc zero) ts p h = absurd (omega arith)
parse_fact-print (or_cond c d) (suc (suc zero)) ts p h = absurd (omega arith)
parse_fact-print (or_cond c d) (suc (suc (suc zero))) ts p h = absurd (omega arith)
parse_fact-print (or_cond c d) (suc (suc (suc (suc zero)))) ts p h = absurd (omega arith)
parse_fact-print (or_cond c d) (suc (suc (suc (suc (suc k))))) ts p h =
    group-or k c d ts (λ us. parse_fact-print c (suc (suc k)) us p.0 (omega arith))
      (λ us. parse_fact-print d (suc k) us p.1 (omega arith))
