-- ===== src/Ninja/Escape.antt =====
-- `EscapeNinja` of src/ninja.cc, and what ninja reads of it. The reader of ninja is not part of the
-- repository: it is a parameter, with what its manual says of paths.
use kati.Prelude.{
  ℕ, suc, ◌≤◌, ◌<◌, ◌≡◌, refl, ap, ◌∙◌, Bool, true, false, not, ◌||◌, Option, none, some, [], ◌∷◌,
  ◌++◌, arith, Bytes, length, codes, Bool-cases, inl, inr, ◌==◌, All,
}
use kati.Piece.{get, find_first_of}
use kati.Piece.Search.{IsFirst, has, find_first_of-IsFirst}
use kati.Strutil.Trim.{newline, return}
use kati.Ninja.{escape_loop, escape_ninja}

abbrev pub is_special : ℕ → Bool
is_special c = c == b'$' || c == b':' || c == b' '

-- A byte that can stand in a path in some way: no end of a line, no bar and no NUL byte.
abbrev pub is_path_byte : ℕ → Bool
is_path_byte c = not (c == newline || c == return || c == b'|' || c == 0)

-- What is relied on of a reader of paths, which gives the path and what stands behind it: a dollar
-- takes a dollar, a colon or a space as it is, a space or a colon ends the path, and any other byte of
-- a path stands for itself.
pub record ReadsPaths (read : Bytes → Bytes × Bytes) : Type 0 where
  pub escaped :
      (c : ℕ) (s : Bytes) → is_special c ≡ true → read (b'$' ∷ c ∷ s) ≡ (c ∷ (read s).0, (read s).1)
  pub ends : (c : ℕ) (s : Bytes) → (c == b':' || c == b' ') ≡ true → read (c ∷ s) ≡ ([], c ∷ s)
  pub plain :
      (c : ℕ) (s : Bytes)
      → is_special c ≡ false
      → is_path_byte c ≡ true
      → read (c ∷ s) ≡ (c ∷ (read s).0, (read s).1)

module _ (read : Bytes → Bytes × Bytes) (reads : ReadsPaths read) where
  special :
      (c : ℕ) (t s rest : Bytes)
      → is_special c ≡ true
      → read t ≡ (s, rest)
      → read (b'$' ∷ c ∷ t) ≡ (c ∷ s, rest)
  special c t s rest q e = reads.escaped c t q ∙ ap (λ (r : Bytes × Bytes). (c ∷ r.0, r.1)) e

  ordinary :
      (c : ℕ) (t s rest : Bytes)
      → is_special c ≡ false
      → is_path_byte c ≡ true
      → read t ≡ (s, rest)
      → read (c ∷ t) ≡ (c ∷ s, rest)
  ordinary c t s rest q p e = reads.plain c t q p ∙ ap (λ (r : Bytes × Bytes). (c ∷ r.0, r.1)) e

  read-escape_loop :
      (s : Bytes) (e : ℕ) (rest : Bytes)
      → All (λ c. is_path_byte c ≡ true) s
      → (e == b':' || e == b' ') ≡ true
      → read (escape_loop s ++ e ∷ rest) ≡ (s, e ∷ rest)
  unfolding escape_loop
  read-escape_loop [] e rest p h = reads.ends e rest h
  read-escape_loop (c ∷ s) e rest p h =
      let again = read-escape_loop s e rest p.1 h in
      elim (Bool-cases (is_special c)) [
        | inl q ↦ rw q (special c (escape_loop s ++ e ∷ rest) s (e ∷ rest) q again)
        | inr q ↦ rw q (ordinary c (escape_loop s ++ e ∷ rest) s (e ∷ rest) q p.0 again)
      ]

escape_loop-plain :
    (s : Bytes)
    → ((k : ℕ) → 0 ≤ k → k < length s → has (get s k) (codes "$: ") ≡ false)
    → escape_loop s ≡ s
unfolding escape_loop
escape_loop-plain [] h = refl
escape_loop-plain (c ∷ s) h =
    let q : is_special c ≡ false = ground (arith, h 0 (omega arith) (omega arith)) in
    rw q (ap (λ r. c ∷ r) (escape_loop-plain s (λ k p l. h (suc k) (omega arith) (omega arith))))

escape_ninja-escape_loop : (s : Bytes) → escape_ninja s ≡ escape_loop s
unfolding escape_ninja
escape_ninja-escape_loop s =
    found (find_first_of s (codes "$: ") 0) (find_first_of-IsFirst s (codes "$: ") 0)
  where
    found :
        (o : Option ℕ)
        → IsFirst (λ c. has c (codes "$: ")) s 0 (length s) o
        → (elim o [ none ↦ s | some i ↦ escape_loop s ]) ≡ escape_loop s
    found none h = rw (escape_loop-plain s h) refl
    found (some i) h = refl

-- What `EscapeNinja` makes of a name is read back as that name, up to the space or the colon behind
-- it, whatever follows: by a reader of paths that keeps to the manual of ninja, and for a name with no
-- end of a line, no bar and no NUL byte, which a path of ninja cannot have.
pub read-escape_ninja :
    (read : Bytes → Bytes × Bytes) (s : Bytes) (e : ℕ) (rest : Bytes)
    → ReadsPaths read
    → All (λ c. is_path_byte c ≡ true) s
    → (e == b':' || e == b' ') ≡ true
    → read (escape_ninja s ++ e ∷ rest) ≡ (s, e ∷ rest)
read-escape_ninja read s e rest reads p h =
    ap (λ t. read (t ++ e ∷ rest)) (escape_ninja-escape_loop s)
    ∙ read-escape_loop read reads s e rest p h
