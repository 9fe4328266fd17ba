-- ===== src/Find/Nodes/Cut.antt =====
-- The first part of a path and the rest, as `FindNodes` of src/find.cc cuts it.
use kati.Prelude.{
  ℕ, zero, suc, ◌+◌, ◌-◌, ◌≡◌, refl, false, none, some, [], ◌∷◌, ◌++◌, arith, Bytes, length,
  length-append, drop, take-append, take-all, ltb, Lacks,
}
use kati.Piece.{substr, index_of, find_byte}
use kati.Strutil.Path.{slash}

index_of-miss : (b : ℕ) (s : Bytes) → Lacks b s → index_of b s ≡ none
unfolding index_of
index_of-miss b [] h = refl
index_of-miss b (x ∷ s) h = ground (arith, h.0, index_of-miss b s h.1)

index_of-hit : (b : ℕ) (s r : Bytes) → Lacks b s → index_of b (s ++ b ∷ r) ≡ some (length s)
unfolding index_of
index_of-hit b [] r h = ground arith
index_of-hit b (x ∷ s) r h = ground (arith, h.0, index_of-hit b s r h.1)

pub find_byte-last : (c : Bytes) → Lacks slash c → find_byte c slash 0 ≡ none
unfolding find_byte
find_byte-last c h = rw (index_of-miss slash c h) (ground arith)

pub find_byte-first :
    (c r : Bytes) → Lacks slash c → find_byte (c ++ slash ∷ r) slash 0 ≡ some (length c)
unfolding find_byte
find_byte-first c r h = rw (index_of-hit slash c r h) (ground (arith, length-append c (slash ∷ r)))

pub substr-all : (c : Bytes) → substr c 0 none ≡ c
unfolding substr
substr-all c =
    let at_start : ltb (length c) 0 ≡ false = ground arith in
    rw at_start (take-all (length c - 0) c (omega arith))

pub substr-front : (c r : Bytes) → substr (c ++ r) 0 (some (length c)) ≡ c
unfolding substr
substr-front c r =
    let at_start : ltb (length (c ++ r)) 0 ≡ false = ground arith in
    let all : ltb (length (c ++ r) - 0) (length c) ≡ false = ground (arith, length-append c r) in
    rw (at_start, all) (take-append (length c) c r refl)

drop-cut : (c r : Bytes) (n : ℕ) → n ≡ suc (length c) → drop n (c ++ slash ∷ r) ≡ r
drop-cut c r zero e = absurd (omega arith)
drop-cut [] r (suc n) e = let at_start : n ≡ 0 = omega arith in rw at_start refl
drop-cut (x ∷ c) r (suc n) e = drop-cut c r n (omega arith)

pub substr-behind : (c r : Bytes) → substr (c ++ slash ∷ r) (length c + 1) none ≡ r
unfolding substr
substr-behind c r =
    let size = length-append c (slash ∷ r) in
    let inside : ltb (length (c ++ slash ∷ r)) (length c + 1) ≡ false = ground (arith, size) in
    let rest : drop (length c + 1) (c ++ slash ∷ r) ≡ r =
      drop-cut c r (length c + 1) (omega arith) in
    rw (inside, rest) (take-all (length (c ++ slash ∷ r) - (length c + 1)) r (omega (arith, size)))
