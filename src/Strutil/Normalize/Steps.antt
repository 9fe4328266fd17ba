-- ===== src/Strutil/Normalize/Steps.antt =====
-- The steps of `NormalizePath` of src/strutil.cc on a path whose front has been rewritten.
use kati.Prelude.{
  ℕ, zero, suc, ◌+◌, ◌-◌, ◌≡◌, ◌≢◌, refl, ap, sym, ◌∙◌, [], ◌∷◌, ◌++◌, append_assoc, arith, Bytes,
  length, length-append, take, drop, take-append, drop-append, get_or, get_or-append_right,
}
use kati.Strutil.Path.{slash}
use kati.Strutil.Normalize.{Walk, set_byte, put_byte, walk_at, end_component, prev_dir}

-- The path is what has been written, a gap and what is left to read.
abbrev pub At : Bytes → Bytes → ℕ → Walk → Type 0
At out rest i w =
    (gap : Bytes) × (w.o ≡ out ++ (gap ++ rest))
    × (w.j ≡ length out)
    × (i ≡ length out + length gap)

pub set_byte-append :
    (out ys : Bytes) (c n : ℕ) → n ≡ length out → set_byte n c (out ++ ys) ≡ out ++ set_byte 0 c ys
unfolding set_byte
set_byte-append [] ys c n e = rw e refl
set_byte-append (x ∷ out) ys c zero e = absurd (omega arith)
set_byte-append (x ∷ out) ys c (suc n) e =
    ap (λ r. x ∷ r) (set_byte-append out ys c n (omega arith))

-- The gap moves on by a byte.
abbrev moved : Bytes → ℕ → Bytes
moved [] c = []
moved (g ∷ gap) c = gap ++ c ∷ []

length-moved : (gap : Bytes) (c : ℕ) → length (moved gap c) ≡ length gap
length-moved [] c = refl
length-moved (g ∷ gap) c = omega (arith, length-append gap (c ∷ []))

set_byte-moved :
    (gap rest : Bytes) (c : ℕ) → set_byte 0 c (gap ++ c ∷ rest) ≡ c ∷ (moved gap c ++ rest)
unfolding set_byte
set_byte-moved [] rest c = refl
set_byte-moved (g ∷ gap) rest c = ap (λ r. c ∷ r) (sym (append_assoc gap (c ∷ []) rest))

pub put_byte-At :
    (out rest : Bytes) (c i : ℕ) (w : Walk)
    → At out (c ∷ rest) i w
    → At (out ++ c ∷ []) rest (i + 1) (put_byte c w)
put_byte-At out rest c i w (gap, eo, ej, ei) = (
  moved gap c,
  ap (λ (o : Bytes). set_byte w.j c o) eo
      ∙ set_byte-append out (gap ++ c ∷ rest) c w.j ej
      ∙ ap (λ (r : Bytes). out ++ r) (set_byte-moved gap rest c)
      ∙ sym (append_assoc out (c ∷ []) (moved gap c ++ rest)),
  omega (arith, length-append out (c ∷ [])),
  omega (arith, length-append out (c ∷ []), length-moved gap c),
)

-- What is behind a new end of what has been written joins the gap.
pub cut-At :
    (out more rest : Bytes) (c i : ℕ) (w : Walk)
    → At (out ++ more) (c ∷ rest) i w
    → At out rest (i + 1) (record w { j = length out })
cut-At out more rest c i w (gap, eo, ej, ei) = (
  more ++ (gap ++ c ∷ []),
  eo ∙ simp append_assoc,
  refl,
  omega (
    arith,
    length-append out more,
    length-append more (gap ++ c ∷ []),
    length-append gap (c ∷ []),
  ),
)

get_or-At : (out rest : Bytes) (c i : ℕ) (w : Walk) → At out (c ∷ rest) i w → get_or w.o i 0 ≡ c
get_or-At out rest c i w (gap, eo, ej, ei) =
    ap (λ (o : Bytes). get_or o i 0) eo
    ∙ get_or-append_right out (gap ++ c ∷ rest) i (length gap) 0 ei
    ∙ get_or-append_right gap (c ∷ rest) (length gap) 0 0 (omega arith)

-- A round at a byte of a component.
pub walk_at-byte :
    (start i c : ℕ) (out rest : Bytes) (w : Walk)
    → c ≢ slash
    → c ≢ 0
    → At out (c ∷ rest) i w
    → walk_at start i w ≡ put_byte c w
unfolding walk_at
walk_at-byte start i c out rest w p q h = rw (get_or-At out rest c i w h) (ground arith)

-- A round at a slash.
pub walk_at-slash :
    (start i : ℕ) (out rest : Bytes) (w : Walk)
    → At out (slash ∷ rest) i w
    → walk_at start i w ≡ (let v = end_component start slash w in record v { prev_start = v.j })
unfolding walk_at
walk_at-slash start i out rest w h = rw (get_or-At out rest slash i w h) refl

-- The round behind the end.
pub walk_at-end :
    (start i : ℕ) (out : Bytes) (w : Walk)
    → At out [] i w
    → walk_at start i w ≡ (let v = end_component start 0 w in record v { prev_start = v.j })
unfolding walk_at
walk_at-end start i out w (gap, eo, ej, ei) =
    let past : get_or w.o i 0 ≡ 0 =
      ap (λ (o : Bytes). get_or o i 0) eo
      ∙ get_or-append_right out (gap ++ []) i (length gap) 0 ei
      ∙ get_or-append_right gap [] (length gap) 0 0 (omega arith) in
    rw past refl

pub prev_dir-between :
    (out c more : Bytes) (w : Walk)
    → w.o ≡ (out ++ c) ++ more
    → w.j ≡ length (out ++ c)
    → w.prev_start ≡ length out
    → prev_dir w ≡ c
prev_dir-between out c more w eo ej ep =
    ap (λ (o : Bytes). take (w.j - w.prev_start) (drop w.prev_start o))
      (eo ∙ append_assoc out c more)
    ∙ ap (λ (s : Bytes). take (w.j - w.prev_start) s) (drop-append w.prev_start out (c ++ more) ep)
    ∙ take-append (w.j - w.prev_start) c more (omega (arith, length-append out c))
