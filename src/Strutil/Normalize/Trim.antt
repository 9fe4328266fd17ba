-- ===== src/Strutil/Normalize/Trim.antt =====
-- The end of `NormalizePath` of src/strutil.cc: a slash at the end of what has been written is taken
-- away, and the string is cut there.
use kati.Prelude.{
  ℕ, suc, ◌+◌, ◌-◌, ◌<◌, ◌≡◌, ◌≢◌, refl, ap, ◌∙◌, Bool, true, false, ◌&&◌, List, [], ◌∷◌, ◌++◌,
  append_assoc, arith, Bytes, length, length-append, take, take-append, get_or, get_or-append_left,
  get_or-append_right, All-get_or, ltb, ◌==◌, if◌then◌else◌,
}
use kati.Strutil.Path.{slash}
use kati.Strutil.Normalize.{resize, set_byte}
use kati.Strutil.Normalize.Steps.{set_byte-append}
use kati.Strutil.Normalize.Reference.{text, joined, IsName, AreNames}

unfoldable pub trim : Bytes → ℕ → Bytes
trim o j = resize (if ltb 1 j && get_or o (j - 1) 0 == slash then j - 1 else j) o

-- A path that does not end in a slash stays.
pub trim-name :
    (out c more o : Bytes) (j : ℕ)
    → IsName c
    → o ≡ (out ++ c) ++ more
    → j ≡ length (out ++ c)
    → trim o j ≡ out ++ c
unfolding trim
trim-name out c more o j name eo ej =
    let last : get_or o (j - 1) 0 ≡ get_or c (length c - 1) 0 =
      ap (λ (t : Bytes). get_or t (j - 1) 0) (eo ∙ append_assoc out c more)
      ∙ get_or-append_right out (c ++ more) (j - 1) (length c - 1) 0
          (omega (arith, length-append out c))
      ∙ get_or-append_left c more (length c - 1) 0 (omega arith) in
    let other : get_or c (length c - 1) 0 ≢ slash =
      All-get_or _ c (length c - 1) 0 name.1 (omega arith) in
    let keeps : (ltb 1 j && get_or o (j - 1) 0 == slash) ≡ false = ground arith in
    rw keeps (
      ap (λ (t : Bytes). take j (t ++ 0 ∷ [])) eo
      ∙ ap (λ (t : Bytes). take j t) (append_assoc (out ++ c) more (0 ∷ []))
      ∙ take-append j (out ++ c) (more ++ 0 ∷ []) ej)

trim-slash :
    (out more o : Bytes) (j : ℕ)
    → 0 < length out
    → o ≡ out ++ slash ∷ more
    → j ≡ suc (length out)
    → trim o j ≡ out
unfolding trim
trim-slash out more o j long eo ej =
    let last : get_or o (j - 1) 0 ≡ slash =
      ap (λ (t : Bytes). get_or t (j - 1) 0) eo
      ∙ get_or-append_right out (slash ∷ more) (j - 1) 0 0 (omega arith) in
    let cuts : (ltb 1 j && get_or o (j - 1) 0 == slash) ≡ true = ground arith in
    rw cuts (
      ap (λ (t : Bytes). take (j - 1) (t ++ 0 ∷ [])) eo
      ∙ ap (λ (t : Bytes). take (j - 1) t) (append_assoc out (slash ∷ more) (0 ∷ []))
      ∙ take-append (j - 1) out (slash ∷ (more ++ 0 ∷ [])) (omega arith))

-- A stack that is written with its slash becomes the path.
pub trim-text :
    (absolute : Bool) (st : List Bytes) (more o : Bytes) (j : ℕ)
    → AreNames st
    → o ≡ text absolute st ++ more
    → j ≡ length (text absolute st)
    → trim o j ≡ joined absolute st
unfolding text joined
trim-text true [] more o j names eo ej = rw (ej, eo) (unfold trim in refl)
trim-text false [] more o j names eo ej = rw (ej, eo) (unfold trim in refl)
trim-text absolute (c ∷ st) more o j names eo ej =
    trim-slash (text absolute st ++ c) more o j
      (omega (arith, length-append (text absolute st) c, names.0.0)) (eo ∙ simp append_assoc)
      (omega (
        arith,
        ej,
        length-append (text absolute st) (c ++ slash ∷ []),
        length-append (text absolute st) c,
        length-append c (slash ∷ []),
      ))

-- The byte that is written behind the end.
written :
    (out gap : Bytes)
    → take (suc (length out)) ((out ++ set_byte 0 0 gap) ++ 0 ∷ []) ≡ out ++ 0 ∷ []
unfolding set_byte
written [] [] = refl
written [] (g ∷ gap) = refl
written (x ∷ out) gap = ap (λ (t : Bytes). x ∷ t) (written out gap)

nul-at : (gap : Bytes) → get_or (set_byte 0 0 gap) 0 0 ≡ 0
unfolding set_byte
nul-at [] = refl
nul-at (g ∷ gap) = refl

-- A NUL that is written behind a path stays.
pub trim-nul :
    (out gap o : Bytes) (j : ℕ)
    → o ≡ out ++ gap
    → j ≡ length out
    → trim (set_byte j 0 o) (j + 1) ≡ out ++ 0 ∷ []
unfolding trim
trim-nul out gap o j eo ej =
    let stored : set_byte j 0 o ≡ out ++ set_byte 0 0 gap =
      ap (λ (t : Bytes). set_byte j 0 t) eo ∙ set_byte-append out gap 0 j ej in
    let last : get_or (set_byte j 0 o) (j + 1 - 1) 0 ≡ 0 =
      ap (λ (t : Bytes). get_or t (j + 1 - 1) 0) stored
      ∙ get_or-append_right out (set_byte 0 0 gap) (j + 1 - 1) 0 0 (omega arith)
      ∙ nul-at gap in
    let keeps : (ltb 1 (j + 1) && get_or (set_byte j 0 o) (j + 1 - 1) 0 == slash) ≡ false =
      ground arith in
    let size : j + 1 ≡ suc (length out) = omega arith in
    rw (keeps, size)
      (ap (λ (t : Bytes). take (suc (length out)) (t ++ 0 ∷ [])) stored ∙ written out gap)
