-- ===== src/Strutil/Normalize/Clean.antt =====
-- `NormalizePath` of src/strutil.cc against the reading of a path with a stack.
use kati.Prelude.{
  ℕ, zero, suc, ◌+◌, ◌-◌, ◌≡◌, ◌≢◌, refl, ap, sym, subst, ◌∙◌, inl, inr, Bool, true, false, List,
  [], ◌∷◌, ◌++◌, append-nil, append_assoc, arith, Bytes, length, ◌==◌, All-append, Lacks,
  Bool-cases,
}
use kati.Strutil.Path.{slash}
use kati.Strutil.Normalize.{Walk, put_byte, walk_at, walk_from, end_component, normalize_path}
use kati.Strutil.Normalize.Reference.{
  root, text, joined, push, read_path, normalized, is_double, ends_above, AreNames,
}
use kati.Strutil.Normalize.Steps.{At, put_byte-At, walk_at-byte, walk_at-slash, walk_at-end}
use kati.Strutil.Normalize.Component.{move, make_move, end_component-move}
use kati.Strutil.Normalize.Trim.{trim}
use kati.Strutil.Normalize.Outcome.{slash-At, push-AreNames, comp-end, double-end}

abbrev pub nul_behind : Bool → Bytes
nul_behind true = 0 ∷ []
nul_behind false = []

-- The loop stands behind the components of a stack and a part of the next one.
pub record IsAt (absolute : Bool) (st : List Bytes) (c rest : Bytes) (i : ℕ) (w : Walk)
    : Type 0 where
  pub names : AreNames st
  pub part : Lacks slash c
  pub place : At (text absolute st ++ c) rest i w
  pub start : w.prev_start ≡ length (text absolute st)

module _ (absolute : Bool) where
  round-byte :
      (st : List Bytes) (c rest : Bytes) (x i : ℕ) (w : Walk)
      → x ≢ slash
      → x ≢ 0
      → IsAt absolute st c (x ∷ rest) i w
      → IsAt absolute st (c ++ x ∷ []) rest (i + 1) (walk_at (length (root absolute)) i w)
  round-byte st c rest x i w p q h =
      rw (walk_at-byte (length (root absolute)) i x (text absolute st ++ c) rest w p q h.place)
        (record {
          names = h.names;
          part = All-append _ c (x ∷ []) h.part (p, tt);
          place =
              subst (λ o. At o rest (i + 1) (put_byte x w))
                (append_assoc (text absolute st) c (x ∷ []))
                (put_byte-At (text absolute st ++ c) rest x i w h.place);
          start = h.start;
        })

  -- What the end of a component does, by the stack.
  at-move :
      (st : List Bytes) (c rest : Bytes) (x i : ℕ) (w : Walk)
      → IsAt absolute st c rest i w
      → end_component (length (root absolute)) x w ≡ make_move x w (move (x == 0) absolute st c)
  at-move st c rest x i w h =
      let (gap, eo, ej, ei) = h.place in
      end_component-move absolute st c (gap ++ rest) w x h.names eo ej h.start

  round-slash :
      (st : List Bytes) (c rest : Bytes) (i : ℕ) (w : Walk)
      → IsAt absolute st c (slash ∷ rest) i w
      → IsAt absolute (push absolute st c) [] rest (i + 1) (walk_at (length (root absolute)) i w)
  round-slash st c rest i w h =
      let v = make_move slash w (move false absolute st c) in
      let written = slash-At absolute st c rest i w h.place in
      rw
        (
          walk_at-slash (length (root absolute)) i (text absolute st ++ c) rest w h.place,
          at-move st c (slash ∷ rest) slash i w h,
        )
        (record {
          names = push-AreNames absolute st c h.names h.part;
          part = tt;
          place =
              subst (λ o. At o rest (i + 1) v)
                (sym (append-nil (text absolute (push absolute st c)))) written;
          start = written.2;
        })

  -- The path that the loop leaves is that of what has been read, with a NUL behind a last `..` that
  -- is kept.
  abbrev IsClean : Walk → List Bytes × Bytes → Type 0
  IsClean v r =
      trim v.o v.j ≡ joined absolute (push absolute r.0 r.1) ++ nul_behind (is_double r.0 r.1)

  -- The round behind the last byte of the path, and the end.
  loop-end :
      (st : List Bytes) (c : Bytes) (i : ℕ) (w : Walk)
      → IsAt absolute st c [] i w
      → IsClean (walk_at (length (root absolute)) i w) (st, c)
  loop-end st c i w h =
      let (gap, eo, ej, ei) = h.place in
      rw
        (
          walk_at-end (length (root absolute)) i (text absolute st ++ c) w h.place,
          at-move st c [] 0 i w h,
        )
        (elim (Bool-cases (is_double st c)) [
          | inl twice ↦ rw twice (double-end absolute st c (gap ++ []) w twice eo ej)
          | inr once ↦ rw once (
              comp-end absolute st c (gap ++ []) w h.names h.part once eo ej
              ∙ sym (append-nil (joined absolute (push absolute st c))))
        ])

  read_path-slash :
      (st : List Bytes) (c rest : Bytes) (x : ℕ)
      → (x == slash) ≡ true
      → read_path absolute st c (x ∷ rest) ≡ read_path absolute (push absolute st c) [] rest
  unfolding read_path
  read_path-slash st c rest x e = rw (e, read_path) refl

  read_path-byte :
      (st : List Bytes) (c rest : Bytes) (x : ℕ)
      → (x == slash) ≡ false
      → read_path absolute st c (x ∷ rest) ≡ read_path absolute st (c ++ x ∷ []) rest
  unfolding read_path
  read_path-byte st c rest x e = rw (e, read_path) refl

  loop-lem :
      (rest : Bytes) (st : List Bytes) (c : Bytes) (n i : ℕ) (w : Walk)
      → Lacks 0 rest
      → n ≡ length rest
      → IsAt absolute st c rest i w
      → IsClean (walk_from (suc n) (length (root absolute)) i w) (read_path absolute st c rest)
  unfolding walk_from
  loop-lem [] st c zero i w z e h = unfold read_path in loop-end st c i w h
  loop-lem [] st c (suc n) i w z e h = absurd (omega arith)
  loop-lem (x ∷ rest) st c zero i w z e h = absurd (omega arith)
  loop-lem (x ∷ rest) st c (suc n) i w z e h = elim (Bool-cases (x == slash)) [
    | inl at ↦
        let same : x ≡ slash = ground arith in
        rw (read_path-slash st c rest x at) (
          loop-lem rest (push absolute st c) [] n (i + 1) (walk_at (length (root absolute)) i w) z.1
            (omega arith)
            (round-slash st c rest i w (subst (λ b. IsAt absolute st c (b ∷ rest) i w) same h)))
    | inr other ↦ rw (read_path-byte st c rest x other) (
        loop-lem rest st (c ++ x ∷ []) n (i + 1) (walk_at (length (root absolute)) i w) z.1
          (omega arith) (round-byte st c rest x i w (ground arith) z.0 h))
  ]

module _ (absolute : Bool) (rest : Bytes) where
  abbrev first : Walk
  first = record {
    o = root absolute ++ rest;
    j = length (root absolute);
    prev_start = length (root absolute);
  }

  first-IsAt : IsAt absolute [] [] rest (length (root absolute)) first
  unfolding text
  first-IsAt = record {
    names = tt;
    part = tt;
    place = (
      [],
      ap (λ (o : Bytes). o ++ rest) (sym (append-nil (root absolute))),
      ap (λ (o : Bytes). length o) (sym (append-nil (root absolute))),
      omega (arith, ap (λ (o : Bytes). length o) (append-nil (root absolute))),
    );
    start = refl;
  }

  -- The path that the loop leaves from the start.
  loop-first :
      Lacks 0 rest
      → IsClean absolute
          (walk_from (suc (length rest)) (length (root absolute)) (length (root absolute)) first)
          (read_path absolute [] [] rest)
  loop-first z =
      loop-lem absolute rest [] [] (length rest) (length (root absolute)) first z refl first-IsAt

-- A path from the root, and a relative one.
normalize_path-root :
    (s : Bytes)
    → Lacks 0 (slash ∷ s)
    → normalize_path (slash ∷ s) ≡ normalized (slash ∷ s) ++ nul_behind (ends_above (slash ∷ s))
unfolding normalize_path normalized ends_above trim
normalize_path-root s z =
    let rounds : suc (length s) + 1 - 1 ≡ suc (length s) = omega arith in
    rw rounds (loop-first true s z.1)

normalize_path-relative :
    (b : ℕ) (s : Bytes)
    → (b == slash) ≡ false
    → Lacks 0 (b ∷ s)
    → normalize_path (b ∷ s) ≡ normalized (b ∷ s) ++ nul_behind (ends_above (b ∷ s))
unfolding normalize_path normalized ends_above trim
normalize_path-relative b s e z =
    let rounds : suc (length s) + 1 - 0 ≡ suc (suc (length s)) = omega arith in
    rw (e, rounds) (loop-first false (b ∷ s) z)

-- For every path with no NUL byte, `NormalizePath` gives the path that a reading with a stack of
-- components gives: empty components and `.` are left out, `..` takes away the component before it, is
-- kept behind another `..` and at the start of a relative path, and has no effect at the root. Only a
-- path whose last `..` is kept behind another one has a NUL byte behind that.
pub normalize_path-normalized :
    (s : Bytes) → Lacks 0 s → normalize_path s ≡ normalized s ++ nul_behind (ends_above s)
normalize_path-normalized [] z = unfold normalize_path normalized ends_above in refl
normalize_path-normalized (b ∷ s) z = elim (Bool-cases (b == slash)) [
  | inl at ↦
      let same : b ≡ slash = ground arith in
      subst
        (λ x.
          Lacks 0 (x ∷ s)
          → normalize_path (x ∷ s) ≡ normalized (x ∷ s) ++ nul_behind (ends_above (x ∷ s)))
        (sym same) (normalize_path-root s) z
  | inr other ↦ normalize_path-relative b s other z
]
