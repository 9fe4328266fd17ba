-- ===== src/Strutil/Normalize/Outcome.antt =====
-- What `NormalizePath` of src/strutil.cc has written after a component, by the stack.
use kati.Prelude.{
  ℕ, ◌+◌, ◌≡◌, refl, ap, subst, ◌∙◌, inl, inr, if_intro, Bool, true, false, List, [], ◌∷◌, ◌++◌,
  append-nil, append_assoc, arith, Bytes, length, length-append, text_eq, text_eq→eq, codes, Lacks,
  Bool-cases,
}
use kati.Strutil.Path.{slash}
use kati.Strutil.Normalize.{Walk, put_byte}
use kati.Strutil.Normalize.Reference.{
  dots, root, text, joined, up, push, is_double, IsName, AreNames,
}
use kati.Strutil.Normalize.Steps.{At, put_byte-At, cut-At}
use kati.Strutil.Normalize.Component.{move, move_up, make_move}
use kati.Strutil.Normalize.Trim.{trim, trim-nul, trim-name, trim-text}

stay-At : (out rest : Bytes) (c i : ℕ) (w : Walk) → At out (c ∷ rest) i w → At out rest (i + 1) w
stay-At out rest c i w (gap, eo, ej, ei) =
    (gap ++ c ∷ [], eo ∙ simp append_assoc, ej, omega (arith, length-append gap (c ∷ [])))

At-eq : (out out' rest : Bytes) (i : ℕ) (w : Walk) → out ≡ out' → At out rest i w → At out' rest i w
At-eq out out' rest i w e h = subst (λ o. At o rest i w) e h

-- The component that a slash ends is written with the slash, if it goes on the stack.
put-text :
    (absolute : Bool) (st : List Bytes) (c rest : Bytes) (i : ℕ) (w : Walk)
    → At (text absolute st ++ c) (slash ∷ rest) i w
    → At (text absolute (c ∷ st)) rest (i + 1) (put_byte slash w)
unfolding text
put-text absolute st c rest i w h =
    At-eq _ _ rest (i + 1) (put_byte slash w) (append_assoc (text absolute st) c (slash ∷ []))
      (put_byte-At (text absolute st ++ c) rest slash i w h)

up-At :
    (absolute : Bool) (st : List Bytes) (rest : Bytes) (i : ℕ) (w : Walk)
    → At (text absolute st ++ dots) (slash ∷ rest) i w
    → At
        (text absolute (up absolute st))
        rest
        (i + 1)
        (make_move slash w (move_up false absolute st))
unfolding up
up-At true [] rest i w h = unfold text in cut-At (root true) dots rest slash i w h
up-At false [] rest i w h = put-text false [] dots rest i w h
up-At absolute (d ∷ st) rest i w h = elim (Bool-cases (text_eq d dots)) [
  | inl e ↦ rw e (put-text absolute (d ∷ st) dots rest i w h)
  | inr e ↦ rw e (
      cut-At (text absolute st) (d ++ slash ∷ dots) rest slash i w (
        At-eq (text absolute (d ∷ st) ++ dots) (text absolute st ++ (d ++ slash ∷ dots))
          (slash ∷ rest) i w (unfold text in simp append_assoc) h))
]

pub slash-At :
    (absolute : Bool) (st : List Bytes) (c rest : Bytes) (i : ℕ) (w : Walk)
    → At (text absolute st ++ c) (slash ∷ rest) i w
    → At
        (text absolute (push absolute st c))
        rest
        (i + 1)
        (make_move slash w (move false absolute st c))
unfolding push
slash-At absolute st [] rest i w h =
    stay-At (text absolute st) rest slash i w
      (At-eq _ _ (slash ∷ rest) i w (append-nil (text absolute st)) h)
slash-At absolute st (b ∷ c) rest i w h = elim (Bool-cases (text_eq (b ∷ c) (codes "."))) [
  | inl e ↦ rw e (cut-At (text absolute st) (b ∷ c) rest slash i w h)
  | inr ne ↦ elim (Bool-cases (text_eq (b ∷ c) dots)) [
    | inl e ↦
        rw (ne, e)
          (up-At absolute st rest i w (
            At-eq _ _ (slash ∷ rest) i w
              (ap (λ (t : Bytes). text absolute st ++ t) (text_eq→eq (b ∷ c) dots e)) h))
    | inr other ↦ rw (ne, other) (put-text absolute st (b ∷ c) rest i w h)
  ]
]

dots-IsName : IsName dots
dots-IsName = (omega arith, (omega arith, (omega arith, tt)))

up-AreNames : (absolute : Bool) (st : List Bytes) → AreNames st → AreNames (up absolute st)
unfolding up
up-AreNames true [] names = tt
up-AreNames false [] names = (dots-IsName, tt)
up-AreNames absolute (d ∷ st) names =
    if_intro AreNames (text_eq d dots) (λ _. (dots-IsName, names)) (λ _. names.1)

pub push-AreNames :
    (absolute : Bool) (st : List Bytes) (c : Bytes)
    → AreNames st
    → Lacks slash c
    → AreNames (push absolute st c)
unfolding push
push-AreNames absolute st [] names h = names
push-AreNames absolute st (b ∷ c) names h =
    if_intro AreNames (text_eq (b ∷ c) (codes ".")) (λ _. names)
      (λ _.
        if_intro AreNames (text_eq (b ∷ c) dots) (λ _. up-AreNames absolute st names)
          (λ _. ((omega arith, h), names)))

-- What the round behind the end leaves is the path of the stack, unless the last `..` is kept behind
-- another.
up-end :
    (absolute : Bool) (st : List Bytes) (more : Bytes) (w : Walk)
    → AreNames st
    → is_double st dots ≡ false
    → w.o ≡ (text absolute st ++ dots) ++ more
    → w.j ≡ length (text absolute st ++ dots)
    → (let v = make_move 0 w (move_up true absolute st) in trim v.o v.j)
      ≡ joined absolute (up absolute st)
unfolding up
up-end true [] more w names once eo ej =
    trim-text true [] (dots ++ more) w.o 1 tt (eo ∙ unfold text in refl) (unfold text in refl)
up-end false [] more w names once eo ej =
    trim-name (text false []) dots more w.o w.j dots-IsName eo ej ∙ unfold joined in refl
up-end absolute (d ∷ st) more w names once eo ej = elim (Bool-cases (text_eq d dots)) [
  | inl e ↦ absurd (ground arith)
  | inr e ↦ rw e (
      trim-text absolute st (d ++ slash ∷ (dots ++ more)) w.o (length (text absolute st)) names.1
        (eo ∙ unfold text in simp append_assoc) refl)
]

pub comp-end :
    (absolute : Bool) (st : List Bytes) (c more : Bytes) (w : Walk)
    → AreNames st
    → Lacks slash c
    → is_double st c ≡ false
    → w.o ≡ (text absolute st ++ c) ++ more
    → w.j ≡ length (text absolute st ++ c)
    → (let v = make_move 0 w (move true absolute st c) in trim v.o v.j)
      ≡ joined absolute (push absolute st c)
unfolding push
comp-end absolute st [] more w names h once eo ej =
    trim-text absolute st more w.o w.j names
      (eo ∙ ap (λ (t : Bytes). t ++ more) (append-nil (text absolute st)))
      (ej ∙ ap (λ (t : Bytes). length t) (append-nil (text absolute st)))
comp-end absolute st (b ∷ c) more w names h once eo ej =
    elim (Bool-cases (text_eq (b ∷ c) (codes "."))) [
      | inl e ↦ rw e (
          trim-text absolute st ((b ∷ c) ++ more) w.o (length (text absolute st)) names
            (eo ∙ append_assoc (text absolute st) (b ∷ c) more) refl)
      | inr ne ↦ elim (Bool-cases (text_eq (b ∷ c) dots)) [
        | inl e ↦
            let same : b ∷ c ≡ dots = text_eq→eq (b ∷ c) dots e in
            rw (ne, e)
              (up-end absolute st more w names (subst (λ k. is_double st k ≡ false) same once)
                (subst (λ k. w.o ≡ (text absolute st ++ k) ++ more) same eo)
                (subst (λ k. w.j ≡ length (text absolute st ++ k)) same ej))
        | inr other ↦
            rw (ne, other)
              (trim-name (text absolute st) (b ∷ c) more w.o w.j (omega arith, h) eo ej
                ∙ unfold joined in refl)
      ]
    ]

-- A last `..` that is kept has a NUL behind it.
pub double-end :
    (absolute : Bool) (st : List Bytes) (c more : Bytes) (w : Walk)
    → is_double st c ≡ true
    → w.o ≡ (text absolute st ++ c) ++ more
    → w.j ≡ length (text absolute st ++ c)
    → (let v = make_move 0 w (move true absolute st c) in trim v.o v.j)
      ≡ joined absolute (push absolute st c) ++ 0 ∷ []
unfolding push up joined
double-end absolute [] c more w twice eo ej = absurd (cc)
double-end absolute (d ∷ st) c more w twice eo ej =
    let same : c ≡ dots = text_eq→eq c dots (ground arith) in
    let top : text_eq d dots ≡ true = ground arith in
    rw same (
      rw top (
        trim-nul (text absolute (d ∷ st) ++ dots) more w.o w.j
          (subst (λ k. w.o ≡ (text absolute (d ∷ st) ++ k) ++ more) same eo)
          (subst (λ k. w.j ≡ length (text absolute (d ∷ st) ++ k)) same ej)))
