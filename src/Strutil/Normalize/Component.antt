-- ===== src/Strutil/Normalize/Component.antt =====
-- What `NormalizePath` of src/strutil.cc does at the end of a component, by the stack of the
-- components that have been written.
use kati.Prelude.{
  ℕ, suc, ◌+◌, ◌-◌, ◌≡◌, refl, ap, sym, subst, ◌∙◌, ◌⊎◌, inl, inr, Bool, true, false, not, ◌&&◌,
  none, some, List, [], ◌∷◌, ◌++◌, append_assoc, arith, Bytes, length, length-append, take, drop,
  drop-append, text_eq, text_eq→eq, ◌==◌, if◌then◌else◌, codes, Bool-cases,
}
use kati.Piece.{rfind}
use kati.Piece.Last.{rfind-hit, rfind-miss}
use kati.Strutil.Path.{slash}
use kati.Strutil.Normalize.{Walk, put_byte, parent_start, go_up, end_component, prev_dir}
use kati.Strutil.Normalize.Reference.{dots, root, is_empty, text, IsName, AreNames}
use kati.Strutil.Normalize.Steps.{prev_dir-between}

-- The end of what has been written goes back, a byte is written, or nothing is done.
pub data Move : Type 0 where
  cut : Bytes → Move
  keep : Move
  stay : Move

abbrev pub move_up : Bool → Bool → List Bytes → Move
move_up at_end true [] = cut (root true)
move_up at_end false [] = if at_end then stay else keep
move_up at_end absolute (d ∷ st) = if text_eq d dots then keep else cut (text absolute st)

abbrev pub move : Bool → Bool → List Bytes → Bytes → Move
move at_end absolute st c =
    if text_eq c (codes ".")
    then cut (text absolute st)
    else if text_eq c dots
    then move_up at_end absolute st
    else if not (is_empty c) && not at_end
    then keep
    else stay

abbrev pub make_move : ℕ → Walk → Move → Walk
make_move c w (cut out) = record w { j = length out }
make_move c w keep = put_byte c w
make_move c w stay = w

-- A stack is written with a slash at its end, or it is the empty one of a relative path.
text-slash :
    (absolute : Bool) (st : List Bytes)
    → ((text absolute st ≡ []) × (length (root absolute) ≡ 0))
      ⊎ ((l : Bytes) × (text absolute st ≡ l ++ slash ∷ []))
unfolding text
text-slash true [] = inr ([], refl)
text-slash false [] = inl (refl, refl)
text-slash absolute (c ∷ st) =
    inr (text absolute st ++ c, sym (append_assoc (text absolute st) c (slash ∷ [])))

-- The search for the slash before the parent finds where its stack ends.
rfind-text :
    (absolute : Bool) (st : List Bytes) (d more : Bytes) (k : ℕ)
    → IsName d
    → suc k ≡ length (text absolute st) + length d
    → (elim (rfind (text absolute st ++ (d ++ more)) slash (some k)) [
      | none ↦ length (root absolute)
      | some i ↦ i + 1
    ])
      ≡ length (text absolute st)
rfind-text absolute st d more k name e = elim (text-slash absolute st) [
  | inl (empty, at_start) ↦
      rw
        (
          empty,
          rfind-miss slash d more k name.1 (omega (arith, ap (λ (t : Bytes). length t) empty)),
        )
        at_start
  | inr (l, full) ↦
      let size : length (l ++ slash ∷ []) ≡ length l + 1 = length-append l (slash ∷ []) in
      rw
        (
          full,
          append_assoc l (slash ∷ []) (d ++ more),
          rfind-hit slash l d more k name.1
              (omega (arith, ap (λ (t : Bytes). length t) full, size)),
        )
        (sym size)
]

-- What stands behind the parent is `../` only if the parent is `..`.
dots-text_eq :
    (d more : Bytes)
    → IsName d
    → text_eq (take 3 (d ++ slash ∷ more)) (codes "../") ≡ text_eq d dots
dots-text_eq [] more name = absurd (omega arith)
dots-text_eq (x ∷ []) more name = ground arith
dots-text_eq (x ∷ y ∷ []) more name = ground arith
dots-text_eq (x ∷ y ∷ z ∷ d) more name = ground arith

go_up-root : (start c : ℕ) (w : Walk) → w.j ≡ 3 → go_up start c w ≡ record w { j = start }
unfolding go_up
go_up-root start c w e = let t : (w.j == 3) ≡ true = ground arith in rw t refl

module _ (absolute : Bool) (d : Bytes) (st : List Bytes) (name : IsName d) (more : Bytes) (w : Walk)
    (eo : w.o ≡ (text absolute (d ∷ st) ++ dots) ++ more)
    (ej : w.j ≡ length (text absolute (d ∷ st) ++ dots)) where
  path-parent : w.o ≡ text absolute st ++ (d ++ slash ∷ (dots ++ more))
  unfolding text
  path-parent = eo ∙ simp append_assoc

  place-parent : w.j ≡ length (text absolute st) + length d + 3
  unfolding text
  place-parent = omega (
    arith,
    ej,
    length-append (text absolute (d ∷ st)) dots,
    length-append (text absolute st) (d ++ slash ∷ []),
    length-append d (slash ∷ []),
  )

  parent_start-text : parent_start (length (root absolute)) w ≡ length (text absolute st)
  unfolding parent_start
  parent_start-text =
      ap
        (λ (o : Bytes). elim (rfind o slash (some (w.j - 4))) as (λ _. ℕ) [
          | none ↦ length (root absolute)
          | some i ↦ i + 1
        ])
        path-parent
      ∙ rfind-text absolute st d (slash ∷ (dots ++ more)) (w.j - 4) name
          (omega (arith, place-parent))

  parent-dots :
      text_eq (take 3 (drop (parent_start (length (root absolute)) w) w.o)) (codes "../")
      ≡ text_eq d dots
  parent-dots =
      ap
        (λ (o : Bytes).
          text_eq (take 3 (drop (parent_start (length (root absolute)) w) o)) (codes "../"))
        path-parent
      ∙ ap (λ (t : Bytes). text_eq (take 3 t) (codes "../"))
          (drop-append (parent_start (length (root absolute)) w) (text absolute st)
            (d ++ slash ∷ (dots ++ more)) parent_start-text)
      ∙ dots-text_eq d (dots ++ more) name

  go_up-parent :
      (c : ℕ)
      → go_up (length (root absolute)) c w ≡ make_move c w (move_up (c == 0) absolute (d ∷ st))
  unfolding go_up
  go_up-parent c =
      let far : (w.j == 3) ≡ false = ground (arith, place-parent) in
      elim (Bool-cases (text_eq d dots)) [
        | inl e ↦ rw (far, parent-dots, e) refl
        | inr e ↦ rw (far, parent-dots, e, parent_start-text) refl
      ]

-- The branches of `end_component` at `..`.
end-dots :
    (absolute : Bool) (st : List Bytes) (more : Bytes) (w : Walk) (c : ℕ)
    → AreNames st
    → w.o ≡ (text absolute st ++ dots) ++ more
    → w.j ≡ length (text absolute st ++ dots)
    → (if not (w.j == 2)
        then go_up (length (root absolute)) c w
        else if not (c == 0)
        then put_byte c w
        else w)
      ≡ make_move c w (move_up (c == 0) absolute st)
end-dots true [] more w c names eo ej =
    let three : w.j ≡ 3 = unfold text in ej in
    let far : (w.j == 2) ≡ false = ground arith in rw far (go_up-root 1 c w three)
end-dots false [] more w c names eo ej =
    let two : w.j ≡ 2 = unfold text in ej in
    let near : (w.j == 2) ≡ true = ground arith in rw near (ground arith)
end-dots absolute (d ∷ st) more w c names eo ej =
    let far : (w.j == 2) ≡ false =
      ground (arith, place-parent absolute d st names.0 more w eo ej) in
    rw far (go_up-parent absolute d st names.0 more w eo ej c)

is_empty-length : (c : Bytes) → (length c == 0) ≡ is_empty c
is_empty-length [] = refl
is_empty-length (b ∷ c) = ground arith

-- The end of a component, whatever it is.
pub end_component-move :
    (absolute : Bool) (st : List Bytes) (comp more : Bytes) (w : Walk) (c : ℕ)
    → AreNames st
    → w.o ≡ (text absolute st ++ comp) ++ more
    → w.j ≡ length (text absolute st ++ comp)
    → w.prev_start ≡ length (text absolute st)
    → end_component (length (root absolute)) c w ≡ make_move c w (move (c == 0) absolute st comp)
unfolding end_component
end_component-move absolute st comp more w c names eo ej ep =
    let prev : prev_dir w ≡ comp = prev_dir-between (text absolute st) comp more w eo ej ep in
    elim (Bool-cases (text_eq comp (codes "."))) [
      | inl e ↦
          let one : length comp ≡ 1 =
            ap (λ (t : Bytes). length t) (text_eq→eq comp (codes ".") e) in
          rw (prev, e)
            (ap (λ (j : ℕ). record w { j = j })
              (omega (arith, length-append (text absolute st) comp)))
      | inr ne ↦ elim (Bool-cases (text_eq comp dots)) [
        | inl e ↦
            let same : comp ≡ dots = text_eq→eq comp dots e in
            rw (prev, ne, e, same)
              (end-dots absolute st more w c names
                (subst (λ k. w.o ≡ (text absolute st ++ k) ++ more) same eo)
                (subst (λ k. w.j ≡ length (text absolute st ++ k)) same ej))
        | inr other ↦ rw (prev, ne, other, is_empty-length comp) (ground arith)
      ]
    ]
