-- ===== src/Func/Texts/Insertion.antt =====
-- The insertion sort that stands for `stable_sort`: it sorts, and keeps what it sorts.
use kati.Prelude.{
  ◌≡◌, ◌≢◌, ◌↔◌, ◌⊎◌, sym, ap, ◌∙◌, inl, inr, true, false, List, [], ◌∷◌, arith, Bytes, Bool-cases,
  All,
}
use kati.Piece.{piece_lt}
use kati.Piece.Order.{piece_lt_trans, piece_lt_total}
use kati.Func.Texts.{insert_word, stable_sort}

-- A word stands in a list.
abbrev pub Stands : Bytes → List Bytes → Type 0
Stands w [] = ⊥
Stands w (t ∷ ts) = (w ≡ t) ⊎ Stands w ts

-- No word is greater than a later one.
abbrev pub Sorted : List Bytes → Type 0
Sorted [] = Unit
Sorted (t ∷ ts) = All (λ u. piece_lt u t ≡ false) ts × Sorted ts

module _ {ℓ} (P : Bytes → Type ℓ) where
  All-insert : (x : Bytes) (ys : List Bytes) → P x → All P ys → All P (insert_word x ys)
  unfolding insert_word
  All-insert x [] px h = (px, tt)
  All-insert x (y ∷ ys) px h = elim (Bool-cases (piece_lt y x)) [
    | inl e ↦ rw e (h.0, All-insert x ys px h.1)
    | inr e ↦ rw e (px, h)
  ]

  pub All-sort : (xs : List Bytes) → All P xs → All P (stable_sort xs)
  unfolding stable_sort
  All-sort [] h = tt
  All-sort (x ∷ xs) h = All-insert x (stable_sort xs) h.0 (All-sort xs h.1)

-- If `y` is not greater than `x` then neither is what `y` is not greater than.
not_less_trans :
    (x y z : Bytes) → piece_lt y x ≡ false → piece_lt z y ≡ false → piece_lt z x ≡ false
not_less_trans x y z h k = elim (Bool-cases (piece_lt z x)) [
  | inr e ↦ e
  | inl e ↦ elim (piece_lt_total x y).1 [
    | inl a ↦ absurd (false-true (sym k ∙ piece_lt_trans z x y e a))
    | inr rest ↦ elim rest [
      | inl b ↦ ap (piece_lt z) b ∙ k
      | inr c ↦ absurd (false-true (sym h ∙ c))
    ]
  ]
]
  where
    false-true : false ≢ true
    false-true = cc

less_not_less : (x y : Bytes) → piece_lt x y ≡ true → piece_lt y x ≡ false
less_not_less x y h = elim (Bool-cases (piece_lt y x)) [
  | inr e ↦ e
  | inl e ↦ ground (arith, piece_lt_trans x y x h e, (piece_lt_total x x).0)
]

module _ {ℓ κ} {P : Bytes → Type ℓ} {Q : Bytes → Type κ} where
  pub All-map : (xs : List Bytes) → ((x : Bytes) → P x → Q x) → All P xs → All Q xs
  All-map [] f h = tt
  All-map (x ∷ xs) f h = (f x h.0, All-map xs f h.1)

insert-Sorted : (x : Bytes) (ys : List Bytes) → Sorted ys → Sorted (insert_word x ys)
unfolding insert_word
insert-Sorted x [] h = (tt, tt)
insert-Sorted x (y ∷ ys) h = elim (Bool-cases (piece_lt y x)) [
  | inl e ↦ rw e (All-insert _ x ys (less_not_less y x e) h.0, insert-Sorted x ys h.1)
  | inr e ↦ rw e ((e, All-map ys (λ u k. not_less_trans x y u e k) h.0), h)
]

pub sort-Sorted : (xs : List Bytes) → Sorted (stable_sort xs)
unfolding stable_sort
sort-Sorted [] = tt
sort-Sorted (x ∷ xs) = insert-Sorted x (stable_sort xs) (sort-Sorted xs)

Stands-insert : (w x : Bytes) (ys : List Bytes) → Stands w (insert_word x ys) ↔ Stands w (x ∷ ys)
unfolding insert_word
Stands-insert w x [] = (λ h. h, λ h. h)
Stands-insert w x (y ∷ ys) =
    let rest = Stands-insert w x ys in
    elim (Bool-cases (piece_lt y x)) [
      | inl e ↦ rw e (ground (arith, rest))
      | inr e ↦ rw e (λ h. h, λ h. h)
    ]

pub Stands-sort : (w : Bytes) (xs : List Bytes) → Stands w (stable_sort xs) ↔ Stands w xs
unfolding stable_sort
Stands-sort w [] = (λ h. h, λ h. h)
Stands-sort w (x ∷ xs) =
    let first = Stands-insert w x (stable_sort xs) in
    let rest = Stands-sort w xs in ground (arith, first, rest)
