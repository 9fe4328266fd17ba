-- ===== src/Func/Texts/Sort.antt =====
-- `SortFunc` sorts the words and writes each of them once.
use kati.Prelude.{
  ◌≡◌, ◌≢◌, ◌↔◌, ◌⊎◌, refl, sym, ◌∙◌, inl, inr, true, false, not, List, [], ◌∷◌, ◌++◌, Bytes,
  if◌then◌else◌, Bool-cases, All, Lacks, IsBytes, ◌||◌, ◌==◌, All-append,
}
use kati.Piece.{piece_lt, piece_eq}
use kati.Piece.Order.{piece_eq_iff, piece_lt_trans, piece_lt_total, piece_order}
use kati.Strutil.Words.{Writer, writer, words, write, write_all}
use kati.Strutil.Words.RoundTrip.{IsWord, words-write_all, words-IsWord}
use kati.Strutil.Words.{is_space}
use kati.Strutil.Words.Reference.{between, inside, words-between}
use kati.Func.Texts.{stable_sort, write_changes, sort_func}
use kati.Func.Texts.Insertion.{Stands, Sorted, All-sort, All-map, sort-Sorted, Stands-sort}

-- Each word is less than the next one.
abbrev pub Rising : List Bytes → Type 0
Rising [] = Unit
Rising (t ∷ ts) = All (λ u. piece_lt t u ≡ true) ts × Rising ts

-- What the loop keeps: a word equal to the last kept one is dropped.
distinct : Bytes → List Bytes → List Bytes
distinct prev [] = []
distinct prev (t ∷ ts) =
    let changed = t ∷ distinct t ts in
    let same = distinct prev ts in if not (piece_eq prev t) then changed else same

write_changes-distinct :
    (prev : Bytes) (ts : List Bytes) (w : Writer)
    → write_changes prev ts w ≡ write_all (distinct prev ts) w
unfolding write_changes write_all distinct
write_changes-distinct prev [] w = refl
write_changes-distinct prev (t ∷ ts) w = elim (Bool-cases (piece_eq prev t)) [
  | inl e ↦ rw e (write_changes-distinct prev ts w)
  | inr e ↦ rw e (write_changes-distinct t ts (write t w))
]

module _ {ℓ} (P : Bytes → Type ℓ) where
  All-distinct : (prev : Bytes) (xs : List Bytes) → All P xs → All P (distinct prev xs)
  unfolding distinct
  All-distinct prev [] h = tt
  All-distinct prev (x ∷ xs) h = elim (Bool-cases (piece_eq prev x)) [
    | inl e ↦ rw e (All-distinct prev xs h.1)
    | inr e ↦ rw e (h.0, All-distinct x xs h.1)
  ]

-- Of two different texts the one that is not less is greater.
less_of_differ :
    (x y : Bytes)
    → IsBytes x
    → IsBytes y
    → piece_eq x y ≡ false
    → piece_lt y x ≡ false
    → piece_lt x y ≡ true
less_of_differ x y hx hy e h = elim (piece_lt_total x y).1 [
  | inl a ↦ a
  | inr rest ↦ elim rest [
    | inl b ↦ absurd (clash (sym e ∙ (piece_eq_iff x y hx hy).1 b))
    | inr c ↦ absurd (clash (sym h ∙ c))
  ]
]
  where
    clash : false ≢ true
    clash = cc

distinct-Rising :
    (prev : Bytes) (ts : List Bytes)
    → IsBytes prev
    → All IsBytes ts
    → All (λ u. piece_lt u prev ≡ false) ts
    → Sorted ts
    → All (λ u. piece_lt prev u ≡ true) (distinct prev ts) × Rising (distinct prev ts)
unfolding distinct
distinct-Rising prev [] hp hb ha hs = (tt, tt)
distinct-Rising prev (t ∷ ts) hp hb ha hs =
    let changed = distinct-Rising t ts hb.0 hb.1 hs.0 hs.1 in
    let same = distinct-Rising prev ts hp hb.1 ha.1 hs.1 in
    elim (Bool-cases (piece_eq prev t)) [
      | inl e ↦ rw e same
      | inr e ↦
          let less = less_of_differ prev t hp hb.0 e ha.0 in
          rw e ((less, All-map _ (λ u k. piece_lt_trans prev t u less k) changed.0), changed)
    ]

Stands-distinct :
    (w prev : Bytes) (ts : List Bytes)
    → IsBytes prev
    → All IsBytes ts
    → (Stands w (distinct prev ts) → Stands w ts)
      × (Stands w ts → (w ≡ prev) ⊎ Stands w (distinct prev ts))
unfolding distinct
Stands-distinct w prev [] hp hb = (λ h. h, λ h. inr h)
Stands-distinct w prev (t ∷ ts) hp hb =
    let changed = Stands-distinct w t ts hb.0 hb.1 in
    let same = Stands-distinct w prev ts hp hb.1 in
    elim (Bool-cases (piece_eq prev t)) [
      | inl e ↦
          let p : prev ≡ t = (piece_eq_iff prev t hp hb.0).0 e in
          rw e (λ h. inr (same.0 h), λ h. elim h [ inl a ↦ inl (a ∙ sym p) | inr b ↦ same.1 b ])
      | inr e ↦ rw e (
        λ h. elim h [ inl a ↦ inl a | inr b ↦ inr (changed.0 b) ],
        λ h. inr (elim h [ inl a ↦ inl a | inr b ↦ changed.1 b ]),
      )
    ]

mutual
  unfolding between

  between-All : (s : Bytes) → IsBytes s → All IsBytes (between s)
  between-All [] h = tt
  between-All (c ∷ s) h = elim (Bool-cases (is_space c)) [
    | inl e ↦ rw e (between-All s h.1)
    | inr e ↦ elim (Bool-cases (c == 0)) [
      | inl z ↦ rw (e, z) (tt, between-All s h.1)
      | inr z ↦ rw (e, z) (inside-All s (c ∷ []) h.1 (h.0, tt))
    ]
  ]

  inside-All : (s cur : Bytes) → IsBytes s → IsBytes cur → All IsBytes (inside s cur)
  inside-All [] cur h k = (k, tt)
  inside-All (c ∷ s) cur h k = elim (Bool-cases (is_space c || c == 0)) [
    | inl e ↦ rw e (k, between-All s h.1)
    | inr e ↦ rw e (inside-All s (cur ++ c ∷ []) h.1 (All-append _ cur (c ∷ []) k (h.0, tt)))
  ]

words-IsBytes : (text : Bytes) → IsBytes text → All IsBytes (words text)
words-IsBytes text h = rw (words-between text) (between-All text h)

Stands-IsWord : (w : Bytes) (ts : List Bytes) → All IsWord ts → Stands w ts → w ≢ []
Stands-IsWord w [] h s = absurd s
Stands-IsWord w (t ∷ ts) h s = elim s [
  | inl e ↦ λ n. h.0.0 (sym e ∙ n)
  | inr k ↦ Stands-IsWord w ts h.1 k
]

not_less_empty : (u : Bytes) → piece_lt u [] ≡ false
not_less_empty [] = (piece_order [] []).1
not_less_empty (c ∷ u) = (piece_order (c ∷ u) []).1

words-sort :
    (list : Bytes)
    → Lacks 0 list
    → words (sort_func list []) ≡ distinct [] (stable_sort (words list))
unfolding sort_func
words-sort list h =
    rw (sort_func, write_changes-distinct [] (stable_sort (words list)) (writer []))
      (words-write_all (distinct [] (stable_sort (words list))) (
        All-distinct IsWord [] (stable_sort (words list))
          (All-sort IsWord (words list) (words-IsWord list h))))

-- The words of the result of `sort` are in strictly rising order, so none stands there twice, and a
-- word stands there exactly if it stands in the list, for a text of bytes with no NUL.
pub sort_func-Rising :
    (list w : Bytes)
    → IsBytes list
    → Lacks 0 list
    → Rising (words (sort_func list []))
      × (Stands w (words (sort_func list [])) ↔ Stands w (words list))
sort_func-Rising list w hb h =
    rw (words-sort list h)
      ((distinct-Rising [] sorted tt bytes (least sorted) (sort-Sorted (words list))).1, member)
  where
    sorted : List Bytes
    sorted = stable_sort (words list)

    bytes : All IsBytes sorted
    bytes = All-sort IsBytes (words list) (words-IsBytes list hb)

    least : (ts : List Bytes) → All (λ u. piece_lt u [] ≡ false) ts
    least [] = tt
    least (t ∷ ts) = (not_less_empty t, least ts)

    member : Stands w (distinct [] sorted) ↔ Stands w (words list)
    member =
        let d = Stands-distinct w [] sorted tt bytes in
        let s = Stands-sort w (words list) in
        (
          λ k. s.0 (d.0 k),
          λ k. elim (d.1 (s.1 k)) [
            | inl e ↦ absurd (Stands-IsWord w (words list) (words-IsWord list h) k e)
            | inr m ↦ m
          ],
        )
