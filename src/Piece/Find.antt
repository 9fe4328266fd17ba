-- ===== src/Piece/Find.antt =====
-- The search for a text: `starts_with` and `find(StringPiece)`.
use kati.Prelude.{
  ◌≤◌, ◌<◌, ◌≡◌, refl, ◌↔◌, inl, inr, true, [], ◌∷◌, ◌++◌, arith, Bytes, length, drop, Bool-cases,
}
use kati.Piece.{starts_with, search_in}

-- What starts with a text is at least as long.
pub starts_with-length : (s t : Bytes) → starts_with s t ≡ true → length t ≤ length s
unfolding starts_with
starts_with-length s [] h = omega arith
starts_with-length [] (y ∷ t) h = ground arith
starts_with-length (x ∷ s) (y ∷ t) h = ground (arith, starts_with-length s t)

pub starts_with_iff : (s t : Bytes) → (starts_with s t ≡ true) ↔ (s ≡ t ++ drop (length t) s)
unfolding starts_with
starts_with_iff s [] = (λ _. refl, λ _. refl)
starts_with_iff [] (y ∷ t) = (λ h. ground arith, λ h. ground arith)
starts_with_iff (x ∷ s) (y ∷ t) =
    (λ h. ground (arith, (starts_with_iff s t).0), λ h. ground (arith, (starts_with_iff s t).1))

pub search_in-hit :
    (s t : Bytes) → search_in s t < length s → starts_with (drop (search_in s t) s) t ≡ true
unfolding search_in
search_in-hit [] t h = elim h [ ]
search_in-hit (x ∷ s) t h = elim (Bool-cases (starts_with (x ∷ s) t)) [
  | inl e ↦ rw e e
  | inr e ↦ rw e (search_in-hit s t (ground arith))
]
