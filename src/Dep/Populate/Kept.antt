-- ===== src/Dep/Populate/Kept.antt =====
-- The table of rules of src/dep.cc: what is found after something was stored.
use kati.Prelude.{
  ◌≡◌, refl, sym, ap, subst, Bool, true, false, some, List, [], ◌∷◌, Bytes, text_eq, text_eq→eq,
  text_eq_refl, Bool-cases, inl, inr, if◌then◌else◌,
}
use kati.Piece.{piece_lt}
use kati.Dep.Populate.{find_in, store_in}

module _ {A : Type 0} where
  store_before :
      (b : Bool) (t n : Bytes) (a c : A) (table later : List (Bytes × A))
      → text_eq n t ≡ false
      → find_in t later ≡ some a
      → find_in t (if b then (t, a) ∷ table else (n, c) ∷ later) ≡ some a
  unfolding find_in
  store_before true t n a c table later e h = rw (text_eq_refl t) refl
  store_before false t n a c table later e h = rw e h

  store_other :
      (b : Bool) (t name n : Bytes) (a c : A) (table later : List (Bytes × A))
      → text_eq name t ≡ false
      → find_in t later ≡ find_in t table
      → find_in t (if b then (name, a) ∷ (n, c) ∷ table else (n, c) ∷ later)
        ≡ find_in t ((n, c) ∷ table)
  unfolding find_in
  store_other true t name n a c table later ne h = rw ne refl
  store_other false t name n a c table later ne h = ap (λ r. if text_eq n t then some c else r) h

  pub find_in-store_in :
      (t : Bytes) (a : A) (table : List (Bytes × A)) → find_in t (store_in t a table) ≡ some a
  unfolding find_in store_in
  find_in-store_in t a [] = rw (text_eq_refl t) refl
  find_in-store_in t a ((n, c) ∷ table) = elim (Bool-cases (text_eq n t)) [
    | inl e ↦ rw e (rw e refl)
    | inr e ↦ rw e (
        store_before (piece_lt t n) t n a c ((n, c) ∷ table) (store_in t a table) e
          (find_in-store_in t a table))
  ]

  pub find_in-store_in_other :
      (t name : Bytes) (a : A) (table : List (Bytes × A))
      → text_eq name t ≡ false
      → find_in t (store_in name a table) ≡ find_in t table
  unfolding find_in store_in
  find_in-store_in_other t name a [] ne = rw ne refl
  find_in-store_in_other t name a ((n, c) ∷ table) ne = elim (Bool-cases (text_eq n name)) [
    | inl e ↦ rw e (rw (subst (λ m. text_eq m t ≡ false) (sym (text_eq→eq n name e)) ne) refl)
    | inr e ↦ rw e (
        store_other (piece_lt name n) t name n a c table (store_in name a table) ne
          (find_in-store_in_other t name a table ne))
  ]
