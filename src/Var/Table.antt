-- ===== src/Var/Table.antt =====
-- Tables of variables: what is found after a change, and what a `ScopedVar` leaves behind.
use kati.Prelude.{
  ◌≡◌, ◌≢◌, refl, sym, ap, ◌∙◌, inl, inr, true, false, Option, none, some, List, [], ◌∷◌, Bytes,
  Bool-cases, text_eq, text_eq_refl, text_eq_iff,
}
use kati.Var.{Var, find_var, put, erase, scoped_orig, scoped_enter, scoped_leave}

pub differs : (s t : Bytes) → s ≢ t → text_eq s t ≡ false
differs s t h = elim (Bool-cases (text_eq s t)) [
  | inl e ↦ absurd (h ((text_eq_iff s t).0 e))
  | inr e ↦ e
]

module _ {Value : Type 0} where
  pub find_var-put_other :
      (name m : Bytes) (v : Var Value) (vars : List (Bytes × Var Value))
      → name ≢ m
      → find_var m (put name v vars) ≡ find_var m vars
  unfolding find_var put
  find_var-put_other name m v [] h = rw (differs name m h) refl
  find_var-put_other name m v ((n, w) ∷ vars) h = elim (Bool-cases (text_eq n name)) [
    | inl e ↦ rw e (rw (differs n m (λ k. h (sym ((text_eq_iff n name).0 e) ∙ k))) refl)
    | inr e ↦ rw e (elim (Bool-cases (text_eq n m)) [
      | inl k ↦ rw k refl
      | inr k ↦ rw k (find_var-put_other name m v vars h)
    ])
  ]

  put-put :
      (name : Bytes) (v w : Var Value) (vars : List (Bytes × Var Value))
      → put name w (put name v vars) ≡ put name w vars
  unfolding put
  put-put name v w [] = rw (text_eq_refl name) refl
  put-put name v w ((n, u) ∷ vars) = elim (Bool-cases (text_eq n name)) [
    | inl e ↦ rw e (rw e refl)
    | inr e ↦ rw e (rw e (ap (λ r. (n, u) ∷ r) (put-put name v w vars)))
  ]

  find_var-here :
      (name n : Bytes) (w : Var Value) (vars : List (Bytes × Var Value))
      → text_eq n name ≡ true
      → find_var name ((n, w) ∷ vars) ≡ some w
  unfolding find_var
  find_var-here name n w vars e = rw e refl

  find_var-there :
      (name n : Bytes) (w : Var Value) (vars : List (Bytes × Var Value))
      → text_eq n name ≡ false
      → find_var name ((n, w) ∷ vars) ≡ find_var name vars
  unfolding find_var
  find_var-there name n w vars e = rw e refl

  some-inj : (w v : Var Value) → some w ≡ some v → w ≡ v
  some-inj w v h = ap (λ o. elim o [ none ↦ v | some x ↦ x ]) h

  put-found :
      (name : Bytes) (v : Var Value) (vars : List (Bytes × Var Value))
      → find_var name vars ≡ some v
      → put name v vars ≡ vars
  unfolding put find_var
  put-found name v [] h = absurd (none-some h)
    where
      none-some : none ≢ some v
      none-some = cc
  put-found name v ((n, w) ∷ vars) h = elim (Bool-cases (text_eq n name)) [
    | inl e ↦
        rw e
          (ap (λ x. (n, x) ∷ vars) (sym (some-inj w v (sym (find_var-here name n w vars e) ∙ h))))
    | inr e ↦
        rw e
          (ap (λ r. (n, w) ∷ r) (put-found name v vars (sym (find_var-there name n w vars e) ∙ h)))
  ]

  some-none : (w : Var Value) → some w ≢ none
  some-none w = cc

  erase-put :
      (name : Bytes) (v : Var Value) (vars : List (Bytes × Var Value))
      → find_var name vars ≡ none
      → erase name (put name v vars) ≡ vars
  unfolding put find_var erase
  erase-put name v [] h = rw (text_eq_refl name) refl
  erase-put name v ((n, w) ∷ vars) h = elim (Bool-cases (text_eq n name)) [
    | inl e ↦ absurd (some-none w (sym (find_var-here name n w vars e) ∙ h))
    | inr e ↦ rw e (
        rw e
          (ap (λ r. (n, w) ∷ r) (erase-put name v vars (sym (find_var-there name n w vars e) ∙ h))))
  ]

  leave-put :
      (name : Bytes) (v w : Var Value) (vars : List (Bytes × Var Value)) (o : Option (Var Value))
      → find_var name vars ≡ o
      → scoped_leave name o (put name w (put name v vars)) ≡ vars
  unfolding scoped_leave
  leave-put name v w vars none h = ap (erase name) (put-put name v w vars) ∙ erase-put name w vars h
  leave-put name v w vars (some orig) h =
      ap (put name orig) (put-put name v w vars)
      ∙ put-put name w orig vars
      ∙ put-found name orig vars h

  -- A table is as it was before when the scope of a `ScopedVar` ends, whether the name had a variable or
  -- not, and even if the name was assigned a variable in between.
  pub scoped_leave-scoped_enter :
      (name : Bytes) (v w : Var Value) (vars : List (Bytes × Var Value))
      → scoped_leave name (scoped_orig name vars) (put name w (scoped_enter name v vars)) ≡ vars
  scoped_leave-scoped_enter name v w vars = leave-put name v w vars (find_var name vars) refl
