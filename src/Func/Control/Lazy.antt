-- ===== src/Func/Control/Lazy.antt =====
-- `or` evaluates its arguments from the left and stops at the first that decides.
use kati.Prelude.{◌≡◌, refl, ◌∙◌, Bool, true, false, List, [], ◌∷◌, ◌++◌, Bytes, length, ◌==◌}
use kati.Func.Control.{or_func}

module _ {ℓ κ} {Value : Type ℓ} {S : Type κ} (eval : Value → S → Bytes × S) where
  -- The state behind the evaluation of values that are all empty, or all not empty.
  abbrev pub Evaluates : Bool → List Value → S → S → Type κ
  Evaluates empty [] st st' = st ≡ st'
  Evaluates empty (a ∷ args) st st' =
      ((length (eval a st).0 == 0) ≡ empty) × Evaluates empty args (eval a st).1 st'

  or_func-passes :
      (pre post : List Value) (s : Bytes) (st st' : S)
      → Evaluates true pre st st'
      → or_func eval (pre ++ post) s st ≡ or_func eval post s st'
  unfolding or_func
  or_func-passes [] post s st st' h = rw h refl
  or_func-passes (a ∷ pre) post s st st' h =
      rw h.0 (or_func-passes pre post s (eval a st).1 st' h.1)

  -- `or` appends the first argument that is not empty: those before it are evaluated in order, and those
  -- behind it are not evaluated.
  pub or_func-stop :
      (pre : List Value) (a : Value) (post : List Value) (s : Bytes) (st st' : S)
      → Evaluates true pre st st'
      → (length (eval a st').0 == 0) ≡ false
      → or_func eval (pre ++ a ∷ post) s st ≡ (s ++ (eval a st').0, (eval a st').1)
  unfolding or_func
  or_func-stop pre a post s st st' h e = or_func-passes pre (a ∷ post) s st st' h ∙ rw e refl
