-- ===== src/Find/Cases.antt =====
-- The ways on after a step of the walk of src/find.cc, for any property of what it gives.
use kati.Prelude.{◌≡◌, refl, Bool, true, false, not, if◌then◌else◌}
use kati.Find.{Found, Walk, found, unsupported, out_of_fuel}

module _ (P : Found → Type 0) where
  pub after_run :
      (r : Found) (k : Walk → Found)
      → P r
      → ((w : Walk) → P (found w) → P (k w))
      → P (elim r [ found w ↦ k w | unsupported ↦ unsupported | out_of_fuel ↦ out_of_fuel ])
  after_run (found w) k h g = g w h
  after_run unsupported k h g = h
  after_run out_of_fuel k h g = h

  pub after_test :
      (b : Bool) (x y : Found)
      → (b ≡ true → P x)
      → (b ≡ false → P y)
      → P (elim b [ false ↦ y | true ↦ x ])
  after_test true x y p q = p refl
  after_test false x y p q = q refl

  pub choose : (b : Bool) (x y : Found) → P x → P y → P (if not b then y else x)
  choose true x y p q = p
  choose false x y p q = q
