-- ===== src/Expr/Written.antt =====
-- Texts of plain parts, doubled dollars and references to variables, and the values that the parser
-- of src/expr.cc is to make of them.
pub mod Plain
pub mod Dollars
pub mod References
pub mod Read
pub mod Expanded
use kati.Prelude.{ℕ, ◌≡◌, ◌≢◌, List, [], ◌∷◌, ◌++◌, Bytes, codes, All}
use kati.Rule.{Loc}
use kati.Expr.{Value, literal, sym_ref}
use kati.Expr.Scan.{close_paren}
use kati.Expr.Written.Plain.{IsPlainByte}
use kati.Expr.Written.Dollars.{plain_values}
use kati.Expr.Written.References.{IsName}

-- `$$`, `$(NAME)` and `$c`.
pub data Special : Type 0 where
  dollars : Special
  named : Bytes → Special
  short : ℕ → Special

-- A text: plain parts, which may be empty, with something special between two of them.
pub data Text : Type 0 where
  last : Bytes → Text
  more : Bytes → Special → Text → Text

unfoldable pub print_special : Special → Bytes
print_special dollars = b'$' ∷ b'$' ∷ []
print_special (named name) = b'$' ∷ b'(' ∷ (name ++ b')' ∷ [])
print_special (short c) = b'$' ∷ c ∷ []

unfoldable pub print : Text → Bytes
unfolding print_special
print (last p) = p
print (more p special t) = p ++ (print_special special ++ print t)

unfoldable pub value_of : Loc → Special → Value
value_of loc dollars = literal (codes "$")
value_of loc (named name) = sym_ref loc name
value_of loc (short c) = sym_ref loc (c ∷ [])

-- The values of a text; an empty part has none.
unfoldable pub values_of : Loc → Text → List Value
unfolding value_of
values_of loc (last p) = plain_values p
values_of loc (more p special t) = plain_values p ++ (value_of loc special ∷ values_of loc t)

abbrev pub IsPlain : Bytes → Type 0
IsPlain = All IsPlainByte

abbrev pub IsSpecial : Special → Type 0
IsSpecial dollars = Unit {0}
IsSpecial (named name) = IsName name
IsSpecial (short c) = (c ≢ b'$') × (close_paren c ≡ 0)

abbrev pub IsWritten : Text → Type 0
IsWritten (last p) = IsPlain p
IsWritten (more p special t) = IsPlain p × IsSpecial special × IsWritten t
