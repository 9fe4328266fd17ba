-- ===== src/Piece/Order.antt =====
-- The comparisons of `StringPiece`: equality of contents, and the lexicographic order.
use Prim.Native.Nat.{compare, Ordering}
use kati.Prelude.{
  ℕ, zero, suc, ◌-◌, ◌≡◌, refl, ◌↔◌, ◌⊎◌, Bool, true, false, [], ◌∷◌, arith, Bytes, length, drop,
  IsBytes, All-drop, length-drop, drop-all,
}
use kati.Piece.{load64, wordmemcmp, piece_eq, piece_lt, piece_compare}

-- Eight bytes are determined by the number that they make.
load64-injective :
    (x y : Bytes) → IsBytes x → IsBytes y → length x ≡ length y → load64 x ≡ load64 y → x ≡ y
unfolding load64
load64-injective [] [] hx hy e h = refl
load64-injective [] (b ∷ y) hx hy e h = absurd (omega arith)
load64-injective (a ∷ x) [] hx hy e h = absurd (omega arith)
load64-injective (a ∷ x) (b ∷ y) hx hy e h =
    let rest : load64 x ≡ load64 y = omega arith in
    let first : a ≡ b = omega arith in ground (arith, load64-injective x y hx.1 hy.1)

-- Comparing the first bytes and knowing the others decides the whole.
wordmemcmp-eq :
    (x y : Bytes) (n : ℕ)
    → length x ≡ length y
    → drop n x ≡ drop n y
    → wordmemcmp x y n ≡ Ordering.eq
    → x ≡ y
unfolding wordmemcmp
wordmemcmp-eq x y zero e h c = h
wordmemcmp-eq [] [] (suc n) e h c = refl
wordmemcmp-eq [] (b ∷ y) (suc n) e h c = absurd (omega arith)
wordmemcmp-eq (a ∷ x) [] (suc n) e h c = absurd (omega arith)
wordmemcmp-eq (a ∷ x) (b ∷ y) (suc n) e h c = ground (arith, wordmemcmp-eq x y n)

wordmemcmp_refl : (x : Bytes) (n : ℕ) → wordmemcmp x x n ≡ Ordering.eq
unfolding wordmemcmp
wordmemcmp_refl x zero = refl
wordmemcmp_refl [] (suc n) = refl
wordmemcmp_refl (a ∷ x) (suc n) = ground (arith, wordmemcmp_refl x n)

-- What the comparison of the last eight bytes tells.
last_eight :
    (x y : Bytes) (n : ℕ)
    → IsBytes x
    → IsBytes y
    → length x ≡ length y
    → load64 (drop n x) ≡ load64 (drop n y)
    → drop n x ≡ drop n y
last_eight x y n hx hy e h =
    load64-injective (drop n x) (drop n y) (All-drop _ n x hx) (All-drop _ n y hy)
      (omega (arith, length-drop n x, length-drop n y)) h

piece_eq_sound : (x y : Bytes) → IsBytes x → IsBytes y → piece_eq x y ≡ true → x ≡ y
unfolding piece_eq
piece_eq_sound x y hx hy h = ground (
  arith,
  last_eight x y (length x - 8) hx hy,
  wordmemcmp-eq x y (length x - 8),
  wordmemcmp-eq x y (length x),
  drop-all (length x) x,
  drop-all (length x) y,
)

piece_eq_refl : (x : Bytes) → piece_eq x x ≡ true
unfolding piece_eq
piece_eq_refl x = ground (arith, wordmemcmp_refl x (length x - 8), wordmemcmp_refl x (length x))

-- On texts of bytes `operator==`, with its comparison of the last eight bytes as one number, tells
-- exactly whether the contents are the same.
pub piece_eq_iff : (x y : Bytes) → IsBytes x → IsBytes y → (piece_eq x y ≡ true) ↔ (x ≡ y)
piece_eq_iff x y hx hy = (piece_eq_sound x y hx hy, λ e. rw e (piece_eq_refl y))

-- The lexicographic order, by recursion on the texts.
abbrev pub text_compare : Bytes → Bytes → Ordering
text_compare [] [] = Ordering.eq
text_compare [] (b ∷ y) = Ordering.lt
text_compare (a ∷ x) [] = Ordering.gt
text_compare (a ∷ x) (b ∷ y) = elim (compare a b) [
  | Ordering.lt ↦ Ordering.lt
  | Ordering.eq ↦ text_compare x y
  | Ordering.gt ↦ Ordering.gt
]

piece_compare-text_compare : (x y : Bytes) → piece_compare x y ≡ text_compare x y
unfolding piece_compare
piece_compare-text_compare [] [] = ground arith
piece_compare-text_compare [] (b ∷ y) = ground arith
piece_compare-text_compare (a ∷ x) [] = ground arith
piece_compare-text_compare (a ∷ x) (b ∷ y) = ground (arith, piece_compare-text_compare x y)

abbrev pub TextLt : Bytes → Bytes → Type 0
TextLt x y = text_compare x y ≡ Ordering.lt

TextLt-trans : (x y z : Bytes) → TextLt x y → TextLt y z → TextLt x z
TextLt-trans [] [] z h k = ground arith
TextLt-trans [] (b ∷ y) [] h k = ground arith
TextLt-trans [] (b ∷ y) (c ∷ z) h k = refl
TextLt-trans (a ∷ x) [] z h k = ground arith
TextLt-trans (a ∷ x) (b ∷ y) [] h k = ground arith
TextLt-trans (a ∷ x) (b ∷ y) (c ∷ z) h k = ground (arith, TextLt-trans x y z)

text_compare-eq : (x y : Bytes) → text_compare x y ≡ Ordering.eq → x ≡ y
text_compare-eq [] [] h = refl
text_compare-eq [] (b ∷ y) h = ground arith
text_compare-eq (a ∷ x) [] h = ground arith
text_compare-eq (a ∷ x) (b ∷ y) h = ground (arith, text_compare-eq x y)

text_compare-flip : (x y : Bytes) → text_compare x y ≡ Ordering.gt → TextLt y x
text_compare-flip [] [] h = ground arith
text_compare-flip [] (b ∷ y) h = ground arith
text_compare-flip (a ∷ x) [] h = refl
text_compare-flip (a ∷ x) (b ∷ y) h = ground (arith, text_compare-flip x y)

text_compare_refl : (x : Bytes) → text_compare x x ≡ Ordering.eq
text_compare_refl [] = refl
text_compare_refl (a ∷ x) = ground (arith, text_compare_refl x)

abbrev pub is_less : Ordering → Bool
is_less Ordering.lt = true
is_less _ = false

piece_lt-is_less : (x y : Bytes) → piece_lt x y ≡ is_less (piece_compare x y)
unfolding piece_lt piece_compare
piece_lt-is_less x y = ground arith

-- `compare` is the lexicographic comparison by bytes with a prefix before its extensions, and
-- `operator<` holds exactly where `compare` is negative.
pub piece_order :
    (x y : Bytes)
    → (piece_compare x y ≡ text_compare x y) × (piece_lt x y ≡ is_less (text_compare x y))
piece_order x y =
    (piece_compare-text_compare x y, rw (← piece_compare-text_compare x y) (piece_lt-is_less x y))

-- `operator<` is transitive.
pub piece_lt_trans :
    (x y z : Bytes) → piece_lt x y ≡ true → piece_lt y z ≡ true → piece_lt x z ≡ true
piece_lt_trans x y z h k =
    ground
      (arith, (piece_order x y).1, (piece_order y z).1, (piece_order x z).1, TextLt-trans x y z)

-- Of two texts one is less, or they are the same text; and none is less than itself.
pub piece_lt_total :
    (x y : Bytes)
    → (piece_lt x x ≡ false) × ((piece_lt x y ≡ true) ⊎ (x ≡ y) ⊎ (piece_lt y x ≡ true))
piece_lt_total x y = (
  ground (arith, (piece_order x x).1, text_compare_refl x),
  ground
      (arith, (piece_order x y).1, (piece_order y x).1, text_compare-eq x y, text_compare-flip x y),
)
