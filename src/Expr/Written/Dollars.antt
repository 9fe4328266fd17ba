-- ===== src/Expr/Written/Dollars.antt =====
-- The rounds of `ParseExprImpl` of src/expr.cc at a dollar, and the end of its loop.
use kati.Prelude.{
  ℕ, suc, ◌+◌, ◌-◌, ◌≤◌, ◌≡◌, ◌≢◌, refl, ap, sym, true, false, Option, none, some, List, [], ◌∷◌,
  ◌++◌, append-nil, arith, Bytes, length, length-append, drop, take-append, length-drop, leb, ltb,
  ◌==◌, codes,
}
use kati.Piece.{substr}
use kati.Rule.{Loc}
use kati.Expr.{Value, literal, new_expr}
use kati.Expr.Scan.{ParseExprOpt, next, leave, dollar, finish, parsed, scan_round, flush}
use kati.Expr.Written.Plain.{standing, get-drop, drop-past}

-- The text that a plain part leaves, if there is any.
abbrev pub plain_values : Bytes → List Value
plain_values [] = []
plain_values (c ∷ p) = literal (c ∷ p) ∷ []

pub substr-part :
    (s p r : Bytes) (b : ℕ) → b ≤ length s → drop b s ≡ p ++ r → substr s b (some (length p)) ≡ p
unfolding substr
substr-part s p r b le e =
    let inside : ltb (length s) b ≡ false = ground arith in
    let room : ltb (length s - b) (length p) ≡ false =
      ground (arith, length-drop b s, ap (λ (t : Bytes). length t) e, length-append p r) in
    rw (inside, room, e) (take-append (length p) p r refl)

pub flush-part :
    (s p r : Bytes) (terms : Option Bytes) (loc : Loc) (b j : ℕ) (list : List Value)
    → drop b s ≡ p ++ r
    → j ≡ b + length p
    → flush s (standing terms loc j b list) ≡ list ++ plain_values p
flush-part s [] r terms loc b j list e ej =
    let nothing : ltb b j ≡ false = ground arith in rw nothing (sym (append-nil list))
flush-part s (c ∷ p) r terms loc b j list e ej =
    let something : ltb b j ≡ true = ground arith in
    let size : j - b ≡ length (c ∷ p) = omega arith in
    let (g, lt, d) = get-drop s (p ++ r) b c e in
    rw (something, size, substr-part s (c ∷ p) r b (omega arith) e) refl

module _ (opt : ParseExprOpt) (s : Bytes) (loc : Loc) where
  pub scan_round-dollars :
      (j b : ℕ) (list : List Value) (r : Bytes)
      → drop j s ≡ b'$' ∷ b'$' ∷ r
      → scan_round opt s (standing none loc j b list)
        ≡ next (
            standing none loc
              (j + 2)
              (j + 2)
              (flush s (standing none loc j b list) ++ literal (codes "$") ∷ []))
  unfolding scan_round
  scan_round-dollars j b list r e =
      let (g, lt, d) = get-drop s (b'$' ∷ r) j b'$' e in
      let (g', lt', d') = get-drop s r (j + 1) b'$' d in
      let inside : leb (length s) j ≡ false = ground arith in
      let inside' : leb (length s) (j + 1) ≡ false = ground arith in
      rw (inside, g, inside', g') refl

  pub scan_round-dollar :
      (j b c : ℕ) (list : List Value) (r : Bytes)
      → drop j s ≡ b'$' ∷ c ∷ r
      → c ≢ b'$'
      → scan_round opt s (standing none loc j b list)
        ≡ dollar (flush s (standing none loc j b list))
  unfolding scan_round
  scan_round-dollar j b c list r e other =
      let (g, lt, d) = get-drop s (c ∷ r) j b'$' e in
      let (g', lt', d') = get-drop s r (j + 1) c d in
      let inside : leb (length s) j ≡ false = ground arith in
      let inside' : leb (length s) (j + 1) ≡ false = ground arith in
      let single : (c == b'$') ≡ false = ground arith in rw (inside, g, inside', g', single) refl

  pub scan_round-end :
      (terms : Option Bytes) (j b : ℕ) (list : List Value)
      → drop j s ≡ []
      → scan_round opt s (standing terms loc j b list) ≡ leave loc
  unfolding scan_round
  scan_round-end terms j b list e =
      let past : leb (length s) j ≡ true = ground (arith, drop-past s j e) in rw past refl

-- What is behind the loop, with the spaces at the end kept.
pub finish-part :
    (s p r : Bytes) (terms : Option Bytes) (list_loc loc loc' : Loc) (b j : ℕ) (list : List Value)
    → drop b s ≡ p ++ r
    → j ≡ b + length p
    → finish false list_loc s (standing terms loc j b list) loc'
      ≡ parsed (new_expr list_loc (list ++ plain_values p)) j loc'
unfolding finish
finish-part s [] r terms list_loc loc loc' b j list e ej =
    let nothing : ltb b j ≡ false = ground arith in rw (nothing, append-nil list) refl
finish-part s (c ∷ p) r terms list_loc loc loc' b j list e ej =
    let something : ltb b j ≡ true = ground arith in
    let size : j - b ≡ length (c ∷ p) = omega arith in
    let (g, lt, d) = get-drop s (p ++ r) b c e in
    let full : (suc (length p) == 0) ≡ false = ground arith in
    rw (something, size, substr-part s (c ∷ p) r b (omega arith) e, full) refl
