-- ===== src/Expr/Written/Plain.antt =====
-- The rounds of `ParseExprImpl` of src/expr.cc at bytes that stand for themselves.
use kati.Prelude.{
  ℕ, zero, suc, ◌+◌, ◌<◌, ◌≤◌, ◌≡◌, ◌≢◌, refl, ◌∙◌, Bool, false, Option, List, [], ◌∷◌, ◌++◌, arith,
  Bytes, length, drop, All, leb, ◌==◌, and_false,
}
use kati.Piece.{get}
use kati.Strutil.Trim.{backslash, return}
use kati.Rule.{Loc}
use kati.Expr.{Value}
use kati.Expr.Scan.{
  ParseExprOpt, Scan, next, leave, dollar, finish, parsed, scan_round, is_func_args, is_term,
}
use kati.Expr.Parse.{parse_loop, parse_dollar}

-- A byte that means nothing to the parser of expressions.
abbrev pub IsPlainByte : ℕ → Type 0
IsPlainByte c = (c ≢ b'$') × (c ≢ b'#') × (c ≢ backslash) × (c ≢ return) × (c ≢ 0)

-- The state at a place with no parenthesis open.
abbrev pub standing : Option Bytes → Loc → ℕ → ℕ → List Value → Scan
standing terms loc i b list = record {
  i = i;
  b = b;
  save_paren = 0;
  paren_depth = 0;
  terms = terms;
  list = list;
  loc = loc;
}

pub get-drop :
    (s r : Bytes) (i c : ℕ)
    → drop i s ≡ c ∷ r
    → (get s i ≡ c) × (i < length s) × (drop (i + 1) s ≡ r)
get-drop [] r zero c e = absurd (cc)
get-drop [] r (suc i) c e = absurd (cc)
get-drop (x ∷ s) r zero c e = (cc, omega arith, cc)
get-drop (x ∷ s) r (suc i) c e =
    let (g, lt, d) = get-drop s r i c e in
    let next_place : suc i + 1 ≡ suc (i + 1) = omega arith in (g, omega arith, rw next_place d)

pub drop-past : (s : Bytes) (i : ℕ) → drop i s ≡ [] → length s ≤ i
drop-past [] i e = omega arith
drop-past (x ∷ s) zero e = absurd (cc)
drop-past (x ∷ s) (suc i) e = omega (arith, drop-past s i e)

-- A round of the loop, by its outcome.
pub parse_loop-next :
    (f : ℕ) (opt : ParseExprOpt) (trim_right : Bool) (list_loc : Loc) (s : Bytes) (w w' : Scan)
    → scan_round opt s w ≡ next w'
    → parse_loop (suc f) opt trim_right list_loc s w ≡ parse_loop f opt trim_right list_loc s w'
unfolding parse_loop
parse_loop-next f opt trim_right list_loc s w w' e = rw (e, parse_loop) refl

pub parse_loop-leave :
    (f : ℕ) (opt : ParseExprOpt) (trim_right : Bool) (list_loc loc : Loc) (s : Bytes) (w : Scan)
    → scan_round opt s w ≡ leave loc
    → parse_loop (suc f) opt trim_right list_loc s w ≡ finish trim_right list_loc s w loc
unfolding parse_loop
parse_loop-leave f opt trim_right list_loc loc s w e = rw (e, parse_loop) refl

pub parse_loop-dollar :
    (f n : ℕ) (opt : ParseExprOpt) (trim_right : Bool) (list_loc loc : Loc) (s : Bytes) (w : Scan)
    (list : List Value) (v : Value)
    → scan_round opt s w ≡ dollar list
    → parse_dollar f w.loc (drop w.i s) ≡ parsed v n loc
    → parse_loop (suc f) opt trim_right list_loc s w
      ≡ parse_loop f opt trim_right list_loc s
          (record w { i = w.i + n; b = w.i + n; list = list ++ v ∷ []; loc = loc })
unfolding parse_loop
parse_loop-dollar f n opt trim_right list_loc loc s w list v e d = rw (e, d, parse_loop) refl

module _ (opt : ParseExprOpt) (s : Bytes) (terms : Option Bytes) (loc : Loc)
    (plain : is_func_args opt ≡ false) where
  scan_round-plain :
      (i b c : ℕ) (list : List Value) (r : Bytes)
      → drop i s ≡ c ∷ r
      → IsPlainByte c
      → is_term terms c ≡ false
      → scan_round opt s (standing terms loc i b list) ≡ next (standing terms loc (i + 1) b list)
  unfolding scan_round
  scan_round-plain i b c list r e p t =
      let (g, lt, d) = get-drop s r i c e in
      let inside : leb (length s) i ≡ false = ground arith in
      let hash : (c == b'#') ≡ false = ground arith in
      let no_dollar : (c == b'$') ≡ false = ground arith in
      let escape : (c == backslash) ≡ false = ground arith in
      let nul : (c == 0) ≡ false = ground arith in
      rw (inside, g, t, hash, and_false, no_dollar, plain, and_false, escape, nul) refl

  -- Plain bytes are passed over one by one.
  pub parse_loop-plain :
      (p r : Bytes) (n f i j b : ℕ) (trim_right : Bool) (list_loc : Loc) (list : List Value)
      → n ≡ length p + f
      → j ≡ i + length p
      → drop i s ≡ p ++ r
      → All (λ c. IsPlainByte c × (is_term terms c ≡ false)) p
      → parse_loop n opt trim_right list_loc s (standing terms loc i b list)
        ≡ parse_loop f opt trim_right list_loc s (standing terms loc j b list)
  parse_loop-plain [] r n f i j b trim_right list_loc list en ej e h =
      let same_fuel : n ≡ f = omega arith in
      let same_place : j ≡ i = omega arith in rw (same_fuel, same_place) refl
  parse_loop-plain (x ∷ p) r zero f i j b trim_right list_loc list en ej e h = absurd (omega arith)
  parse_loop-plain (x ∷ p) r (suc n) f i j b trim_right list_loc list en ej e h =
      let (g, lt, d) = get-drop s (p ++ r) i x e in
      parse_loop-next n opt trim_right list_loc s _ _
        (scan_round-plain i b x list (p ++ r) e h.0.0 h.0.1)
      ∙ parse_loop-plain p r n f (i + 1) j b trim_right list_loc list (omega arith) (omega arith) d
          h.1
