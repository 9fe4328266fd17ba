-- ===== src/Expr/Stops.antt =====
-- Where `ParseExprImpl` stops, and the bytes that `ParseDollar` and `ParseFunc` find there.
use kati.Prelude.{
  ℕ, zero, suc, ◌+◌, ◌-◌, ◌<◌, ◌≡◌, refl, Bool, false, some, List, [], ◌∷◌, ◌++◌, arith, Bytes,
  length, take, drop,
}
use kati.Piece.{get}
use kati.Strutil.Trim.{backslash}
use kati.Rule.{Loc}
use kati.Expr.{Value}
use kati.Expr.Scan.{
  ParseExprOpt, Scan, Round, leave, give, dollar, next, Parsed, parsed, stopped, out_of_fuel,
  scan_round, finish, chop_return, start_scan, is_term,
}
use kati.Expr.Parse.{parse_expr_impl, parse_loop, parse_dollar}
use kati.Expr.Rounds.{get-lt, is_blank, IsPlain, StaysPlain, scan_round-StaysPlain}

-- A result stands at no blank byte.
abbrev pub StopsPlain : Bytes → Parsed Value → Type 0
StopsPlain s (parsed v n loc) = is_blank (get s n) ≡ false
StopsPlain s (stopped m) = Unit {0}
StopsPlain s out_of_fuel = Unit {0}

after_dollar :
    (s : Bytes) (r : Parsed Value) (k : Value → ℕ → Loc → Parsed Value)
    → ((v : Value) (n : ℕ) (loc : Loc) → StopsPlain s (k v n loc))
    → StopsPlain s
        (elim r [ parsed v n loc ↦ k v n loc | stopped m ↦ stopped m | out_of_fuel ↦ out_of_fuel ])
after_dollar s (parsed v n loc) k h = h v n loc
after_dollar s (stopped m) k h = tt
after_dollar s out_of_fuel k h = tt

after_round :
    (s : Bytes) (w : Scan) (r : Round) (end : Loc → Parsed Value)
    (back : List Value → ℕ → Parsed Value) (inner : List Value → Parsed Value)
    (more : Scan → Parsed Value)
    → StaysPlain s w r
    → ((loc : Loc) → is_blank (get s w.i) ≡ false → StopsPlain s (end loc))
    → ((list : List Value) (n : ℕ) → is_blank (get s n) ≡ false → StopsPlain s (back list n))
    → ((list : List Value) → StopsPlain s (inner list))
    → ((w' : Scan) → IsPlain w' → StopsPlain s (more w'))
    → StopsPlain s (elim r [
      | leave loc ↦ end loc
      | give list n ↦ back list n
      | dollar list ↦ inner list
      | next w' ↦ more w'
    ])
after_round s w (leave loc) end back inner more h a b c d = a loc h
after_round s w (give list n) end back inner more h a b c d = b list n h
after_round s w (dollar list) end back inner more h a b c d = c list
after_round s w (next w') end back inner more h a b c d = d w' h

parse_loop-StopsPlain :
    (f : ℕ) (opt : ParseExprOpt) (trim_right : Bool) (list_loc : Loc) (s : Bytes) (w : Scan)
    → IsPlain w
    → StopsPlain s (parse_loop f opt trim_right list_loc s w)
unfolding parse_loop finish
parse_loop-StopsPlain zero opt trim_right list_loc s w plain = tt
parse_loop-StopsPlain (suc f) opt trim_right list_loc s w plain =
    after_round s w (scan_round opt s w) _ _ _ _ (scan_round-StaysPlain s w plain opt) (λ loc h. h)
      (λ list n h. h)
      (λ list. after_dollar s (parse_dollar f w.loc (drop w.i s)) _ (λ v n loc.
        parse_loop-StopsPlain f opt trim_right list_loc s
          (record w { i = w.i + n; b = w.i + n; list = list ++ v ∷ []; loc = loc }) plain))
      (λ w' p. parse_loop-StopsPlain f opt trim_right list_loc s w' p)

get-take : (m n : ℕ) (s : Bytes) → n < m → get (take m s) n ≡ get s n
get-take zero n s h = elim h [ ]
get-take (suc m) n [] h = refl
get-take (suc m) zero (c ∷ s) h = refl
get-take (suc m) (suc n) (c ∷ s) h = get-take m n s (omega arith)

-- The carriage return that is cut off is no blank.
chop_return-plain :
    (s : Bytes) (n : ℕ) → is_blank (get (chop_return s) n) ≡ false → is_blank (get s n) ≡ false
unfolding chop_return
chop_return-plain s n h = ground (arith, get-take (length s - 1) n s, get-lt s n)

-- The byte where `ParseExprImpl` stops is no blank, if none of `terms` is.
pub parse_expr_impl-StopsPlain :
    (f : ℕ) (loc : Loc) (s : Bytes) (terms : Bytes) (opt : ParseExprOpt) (trim_right : Bool)
    → is_term (some terms) b' ' ≡ false
    → is_term (some terms) backslash ≡ false
    → StopsPlain s (parse_expr_impl f loc s (some terms) opt trim_right)
unfolding parse_expr_impl
parse_expr_impl-StopsPlain zero loc s terms opt trim_right p q = tt
parse_expr_impl-StopsPlain (suc f) loc s terms opt trim_right p q =
    unchopped (parse_loop f opt trim_right loc (chop_return s) (start_scan (some terms) loc)) (
      parse_loop-StopsPlain f opt trim_right loc (chop_return s) (start_scan (some terms) loc)
        (refl, p, q, refl))
  where
    unchopped : (r : Parsed Value) → StopsPlain (chop_return s) r → StopsPlain s r
    unchopped (parsed v n loc) h = chop_return-plain s n h
    unchopped (stopped m) h = tt
    unchopped out_of_fuel h = tt
