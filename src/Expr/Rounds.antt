-- ===== src/Expr/Rounds.antt =====
-- The rounds of the loop of `ParseExprImpl`: where they lead.
use kati.Prelude.{
  ℕ, zero, suc, ◌+◌, ◌≤◌, ◌<◌, ◌≡◌, ◌≢◌, refl, Bool, true, false, [], ◌∷◌, ◌&&◌, ◌||◌, not, arith,
  Bytes, length, drop, leb, ltb, ◌==◌, if◌then◌else◌, leb→le, length-drop, get_or-past,
}
use kati.Piece.{get}
use kati.Strutil.Trim.{newline, return, backslash}
use kati.Rule.{Loc}
use kati.Expr.Scan.{
  ParseExprOpt, Scan, Round, leave, give, dollar, next, comment_end, skip_blank, join_line,
  next_line, is_newline, dollar_round, open_round, close_round, backslash_round, scan_round,
  is_term, is_null, is_func_args, is_command, should_handle_comments,
}

-- A byte that is not 0 stands within the text.
pub get-lt : (s : Bytes) (i : ℕ) → get s i ≢ 0 → i < length s
get-lt [] i h = absurd (h refl)
get-lt (c ∷ s) zero h = omega arith
get-lt (c ∷ s) (suc i) h = omega (arith, get-lt s i h)

comment_end-le : (was : Bool) (s : Bytes) → comment_end was s ≤ length s
unfolding comment_end
comment_end-le was [] = omega arith
comment_end-le was (c ∷ s) = ground (arith, comment_end-le (not was && c == backslash) s)

skip_blank-le : (s : Bytes) (loc : Loc) → (skip_blank s loc).0 ≤ length s
unfolding skip_blank
skip_blank-le [] loc = omega arith
skip_blank-le (c ∷ []) loc = ground arith
skip_blank-le (c ∷ n ∷ s) loc =
    ground (arith, skip_blank-le (n ∷ s) loc, skip_blank-le s (next_line loc))

-- A round goes on within the text, leaves the loop where it stands, or returns within the text.
abbrev pub IsForward : Bytes → Scan → Round → Type 0
IsForward s w (leave loc) = Unit {0}
IsForward s w (give list n) = n ≤ length s
IsForward s w (dollar list) = suc w.i < length s
IsForward s w (next w') = (w.i < w'.i) × (w'.i ≤ length s)

module _ (s : Bytes) (w : Scan) where
  abbrev Good : Round → Type 0
  Good = IsForward s w

  branch :
      (b : Bool) (x y : Round)
      → (b ≡ true → Good x)
      → (b ≡ false → Good y)
      → Good (if b then x else y)
  branch true x y p q = p refl
  branch false x y p q = q refl

  join_line-IsForward : suc w.i < length s → Good (next (join_line s w))
  unfolding join_line
  join_line-IsForward h =
      let crlf = get s (w.i + 1) == return && get s (w.i + 2) == newline in
      let start = if crlf then w.i + 3 else w.i + 2 in
      let low : w.i + 2 ≤ start = ground arith in
      let high : start ≤ length s = ground (arith, get-lt s (w.i + 2)) in
      let skipped = skip_blank-le (drop start s) (next_line w.loc) in
      let left = length-drop start s in (omega arith, omega arith)

  dollar_round-IsForward : w.i < length s → Good (dollar_round s w)
  unfolding dollar_round
  dollar_round-IsForward h =
      let n = get s (w.i + 1) in
      branch (leb (length s) (w.i + 1)) _ _ (λ e. tt)
        (λ e.
          branch (n == b'$') _ _ (λ e'. (omega arith, ground arith))
            (λ e'. branch (is_term w.terms n) _ _ (λ e''. ground arith) (λ e''. ground arith)))

  open_round-IsForward : (c : ℕ) → w.i < length s → Good (open_round c w)
  unfolding open_round
  open_round-IsForward c h = ground arith

  close_round-IsForward :
      (c : ℕ) → w.i < length s → Good (next (close_round c (record w { i = w.i + 1 })))
  unfolding close_round
  close_round-IsForward c h = ground arith

  backslash_round-IsForward :
      (opt : ParseExprOpt) → suc w.i < length s → Good (backslash_round opt s w)
  unfolding backslash_round
  backslash_round-IsForward opt h =
      let n = get s (w.i + 1) in
      branch (n == backslash) _ _ (λ e. (omega arith, omega arith))
        (λ e.
          branch (n == b'#' && should_handle_comments opt) _ _ (λ e'. (omega arith, omega arith))
            (λ e'.
              branch (is_newline n) _ _
                (λ e''. branch (is_term w.terms b' ') _ _ (λ _. tt) (λ _. join_line-IsForward h))
                (λ e''. (omega arith, omega arith))))

  -- Every round of the loop within the text is forward.
  pub scan_round-IsForward : (opt : ParseExprOpt) → w.i ≤ length s → Good (scan_round opt s w)
  unfolding scan_round
  scan_round-IsForward opt h =
      let c = get s w.i in
      branch (leb (length s) w.i) _ _ (λ e. tt)
        (λ e.
          let lt : w.i < length s = ground arith in
          branch (is_term w.terms c && w.save_paren == 0) _ _ (λ _. tt)
            (λ _.
              branch (is_null w.terms && c == b'#' && should_handle_comments opt) _ _
                (λ _. omega (arith, comment_end-le false (drop w.i s), length-drop w.i s))
                (λ _.
                  branch (c == b'$') _ _ (λ _. dollar_round-IsForward lt)
                    (λ _.
                      branch ((c == b'(' || c == b'{') && is_func_args opt) _ _
                        (λ _. open_round-IsForward c lt)
                        (λ _.
                          branch
                            (c == backslash && ltb (w.i + 1) (length s) && not (is_command opt)) _ _
                            (λ e'. backslash_round-IsForward opt (ground arith))
                            (λ _. close_round-IsForward c lt))))))

-- A byte that sends `ParseDollar` to its table of functions.
abbrev pub is_blank : ℕ → Bool
is_blank c = c == b' ' || c == backslash

-- No such byte ends the loop.
abbrev pub IsPlain : Scan → Type 0
IsPlain w =
    (is_null w.terms ≡ false)
    × (is_term w.terms b' ' ≡ false)
    × (is_term w.terms backslash ≡ false)
    × (is_blank w.save_paren ≡ false)

abbrev pub StaysPlain : Bytes → Scan → Round → Type 0
StaysPlain s w (leave loc) = is_blank (get s w.i) ≡ false
StaysPlain s w (give list n) = is_blank (get s n) ≡ false
StaysPlain s w (dollar list) = Unit {0}
StaysPlain s w (next w') = IsPlain w'

module _ (s : Bytes) (w : Scan) (plain : IsPlain w) where
  abbrev Stays : Round → Type 0
  Stays = StaysPlain s w

  case :
      (b : Bool) (x y : Round)
      → (b ≡ true → Stays x)
      → (b ≡ false → Stays y)
      → Stays (if b then x else y)
  case true x y p q = p refl
  case false x y p q = q refl

  not_blank : (c : ℕ) → is_term w.terms c ≡ true → is_blank c ≡ false
  not_blank c e = ground arith

  dollar_round-Stays : is_blank (get s w.i) ≡ false → Stays (dollar_round s w)
  unfolding dollar_round
  dollar_round-Stays h =
      let n = get s (w.i + 1) in
      case (leb (length s) (w.i + 1)) _ _ (λ _. h)
        (λ _.
          case (n == b'$') _ _ (λ _. plain)
            (λ _. case (is_term w.terms n) _ _ (λ e. not_blank n e) (λ _. tt)))

  open_round-Stays : (c : ℕ) → Stays (open_round c w)
  unfolding open_round is_term
  open_round-Stays c = ground arith

  close_round-Stays : (c : ℕ) → Stays (next (close_round c (record w { i = w.i + 1 })))
  unfolding close_round is_term
  close_round-Stays c = ground arith

  join_line-Stays : Stays (next (join_line s w))
  unfolding join_line
  join_line-Stays = plain

  backslash_round-Stays : (opt : ParseExprOpt) → Stays (backslash_round opt s w)
  unfolding backslash_round
  backslash_round-Stays opt =
      let n = get s (w.i + 1) in
      case (n == backslash) _ _ (λ _. plain)
        (λ _.
          case (n == b'#' && should_handle_comments opt) _ _ (λ _. plain)
            (λ _.
              case (is_newline n) _ _
                (λ _. case (is_term w.terms b' ') _ _ (λ e. ground arith) (λ _. join_line-Stays))
                (λ _. plain)))

  pub scan_round-StaysPlain : (opt : ParseExprOpt) → Stays (scan_round opt s w)
  unfolding scan_round
  scan_round-StaysPlain opt =
      let c = get s w.i in
      case (leb (length s) w.i) _ _ (λ e. rw (get_or-past w.i s 0 (leb→le _ _ e)) refl)
        (λ _.
          case (is_term w.terms c && w.save_paren == 0) _ _ (λ e. not_blank c (ground arith))
            (λ _.
              case (is_null w.terms && c == b'#' && should_handle_comments opt) _ _
                (λ e. ground arith)
                (λ _.
                  case (c == b'$') _ _ (λ e. dollar_round-Stays (ground arith))
                    (λ _.
                      case ((c == b'(' || c == b'{') && is_func_args opt) _ _
                        (λ _. open_round-Stays c)
                        (λ _.
                          case (c == backslash && ltb (w.i + 1) (length s) && not (is_command opt))
                            _ _ (λ _. backslash_round-Stays opt) (λ _. close_round-Stays c))))))
