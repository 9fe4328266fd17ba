-- ===== src/Strutil/Pattern/Subst.antt =====
-- `AppendSubst` as a whole, and a class of inputs on which it does not end.
use kati.Prelude.{
  ℕ, suc, ◌+◌, ◌^◌, ◌≤◌, ◌<◌, ◌≡◌, refl, ap, ◌∙◌, true, none, some, ◌∷◌, ◌++◌, arith, Bytes, length,
  length-append, drop-append, take-all, Lacks,
}
use kati.Piece.{substr}
use kati.Strutil.Pattern.{percent, Pattern, pattern_of, match, stem_size, fill, subst_pattern}
use kati.Strutil.Pattern.Wild.{
  wild, pattern_of-wild, match_stem_iff, stem_size-wild, substr-middle, long,
}
use kati.Strutil.Pattern.Substitute.{
  replace_percents, IsFillable, fill-replace_percents, fill-diverges,
}

-- `AppendSubst` on a text that the pattern matches.
subst_pattern-match :
    (fuel : ℕ) (pat : Bytes) (i : ℕ) (p : Pattern) (str subst : Bytes)
    → p ≡ record { pat = pat; percent_index = some i }
    → match p str ≡ true
    → subst_pattern fuel p str subst
      ≡ fill fuel subst none (substr str i (some (stem_size pat str)))
unfolding subst_pattern match
subst_pattern-match fuel pat i p str subst e m = ground (arith, m)

subst_pattern-wild :
    (fuel : ℕ) (front st back subst : Bytes)
    → Lacks percent front
    → length front + length st + length back < 2 ^ 64
    → subst_pattern fuel (pattern_of (wild front back)) (front ++ (st ++ back)) subst
      ≡ fill fuel subst none st
subst_pattern-wild fuel front st back subst h fits =
    let m : match (pattern_of (wild front back)) (front ++ (st ++ back)) ≡ true =
      (match_stem_iff front back (front ++ (st ++ back)) h (omega (arith, long front st back))).1
        (st, refl) in
    subst_pattern-match fuel (wild front back) (length front) (pattern_of (wild front back))
      (front ++ (st ++ back)) subst (pattern_of-wild front back h) m
    ∙ ap (λ n. fill fuel subst none (substr (front ++ (st ++ back)) (length front) (some n)))
        (stem_size-wild front st back fits)
    ∙ ap (fill fuel subst none) (substr-middle front st back)

-- On a text that is the front, a stem and the back of the pattern, `AppendSubst` puts the stem in
-- place of every percent sign of the replacement, and ends within as many rounds as the replacement
-- has bytes, and one more: if the replacement does not begin with a percent sign, or the stem holds
-- none, and the text fits in memory.
pub subst_pattern-stem :
    (front st back subst : Bytes)
    → Lacks percent front
    → length front + length st + length back < 2 ^ 64
    → IsFillable subst st
    → subst_pattern
        (suc (length subst))
        (pattern_of (wild front back))
        (front ++ (st ++ back))
        subst
      ≡ some (replace_percents subst st)
subst_pattern-stem front st back subst h fits ok =
    subst_pattern-wild (suc (length subst)) front st back subst h fits
    ∙ fill-replace_percents subst st ok

-- Where the replacement and the stem both begin with a percent sign, `AppendSubst` does not end,
-- whatever the number of rounds.
pub subst_pattern-diverges :
    (fuel : ℕ) (front st back subst : Bytes)
    → Lacks percent front
    → length front + length (percent ∷ st) + length back < 2 ^ 64
    → subst_pattern fuel
        (pattern_of (wild front back))
        (front ++ ((percent ∷ st) ++ back))
        (percent ∷ subst)
      ≡ none
subst_pattern-diverges fuel front st back subst h fits =
    subst_pattern-wild fuel front (percent ∷ st) back (percent ∷ subst) h fits
    ∙ fill-diverges fuel subst none st

substr-rest : (s t : Bytes) (n : ℕ) → length t ≤ n → substr (s ++ t) (length s) (some n) ≡ t
unfolding substr
substr-rest s t n h =
    ground (
      arith,
      length-append s t,
      drop-append (length s) s t refl,
      take-all (length t) t,
      take-all n t,
    )
