-- ===== src/Func/Texts/Filter.antt =====
-- What `FilterFunc` and `FilterOutFunc` write, as lists of words, by which words fit the patterns.
use kati.Prelude.{
  ℕ, suc, ◌≡◌, ◌≢◌, ◌⊎◌, refl, sym, ap, ◌∙◌, inl, inr, Bool, true, false, not, none, List, [], ◌∷◌,
  ◌++◌, arith, Bytes, ◌==◌, if◌then◌else◌, Bool-cases, All, Lacks, map, text_eq, text_eq→eq,
  text_eq_iff,
}
use kati.Piece.{index_of, find_byte}
use kati.Strutil.Pattern.{percent, has_prefix, has_suffix, Pattern, pattern_of, match}
use kati.Strutil.Pattern.Affix.{has_prefix_iff, has_suffix_iff}
use kati.Strutil.Pattern.Wild.{wild, and-true, match-wild}
use kati.Strutil.Words.{Writer, writer, words, write, write_all}
use kati.Strutil.Words.RoundTrip.{IsWord, words-write_all, words-IsWord}
use kati.Func.Texts.{
  match_any, patterns_of, filter_words, filter_out_words, filter_func, filter_out_func,
}

-- A word fits a pattern: it is the pattern if this has no percent sign, or it begins with what stands
-- before the first one and ends with what stands behind it, where the two may overlap.
pub data Fits : Bytes → Bytes → Type 0 where
  same : {p : Bytes} → Lacks percent p → Fits p p
  affixes :
      {w : Bytes} (front back r q : Bytes)
      → Lacks percent front
      → w ≡ front ++ r
      → w ≡ q ++ back
      → Fits (wild front back) w

abbrev pub FitsAny : List Bytes → Bytes → Type 0
FitsAny [] w = ⊥
FitsAny (p ∷ ps) w = Fits p w ⊎ FitsAny ps w

index_of-Lacks : (c : ℕ) (p : Bytes) → Lacks c p → index_of c p ≡ none
unfolding index_of
index_of-Lacks c [] h = refl
index_of-Lacks c (x ∷ p) h =
    let miss : (x == c) ≡ false = ground arith in rw (miss, index_of-Lacks c p h.1) refl

pattern_of-Lacks :
    (p : Bytes) → Lacks percent p → pattern_of p ≡ record { pat = p; percent_index = none }
unfolding pattern_of find_byte
pattern_of-Lacks p h = ground (arith, index_of-Lacks percent p h)

match-Lacks : (p w : Bytes) → Lacks percent p → match (pattern_of p) w ≡ text_eq w p
match-Lacks p w h = rw (pattern_of-Lacks p h) (unfold match in refl)

-- A pattern has no percent sign, or a first one.
split_percent :
    (p : Bytes)
    → Lacks percent p
      ⊎ ((front : Bytes) × (back : Bytes) × (p ≡ wild front back) × Lacks percent front)
split_percent [] = inl tt
split_percent (c ∷ p) = elim (Bool-cases (c == percent)) [
  | inl e ↦ let q : c ≡ percent = ground arith in inr ([], p, ap (λ x. x ∷ p) q, tt)
  | inr e ↦ elim (split_percent p) [
    | inl h ↦ inl ((ground arith), h)
    | inr (front, back, q, h) ↦ inr (c ∷ front, back, ap (λ s. c ∷ s) q, ((ground arith), h))
  ]
]

match-Fits : (p w : Bytes) → Fits p w → match (pattern_of p) w ≡ true
match-Fits p w (same h) = match-Lacks p p h ∙ (text_eq_iff p p).1 refl
match-Fits _ w (affixes front back r q h e k) =
    match-wild front back w h
    ∙ ground (arith, (has_prefix_iff w front).1 (r, e), (has_suffix_iff w back).1 (q, k))

Fits-match : (p w : Bytes) → match (pattern_of p) w ≡ true → Fits p w
Fits-match p w m = elim (split_percent p) [
  | inl h ↦ let e : w ≡ p = text_eq→eq w p (sym (match-Lacks p w h) ∙ m) in rw e (same h)
  | inr (front, back, e, h) ↦
      let both =
        and-true (has_prefix w front) (has_suffix w back)
          (sym (match-wild front back w h) ∙ ap (λ t. match (pattern_of t) w) (sym e) ∙ m) in
      let (r, k) = (has_prefix_iff w front).0 both.0 in
      let (q, l) = (has_suffix_iff w back).0 both.1 in rw e (affixes front back r q h k l)
]

match_any-FitsAny :
    (ps : List Bytes) (w : Bytes) → FitsAny ps w → match_any (map pattern_of ps) w ≡ true
unfolding match_any
match_any-FitsAny [] w h = absurd h
match_any-FitsAny (p ∷ ps) w (inl h) = rw (match-Fits p w h) refl
match_any-FitsAny (p ∷ ps) w (inr h) = ground (arith, match_any-FitsAny ps w h)

FitsAny-match_any :
    (ps : List Bytes) (w : Bytes) → match_any (map pattern_of ps) w ≡ true → FitsAny ps w
unfolding match_any
FitsAny-match_any [] w h = absurd cc
FitsAny-match_any (p ∷ ps) w h = elim (Bool-cases (match (pattern_of p) w)) [
  | inl e ↦ inl (Fits-match p w e)
  | inr e ↦ inr (FitsAny-match_any ps w (ground arith))
]

-- The words that a test accepts, in their order.
pub kept : (Bytes → Bool) → List Bytes → List Bytes
kept keep [] = []
kept keep (t ∷ ts) = if keep t then t ∷ kept keep ts else kept keep ts

filter_words-kept :
    (keep : Bytes → Bool) (ts : List Bytes) (w : Writer)
    → filter_words keep ts w ≡ write_all (kept keep ts) w
unfolding filter_words write_all kept
filter_words-kept keep [] w = refl
filter_words-kept keep (t ∷ ts) w = elim (Bool-cases (keep t)) [
  | inl e ↦ rw e (filter_words-kept keep ts (write t w))
  | inr e ↦ rw e (filter_words-kept keep ts w)
]

filter_out_words-kept :
    (pats : List Pattern) (ts : List Bytes) (w : Writer)
    → filter_out_words pats ts w ≡ write_all (kept (λ t. not (match_any pats t)) ts) w
unfolding filter_out_words write_all kept
filter_out_words-kept pats [] w = refl
filter_out_words-kept pats (t ∷ ts) w = elim (Bool-cases (match_any pats t)) [
  | inl e ↦ rw e (filter_out_words-kept pats ts w)
  | inr e ↦ rw e (filter_out_words-kept pats ts (write t w))
]

All-kept : (keep : Bytes → Bool) (ts : List Bytes) → All IsWord ts → All IsWord (kept keep ts)
unfolding kept
All-kept keep [] h = tt
All-kept keep (t ∷ ts) h = elim (Bool-cases (keep t)) [
  | inl e ↦ rw e (h.0, All-kept keep ts h.1)
  | inr e ↦ rw e (All-kept keep ts h.1)
]

-- How often a word stands in a list.
pub count : Bytes → List Bytes → ℕ
count w [] = 0
count w (t ∷ ts) = if text_eq w t then suc (count w ts) else count w ts

count-kept :
    (keep : Bytes → Bool) (w : Bytes) (ts : List Bytes)
    → count w (kept keep ts) ≡ (if keep w then count w ts else 0)
unfolding count kept
count-kept keep w [] = ground arith
count-kept keep w (t ∷ ts) = elim (Bool-cases (text_eq w t)) [
  | inl e ↦ rw (← text_eq→eq w t e) (ground (arith, count-kept keep w ts, (text_eq_iff w w).1 refl))
  | inr e ↦ ground (arith, count-kept keep w ts)
]

words-kept :
    (keep : Bytes → Bool) (text : Bytes)
    → Lacks 0 text
    → words (write_all (kept keep (words text)) (writer [])).out ≡ kept keep (words text)
words-kept keep text h =
    words-write_all (kept keep (words text)) (All-kept keep (words text) (words-IsWord text h))

-- How often a word stands in what the functions make of a text.
abbrev pub count_filter : Bytes → Bytes → Bytes → ℕ
count_filter w pat_buf text = count w (words (filter_func pat_buf text []))

abbrev pub count_filter_out : Bytes → Bytes → Bytes → ℕ
count_filter_out w pat_buf text = count w (words (filter_out_func pat_buf text []))

count_filter_lem :
    (pat_buf text w : Bytes)
    → Lacks 0 text
    → count_filter w pat_buf text
      ≡ (if match_any (patterns_of pat_buf) w then count w (words text) else 0)
unfolding filter_func
count_filter_lem pat_buf text w h =
    let keep = match_any (patterns_of pat_buf) in
    rw (filter_func, filter_words-kept keep (words text) (writer []), words-kept keep text h)
      (count-kept keep w (words text))

count_filter_out_lem :
    (pat_buf text w : Bytes)
    → Lacks 0 text
    → count_filter_out w pat_buf text
      ≡ (if not (match_any (patterns_of pat_buf) w) then count w (words text) else 0)
unfolding filter_out_func
count_filter_out_lem pat_buf text w h =
    let keep = λ (t : Bytes). not (match_any (patterns_of pat_buf) t) in
    rw
      (
        filter_out_func,
        filter_out_words-kept (patterns_of pat_buf) (words text) (writer []),
        words-kept keep text h,
      )
      (count-kept keep w (words text))

-- A word that fits one of the patterns stands in the result of `filter` as often as in the text, and
-- not in that of `filter-out`; any other word the other way round; for a text with no NUL byte.
pub filter-FitsAny :
    (pat_buf text w : Bytes)
    → Lacks 0 text
    → (FitsAny (words pat_buf) w
        × (count_filter w pat_buf text ≡ count w (words text))
        × (count_filter_out w pat_buf text ≡ 0))
      ⊎ ((¬ FitsAny (words pat_buf) w)
          × (count_filter w pat_buf text ≡ 0)
          × (count_filter_out w pat_buf text ≡ count w (words text)))
filter-FitsAny pat_buf text w h = elim (Bool-cases (match_any (patterns_of pat_buf) w)) [
  | inl e ↦ inl (
    FitsAny-match_any (words pat_buf) w e,
    count_filter_lem pat_buf text w h ∙ rw e refl,
    count_filter_out_lem pat_buf text w h ∙ rw e refl,
  )
  | inr e ↦ inr (
    λ fits. true-false (sym (match_any-FitsAny (words pat_buf) w fits) ∙ e),
    count_filter_lem pat_buf text w h ∙ rw e refl,
    count_filter_out_lem pat_buf text w h ∙ rw e refl,
  )
]
  where
    true-false : true ≢ false
    true-false = cc
