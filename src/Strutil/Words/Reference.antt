-- ===== src/Strutil/Words/Reference.antt =====
-- The scanner by indices against a reading of the text byte by byte.
use kati.Prelude.{
  ℕ, zero, suc, ◌+◌, ◌-◌, ◌≤◌, ◌<◌, ◌≡◌, refl, sym, ap, ◌∙◌, inl, inr, Bool, true, not, ◌||◌, none,
  some, List, [], ◌∷◌, ◌++◌, append-nil, append_assoc, arith, Bytes, length, take, drop, drop-drop,
  drop-step, drop-all, length-drop, leb, ◌==◌, if◌then◌else◌, Bool-cases,
}
use kati.Piece.{substr}
use kati.Strutil.Words.{is_space, count_until, skip_until, advance, scan, words}

-- Between words, and inside a word whose bytes so far are `cur`. A NUL byte ends a word and is
-- passed over; at the start of a word it makes that word empty.
unfoldable mutual
  pub between : Bytes → List Bytes
  between [] = []
  between (c ∷ s) =
      if is_space c then between s else if c == 0 then [] ∷ between s else inside s (c ∷ [])

  pub inside : Bytes → Bytes → List Bytes
  inside [] cur = cur ∷ []
  inside (c ∷ s) cur = if is_space c || c == 0 then cur ∷ between s else inside s (cur ++ c ∷ [])

-- The bytes that end a word.
abbrev pub is_end : ℕ → Bool
is_end c = is_space c || c == 0

abbrev is_start : ℕ → Bool
is_start c = not (is_space c)

between-gap : (s : Bytes) → between s ≡ between (drop (count_until is_start s) s)
unfolding between count_until
between-gap [] = refl
between-gap (c ∷ s) = ground (arith, between-gap s)

inside-word :
    (s cur : Bytes)
    → inside s cur
      ≡ (cur ++ take (count_until is_end s) s) ∷ between (drop (suc (count_until is_end s)) s)
unfolding between count_until
inside-word [] cur = ground (arith, append-nil cur)
inside-word (c ∷ s) cur = ground (
  arith,
  inside-word s (cur ++ c ∷ []),
  append-nil cur,
  append_assoc cur (c ∷ []) (take (count_until is_end s) s),
)

between-word :
    (c : ℕ) (s : Bytes)
    → is_start c ≡ true
    → between (c ∷ s)
      ≡ take (count_until is_end (c ∷ s)) (c ∷ s)
        ∷ between (drop (suc (count_until is_end (c ∷ s))) (c ∷ s))
unfolding between count_until
between-word c s h = ground (arith, inside-word s (c ∷ []))

pub count_until-le : (stop : ℕ → Bool) (s : Bytes) → count_until stop s ≤ length s
unfolding count_until
count_until-le stop [] = omega arith
count_until-le stop (c ∷ s) = ground (arith, count_until-le stop s)

pub count_until-stops :
    (stop : ℕ → Bool) (s : Bytes) (c : ℕ) (r : Bytes)
    → drop (count_until stop s) s ≡ c ∷ r
    → stop c ≡ true
unfolding count_until
count_until-stops stop [] c r h = cc
count_until-stops stop (x ∷ s) c r h = elim (Bool-cases (stop x)) [
  | inl e ↦ let h' : x ∷ s ≡ c ∷ r = rw e at h in ground arith
  | inr e ↦ count_until-stops stop s c r (rw e at h)
]

pub substr-take :
    (text : Bytes) (s k : ℕ)
    → s ≤ length text
    → k ≤ length text - s
    → substr text s (some k) ≡ take k (drop s text)
unfolding substr
substr-take text s k p q = ground arith

-- The text at the next word, by its bounds.
scan-step :
    (text : Bytes) (s : ℕ) (c : ℕ) (r : Bytes)
    → drop s text ≡ c ∷ r
    → is_start c ≡ true
    → between (drop s text)
      ≡ substr text s (some (s + skip_until (drop s text) is_space - s))
        ∷ between (drop (s + skip_until (drop s text) is_space + 1) text)
unfolding skip_until
scan-step text s c r e h =
    let k = count_until is_end (drop s text) in
    let m : s + k - s ≡ k = omega arith in
    rw
      (
        m,
        substr-take text s k (omega (arith, ap length e, length-drop s text))
            (omega (arith, length-drop s text, count_until-le is_end (drop s text))),
      )
      (rw (← drop-drop (suc k) s (s + k + 1) text (omega arith)) (rw e (between-word c r h)))

-- `operator++` where the spaces reach the end, and where a word begins at `s`.
advance-past :
    (text : Bytes) (from : ℕ)
    → length text ≤ from + count_until is_start (drop from text)
    → advance text from ≡ none
unfolding advance
advance-past text from h = ground arith

advance-here :
    (text : Bytes) (from s : ℕ)
    → s ≡ from + count_until is_start (drop from text)
    → s < length text
    → advance text from ≡ some (s, s + skip_until (drop s text) is_space)
unfolding advance
advance-here text from s e h = rw (← e) (ground arith)

scan-between :
    (fuel : ℕ) (text : Bytes) (from : ℕ)
    → length text < fuel + from
    → scan fuel text from ≡ between (drop from text)
unfolding scan
scan-between zero text from h = rw (drop-all from text (omega arith)) (unfold between in refl)
scan-between (suc fuel) text from h =
    let s = from + count_until is_start (drop from text) in
    let i = s + skip_until (drop s text) is_space in
    let p : between (drop from text) ≡ between (drop s text) =
      between-gap (drop from text)
      ∙ ap between (drop-drop (count_until is_start (drop from text)) from s text refl) in
    elim (Bool-cases (leb (length text) s)) [
      | inl past ↦
          rw (advance-past text from (ground arith), scan)
            (rw (p, drop-all s text (ground arith)) (unfold between in refl))
      | inr here ↦
          let cut = drop-step s (suc s) text 0 (ground arith) refl in
          rw (advance-here text from s refl (ground arith), scan)
            (rw (p, scan-between fuel text (i + 1) (omega arith))
              (sym (
                scan-step text s _ _ cut (
                  count_until-stops is_start (drop from text) _ _
                    (drop-drop (count_until is_start (drop from text)) from s text refl ∙ cut)))))
    ]

-- The scanner, which walks the text by indices, visits exactly the words that a reading of the text
-- byte by byte delivers, for every text; its fuel of one more than the length is enough.
pub words-between : (text : Bytes) → words text ≡ between text
unfolding words
words-between text = scan-between (length text + 1) text 0 (omega arith)
