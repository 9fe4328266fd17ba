-- ===== src/Strutil/Escape/Shell.antt =====
-- `EscapeShell`, which copies stretches between delimiters, against a rewriting byte by byte.
use kati.Prelude.{
  ℕ, zero, suc, ◌+◌, ◌-◌, ◌≤◌, ◌<◌, ◌≡◌, refl, sym, ap, ◌∙◌, Bool, true, false, ◌&&◌, ◌||◌, none,
  some, [], ◌∷◌, ◌++◌, arith, Bytes, ◌==◌, length, take, drop, drop-drop, drop-step, drop-all,
  length-drop, take-all, get_or-drop, get_or-past, ltb, if◌then◌else◌, append_assoc, append-nil,
  Bool-cases, inl, inr,
}
use kati.Piece.{get, substr}
use kati.Strutil.Words.{count_until, skip_until}
use kati.Strutil.Words.Reference.{count_until-le, count_until-stops, substr-take}
use kati.Strutil.Escape.{backslash, dollar, is_delimiter, is_double, escape_loop, escape_shell}

-- A backslash before each delimiter; two dollar signs have one backslash before both. A NUL byte
-- stops the search for delimiters, so it is taken for one.
abbrev stops : ℕ → Bool
stops c = is_delimiter c || c == 0

pub escaped : Bytes → Bytes
escaped [] = []
escaped (c ∷ []) = if stops c then backslash ∷ c ∷ [] else c ∷ []
escaped (c ∷ d ∷ s) =
    let one = escaped (d ∷ s) in
    let two = escaped s in
    if stops c
    then (if c == dollar && d == dollar then backslash ∷ c ∷ d ∷ two else backslash ∷ c ∷ one)
    else c ∷ one

escaped-pass : (c : ℕ) (s : Bytes) → stops c ≡ false → escaped (c ∷ s) ≡ c ∷ escaped s
unfolding escaped
escaped-pass c [] h = rw h refl
escaped-pass c (d ∷ s) h = rw h refl

count_until-cons :
    (c : ℕ) (s : Bytes)
    → count_until stops (c ∷ s) ≡ (if stops c then 0 else suc (count_until stops s))
unfolding count_until
count_until-cons c s = refl

-- Up to the next delimiter the text is copied.
escaped-plain :
    (s : Bytes) → escaped s ≡ take (count_until stops s) s ++ escaped (drop (count_until stops s) s)
escaped-plain [] = unfold count_until in refl
escaped-plain (c ∷ s) = elim (Bool-cases (stops c)) [
  | inl e ↦ rw (count_until-cons, e) refl
  | inr e ↦ rw (count_until-cons, e, escaped-pass c s e) (ap (λ u. c ∷ u) (escaped-plain s))
]

-- A delimiter that is no dollar sign before another.
escaped-one :
    (c : ℕ) (s : Bytes)
    → stops c ≡ true
    → (c == dollar && get s 0 == dollar) ≡ false
    → escaped (c ∷ s) ≡ backslash ∷ c ∷ escaped s
unfolding escaped
escaped-one c [] h k = rw h refl
escaped-one c (d ∷ s) h k = rw (h, k) refl

escaped-two : (s : Bytes) → escaped (dollar ∷ dollar ∷ s) ≡ backslash ∷ dollar ∷ dollar ∷ escaped s
unfolding escaped
escaped-two s = refl

-- What one round appends, at a delimiter at `i` with the text from `prev` on not yet copied.
abbrev next_place : Bytes → ℕ → ℕ
next_place s i = if is_double s i then i + 1 else i

abbrev mark : Bytes → ℕ → Bytes
mark s i = (if is_double s i then backslash ∷ dollar ∷ [] else backslash ∷ []) ++ get s i ∷ []

escaped-round :
    (s : Bytes) (i : ℕ)
    → i < length s
    → stops (get s i) ≡ true
    → escaped (drop i s) ≡ mark s i ++ escaped (drop (next_place s i + 1) s)
escaped-round s i h k = elim (Bool-cases (is_double s i)) [
  | inl e ↦ rw e (double (ground arith) (ground arith))
  | inr e ↦ rw e (
      rw (drop-step i (i + 1) s 0 h (omega arith))
        (escaped-one (get s i) (drop (i + 1) s) k (head_at e)))
]
  where
    head_at :
        is_double s i ≡ false → (get s i == dollar && get (drop (i + 1) s) 0 == dollar) ≡ false
    head_at e = rw (get_or-drop (i + 1) 0 s 0) (let z : i + 1 + 0 ≡ i + 1 = omega arith in rw z e)

    in_range : (j : ℕ) → get s j ≡ dollar → j < length s
    in_range j e = elim (Bool-cases (ltb j (length s))) [
      | inl here ↦ ground arith
      | inr past ↦ absurd (omega (arith, get_or-past j s 0 (ground arith)))
    ]

    double :
        get s i ≡ dollar
        → get s (i + 1) ≡ dollar
        → escaped (drop i s) ≡ backslash ∷ dollar ∷ get s i ∷ escaped (drop (i + 1 + 1) s)
    double e e' =
        rw
          (
            drop-step i (i + 1) s 0 h (omega arith),
            drop-step (i + 1) (i + 1 + 1) s 0 (in_range (i + 1) e') (omega arith),
            e,
            e',
          )
          (escaped-two (drop (i + 1 + 1) s))

next_place-le : (s : Bytes) (i : ℕ) → i < length s → next_place s i + 1 ≤ length s
next_place-le s i h = elim (Bool-cases (is_double s i)) [
  | inl e ↦ rw e (in_range (ground arith))
  | inr e ↦ rw e (omega (arith, h))
]
  where
    in_range : get s (i + 1) ≡ dollar → i + 1 + 1 ≤ length s
    in_range e = elim (Bool-cases (ltb (i + 1) (length s))) [
      | inl here ↦ ground arith
      | inr past ↦ absurd (omega (arith, get_or-past (i + 1) s 0 (ground arith)))
    ]

next_place-ge : (s : Bytes) (i : ℕ) → i ≤ next_place s i
next_place-ge s i = ground arith

-- The text from `prev` on is a stretch that is copied and a delimiter at `i`.
escaped-stretch :
    (s : Bytes) (prev i : ℕ)
    → prev ≤ length s
    → i ≡ prev + skip_until (drop prev s) is_delimiter
    → i < length s
    → escaped (drop prev s)
      ≡ substr s prev (some (i - prev)) ++ (mark s i ++ escaped (drop (next_place s i + 1) s))
unfolding skip_until
escaped-stretch s prev i p e here =
    escaped-plain (drop prev s)
    ∙ rw (k, drop-drop (i - prev) prev i s (omega (arith, e)))
        (ap (λ t. t ++ escaped (drop i s))
            (sym (substr-take s prev (i - prev) p (omega (arith, here))))
          ∙ ap (λ t. substr s prev (some (i - prev)) ++ t) (escaped-round s i here stop))
  where
    k : count_until stops (drop prev s) ≡ i - prev
    k = omega (arith, e)

    stop : stops (get s i) ≡ true
    stop = count_until-stops stops (drop prev s) (get s i) (drop (i + 1) s) (
        rw (k, drop-drop (i - prev) prev i s (omega (arith, e)))
          (drop-step i (i + 1) s 0 here (omega arith)))

escaped-none : (s : Bytes) → length s ≤ count_until stops s → escaped s ≡ s
escaped-none s h =
    escaped-plain s
    ∙ rw (take-all (count_until stops s) s h, drop-all (count_until stops s) s h)
        (unfold escaped in append-nil s)

-- From `prev` on there is no delimiter.
escaped-rest :
    (s : Bytes) (prev i : ℕ)
    → prev ≤ length s
    → i ≡ prev + skip_until (drop prev s) is_delimiter
    → length s ≤ i
    → substr s prev none ≡ escaped (drop prev s)
unfolding skip_until substr
escaped-rest s prev i p e past =
    let d : (if ltb (length s) prev then length s else prev) ≡ prev = ground arith in
    rw d (
      rw (take-all (length s - prev) (drop prev s) (omega (arith, length-drop prev s)))
        (sym (escaped-none (drop prev s) (omega (arith, length-drop prev s, e, past)))))

escape_loop-escaped :
    (fuel : ℕ) (s : Bytes) (prev i : ℕ) (r : Bytes)
    → prev ≤ length s
    → i ≡ prev + skip_until (drop prev s) is_delimiter
    → length s < fuel + i
    → escape_loop fuel s prev i r ≡ r ++ escaped (drop prev s)
unfolding escape_loop skip_until
escape_loop-escaped zero s prev i r p e h =
    absurd (omega (arith, count_until-le stops (drop prev s), length-drop prev s))
escape_loop-escaped (suc fuel) s prev i r p e h = elim (Bool-cases (ltb i (length s))) [
  | inl here ↦ rw here (
      escape_loop-escaped fuel s (next_place s i + 1) _ _ (next_place-le s i (ground arith)) refl
        (omega (arith, next_place-ge s i, h))
      ∙ rw (escaped-stretch s prev i p e (ground arith)) (simp append_assoc))
  | inr past ↦ rw past (ap (λ t. r ++ t) (escaped-rest s prev i p e (ground arith)))
]

-- `EscapeShell` puts a backslash before each delimiter and each NUL byte, one before two dollar
-- signs, and copies all else, for every text.
pub escape_shell-escaped : (s : Bytes) → escape_shell s ≡ escaped s
unfolding escape_shell
escape_shell-escaped s = elim (Bool-cases (skip_until s is_delimiter == length s)) [
  | inl e ↦ rw e (sym (escaped-none s (unfold skip_until in ground arith)))
  | inr e ↦
      rw e (escape_loop-escaped (length s + 1) s 0 _ [] (omega arith) (omega arith) (omega arith))
]
