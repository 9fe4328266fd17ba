-- ===== src/Strutil/Trim/Blank.antt =====
-- What `TrimLeftSpace` and `TrimRightSpace` take away, and what they leave.
use mathlib.Core.List.{reverse, reverse-append, reverse-reverse}
use kati.Prelude.{
  and_false, ℕ, ◌≡◌, refl, sym, ap, ◌∙◌, inl, inr, Bool, true, false, ◌&&◌, [], ◌∷◌, ◌++◌, arith,
  Bytes, ◌==◌, Bool-cases,
}
use kati.Strutil.Words.{is_space}
use kati.Strutil.Trim.{backslash, ends_line, trim_left_space, trim_back, trim_right_space}

-- Spaces and newlines behind a backslash, and nothing else.
pub data IsBlank : Bytes → Type 0 where
  none_left : IsBlank []
  space : {c : ℕ} {s : Bytes} → is_space c ≡ true → IsBlank s → IsBlank (c ∷ s)
  continued : {n : ℕ} {s : Bytes} → ends_line n ≡ true → IsBlank s → IsBlank (backslash ∷ n ∷ s)

-- A text that begins with no space, and with no newline behind a backslash.
abbrev pub IsTrimmed : Bytes → Type 0
IsTrimmed [] = Unit
IsTrimmed (c ∷ []) = is_space c ≡ false
IsTrimmed (c ∷ n ∷ s) = (is_space c ≡ false) × ((c == backslash && ends_line n) ≡ false)

-- The text is what was taken away and what was left.
abbrev IsCut : Bytes → Bytes → Type 0
IsCut s r = (b : Bytes) × (s ≡ b ++ r) × IsBlank b × IsTrimmed r

IsCut-one : (c : ℕ) (s r : Bytes) → is_space c ≡ true → IsCut s r → IsCut (c ∷ s) r
IsCut-one c s r e (b, p, blank, t) = (c ∷ b, ap (λ u. c ∷ u) p, space e blank, t)

IsCut-two : (n : ℕ) (s r : Bytes) → ends_line n ≡ true → IsCut s r → IsCut (backslash ∷ n ∷ s) r
IsCut-two n s r e (b, p, blank, t) =
    (backslash ∷ n ∷ b, ap (λ u. backslash ∷ n ∷ u) p, continued e blank, t)

trim_left_space-IsCut : (s : Bytes) → IsCut s (trim_left_space s)
unfolding trim_left_space
trim_left_space-IsCut [] = ([], refl, none_left, tt)
trim_left_space-IsCut (c ∷ []) = elim (Bool-cases (is_space c)) [
  | inl e ↦ rw e (c ∷ [], refl, space e none_left, tt)
  | inr e ↦ rw e ([], refl, none_left, e)
]
trim_left_space-IsCut (c ∷ n ∷ s) = elim (Bool-cases (is_space c)) [
  | inl e ↦ rw e (IsCut-one c (n ∷ s) _ e (trim_left_space-IsCut (n ∷ s)))
  | inr e ↦ elim (Bool-cases (c == backslash && ends_line n)) [
    | inl k ↦
        let c-is : c ≡ backslash = ground arith in
        rw (e, k) (rw c-is (IsCut-two n s _ (ground arith) (trim_left_space-IsCut s)))
    | inr k ↦ rw (e, k) ([], refl, none_left, (e, k))
  ]
]

-- The same from the last byte on: a newline comes before its backslash.
pub data IsBlankBack : Bytes → Type 0 where
  none_left : IsBlankBack []
  space : {c : ℕ} {s : Bytes} → is_space c ≡ true → IsBlankBack s → IsBlankBack (c ∷ s)
  continued :
      {n : ℕ} {s : Bytes} → ends_line n ≡ true → IsBlankBack s → IsBlankBack (n ∷ backslash ∷ s)

abbrev pub IsTrimmedBack : Bytes → Type 0
IsTrimmedBack [] = Unit
IsTrimmedBack (c ∷ s) = is_space c ≡ false

abbrev pub begins_escaped : Bytes → Bool
begins_escaped [] = false
begins_escaped (c ∷ s) = c == backslash

-- No backslash was left before a newline that was taken away: the last byte of the first text, which
-- stood before the second, is no newline with a backslash behind it.
abbrev pub Parted : Bytes → Bytes → Type 0
Parted [] r = Unit
Parted (c ∷ []) r = (ends_line c && begins_escaped r) ≡ false
Parted (c ∷ d ∷ b) r = Parted (d ∷ b) r

abbrev IsCutBack : Bytes → Bytes → Type 0
IsCutBack s r = (b : Bytes) × (s ≡ b ++ r) × IsBlankBack b × IsTrimmedBack r × Parted b r

Parted-one :
    (c : ℕ) (s b r : Bytes)
    → s ≡ b ++ r
    → (ends_line c && begins_escaped s) ≡ false
    → Parted b r
    → Parted (c ∷ b) r
Parted-one c s [] r p e h = ap (λ u. ends_line c && begins_escaped u) (sym p) ∙ e
Parted-one c s (d ∷ b) r p e h = h

Parted-two : (n : ℕ) (b r : Bytes) → Parted b r → Parted (n ∷ backslash ∷ b) r
Parted-two n [] r h = refl
Parted-two n (d ∷ b) r h = h

IsCutBack-one :
    (c : ℕ) (s r : Bytes)
    → is_space c ≡ true
    → (ends_line c && begins_escaped s) ≡ false
    → IsCutBack s r
    → IsCutBack (c ∷ s) r
IsCutBack-one c s r e k (b, p, blank, t, h) =
    (c ∷ b, ap (λ u. c ∷ u) p, IsBlankBack.space e blank, t, Parted-one c s b r p k h)

IsCutBack-two :
    (n : ℕ) (s r : Bytes) → ends_line n ≡ true → IsCutBack s r → IsCutBack (n ∷ backslash ∷ s) r
IsCutBack-two n s r e (b, p, blank, t, h) = (
  n ∷ backslash ∷ b,
  ap (λ u. n ∷ backslash ∷ u) p,
  IsBlankBack.continued e blank,
  t,
  Parted-two n b r h,
)

trim_back-IsCutBack : (s : Bytes) → IsCutBack s (trim_back s)
unfolding trim_back
trim_back-IsCutBack [] = ([], refl, IsBlankBack.none_left, tt, tt)
trim_back-IsCutBack (c ∷ []) = elim (Bool-cases (is_space c)) [
  | inl e ↦
      rw e (c ∷ [], refl, IsBlankBack.space e IsBlankBack.none_left, tt, and_false (ends_line c))
  | inr e ↦ rw e ([], refl, IsBlankBack.none_left, e, tt)
]
trim_back-IsCutBack (c ∷ p ∷ s) = elim (Bool-cases (is_space c)) [
  | inl e ↦ elim (Bool-cases (ends_line c && p == backslash)) [
    | inl k ↦
        let p-is : p ≡ backslash = ground arith in
        rw (e, k) (rw p-is (IsCutBack-two c s _ (ground arith) (trim_back-IsCutBack s)))
    | inr k ↦ rw (e, k) (IsCutBack-one c (p ∷ s) _ e k (trim_back-IsCutBack (p ∷ s)))
  ]
  | inr e ↦ rw e ([], refl, IsBlankBack.none_left, e, tt)
]

-- `TrimLeftSpace` takes away spaces and newlines behind a backslash, and nothing else, and what is
-- left begins with neither.
pub trim_left_space_lem :
    (s : Bytes)
    → (b : Bytes) × (s ≡ b ++ trim_left_space s) × IsBlank b × IsTrimmed (trim_left_space s)
trim_left_space_lem s = trim_left_space-IsCut s

-- `TrimRightSpace` takes away, at the end, spaces and newlines with the backslash before them, and
-- nothing else. What is left does not end in a space, and not in a backslash whose newline was taken
-- away.
pub trim_right_space_lem :
    (s : Bytes)
    → (b : Bytes) × (s ≡ trim_right_space s ++ reverse b)
      × IsBlankBack b
      × IsTrimmedBack (reverse (trim_right_space s))
      × Parted b (reverse (trim_right_space s))
unfolding trim_right_space
trim_right_space_lem s =
    let (b, p, blank, t, h) = trim_back-IsCutBack (reverse s) in
    (
      b,
      sym (reverse-reverse s) ∙ ap reverse p ∙ reverse-append b (trim_back (reverse s)),
      blank,
      rw (reverse-reverse (trim_back (reverse s))) t,
      rw (reverse-reverse (trim_back (reverse s))) h,
    )
