-- ===== src/Func/Words/Numeric.antt =====
-- Which number `GetNumericValueForFunc` reads from digits.
use native.Mathlib.Numerals.{unary_clauses}
use kati.Prelude.{
  ℕ, suc, ◌+◌, ◌-◌, ◌*◌, ◌/◌, ◌^◌, ◌%◌, ◌≤◌, ◌<◌, ◌≡◌, ◌≢◌, ◌⊎◌, refl, ap, ◌∙◌, inl, inr, true,
  false, not, ◌||◌, Option, none, some, [], ◌∷◌, arith, Bytes, length, ltb, ◌==◌, if◌then◌else◌,
  ==_refl, ==-suc_zero, Bool-cases, All,
}
use kati.Strutil.Words.{is_space, count_until}
use kati.Strutil.Trim.{backslash, trim_left_space}
use kati.Func.Words.{
  is_digit, long_max, digits_value, digits_count, sign_of, strtol, to_int, get_numeric_value,
}

abbrev pub Digits : Bytes → Type 0
Digits = All (λ c. is_digit c ≡ true)

digits_count-all : (s : Bytes) → Digits s → digits_count s ≡ length s
unfolding digits_count
digits_count-all [] h = refl
digits_count-all (c ∷ s) h = rw (h.0, digits_count-all s h.1) refl

trim_left_space-digit : (c : ℕ) (s : Bytes) → is_digit c ≡ true → trim_left_space (c ∷ s) ≡ c ∷ s
unfolding trim_left_space
trim_left_space-digit c [] h = let e : is_space c ≡ false = ground arith in rw e refl
trim_left_space-digit c (n ∷ s) h =
    let e : is_space c ≡ false = ground arith in
    let b : (c == backslash) ≡ false = ground arith in rw (e, b) refl

-- What `strtol` makes of digits.
abbrev pub saturated : ℕ → ℕ
saturated n = if ltb n long_max then n else long_max

strtol-Digits :
    (c : ℕ) (s : Bytes)
    → Digits (c ∷ s)
    → strtol (c ∷ s) ≡ (some (saturated (digits_value 0 (c ∷ s))), length (c ∷ s))
unfolding strtol
strtol-Digits c s h =
    rw (strtol, gap, sign, digits_count-all (c ∷ s) h, ==-suc_zero (length s))
      (ap (λ k. (some (saturated n), k)) (omega arith))
  where
    n : ℕ
    n = digits_value 0 (c ∷ s)

    gap : count_until (λ d. not (is_space d)) (c ∷ s) ≡ 0
    gap = unfold count_until in let e : is_space c ≡ false = ground (arith, h.0) in rw e refl

    sign : sign_of (c ∷ s) ≡ 0
    sign = ground (arith, h.0)

saturated-test :
    (n : ℕ)
    → (if saturated n == long_max || not true then none else to_int (saturated n))
      ≡ (if ltb n long_max then to_int n else none)
saturated-test n = elim (Bool-cases (ltb n long_max)) [
  | inl e ↦ let d : (n == long_max) ≡ false = ground arith in rw e (rw d refl)
  | inr e ↦ rw e refl
]

get_numeric_value_lem :
    (s : Bytes)
    → s ≢ []
    → Digits s
    → get_numeric_value s
      ≡ (if ltb (digits_value 0 s) long_max then to_int (digits_value 0 s) else none)
unfolding get_numeric_value
get_numeric_value_lem [] n h = absurd (n refl)
get_numeric_value_lem (c ∷ s) n h =
    rw (get_numeric_value, trim_left_space-digit c s h.0, strtol-Digits c s h)
      (rw (trim_left_space-digit c s h.0, strtol-Digits c s h, ==_refl (length (c ∷ s)))
        (saturated-test (digits_value 0 (c ∷ s))))

-- The number that digits write, by the places of the digits.
unfoldable pub place_value : Bytes → ℕ
place_value [] = 0
place_value (c ∷ s) = (c - b'0') * 10 ^ length s + place_value s

add_place : (n d l : ℕ) → (n * 10 + d) * 10 ^ l ≡ n * 10 ^ suc l + d * 10 ^ l
add_place n d l = simp unary_clauses (grind arith)

digits_value-place_value :
    (n : ℕ) (s : Bytes) → Digits s → digits_value n s ≡ n * 10 ^ length s + place_value s
unfolding digits_value place_value
digits_value-place_value n [] h = omega arith
digits_value-place_value n (c ∷ s) h =
    let again = digits_value-place_value (n * 10 + (c - b'0')) s h.1 in
    let place = add_place n (c - b'0') (length s) in rw h.0 (again ∙ omega (arith, place))

-- What the number is for the functions of words: `strtol` gives `LONG_MAX` for it and for more, which
-- count as no number, and the conversion to `int` keeps 32 bits, of which the first one is the sign.
abbrev pub IsNumber : ℕ → Option ℕ → Type 0
IsNumber n none = (2 ^ 63 - 1 ≤ n) ⊎ (2 ^ 31 ≤ n % 2 ^ 32)
IsNumber n (some k) = (n < 2 ^ 63 - 1) × (k < 2 ^ 31) × (q : ℕ) × (n ≡ q * 2 ^ 32 + k)

cut-IsNumber : (n : ℕ) → IsNumber n (if ltb n long_max then to_int n else none)
unfolding to_int
cut-IsNumber n = elim (Bool-cases (ltb n long_max)) [
  | inr e ↦ rw e (inl (ground arith))
  | inl e ↦ elim (Bool-cases (ltb (n % 2 ^ 32) (2 ^ 31))) [
    | inl l ↦ rw (e, l) ((ground arith), (ground arith), n / 2 ^ 32, (ground arith))
    | inr g ↦ rw (e, g) (inr (ground arith))
  ]
]

-- Digits are read as the number that they write in decimal, if this is less than `LONG_MAX`, cut down
-- to an `int` of 32 bits; what is negative as an `int` counts as no number, and so does a greater
-- number.
pub get_numeric_value-Digits :
    (s : Bytes) → s ≢ [] → Digits s → IsNumber (place_value s) (get_numeric_value s)
get_numeric_value-Digits s n h =
    let e : digits_value 0 s ≡ place_value s = digits_value-place_value 0 s h ∙ omega arith in
    rw (get_numeric_value_lem s n h, e) (cut-IsNumber (place_value s))
