-- ===== src/Piece/Search.antt =====
-- The searches of `StringPiece` for a byte: each finds the first place that its test accepts.
use kati.Prelude.{
  ℕ, zero, suc, ◌+◌, ◌-◌, ◌≤◌, ◌<◌, ◌≡◌, refl, ap, ◌∙◌, inl, inr, Bool, true, false, ◌||◌, Option,
  none, some, [], ◌∷◌, arith, Bytes, length, drop, leb, ◌==◌, if◌then◌else◌, Bool-cases, fun_ext,
  subst, drop-step, drop-all,
}
use kati.Piece.{
  get, shift, index_of, find_byte, scan_up, is_byte, lookup_table, table_of, find_first_of,
}

-- The answer is the first place from `i` on, below `m`, that the test accepts; `none` if there is
-- no such place.
abbrev pub IsFirstPlace : (ℕ → Bool) → ℕ → ℕ → Option ℕ → Type 0
IsFirstPlace test i m none = (k : ℕ) → i ≤ k → k < m → test k ≡ false
IsFirstPlace test i m (some j) =
    (i ≤ j) × (j < m) × (test j ≡ true) × ((k : ℕ) → i ≤ k → k < j → test k ≡ false)

-- The same for a test of the byte at a place.
abbrev pub IsFirst : (ℕ → Bool) → Bytes → ℕ → ℕ → Option ℕ → Type 0
IsFirst test s = IsFirstPlace (λ k. test (get s k))

-- Whether a byte is one of the wanted.
abbrev pub has : ℕ → Bytes → Bool
has c [] = false
has c (d ∷ wanted) = c == d || has c wanted

module _ (test : ℕ → Bool) (s : Bytes) where
  IsFirst-more :
      (i m : ℕ) (r : Option ℕ)
      → test (get s i) ≡ false
      → IsFirst test s (i + 1) m r
      → IsFirst test s i m r
  IsFirst-more i m none e h = λ k p q. elim (Bool-cases (k == i)) [
    | inl same ↦ let k-i : k ≡ i = ground arith in rw k-i e
    | inr other ↦ h k (ground arith) q
  ]
  IsFirst-more i m (some j) e h = (
    omega arith,
    h.1,
    h.2,
    λ k p q. elim (Bool-cases (k == i)) [
      | inl same ↦ let k-i : k ≡ i = ground arith in rw k-i e
      | inr other ↦ h.3 k (ground arith) q
    ],
  )

  scan_up-IsFirst : (i n m : ℕ) → i + n ≡ m → IsFirst test s i m (scan_up test s i n)
  unfolding scan_up
  scan_up-IsFirst i zero m e = λ k p q. absurd (omega arith)
  scan_up-IsFirst i (suc n) m e = elim (Bool-cases (test (get s i))) [
    | inl hit ↦ rw hit (omega arith, omega arith, hit, λ k p q. absurd (omega arith))
    | inr miss ↦ rw miss (IsFirst-more i m _ miss (scan_up-IsFirst (i + 1) n m (omega arith)))
  ]

shift-shift : (p : ℕ) (o : Option ℕ) → shift p (shift 1 o) ≡ shift (p + 1) o
shift-shift p none = refl
shift-shift p (some k) = ap some (omega arith)

-- `std::find` walks up as well.
shift-index_of :
    (c : ℕ) (s : Bytes) (p n : ℕ)
    → length s ≡ p + n
    → shift p (index_of c (drop p s)) ≡ scan_up (is_byte c) s p n
unfolding scan_up index_of
shift-index_of c s p zero e = rw (drop-all p s (omega arith)) refl
shift-index_of c s p (suc n) e =
    let ih : shift (p + 1) (index_of c (drop (p + 1) s)) ≡ scan_up (is_byte c) s (p + 1) n =
      shift-index_of c s (p + 1) n (omega arith) in
    rw (drop-step p (p + 1) s 0 (omega arith) (omega arith))
      (ground (arith, ih, shift-shift p (index_of c (drop (p + 1) s))))

table_of-lookup :
    (wanted : Bytes) (table : ℕ → Bool) (c : ℕ)
    → lookup_table wanted table c ≡ (if has c wanted then true else table c)
unfolding lookup_table
table_of-lookup [] table c = refl
table_of-lookup (d ∷ wanted) table c = table_of-lookup wanted _ c ∙ ground arith

table_of-has : (wanted : Bytes) → table_of wanted ≡ (λ c. has c wanted)
table_of-has wanted = fun_ext (λ c. table_of-lookup wanted _ c ∙ ground arith)

is_byte-has : (c : ℕ) → is_byte c ≡ (λ d. has d (c ∷ []))
is_byte-has c = fun_ext (λ d. ground arith)

-- The loop as the searches start it.
scan_up_from :
    (test : ℕ → Bool) (s : Bytes) (pos : ℕ)
    → IsFirst test s pos (length s) (scan_up test s pos (length s - pos))
scan_up_from test s pos = elim (Bool-cases (leb pos (length s))) [
  | inl inside ↦ scan_up-IsFirst test s pos (length s - pos) (length s) (ground arith)
  | inr outside ↦
      let e : length s - pos ≡ 0 = ground arith in
      rw e (unfold scan_up in λ k p q. absurd (ground arith))
]

pub find_byte-scan_up :
    (s : Bytes) (c pos : ℕ) → find_byte s c pos ≡ scan_up (is_byte c) s pos (length s - pos)
unfolding find_byte
find_byte-scan_up s c pos = elim (Bool-cases (leb (length s) pos)) [
  | inl outside ↦
      let e : length s - pos ≡ 0 = ground arith in rw (outside, e) (unfold scan_up in refl)
  | inr inside ↦ rw inside (shift-index_of c s pos (length s - pos) (ground arith))
]

-- `find(char, pos)` returns the first place at or behind `pos` that holds the byte, and `npos` if
-- there is none.
pub find_byte-IsFirst :
    (s : Bytes) (c pos : ℕ) → IsFirst (is_byte c) s pos (length s) (find_byte s c pos)
find_byte-IsFirst s c pos = rw find_byte-scan_up (scan_up_from (is_byte c) s pos)

-- An empty text holds no place at all.
IsFirst-empty :
    (test : ℕ → Bool) (s : Bytes) (pos : ℕ) (r : Option ℕ)
    → IsFirst test s pos (length s) r
    → IsFirst test s pos (length s) (if length s == 0 then none else r)
IsFirst-empty test s pos r h = elim (Bool-cases (length s == 0)) [
  | inl e ↦ rw e (λ k p q. absurd (ground arith))
  | inr e ↦ rw e h
]

-- `find_first_of`, by its table or by the short cut for one byte, returns the first place at or
-- behind `pos` that holds one of the wanted bytes, and `npos` if there is none.
pub find_first_of-IsFirst :
    (s wanted : Bytes) (pos : ℕ)
    → IsFirst (λ c. has c wanted) s pos (length s) (find_first_of s wanted pos)
unfolding find_first_of
find_first_of-IsFirst s [] pos = λ k p q. refl
find_first_of-IsFirst s (c ∷ []) pos =
    IsFirst-empty (λ x. has x (c ∷ [])) s pos _
      (subst (λ t. IsFirst t s pos (length s) (find_byte s c pos)) (is_byte-has c)
        (find_byte-IsFirst s c pos))
find_first_of-IsFirst s (c ∷ d ∷ wanted) pos =
    IsFirst-empty (λ x. has x (c ∷ d ∷ wanted)) s pos _
      (subst
        (λ t.
          IsFirst t s pos (length s) (scan_up (table_of (c ∷ d ∷ wanted)) s pos (length s - pos)))
        (table_of-has (c ∷ d ∷ wanted)) (scan_up_from (table_of (c ∷ d ∷ wanted)) s pos))
