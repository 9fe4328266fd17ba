-- ===== src/Strutil/Pattern/Affix.antt =====
-- Prefixes and suffixes: what `HasPrefix` and `HasSuffix` decide.
use kati.Prelude.{
  ℕ, ◌+◌, ◌-◌, ◌≤◌, ◌≡◌, ◌↔◌, refl, sym, ap, ◌∙◌, true, none, some, [], ◌∷◌, ◌++◌, append_assoc,
  arith, Bytes, length, take, drop, length-append, length-drop, take-append, drop-append,
  take-append-drop, take-all, text_eq_refl, text_eq→eq,
}
use kati.Piece.{substr}
use kati.Strutil.Pattern.{has_prefix, has_suffix}

pub substr-front : (s t : Bytes) (n : ℕ) → n ≡ length s → substr (s ++ t) 0 (some n) ≡ s
unfolding substr
substr-front s t n e =
    ground (arith, length-append s t, take-append n s t e, take-append (length (s ++ t) - 0) s t)

pub substr-back : (s t : Bytes) (n : ℕ) → n ≡ length s → substr (s ++ t) n none ≡ t
unfolding substr
substr-back s t n e =
    ground (arith, length-append s t, drop-append n s t e, take-all (length (s ++ t) - n) t)

pub substr-behind : (s t : Bytes) (c : ℕ) → substr (s ++ c ∷ t) (length s + 1) none ≡ t
substr-behind s t c =
    ap (λ u. substr u (length s + 1) none) (sym (append_assoc s (c ∷ []) t))
    ∙ substr-back (s ++ c ∷ []) t (length s + 1) (omega (arith, length-append s (c ∷ [])))

pub has_prefix-append : (p r : Bytes) → has_prefix (p ++ r) p ≡ true
unfolding has_prefix
has_prefix-append p r =
    rw (substr-front p r _ refl) (ground (arith, length-append p r, text_eq_refl p))

pub has_suffix-append : (r p : Bytes) → has_suffix (r ++ p) p ≡ true
unfolding has_suffix
has_suffix-append r p =
    rw (substr-back r p (length (r ++ p) - length p) (omega (arith, length-append r p)))
      (ground (arith, length-append r p, text_eq_refl p))

pub substr-take : (s : Bytes) (n : ℕ) → n ≤ length s → substr s 0 (some n) ≡ take n s
unfolding substr
substr-take s n h = ground arith

pub substr-drop : (s : Bytes) (n : ℕ) → n ≤ length s → substr s n none ≡ drop n s
unfolding substr
substr-drop s n h = ground (arith, take-all (length s - n) (drop n s), length-drop n s)

pub suffix_drop : (str p : Bytes) → has_suffix str p ≡ true → drop (length str - length p) str ≡ p
unfolding has_suffix
suffix_drop str p h = ground (
  arith,
  text_eq→eq (substr str (length str - length p) none) p,
  substr-drop str (length str - length p),
)

pub has_prefix_sound : (str p : Bytes) → has_prefix str p ≡ true → str ≡ p ++ drop (length p) str
unfolding has_prefix
has_prefix_sound str p h = ground (
  arith,
  text_eq→eq (substr str 0 (some (length p))) p,
  substr-take str (length p),
  take-append-drop (length p) str,
)

pub has_suffix_sound :
    (str p : Bytes) → has_suffix str p ≡ true → str ≡ take (length str - length p) str ++ p
unfolding has_suffix
has_suffix_sound str p h = ground (
  arith,
  text_eq→eq (substr str (length str - length p) none) p,
  substr-drop str (length str - length p),
  take-append-drop (length str - length p) str,
)

-- `HasPrefix` tells exactly whether the text is the prefix followed by something.
pub has_prefix_iff : (str p : Bytes) → (has_prefix str p ≡ true) ↔ ((r : Bytes) × (str ≡ p ++ r))
has_prefix_iff str p = (
  λ h. (drop (length p) str, has_prefix_sound str p h),
  λ found. let (r, e) = found in rw e (has_prefix-append p r),
)

-- `HasSuffix` tells exactly whether the text is something followed by the suffix.
pub has_suffix_iff : (str p : Bytes) → (has_suffix str p ≡ true) ↔ ((r : Bytes) × (str ≡ r ++ p))
has_suffix_iff str p = (
  λ h. (take (length str - length p) str, has_suffix_sound str p h),
  λ found. let (r, e) = found in rw e (has_suffix-append r p),
)
