-- ===== src/Strutil/Pattern/Wild.antt =====
-- Patterns with one percent sign: what they match, and the stem.
use kati.Prelude.{
  ℕ, ◌+◌, ◌-◌, ◌^◌, ◌≤◌, ◌<◌, ◌≡◌, ◌↔◌, refl, sym, ap, ◌∙◌, Bool, true, false, ◌&&◌, some, [], ◌∷◌,
  ◌++◌, append_assoc, arith, Bytes, length, take, drop, length-append, length-drop, take-append,
  drop-append, drop-drop, take-append-drop, ◌==◌, Lacks,
}
use kati.Piece.{substr, index_of}
use kati.Strutil.Pattern.{
  percent, has_prefix, has_suffix, Pattern, pattern_of, match_impl, match, stem_size, stem,
}
use kati.Strutil.Pattern.Affix.{
  substr-front, substr-behind, suffix_drop, has_prefix_sound, has_prefix_iff, has_suffix_iff,
}

-- The pattern text with its first percent sign between `front` and `back`.
abbrev pub wild : Bytes → Bytes → Bytes
wild front back = front ++ percent ∷ back

index_of-first :
    (c : ℕ) (front back : Bytes)
    → Lacks c front
    → index_of c (front ++ c ∷ back) ≡ some (length front)
unfolding index_of
index_of-first c [] back h = ground arith
index_of-first c (x ∷ front) back h =
    let ih : index_of c (front ++ c ∷ back) ≡ some (length front) =
      index_of-first c front back h.1 in
    let miss : (x == c) ≡ false = ground arith in rw (miss, ih) (ap some (omega arith))

pub pattern_of-wild :
    (front back : Bytes)
    → Lacks percent front
    → pattern_of (wild front back)
      ≡ record { pat = wild front back; percent_index = some (length front) }
unfolding pattern_of
pattern_of-wild front back h =
    ground (arith, index_of-first percent front back h, length-append front (percent ∷ back))

pub match_impl-wild :
    (front back str : Bytes)
    → match_impl (wild front back) (length front) str
      ≡ (has_prefix str front && has_suffix str back)
unfolding match_impl
match_impl-wild front back str =
    rw (substr-front front (percent ∷ back) (length front) refl)
      (ap (λ b. has_prefix str front && has_suffix str b) (substr-behind front back percent))

-- The two tests of a pattern with a percent sign.
pub match-wild :
    (front back str : Bytes)
    → Lacks percent front
    → match (pattern_of (wild front back)) str ≡ (has_prefix str front && has_suffix str back)
match-wild front back str h =
    rw (pattern_of-wild front back h) (unfold match in match_impl-wild front back str)

pub and-true : (a b : Bool) → (a && b) ≡ true → (a ≡ true) × (b ≡ true)
and-true a b h = ground arith

-- A text that `front%back` matches and that is long enough for both sides is the front, a stem and
-- the back.
split_stem :
    (front back str : Bytes)
    → has_prefix str front ≡ true
    → has_suffix str back ≡ true
    → length front + length back ≤ length str
    → (st : Bytes) × (str ≡ front ++ (st ++ back))
split_stem front back str h k long =
    let r = drop (length front) str in
    let e : str ≡ front ++ r = has_prefix_sound str front h in
    let keep = length r - length back in
    let tail : drop keep r ≡ back =
      drop-drop keep (length front) (length str - length back) str
        (omega (arith, length-drop (length front) str))
      ∙ suffix_drop str back k in
    (
      take keep r,
      e ∙ ap (λ u. front ++ u) (sym (take-append-drop keep r) ∙ ap (λ u. take keep r ++ u) tail),
    )

-- Where the front and the back do not overlap in it, a text matches exactly if it is the front, a
-- stem and the back.
pub match_stem_iff :
    (front back str : Bytes)
    → Lacks percent front
    → length front + length back ≤ length str
    → (match (pattern_of (wild front back)) str ≡ true)
      ↔ ((st : Bytes) × (str ≡ front ++ (st ++ back)))
match_stem_iff front back str h long = rw (match-wild front back str h) (
  λ m.
      let (f, b) = and-true (has_prefix str front) (has_suffix str back) m in
      split_stem front back str f b long,
  λ found.
      let (st, e) = found in
      ground (
        arith,
        (has_prefix_iff str front).1 (st ++ back, e),
        (has_suffix_iff str back).1 (front ++ st, e ∙ sym (append_assoc front st back)),
      ),
)

pub long :
    (front st back : Bytes)
    → length (front ++ (st ++ back)) ≡ length front + length st + length back
long front st back = omega (arith, length-append front (st ++ back), length-append st back)

pub stem_size-wild :
    (front st back : Bytes)
    → length front + length st + length back < 2 ^ 64
    → stem_size (wild front back) (front ++ (st ++ back)) ≡ length st
unfolding stem_size
stem_size-wild front st back fits =
    omega (arith, long front st back, length-append front (percent ∷ back))

pub substr-middle : (s t u : Bytes) → substr (s ++ (t ++ u)) (length s) (some (length t)) ≡ t
unfolding substr
substr-middle s t u =
    ground
      (arith, long s t u, drop-append (length s) s (t ++ u) refl, take-append (length t) t u refl)

pub stem-match :
    (pat : Bytes) (i : ℕ) (str : Bytes) (p : Pattern)
    → p ≡ record { pat = pat; percent_index = some i }
    → match p str ≡ true
    → stem p str ≡ substr str i (some (stem_size pat str))
unfolding stem
stem-match pat i str p e m = ground (arith, m)

-- `Stem` gives back the stem: of a text that is the front, a stem and the back, and that fits in
-- memory.
pub stem-wild :
    (front st back : Bytes)
    → Lacks percent front
    → length front + length st + length back < 2 ^ 64
    → stem (pattern_of (wild front back)) (front ++ (st ++ back)) ≡ st
stem-wild front st back h fits =
    let m : match (pattern_of (wild front back)) (front ++ (st ++ back)) ≡ true =
      (match_stem_iff front back (front ++ (st ++ back)) h (omega (arith, long front st back))).1
        (st, refl) in
    stem-match (wild front back) (length front) (front ++ (st ++ back))
      (pattern_of (wild front back)) (pattern_of-wild front back h) m
    ∙ ap (λ n. substr (front ++ (st ++ back)) (length front) (some n))
        (stem_size-wild front st back fits)
    ∙ substr-middle front st back
