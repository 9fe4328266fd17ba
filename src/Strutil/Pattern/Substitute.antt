-- ===== src/Strutil/Pattern/Substitute.antt =====
-- The loop of `AppendSubst` that puts the stem in place of the percent signs, from the right.
use kati.Prelude.{
  ℕ, zero, suc, ◌+◌, ◌-◌, ◌<◌, ◌≡◌, ◌≢◌, ◌⊎◌, refl, sym, ap, ◌∙◌, inl, inr, false, Option, none,
  some, [], ◌∷◌, ◌++◌, append-nil, append_assoc, arith, Bytes, length, take, drop, length-append,
  take-append, drop-append, ◌==◌, if◌then◌else◌, Bool-cases, All-append, Lacks,
}
use kati.Piece.{get, rfind, scan_down, is_byte, clamp}
use kati.Piece.Last.{rfind-hit, rfind-miss, rfind_all, rfind_all-miss}
use kati.Strutil.Pattern.{percent, replace_one, before, fill}

-- The stem in place of every percent sign, by recursion on the text.
pub replace_percents : Bytes → Bytes → Bytes
replace_percents [] st = []
replace_percents (c ∷ s) st =
    if c == percent then st ++ replace_percents s st else c ∷ replace_percents s st

replace_percents-Lacks : (s st : Bytes) → Lacks percent s → replace_percents s st ≡ s
unfolding replace_percents
replace_percents-Lacks [] st h = refl
replace_percents-Lacks (c ∷ s) st h = ground (arith, replace_percents-Lacks s st h.1)

replace_percents-append :
    (s t st : Bytes) → replace_percents (s ++ t) st ≡ replace_percents s st ++ replace_percents t st
unfolding replace_percents
replace_percents-append [] t st = refl
replace_percents-append (c ∷ s) t st = ground (
  arith,
  replace_percents-append s t st,
  append_assoc st (replace_percents s st) (replace_percents t st),
)

-- A text holds no percent sign, or there is a last one.
last_percent :
    (s : Bytes)
    → Lacks percent s ⊎ ((l : Bytes) × (r : Bytes) × (s ≡ l ++ percent ∷ r) × Lacks percent r)
last_percent [] = inl tt
last_percent (c ∷ s) = elim (last_percent s) [
  | inr (l, r, e, h) ↦ inr (c ∷ l, r, ap (λ u. c ∷ u) e, h)
  | inl h ↦ elim (Bool-cases (c == percent)) [
    | inl e ↦ inr ([], s, ground arith, h)
    | inr e ↦ inl (ground arith, h)
  ]
]

replace_one-middle :
    (l r st : Bytes) → replace_one (l ++ percent ∷ r) (length l) st ≡ l ++ (st ++ r)
replace_one-middle l r st = rw (take-append (length l) l (percent ∷ r) refl) (
    ap (λ u. l ++ (st ++ u))
      (ap (λ t. drop (suc (length l)) t) (sym (append_assoc l (percent ∷ []) r))
        ∙ drop-append (suc (length l)) (l ++ percent ∷ []) r
            (omega (arith, length-append l (percent ∷ [])))))

-- One round, on the last percent sign of the part that is still to be searched.
fill-step :
    (fuel : ℕ) (l m r st : Bytes) (k : ℕ)
    → Lacks percent m
    → k ≡ length l + length m
    → fill (suc fuel) (l ++ percent ∷ (m ++ r)) (some k) st
      ≡ fill fuel (l ++ (st ++ (m ++ r))) (before (length l)) st
unfolding fill
fill-step fuel l m r st k h e =
    rw (rfind-hit percent l m r k h e, fill)
      (ap (λ u. fill fuel u (before (length l)) st) (replace_one-middle l (m ++ r) st))

fill-stop :
    (fuel : ℕ) (s : Bytes) (last : Option ℕ) (st : Bytes)
    → rfind s percent last ≡ none
    → fill (suc fuel) s last st ≡ some s
unfolding fill
fill-stop fuel s last st h = rw (h, fill)

-- How the texts of a round fit together.
regroup :
    (l m r st : Bytes)
    → Lacks percent m
    → replace_percents l st ++ (st ++ (m ++ r)) ≡ replace_percents (l ++ percent ∷ m) st ++ r
regroup l m r st h = rw (replace_percents-append l (percent ∷ m) st) (
    ground (
      arith,
      percent-first m st,
      replace_percents-Lacks m st h,
      append_assoc (replace_percents l st) (st ++ m) r,
      append_assoc st m r,
    ))
  where
    percent-first : (m st : Bytes) → replace_percents (percent ∷ m) st ≡ st ++ replace_percents m st
    percent-first m st = unfold replace_percents in ground arith

-- The loop on a part that does not begin with a percent sign, `r` being done.
fill-plain :
    (fuel c : ℕ) (l r st : Bytes)
    → length l < fuel
    → c ≢ percent
    → fill fuel ((c ∷ l) ++ r) (some (length l)) st ≡ some ((c ∷ replace_percents l st) ++ r)
fill-plain zero c l r st lt ne = absurd (omega arith)
fill-plain (suc fuel) c l r st lt ne = elim (last_percent l) [
  | inl h ↦
      fill-stop fuel ((c ∷ l) ++ r) (some (length l)) st
        (rfind-miss percent (c ∷ l) r (length l) (ne, h) (omega arith))
      ∙ rw (replace_percents-Lacks l st h) refl
  | inr (a, m, e, h) ↦ rw e (
      ap (λ u. fill (suc fuel) (c ∷ u) (some (length (a ++ percent ∷ m))) st)
        (append_assoc a (percent ∷ m) r)
      ∙ fill-step fuel (c ∷ a) m r st (length (a ++ percent ∷ m)) h
          (omega (arith, length-append a (percent ∷ m)))
      ∙ fill-plain fuel c a (st ++ (m ++ r)) st
          (omega (arith, ap length e, length-append a (percent ∷ m))) ne
      ∙ ap (λ u. some (c ∷ u)) (regroup a m r st h))
]

-- The loop where neither the stem nor the part that is done holds a percent sign.
fill-clean :
    (fuel : ℕ) (l r st : Bytes)
    → length l < fuel
    → Lacks percent r
    → Lacks percent st
    → fill fuel (l ++ r) (before (length l)) st ≡ some (replace_percents l st ++ r)
unfolding replace_percents
fill-clean zero l r st lt hr hs = absurd (omega arith)
fill-clean (suc fuel) [] r st lt hr hs = fill-stop fuel r none st (rfind_all-miss percent r hr)
fill-clean (suc fuel) (c ∷ l) r st lt hr hs = elim (last_percent (c ∷ l)) [
  | inl h ↦
      fill-stop fuel ((c ∷ l) ++ r) (some (length l)) st
        (rfind-miss percent (c ∷ l) r (length l) h (omega arith))
      ∙ rw (replace_percents-Lacks (c ∷ l) st h) refl
  | inr (a, m, e, h) ↦
      ap (λ u. fill (suc fuel) u (some (length l)) st)
        (ap (λ u. u ++ r) e ∙ append_assoc a (percent ∷ m) r)
      ∙ fill-step fuel a m r st (length l) h
          (omega (arith, ap length e, length-append a (percent ∷ m)))
      ∙ fill-clean fuel a (st ++ (m ++ r)) st
          (omega (arith, ap length e, length-append a (percent ∷ m)))
          (All-append _ st (m ++ r) hs (All-append _ m r h hr)) hs
      ∙ ap some (regroup a m r st h ∙ ap (λ u. replace_percents u st ++ r) (sym e))
]

-- No trouble with the text to fill in: it does not begin with a percent sign, or the stem has none.
abbrev pub IsFillable : Bytes → Bytes → Type 0
IsFillable [] st = Unit
IsFillable (c ∷ s) st = (c ≢ percent) ⊎ Lacks percent st

-- The first search starts at the end, with or without a place.
fill_all :
    (fuel c : ℕ) (s st : Bytes)
    → fill (suc fuel) (c ∷ s) none st ≡ fill (suc fuel) (c ∷ s) (some (length s)) st
unfolding fill
fill_all fuel c s st =
    ap
      (λ o. elim o [
        | none ↦ some (c ∷ s)
        | some i ↦ fill fuel (replace_one (c ∷ s) i st) (before i) st
      ])
      (rfind_all percent c s)

pub fill-replace_percents :
    (s st : Bytes)
    → IsFillable s st
    → fill (suc (length s)) s none st ≡ some (replace_percents s st)
unfolding replace_percents
fill-replace_percents [] st h = fill-stop 0 [] none st (unfold rfind in refl)
fill-replace_percents (c ∷ s) st (inl ne) =
    fill_all (length (c ∷ s)) c s st
    ∙ ap (λ u. fill (suc (length (c ∷ s))) u (some (length s)) st) (sym (append-nil (c ∷ s)))
    ∙ fill-plain (suc (length (c ∷ s))) c s [] st (omega arith) ne
    ∙ ap some (append-nil (c ∷ replace_percents s st) ∙ ground arith)
fill-replace_percents (c ∷ s) st (inr h) =
    fill_all (length (c ∷ s)) c s st
    ∙ ap (λ u. fill (suc (length (c ∷ s))) u (some (length s)) st) (sym (append-nil (c ∷ s)))
    ∙ fill-clean (suc (length (c ∷ s))) (c ∷ s) [] st (omega arith) tt h
    ∙ ap some (append-nil (replace_percents (c ∷ s) st))

-- A search from any place finds something where the text begins with the byte.
scan_down-head :
    (s : Bytes) (m : ℕ) → (i : ℕ) × (scan_down (is_byte percent) (percent ∷ s) m ≡ some i)
unfolding scan_down
scan_down-head s zero = (0, refl)
scan_down-head s (suc m) = elim (Bool-cases (is_byte percent (get (percent ∷ s) (suc m)))) [
  | inl e ↦ (suc m, rw e refl)
  | inr e ↦ rw e (scan_down-head s m)
]

rfind-head : (s : Bytes) (last : Option ℕ) → (i : ℕ) × (rfind (percent ∷ s) percent last ≡ some i)
unfolding rfind
rfind-head s last =
    let e : (length (percent ∷ s) == 0) ≡ false = ground arith in
    rw e (scan_down-head s (clamp (length (percent ∷ s) - 1) last))

-- Where the text and the stem begin with a percent sign the text goes on beginning with one.
replace_one-head :
    (s st : Bytes) (i : ℕ)
    → (u : Bytes) × (replace_one (percent ∷ s) i (percent ∷ st) ≡ percent ∷ u)
replace_one-head s st zero = (st ++ s, refl)
replace_one-head s st (suc i) = (take i s ++ (percent ∷ st ++ drop (suc i) s), refl)

pub fill-diverges :
    (fuel : ℕ) (s : Bytes) (last : Option ℕ) (st : Bytes)
    → fill fuel (percent ∷ s) last (percent ∷ st) ≡ none
unfolding fill
fill-diverges zero s last st = refl
fill-diverges (suc fuel) s last st =
    let (i, e) = rfind-head s last in
    let (u, e') = replace_one-head s st i in
    ap
      (λ o. elim o [
        | none ↦ some (percent ∷ s)
        | some j ↦ fill fuel (replace_one (percent ∷ s) j (percent ∷ st)) (before j) (percent ∷ st)
      ])
      e
    ∙ ap (λ v. fill fuel v (before i) (percent ∷ st)) e'
    ∙ fill-diverges fuel u (before i) st
