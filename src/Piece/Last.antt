-- ===== src/Piece/Last.antt =====
-- `rfind` at known last occurrences.
use kati.Prelude.{
  ℕ, zero, suc, ◌+◌, ◌-◌, ◌≤◌, ◌<◌, ◌≡◌, ◌≢◌, refl, ap, subst, ◌∙◌, inl, inr, Bool, true, false,
  none, some, [], ◌∷◌, ◌++◌, append-nil, arith, Bytes, length, length-append, ◌==◌, ==_refl,
  Bool-cases, Lacks, All-get_or, get_or-append_left, get_or-append_right,
}
use kati.Piece.{get, rfind, scan_down, is_byte}

scan_down-hit :
    (test : ℕ → Bool) (s : Bytes) (m j : ℕ)
    → j ≤ m
    → test (get s j) ≡ true
    → ((k : ℕ) → j < k → k ≤ m → test (get s k) ≡ false)
    → scan_down test s m ≡ some j
unfolding scan_down
scan_down-hit test s zero j h t f = let e : j ≡ 0 = omega arith in ground arith
scan_down-hit test s (suc m) j h t f = elim (Bool-cases (j == suc m)) [
  | inl same ↦
      let e : j ≡ suc m = ground arith in
      let t' : test (get s (suc m)) ≡ true = rw e at t in rw t' (ap some (omega arith))
  | inr other ↦
      rw (f (suc m) (ground arith) (omega arith))
        (scan_down-hit test s m j (ground arith) t (λ k p q. f k p (omega arith)))
]

scan_down-miss :
    (test : ℕ → Bool) (s : Bytes) (m : ℕ)
    → ((k : ℕ) → k ≤ m → test (get s k) ≡ false)
    → scan_down test s m ≡ none
unfolding scan_down
scan_down-miss test s zero f = rw (f zero (omega arith)) refl
scan_down-miss test s (suc m) f =
    rw (f (suc m) (omega arith)) (scan_down-miss test s m (λ k p. f k (omega arith)))

-- A place of a text that lacks the byte.
Lacks-get :
    (b : ℕ) (s t : Bytes) (k : ℕ) → Lacks b s → k < length s → is_byte b (get (s ++ t) k) ≡ false
Lacks-get b s t k h lt =
    let p : get s k ≢ b = All-get_or _ s k 0 h lt in
    rw (get_or-append_left s t k 0 lt) (ground arith)

rfind-scan_down :
    (s : Bytes) (b k : ℕ) → k < length s → rfind s b (some k) ≡ scan_down (is_byte b) s k
unfolding rfind
rfind-scan_down s b k h = ground arith

-- `rfind` up to the last place of `l ++ b ∷ m`, where `m` lacks the byte, finds it behind `l`.
pub rfind-hit :
    (b : ℕ) (l m r : Bytes) (k : ℕ)
    → Lacks b m
    → k ≡ length l + length m
    → rfind (l ++ b ∷ (m ++ r)) b (some k) ≡ some (length l)
rfind-hit b l m r k h e =
    rfind-scan_down (l ++ b ∷ (m ++ r)) b k
      (omega (arith, length-append l (b ∷ (m ++ r)), length-append m r))
    ∙ scan_down-hit (is_byte b) _ k (length l) (omega arith)
        (rw (get_or-append_right l (b ∷ (m ++ r)) (length l) 0 0 (omega arith)) (==_refl b))
        (λ j p q.
          rw (get_or-append_right l (b ∷ (m ++ r)) j (suc (j - length l - 1)) 0 (omega arith))
            (Lacks-get b m r (j - length l - 1) h (omega arith)))

pub rfind-miss :
    (b : ℕ) (s r : Bytes) (k : ℕ) → Lacks b s → k < length s → rfind (s ++ r) b (some k) ≡ none
rfind-miss b s r k h lt =
    rfind-scan_down (s ++ r) b k (omega (arith, length-append s r))
    ∙ scan_down-miss (is_byte b) (s ++ r) k (λ j p. Lacks-get b s r j h (omega arith))

pub rfind_all : (b x : ℕ) (s : Bytes) → rfind (x ∷ s) b none ≡ rfind (x ∷ s) b (some (length s))
unfolding rfind
rfind_all b x s = ground arith

pub rfind_all-miss : (b : ℕ) (s : Bytes) → Lacks b s → rfind s b none ≡ none
rfind_all-miss b [] h = unfold rfind in refl
rfind_all-miss b (c ∷ s) h =
    rfind_all b c s
    ∙ subst (λ u. rfind u b (some (length s)) ≡ none) (append-nil (c ∷ s))
        (rfind-miss b (c ∷ s) [] (length s) h (omega arith))

-- The last byte of its kind, whatever stands before it.
pub rfind_last : (b : ℕ) (s t : Bytes) → Lacks b t → rfind (s ++ b ∷ t) b none ≡ some (length s)
rfind_last b [] t h =
    rfind_all b b t
    ∙ subst (λ u. rfind (b ∷ u) b (some (length t)) ≡ some 0) (append-nil t)
        (rfind-hit b [] t [] (length t) h (omega arith))
rfind_last b (c ∷ s) t h =
    rfind_all b c (s ++ b ∷ t)
    ∙ subst (λ u. rfind ((c ∷ s) ++ b ∷ u) b (some (length (s ++ b ∷ t))) ≡ some (length (c ∷ s)))
        (append-nil t)
        (rfind-hit b (c ∷ s) t [] (length (s ++ b ∷ t)) h (omega (arith, length-append s (b ∷ t))))
