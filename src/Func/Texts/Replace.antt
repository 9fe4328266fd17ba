-- ===== src/Func/Texts/Replace.antt =====
-- `SubstFunc`, which jumps from one occurrence to the next, against a reading byte by byte.
use kati.Prelude.{
  ℕ, zero, suc, ◌+◌, ◌-◌, ◌≤◌, ◌<◌, ◌≡◌, ◌≢◌, refl, sym, ap, ◌∙◌, inl, inr, true, none, some, [],
  ◌∷◌, ◌++◌, append_assoc, append-nil, arith, Bytes, ◌==◌, length, take, drop, drop-drop, drop-all,
  take-all, length-drop, leb, ltb, if◌then◌else◌, lt→ltb, Bool-cases,
}
use kati.Piece.{substr, find, search_in, starts_with}
use kati.Piece.Find.{starts_with-length, search_in-hit}
use kati.Strutil.Words.Reference.{substr-take}
use kati.Func.Texts.{subst_loop, subst_func}

-- Each occurrence of `pat`, from the left and without overlaps, is replaced; `skip` bytes still
-- belong to the last one.
pub replaced : Bytes → Bytes → ℕ → Bytes → Bytes
replaced pat repl skip [] = []
replaced pat repl (suc skip) (c ∷ s) = replaced pat repl skip s
replaced pat repl zero (c ∷ s) =
    let hit = replaced pat repl (length pat - 1) s in
    let miss = replaced pat repl zero s in if starts_with (c ∷ s) pat then repl ++ hit else c ∷ miss

replaced-skip :
    (pat repl s : Bytes) (n : ℕ) → replaced pat repl n s ≡ replaced pat repl 0 (drop n s)
unfolding replaced
replaced-skip pat repl [] zero = refl
replaced-skip pat repl [] (suc n) = refl
replaced-skip pat repl (c ∷ s) zero = refl
replaced-skip pat repl (c ∷ s) (suc n) = replaced-skip pat repl s n

-- Up to the first occurrence all is copied.
replaced-miss :
    (pat repl s : Bytes)
    → replaced pat repl 0 s
      ≡ take (search_in s pat) s ++ replaced pat repl 0 (drop (search_in s pat) s)
unfolding search_in replaced
replaced-miss pat repl [] = refl
replaced-miss pat repl (c ∷ s) = elim (Bool-cases (starts_with (c ∷ s) pat)) [
  | inl e ↦ rw e (rw e refl)
  | inr e ↦ rw e (ap (λ r. c ∷ r) (replaced-miss pat repl s))
]

-- At an occurrence.
replaced-hit :
    (pat repl s : Bytes)
    → length pat ≢ 0
    → starts_with s pat ≡ true
    → replaced pat repl 0 s ≡ repl ++ replaced pat repl 0 (drop (length pat) s)
unfolding replaced
replaced-hit [] repl s p h = absurd (p refl)
replaced-hit (y ∷ pat) repl [] p h = unfold starts_with in ground arith
replaced-hit (y ∷ pat) repl (c ∷ s) p h =
    let e : suc (length pat) - 1 ≡ length pat = omega arith in
    rw (h, e) (ap (λ r. repl ++ r) (replaced-skip (y ∷ pat) repl s (length pat)))

replaced-none : (pat repl s : Bytes) → length s ≤ search_in s pat → replaced pat repl 0 s ≡ s
replaced-none pat repl s h =
    replaced-miss pat repl s
    ∙ rw (take-all (search_in s pat) s h, drop-all (search_in s pat) s h)
        (unfold replaced in append-nil s)

-- Where an occurrence fits behind `index`.
replaced-found :
    (pat repl str : Bytes) (index k : ℕ)
    → length pat ≢ 0
    → index ≤ length str
    → k ≡ search_in (drop index str) pat
    → index + k + length pat ≤ length str
    → replaced pat repl 0 (drop index str)
      ≡ substr str index (some k)
        ++ (repl ++ replaced pat repl 0 (drop (index + k + length pat) str))
replaced-found pat repl str index k p le e fits =
    replaced-miss pat repl (drop index str)
    ∙ rw (← e) (
        rw (substr-take str index k le (omega arith)) (
          ap (λ r. take k (drop index str) ++ r)
            (replaced-hit pat repl (drop k (drop index str)) p hit
              ∙ rw
                  (
                    drop-drop k index (index + k) str refl,
                    drop-drop (length pat) (index + k) (index + k + length pat) str refl,
                  )
                  refl)))
  where
    hit : starts_with (drop k (drop index str)) pat ≡ true
    hit = rw e (search_in-hit (drop index str) pat (omega (arith, length-drop index str, e)))

-- Where none fits, none begins.
search_in-past :
    (pat s : Bytes)
    → length pat ≢ 0
    → length s < search_in s pat + length pat
    → length s ≤ search_in s pat
search_in-past pat s p h = elim (Bool-cases (leb (length s) (search_in s pat))) [
  | inl e ↦ ground arith
  | inr e ↦ absurd (
      ground (
        arith,
        starts_with-length (drop (search_in s pat) s) pat (search_in-hit s pat (ground arith)),
        length-drop (search_in s pat) s,
      ))
]

substr-rest : (s : Bytes) (n : ℕ) → n ≤ length s → substr s n none ≡ drop n s
unfolding substr
substr-rest s n h =
    let d : (if ltb (length s) n then length s else n) ≡ n = ground arith in
    rw d (take-all (length s - n) (drop n s) (omega (arith, length-drop n s)))

find-fits :
    (pat str : Bytes) (index : ℕ)
    → index ≤ length str
    → index + search_in (drop index str) pat + length pat ≤ length str
    → find str pat index ≡ some (index + search_in (drop index str) pat)
unfolding find
find-fits pat str index le fits = ground arith

find-past :
    (pat str : Bytes) (index : ℕ)
    → length str < index + search_in (drop index str) pat + length pat
    → find str pat index ≡ none
unfolding find
find-past pat str index past = ground arith

subst_loop-replaced :
    (fuel : ℕ) (pat repl str : Bytes) (index : ℕ) (s : Bytes)
    → length pat ≢ 0
    → index ≤ length str
    → length str < fuel + index
    → subst_loop fuel pat repl str index s ≡ s ++ replaced pat repl 0 (drop index str)
unfolding subst_loop
subst_loop-replaced zero pat repl str index s p le h = absurd (omega arith)
subst_loop-replaced (suc fuel) pat repl str index s p le h =
    elim (Bool-cases (leb (index + k + length pat) (length str))) [
      | inl fits ↦
          rw (subst_loop, find-fits pat str index le (ground arith))
            (rw (lt→ltb index (length str) (ground arith)) (
              subst_loop-replaced fuel pat repl str (index + k + length pat) _ p (ground arith)
                (omega arith)
              ∙ rw (replaced-found pat repl str index k p le refl (ground arith), offset)
                  (simp append_assoc)))
      | inr past ↦
          rw (subst_loop, find-past pat str index (ground arith), substr-rest str index le)
            (ap (λ r. s ++ r)
              (sym (
                replaced-none pat repl (drop index str)
                  (search_in-past pat (drop index str) p (ground (arith, length-drop index str))))))
    ]
  where
    k : ℕ
    k = search_in (drop index str) pat

    offset : index + k - index ≡ k
    offset = omega arith

-- `subst` appends the text with every occurrence of a pattern that is not empty replaced, from the
-- left and without overlaps; an empty pattern appends the replacement behind the text.
pub subst_func-replaced :
    (pat repl str s : Bytes)
    → subst_func pat repl str s
      ≡ (if length pat == 0 then (s ++ str) ++ repl else s ++ replaced pat repl 0 str)
unfolding subst_func
subst_func-replaced pat repl str s = elim (Bool-cases (length pat == 0)) [
  | inl e ↦ rw e refl
  | inr e ↦ rw e (
      subst_loop-replaced (length str + 1) pat repl str 0 s (ground arith) (omega arith)
        (omega arith))
]
