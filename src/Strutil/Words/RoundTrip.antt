-- ===== src/Strutil/Words/RoundTrip.antt =====
-- Words written by `WordWriter` and scanned again.
use kati.Prelude.{
  ℕ, ◌≡◌, ◌≢◌, refl, sym, ap, ◌∙◌, inl, inr, true, false, ◌||◌, List, [], ◌∷◌, ◌++◌, append-nil,
  append_assoc, arith, Bytes, ◌==◌, Bool-cases, All, All-append, Lacks,
}
use kati.Strutil.Words.{is_space, words, writer, write, write_all}
use kati.Strutil.Words.Reference.{is_end, between, inside, words-between}

-- A text that the scanner can deliver: not empty, with no space and no NUL byte in it.
abbrev pub IsWord : Bytes → Type 0
IsWord w = (w ≢ []) × All (λ c. is_end c ≡ false) w

-- A space before each word.
pub behind : List Bytes → Bytes
behind [] = []
behind (w ∷ ws) = b' ' ∷ (w ++ behind ws)

-- A single space between words.
pub spaced : List Bytes → Bytes
unfolding behind
spaced [] = []
spaced (w ∷ ws) = w ++ behind ws

inside-append :
    (w rest cur : Bytes)
    → All (λ c. is_end c ≡ false) w
    → inside (w ++ rest) cur ≡ inside rest (cur ++ w)
unfolding between
inside-append [] rest cur h = ap (inside rest) (sym (append-nil cur))
inside-append (c ∷ w) rest cur h =
    ground (arith, inside-append w rest (cur ++ c ∷ []) h.1, append_assoc cur (c ∷ []) w)

pub between-IsWord : (w rest : Bytes) → IsWord w → between (w ++ rest) ≡ inside rest w
unfolding between
between-IsWord [] rest h = absurd (h.0 refl)
between-IsWord (c ∷ w) rest h = ground (arith, inside-append w rest (c ∷ []) h.1.1)

inside-behind : (ws : List Bytes) (cur : Bytes) → All IsWord ws → inside (behind ws) cur ≡ cur ∷ ws
unfolding behind
inside-behind [] cur h = unfold between in refl
inside-behind (w ∷ ws) cur h =
    let step : inside (b' ' ∷ (w ++ behind ws)) cur ≡ cur ∷ between (w ++ behind ws) =
      unfold between in refl in
    rw (step, between-IsWord w (behind ws) h.0, inside-behind ws w h.1)

pub words-spaced : (ws : List Bytes) → All IsWord ws → words (spaced ws) ≡ ws
unfolding spaced
words-spaced [] h = words-between [] ∙ (unfold between in refl)
words-spaced (w ∷ ws) h =
    words-between (w ++ behind ws) ∙ between-IsWord w (behind ws) h.0 ∙ inside-behind ws w h.1

write_all-behind :
    (ws : List Bytes) (out : Bytes)
    → (write_all ws (record { out = out; needs_space = true })).out ≡ out ++ behind ws
unfolding write_all write behind
write_all-behind [] out = sym (append-nil out)
write_all-behind (w ∷ ws) out =
    write_all-behind ws ((out ++ b' ' ∷ []) ++ w)
    ∙ append_assoc (out ++ b' ' ∷ []) w (behind ws)
    ∙ append_assoc out (b' ' ∷ []) (w ++ behind ws)

-- A `WordWriter` appends its words to the string, with one space between each two of them.
pub write_all-spaced :
    (ws : List Bytes) (out : Bytes) → (write_all ws (writer out)).out ≡ out ++ spaced ws
unfolding spaced write_all write
write_all-spaced [] out = sym (append-nil out)
write_all-spaced (w ∷ ws) out = write_all-behind ws (out ++ w) ∙ append_assoc out w (behind ws)

-- Words that a `WordWriter` has written to an empty string are scanned as they were, if each of them
-- is not empty and holds no space and no NUL byte.
pub words-write_all : (ws : List Bytes) → All IsWord ws → words (write_all ws (writer [])).out ≡ ws
words-write_all ws h = rw (write_all-spaced ws []) (words-spaced ws h)

IsWord-concat : (w : Bytes) (c : ℕ) → IsWord w → is_end c ≡ false → IsWord (w ++ c ∷ [])
IsWord-concat [] c h e = ((cc), (e, tt))
IsWord-concat (x ∷ w) c h e = ((cc), All-append _ (x ∷ w) (c ∷ []) h.1 (e, tt))

mutual
  unfolding between

  between-All : (s : Bytes) → Lacks 0 s → All IsWord (between s)
  between-All [] h = tt
  between-All (c ∷ s) h = elim (Bool-cases (is_space c)) [
    | inl e ↦ rw e (between-All s h.1)
    | inr e ↦
        let z : (c == 0) ≡ false = ground arith in
        rw (e, z) (inside-All s (c ∷ []) h.1 ((cc), (ground arith, tt)))
  ]

  inside-All : (s cur : Bytes) → Lacks 0 s → IsWord cur → All IsWord (inside s cur)
  inside-All [] cur h k = (k, tt)
  inside-All (c ∷ s) cur h k = elim (Bool-cases (is_space c || c == 0)) [
    | inl e ↦ rw e (k, between-All s h.1)
    | inr e ↦ rw e (inside-All s (cur ++ c ∷ []) h.1 (IsWord-concat cur c k e))
  ]

-- Every word that the scanner delivers from a text with no NUL byte is not empty and holds no space.
pub words-IsWord : (text : Bytes) → Lacks 0 text → All IsWord (words text)
words-IsWord text h = rw (words-between text) (between-All text h)
