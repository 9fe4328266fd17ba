-- ===== src/Strutil/Words/First.antt =====
-- `HasWord` looks at the first occurrence of its word only.
use kati.Prelude.{
  ℕ, suc, ◌+◌, ◌≡◌, ◌≢◌, refl, sym, ap, ◌∙◌, true, false, some, [], ◌∷◌, ◌++◌, arith, Bytes, length,
  length-append, drop-append, leb, ltb, ◌==◌, Lacks,
}
use kati.Piece.{find, search_in, starts_with}
use kati.Piece.Find.{starts_with_iff}
use kati.Strutil.Words.{is_space, has_word, words}
use kati.Strutil.Words.Reference.{is_end, between, inside, words-between}
use kati.Strutil.Words.RoundTrip.{IsWord, between-IsWord}

starts_with-append : (w rest : Bytes) → starts_with (w ++ rest) w ≡ true
starts_with-append w rest =
    (starts_with_iff (w ++ rest) w).1 (ap (λ t. w ++ t) (sym (drop-append (length w) w rest refl)))

starts_with-differs : (c x : ℕ) (s w : Bytes) → x ≢ c → starts_with (c ∷ s) (x ∷ w) ≡ false
unfolding starts_with
starts_with-differs c x s w h = let e : (c == x) ≡ false = ground arith in rw e refl

search_in-second : (c : ℕ) (w rest : Bytes) → w ≢ [] → Lacks c w → search_in (c ∷ (w ++ rest)) w ≡ 1
unfolding search_in
search_in-second c [] rest n h = absurd (n refl)
search_in-second c (x ∷ w) rest n h =
    rw (starts_with-differs c x ((x ∷ w) ++ rest) w h.0)
      (ap suc (rw (starts_with-append (x ∷ w) rest) refl))

-- In a text whose first word is the wanted word behind one more byte, the wanted word is not found,
-- whatever follows behind a space, even the word itself: the scanner delivers the first word and then
-- the words of what follows. This is so if the byte is in no place of the wanted word.
pub has_word-first :
    (c : ℕ) (w rest : Bytes)
    → IsWord w
    → Lacks c w
    → is_end c ≡ false
    → (has_word (c ∷ (w ++ b' ' ∷ rest)) w ≡ false)
      × (words (c ∷ (w ++ b' ' ∷ rest)) ≡ (c ∷ w) ∷ words rest)
unfolding has_word
has_word-first c w rest h lacks e = (not_found, delivered)
  where
    after_word : inside (b' ' ∷ rest) (c ∷ w) ≡ (c ∷ w) ∷ between rest
    after_word = unfold between in refl

    delivered : words (c ∷ (w ++ b' ' ∷ rest)) ≡ (c ∷ w) ∷ words rest
    delivered =
        words-between (c ∷ (w ++ b' ' ∷ rest))
        ∙ between-IsWord (c ∷ w) (b' ' ∷ rest) ((cc), (e, h.1))
        ∙ after_word
        ∙ ap (λ ws. (c ∷ w) ∷ ws) (sym (words-between rest))

    at_one : search_in (c ∷ (w ++ b' ' ∷ rest)) w ≡ 1
    at_one = search_in-second c w (b' ' ∷ rest) h.0 lacks

    bounds : ltb (suc (length (w ++ b' ' ∷ rest))) 0 ≡ false
    bounds = ground arith

    inside : leb (0 + 1 + length w) (suc (length (w ++ b' ' ∷ rest))) ≡ true
    inside = ground (arith, length-append w (b' ' ∷ rest))

    found : find (c ∷ (w ++ b' ' ∷ rest)) w 0 ≡ some 1
    found = unfold find in rw (at_one, inside, bounds) refl

    no_space : is_space c ≡ false
    no_space = ground (arith, e)

    not_found : has_word (c ∷ (w ++ b' ' ∷ rest)) w ≡ false
    not_found = rw (has_word, found, no_space) refl
