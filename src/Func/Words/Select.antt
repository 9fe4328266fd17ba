-- ===== src/Func/Words/Select.antt =====
-- Which words `word` and `wordlist` select.
use kati.Prelude.{
  ℕ, zero, suc, ◌+◌, ◌-◌, ◌≤◌, ◌≡◌, refl, sym, ap, true, false, ◌&&◌, some, List, [], ◌∷◌, ◌++◌,
  append-nil, arith, Bytes, take, drop, get_or, leb, ==-suc_zero,
}
use kati.Strutil.Words.{Writer, writer, words, write, write_all}
use kati.Strutil.Words.RoundTrip.{spaced, write_all-spaced}
use kati.Func.Words.{done, get_numeric_value, nth_word, word_func, write_range, wordlist_func}

nth_word-get : (ts : List Bytes) (n : ℕ) (s : Bytes) → nth_word ts (suc n) s ≡ s ++ get_or ts n []
unfolding nth_word
nth_word-get [] n s = sym (append-nil s)
nth_word-get (t ∷ ts) zero s = refl
nth_word-get (t ∷ ts) (suc n) s =
    let e : suc (suc n) - 1 ≡ suc n = omega arith in rw (e, ==-suc_zero n) (nth_word-get ts n s)

-- With a number of at least 1, `word` appends the word at that place, counted from 1, and nothing if
-- there is none.
pub word_func-get :
    (n_str text s : Bytes) (n : ℕ)
    → get_numeric_value n_str ≡ some (suc n)
    → word_func n_str text s ≡ done (s ++ get_or (words text) n [])
unfolding word_func
word_func-get n_str text s n h =
    rw (word_func, h, ==-suc_zero n) (ap done (nth_word-get (words text) n s))

-- The words behind the range.
write_range-past :
    (si ei i : ℕ) (ts : List Bytes) (w : Writer) → ei ≤ i → write_range si ei i ts w ≡ w
unfolding write_range
write_range-past si ei i [] w h = refl
write_range-past si ei i (t ∷ ts) w h =
    let b : (leb si (i + 1) && leb (i + 1) ei) ≡ false = ground arith in
    rw b (write_range-past si ei (i + 1) ts w (omega arith))

-- From inside the range on, with `k` more words.
write_range-in :
    (si ei i k : ℕ) (ts : List Bytes) (w : Writer)
    → si ≤ i + 1
    → k ≡ ei - i
    → write_range si ei i ts w ≡ write_all (take k ts) w
unfolding write_range write_all
write_range-in si ei i zero ts w h e = write_range-past si ei i ts w (omega arith)
write_range-in si ei i (suc k) [] w h e = refl
write_range-in si ei i (suc k) (t ∷ ts) w h e =
    let b : (leb si (i + 1) && leb (i + 1) ei) ≡ true = ground arith in
    rw b (write_range-in si ei (i + 1) k ts (write t w) (omega arith) (omega arith))

write_all-take_nil : (k : ℕ) (w : Writer) → w ≡ write_all (take k []) w
unfolding write_all
write_all-take_nil zero w = refl
write_all-take_nil (suc k) w = refl

-- With `m` words before the range.
write_range-take :
    (si ei i m : ℕ) (ts : List Bytes) (w : Writer)
    → i + m ≡ si
    → write_range (suc si) ei i ts w ≡ write_all (take (ei - si) (drop m ts)) w
unfolding write_range
write_range-take si ei i zero ts w e =
    write_range-in (suc si) ei i (ei - si) ts w (omega arith) (omega arith)
write_range-take si ei i (suc m) [] w e = write_all-take_nil (ei - si) w
write_range-take si ei i (suc m) (t ∷ ts) w e =
    let b : (leb (suc si) (i + 1) && leb (i + 1) ei) ≡ false = ground arith in
    rw b (write_range-take si ei (i + 1) m ts w (omega arith))

-- With a first number of at least 1, `wordlist` appends the words from that place to the second one,
-- both counted from 1 and included, with one space between two words.
pub wordlist_func-take :
    (s_str e_str text s : Bytes) (si ei : ℕ)
    → get_numeric_value s_str ≡ some (suc si)
    → get_numeric_value e_str ≡ some ei
    → wordlist_func s_str e_str text s ≡ done (s ++ spaced (take (ei - si) (drop si (words text))))
unfolding wordlist_func
wordlist_func-take s_str e_str text s si ei h k =
    rw
      (
        wordlist_func,
        h,
        k,
        ==-suc_zero si,
        write_range-take si ei 0 si (words text) (writer s) (omega arith),
      )
      (ap done (write_all-spaced (take (ei - si) (drop si (words text))) s))
