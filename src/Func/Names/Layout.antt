-- ===== src/Func/Names/Layout.antt =====
-- What the functions of file names write, as lists of words.
use kati.Prelude.{
  ◌≡◌, refl, ap, ◌∙◌, inl, inr, List, [], ◌∷◌, ◌++◌, append_assoc, Bytes, if◌then◌else◌, Bool-cases,
  map, text_eq,
}
use kati.Strutil.Words.{
  Writer, words, writer, append_string, maybe_add_whitespace, write, write_all,
}
use kati.Strutil.Words.RoundTrip.{spaced, write_all-spaced}
use kati.Strutil.Path.{slash, dirname, basename, strip_ext}
use kati.Func.Names.{
  for_words, dir_func, notdir_func, basename_func, addsuffix_func, addprefix_func,
}

-- What is appended right behind a word belongs to it.
append_string-write : (t u : Bytes) (w : Writer) → append_string u (write t w) ≡ write (t ++ u) w
unfolding write
append_string-write t u w =
    ap (λ out. record (maybe_add_whitespace w) { out = out })
      (append_assoc (maybe_add_whitespace w).out t u)

-- A loop that writes a word for each word.
for_words-map :
    (body : Bytes → Writer → Writer) (f : Bytes → Bytes)
    → ((t : Bytes) (w : Writer) → body t w ≡ write (f t) w)
    → (ts : List Bytes) (w : Writer) → for_words body ts w ≡ write_all (map f ts) w
unfolding for_words write_all
for_words-map body f h [] w = refl
for_words-map body f h (t ∷ ts) w =
    ap (for_words body ts) (h t w) ∙ for_words-map body f h ts (write (f t) w)

for_words-spaced :
    (body : Bytes → Writer → Writer) (f : Bytes → Bytes)
    → ((t : Bytes) (w : Writer) → body t w ≡ write (f t) w)
    → (ts : List Bytes) (s : Bytes) → (for_words body ts (writer s)).out ≡ s ++ spaced (map f ts)
for_words-spaced body f h ts s =
    ap (λ (w : Writer). w.out) (for_words-map body f h ts (writer s))
    ∙ write_all-spaced (map f ts) s

-- The words that `notdir` writes.
abbrev pub without_dir : Bytes → Bytes
without_dir t = if text_eq t (slash ∷ []) then [] else basename t

-- `dir`, `notdir`, `basename`, `addsuffix` and `addprefix` write one word for each word of the text,
-- with one space between two words: its directory and a slash, what stands behind its directory and
-- nothing for a lone slash, what stands before its extension, the word and the suffix, the prefix and
-- the word.
pub names-spaced :
    (x text s : Bytes)
    → (dir_func text s ≡ s ++ spaced (map (λ t. dirname t ++ slash ∷ []) (words text)))
      × (notdir_func text s ≡ s ++ spaced (map without_dir (words text)))
      × (basename_func text s ≡ s ++ spaced (map strip_ext (words text)))
      × (addsuffix_func x text s ≡ s ++ spaced (map (λ t. t ++ x) (words text)))
      × (addprefix_func x text s ≡ s ++ spaced (map (λ t. x ++ t) (words text)))
unfolding dir_func notdir_func basename_func addsuffix_func addprefix_func
names-spaced x text s = (
  for_words-spaced _ _ (λ t w. append_string-write (dirname t) (slash ∷ []) w) (words text) s,
  for_words-spaced _ without_dir notdir_step (words text) s,
  for_words-spaced _ strip_ext (λ t w. refl) (words text) s,
  for_words-spaced _ _ (λ t w. append_string-write t x w) (words text) s,
  for_words-spaced _ _ (λ t w. append_string-write x t w) (words text) s,
)
  where
    notdir_step :
        (t : Bytes) (w : Writer)
        → (if text_eq t (slash ∷ []) then write [] w else write (basename t) w)
          ≡ write (without_dir t) w
    notdir_step t w = elim (Bool-cases (text_eq t (slash ∷ []))) [
      | inl e ↦ rw e refl
      | inr e ↦ rw e refl
    ]

-- The words of two lists joined one by one, and the rest of the longer list.
pub joined : List Bytes → List Bytes → List Bytes
joined [] us = us
joined (t ∷ ts) [] = t ∷ ts
joined (t ∷ ts) (u ∷ us) = (t ++ u) ∷ joined ts us
