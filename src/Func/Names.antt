-- ===== src/Func/Names.antt =====
-- `join`, `dir`, `notdir`, `suffix`, `basename`, `addsuffix` and `addprefix` of src/func.cc.
pub mod Layout
use kati.Prelude.{
  ℕ, zero, suc, Bool, true, false, List, [], ◌∷◌, ◌++◌, Bytes, length, ◌==◌, if◌then◌else◌, text_eq,
}
use kati.Strutil.Words.{Writer, words, writer, append_string, write, write_all}
use kati.Strutil.Path.{slash, dirname, basename, get_ext, strip_ext}

-- The three loops of `JoinFunc`.
unfoldable pub join_words : List Bytes → List Bytes → Writer → Writer
unfolding write write_all
join_words [] ts w = write_all ts w
join_words (t ∷ ts) [] w = write_all (t ∷ ts) w
join_words (t ∷ ts) (u ∷ us) w = join_words ts us (append_string u (write t w))

-- `JoinFunc`.
unfoldable pub join_func : Bytes → Bytes → Bytes → Bytes
unfolding words join_words
join_func list1 list2 s = (join_words (words list1) (words list2) (writer s)).out

-- `for (StringPiece tok : WordScanner(text)) body(tok)`.
unfoldable pub for_words : (Bytes → Writer → Writer) → List Bytes → Writer → Writer
for_words body [] w = w
for_words body (tok ∷ toks) w = for_words body toks (body tok w)

-- `DirFunc`.
unfoldable pub dir_func : Bytes → Bytes → Bytes
unfolding words for_words write dirname
dir_func text s =
    (for_words (λ tok w. append_string (slash ∷ []) (write (dirname tok) w)) (words text)
      (writer s)).out

-- `NotdirFunc`.
unfoldable pub notdir_func : Bytes → Bytes → Bytes
unfolding words for_words write basename
notdir_func text s =
    (for_words (λ tok w. if text_eq tok (slash ∷ []) then write [] w else write (basename tok) w)
      (words text) (writer s)).out

-- `SuffixFunc`.
unfoldable pub suffix_func : Bytes → Bytes → Bytes
unfolding words for_words write get_ext
suffix_func text s =
    (for_words (λ tok w. let suf = get_ext tok in if length suf == 0 then w else write suf w)
      (words text) (writer s)).out

-- `BasenameFunc`.
unfoldable pub basename_func : Bytes → Bytes → Bytes
unfolding words for_words write strip_ext
basename_func text s = (for_words (λ tok w. write (strip_ext tok) w) (words text) (writer s)).out

-- `AddsuffixFunc`.
unfoldable pub addsuffix_func : Bytes → Bytes → Bytes → Bytes
unfolding words for_words write
addsuffix_func suf text s =
    (for_words (λ tok w. append_string suf (write tok w)) (words text) (writer s)).out

-- `AddprefixFunc`.
unfoldable pub addprefix_func : Bytes → Bytes → Bytes → Bytes
unfolding words for_words write
addprefix_func pre text s =
    (for_words (λ tok w. append_string tok (write pre w)) (words text) (writer s)).out
