-- ===== src/Examples/Func.antt =====
-- src/func.cc at concrete inputs.
use kati.Prelude.{ℕ, ◌+◌, ◌≡◌, ◌↔◌, ◌⊎◌, refl, some, [], ◌++◌, arith, Bytes, codes}
use kati.Strutil.Words.{words}
use kati.Func.Texts.{subst_func, sort_func}
use kati.Func.Texts.Replace.{replaced, subst_func-replaced}
use kati.Func.Texts.Filter.{FitsAny, count, count_filter, count_filter_out, filter-FitsAny}
use kati.Func.Texts.Sort.{Rising, sort_func-Rising}
use kati.Func.Texts.Insertion.{Stands}
use kati.Func.Words.{get_numeric_value}
use kati.Func.Words.Numeric.{Digits, IsNumber, place_value, get_numeric_value-Digits}

sort_func_example :
    Rising (words (sort_func (codes "b a b") []))
    × (Stands (codes "a") (words (sort_func (codes "b a b") []))
        ↔ Stands (codes "a") (words (codes "b a b")))
sort_func_example = sort_func-Rising (codes "b a b") (codes "a") (omega arith) (omega arith)

subst_func_example :
    subst_func (codes "aa") (codes "x") (codes "baaac") []
    ≡ [] ++ replaced (codes "aa") (codes "x") 0 (codes "baaac")
subst_func_example = subst_func-replaced (codes "aa") (codes "x") (codes "baaac") []

filter_example :
    (FitsAny (words (codes "%.c")) (codes "b.c")
      × (count_filter (codes "b.c") (codes "%.c") (codes "a.o b.c")
          ≡ count (codes "b.c") (words (codes "a.o b.c")))
      × (count_filter_out (codes "b.c") (codes "%.c") (codes "a.o b.c") ≡ 0))
    ⊎ ((¬ FitsAny (words (codes "%.c")) (codes "b.c"))
        × (count_filter (codes "b.c") (codes "%.c") (codes "a.o b.c") ≡ 0)
        × (count_filter_out (codes "b.c") (codes "%.c") (codes "a.o b.c")
            ≡ count (codes "b.c") (words (codes "a.o b.c"))))
filter_example = filter-FitsAny (codes "%.c") (codes "a.o b.c") (codes "b.c") (omega arith)

ten-Digits : Digits (codes "4294967297")
ten-Digits = (refl, (refl, (refl, (refl, (refl, (refl, (refl, (refl, (refl, (refl, tt))))))))))

-- The number that an int cannot hold.
numeric_example :
    IsNumber (place_value (codes "4294967297")) (get_numeric_value (codes "4294967297"))
numeric_example = get_numeric_value-Digits (codes "4294967297") (cc) ten-Digits

two : get_numeric_value (codes "2") ≡ some 2
unfolding get_numeric_value
two = refl

four : get_numeric_value (codes "4") ≡ some 4
unfolding get_numeric_value
four = refl

-- 4294967297 acts as 1.
wraps : get_numeric_value (codes "4294967297") ≡ some 1
unfolding get_numeric_value
wraps = refl

-- An evaluation that counts its calls.
abbrev counting : Bytes → ℕ → Bytes × ℕ
counting a n = (a, n + 1)
