-- ===== src/Strutil/Normalize.antt =====
-- `NormalizePath`, `AbsPath` and `ConcatDir` of src/strutil.cc. The loop changes the path in place;
-- its state is the path and the places `j` and `prev_start`.
pub mod Reference
pub mod Steps
pub mod Component
pub mod Trim
pub mod Outcome
pub mod Clean
use kati.Prelude.{
  ℕ, zero, suc, ◌+◌, ◌-◌, not, ◌&&◌, ◌||◌, none, some, [], ◌∷◌, ◌++◌, Bytes, length, drop, take,
  get_or, text_eq, ltb, ◌==◌, if◌then◌else◌, codes,
}
use kati.Piece.{get, rfind}
use kati.Strutil.Path.{slash}

pub record Walk : Type 0 where
  pub o : Bytes
  pub j : ℕ
  pub prev_start : ℕ

-- `(*o)[j] = c` for a place in the string. The byte behind its end is a NUL, and the loop stores
-- nothing else there.
unfoldable pub set_byte : ℕ → ℕ → Bytes → Bytes
set_byte i c [] = []
set_byte zero c (x ∷ o) = c ∷ o
set_byte (suc i) c (x ∷ o) = x ∷ set_byte i c o

-- The byte is stored and `j` is counted up.
abbrev pub put_byte : ℕ → Walk → Walk
put_byte c w = record w { o = set_byte w.j c w.o; j = w.j + 1 }

-- `std::string::resize` to at most one byte more.
abbrev pub resize : ℕ → Bytes → Bytes
resize n o = take n (o ++ (0 ∷ []))

-- The component that ends at `j`.
abbrev pub prev_dir : Walk → Bytes
prev_dir w = take (w.j - w.prev_start) (drop w.prev_start w.o)

-- The place where the component before `..` starts.
unfoldable pub parent_start : ℕ → Walk → ℕ
unfolding rfind
parent_start start_index w = elim (rfind w.o slash (some (w.j - 4))) [
  | none ↦ start_index
  | some i ↦ i + 1
]

-- `..` behind another component: that one is taken away unless it is `..` too.
unfoldable pub go_up : ℕ → ℕ → Walk → Walk
unfolding parent_start
go_up start_index c w =
    let j = parent_start start_index w in
    if w.j == 3
    then record w { j = start_index }
    else if text_eq (take 3 (drop j w.o)) (codes "../")
    then put_byte c w
    else record w { j = j }

-- What is done at the end of a component.
unfoldable pub end_component : ℕ → ℕ → Walk → Walk
unfolding go_up
end_component start_index c w =
    if text_eq (prev_dir w) (codes ".")
    then record w { j = w.j - 1 }
    else if text_eq (prev_dir w) (codes "..") && not (w.j == 2)
    then go_up start_index c w
    else if not (length (prev_dir w) == 0) && not (c == 0)
    then put_byte c w
    else w

-- One round of the loop, at the place `i`.
unfoldable pub walk_at : ℕ → ℕ → Walk → Walk
unfolding end_component
walk_at start_index i w =
    let c = get_or w.o i 0 in
    if not (c == slash) && not (c == 0)
    then put_byte c w
    else (let v = end_component start_index c w in record v { prev_start = v.j })

-- The loop, with the number of rounds left.
unfoldable pub walk_from : ℕ → ℕ → ℕ → Walk → Walk
unfolding walk_at
walk_from zero start_index i w = w
walk_from (suc n) start_index i w = walk_from n start_index (i + 1) (walk_at start_index i w)

-- `NormalizePath`.
unfoldable pub normalize_path : Bytes → Bytes
unfolding walk_from
normalize_path [] = []
normalize_path (b ∷ s) =
    let start_index = if b == slash then 1 else 0 in
    let w =
      walk_from (length (b ∷ s) + 1 - start_index) start_index start_index
        (record { o = b ∷ s; j = start_index; prev_start = start_index }) in
    let j = if ltb 1 w.j && get_or w.o (w.j - 1) 0 == slash then w.j - 1 else w.j in resize j w.o

-- `AbsPath`, with the directory that `getcwd` gives.
unfoldable pub abs_path : Bytes → Bytes → Bytes
unfolding normalize_path
abs_path cwd s = if get s 0 == slash then normalize_path s else normalize_path (cwd ++ (slash ∷ s))

-- `ConcatDir`.
unfoldable pub concat_dir : Bytes → Bytes → Bytes
unfolding normalize_path
concat_dir b n =
    if not (length b == 0) && (length n == 0 || not (get n 0 == slash))
    then normalize_path (b ++ (slash ∷ n))
    else normalize_path n
