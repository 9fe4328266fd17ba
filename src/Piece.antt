-- ===== src/Piece.antt =====
-- `StringPiece` of src/string_piece.h and src/string_piece.cc: searching, cutting and comparing.
-- A piece is the list of its bytes; `npos` is `none`, and so is a length argument left out.
pub mod Search
pub mod Find
pub mod Last
pub mod Order
use Prim.Native.Nat.{compare, Ordering}
use kati.Prelude.{
  ℕ, zero, suc, ◌+◌, ◌-◌, ◌*◌, Bool, true, false, not, ◌&&◌, ◌||◌, Option, none, some, List, [],
  ◌∷◌, Bytes, length, get_or, take, drop, ltb, leb, ◌==◌, if◌then◌else◌,
}

-- `std::min(room, n)` where `n` may be `npos`.
abbrev pub clamp : ℕ → Option ℕ → ℕ
clamp room none = room
clamp room (some n) = if ltb room n then room else n

-- `substr`: both arguments are cut down to what is there.
unfoldable pub substr : Bytes → ℕ → Option ℕ → Bytes
substr s pos n =
    let p = if ltb (length s) pos then length s else pos in take (clamp (length s - p) n) (drop p s)

-- `get`, and `operator[]` at an index in range: 0 past the end.
abbrev pub get : Bytes → ℕ → ℕ
get s i = get_or s i 0

-- `x.starts_with(p)`.
unfoldable pub starts_with : Bytes → Bytes → Bool
starts_with s [] = true
starts_with [] (y ∷ p) = false
starts_with (x ∷ s) (y ∷ p) = x == y && starts_with s p

abbrev pub shift : ℕ → Option ℕ → Option ℕ
shift n none = none
shift n (some k) = some (n + k)

-- `std::find` over a whole range.
unfoldable pub index_of : ℕ → Bytes → Option ℕ
index_of c [] = none
index_of c (x ∷ s) = if x == c then some 0 else shift 1 (index_of c s)

-- `find(char, pos)`.
unfoldable pub find_byte : Bytes → ℕ → ℕ → Option ℕ
find_byte s c pos = if leb (length s) pos then none else shift pos (index_of c (drop pos s))

-- `std::search`: the offset of the first occurrence, or the length of the range.
unfoldable pub search_in : Bytes → Bytes → ℕ
search_in [] t = 0
search_in (x ∷ s) t = if starts_with (x ∷ s) t then 0 else suc (search_in s t)

-- `find(StringPiece, pos)`.
unfoldable pub find : Bytes → Bytes → ℕ → Option ℕ
find s t pos =
    let xpos = pos + search_in (drop pos s) t in
    if ltb (length s) pos
    then none
    else if leb (xpos + length t) (length s)
    then some xpos
    else none

-- `for (i = start; i < length_; ++i) if (test(ptr_[i])) return i;`, over the rounds that are left.
unfoldable pub scan_up : (ℕ → Bool) → Bytes → ℕ → ℕ → Option ℕ
scan_up test s i zero = none
scan_up test s i (suc n) = if test (get s i) then some i else scan_up test s (i + 1) n

-- `for (i = start;; --i) { if (test(ptr_[i])) return i; if (i == 0) break; }`.
unfoldable pub scan_down : (ℕ → Bool) → Bytes → ℕ → Option ℕ
scan_down test s zero = if test (get s zero) then some zero else none
scan_down test s (suc i) = if test (get s (suc i)) then some (suc i) else scan_down test s i

abbrev pub is_byte : ℕ → ℕ → Bool
is_byte c d = d == c

-- `rfind(char, pos)`.
unfoldable pub rfind : Bytes → ℕ → Option ℕ → Option ℕ
rfind s c pos = if length s == 0 then none else scan_down (is_byte c) s (clamp (length s - 1) pos)

-- `BuildLookupTable`: a table of flags with those of the wanted bytes set.
unfoldable pub lookup_table : Bytes → (ℕ → Bool) → ℕ → Bool
lookup_table [] table = table
lookup_table (c ∷ wanted) table = lookup_table wanted (λ d. if d == c then true else table d)

abbrev pub table_of : Bytes → ℕ → Bool
table_of wanted = lookup_table wanted (λ _. false)

abbrev pub is_not : (ℕ → Bool) → ℕ → Bool
is_not test c = not (test c)

-- The four searches for a byte of a set; each has its short cut for a set of one byte.
unfoldable pub find_first_of : Bytes → Bytes → ℕ → Option ℕ
unfolding find_byte
find_first_of s [] pos = none
find_first_of s (c ∷ []) pos = if length s == 0 then none else find_byte s c pos
find_first_of s (c ∷ d ∷ wanted) pos =
    if length s == 0 then none else scan_up (table_of (c ∷ d ∷ wanted)) s pos (length s - pos)

unfoldable pub find_first_not_of : Bytes → Bytes → ℕ → Option ℕ
find_first_not_of s [] pos = if length s == 0 then none else some 0
find_first_not_of s (c ∷ []) pos =
    if length s == 0 then none else scan_up (is_not (is_byte c)) s pos (length s - pos)
find_first_not_of s (c ∷ d ∷ wanted) pos =
    if length s == 0
    then none
    else scan_up (is_not (table_of (c ∷ d ∷ wanted))) s pos (length s - pos)

unfoldable pub find_last_of : Bytes → Bytes → Option ℕ → Option ℕ
unfolding rfind
find_last_of s [] pos = none
find_last_of s (c ∷ []) pos = if length s == 0 then none else rfind s c pos
find_last_of s (c ∷ d ∷ wanted) pos =
    if length s == 0
    then none
    else scan_down (table_of (c ∷ d ∷ wanted)) s (clamp (length s - 1) pos)

unfoldable pub find_last_not_of : Bytes → Bytes → Option ℕ → Option ℕ
find_last_not_of s [] pos = if length s == 0 then none else some (clamp (length s - 1) pos)
find_last_not_of s (c ∷ []) pos =
    if length s == 0 then none else scan_down (is_not (is_byte c)) s (clamp (length s - 1) pos)
find_last_not_of s (c ∷ d ∷ wanted) pos =
    if length s == 0
    then none
    else scan_down (is_not (table_of (c ∷ d ∷ wanted))) s (clamp (length s - 1) pos)

-- `memcmp` over the first `n` bytes of two buffers that hold as many.
unfoldable pub wordmemcmp : Bytes → Bytes → ℕ → Ordering
wordmemcmp x y zero = Ordering.eq
wordmemcmp [] y (suc n) = Ordering.eq
wordmemcmp (a ∷ x) [] (suc n) = Ordering.eq
wordmemcmp (a ∷ x) (b ∷ y) (suc n) = elim (compare a b) [
  | Ordering.lt ↦ Ordering.lt
  | Ordering.eq ↦ wordmemcmp x y n
  | Ordering.gt ↦ Ordering.gt
]

abbrev is_equal : Ordering → Bool
is_equal Ordering.eq = true
is_equal _ = false

-- The `uint64_t` that eight bytes make in memory, least significant byte first.
unfoldable pub load64 : Bytes → ℕ
load64 [] = 0
load64 (b ∷ bs) = b + 256 * load64 bs

-- `operator==`: the sizes, then the last eight bytes at once, then the others.
unfoldable pub piece_eq : Bytes → Bytes → Bool
unfolding wordmemcmp load64
piece_eq x y =
    if not (length x == length y)
    then false
    else if leb 8 (length x)
    then (let len = length x - 8 in
        if not (load64 (drop len x) == load64 (drop len y))
        then false
        else is_equal (wordmemcmp x y len))
    else is_equal (wordmemcmp x y (length x))

-- `operator<`.
unfoldable pub piece_lt : Bytes → Bytes → Bool
unfolding wordmemcmp
piece_lt x y =
    let r = wordmemcmp x y (if ltb (length x) (length y) then length x else length y) in
    elim r [ Ordering.lt ↦ true | Ordering.eq ↦ ltb (length x) (length y) | Ordering.gt ↦ false ]

-- `compare`.
unfoldable pub piece_compare : Bytes → Bytes → Ordering
unfolding wordmemcmp
piece_compare x y =
    let r = wordmemcmp x y (if ltb (length x) (length y) then length x else length y) in
    elim r [
      | Ordering.lt ↦ Ordering.lt
      | Ordering.eq ↦
          if ltb (length x) (length y)
          then Ordering.lt
          else if ltb (length y) (length x)
          then Ordering.gt
          else Ordering.eq
      | Ordering.gt ↦ Ordering.gt
    ]
