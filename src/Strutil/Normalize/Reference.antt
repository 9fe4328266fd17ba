-- ===== src/Strutil/Normalize/Reference.antt =====
-- What a normalized path is, independently of `NormalizePath` of src/strutil.cc: a path is read with
-- a stack of its components, the last one on top, and the stack is written out.
use kati.Prelude.{
  ◌<◌, Bool, true, false, ◌&&◌, List, [], ◌∷◌, ◌++◌, Bytes, length, text_eq, ◌==◌, if◌then◌else◌,
  codes, All, Lacks,
}
use kati.Strutil.Path.{slash}

abbrev pub dots : Bytes
dots = codes ".."

abbrev pub root : Bool → Bytes
root true = slash ∷ []
root false = []

-- The components of a stack, each with a slash behind it.
unfoldable pub text : Bool → List Bytes → Bytes
text absolute [] = root absolute
text absolute (c ∷ st) = text absolute st ++ (c ++ slash ∷ [])

-- The path of a stack.
unfoldable pub joined : Bool → List Bytes → Bytes
unfolding text
joined absolute [] = root absolute
joined absolute (c ∷ st) = text absolute st ++ c

-- `..` goes to the parent; the root is its own, and a relative path may go above its start.
unfoldable pub up : Bool → List Bytes → List Bytes
up true [] = []
up false [] = dots ∷ []
up absolute (c ∷ st) = if text_eq c dots then dots ∷ c ∷ st else st

abbrev pub is_empty : Bytes → Bool
is_empty [] = true
is_empty (b ∷ c) = false

unfoldable pub push : Bool → List Bytes → Bytes → List Bytes
unfolding up
push absolute st c =
    if is_empty c
    then st
    else if text_eq c (codes ".")
    then st
    else if text_eq c dots
    then up absolute st
    else c ∷ st

-- The stack of all components but the last, and the last one; `c` is what has been read of one.
unfoldable pub read_path : Bool → List Bytes → Bytes → Bytes → List Bytes × Bytes
unfolding push
read_path absolute st c [] = (st, c)
read_path absolute st c (x ∷ s) = elim (x == slash) [
  | true ↦ read_path absolute (push absolute st c) [] s
  | false ↦ read_path absolute st (c ++ x ∷ []) s
]

-- The components of a path behind its root.
unfoldable pub parts_of : Bytes → List Bytes × Bytes
unfolding read_path
parts_of [] = ([], [])
parts_of (b ∷ s) = if b == slash then read_path true [] [] s else read_path false [] [] (b ∷ s)

abbrev pub is_absolute : Bytes → Bool
is_absolute [] = false
is_absolute (b ∷ s) = b == slash

unfoldable pub normalized : Bytes → Bytes
unfolding parts_of joined
normalized s =
    let absolute = is_absolute s in joined absolute (push absolute (parts_of s).0 (parts_of s).1)

-- Whether a path ends in a `..` that goes further up than the path has come down.
abbrev pub is_double : List Bytes → Bytes → Bool
is_double [] c = false
is_double (d ∷ st) c = text_eq d dots && text_eq c dots

unfoldable pub ends_above : Bytes → Bool
unfolding parts_of
ends_above s = is_double (parts_of s).0 (parts_of s).1

-- A component.
abbrev pub IsName : Bytes → Type 0
IsName c = (0 < length c) × Lacks slash c

abbrev pub AreNames : List Bytes → Type 0
AreNames = All IsName
