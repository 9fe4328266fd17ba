-- ===== src/Find/Reached.antt =====
-- The entries that the walk of `RunFind` of src/find.cc can come to, with their paths.
use kati.Prelude.{
  ℕ, ◌+◌, ◌≡◌, ◌⊎◌, refl, inl, inr, Bool, true, false, Option, none, some, List, [], ◌∷◌, Bytes,
  get_elem?, All,
}
use kati.Find.{FindCommand, EntryType, dir, lnk, Node, dir_node, file_node, symlink_node}
use kati.Find.Run.{path_of, base_of, holds}

abbrev pub Among : Bytes × ℕ → List (Bytes × ℕ) → Type 0
Among e [] = ⊥
Among e (x ∷ xs) = (e ≡ x) ⊎ Among e xs

pub All-Among :
    (P : Bytes × ℕ → Type 0) (xs : List (Bytes × ℕ))
    → ((e : Bytes × ℕ) → Among e xs → P e)
    → All P xs
All-Among P [] g = tt
All-Among P (x ∷ xs) g = (g x (inl refl), All-Among P xs (λ e h. g e (inr h)))

-- The type by which an entry is printed.
abbrev pub type_of : Option Node → Option EntryType
type_of none = none
type_of (some (file_node name type)) = some type
type_of (some (symlink_node name errno to)) = some lnk
type_of (some (dir_node name parent children)) = some dir

-- The entries that a walk can come to, each with its depth and with its path: the start, each child of
-- a directory that is not pruned, and what a link leads to if links are followed.
pub data Reached (fnmatch : Bytes → Bytes → Bool) (nodes : List Node) (fc : FindCommand) (d0 n0 : ℕ)
    (p0 : Bytes) : ℕ → ℕ → Bytes → Type 0 where
  start : Reached fnmatch nodes fc d0 n0 p0 d0 n0 p0
  child :
      {d n : ℕ} {path name : Bytes} {parent : Option ℕ} {children : List (Bytes × ℕ)}
      (e : Bytes × ℕ)
      → Reached fnmatch nodes fc d0 n0 p0 d n path
      → get_elem? nodes n ≡ some (dir_node name parent children)
      → holds fnmatch false fc.prune_cond path dir ≡ false
      → Among e children
      → Reached fnmatch nodes fc d0 n0 p0 (d + 1) e.1 (path_of path (base_of nodes e.1))
  linked :
      {d n errno : ℕ} {path name : Bytes} (m : ℕ)
      → Reached fnmatch nodes fc d0 n0 p0 d n path
      → get_elem? nodes n ≡ some (symlink_node name errno (some m))
      → fc.follows_symlinks ≡ true
      → Reached fnmatch nodes fc d0 n0 p0 d m path
