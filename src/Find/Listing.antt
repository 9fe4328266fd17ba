-- ===== src/Find/Listing.antt =====
-- What the rules of src/find.cc for pruning, depth and printing select of a tree, independently of its
-- walk: every entry of the tree in the order of its directories, filtered. The rules are those of
-- the emulator: it prunes directories only, and prints each that it prunes, where `find` also prunes
-- files and beside an explicit `-print` prints nothing that it prunes.
mod Stored
pub mod Directory
pub mod Walked
use kati.Prelude.{
  ℕ, suc, ◌+◌, ◌≡◌, refl, arith, Bool, true, false, not, ◌&&◌, ◌||◌, Option, some, List, [], ◌∷◌,
  ◌++◌, Bytes, get_elem?, leb, if◌then◌else◌,
}
use kati.Find.{EntryType, FindCommand, Node, dir_node, file_node, symlink_node, dir, lnk}
use kati.Find.Run.{path_of, holds}

-- A tree of entries, as the file system has it.
mutual
  pub data Tree : Type 0 where
    leaf : Bytes → EntryType → Tree
    link : Bytes → ℕ → Option ℕ → Tree
    branch : Bytes → Forest → Tree

  pub data Forest : Type 0 where
    nil : Forest
    cons : Tree → Forest → Forest

abbrev pub label : Tree → Bytes
label (leaf name type) = name
label (link name errno to) = name
label (branch name kids) = name

-- How many entries a tree has.
unfoldable mutual
  pub size : Tree → ℕ
  size (leaf name type) = 1
  size (link name errno to) = 1
  size (branch name kids) = suc (size_all kids)

  pub size_all : Forest → ℕ
  size_all nil = 0
  size_all (cons t ts) = size t + size_all ts

-- That the entry of a number is a tree.
module _ (nodes : List Node) where
  unfoldable mutual
    pub Stores : Tree → ℕ → Type 0
    Stores (leaf name type) n = get_elem? nodes n ≡ some (file_node name type)
    Stores (link name errno to) n = get_elem? nodes n ≡ some (symlink_node name errno to)
    Stores (branch name kids) n =
        (parent : Option ℕ) × (children : List (Bytes × ℕ)) × (get_elem? nodes n
          ≡ some (dir_node name parent children))
        × StoresAll kids children

    pub StoresAll : Forest → List (Bytes × ℕ) → Type 0
    StoresAll nil [] = Unit {0}
    StoresAll nil (e ∷ children) = ⊥
    StoresAll (cons t ts) [] = ⊥
    StoresAll (cons t ts) (e ∷ children) = Stores t e.1 × StoresAll ts children

-- An entry of a tree: its depth, its path and its type, whether it is a directory, and whether a
-- directory above it is pruned.
pub record Item : Type 0 where
  pub depth : ℕ
  pub path : Bytes
  pub type : EntryType
  pub directory : Bool
  pub cut : Bool

module _ (fnmatch : Bytes → Bytes → Bool) (fc : FindCommand) where
  abbrev pub is_pruned : Bytes → Bool
  is_pruned path = holds fnmatch false fc.prune_cond path dir

  -- Every entry of a tree, a directory before what it holds.
  unfoldable mutual
    pub entries : ℕ → Bool → Bytes → Tree → List Item
    entries d cut path (leaf name type) =
        record { depth = d; path = path; type = type; directory = false; cut = cut } ∷ []
    entries d cut path (link name errno to) =
        record { depth = d; path = path; type = lnk; directory = false; cut = cut } ∷ []
    entries d cut path (branch name kids) =
        record { depth = d; path = path; type = dir; directory = true; cut = cut }
        ∷ entries_all (d + 1) (cut || is_pruned path) path kids

    pub entries_all : ℕ → Bool → Bytes → Forest → List Item
    entries_all d cut path nil = []
    entries_all d cut path (cons t ts) =
        entries d cut (path_of path (label t)) t ++ entries_all d cut path ts

  -- By the rules of the emulator an entry is listed unless it is below a pruned directory or too deep: a pruned directory always,
  -- any other entry if the print condition holds of it and it is deep enough.
  unfoldable pub is_listed : Item → Bool
  is_listed e =
      not e.cut
      && leb e.depth fc.depth
      && (if e.directory && is_pruned e.path
          then true
          else holds fnmatch true fc.print_cond e.path e.type && leb fc.mindepth e.depth)

  unfoldable pub listed : List Item → List Bytes
  unfolding is_listed
  listed [] = []
  listed (e ∷ es) = if is_listed e then e.path ∷ listed es else listed es

  -- The paths that are listed of a tree whose root has a depth and a path.
  unfoldable pub listing : ℕ → Bytes → Tree → List Bytes
  unfolding entries listed
  listing d path t = listed (entries d false path t)

  pub listed-append : (xs ys : List Item) → listed (xs ++ ys) ≡ listed xs ++ listed ys
  unfolding listed
  listed-append [] ys = refl
  listed-append (e ∷ xs) ys = ground (arith, listed-append xs ys)

  -- Nothing is listed below a pruned directory, and nothing that is too deep.
  mutual
    unfolding entries listed

    listed-entries :
        (d : ℕ) (cut : Bool) (path : Bytes) (t : Tree)
        → (not cut && leb d fc.depth) ≡ false
        → listed (entries d cut path t) ≡ []
    listed-entries d cut path (leaf name type) h = ground arith
    listed-entries d cut path (link name errno to) h = ground arith
    listed-entries d cut path (branch name kids) h =
        ground (arith, listed-entries_all (d + 1) (cut || is_pruned path) path kids)

    pub listed-entries_all :
        (d : ℕ) (cut : Bool) (path : Bytes) (ts : Forest)
        → (not cut && leb d fc.depth) ≡ false
        → listed (entries_all d cut path ts) ≡ []
    listed-entries_all d cut path nil h = refl
    listed-entries_all d cut path (cons t ts) h = rw (
      listed-append (entries d cut (path_of path (label t)) t) (entries_all d cut path ts),
      listed-entries d cut (path_of path (label t)) t h,
      listed-entries_all d cut path ts h,
    )
