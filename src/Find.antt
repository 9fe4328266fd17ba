-- ===== src/Find.antt =====
-- The find emulator of src/find.h and src/find.cc: conditions, the tree of directory entries and
-- the walk over it. The tree is the one that reading the directories has built: entries are
-- numbered, and a directory and a symbolic link name others by their numbers. `fnmatch` is a
-- parameter.
pub mod Run
pub mod Parse
pub mod Arguments
pub mod Command
pub mod Tokens
pub mod RoundTrip
pub mod Cases
pub mod Listing
pub mod Reached
pub mod Selected
pub mod Ends
pub mod Nodes
pub mod Handle
use kati.Prelude.{
  ℕ, zero, suc, ◌+◌, ◌-◌, Bool, true, false, not, ◌&&◌, ◌||◌, Option, none, some, List, [], ◌∷◌,
  ◌++◌, Bytes, length, drop, get_elem?, leb, ltb, ◌==◌, if◌then◌else◌, codes, text_eq,
}
use kati.Piece.{get, find_first_of}
use kati.Strutil.Path.{slash, basename}

-- The types of entries, as far as a command can name them.
pub data EntryType : Type 0 where
  blk : EntryType
  chr : EntryType
  dir : EntryType
  fifo : EntryType
  lnk : EntryType
  reg : EntryType
  sock : EntryType

abbrev pub type_eq : EntryType → EntryType → Bool
type_eq blk blk = true
type_eq chr chr = true
type_eq dir dir = true
type_eq fifo fifo = true
type_eq lnk lnk = true
type_eq reg reg = true
type_eq sock sock = true
type_eq _ _ = false

-- The subclasses of `FindCond`.
pub data FindCond : Type 0 where
  name_cond : Bytes → FindCond
  type_cond : EntryType → FindCond
  not_cond : FindCond → FindCond
  and_cond : FindCond → FindCond → FindCond
  or_cond : FindCond → FindCond → FindCond

abbrev pub wildcards : Bytes
wildcards = codes "?*["

-- `has_wildcard_` of a `NameCond`.
unfoldable pub has_wildcard : Bytes → Bool
unfolding find_first_of
has_wildcard n = elim (find_first_of n wildcards 0) [ none ↦ false | some i ↦ true ]

-- `IsTrue`.
unfoldable pub is_true : (Bytes → Bytes → Bool) → FindCond → Bytes → EntryType → Bool
unfolding basename
is_true fnmatch (name_cond name) path type = fnmatch name (basename path)
is_true fnmatch (type_cond t) path type = type_eq type t
is_true fnmatch (not_cond c) path type = not (is_true fnmatch c path type)
is_true fnmatch (and_cond c d) path type =
    if is_true fnmatch c path type then is_true fnmatch d path type else false
is_true fnmatch (or_cond c d) path type =
    if not (is_true fnmatch c path type) then is_true fnmatch d path type else true

-- `Countable` and `Count`.
unfoldable pub countable : FindCond → Bool
unfolding has_wildcard
countable (name_cond name) = not (has_wildcard name)
countable (or_cond c d) = countable c && countable d
countable (type_cond t) = false
countable (not_cond c) = false
countable (and_cond c d) = false

unfoldable pub count : FindCond → ℕ
count (name_cond name) = 1
count (or_cond c d) = count c + count d
count (type_cond t) = 0
count (not_cond c) = 0
count (and_cond c d) = 0

-- `FindCommandType`, of which the parser gives two.
pub data FindCommandType : Type 0 where
  find_type : FindCommandType
  findleaves : FindCommandType

abbrev pub is_findleaves : FindCommandType → Bool
is_findleaves findleaves = true
is_findleaves find_type = false

-- `FindCommand`. A `mindepth` that is not positive has no effect and is 0.
pub record FindCommand : Type 0 where
  pub type : FindCommandType
  pub chdir : Bytes
  pub testdir : Bytes
  pub finddirs : List Bytes
  pub follows_symlinks : Bool
  pub print_cond : Option FindCond
  pub prune_cond : Option FindCond
  pub depth : ℕ
  pub mindepth : ℕ
  pub redirect_to_devnull : Bool

-- The subclasses of `DirentNode`, each with its base name: a directory with its parent and
-- children, a file with its type, and a symbolic link with its `errno` and where it leads.
pub data Node : Type 0 where
  dir_node : Bytes → Option ℕ → List (Bytes × ℕ) → Node
  file_node : Bytes → EntryType → Node
  symlink_node : Bytes → ℕ → Option ℕ → Node

abbrev pub base : Node → Bytes
base (dir_node name parent children) = name
base (file_node name type) = name
base (symlink_node name errno to) = name

abbrev pub enoent : ℕ
enoent = 2

-- What a walk has gathered.
pub record Walk : Type 0 where
  pub out : List Bytes
  pub read_dirs : List Bytes
  pub found_files : List Bytes

pub data Found : Type 0 where
  found : Walk → Found
  unsupported : Found
  out_of_fuel : Found
