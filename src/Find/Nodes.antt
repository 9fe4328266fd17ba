-- ===== src/Find/Nodes.antt =====
-- `FindDir` and `FindNodes` of src/find.cc: the entries that a path or a pattern names.
pub mod Cut
pub mod Plain
use kati.Prelude.{
  ℕ, zero, suc, ◌+◌, Bool, true, false, not, ◌||◌, Option, none, some, List, [], ◌∷◌, ◌++◌, Bytes,
  length, get_elem?, ◌==◌, if◌then◌else◌, codes, text_eq,
}
use kati.Piece.{substr, find_byte}
use kati.Strutil.Path.{slash}
use kati.Find.{Node, dir_node, file_node, symlink_node, has_wildcard}
use kati.Find.Run.{without, is_directory}

-- The part of a path behind a slash; npos and 1 are 0.
abbrev pub behind : Bytes → Option ℕ → Bytes
behind d none = d
behind d (some i) = substr d (i + 1) none

abbrev pub is_here : Bytes → Bool
is_here p = length p == 0 || text_eq p (codes ".")

unfoldable pub find_child : Bytes → List (Bytes × ℕ) → Option ℕ
find_child p [] = none
find_child p ((name, c) ∷ children) = if text_eq p name then some c else find_child p children

-- The answer of `FindDir`.
pub data Looked : Type 0 where
  there : ℕ → Looked
  missing : Looked
  no_fuel : Looked

abbrev pub at_entry : Option ℕ → (ℕ → Looked) → Looked
at_entry none k = missing
at_entry (some n) k = k n

abbrev pub is_none : Option ℕ → Bool
is_none none = true
is_none (some i) = false

-- `FindDir` of a directory; `look` is that of another entry.
unfoldable pub look_in : (ℕ → Bytes → Looked) → ℕ → Option ℕ → List (Bytes × ℕ) → Bytes → Looked
unfolding substr find_byte find_child
look_in look n parent children d =
    let index = find_byte d slash 0 in
    let p = substr d 0 index in
    if is_here d
    then there n
    else if text_eq d (codes "..")
    then at_entry parent there
    else if is_here p
    then look n (behind d index)
    else if text_eq p (codes "..")
    then at_entry parent (λ q. look q (behind d index))
    else at_entry (find_child p children)
        (λ c. if is_none index then there c else look c (behind d index))

unfoldable pub look_at : (ℕ → Bytes → Looked) → ℕ → Option Node → Bytes → Looked
unfolding look_in
look_at look n none d = missing
look_at look n (some (dir_node name parent children)) d = look_in look n parent children d
look_at look n (some (file_node name type)) d = missing
look_at look n (some (symlink_node name errno to)) d =
    if errno == 0 then at_entry to (λ m. look m d) else missing

-- `FindDir`.
unfoldable pub find_dir : List Node → ℕ → ℕ → Bytes → Looked
unfolding look_at
find_dir nodes zero n d = no_fuel
find_dir nodes (suc f) n d = look_at (find_dir nodes f) n (get_elem? nodes n) d

-- The entries that `FindNodes` has found, each with its path, and the directories that it has read.
pub record Bases : Type 0 where
  pub bases : List (Bytes × ℕ)
  pub read_dirs : List Bytes

pub data Gathered : Type 0 where
  gathered : Bases → Gathered
  refused : Gathered
  out_of_fuel : Gathered

abbrev pub add_base : Bytes → ℕ → Bases → Gathered
add_base path n b = gathered (record b { bases = b.bases ++ (path, n) ∷ [] })

abbrev pub read_dir : Bytes → Bases → Bases
read_dir path b = record b { read_dirs = path ∷ without path b.read_dirs }

-- The loop of `FindNodes` over the children.
unfoldable pub gather_children :
    (ℕ → Bytes → Bases → Gathered) → (Bytes → Bool) → Bytes → List (Bytes × ℕ) → Bases → Gathered
gather_children gather matches path [] b = gathered b
gather_children gather matches path ((name, c) ∷ children) b = elim (matches name) [
  | false ↦ gather_children gather matches path children b
  | true ↦ elim (gather c (path ++ name) b) [
    | gathered b' ↦ gather_children gather matches path children b'
    | refused ↦ refused
    | out_of_fuel ↦ out_of_fuel
  ]
]

-- An entry is found if this was the last part of the path; otherwise the search goes on there.
abbrev pub gather_on : (ℕ → Bytes → Bases → Gathered) → Bool → ℕ → Bytes → Bases → Gathered
gather_on gather is_last n path b = if is_last then add_base path n b else gather n path b

-- `FindNodes` of a directory; `gather` goes on at another entry with the rest of the path.
unfoldable pub gather_in :
    (Bytes → Bytes → Bool)
    → (ℕ → Bytes → Bases → Gathered)
    → ℕ
    → Option ℕ
    → List (Bytes × ℕ)
    → Bytes
    → Bytes
    → Bases
    → Gathered
unfolding substr find_byte has_wildcard gather_children without
gather_in fnmatch_period gather n parent children path d b =
    let index = find_byte d slash 0 in
    let p = substr d 0 index in
    let start = if length path == 0 then path else path ++ slash ∷ [] in
    let on = gather_on gather (is_none index) in
    if is_here p
    then on n (start ++ p) b
    else if text_eq p (codes "..")
    then (elim parent [ none ↦ refused | some q ↦ on q (start ++ p) b ])
    else if has_wildcard p
    then gather_children on (fnmatch_period p) start children (read_dir start b)
    else gather_children on (text_eq p) start children b

unfoldable pub gather_at :
    (Bytes → Bytes → Bool)
    → (ℕ → Bool)
    → (Bytes → ℕ → Bytes → Bases → Gathered)
    → ℕ
    → Option Node
    → Bytes
    → Bytes
    → Bases
    → Gathered
unfolding gather_in without find_byte
gather_at fnmatch_period is_dir gather n none path d b = refused
gather_at fnmatch_period is_dir gather n (some (dir_node name parent children)) path d b =
    gather_in fnmatch_period (gather (behind d (find_byte d slash 0))) n parent children path d b
gather_at fnmatch_period is_dir gather n (some (file_node name type)) path d b = gathered b
gather_at fnmatch_period is_dir gather n (some (symlink_node name errno to)) path d b =
    if not (errno == 0) then gathered b else (elim to [
      | none ↦ refused
      | some m ↦ gather d m path (if is_dir m then read_dir path b else b)
    ])

-- `FindNodes`.
unfoldable pub find_nodes :
    (Bytes → Bytes → Bool) → List Node → ℕ → Bytes → ℕ → Bytes → Bases → Gathered
unfolding gather_at is_directory
find_nodes fnmatch_period nodes zero d n path b = out_of_fuel
find_nodes fnmatch_period nodes (suc f) d n path b =
    gather_at fnmatch_period (is_directory nodes f) (find_nodes fnmatch_period nodes f) n
      (get_elem? nodes n) path d b
