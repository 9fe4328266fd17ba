-- ===== src/Find/Run.antt =====
-- `RunFind` of src/find.cc: the walk over a tree of entries.
use kati.Prelude.{
  ℕ, zero, suc, ◌+◌, ◌-◌, Bool, true, false, not, ◌&&◌, Option, none, some, List, [], ◌∷◌, ◌++◌,
  Bytes, length, drop, get_elem?, leb, ltb, ◌==◌, if◌then◌else◌, text_eq,
}
use kati.Piece.{get}
use kati.Strutil.Path.{slash}
use kati.Find.{
  EntryType, FindCommand, FindCond, Found, Node, Walk, base, count, countable, dir, dir_node,
  enoent, file_node, found, is_findleaves, is_true, lnk, out_of_fuel, symlink_node, unsupported,
}

unfoldable pub path_of : Bytes → Bytes → Bytes
path_of path name =
    if get path (length path - 1) == slash then path ++ name else path ++ (slash ∷ name)

-- The path under which a directory is being read, in `cur_read_dirs`.
unfoldable pub find_reading : ℕ → List (ℕ × Bytes) → Option Bytes
find_reading n [] = none
find_reading n ((m, path) ∷ dirs) = if m == n then some path else find_reading n dirs

-- `erase` of a set of paths.
unfoldable pub without : Bytes → List Bytes → List Bytes
without path [] = []
without path (p ∷ paths) = if text_eq p path then without path paths else p ∷ without path paths

module _ (fnmatch : Bytes → Bytes → Bool) where
  -- A condition that may be missing: what a missing one counts as is the first argument.
  abbrev pub holds : Bool → Option FindCond → Bytes → EntryType → Bool
  holds otherwise none path type = otherwise
  holds otherwise (some c) path type = is_true fnmatch c path type

  -- `PrintIfNecessary`.
  unfoldable pub print_if_necessary : FindCommand → Bytes → EntryType → ℕ → Walk → Walk
  unfolding is_true
  print_if_necessary fc path type d w =
      if not (holds true fc.print_cond path type)
      then w
      else if ltb d fc.mindepth
      then w
      else record w { out = w.out ++ path ∷ [] }

-- A loop over the children that are to be visited now.
unfoldable pub run_children :
    (ℕ → Bytes → Walk → Found) → (ℕ → Bool) → (ℕ → Bytes) → Bytes → List (Bytes × ℕ) → Walk → Found
unfolding path_of
run_children run accept base_of path [] w = found w
run_children run accept base_of path ((name, c) ∷ children) w = elim (accept c) [
  | false ↦ run_children run accept base_of path children w
  | true ↦ elim (run c (path_of path (base_of c)) w) [
    | found w' ↦ run_children run accept base_of path children w'
    | unsupported ↦ unsupported
    | out_of_fuel ↦ out_of_fuel
  ]
]

module _ (nodes : List Node) where
  -- `IsDirectory`; a link costs a unit of fuel, and where it runs out, in a chain of links that is
  -- longer or has no end, the answer is no.
  unfoldable pub is_directory : ℕ → ℕ → Bool
  is_directory zero n = false
  is_directory (suc f) n = elim (get_elem? nodes n) [
    | none ↦ false
    | some (dir_node name parent children) ↦ true
    | some (file_node name type) ↦ false
    | some (symlink_node name errno to) ↦ elim to [
      | none ↦ false
      | some m ↦ errno == 0 && is_directory f m
    ]
  ]

  abbrev pub base_of : ℕ → Bytes
  base_of n = elim (get_elem? nodes n) [ none ↦ [] | some node ↦ base node ]

-- The end of a directory of `FINDLEAVES` in which something was found: if all that the command can
-- find there was found, the directory need not be read again, but the files have to be there.
unfoldable pub leaf_found : FindCommand → Bytes → ℕ → Walk → Walk
unfolding countable count without
leaf_found fc path orig_out_size w = elim fc.print_cond [
  | none ↦ w
  | some c ↦
      if countable c && count c == length w.out - orig_out_size
      then record w {
        read_dirs = without path w.read_dirs;
        found_files = w.found_files ++ drop orig_out_size w.out;
      }
      else w
]

module _ (fnmatch : Bytes → Bytes → Bool) (nodes : List Node) where
  -- The children of a directory: the files before the directories for `FINDLEAVES`.
  unfoldable pub run_dir :
      ℕ → (ℕ → Bytes → Walk → Found) → FindCommand → Bytes → List (Bytes × ℕ) → Walk → Found
  unfolding run_children leaf_found
  run_dir f run fc path children w =
      let dirs = is_directory nodes f in
      if not (is_findleaves fc.type)
      then run_children run (λ c. true) (base_of nodes) path children w
      else (elim (run_children run (λ c. not (dirs c)) (base_of nodes) path children w) [
        | unsupported ↦ unsupported
        | out_of_fuel ↦ out_of_fuel
        | found w' ↦ elim (length w'.out == length w.out) [
          | false ↦ found (leaf_found fc path (length w.out) w')
          | true ↦ run_children run dirs (base_of nodes) path children w'
        ]
      ])

  -- `RunFind` of a symbolic link; `run` is the walk of what it leads to.
  unfoldable pub run_symlink :
      (ℕ → Bytes → Walk → Found) → FindCommand → ℕ → Bytes → ℕ → Option ℕ → Walk → Found
  unfolding print_if_necessary
  run_symlink run fc d path errno to w = elim (fc.follows_symlinks && not (errno == enoent)) [
    | false ↦ found (print_if_necessary fnmatch fc path lnk d w)
    | true ↦ elim (errno == 0) [
      | false ↦ found w
      | true ↦ elim to [ none ↦ unsupported | some m ↦ run m path w ]
    ]
  ]

  -- `RunFind` of a directory that is not being read already; `run` is the walk of a child.
  unfoldable pub run_directory :
      ℕ → (ℕ → Bytes → Walk → Found) → FindCommand → ℕ → Bytes → List (Bytes × ℕ) → Walk → Found
  unfolding print_if_necessary run_dir is_true
  run_directory f run fc d path children w =
      let w' = record w { read_dirs = path ∷ without path w.read_dirs } in
      let printed = print_if_necessary fnmatch fc path dir d w' in
      elim (holds fnmatch false fc.prune_cond path dir) [
        | true ↦ elim (is_findleaves fc.type) [
          | true ↦ found w'
          | false ↦ found (record w' { out = w'.out ++ path ∷ [] })
        ]
        | false ↦ elim (leb fc.depth d) [
          | true ↦ found printed
          | false ↦ run_dir f run fc path children printed
        ]
      ]

  -- Whether a directory can be read: it is not being read, or under the empty path.
  abbrev pub is_fresh : Option Bytes → Bool
  is_fresh none = true
  is_fresh (some path) = length path == 0

  abbrev pub reading : ℕ → Bytes → Option Bytes → List (ℕ × Bytes) → List (ℕ × Bytes)
  reading n path none dirs = (n, path) ∷ dirs
  reading n path (some p) dirs = dirs

  -- `RunFind`; `run` is the walk of another entry, at a depth and with the directories that are being
  -- read.
  unfoldable pub run_node :
      ℕ
      → (ℕ → List (ℕ × Bytes) → ℕ → Bytes → Walk → Found)
      → FindCommand
      → ℕ
      → List (ℕ × Bytes)
      → ℕ
      → Bytes
      → Option Node
      → Walk
      → Found
  unfolding run_symlink run_directory find_reading
  run_node f run fc d dirs n path none w = unsupported
  run_node f run fc d dirs n path (some (file_node name type)) w =
      found (print_if_necessary fnmatch fc path type d w)
  run_node f run fc d dirs n path (some (symlink_node name errno to)) w =
      run_symlink (run d dirs) fc d path errno to w
  run_node f run fc d dirs n path (some (dir_node name parent children)) w =
      let conflict = find_reading n dirs in
      elim (is_fresh conflict) [
        | false ↦ found w
        | true ↦ run_directory f (run (d + 1) (reading n path conflict dirs)) fc d path children w
      ]

  unfoldable pub run_find : ℕ → FindCommand → ℕ → List (ℕ × Bytes) → ℕ → Bytes → Walk → Found
  unfolding run_node
  run_find zero fc d cur_read_dirs n path w = out_of_fuel
  run_find (suc f) fc d cur_read_dirs n path w =
      run_node f (run_find f fc) fc d cur_read_dirs n path (get_elem? nodes n) w
