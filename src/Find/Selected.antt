-- ===== src/Find/Selected.antt =====
-- What `RunFind` of src/find.cc prints, and of which entries.
use kati.Prelude.{
  ℕ, zero, suc, ◌+◌, ◌≤◌, ◌≡◌, refl, ap, sym, subst, Bool, true, false, not, ◌&&◌, ◌⊎◌, inl, inr,
  Option, none, some, List, [], ◌∷◌, arith, Bytes, length, get_elem?, All, All-append, leb, ltb,
  ◌==◌, Bool-cases,
}
use kati.Find.{
  EntryType, dir, lnk, FindCommand, is_findleaves, Node, dir_node, file_node, symlink_node, Walk,
  Found, found, unsupported, out_of_fuel, enoent,
}
use kati.Find.Reached.{All-Among, Reached, type_of}
use kati.Find.Cases.{after_run, after_test, choose}
use kati.Find.Run.{
  path_of, find_reading, without, holds, print_if_necessary, run_children, is_directory, base_of,
  leaf_found, run_dir, run_find, run_symlink, run_directory, run_node, is_fresh,
}

module _ (fnmatch : Bytes → Bytes → Bool) (nodes : List Node) (fc : FindCommand) (d0 n0 : ℕ)
    (p0 : Bytes) where
  abbrev At : ℕ → ℕ → Bytes → Type 0
  At d n path = Reached fnmatch nodes fc d0 n0 p0 d n path × (d ≤ fc.depth)

  -- A path that the command selects is that of an entry which is not too deep. The print condition
  -- holds of the path with the type of the entry, which is deep enough, or the entry is a directory
  -- that the prune condition cuts off, which only `find` prints.
  abbrev pub IsSelected : Bytes → Type 0
  IsSelected path =
      (d : ℕ) × (n : ℕ) × (t : EntryType) × Reached fnmatch nodes fc d0 n0 p0 d n path
      × (d ≤ fc.depth)
      × (type_of (get_elem? nodes n) ≡ some t)
      × (((holds fnmatch true fc.print_cond path t ≡ true) × (fc.mindepth ≤ d))
          ⊎ ((t ≡ dir)
              × (holds fnmatch false fc.prune_cond path dir ≡ true)
              × (is_findleaves fc.type ≡ false)))

  -- All that a walk has printed is selected.
  abbrev pub IsSound : Walk → Type 0
  IsSound w = All IsSelected w.out

  abbrev pub FoundSound : Found → Type 0
  FoundSound (found w) = IsSound w
  FoundSound unsupported = Unit {0}
  FoundSound out_of_fuel = Unit {0}

  -- The walk of an entry at a depth under a path keeps this.
  abbrev Keeps : (Walk → Found) → Type 0
  Keeps run = (w : Walk) → IsSound w → FoundSound (run w)

  print_if_necessary-IsSound :
      (path : Bytes) (t : EntryType) (d n : ℕ) (w : Walk)
      → At d n path
      → type_of (get_elem? nodes n) ≡ some t
      → IsSound w
      → IsSound (print_if_necessary fnmatch fc path t d w)
  unfolding print_if_necessary
  print_if_necessary-IsSound path t d n w at e h =
      elim (Bool-cases (holds fnmatch true fc.print_cond path t)) [
        | inr c ↦ rw c h
        | inl c ↦ elim (Bool-cases (ltb d fc.mindepth)) [
          | inl l ↦ rw (c, l) h
          | inr l ↦
              let deep : fc.mindepth ≤ d = ground arith in
              rw (c, l)
                (All-append IsSelected w.out (path ∷ []) h
                  ((d, n, t, at.0, at.1, e, inl (c, deep)), tt))
        ]
      ]

  run_children-Sound :
      (run : ℕ → Bytes → Walk → Found) (accept : ℕ → Bool) (base : ℕ → Bytes) (path : Bytes)
      (children : List (Bytes × ℕ)) (w : Walk)
      → All (λ (e : Bytes × ℕ). Keeps (run e.1 (path_of path (base e.1)))) children
      → IsSound w
      → FoundSound (run_children run accept base path children w)
  unfolding run_children
  run_children-Sound run accept base path [] w g h = h
  run_children-Sound run accept base path ((name, c) ∷ children) w g h =
      after_test FoundSound (accept c) _ _
        (λ _.
          after_run FoundSound (run c (path_of path (base c)) w) _ (g.0 w h)
            (λ w' h'. run_children-Sound run accept base path children w' g.1 h'))
        (λ _. run_children-Sound run accept base path children w g.1 h)

  leaf_found-out : (path : Bytes) (n : ℕ) (w : Walk) → (leaf_found fc path n w).out ≡ w.out
  unfolding leaf_found
  leaf_found-out path n w = ground arith

  run_dir-Sound :
      (f : ℕ) (run : ℕ → Bytes → Walk → Found) (path : Bytes) (children : List (Bytes × ℕ))
      (w : Walk)
      → All (λ (e : Bytes × ℕ). Keeps (run e.1 (path_of path (base_of nodes e.1)))) children
      → IsSound w
      → FoundSound (run_dir fnmatch nodes f run fc path children w)
  unfolding run_dir
  run_dir-Sound f run path children w g h =
      let all = λ (accept : ℕ → Bool) (v : Walk) (k : IsSound v).
        run_children-Sound run accept (base_of nodes) path children v g k in
      choose FoundSound (is_findleaves fc.type) _ _
        (after_run FoundSound
          (run_children run (λ c. not (is_directory nodes f c)) (base_of nodes) path children w) _
          (all (λ c. not (is_directory nodes f c)) w h)
          (λ w' h'.
            after_test FoundSound (length w'.out == length w.out) _ _
              (λ _. all (is_directory nodes f) w' h')
              (λ _.
                subst (λ o. All IsSelected o) (sym (leaf_found-out path (length w.out) w')) h')))
        (all (λ c. true) w h)

  run_symlink-Sound :
      (run : ℕ → Bytes → Walk → Found) (d n : ℕ) (path name : Bytes) (errno : ℕ) (to : Option ℕ)
      (w : Walk)
      → ((m : ℕ) → At d m path → Keeps (run m path))
      → At d n path
      → get_elem? nodes n ≡ some (symlink_node name errno to)
      → IsSound w
      → FoundSound (run_symlink fnmatch nodes run fc d path errno to w)
  unfolding run_symlink
  run_symlink-Sound run d n path name errno to w g at e h =
      after_test FoundSound (fc.follows_symlinks && not (errno == enoent)) _ _
        (λ b.
          let follows : fc.follows_symlinks ≡ true = ground arith in
          after_test FoundSound (errno == 0) _ _ (λ _. followed follows to e) (λ _. h))
        (λ _. print_if_necessary-IsSound path lnk d n w at (ap type_of e) h)
    where
      followed :
          fc.follows_symlinks ≡ true
          → (o : Option ℕ) → get_elem? nodes n ≡ some (symlink_node name errno o)
          → FoundSound (elim o [ none ↦ unsupported | some m ↦ run m path w ])
      followed b none q = tt
      followed b (some m) q = g m (Reached.linked m at.0 q b, at.1) w h

  run_directory-Sound :
      (f : ℕ) (run : ℕ → Bytes → Walk → Found) (d n : ℕ) (path name : Bytes) (parent : Option ℕ)
      (children : List (Bytes × ℕ)) (w : Walk)
      → ((m : ℕ) (p : Bytes) → At (d + 1) m p → Keeps (run m p))
      → At d n path
      → get_elem? nodes n ≡ some (dir_node name parent children)
      → IsSound w
      → FoundSound (run_directory fnmatch nodes f run fc d path children w)
  unfolding run_directory
  run_directory-Sound f run d n path name parent children w g at e h =
      let w' = record w { read_dirs = path ∷ without path w.read_dirs } in
      let type : type_of (get_elem? nodes n) ≡ some dir = ap type_of e in
      let printed = print_if_necessary-IsSound path dir d n w' at type h in
      after_test FoundSound (holds fnmatch false fc.prune_cond path dir) _ _
        (λ p.
          after_test FoundSound (is_findleaves fc.type) _ _ (λ _. h)
            (λ q.
              All-append IsSelected w.out (path ∷ []) h
                ((d, n, dir, at.0, at.1, type, inr (refl, p, q)), tt)))
        (λ uncut.
          after_test FoundSound (leb fc.depth d) _ _ (λ _. printed)
            (λ less.
              let deeper : d + 1 ≤ fc.depth = ground arith in
              run_dir-Sound f run path children _
                (All-Among _ children
                  (λ c among. g c.1 _ (Reached.child c at.0 e uncut among, deeper)))
                printed))

  run_node-Sound :
      (f : ℕ) (run : ℕ → List (ℕ × Bytes) → ℕ → Bytes → Walk → Found) (d : ℕ)
      (dirs : List (ℕ × Bytes)) (n : ℕ) (path : Bytes) (o : Option Node) (w : Walk)
      → ((d' : ℕ) (dirs' : List (ℕ × Bytes)) (m : ℕ) (p : Bytes)
          → At d' m p
          → Keeps (run d' dirs' m p))
      → At d n path
      → get_elem? nodes n ≡ o
      → IsSound w
      → FoundSound (run_node fnmatch nodes f run fc d dirs n path o w)
  unfolding run_node
  run_node-Sound f run d dirs n path none w g at e h = tt
  run_node-Sound f run d dirs n path (some (file_node name type)) w g at e h =
      print_if_necessary-IsSound path type d n w at (ap type_of e) h
  run_node-Sound f run d dirs n path (some (symlink_node name errno to)) w g at e h =
      run_symlink-Sound (run d dirs) d n path name errno to w (λ m a. g d dirs m path a) at e h
  run_node-Sound f run d dirs n path (some (dir_node name parent children)) w g at e h =
      after_test FoundSound (is_fresh fnmatch nodes (find_reading n dirs)) _ _
        (λ _. run_directory-Sound f _ d n path name parent children w (g (d + 1) _) at e h) (λ _. h)

  run_find-IsSound :
      (f d : ℕ) (cur_read_dirs : List (ℕ × Bytes)) (n : ℕ) (path : Bytes)
      → At d n path
      → Keeps (run_find fnmatch nodes f fc d cur_read_dirs n path)
  unfolding run_find
  run_find-IsSound zero d cur n path at w h = tt
  run_find-IsSound (suc f) d cur n path at w h =
      run_node-Sound f (run_find fnmatch nodes f fc) d cur n path (get_elem? nodes n) w
        (λ d' cur' m p a. run_find-IsSound f d' cur' m p a) at refl h

-- Whatever the tree, each path that `RunFind` prints is that of an entry which can be reached under it,
-- through directories that the command does not prune and, where it follows them, through links, and
-- which is not deeper than `-maxdepth`. The entry is at least as deep as `-mindepth` and the print condition holds of the path
-- with the type of the entry, or there is none; or the entry is a directory that the prune condition
-- cuts off, for `find`. So it is after every walk that does not fail and begins with nothing printed,
-- at a depth that is not too deep.
pub run_find-Sound :
    (fnmatch : Bytes → Bytes → Bool) (nodes : List Node) (fc : FindCommand) (f d : ℕ)
    (cur_read_dirs : List (ℕ × Bytes)) (n : ℕ) (path : Bytes) (w : Walk)
    → d ≤ fc.depth
    → w.out ≡ []
    → FoundSound fnmatch nodes fc d n path (run_find fnmatch nodes f fc d cur_read_dirs n path w)
run_find-Sound fnmatch nodes fc f d cur n path w le e =
    run_find-IsSound fnmatch nodes fc d n path f d cur n path (Reached.start, le) w
      (subst (λ (o : List Bytes). All (IsSelected fnmatch nodes fc d n path) o) (sym e) tt)
