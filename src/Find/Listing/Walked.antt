-- ===== src/Find/Listing/Walked.antt =====
-- What `RunFind` of src/find.cc prints of a tree that is stored.
use kati.Prelude.{
  ℕ, zero, suc, ◌+◌, ◌≤◌, ◌≡◌, refl, sym, Bool, true, false, Option, none, some, List, [], ◌∷◌,
  ◌++◌, append-nil, arith, Bytes, leb,
}
use kati.Find.{FindCommand, lnk, is_findleaves, Node, dir_node, Walk, Found}
use kati.Find.Run.{
  path_of, find_reading, run_children, base_of, run_find, run_directory, run_node, run_symlink,
}
use kati.Find.Listing.{
  Tree, leaf, link, branch, label, Forest, nil, cons, size, size_all, Stores, StoresAll, entries,
  entries_all, listed, listed-append, listing,
}
use kati.Find.Listing.Stored.{IsAbove, IsAbove-mono, find_reading-IsAbove, base_of-label}
use kati.Find.Listing.Directory.{Adds, after_run, printed, below, run_directory-Adds}

module _ (fnmatch : Bytes → Bytes → Bool) (nodes : List Node) (fc : FindCommand) where
  run_children-cons :
      (run : ℕ → Bytes → Walk → Found) (base_of : ℕ → Bytes) (path key : Bytes) (c : ℕ)
      (children : List (Bytes × ℕ)) (w : Walk) (xs ys : List Bytes)
      → Adds w xs (run c (path_of path (base_of c)) w)
      → ((v : Walk) → Adds v ys (run_children run (λ c. true) base_of path children v))
      → Adds w (xs ++ ys) (run_children run (λ c. true) base_of path ((key, c) ∷ children) w)
  unfolding run_children
  run_children-cons run base_of path key c children w xs ys h g =
      after_run w xs ys (run c (path_of path (base_of c)) w) _ h g

  run_children-nil :
      (run : ℕ → Bytes → Walk → Found) (base_of : ℕ → Bytes) (path : Bytes) (w : Walk)
      → Adds w [] (run_children run (λ c. true) base_of path [] w)
  unfolding run_children
  run_children-nil run base_of path w = sym (append-nil w.out)

  run_node-fresh :
      (f : ℕ) (run : ℕ → List (ℕ × Bytes) → ℕ → Bytes → Walk → Found) (d : ℕ)
      (dirs : List (ℕ × Bytes)) (n : ℕ) (path name : Bytes) (parent : Option ℕ)
      (children : List (Bytes × ℕ)) (w : Walk)
      → find_reading n dirs ≡ none
      → run_node fnmatch nodes f run fc d dirs n path (some (dir_node name parent children)) w
        ≡ run_directory fnmatch nodes f (run (d + 1) ((n, path) ∷ dirs)) fc d path children w
  unfolding run_node
  run_node-fresh f run d dirs n path name parent children w e = cc

  mutual
    unfolding run_find run_node Stores size listing run_symlink below

    run_find-Adds :
        (t : Tree) (f d : ℕ) (dirs : List (ℕ × Bytes)) (n : ℕ) (path : Bytes) (w : Walk)
        → is_findleaves fc.type ≡ false
        → fc.follows_symlinks ≡ false
        → Stores nodes t n
        → IsAbove nodes (size t) dirs
        → leb d fc.depth ≡ true
        → size t ≤ f
        → Adds w (listing fnmatch fc d path t) (run_find fnmatch nodes f fc d dirs n path w)
    run_find-Adds (leaf name type) zero d dirs n path w plain still st above h fuel =
        absurd (omega arith)
    run_find-Adds (link name errno to) zero d dirs n path w plain still st above h fuel =
        absurd (omega arith)
    run_find-Adds (branch name kids) zero d dirs n path w plain still st above h fuel =
        absurd (omega arith)
    run_find-Adds (leaf name type) (suc f) d dirs n path w plain still st above h fuel =
        rw st (printed fnmatch nodes fc d path type false w h refl)
    run_find-Adds (link name errno to) (suc f) d dirs n path w plain still st above h fuel =
        rw (st, still) (printed fnmatch nodes fc d path lnk false w h refl)
    run_find-Adds (branch name kids) (suc f) d dirs n path w plain still st above h fuel =
        let (parent, children, e, stored) = st in
        rw
          (
            e,
            run_node-fresh f (run_find fnmatch nodes f fc) d dirs n path name parent children w
                (find_reading-IsAbove nodes (branch name kids) n dirs st above),
          )
          (run_directory-Adds fnmatch nodes fc f
            (run_find fnmatch nodes f fc (d + 1) ((n, path) ∷ dirs)) d path name kids children w
            plain h
            (λ deeper v.
              run_children-Adds kids f (d + 1) ((n, path) ∷ dirs) children path v plain still stored
                (
                  (branch name kids, st, omega arith),
                  IsAbove-mono nodes (size_all kids) (size (branch name kids)) dirs (omega arith)
                      above,
                )
                deeper (omega arith)))

    run_children-Adds :
        (ts : Forest) (f d : ℕ) (dirs : List (ℕ × Bytes)) (children : List (Bytes × ℕ))
        (path : Bytes) (w : Walk)
        → is_findleaves fc.type ≡ false
        → fc.follows_symlinks ≡ false
        → StoresAll nodes ts children
        → IsAbove nodes (size_all ts) dirs
        → leb d fc.depth ≡ true
        → size_all ts ≤ f
        → Adds w (listed fnmatch fc (entries_all fnmatch fc d false path ts)) (
            run_children
              (run_find fnmatch nodes f fc d dirs)
              (λ c. true)
              (base_of nodes)
              path
              children
              w)
    run_children-Adds nil f d dirs [] path w plain still st above h fuel =
        run_children-nil (run_find fnmatch nodes f fc d dirs) (base_of nodes) path w
    run_children-Adds nil f d dirs (e ∷ children) path w plain still st above h fuel = absurd st
    run_children-Adds (cons t ts) f d dirs [] path w plain still st above h fuel = absurd st
    run_children-Adds (cons t ts) f d dirs ((key, c) ∷ children) path w plain still st above h
          fuel =
        rw
          (listed-append fnmatch fc (entries fnmatch fc d false (path_of path (label t)) t)
            (entries_all fnmatch fc d false path ts))
          (run_children-cons (run_find fnmatch nodes f fc d dirs) (base_of nodes) path key c
            children w _ _
            (rw (base_of-label nodes t c st.0) (
              run_find-Adds t f d dirs c (path_of path (label t)) w plain still st.0
                (IsAbove-mono nodes (size t) (size_all (cons t ts)) dirs (omega arith) above) h
                (omega arith)))
            (λ v.
              run_children-Adds ts f d dirs children path v plain still st.1
                (IsAbove-mono nodes (size_all ts) (size_all (cons t ts)) dirs (omega arith) above) h
                (omega arith)))

-- `find` prints exactly what it should: run over a stored tree, in which links are not followed and
-- with fuel for its entries, `RunFind` comes to an end and appends to its results the paths of the
-- entries of the tree, each directory before what it holds, that are not below a pruned directory,
-- are at most as deep as the command goes, and of which the print condition holds at its least depth
-- or below, or which are pruned directories. It takes no directory for one that is being read.
pub run_find-listing :
    (fnmatch : Bytes → Bytes → Bool) (nodes : List Node) (fc : FindCommand) (t : Tree) (f n : ℕ)
    (path : Bytes) (w : Walk)
    → is_findleaves fc.type ≡ false
    → fc.follows_symlinks ≡ false
    → Stores nodes t n
    → size t ≤ f
    → Adds w (listing fnmatch fc 0 path t) (run_find fnmatch nodes f fc 0 [] n path w)
run_find-listing fnmatch nodes fc t f n path w plain still st fuel =
    run_find-Adds fnmatch nodes fc t f 0 [] n path w plain still st tt (ground arith) fuel
