-- ===== src/Find/Ends.antt =====
-- The end of `RunFind` of src/find.cc, over a tree with symbolic links.
use kati.Prelude.{
  ℕ, zero, suc, ◌+◌, ◌<◌, ◌≡◌, ◌≢◌, ◌⊎◌, inl, inr, Bool, true, false, not, ◌&&◌, Option, none, some,
  List, [], ◌∷◌, arith, Bytes, length, get_elem?, All, leb, ◌==◌,
}
use kati.Find.{
  FindCommand, dir, is_findleaves, Node, dir_node, file_node, symlink_node, Walk, Found, found,
  unsupported, out_of_fuel, enoent,
}
use kati.Find.Cases.{after_run, after_test, choose}
use kati.Find.Run.{
  path_of, find_reading, holds, run_children, is_directory, base_of, run_dir, run_find, run_symlink,
  run_directory, run_node, is_fresh,
}

-- A walk that has not run out of fuel.
abbrev Ended : Found → Type 0
Ended (found w) = Unit {0}
Ended unsupported = Unit {0}
Ended out_of_fuel = ⊥

-- A walk of any entry whose rank is below the fuel comes to an end.
abbrev EndsBelow : (ℕ → ℕ) → ℕ → (ℕ → Bytes → Walk → Found) → Type 0
EndsBelow rank f run = (n : ℕ) (p : Bytes) (v : Walk) → rank n < f → Ended (run n p v)

-- Where a walk goes on from an entry of rank `r`, the rank falls: at the children of a directory,
-- and at the end of a link if links are followed.
abbrev pub GoesDown : Bool → (ℕ → ℕ) → ℕ → Option Node → Type 0
GoesDown follows rank r none = Unit {0}
GoesDown follows rank r (some (file_node name type)) = Unit {0}
GoesDown follows rank r (some (dir_node name parent children)) = All (λ e. rank e.1 < r) children
GoesDown follows rank r (some (symlink_node name errno none)) = Unit {0}
GoesDown follows rank r (some (symlink_node name errno (some m))) = (follows ≡ false) ⊎ (rank m < r)

run_children-Ended :
    (rank : ℕ → ℕ) (f : ℕ) (run : ℕ → Bytes → Walk → Found) (accept : ℕ → Bool)
    (base_of : ℕ → Bytes) (path : Bytes) (children : List (Bytes × ℕ)) (w : Walk)
    → EndsBelow rank f run
    → All (λ e. rank e.1 < f) children
    → Ended (run_children run accept base_of path children w)
unfolding run_children
run_children-Ended rank f run accept base_of path [] w g h = tt
run_children-Ended rank f run accept base_of path ((name, c) ∷ children) w g h =
    let rest = λ (v : Walk). run_children-Ended rank f run accept base_of path children v g h.1 in
    after_test Ended (accept c) _ _
      (λ _. after_run Ended (run c (path_of path (base_of c)) w) _ (g c _ w h.0) (λ v _. rest v))
      (λ _. rest w)

module _ (fnmatch : Bytes → Bytes → Bool) (nodes : List Node) (fc : FindCommand)
    (rank : ℕ → ℕ) where
  run_dir-Ended :
      (f k : ℕ) (run : ℕ → Bytes → Walk → Found) (path : Bytes) (children : List (Bytes × ℕ))
      (w : Walk)
      → EndsBelow rank f run
      → All (λ e. rank e.1 < f) children
      → Ended (run_dir fnmatch nodes k run fc path children w)
  unfolding run_dir
  run_dir-Ended f k run path children w g h =
      let all = λ (accept : ℕ → Bool) (v : Walk).
        run_children-Ended rank f run accept (base_of nodes) path children v g h in
      choose Ended (is_findleaves fc.type) _ _
        (after_run Ended
          (run_children run (λ c. not (is_directory nodes k c)) (base_of nodes) path children w) _
          (all (λ c. not (is_directory nodes k c)) w)
          (λ w' _.
            after_test Ended (length w'.out == length w.out) _ _
              (λ _. all (is_directory nodes k) w') (λ _. tt)))
        (all (λ c. true) w)

  run_symlink-Ended :
      (f : ℕ) (run : ℕ → Bytes → Walk → Found) (d : ℕ) (path name : Bytes) (errno : ℕ)
      (to : Option ℕ) (w : Walk)
      → EndsBelow rank f run
      → GoesDown fc.follows_symlinks rank f (some (symlink_node name errno to))
      → Ended (run_symlink fnmatch nodes run fc d path errno to w)
  unfolding run_symlink
  run_symlink-Ended f run d path name errno to w g h =
      after_test Ended (fc.follows_symlinks && not (errno == enoent)) _ _
        (λ e. after_test Ended (errno == 0) _ _ (λ _. followed to h (ground arith)) (λ _. tt))
        (λ _. tt)
    where
      followed :
          (o : Option ℕ)
          → GoesDown fc.follows_symlinks rank f (some (symlink_node name errno o))
          → fc.follows_symlinks ≡ true
          → Ended (elim o [ none ↦ unsupported | some m ↦ run m path w ])
      followed none k e = tt
      followed (some m) (inl no_link) e = absurd (cc)
      followed (some m) (inr lower) e = g m path w lower

  run_directory-Ended :
      (f k : ℕ) (run : ℕ → Bytes → Walk → Found) (d : ℕ) (path : Bytes)
      (children : List (Bytes × ℕ)) (w : Walk)
      → EndsBelow rank f run
      → All (λ e. rank e.1 < f) children
      → Ended (run_directory fnmatch nodes k run fc d path children w)
  unfolding run_directory
  run_directory-Ended f k run d path children w g h =
      after_test Ended (holds fnmatch false fc.prune_cond path dir) _ _
        (λ _. after_test Ended (is_findleaves fc.type) _ _ (λ _. tt) (λ _. tt))
        (λ _.
          after_test Ended (leb fc.depth d) _ _ (λ _. tt)
            (λ _. run_dir-Ended f k run path children _ g h))

  run_node-Ended :
      (f k : ℕ) (run : ℕ → List (ℕ × Bytes) → ℕ → Bytes → Walk → Found) (d : ℕ)
      (dirs : List (ℕ × Bytes)) (n : ℕ) (path : Bytes) (o : Option Node) (w : Walk)
      → ((d' : ℕ) (dirs' : List (ℕ × Bytes)) → EndsBelow rank f (run d' dirs'))
      → GoesDown fc.follows_symlinks rank f o
      → Ended (run_node fnmatch nodes k run fc d dirs n path o w)
  unfolding run_node
  run_node-Ended f k run d dirs n path none w g h = tt
  run_node-Ended f k run d dirs n path (some (file_node name type)) w g h = tt
  run_node-Ended f k run d dirs n path (some (symlink_node name errno to)) w g h =
      run_symlink-Ended f (run d dirs) d path name errno to w (g d dirs) h
  run_node-Ended f k run d dirs n path (some (dir_node name parent children)) w g h =
      after_test Ended (is_fresh fnmatch nodes (find_reading n dirs)) _ _
        (λ _. run_directory-Ended f k _ d path children w (g (d + 1) _) h) (λ _. tt)

  Rank-le :
      (r s : ℕ) (o : Option Node)
      → r < suc s
      → GoesDown fc.follows_symlinks rank r o
      → GoesDown fc.follows_symlinks rank s o
  Rank-le r s none h g = tt
  Rank-le r s (some (file_node name type)) h g = tt
  Rank-le r s (some (dir_node name parent children)) h g = below children g
    where
      below : (es : List (Bytes × ℕ)) → All (λ e. rank e.1 < r) es → All (λ e. rank e.1 < s) es
      below [] k = tt
      below (e ∷ es) k = (omega (arith, k.0), below es k.1)
  Rank-le r s (some (symlink_node name errno none)) h g = tt
  Rank-le r s (some (symlink_node name errno (some m))) h (inl no_link) = inl no_link
  Rank-le r s (some (symlink_node name errno (some m))) h (inr lower) = inr (omega arith)

  run_find-Ended :
      ((n : ℕ) → GoesDown fc.follows_symlinks rank (rank n) (get_elem? nodes n))
      → (f d : ℕ) (cur_read_dirs : List (ℕ × Bytes)) (n : ℕ) (path : Bytes) (w : Walk) → rank n < f
      → Ended (run_find fnmatch nodes f fc d cur_read_dirs n path w)
  unfolding run_find
  run_find-Ended down zero d cur n path w h = elim h [ ]
  run_find-Ended down (suc f) d cur n path w h =
      run_node-Ended f f (run_find fnmatch nodes f fc) d cur n path (get_elem? nodes n) w
        (λ d' cur' m p v k. run_find-Ended down f d' cur' m p v k)
        (Rank-le (rank n) f (get_elem? nodes n) h (down n))

Ended-ne : (r : Found) → Ended r → r ≢ out_of_fuel
Ended-ne (found w) h e = cc
Ended-ne unsupported h e = cc
Ended-ne out_of_fuel h e = h

-- In a tree without cycles `RunFind` comes to an end: if some rank of the entries falls from each
-- directory to its children and, where the command follows symbolic links, from each link to what it
-- leads to, then fuel above the rank of the first entry never runs out. So it is at every depth,
-- whatever directories are being read and whatever the command asks for.
pub run_find-ends :
    (fnmatch : Bytes → Bytes → Bool) (nodes : List Node) (fc : FindCommand) (rank : ℕ → ℕ)
    → ((n : ℕ) → GoesDown fc.follows_symlinks rank (rank n) (get_elem? nodes n))
    → (f d : ℕ) (cur_read_dirs : List (ℕ × Bytes)) (n : ℕ) (path : Bytes) (w : Walk) → rank n < f
    → run_find fnmatch nodes f fc d cur_read_dirs n path w ≢ out_of_fuel
run_find-ends fnmatch nodes fc rank down f d cur n path w h =
    Ended-ne _ (run_find-Ended fnmatch nodes fc rank down f d cur n path w h)
