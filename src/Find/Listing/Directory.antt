-- ===== src/Find/Listing/Directory.antt =====
-- A directory of a tree that is stored, in `RunFind` of src/find.cc.
use kati.Prelude.{
  ℕ, ◌+◌, ◌≡◌, refl, ap, ◌∙◌, Bool, true, false, not, ◌&&◌, List, [], ◌∷◌, ◌++◌, append-nil,
  append_assoc, arith, Bytes, leb,
}
use kati.Find.{
  EntryType, FindCommand, dir, is_findleaves, Node, Walk, Found, found, unsupported, out_of_fuel,
}
use kati.Find.Cases.{after_test}
use kati.Find.Run.{without, print_if_necessary, run_children, base_of, run_dir, run_directory}
use kati.Find.Listing.{
  branch, Forest, is_pruned, entries_all, listed, listed-append, listed-entries_all, listing,
}

-- A walk that ends and prints the given paths.
abbrev pub Adds : Walk → List Bytes → Found → Type 0
Adds w paths (found w') = w'.out ≡ w.out ++ paths
Adds w paths unsupported = ⊥
Adds w paths out_of_fuel = ⊥

Adds-behind :
    (w v : Walk) (xs ys : List Bytes) (r : Found)
    → v.out ≡ w.out ++ xs
    → Adds v ys r
    → Adds w (xs ++ ys) r
Adds-behind w v xs ys (found u) e h =
    h ∙ ap (λ (o : List Bytes). o ++ ys) e ∙ append_assoc w.out xs ys
Adds-behind w v xs ys unsupported e h = h
Adds-behind w v xs ys out_of_fuel e h = h

pub after_run :
    (w : Walk) (xs ys : List Bytes) (r : Found) (k : Walk → Found)
    → Adds w xs r
    → ((v : Walk) → Adds v ys (k v))
    → Adds w
        (xs ++ ys)
        (elim r [ found v ↦ k v | unsupported ↦ unsupported | out_of_fuel ↦ out_of_fuel ])
after_run w xs ys (found v) k h g = Adds-behind w v xs ys (k v) h (g v)
after_run w xs ys unsupported k h g = h
after_run w xs ys out_of_fuel k h g = h

module _ (fnmatch : Bytes → Bytes → Bool) (nodes : List Node) (fc : FindCommand) where
  -- An entry that is not pruned is printed if it is listed.
  pub printed :
      (d : ℕ) (path : Bytes) (t : EntryType) (directory : Bool) (w : Walk)
      → leb d fc.depth ≡ true
      → (directory && is_pruned fnmatch fc path) ≡ false
      → Adds w
          (listed fnmatch fc
            (record { depth = d; path = path; type = t; directory = directory; cut = false } ∷ []))
          (found (print_if_necessary fnmatch fc path t d w))
  unfolding print_if_necessary listed
  printed d path t directory w h e = ground (arith, append-nil w.out)

  run_dir-plain :
      (f : ℕ) (run : ℕ → Bytes → Walk → Found) (path : Bytes) (children : List (Bytes × ℕ))
      (w : Walk)
      → is_findleaves fc.type ≡ false
      → run_dir fnmatch nodes f run fc path children w
        ≡ run_children run (λ c. true) (base_of nodes) path children w
  unfolding run_dir
  run_dir-plain f run path children w e = rw e

  -- A directory that is listed, before what it holds.
  abbrev own : ℕ → Bytes → List Bytes
  own d path =
      listed fnmatch fc
        (record { depth = d; path = path; type = dir; directory = true; cut = false } ∷ [])

  own-pruned :
      (d : ℕ) (path : Bytes)
      → leb d fc.depth ≡ true
      → is_pruned fnmatch fc path ≡ true
      → own d path ≡ path ∷ []
  unfolding listed
  own-pruned d path h p = ground arith

  unfoldable pub below : ℕ → Bool → Bytes → Forest → List Bytes
  below d cut path kids = listed fnmatch fc (entries_all fnmatch fc (d + 1) cut path kids)

  listing-branch :
      (d : ℕ) (path name : Bytes) (kids : Forest)
      → listing fnmatch fc d path (branch name kids)
        ≡ own d path ++ below d (is_pruned fnmatch fc path) path kids
  unfolding listing below
  listing-branch d path name kids =
      listed-append fnmatch fc
        (record { depth = d; path = path; type = dir; directory = true; cut = false } ∷ [])
        (entries_all fnmatch fc (d + 1) (is_pruned fnmatch fc path) path kids)

  -- Nothing is listed below a directory that is pruned, or that is as deep as the command goes.
  listing-alone :
      (d : ℕ) (path name : Bytes) (kids : Forest)
      → (not (is_pruned fnmatch fc path) && leb (d + 1) fc.depth) ≡ false
      → listing fnmatch fc d path (branch name kids) ≡ own d path
  unfolding below
  listing-alone d path name kids h =
      listing-branch d path name kids
      ∙ ap (λ (o : List Bytes). own d path ++ o)
          (listed-entries_all fnmatch fc (d + 1) (is_pruned fnmatch fc path) path kids h)
      ∙ append-nil (own d path)

  pub run_directory-Adds :
      (f : ℕ) (run : ℕ → Bytes → Walk → Found) (d : ℕ) (path name : Bytes) (kids : Forest)
      (children : List (Bytes × ℕ)) (w : Walk)
      → is_findleaves fc.type ≡ false
      → leb d fc.depth ≡ true
      → (leb (d + 1) fc.depth ≡ true
          → (v : Walk)
          → Adds v
              (below d false path kids)
              (run_children run (λ c. true) (base_of nodes) path children v))
      → Adds w
          (listing fnmatch fc d path (branch name kids))
          (run_directory fnmatch nodes f run fc d path children w)
  unfolding run_directory
  run_directory-Adds f run d path name kids children w plain h g =
      let w' = record w { read_dirs = path ∷ without path w.read_dirs } in
      after_test (Adds w (listing fnmatch fc d path (branch name kids))) (is_pruned fnmatch fc path)
        _ _
        (λ p. rw (plain, listing-alone d path name kids (ground arith), own-pruned d path h p) refl)
        (λ p.
          after_test (Adds w (listing fnmatch fc d path (branch name kids))) (leb fc.depth d) _ _
            (λ deep.
              rw (listing-alone d path name kids (ground arith))
                (printed d path dir true w' h (ground arith)))
            (λ more.
              rw
                (
                  run_dir-plain f run path children (print_if_necessary fnmatch fc path dir d w')
                      plain,
                  listing-branch d path name kids,
                  p,
                )
                (Adds-behind w (print_if_necessary fnmatch fc path dir d w') (own d path)
                  (below d false path kids)
                  (run_children run (λ c. true) (base_of nodes) path children
                    (print_if_necessary fnmatch fc path dir d w'))
                  (printed d path dir true w' h (ground arith)) (g (ground arith) _))))
