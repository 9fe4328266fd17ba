-- ===== src/Find/Handle/Listed.antt =====
-- What `HandleFind` of src/find.cc prints of the directories of a command.
use kati.Prelude.{
  ℕ, ◌≤◌, ◌<◌, ◌≡◌, refl, ap, sym, subst, ◌∙◌, Bool, true, false, List, [], ◌∷◌, ◌++◌, map,
  append-nil, append_assoc, Bytes, length, All,
}
use kati.Strutil.Normalize.{concat_dir}
use kati.Find.{FindCommand, is_findleaves, Node, Walk, Found, found, unsupported, out_of_fuel}
use kati.Find.Run.{run_find}
use kati.Find.Listing.{Tree, size, Stores, listing}
use kati.Find.Listing.Directory.{Adds}
use kati.Find.Listing.Walked.{run_find-listing}
use kati.Find.Nodes.Plain.{IsPlain, path_text, Leads, find_nodes-Leads}
use kati.Find.Handle.{
  Handled, handled, can_handle, handle_dirs, finish_find, handle_from, handle_find,
}

-- A directory, or another entry, that a command searches: the names of its path, its number and its
-- tree.
pub record Target : Type 0 where
  pub name : Bytes
  pub names : List Bytes
  pub number : ℕ
  pub tree : Tree

abbrev pub path : Target → Bytes
path d = path_text (d.name ∷ d.names)

Adds-found :
    (w : Walk) (xs : List Bytes) (r : Found)
    → Adds w xs r
    → (w' : Walk) × (r ≡ found w') × (w'.out ≡ w.out ++ xs)
Adds-found w xs (found w') h = (w', refl, h)
Adds-found w xs unsupported h = absurd h
Adds-found w xs out_of_fuel h = absurd h

module _ (fnmatch fnmatch_period : Bytes → Bytes → Bool) (path_exists : Bytes → Bool)
    (nodes : List Node) (f : ℕ) (fc : FindCommand) where
  -- The names lead from the root to the entry, with no wildcard, the entry is stored as the tree, the
  -- fuel is enough for both, and the emulator takes such a path.
  abbrev pub IsStored : Target → Type 0
  IsStored d =
      All IsPlain (d.name ∷ d.names)
      × Leads nodes (d.name ∷ d.names) 0 d.number
      × Stores nodes d.tree d.number
      × (length d.names < f)
      × (size d.tree ≤ f)
      × (can_handle (concat_dir fc.chdir (path d)) ≡ true)

  -- What is listed of the directories, one after another.
  abbrev pub listings : List Target → List Bytes
  listings [] = []
  listings (d ∷ ds) = listing fnmatch fc 0 (path d) d.tree ++ listings ds

  -- The directory of which `find_nodes` finds just one entry.
  handle_dirs-one :
      (d : Target) (ds : List Target) (w w' : Walk) (k : Walk → Handled)
      → IsStored d
      → run_find fnmatch nodes f fc 0 [] d.number (path d) w ≡ found w'
      → handle_dirs fnmatch fnmatch_period path_exists nodes f fc 0 (path d ∷ map path ds) w k
        ≡ handle_dirs fnmatch fnmatch_period path_exists nodes f fc 0 (map path ds) w' k
  unfolding handle_dirs
  handle_dirs-one d ds w w' k (plain, leads, stored, f1, f2, can) run =
      rw
        (
          can,
          find_nodes-Leads nodes fnmatch_period d.name d.names f 0 d.number []
              (record { bases = []; read_dirs = w.read_dirs }) plain leads f1,
          run,
        )
        refl

  -- A command that does not change the directory and tests none is handled from the root.
  handle_find-dirs :
      (w : Walk)
      → fc.chdir ≡ []
      → fc.testdir ≡ []
      → handle_find fnmatch fnmatch_period path_exists nodes f fc w
        ≡ handle_dirs fnmatch fnmatch_period path_exists nodes f fc 0 fc.finddirs w
            (finish_find fnmatch fnmatch_period path_exists nodes f fc)
  unfolding handle_find handle_from
  handle_find-dirs w ec et =
      subst
        (λ g.
          handle_find fnmatch fnmatch_period path_exists nodes f g w
          ≡ handle_dirs fnmatch fnmatch_period path_exists nodes f g 0 g.finddirs w
              (finish_find fnmatch fnmatch_period path_exists nodes f g))
        (λ i. record fc { chdir = sym ec i; testdir = sym et i }) refl

  module _ (plain : is_findleaves fc.type ≡ false) (still : fc.follows_symlinks ≡ false) where
    handle_dirs-listings :
        (ds : List Target) (w : Walk) (k : Walk → Handled)
        → All IsStored ds
        → (w' : Walk) × (handle_dirs fnmatch fnmatch_period path_exists nodes f fc 0
              (map path ds)
              w
              k
            ≡ k w')
          × (w'.out ≡ w.out ++ listings ds)
    handle_dirs-listings [] w k h = (w, unfold handle_dirs in refl, sym (append-nil w.out))
    handle_dirs-listings (d ∷ ds) w k (stored, h) =
        let (w1, run, out1) = Adds-found w (listing fnmatch fc 0 (path d) d.tree) _ (
          run_find-listing fnmatch nodes fc d.tree f d.number (path d) w plain still stored.2
            stored.4) in
        let (w2, rest, out2) = handle_dirs-listings ds w1 k h in
        (
          w2,
          handle_dirs-one d ds w w1 k stored run ∙ rest,
          out2
              ∙ ap (λ (o : List Bytes). o ++ listings ds) out1
              ∙ append_assoc w.out (listing fnmatch fc 0 (path d) d.tree) (listings ds),
        )

    -- For a command of `find` that stays where it is, tests no directory and follows no links, and
    -- whose directories are paths of names, with no `.`, no `..` and no wildcard, that the emulator takes
    -- and that lead to stored trees, `HandleFind` handles the command. It appends to its results the
    -- entries of each tree that are neither below a pruned directory nor too deep, and that are a pruned
    -- directory or deep enough with the print condition: under the path that was given, each directory
    -- before what it holds, and in the order of the directories of the command. The fuel is at least
    -- the number of entries of each tree and more than the number of names behind the first of each path.
    pub handle_find-listings :
        (ds : List Target) (w : Walk)
        → fc.chdir ≡ []
        → fc.testdir ≡ []
        → fc.finddirs ≡ map path ds
        → All IsStored ds
        → (w' : Walk) × (handle_find fnmatch fnmatch_period path_exists nodes f fc w ≡ handled w')
          × (w'.out ≡ w.out ++ listings ds)
    handle_find-listings ds w ec et ed h =
        let finish = finish_find fnmatch fnmatch_period path_exists nodes f fc in
        let (w', run, out) = handle_dirs-listings ds w finish h in
        (
          w',
          handle_find-dirs w ec et
              ∙ ap
                  (λ (dirs : List Bytes).
                    handle_dirs fnmatch fnmatch_period path_exists nodes f fc 0 dirs w finish)
                  ed
              ∙ run
              ∙ rw plain refl,
          out,
        )
