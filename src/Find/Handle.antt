-- ===== src/Find/Handle.antt =====
-- `FindDir`, `FindNodes` and `HandleFind` of src/find.cc. Each step to another entry costs a unit
-- of fuel. Whether a path exists is a parameter, and so is `fnmatch`, with and without
-- `FNM_PERIOD`.
pub mod Listed
use kati.Prelude.{
  ℕ, zero, suc, ◌+◌, Bool, true, false, not, ◌&&◌, ◌||◌, Option, none, some, List, [], ◌∷◌, ◌++◌,
  Bytes, length, get_elem?, ◌==◌, if◌then◌else◌, codes, text_eq,
}
use kati.Piece.{substr, find_byte, piece_lt}
use kati.Strutil.Words.{Writer, writer, write_all}
use kati.Strutil.Path.{slash}
use kati.Strutil.Pattern.{has_prefix}
use kati.Strutil.Normalize.{concat_dir}
use kati.Func.Texts.{stable_sort}
use kati.Find.{
  FindCommand, is_findleaves, Node, dir_node, file_node, symlink_node, Walk, Found, has_wildcard,
}
use kati.Find.Run.{without, is_directory, run_find}
use kati.Find.Nodes.{
  Looked, find_dir, Bases, Gathered, find_nodes, there, missing, no_fuel, gathered, refused,
  out_of_fuel,
}

-- `sort` of the entries, by their paths.
unfoldable pub insert_base : Bytes × ℕ → List (Bytes × ℕ) → List (Bytes × ℕ)
unfolding piece_lt
insert_base x [] = x ∷ []
insert_base x (y ∷ ys) =
    let rest = y ∷ insert_base x ys in if piece_lt y.0 x.0 then rest else x ∷ y ∷ ys

unfoldable pub sort_bases : List (Bytes × ℕ) → List (Bytes × ℕ)
unfolding insert_base
sort_bases [] = []
sort_bases (x ∷ xs) = insert_base x (sort_bases xs)

-- `CanHandle`.
unfoldable pub can_handle : Bytes → Bool
unfolding has_prefix
can_handle s =
    not (has_prefix s (codes "/"))
    && not (has_prefix s (codes ".repo"))
    && not (has_prefix s (codes ".git"))

-- How `HandleFind` ends: with the paths, or the command has to be run by the shell.
pub data Handled : Type 0 where
  handled : Walk → Handled
  fallback : Handled
  exhausted : Handled

abbrev pub of_found : Found → (Walk → Handled) → Handled
of_found (Found.found w) k = k w
of_found Found.unsupported k = fallback
of_found Found.out_of_fuel k = exhausted

abbrev pub of_looked : Looked → Handled → (ℕ → Handled) → Handled
of_looked (there n) x k = k n
of_looked missing x k = x
of_looked no_fuel x k = exhausted

abbrev pub of_gathered : Gathered → (Bases → Handled) → Handled
of_gathered (gathered b) k = k b
of_gathered refused k = fallback
of_gathered Gathered.out_of_fuel k = exhausted

module _ (fnmatch fnmatch_period : Bytes → Bytes → Bool) (path_exists : Bytes → Bool)
    (nodes : List Node) (f : ℕ) (fc : FindCommand) where
  -- The walks from the entries of one directory.
  unfoldable pub run_bases : List (Bytes × ℕ) → Walk → (Walk → Handled) → Handled
  unfolding run_find
  run_bases [] w k = k w
  run_bases ((path, n) ∷ bases) w k =
      of_found (run_find fnmatch nodes f fc 0 [] n path w) (λ w'. run_bases bases w' k)

  -- The loop of `HandleFind` over the directories.
  unfoldable pub handle_dirs : ℕ → List Bytes → Walk → (Walk → Handled) → Handled
  unfolding can_handle concat_dir find_nodes sort_bases run_bases
  handle_dirs root [] w k = k w
  handle_dirs root (finddir ∷ dirs) w k =
      let fullpath = concat_dir fc.chdir finddir in
      if not (can_handle fullpath)
      then fallback
      else of_gathered
          (find_nodes fnmatch_period nodes f finddir root []
            (record { bases = []; read_dirs = w.read_dirs }))
          (λ b. elim b.bases [
            | [] ↦
                if path_exists fullpath
                then fallback
                else handle_dirs root dirs (record w { read_dirs = b.read_dirs }) k
            | x ∷ xs ↦
                run_bases (sort_bases (x ∷ xs)) (record w { read_dirs = b.read_dirs })
                  (λ w'. handle_dirs root dirs w' k)
          ])

  -- The end of `HandleFind`: the paths in order.
  abbrev pub finish_find : Walk → Handled
  finish_find w =
      handled (if is_findleaves fc.type then record w { out = stable_sort w.out } else w)

  -- `HandleFind` from the directory in which the command stands.
  unfoldable pub handle_from : ℕ → Walk → Handled
  unfolding handle_dirs find_dir stable_sort
  handle_from root w =
      let run = λ (n : ℕ). handle_dirs n fc.finddirs w finish_find in
      if length fc.chdir == 0
      then run root
      else of_looked (find_dir nodes f root fc.chdir)
          (if path_exists fc.chdir then fallback else handled w) run

  -- `HandleFind`; the root is the entry 0.
  unfoldable pub handle_find : Walk → Handled
  unfolding handle_from find_dir can_handle
  handle_find w =
      if not (can_handle fc.chdir)
      then fallback
      else if length fc.testdir == 0
      then handle_from 0 w
      else if not (can_handle fc.testdir)
      then fallback
      else of_looked (find_dir nodes f 0 fc.testdir)
          (if path_exists fc.testdir then fallback else handled w) (λ n. handle_from 0 w)

-- What is written for the paths.
unfoldable pub output_of : List Bytes → Bytes
unfolding write_all
output_of paths = (write_all paths (writer [])).out
