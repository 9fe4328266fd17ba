-- ===== src/Examples/Find.antt =====
-- src/find.cc at concrete inputs.
use kati.Prelude.{
  All, inl, inr, ◌++◌, ℕ, zero, suc, ◌-◌, ◌≢◌, get_elem?, true, ◌≡◌, refl, none, some, [], ◌∷◌,
  arith, codes, List, text_eq,
}
use kati.Piece.{index_of, scan_up, scan_down, lookup_table, search_in, starts_with}
use kati.Strutil.Normalize.{set_byte}
use kati.Strutil.Path.{basename}
use kati.Find.{
  dir, reg, FindCond, name_cond, type_cond, not_cond, and_cond, or_cond, FindCommand, findleaves,
  Node, dir_node, file_node, symlink_node, Walk, found, is_true, out_of_fuel,
}
use kati.Find.Ends.{GoesDown, run_find-ends}
use kati.Find.Listing.{Tree, leaf, branch, nil, cons, size, Stores, listing}
use kati.Find.Run.{path_of, run_find, is_directory}
use kati.Find.Parse.{parse_fact, fact_of, joint_of, unget_token, parse_type}
use kati.Find.Command.{parse}
use kati.Find.Arguments.{new_command}
use kati.Find.RoundTrip.{head, tail, cost, parse_fact-print}
use kati.Find.Tokens.{lexer_of}
use kati.Find.Handle.{handle_find, handled, can_handle}
use kati.Find.Handle.Listed.{Target, IsStored, listings, handle_find-listings}
use kati.Find.Nodes.Plain.{IsPlain, HasOne}
use kati.Strutil.Normalize.{concat_dir}
use kati.Find.{has_wildcard}
use kati.Find.Selected.{FoundSound, run_find-Sound}

-- `( -name a.c -a ! -type d )`.
abbrev condition : FindCond
condition = and_cond (name_cond (codes "a.c")) (not_cond (type_cond dir))

parse_fact-print_example :
    parse_fact 20 (head condition) (lexer_of (tail condition (codes "x" ∷ [])))
    ≡ some (condition, lexer_of (codes "x" ∷ []))
parse_fact-print_example =
    parse_fact-print condition 20 (codes "x" ∷ []) (((cc), (refl, (refl, (refl, tt)))), tt)
      (unfold cost in omega arith)

-- A directory with a file, and a directory below it with a file of the same name.
abbrev tree : List Node
tree =
    dir_node (codes ".") none ((codes "a.c", 1) ∷ (codes "d", 2) ∷ [])
    ∷ file_node (codes "a.c") reg
    ∷ dir_node (codes "d") (some 0) ((codes "a.c", 3) ∷ [])
    ∷ file_node (codes "a.c") reg
    ∷ []

abbrev nothing_yet : Walk
nothing_yet = record { out = []; read_dirs = []; found_files = [] }

abbrev all_of : FindCommand
all_of = record new_command { print_cond = some (name_cond (codes "a.c")) }

abbrev two_dirs : FindCommand
two_dirs = record all_of { finddirs = codes "d/." ∷ codes "." ∷ [] }

run_find-Sound_example :
    FoundSound text_eq tree all_of 0 0
      (codes ".")
      (run_find text_eq tree 9 all_of 0 [] 0 (codes ".") nothing_yet)
run_find-Sound_example =
    run_find-Sound text_eq tree all_of 9 0 [] 0 (codes ".") nothing_yet (omega arith) refl

handles :
    handle_find text_eq text_eq (λ s. true) tree 9 two_dirs nothing_yet
    ≡ handled (record {
      out = codes "d/./a.c" ∷ codes "./a.c" ∷ codes "./d/a.c" ∷ [];
      read_dirs = codes "./d" ∷ codes "." ∷ codes "d/." ∷ [];
      found_files = [];
    })
unfolding handle_find basename scan_down set_byte scan_up lookup_table index_of
handles = refl

finds :
    run_find text_eq tree 9 all_of 0 [] 0 (codes ".") nothing_yet
    ≡ found (record {
      out = codes "./a.c" ∷ codes "./d/a.c" ∷ [];
      read_dirs = codes "./d" ∷ codes "." ∷ [];
      found_files = [];
    })
unfolding run_find basename scan_down
finds = refl

abbrev whole : Tree
whole = branch (codes ".") (
    cons (leaf (codes "a.c") reg)
      (cons (branch (codes "d") (cons (leaf (codes "a.c") reg) nil)) nil))

-- `find d d/a.c -name a.c`.
abbrev below : FindCommand
below = record all_of { finddirs = codes "d" ∷ codes "d/a.c" ∷ [] }

abbrev targets : List Target
targets =
    record {
      name = codes "d";
      names = [];
      number = 2;
      tree = branch (codes "d") (cons (leaf (codes "a.c") reg) nil);
    }
    ∷ record {
      name = codes "d";
      names = codes "a.c" ∷ [];
      number = 3;
      tree = leaf (codes "a.c") reg;
    }
    ∷ []

d-HasOne : HasOne (codes "d") 2 ((codes "a.c", 1) ∷ (codes "d", 2) ∷ [])
d-HasOne = inr (refl, inl (refl, refl, tt))

d-IsPlain : IsPlain (codes "d")
unfolding has_wildcard scan_up lookup_table
d-IsPlain = (omega arith, (omega arith, tt), refl, refl, refl)

targets-IsStored : All (IsStored text_eq text_eq (λ s. true) tree 9 below) targets
unfolding Stores size can_handle concat_dir set_byte has_wildcard scan_up lookup_table
targets-IsStored = (
  (
    (d-IsPlain, tt),
    (codes ".", none, (codes "a.c", 1) ∷ (codes "d", 2) ∷ [], refl, 2, d-HasOne, refl),
    (some 0, (codes "a.c", 3) ∷ [], refl, (refl, tt)),
    (omega arith),
    (omega arith),
    refl,
  ),
  (
    (
      (
        d-IsPlain,
        ((omega arith, (omega arith, (omega arith, (omega arith, tt))), refl, refl, refl), tt),
      ),
      (
        codes ".",
        none,
        (codes "a.c", 1) ∷ (codes "d", 2) ∷ [],
        refl,
        2,
        d-HasOne,
        (codes "d", some 0, (codes "a.c", 3) ∷ [], refl, 3, inl (refl, refl, tt), refl),
      ),
      refl,
      (omega arith),
      (omega arith),
      refl,
    ),
    tt,
  ),
)

handle_find-listings_example :
    (w' : Walk) × (handle_find text_eq text_eq (λ s. true) tree 9 below nothing_yet ≡ handled w')
    × (w'.out ≡ [] ++ listings text_eq text_eq (λ s. true) tree 9 below targets)
handle_find-listings_example =
    handle_find-listings text_eq text_eq (λ s. true) tree 9 below refl refl targets nothing_yet refl
      refl refl targets-IsStored

lists_below :
    listings text_eq text_eq (λ s. true) tree 9 below targets ≡ codes "d/a.c" ∷ codes "d/a.c" ∷ []
unfolding listing basename scan_down is_true path_of
lists_below = refl

lists : listing text_eq all_of 0 (codes ".") whole ≡ codes "./a.c" ∷ codes "./d/a.c" ∷ []
unfolding listing basename scan_down is_true path_of
lists = refl

-- A directory with a link to a directory with a file.
abbrev linked : List Node
linked =
    dir_node (codes ".") none ((codes "l", 1) ∷ [])
    ∷ symlink_node (codes "l") 0 (some 2)
    ∷ dir_node (codes "d") none ((codes "a.c", 3) ∷ [])
    ∷ file_node (codes "a.c") reg
    ∷ []

linked-GoesDown : (n : ℕ) → GoesDown true (λ m. 9 - m) (9 - n) (get_elem? linked n)
linked-GoesDown zero = omega arith
linked-GoesDown (suc zero) = inr (omega arith)
linked-GoesDown (suc (suc zero)) = omega arith
linked-GoesDown (suc (suc (suc zero))) = omega arith
linked-GoesDown (suc (suc (suc (suc n)))) = tt

abbrev following : FindCommand
following = record all_of { follows_symlinks = true }

run_find-ends_example :
    run_find text_eq linked 10 following 0 [] 0 (codes ".") nothing_yet ≢ out_of_fuel
run_find-ends_example =
    run_find-ends text_eq linked following (λ m. 9 - m) linked-GoesDown 10 0 [] 0 (codes ".")
      nothing_yet (omega arith)

follows :
    run_find text_eq linked 10 following 0 [] 0 (codes ".") nothing_yet
    ≡ found (record {
      out = codes "./l/a.c" ∷ [];
      read_dirs = codes "./l" ∷ codes "." ∷ [];
      found_files = [];
    })
unfolding run_find basename scan_down
follows = refl

-- `FINDLEAVES` stops at the first directory that has the file.
finds_leaf :
    run_find text_eq tree 9 (record all_of { type = findleaves }) 0 [] 0 (codes ".") nothing_yet
    ≡ found (record { out = codes "./a.c" ∷ []; read_dirs = []; found_files = codes "./a.c" ∷ [] })
unfolding run_find basename is_directory scan_down scan_up lookup_table
finds_leaf = refl

parses_find :
    parse 30 (codes "cd a/b && find c -maxdepth 2 -name '*.c' -o ! -type d")
    ≡ some (record new_command {
      chdir = codes "a/b";
      finddirs = codes "c" ∷ [];
      depth = 2;
      print_cond = some (or_cond (name_cond (codes "*.c")) (not_cond (type_cond dir)));
    })
unfolding parse search_in starts_with scan_up lookup_table fact_of joint_of unget_token parse_type
    set_byte
parses_find = refl
