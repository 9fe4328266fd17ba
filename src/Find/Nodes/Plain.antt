-- ===== src/Find/Nodes/Plain.antt =====
-- What `FindNodes` of src/find.cc finds for a path with no wildcard.
use kati.Prelude.{
  ℕ, zero, suc, ◌<◌, ◌≡◌, refl, ap, sym, ◌∙◌, ◌⊎◌, inl, inr, Bool, true, false, Option, some, List,
  [], ◌∷◌, ◌++◌, append_assoc, arith, Bytes, length, get_elem?, All, Lacks, codes, text_eq,
  text_eq→eq, ◌==◌, if◌then◌else◌, length-append,
}
use kati.Piece.{find_byte}
use kati.Strutil.Path.{slash}
use kati.Find.{Node, dir_node, has_wildcard}
use kati.Find.Nodes.{
  Bases, Gathered, gathered, add_base, behind, is_here, gather_on, gather_children, gather_in,
  gather_at, find_nodes,
}
use kati.Find.Nodes.Cut.{find_byte-last, find_byte-first, substr-all, substr-front, substr-behind}

-- A name of an entry, with no wildcard in it.
abbrev pub IsPlain : Bytes → Type 0
IsPlain c =
    (0 < length c)
    × Lacks slash c
    × (text_eq c (codes ".") ≡ false)
    × (text_eq c (codes "..") ≡ false)
    × (has_wildcard c ≡ false)

-- The path of names.
abbrev pub path_text : List Bytes → Bytes
path_text [] = []
path_text (c ∷ []) = c
path_text (c ∷ d ∷ cs) = c ++ slash ∷ path_text (d ∷ cs)

-- No child has a name, and one child has it.
abbrev pub HasNone : Bytes → List (Bytes × ℕ) → Type 0
HasNone c = All (λ e. text_eq c e.0 ≡ false)

abbrev pub HasOne : Bytes → ℕ → List (Bytes × ℕ) → Type 0
HasOne c l [] = ⊥
HasOne c l (e ∷ children) =
    ((text_eq c e.0 ≡ true) × (e.1 ≡ l) × HasNone c children)
    ⊎ ((text_eq c e.0 ≡ false) × HasOne c l children)

gather_children-none :
    (gather : ℕ → Bytes → Bases → Gathered) (c start : Bytes) (children : List (Bytes × ℕ))
    (b : Bases)
    → HasNone c children
    → gather_children gather (text_eq c) start children b ≡ gathered b
unfolding gather_children
gather_children-none gather c start [] b h = refl
gather_children-none gather c start ((name, k) ∷ children) b h =
    rw (h.0, gather_children) (gather_children-none gather c start children b h.1)

gather_children-one :
    (gather : ℕ → Bytes → Bases → Gathered) (c start : Bytes) (l : ℕ) (children : List (Bytes × ℕ))
    (b b' : Bases)
    → HasOne c l children
    → gather l (start ++ c) b ≡ gathered b'
    → gather_children gather (text_eq c) start children b ≡ gathered b'
unfolding gather_children
gather_children-one gather c start l [] b b' h g = absurd h
gather_children-one gather c start l ((name, k) ∷ children) b b' (inl (e, same, h)) g =
    let name_eq : name ≡ c = sym (text_eq→eq c name e) in
    rw (e, gather_children, name_eq, same, g) (gather_children-none gather c start children b' h)
gather_children-one gather c start l ((name, k) ∷ children) b b' (inr (e, h)) g =
    rw (e, gather_children) (gather_children-one gather c start l children b b' h g)

-- What stands before the next name.
abbrev pub start : Bytes → Bytes
start path = if length path == 0 then path else path ++ slash ∷ []

module _ (nodes : List Node) where
  -- Names lead from an entry to another, each through a directory that has one child of the name.
  abbrev pub Leads : List Bytes → ℕ → ℕ → Type 0
  Leads [] n m = n ≡ m
  Leads (c ∷ cs) n m =
      (name : Bytes) × (parent : Option ℕ) × (children : List (Bytes × ℕ)) × (get_elem? nodes n
        ≡ some (dir_node name parent children))
      × (l : ℕ) × HasOne c l children
      × Leads cs l m

  module _ (fnmatch_period : Bytes → Bytes → Bool) where
    gather_in-last :
        (gather : ℕ → Bytes → Bases → Gathered) (n l : ℕ) (parent : Option ℕ)
        (children : List (Bytes × ℕ)) (path c : Bytes) (b : Bases)
        → IsPlain c
        → HasOne c l children
        → gather_in fnmatch_period gather n parent children path c b
          ≡ add_base (start path ++ c) l b
    unfolding gather_in
    gather_in-last gather n l parent children path c b p h =
        let here : is_here c ≡ false = ground arith in
        rw (find_byte-last c p.1, substr-all c, here, p.3, p.4)
          (gather_children-one (gather_on gather true) c (start path) l children b _ h refl)

    gather_in-more :
        (gather : ℕ → Bytes → Bases → Gathered) (n l : ℕ) (parent : Option ℕ)
        (children : List (Bytes × ℕ)) (path c r : Bytes) (b b' : Bases)
        → IsPlain c
        → HasOne c l children
        → gather l (start path ++ c) b ≡ gathered b'
        → gather_in fnmatch_period gather n parent children path (c ++ slash ∷ r) b ≡ gathered b'
    unfolding gather_in
    gather_in-more gather n l parent children path c r b b' p h g =
        let here : is_here c ≡ false = ground arith in
        rw (find_byte-first c r p.1, substr-front c (slash ∷ r), here, p.3, p.4)
          (gather_children-one (gather_on gather false) c (start path) l children b b' h g)

    start-more :
        (path c r : Bytes)
        → 0 < length c
        → start (start path ++ c) ++ r ≡ start path ++ (c ++ slash ∷ r)
    start-more path c r h =
        let long : (length (start path ++ c) == 0) ≡ false =
          ground (arith, length-append (start path) c) in
        rw long (simp append_assoc)

    behind-first :
        (c r : Bytes)
        → Lacks slash c
        → behind (c ++ slash ∷ r) (find_byte (c ++ slash ∷ r) slash 0) ≡ r
    behind-first c r h = rw (find_byte-first c r h) (substr-behind c r)

    -- `FindNodes` finds the entry to which the names of a path lead, and nothing else.
    pub find_nodes-Leads :
        (c : Bytes) (cs : List Bytes) (f n m : ℕ) (path : Bytes) (b : Bases)
        → All IsPlain (c ∷ cs)
        → Leads (c ∷ cs) n m
        → length cs < f
        → find_nodes fnmatch_period nodes f (path_text (c ∷ cs)) n path b
          ≡ add_base (start path ++ path_text (c ∷ cs)) m b
    unfolding find_nodes gather_at
    find_nodes-Leads c cs zero n m path b p h lt = elim lt [ ]
    find_nodes-Leads c [] (suc f) n m path b p (name, parent, children, e, l, one, same) lt =
        rw (e, ← same)
          (gather_in-last (find_nodes fnmatch_period nodes f (behind c (find_byte c slash 0))) n l
            parent children path c b p.0 one)
    find_nodes-Leads c (d ∷ cs) (suc f) n m path b p (name, parent, children, e, l, one, on) lt =
        let r = path_text (d ∷ cs) in
        let rest = behind (c ++ slash ∷ r) (find_byte (c ++ slash ∷ r) slash 0) in
        rw e (
          gather_in-more (find_nodes fnmatch_period nodes f rest) n l parent children path c r b
            (record b { bases = b.bases ++ (start path ++ (c ++ slash ∷ r), m) ∷ [] }) p.0 one
            (ap (λ (t : Bytes). find_nodes fnmatch_period nodes f t l (start path ++ c) b)
                (behind-first c r p.0.1)
              ∙ find_nodes-Leads d cs f l m (start path ++ c) b p.1 on (omega arith)
              ∙ ap (λ (t : Bytes). add_base t m b) (start-more path c r p.0.0)))
