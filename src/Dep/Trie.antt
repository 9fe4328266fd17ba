-- ===== src/Dep/Trie.antt =====
-- The class `RuleTrie` of src/dep.cc: the output patterns of implicit rules, found by the name of a
-- target. A rule is any type here, since the trie only keeps it.
pub mod Store
pub mod Lookup
use kati.Prelude.{
  ℕ, zero, suc, ◌+◌, Bool, true, false, ◌&&◌, ◌||◌, Option, none, some, List, [], ◌∷◌, ◌++◌, Bytes,
  length, ◌==◌, if◌then◌else◌, map,
}
use kati.Piece.{substr}
use kati.Strutil.Pattern.{percent, has_suffix}

-- `Entry`: a rule and the pattern from its percent sign on.
pub record Entry (Rule : Type 0) : Type 0 where
  pub rule : Rule
  pub suffix : Bytes

-- A trie with its entries and the tries below it; the map of children is an association list.
mutual
  pub data Trie (Rule : Type 0) : Type 0 where
    node : List (Entry Rule) → Children Rule → Trie Rule

  pub data Children (Rule : Type 0) : Type 0 where
    leaf : Children Rule
    child : ℕ → Trie Rule → Children Rule → Children Rule

module _ {Rule : Type 0} where
  abbrev pub empty_trie : Trie Rule
  empty_trie = node [] leaf

  -- `children_.find(c)`.
  unfoldable pub find_child : ℕ → Children Rule → Option (Trie Rule)
  find_child c leaf = none
  find_child c (child d t cs) = if d == c then some t else find_child c cs

  -- `children_.emplace(c, nullptr)` with what is done to the child; a new one is empty before.
  unfoldable pub change_child : ℕ → (Trie Rule → Trie Rule) → Children Rule → Children Rule
  change_child c f leaf = child c (f empty_trie) leaf
  change_child c f (child d t cs) =
      if d == c then child d (f t) cs else child d t (change_child c f cs)

  abbrev pub add_entry : Entry Rule → Trie Rule → Trie Rule
  add_entry e (node es cs) = node (es ++ e ∷ []) cs

  abbrev pub below : ℕ → (Trie Rule → Trie Rule) → Trie Rule → Trie Rule
  below c f (node es cs) = node es (change_child c f cs)

  -- `Add`.
  unfoldable pub add : Bytes → Rule → Trie Rule → Trie Rule
  unfolding change_child
  add [] r t = add_entry (record { rule = r; suffix = [] }) t
  add (c ∷ name) r t =
      let here = add_entry (record { rule = r; suffix = c ∷ name }) t in
      let deeper = below c (add name r) t in if c == percent then here else deeper

  -- The test of an entry in `Get`.
  unfoldable pub entry_fits : Entry Rule → Bytes → Bool
  unfolding has_suffix substr
  entry_fits e name =
      length e.suffix == 0 && length name == 0 || has_suffix name (substr e.suffix 1 none)

  unfoldable pub fitting : List (Entry Rule) → Bytes → List Rule
  unfolding entry_fits
  fitting [] name = []
  fitting (e ∷ es) name = if entry_fits e name then e.rule ∷ fitting es name else fitting es name

  abbrev pub entries : Trie Rule → List (Entry Rule)
  entries (node es cs) = es

  abbrev pub children : Trie Rule → Children Rule
  children (node es cs) = cs

  -- `Get`.
  unfoldable pub get_rules : Bytes → Trie Rule → List Rule
  unfolding fitting find_child
  get_rules [] t = fitting (entries t) []
  get_rules (c ∷ name) t =
      fitting (entries t) (c ∷ name)
      ++ (elim (find_child c (children t)) [ none ↦ [] | some t' ↦ get_rules name t' ])

  -- `size`.
  unfoldable mutual
    pub size : Trie Rule → ℕ
    size (node es cs) = length es + size_below cs

    pub size_below : Children Rule → ℕ
    size_below leaf = 0
    size_below (child c t cs) = size t + size_below cs

-- `Add` of each pattern with its rule, in their order.
unfoldable pub add_all : {Rule : Type 0} → List (Bytes × Rule) → Trie Rule → Trie Rule
unfolding add
add_all [] t = t
add_all ((p, r) ∷ ps) t = add_all ps (add p r t)
