-- ===== src/Find/Listing/Stored.antt =====
-- A tree of entries that is stored: an entry is one tree, and no directory lies in itself.
use kati.Prelude.{ℕ, suc, ◌<◌, ◌≡◌, refl, subst, arith, none, List, [], ◌∷◌, Bytes, All}
use kati.Find.{Node}
use kati.Find.Run.{find_reading, base_of}
use kati.Find.Listing.{
  Tree, leaf, link, branch, label, Forest, nil, cons, size, size_all, Stores, StoresAll,
}

module _ (nodes : List Node) where
  mutual
    unfolding Stores size

    size_unique : (t u : Tree) (n : ℕ) → Stores nodes t n → Stores nodes u n → size t ≡ size u
    size_unique (leaf _ _) (leaf _ _) n h k = refl
    size_unique (leaf _ _) (link _ _ _) n h k = refl
    size_unique (link _ _ _) (leaf _ _) n h k = refl
    size_unique (link _ _ _) (link _ _ _) n h k = refl
    size_unique (leaf _ _) (branch _ us) n h (p, c, e, k) = absurd (cc)
    size_unique (link _ _ _) (branch _ us) n h (p, c, e, k) = absurd (cc)
    size_unique (branch _ ts) (leaf _ _) n (p, c, e, h) k = absurd (cc)
    size_unique (branch _ ts) (link _ _ _) n (p, c, e, h) k = absurd (cc)
    size_unique (branch _ ts) (branch _ us) n (p, c, e, h) (q, b, e', k) =
        let same : b ≡ c = cc in
        omega (arith, size_all_unique ts us c h (subst (λ x. StoresAll nodes us x) same k))

    size_all_unique :
        (ts us : Forest) (children : List (Bytes × ℕ))
        → StoresAll nodes ts children
        → StoresAll nodes us children
        → size_all ts ≡ size_all us
    size_all_unique nil nil children h k = refl
    size_all_unique nil (cons u us) [] h k = absurd k
    size_all_unique nil (cons u us) (e ∷ children) h k = absurd h
    size_all_unique (cons t ts) nil [] h k = absurd h
    size_all_unique (cons t ts) nil (e ∷ children) h k = absurd k
    size_all_unique (cons t ts) (cons u us) [] h k = absurd h
    size_all_unique (cons t ts) (cons u us) (e ∷ children) h k =
        omega (arith, size_unique t u e.1 h.0 k.0, size_all_unique ts us children h.1 k.1)

  -- Each directory that is being read holds more than `s` entries.
  abbrev pub IsAbove : ℕ → List (ℕ × Bytes) → Type 0
  IsAbove s dirs = All (λ e. (u : Tree) × Stores nodes u e.0 × (s < size u)) dirs

  -- A directory that is met below those that are being read is none of them.
  pub find_reading-IsAbove :
      (t : Tree) (n : ℕ) (dirs : List (ℕ × Bytes))
      → Stores nodes t n
      → IsAbove (size t) dirs
      → find_reading n dirs ≡ none
  unfolding find_reading
  find_reading-IsAbove t n [] h k = refl
  find_reading-IsAbove t n ((m, path) ∷ dirs) h ((u, st, lt), k) = ground (
    arith,
    find_reading-IsAbove t n dirs h k,
    λ (e : m ≡ n). size_unique t u n h (subst (λ x. Stores nodes u x) e st),
  )

  pub IsAbove-mono :
      (r s : ℕ) (dirs : List (ℕ × Bytes)) → r < suc s → IsAbove s dirs → IsAbove r dirs
  IsAbove-mono r s [] h k = tt
  IsAbove-mono r s (e ∷ dirs) h ((u, st, lt), k) = ((u, st, omega arith), IsAbove-mono r s dirs h k)

  pub base_of-label : (t : Tree) (n : ℕ) → Stores nodes t n → base_of nodes n ≡ label t
  unfolding Stores
  base_of-label (leaf _ _) n h = rw (h, base_of)
  base_of-label (link _ _ _) n h = rw (h, base_of)
  base_of-label (branch _ ts) n (p, c, e, h) = rw (e, base_of)
