-- ===== src/Dep/Trie/Store.antt =====
-- What a trie stores at each path, and what `Add` changes there.
use kati.Prelude.{
  ℕ, ◌≡◌, refl, sym, ap, ◌∙◌, inl, inr, true, false, Option, none, some, List, [], ◌∷◌, ◌++◌,
  append_assoc, append-nil, arith, Bytes, ◌==◌, if◌then◌else◌, Bool-cases,
}
use kati.Strutil.Pattern.{percent}
use kati.Dep.Trie.{
  Entry, Trie, node, Children, leaf, child, empty_trie, find_child, change_child, add, entries,
  children, add_all,
}

module _ {Rule : Type 0} where
  -- The entries at the end of a path.
  unfoldable pub entries_at : Bytes → Trie Rule → List (Entry Rule)
  unfolding find_child
  entries_at [] t = entries t
  entries_at (c ∷ u) t = elim (find_child c (children t)) [ none ↦ [] | some t' ↦ entries_at u t' ]

  -- The entry that a pattern adds at a path, if it is the pattern's.
  unfoldable pub added : Bytes → Bytes → Rule → List (Entry Rule)
  added [] [] r = record { rule = r; suffix = [] } ∷ []
  added (d ∷ u) [] r = []
  added [] (c ∷ p) r = if c == percent then record { rule = r; suffix = c ∷ p } ∷ [] else []
  added (d ∷ u) (c ∷ p) r =
      let deeper = added u p r in if c == percent then [] else if c == d then deeper else []

  unfoldable pub all_added : Bytes → List (Bytes × Rule) → List (Entry Rule)
  unfolding added
  all_added u [] = []
  all_added u ((p, r) ∷ ps) = added u p r ++ all_added u ps

  or_empty : Option (Trie Rule) → Trie Rule
  or_empty none = empty_trie
  or_empty (some t) = t

  find_child-change_child :
      (c d : ℕ) (f : Trie Rule → Trie Rule) (cs : Children Rule)
      → (c == d) ≡ true
      → find_child d (change_child c f cs) ≡ some (f (or_empty (find_child d cs)))
  unfolding find_child change_child or_empty
  find_child-change_child c d f leaf h = rw h refl
  find_child-change_child c d f (child x t cs) h = elim (Bool-cases (x == c)) [
    | inl e ↦ let k : (x == d) ≡ true = ground arith in rw e (rw k refl)
    | inr e ↦
        let k : (x == d) ≡ false = ground arith in rw e (rw k (find_child-change_child c d f cs h))
  ]

  find_child-change_other :
      (c d : ℕ) (f : Trie Rule → Trie Rule) (cs : Children Rule)
      → (c == d) ≡ false
      → find_child d (change_child c f cs) ≡ find_child d cs
  unfolding find_child change_child
  find_child-change_other c d f leaf h = rw h refl
  find_child-change_other c d f (child x t cs) h = elim (Bool-cases (x == c)) [
    | inl e ↦ let k : (x == d) ≡ false = ground arith in rw e (rw k refl)
    | inr e ↦ rw e (elim (Bool-cases (x == d)) [
      | inl k ↦ rw k refl
      | inr k ↦ rw k (find_child-change_other c d f cs h)
    ])
  ]

  abbrev entries_in : Bytes → Option (Trie Rule) → List (Entry Rule)
  entries_in u none = []
  entries_in u (some t) = entries_at u t

  entries_at-or_empty :
      (u : Bytes) (o : Option (Trie Rule)) → entries_at u (or_empty o) ≡ entries_in u o
  unfolding entries_at or_empty
  entries_at-or_empty [] none = refl
  entries_at-or_empty (c ∷ u) none = refl
  entries_at-or_empty u (some t) = refl

  -- `Add` appends the entry at the path of its pattern and changes nothing at any other path.
  pub entries_at-add :
      (u p : Bytes) (r : Rule) (t : Trie Rule)
      → entries_at u (add p r t) ≡ entries_at u t ++ added u p r
  unfolding entries_at add added
  entries_at-add [] [] r (node es cs) = refl
  entries_at-add (d ∷ u) [] r (node es cs) = sym (append-nil _)
  entries_at-add [] (c ∷ p) r (node es cs) = elim (Bool-cases (c == percent)) [
    | inl e ↦ rw e refl
    | inr e ↦ rw e (sym (append-nil es))
  ]
  entries_at-add (d ∷ u) (c ∷ p) r (node es cs) =
      let rest = entries_at-add u p r (or_empty (find_child d cs)) in
      elim (Bool-cases (c == percent)) [
        | inl e ↦ rw e (sym (append-nil _))
        | inr e ↦ elim (Bool-cases (c == d)) [
          | inl k ↦
              rw (e, k)
                (ap (entries_in u) (find_child-change_child c d (add p r) cs k)
                  ∙ rest
                  ∙ ap (λ es. es ++ added u p r) (entries_at-or_empty u (find_child d cs)))
          | inr k ↦
              rw (e, k)
                (ap (entries_in u) (find_child-change_other c d (add p r) cs k)
                  ∙ sym (append-nil _))
        ]
      ]

  pub entries_at-add_all :
      (u : Bytes) (ps : List (Bytes × Rule)) (t : Trie Rule)
      → entries_at u (add_all ps t) ≡ entries_at u t ++ all_added u ps
  unfolding add_all all_added
  entries_at-add_all u [] t = sym (append-nil _)
  entries_at-add_all u ((p, r) ∷ ps) t =
      entries_at-add_all u ps (add p r t)
      ∙ ap (λ es. es ++ all_added u ps) (entries_at-add u p r t)
      ∙ append_assoc (entries_at u t) (added u p r) (all_added u ps)
