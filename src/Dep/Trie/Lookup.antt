-- ===== src/Dep/Trie/Lookup.antt =====
-- Which rules `RuleTrie::Get` finds, and in which order.
use kati.Prelude.{
  or_true, and_false, ℕ, zero, suc, ◌-◌, ◌≡◌, refl, sym, ap, ◌∙◌, fun_ext, inl, inr, Bool, true,
  false, ◌&&◌, Option, none, some, List, [], ◌∷◌, ◌++◌, append-nil, arith, Bytes, length, ◌==◌,
  ==-suc_zero, take-all, ltb, if◌then◌else◌, Bool-cases,
}
use kati.Piece.{substr}
use kati.Strutil.Pattern.{percent, has_suffix}
use kati.Strutil.Pattern.Affix.{has_suffix-append}
use kati.Dep.Trie.{
  Entry, Trie, empty_trie, find_child, entries, children, entry_fits, fitting, get_rules, add_all,
}
use kati.Dep.Trie.Store.{entries_at, added, all_added, entries_at-add_all}

-- The number of bytes before the percent sign, or all bytes.
pub depth : Bytes → ℕ
depth [] = 0
depth (c ∷ p) = if c == percent then 0 else suc (depth p)

-- A name fits a pattern: it begins with what stands before the percent sign, and behind that it ends
-- in what follows the percent sign. With no percent sign it only has to begin with the pattern.
pub fits : Bytes → Bytes → Bool
fits [] name = true
fits (c ∷ p) [] = if c == percent then has_suffix [] p else false
fits (c ∷ p) (d ∷ name) =
    let deeper = fits p name in if c == percent then has_suffix (d ∷ name) p else c == d && deeper

==-zero_suc : (d : ℕ) → (0 == suc d) ≡ false
==-zero_suc d = ground arith

has_suffix-nil : (name : Bytes) → has_suffix name [] ≡ true
has_suffix-nil name = ap (λ s. has_suffix s []) (sym (append-nil name)) ∙ has_suffix-append name []

substr-tail : (c : ℕ) (p : Bytes) → substr (c ∷ p) 1 none ≡ p
unfolding substr
substr-tail c p =
    let e : ltb (suc (length p)) 1 ≡ false = ground arith in
    rw e (take-all (suc (length p) - 1) p (omega arith))

module _ {Rule : Type 0} where
  -- The rules whose pattern has `d` bytes before its percent sign and fits the name.
  pub level : ℕ → Bytes → List (Bytes × Rule) → List Rule
  level d name [] = []
  level d name ((p, r) ∷ ps) =
      if depth p == d && fits p name then r ∷ level d name ps else level d name ps

  -- The levels from `d` on, `n` more than one.
  pub levels : ℕ → ℕ → Bytes → List (Bytes × Rule) → List Rule
  levels zero d name ps = level d name ps
  levels (suc n) d name ps = level d name ps ++ levels n (suc d) name ps

  -- `Get` over what is stored at the paths.
  pub gather : Bytes → (Bytes → List (Entry Rule)) → List Rule
  gather [] f = fitting (f []) []
  gather (c ∷ name) f = fitting (f []) (c ∷ name) ++ gather name (λ u. f (c ∷ u))

  gather-nil : (name : Bytes) → gather name (λ _. []) ≡ []
  unfolding gather fitting
  gather-nil [] = refl
  gather-nil (c ∷ name) = gather-nil name

  gather-in :
      (name : Bytes) (o : Option (Trie Rule))
      → ((t : Trie Rule) → get_rules name t ≡ gather name (λ u. entries_at u t))
      → (elim o [ none ↦ [] | some t ↦ get_rules name t ])
        ≡ gather name (λ u. elim o [ none ↦ [] | some t ↦ entries_at u t ])
  gather-in name none h = sym (gather-nil name)
  gather-in name (some t) h = h t

  get_rules-gather :
      (name : Bytes) (t : Trie Rule) → get_rules name t ≡ gather name (λ u. entries_at u t)
  unfolding get_rules gather entries_at
  get_rules-gather [] t = refl
  get_rules-gather (c ∷ name) t =
      ap (λ rs. fitting (entries t) (c ∷ name) ++ rs)
        (gather-in name (find_child c (children t)) (λ t'. get_rules-gather name t'))

  -- The patterns that begin with a byte, without it.
  pub tails : ℕ → List (Bytes × Rule) → List (Bytes × Rule)
  tails c [] = []
  tails c (([], r) ∷ ps) = tails c ps
  tails c ((x ∷ p, r) ∷ ps) =
      let rest = tails c ps in if x == percent then rest else if x == c then (p, r) ∷ rest else rest

  all_added-tails :
      (c : ℕ) (u : Bytes) (ps : List (Bytes × Rule))
      → all_added (c ∷ u) ps ≡ all_added u (tails c ps)
  unfolding all_added added tails
  all_added-tails c u [] = refl
  all_added-tails c u (([], r) ∷ ps) = all_added-tails c u ps
  all_added-tails c u ((x ∷ p, r) ∷ ps) =
      let rest = all_added-tails c u ps in
      elim (Bool-cases (x == percent)) [
        | inl e ↦ rw e rest
        | inr e ↦ elim (Bool-cases (x == c)) [
          | inl k ↦ rw (e, k) (ap (λ es. added u p r ++ es) rest)
          | inr k ↦ rw (e, k) rest
        ]
      ]

  level-tails :
      (d c : ℕ) (name : Bytes) (ps : List (Bytes × Rule))
      → level (suc d) (c ∷ name) ps ≡ level d name (tails c ps)
  unfolding level tails depth fits
  level-tails d c name [] = refl
  level-tails d c name (([], r) ∷ ps) = rw (==-zero_suc d) (level-tails d c name ps)
  level-tails d c name ((x ∷ p, r) ∷ ps) =
      let rest = level-tails d c name ps in
      let s : (suc (depth p) == suc d) ≡ (depth p == d) = ground arith in
      elim (Bool-cases (x == percent)) [
        | inl e ↦ rw e (rw (==-zero_suc d) rest)
        | inr e ↦ elim (Bool-cases (x == c)) [
          | inl k ↦ rw (e, k) (rw (s, rest) refl)
          | inr k ↦ rw (e, k) (rw (and_false (suc (depth p) == suc d)) rest)
        ]
      ]

  levels-tails :
      (n d c : ℕ) (name : Bytes) (ps : List (Bytes × Rule))
      → levels n (suc d) (c ∷ name) ps ≡ levels n d name (tails c ps)
  unfolding levels
  levels-tails zero d c name ps = level-tails d c name ps
  levels-tails (suc n) d c name ps =
      rw (level-tails d c name ps, levels-tails n (suc d) c name ps) refl

  entry_fits-fits :
      (p : Bytes) (r : Rule) (name : Bytes)
      → depth p ≡ 0
      → entry_fits (record { rule = r; suffix = p }) name ≡ fits p name
  unfolding entry_fits fits depth
  entry_fits-fits [] r name h = rw (entry_fits, has_suffix-nil name) (or_true (length name == 0))
  entry_fits-fits (c ∷ p) r [] h = elim (Bool-cases (c == percent)) [
    | inl e ↦ rw (entry_fits, ==-suc_zero (length p), substr-tail c p, e) refl
    | inr e ↦ absurd (ground (arith, h, e))
  ]
  entry_fits-fits (c ∷ p) r (d ∷ name) h = elim (Bool-cases (c == percent)) [
    | inl e ↦ rw (entry_fits, ==-suc_zero (length p), substr-tail c p, e) refl
    | inr e ↦ absurd (ground (arith, h, e))
  ]

  -- At the root.
  fitting-all_added :
      (name : Bytes) (ps : List (Bytes × Rule)) → fitting (all_added [] ps) name ≡ level 0 name ps
  unfolding all_added added level fitting depth fits
  fitting-all_added name [] = refl
  fitting-all_added name (([], r) ∷ ps) =
      rw (entry_fits-fits [] r name refl) (ap (λ rs. r ∷ rs) (fitting-all_added name ps))
  fitting-all_added name ((x ∷ p, r) ∷ ps) =
      let rest = fitting-all_added name ps in
      elim (Bool-cases (x == percent)) [
        | inl e ↦
            let z : depth (x ∷ p) ≡ 0 = rw e refl in
            rw e (rw (entry_fits-fits (x ∷ p) r name z, rest) refl)
        | inr e ↦ rw e (rw (==-suc_zero (depth p)) rest)
      ]

  gather-levels :
      (name : Bytes) (ps : List (Bytes × Rule))
      → gather name (λ u. all_added u ps) ≡ levels (length name) 0 name ps
  unfolding gather levels
  gather-levels [] ps = fitting-all_added [] ps
  gather-levels (c ∷ name) ps = rw (fitting-all_added (c ∷ name) ps) (
      ap (λ rs. level 0 (c ∷ name) ps ++ rs)
        (ap (gather name) (fun_ext (λ u. all_added-tails c u ps))
          ∙ gather-levels name (tails c ps)
          ∙ sym (levels-tails (length name) 0 c name ps)))

  -- `Get` finds exactly the rules whose pattern the name fits, once for each such pattern that was
  -- added: those with the shortest text before the percent sign first, and those with equally long
  -- ones in the order in which they were added. A pattern with no percent sign counts as fitting every
  -- name that begins with it.
  pub get_rules-levels :
      (name : Bytes) (ps : List (Bytes × Rule))
      → get_rules name (add_all ps empty_trie) ≡ levels (length name) 0 name ps
  get_rules-levels name ps =
      get_rules-gather name (add_all ps empty_trie)
      ∙ ap (gather name) (
          fun_ext
            (λ u. entries_at-add_all u ps empty_trie ∙ ap (λ es. es ++ all_added u ps) (nothing u)))
      ∙ gather-levels name ps
    where
      nothing : (u : Bytes) → entries_at u (empty_trie {Rule = Rule}) ≡ []
      nothing [] = unfold entries_at in refl
      nothing (c ∷ u) = unfold entries_at find_child in refl
