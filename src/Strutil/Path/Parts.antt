-- ===== src/Strutil/Path/Parts.antt =====
-- The parts of a path fit together again.
use kati.Prelude.{ℕ, suc, ◌≡◌, refl, none, some, ◌∷◌, ◌++◌, Bytes, length, Lacks}
use kati.Piece.{rfind}
use kati.Piece.Last.{rfind_last}
use kati.Strutil.Pattern.Affix.{substr-front, substr-behind}
use kati.Strutil.Path.{slash, dirname, basename}

module _ (c : ℕ) (d b : Bytes) (h : Lacks slash b) where
  last_slash : rfind ((c ∷ d) ++ slash ∷ b) slash none ≡ some (suc (length d))
  last_slash = rfind_last slash (c ∷ d) b h

  dirname-append : dirname ((c ∷ d) ++ slash ∷ b) ≡ c ∷ d
  unfolding dirname
  dirname-append = rw (last_slash, dirname) (substr-front (c ∷ d) (slash ∷ b) (suc (length d)) refl)

  basename-append : basename ((c ∷ d) ++ slash ∷ b) ≡ b
  unfolding basename
  basename-append = rw (last_slash, basename) (substr-behind (c ∷ d) b slash)

  -- Where the last slash of a path is not its first byte, `Dirname` is what stands before it, and
  -- `Basename` what stands behind it.
  pub dirname-basename :
      (dirname ((c ∷ d) ++ slash ∷ b) ≡ c ∷ d) × (basename ((c ∷ d) ++ slash ∷ b) ≡ b)
  dirname-basename = (dirname-append, basename-append)
