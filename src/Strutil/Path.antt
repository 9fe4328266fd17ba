-- ===== src/Strutil/Path.antt =====
-- `Dirname`, `Basename`, `GetExt` and `StripExt` of src/strutil.cc.
pub mod Parts
use kati.Prelude.{
  ℕ, zero, suc, ◌+◌, Bool, true, false, Option, none, some, List, [], ◌∷◌, ◌++◌, Bytes, ltb,
  if◌then◌else◌,
}
use kati.Piece.{substr, rfind}

abbrev pub slash : ℕ
slash = b'/'

abbrev pub dot : ℕ
dot = b'.'

unfoldable pub dirname : Bytes → Bytes
unfolding rfind substr
dirname s = elim (rfind s slash none) [
  | none ↦ dot ∷ []
  | some zero ↦ []
  | some (suc i) ↦ substr s 0 (some (suc i))
]

unfoldable pub basename : Bytes → Bytes
unfolding rfind substr
basename s = elim (rfind s slash none) [
  | none ↦ s
  | some zero ↦ s
  | some (suc i) ↦ substr s (suc i + 1) none
]

unfoldable pub get_ext : Bytes → Bytes
unfolding rfind substr
get_ext s = elim (rfind s dot none) [ none ↦ [] | some found ↦ substr s found none ]

unfoldable pub strip_ext : Bytes → Bytes
unfolding rfind substr
strip_ext s = elim (rfind s dot none) [
  | none ↦ s
  | some found ↦ elim (rfind s slash none) [
    | none ↦ substr s 0 (some found)
    | some slash_index ↦ if ltb found slash_index then s else substr s 0 (some found)
  ]
]
