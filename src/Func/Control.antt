-- ===== src/Func/Control.antt =====
-- `if`, `and` and `or` of src/func.cc, whose arguments are evaluated as they are needed. Evaluation
-- runs on a state, since it can assign variables and run commands; the values and `Value::Eval` are
-- parameters.
pub mod Lazy
use kati.Prelude.{
  ℕ, Bool, true, false, List, [], ◌∷◌, ◌++◌, Bytes, length, ltb, ◌==◌, if◌then◌else◌,
}

module _ {ℓ κ} {Value : Type ℓ} {S : Type κ} (eval : Value → S → Bytes × S) where
  -- `IfFunc` with its two or three arguments: the condition, what is taken, and the rest.
  unfoldable pub if_func : Value → Value → List Value → Bytes → S → Bytes × S
  if_func cond action rest s st =
      let (c, st') = eval cond st in
      if length c == 0
      then (elim rest [
        | [] ↦ (s, st')
        | other ∷ _ ↦ let (r, st'') = eval other st' in (s ++ r, st'')
      ])
      else (let (r, st'') = eval action st' in (s ++ r, st''))

  -- The loop of `AndFunc` with the last condition, and what follows it.
  unfoldable pub and_from : List Value → Bytes → Bytes → S → Bytes × S
  and_from [] cond s st = (if length cond == 0 then s else s ++ cond, st)
  and_from (a ∷ args) cond s st =
      let (c, st') = eval a st in
      let rest = and_from args c s st' in if length c == 0 then (s, st') else rest

  unfoldable pub and_func : List Value → Bytes → S → Bytes × S
  unfolding and_from
  and_func args s st = and_from args [] s st

  -- `OrFunc`.
  unfoldable pub or_func : List Value → Bytes → S → Bytes × S
  or_func [] s st = (s, st)
  or_func (a ∷ args) s st =
      let (c, st') = eval a st in
      let rest = or_func args s st' in if length c == 0 then rest else (s ++ c, st')
