-- ===== src/Var/Protect.antt =====
-- Which assignments a global variable withstands.
use kati.Prelude.{◌≡◌, Bool, true, not, ◌&&◌, ◌||◌, List, Bytes, text_eq}
use kati.Var.{
  Var, is_overriding, is_command_line, is_file, set_global_var, Assigned, stored, kept, refused,
  failed,
}

module _ {Value : Type 0} where
  -- An assignment that does not replace a variable: this is read only, or it was set by `override` and
  -- the assignment has no `override`, or it was set on the command line and the new one is a makefile's.
  abbrev pub is_weak : Var Value → Var Value → Bool → Bool
  is_weak orig v is_override =
      orig.readonly
      || (not is_override && is_overriding orig.origin
          || is_command_line orig.origin && is_file v.origin)

  -- The table that an assignment leaves, unless it ends the program.
  abbrev pub Leaves : List (Bytes × Var Value) → Assigned Value → List (Bytes × Var Value) → Type 0
  Leaves g (stored t) h = h ≡ t
  Leaves g kept h = h ≡ g
  Leaves g refused h = h ≡ g
  Leaves g (failed m) h = ⊥

  -- A run of assignments to global variables, each of them stored, kept out or refused.
  pub data Run : List (Bytes × Var Value) → List (Bytes × Var Value) → Type 0 where
    done : {g : List (Bytes × Var Value)} → Run g g
    set :
        {g h k : List (Bytes × Var Value)} (name : Bytes) (v : Var Value) (is_override : Bool)
        → Leaves g (set_global_var name v is_override g) h
        → Run h k
        → Run g k

  -- Every assignment of a run to a name is too weak for a variable.
  abbrev pub AllWeak : {g k : List (Bytes × Var Value)} → Bytes → Var Value → Run g k → Type 0
  AllWeak name orig done = Unit
  AllWeak name orig (set n v is_override e run) =
      (text_eq n name ≡ true → is_weak orig v is_override ≡ true) × AllWeak name orig run
