-- ===== src/Expr/Within.antt =====
-- What the parts of the parsers of src/expr.cc do with the place: it stays within the text.
use kati.Prelude.{
  ℕ, suc, ◌+◌, ◌-◌, ◌≤◌, ◌<◌, ◌≡◌, ◌≢◌, refl, sym, ◌∙◌, Bool, true, false, Option, none, some, List,
  [], ◌∷◌, arith, Bytes, length, drop, ◌==◌, Lacks, All-get_or, All-take, Bool-cases, inl, inr,
  length-take, get_or-drop,
}
use kati.Piece.{get}
use kati.Strutil.Trim.{backslash, return}
use kati.Rule.{Loc}
use kati.Expr.{Value, FuncInfo}
use kati.Expr.Scan.{
  Scan, Round, leave, give, dollar, next, Parsed, parsed, stopped, out_of_fuel, chop_return,
  close_paren, next_line, is_term,
}
use kati.Expr.Parse.{
  NameEnd, name_end, After, again, done, unterminated, after_argument, skip_spaces, trim_argument,
  check_arity, unmatched_reference,
}
use kati.Expr.Rounds.{get-lt, is_blank, IsForward}
use kati.Expr.Stops.{StopsPlain}

-- There is a result or an error, and the place of a result lies between two bounds.
abbrev pub EndsIn : {A : Type 0} → ℕ → ℕ → Parsed A → Type 0
EndsIn low high (parsed v n loc) = (low ≤ n) × (n ≤ high)
EndsIn low high (stopped m) = Unit {0}
EndsIn low high out_of_fuel = ⊥

pub EndsIn-weaken :
    {A : Type 0} (low high low' high' : ℕ) (r : Parsed A)
    → low' ≤ low
    → high ≤ high'
    → EndsIn low high r
    → EndsIn low' high' r
EndsIn-weaken low high low' high' (parsed v n loc) p q h = (omega arith, omega arith)
EndsIn-weaken low high low' high' (stopped m) p q h = tt
EndsIn-weaken low high low' high' out_of_fuel p q h = h

-- What follows a parser that ends.
pub followed :
    {A B : Type 0} (low high low' high' : ℕ) (r : Parsed A) (k : A → ℕ → Loc → Parsed B)
    → EndsIn low high r
    → ((v : A) (n : ℕ) (loc : Loc) → low ≤ n → n ≤ high → EndsIn low' high' (k v n loc))
    → EndsIn low' high'
        (elim r [ parsed v n loc ↦ k v n loc | stopped m ↦ stopped m | out_of_fuel ↦ out_of_fuel ])
followed low high low' high' (parsed v n loc) k h g = g v n loc h.0 h.1
followed low high low' high' (stopped m) k h g = tt
followed low high low' high' out_of_fuel k h g = h

pub after_round :
    (s : Bytes) (w : Scan) (r : Round) (end : Loc → Parsed Value)
    (back : List Value → ℕ → Parsed Value) (inner : List Value → Parsed Value)
    (more : Scan → Parsed Value)
    → IsForward s w r
    → ((loc : Loc) → EndsIn 0 (length s) (end loc))
    → ((list : List Value) (n : ℕ) → n ≤ length s → EndsIn 0 (length s) (back list n))
    → ((list : List Value) → suc w.i < length s → EndsIn 0 (length s) (inner list))
    → ((w' : Scan) → w.i < w'.i → w'.i ≤ length s → EndsIn 0 (length s) (more w'))
    → EndsIn 0 (length s) (elim r [
      | leave loc ↦ end loc
      | give list n ↦ back list n
      | dollar list ↦ inner list
      | next w' ↦ more w'
    ])
after_round s w (leave loc) end back inner more h a b c d = a loc
after_round s w (give list n) end back inner more h a b c d = b list n h
after_round s w (dollar list) end back inner more h a b c d = c list h
after_round s w (next w') end back inner more h a b c d = d w' h.0 h.1

-- The bytes that the ends of a name stand for.
abbrev IsEndOf : ℕ → ℕ → NameEnd → Type 0
IsEndOf cp c NameEnd.closed = c ≡ cp
IsEndOf cp c NameEnd.spaced = is_blank c ≡ true
IsEndOf cp c NameEnd.colon = c ≡ b':'
IsEndOf cp c NameEnd.unmatched = Unit {0}

pub name_end-IsEndOf : (cp c : ℕ) → IsEndOf cp c (name_end cp c)
unfolding name_end
name_end-IsEndOf cp c = ground arith

pub after_name :
    (s : Bytes) (cp c : ℕ) (e : NameEnd) (a b d u : Parsed Value)
    → IsEndOf cp c e
    → (c ≡ cp → EndsIn 2 (length s) a)
    → (is_blank c ≡ true → EndsIn 2 (length s) b)
    → (c ≡ b':' → EndsIn 2 (length s) d)
    → EndsIn 2 (length s) u
    → EndsIn 2 (length s) (elim e [
      | NameEnd.closed ↦ a
      | NameEnd.spaced ↦ b
      | NameEnd.colon ↦ d
      | NameEnd.unmatched ↦ u
    ])
after_name s cp c NameEnd.closed a b d u e p q r t = p e
after_name s cp c NameEnd.spaced a b d u e p q r t = q e
after_name s cp c NameEnd.colon a b d u e p q r t = r e
after_name s cp c NameEnd.unmatched a b d u e p q r t = t

-- The place behind an argument lies behind where it starts.
abbrev IsAfter : ℕ → ℕ → After → Type 0
IsAfter i high unterminated = Unit {0}
IsAfter i high (done i') = (i < i') × (i' ≤ high)
IsAfter i high (again i') = (i < i') × (i' ≤ high)

pub after_argument-IsAfter :
    (cp : ℕ) (s : Bytes) (low i : ℕ)
    → cp ≢ 0
    → low ≤ i
    → i ≤ length s
    → IsAfter low (length s) (after_argument cp s i)
unfolding after_argument
after_argument-IsAfter cp s low i c p h = ground arith

pub after_lookup :
    (high : ℕ) (o : Option FuncInfo) (a : Parsed Value) (b : FuncInfo → Parsed Value)
    → EndsIn 2 high a
    → ((fi : FuncInfo) → EndsIn 2 high (b fi))
    → EndsIn 2 high (elim o [ none ↦ a | some fi ↦ b fi ])
after_lookup high none a b p q = p
after_lookup high (some fi) a b p q = q fi

pub after_test :
    (high : ℕ) (b : Bool) (x y : Parsed Value)
    → (b ≡ true → EndsIn 2 high x)
    → (b ≡ false → EndsIn 2 high y)
    → EndsIn 2 high (elim b [ true ↦ x | false ↦ y ])
after_test high true x y p q = p refl
after_test high false x y p q = q refl

-- No name ends with a blank where none is among the terms.
pub plain_terms :
    (cp : ℕ)
    → is_blank cp ≡ false
    → (is_term (some (cp ∷ b':' ∷ [])) b' ' ≡ false)
      × (is_term (some (cp ∷ b':' ∷ [])) backslash ≡ false)
unfolding is_term
plain_terms cp h = (ground arith, ground arith)

pub close_paren-plain : (c : ℕ) → is_blank (close_paren c) ≡ false
unfolding close_paren
close_paren-plain c = ground arith

-- The same as `followed`, where the place is known to be no blank.
pub followed_plain :
    (s : Bytes) (low high low' high' : ℕ) (r : Parsed Value) (k : Value → ℕ → Loc → Parsed Value)
    → EndsIn low high r
    → StopsPlain s r
    → ((v : Value) (n : ℕ) (loc : Loc)
        → low ≤ n
        → n ≤ high
        → is_blank (get s n) ≡ false
        → EndsIn low' high' (k v n loc))
    → EndsIn low' high'
        (elim r [ parsed v n loc ↦ k v n loc | stopped m ↦ stopped m | out_of_fuel ↦ out_of_fuel ])
followed_plain s low high low' high' (parsed v n loc) k h p g = g v n loc h.0 h.1 p
followed_plain s low high low' high' (stopped m) k h p g = tt
followed_plain s low high low' high' out_of_fuel k h p g = h

pub within : (s : Bytes) (i c : ℕ) → get s i ≡ c → c ≢ 0 → i < length s
within s i c e h = get-lt s i (λ z. h (sym e ∙ z))

pub blank_within : (s : Bytes) (i : ℕ) → is_blank (get s i) ≡ true → i < length s
blank_within s i e = get-lt s i (λ z. ground arith)

pub not_both :
    (s : Bytes) (n : ℕ) → is_blank (get s (n + 2)) ≡ true → is_blank (get (drop 2 s) n) ≡ false → ⊥
not_both s n e p =
    let k : 2 + n ≡ n + 2 = omega arith in
    let q : get (drop 2 s) n ≡ get s (n + 2) = rw (← k) (get_or-drop 2 n s 0) in ground arith

pub no_colon : (s : Bytes) (i : ℕ) → Lacks b':' s → get s i ≢ b':'
no_colon s i h e = All-get_or _ s i 0 h (get-lt s i (λ z. ground arith)) e

pub unmatched_reference-EndsIn :
    (start : Loc) (s : Bytes) (cp : ℕ) (loc : Loc)
    → 2 ≤ length s
    → EndsIn 2 (length s) (unmatched_reference start s cp loc)
unfolding unmatched_reference
unmatched_reference-EndsIn start s cp loc h = ground arith

pub skip_spaces-le : (terms s : Bytes) (loc : Loc) → (skip_spaces terms s loc).0 ≤ length s
unfolding skip_spaces
skip_spaces-le terms [] loc = omega arith
skip_spaces-le terms (c ∷ s) loc =
    ground (arith, skip_spaces-le terms s loc, skip_spaces-le terms s (next_line loc))

pub trim_argument-le : (s : Bytes) (loc : Loc) → (trim_argument s loc).0 ≤ length s
unfolding trim_argument
trim_argument-le [] loc = omega arith
trim_argument-le (c ∷ s) loc =
    ground (arith, trim_argument-le s loc, trim_argument-le s (next_line loc))

pub chop_return-Lacks : (s : Bytes) → Lacks b':' s → Lacks b':' (chop_return s)
unfolding chop_return
chop_return-Lacks s h = elim (Bool-cases (get s (length s - 1) == return)) [
  | inl e ↦ rw e (All-take _ (length s - 1) s h)
  | inr e ↦ rw e h
]

pub length-chop_return : (s : Bytes) → length (chop_return s) ≤ length s
unfolding chop_return
length-chop_return s = ground (arith, length-take (length s - 1) s)

pub after_end :
    (n : ℕ) (e : After) (u : Parsed (List Value)) (d a : ℕ → Parsed (List Value)) (i high : ℕ)
    → IsAfter i high e
    → EndsIn i high u
    → ((i' : ℕ) → i < i' → i' ≤ high → EndsIn i high (d i'))
    → ((i' : ℕ) → i < i' → i' ≤ high → EndsIn i high (a i'))
    → EndsIn i high (elim e [ unterminated ↦ u | done i' ↦ d i' | again i' ↦ a i' ])
after_end n unterminated u d a i high h p q r = p
after_end n (done i') u d a i high h p q r = q i' h.0 h.1
after_end n (again i') u d a i high h p q r = r i' h.0 h.1

pub check_arity-EndsIn :
    (fi : FuncInfo) (args : List Value) (i low high : ℕ) (loc : Loc)
    → low ≤ i
    → i ≤ high
    → EndsIn low high (check_arity fi args i loc)
unfolding check_arity
check_arity-EndsIn fi args i low high loc p q = ground arith
