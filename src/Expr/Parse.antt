-- ===== src/Expr/Parse.antt =====
-- `ParseExprImpl`, `ParseDollar`, `ParseFunc` and `ParseExpr` of src/expr.cc. The parsers call one
-- another and each call costs a unit of fuel. The location that they share is passed on. Warnings are
-- left out. The pieces of the text that they pass on all end where the text ends, and a read at that
-- place gives 0: the text ends its string, which has a NUL byte there. For a piece of a longer buffer
-- the source reads the next byte of the buffer there. `terms` is the list of its bytes, and `none` for a null pointer.
use kati.Prelude.{
  ℕ, zero, suc, ◌+◌, ◌-◌, Bool, true, false, not, ◌&&◌, ◌||◌, Option, none, some, List, [], ◌∷◌,
  ◌++◌, Bytes, length, drop, leb, ◌==◌, if◌then◌else◌, codes,
}
use kati.Piece.{get, substr, find_byte}
use kati.Strutil.Words.{is_space}
use kati.Strutil.Trim.{backslash}
use kati.Rule.{Loc}
use kati.Expr.{
  Value, literal, sym_ref, var_ref, var_subst, func, FuncInfo, new_expr, to_values, literal_value,
  get_func_info,
}
use kati.Expr.Scan.{
  ParseExprOpt, Parsed, Scan, chop_return, close_paren, dollar, finish, give, is_newline, leave,
  next, next_line, out_of_fuel, parsed, scan_round, start_scan, stopped, strchr,
}

-- `SkipSpaces`, over the bytes.
unfoldable pub skip_spaces : Bytes → Bytes → Loc → ℕ × Loc
unfolding strchr
skip_spaces terms [] loc = (0, loc)
skip_spaces terms (c ∷ s) loc =
    let (n, loc') = skip_spaces terms s loc in
    let (m, loc'') = skip_spaces terms s (next_line loc) in
    if strchr terms c
    then (0, loc)
    else if is_space c
    then (n + 1, loc')
    else if c == backslash && is_newline (get s 0)
    then (m + 1, loc'')
    else (0, loc)

-- The loop of `ParseFunc` over the blanks before an argument.
unfoldable pub trim_argument : Bytes → Loc → ℕ × Loc
trim_argument [] loc = (0, loc)
trim_argument (c ∷ s) loc =
    let (n, loc') = trim_argument s loc in
    let (m, loc'') = trim_argument s (next_line loc) in
    if is_space c
    then (n + 1, loc')
    else if c == backslash && is_newline (get s 0)
    then (m + 1, loc'')
    else (0, loc)

-- The arguments with one more, and what comes next: the place of the next argument or the end.
pub data After : Type 0 where
  again : ℕ → After
  done : ℕ → After
  unterminated : After

-- Behind an argument that ends at `i`.
unfoldable pub after_argument : ℕ → Bytes → ℕ → After
after_argument cp s i =
    if i == length s
    then unterminated
    else if get s i == cp
    then done (i + 1)
    else if i + 1 == length s
    then done (i + 1)
    else again (i + 1)

-- The last test of `ParseFunc`, after `n` arguments.
unfoldable pub check_arity : FuncInfo → List Value → ℕ → Loc → Parsed (List Value)
check_arity fi args i loc =
    if leb (length args + 1) fi.min_arity
    then stopped
        (codes "*** insufficient number of arguments to function `" ++ (fi.name ++ codes "'."))
    else parsed args i loc

abbrev pub terms_of : FuncInfo → ℕ → ℕ → Bytes
terms_of fi cp nargs = if not (fi.arity == 0) && leb fi.arity nargs then cp ∷ [] else cp ∷ b',' ∷ []

-- The test of `ParseDollar` on the byte behind a name.
pub data NameEnd : Type 0 where
  closed : NameEnd
  spaced : NameEnd
  colon : NameEnd
  unmatched : NameEnd

unfoldable pub name_end : ℕ → ℕ → NameEnd
name_end cp c =
    if c == cp
    then NameEnd.closed
    else if c == b' ' || c == backslash
    then NameEnd.spaced
    else if c == b':'
    then NameEnd.colon
    else NameEnd.unmatched

-- A name that is closed: a literal is the name of a symbol.
unfoldable pub reference : Loc → Value → Value
reference loc vname = elim (literal_value vname) [
  | none ↦ var_ref loc vname
  | some name ↦ sym_ref loc name
]

-- `GetFuncInfo` of a literal.
unfoldable pub func_of : Value → Option FuncInfo
unfolding get_func_info
func_of vname = elim (literal_value vname) [ none ↦ none | some name ↦ get_func_info name ]

-- `$((` and its like, which GNU make accepts.
unfoldable pub unmatched_reference : Loc → Bytes → ℕ → Loc → Parsed Value
unfolding find_byte substr
unmatched_reference start_loc s cp loc = elim (find_byte s cp 0) [
  | none ↦ stopped (codes "*** unterminated variable reference.")
  | some found ↦ parsed (sym_ref start_loc (substr s 2 (some (found - 2)))) (length s) loc
]

unfoldable mutual
  -- `ParseExprImpl`.
  pub parse_expr_impl : ℕ → Loc → Bytes → Option Bytes → ParseExprOpt → Bool → Parsed Value
  parse_expr_impl zero loc s terms opt trim_right = out_of_fuel
  parse_expr_impl (suc f) loc s terms opt trim_right =
      parse_loop f opt trim_right loc (chop_return s) (start_scan terms loc)

  -- The loop of `ParseExprImpl`.
  pub parse_loop : ℕ → ParseExprOpt → Bool → Loc → Bytes → Scan → Parsed Value
  parse_loop zero opt trim_right list_loc s w = out_of_fuel
  parse_loop (suc f) opt trim_right list_loc s w = elim (scan_round opt s w) [
    | leave loc ↦ finish trim_right list_loc s w loc
    | give list index ↦ parsed (new_expr w.loc list) index w.loc
    | dollar list ↦ elim (parse_dollar f w.loc (drop w.i s)) [
      | parsed v n loc ↦
          parse_loop f opt trim_right list_loc s
            (record w { i = w.i + n; b = w.i + n; list = list ++ v ∷ []; loc = loc })
      | stopped m ↦ stopped m
      | out_of_fuel ↦ out_of_fuel
    ]
    | next w' ↦ parse_loop f opt trim_right list_loc s w'
  ]

  -- `ParseDollar`.
  pub parse_dollar : ℕ → Loc → Bytes → Parsed Value
  parse_dollar zero loc s = out_of_fuel
  parse_dollar (suc f) loc s =
      let name = parse_name f loc loc s (close_paren (get s 1)) (b':' ∷ b' ' ∷ []) in
      if close_paren (get s 1) == 0 then parsed (sym_ref loc (substr s 1 (some 1))) 2 loc else name

  -- The loop of `ParseDollar`, with the terms behind the first.
  pub parse_name : ℕ → Loc → Loc → Bytes → ℕ → Bytes → Parsed Value
  parse_name zero start_loc loc s cp terms = out_of_fuel
  parse_name (suc f) start_loc loc s cp terms =
      elim (parse_expr_impl f loc (drop 2 s) (some (cp ∷ terms)) ParseExprOpt.normal false) [
        | stopped m ↦ stopped m
        | out_of_fuel ↦ out_of_fuel
        | parsed vname n loc' ↦ elim (name_end cp (get s (n + 2))) [
          | closed ↦ parsed (reference start_loc vname) (n + 3) loc'
          | spaced ↦ elim (func_of vname) [
            | none ↦ parse_name f start_loc loc' s cp (b':' ∷ [])
            | some fi ↦ parse_func f start_loc loc' s cp fi (n + 3)
          ]
          | colon ↦ parse_subst f start_loc loc' s cp vname (n + 3)
          | unmatched ↦ unmatched_reference start_loc s cp loc'
        ]
      ]

  -- The pattern and the replacement behind a colon, from `i` on.
  pub parse_subst : ℕ → Loc → Loc → Bytes → ℕ → Value → ℕ → Parsed Value
  parse_subst zero start_loc loc s cp vname i = out_of_fuel
  parse_subst (suc f) start_loc loc s cp vname i =
      elim (parse_expr_impl f loc (drop i s) (some (cp ∷ b'=' ∷ [])) ParseExprOpt.normal false) [
        | stopped m ↦ stopped m
        | out_of_fuel ↦ out_of_fuel
        | parsed pat n loc' ↦ elim (get s (i + n) == cp) [
          | true ↦
              parsed
                (var_ref start_loc (new_expr start_loc (vname ∷ literal (codes ":") ∷ pat ∷ [])))
                (i + n + 1) loc'
          | false ↦
              elim (parse_expr_impl f loc' (drop (i + n + 1) s) (some (cp ∷ [])) ParseExprOpt.normal
                false) [
                  | stopped m ↦ stopped m
                  | out_of_fuel ↦ out_of_fuel
                  | parsed subst m loc'' ↦
                      parsed (var_subst start_loc vname pat subst) (i + n + 1 + m + 1) loc''
                ]
        ]
      ]

  -- `ParseFunc`, from `i` on.
  pub parse_func : ℕ → Loc → Loc → Bytes → ℕ → FuncInfo → ℕ → Parsed Value
  parse_func zero start_loc loc s cp fi i = out_of_fuel
  parse_func (suc f) start_loc loc s cp fi i =
      let (n, loc') = skip_spaces (cp ∷ b',' ∷ []) (drop i s) loc in
      let args = parse_arguments f loc' s cp fi (i + n) [] in
      elim (i + n == length s) [
        | true ↦ parsed (func start_loc fi (to_values [])) (i + n) loc'
        | false ↦ elim args [
          | stopped m ↦ stopped m
          | out_of_fuel ↦ out_of_fuel
          | parsed vs index loc'' ↦ parsed (func start_loc fi (to_values vs)) index loc''
        ]
      ]

  -- The loop of `ParseFunc`, with the arguments before `i`.
  pub parse_arguments : ℕ → Loc → Bytes → ℕ → FuncInfo → ℕ → List Value → Parsed (List Value)
  parse_arguments zero loc s cp fi i args = out_of_fuel
  parse_arguments (suc f) loc s cp fi i args =
      let (k, loc') = if fi.trim_space then trim_argument (drop i s) loc else (0, loc) in
      let trim_right = fi.trim_space || (length args == 0 && fi.trim_right_space_1st) in
      elim (parse_expr_impl f loc' (drop (i + k) s) (some (terms_of fi cp (length args + 1)))
        ParseExprOpt.func_args trim_right) [
          | stopped m ↦ stopped m
          | out_of_fuel ↦ out_of_fuel
          | parsed v n loc'' ↦ elim (after_argument cp s (i + k + n)) [
            | unterminated ↦
                stopped (codes "*** unterminated call to function '" ++ (fi.name ++ codes "'."))
            | done i' ↦ check_arity fi (args ++ v ∷ []) i' loc''
            | again i' ↦ parse_arguments f loc'' s cp fi i' (args ++ v ∷ [])
          ]
        ]

-- `ParseExpr`.
unfoldable pub parse_expr : ℕ → Loc → Bytes → ParseExprOpt → Parsed Value
unfolding parse_expr_impl parse_loop parse_dollar parse_name parse_subst parse_func parse_arguments
parse_expr fuel loc s opt = parse_expr_impl fuel loc s none opt false
