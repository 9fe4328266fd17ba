-- ===== src/Ninja/Translate.antt =====
-- `TranslateCommand` of src/ninja.cc against a reading of the text that looks ahead.
use kati.Prelude.{
  ℕ, ◌-◌, ◌≡◌, ◌≢◌, refl, sym, ap, ◌∙◌, Bool, true, false, not, ◌&&◌, Option, none, some, [], ◌∷◌,
  ◌++◌, arith, Bytes, length, take-append, length-append, codes, Bool-cases, inl, inr, ◌==◌,
  if◌then◌else◌, ◌>>=◌, Lacks, append-nil, append_assoc, and_false, ==_iff,
}
use mathlib.Core.List.{reverse}
use kati.Strutil.Trim.{newline, backslash}
use kati.Ninja.{
  Translation, put_text, end_round, chop, is_quote, quote_after, end_line, translate_byte,
  translate_round, translate_loop, trim_back, start_translation, translate_command,
}

-- What stands for a byte: two dollars for one, a space for a newline.
abbrev pub single : ℕ → Bytes
single c = if c == b'$' then codes "$$" else if c == newline then codes " " else c ∷ []

-- The text as one line: a backslash with the newline behind it goes, a pair of backslashes stays, and a
-- backslash at the end goes.
unfoldable pub joined : Bytes → Bytes
joined [] = []
joined (c ∷ []) = if c == backslash then [] else single c
joined (c ∷ d ∷ s) =
    let next = joined (d ∷ s) in
    let behind = joined s in
    if not (c == backslash)
    then single c ++ next
    else if d == newline
    then behind
    else if d == backslash
    then c ∷ d ∷ behind
    else c ∷ next

joined-plain :
    (c : ℕ) (s : Bytes) → (c == backslash) ≡ false → joined (c ∷ s) ≡ single c ++ joined s
unfolding joined
joined-plain c [] h = rw h (sym (append-nil (single c)))
joined-plain c (d ∷ s) h = rw h refl

joined-newline : (d : ℕ) (s : Bytes) → (d == newline) ≡ true → joined (backslash ∷ d ∷ s) ≡ joined s
unfolding joined
joined-newline d s h = rw h refl

single_backslash :
    (d : ℕ) (s : Bytes)
    → (d == newline) ≡ false
    → (d == backslash) ≡ false
    → joined (backslash ∷ d ∷ s) ≡ backslash ∷ joined (d ∷ s)
unfolding joined
single_backslash d s h k = rw h (rw k refl)

-- A backslash stays before any other byte.
joined_pair :
    (d : ℕ) (s : Bytes)
    → (d == newline) ≡ false
    → joined (backslash ∷ d ∷ s) ≡ backslash ∷ (single d ++ joined s)
unfolding joined
joined_pair d s h = elim (Bool-cases (d == backslash)) [
  | inl k ↦ let l : (d == b'$') ≡ false = ground (arith, k) in rw h (rw k (rw l refl))
  | inr k ↦ single_backslash d s h k ∙ ap (λ x. backslash ∷ x) (joined-plain d s k)
]

-- A round outside a comment, at a byte that is no backslash behind a backslash's newline and no `#`.
abbrev Steps : ℕ → Translation → Option Translation → Type 0
Steps c t r =
    (t' : Translation) × (r ≡ some t')
    × (t'.buf ≡ t.buf ++ single c)
    × (t'.prev_backslash ≡ (c == backslash && not t.prev_backslash))
    × (t'.in_comment ≡ false)

translate_round-byte :
    (c : ℕ) (is_end : Bool) (t : Translation)
    → t.in_comment ≡ false
    → c ≢ b'#'
    → translate_round c is_end t
      ≡ (elim (translate_byte c t) [ none ↦ none | some t' ↦ some (end_round c t') ])
unfolding translate_round
translate_round-byte c is_end t i n = let h : (c == b'#') ≡ false = ground arith in rw i (rw h refl)

translate_round-Steps :
    (c : ℕ) (is_end : Bool) (t : Translation)
    → t.in_comment ≡ false
    → c ≢ b'#'
    → (c == newline && t.prev_backslash) ≡ false
    → Steps c t (translate_round c is_end t)
unfolding translate_byte end_line
translate_round-Steps c is_end t i n h =
    let start = translate_round-byte c is_end t i n in
    elim (Bool-cases (is_quote c)) [
      | inl q ↦
          let d : (c == b'$') ≡ false = ground (arith, q) in
          let l : (c == newline) ≡ false = ground (arith, q) in
          (
            end_round c (put_text (c ∷ []) (record t { quote = quote_after c t })),
            (start ∙ (rw q refl)),
            (rw d (rw l refl)),
            refl,
            refl,
          )
      | inr q ↦ elim (Bool-cases (c == b'$')) [
        | inl d ↦ (
          end_round c (put_text (codes "$$") t),
          (start ∙ (rw q (rw d refl))),
          (rw d refl),
          refl,
          refl,
        )
        | inr d ↦ elim (Bool-cases (c == newline)) [
          | inl l ↦
              let p : t.prev_backslash ≡ false = ground (arith, h, l) in
              (
                end_round c (put_text (codes " ") t),
                (start ∙ (rw q (rw d (rw l (rw p refl))))),
                (rw d (rw l refl)),
                refl,
                refl,
              )
          | inr l ↦ (
            end_round c (put_text (c ∷ []) t),
            (start ∙ (rw q (rw d (rw l refl)))),
            (rw d (rw l refl)),
            refl,
            refl,
          )
        ]
      ]
    ]

-- The buffer behind the loop, without a backslash at its end.
abbrev ended : Option Translation → Option Bytes
ended none = none
ended (some t) = if t.prev_backslash then chop t.buf else some t.buf

chop-append : (b : Bytes) (c : ℕ) → chop (b ++ c ∷ []) ≡ some b
unfolding chop
chop-append b c =
    let l = length-append b (c ∷ []) in
    let n : (length (b ++ c ∷ []) == 0) ≡ false = ground (arith, l) in
    rw n (ap (λ s. some s) (take-append (length (b ++ c ∷ []) - 1) b (c ∷ []) (omega (arith, l))))

end_line-pending :
    (t : Translation) (b : Bytes)
    → t.prev_backslash ≡ true
    → t.buf ≡ b ++ backslash ∷ []
    → end_line t ≡ some (record t { buf = b })
unfolding end_line
end_line-pending t b p e =
    pending _ t.prev_backslash p
    ∙ ap
        (λ o. elim o as (λ _. Option Translation) [
          | none ↦ none
          | some c ↦ some (record t { buf = c })
        ])
        (ap chop e ∙ chop-append b backslash)
  where
    pending :
        {x : Option Translation} (y : Option Translation) (f : Bool)
        → f ≡ true
        → (if f then x else y) ≡ x
    pending y true h = refl
    pending y false h = absurd cc

translate_byte-newline :
    (d : ℕ) (t : Translation) → (d == newline) ≡ true → translate_byte d t ≡ end_line t
unfolding translate_byte
translate_byte-newline d t n =
    let q : is_quote d ≡ false = ground (arith, n) in
    let l : (d == b'$') ≡ false = ground (arith, n) in rw q (rw l (rw n refl))

behind_newline :
    (d : ℕ) (is_end : Bool) (t : Translation) (b : Bytes)
    → t.in_comment ≡ false
    → (d == newline) ≡ true
    → t.prev_backslash ≡ true
    → t.buf ≡ b ++ backslash ∷ []
    → translate_round d is_end t ≡ some (end_round d (record t { buf = b }))
behind_newline d is_end t b i n p e =
    translate_round-byte d is_end t i (ground (arith, n))
    ∙ ap
        (λ o. elim o as (λ _. Option Translation) [ none ↦ none | some t' ↦ some (end_round d t') ])
        (translate_byte-newline d t n ∙ end_line-pending t b p e)

after_round :
    (o : Option Translation) (s : Bytes) (t : Translation)
    → o ≡ some t
    → (elim o [ none ↦ none | some t' ↦ translate_loop s t' ]) ≡ translate_loop s t
after_round o s t e = rw e refl

-- The loop, outside a comment: without a pending backslash, and with one at the end of the buffer.
mutual
  unfolding translate_loop joined

  translate_loop-joined :
      (s : Bytes) (t : Translation)
      → t.in_comment ≡ false
      → t.prev_backslash ≡ false
      → Lacks b'#' s
      → ended (translate_loop s t) ≡ some (t.buf ++ joined s)
  translate_loop-joined [] t i p h = rw p (rw (append-nil t.buf) refl)
  translate_loop-joined (c ∷ s) t i p h =
      let (t', e, b, q, j) =
        translate_round-Steps c (length s == 0) t i h.0 (rw p (and_false (c == newline))) in
      ap ended (after_round (translate_round c (length s == 0) t) s t' e)
      ∙ elim (Bool-cases (c == backslash)) [
        | inl k ↦
            translate_loop-pending s t' t.buf j (q ∙ rw k (rw p refl))
              (b ∙ ap (λ x. t.buf ++ single x) ((==_iff c backslash).0 k)) h.1
            ∙ ap (λ x. some (t.buf ++ joined (x ∷ s))) (sym ((==_iff c backslash).0 k))
        | inr k ↦
            translate_loop-joined s t' j (ground (arith, k, q)) h.1
            ∙ ap (λ x. some (x ++ joined s)) b
            ∙ ap (λ x. some x) (append_assoc t.buf (single c) (joined s))
            ∙ ap (λ x. some (t.buf ++ x)) (sym (joined-plain c s k))
      ]

  translate_loop-pending :
      (s : Bytes) (t : Translation) (b : Bytes)
      → t.in_comment ≡ false
      → t.prev_backslash ≡ true
      → t.buf ≡ b ++ backslash ∷ []
      → Lacks b'#' s
      → ended (translate_loop s t) ≡ some (b ++ joined (backslash ∷ s))
  translate_loop-pending [] t b i p e h =
      rw p (ap chop e ∙ chop-append b backslash ∙ ap (λ x. some x) (sym (append-nil b)))
  translate_loop-pending (d ∷ s) t b i p e h = elim (Bool-cases (d == newline)) [
    | inl n ↦
        let d_plain : (d == backslash) ≡ false = ground (arith, n) in
        ap ended (
          after_round (translate_round d (length s == 0) t) s _
            (behind_newline d (length s == 0) t b i n p e))
        ∙ translate_loop-joined s (end_round d (record t { buf = b })) refl (rw d_plain refl) h.1
        ∙ ap (λ x. some (b ++ x)) (sym (joined-newline d s n))
    | inr n ↦
        let (t', r, f, q, j) = translate_round-Steps d (length s == 0) t i h.0 (rw n refl) in
        ap ended (after_round (translate_round d (length s == 0) t) s t' r)
        ∙ translate_loop-joined s t' j (q ∙ rw p (and_false (d == backslash))) h.1
        ∙ ap (λ x. some (x ++ joined s)) (f ∙ ap (λ x. x ++ single d) e)
        ∙ ap (λ x. some x)
            (append_assoc (b ++ backslash ∷ []) (single d) (joined s)
              ∙ append_assoc b (backslash ∷ []) (single d ++ joined s)
              ∙ ap (λ x. b ++ x) (sym (joined_pair d s n)))
  ]

-- For a text with no `#`, `TranslateCommand` puts the text as one line, its dollars doubled, behind what
-- is in the buffer, and cuts off the spaces and semicolons at the end; there is an error only if nothing
-- else is in the buffer then.
pub translate_command-joined :
    (s cmd_buf : Bytes)
    → Lacks b'#' s
    → translate_command s cmd_buf
      ≡ (trim_back (reverse (cmd_buf ++ joined s)) >>= λ r. some (reverse r))
unfolding translate_command
translate_command-joined s cmd_buf h =
    as_ended (translate_loop s (start_translation cmd_buf))
    ∙ ap (λ o. o >>= λ b. trim_back (reverse b) >>= λ r. some (reverse r))
        (translate_loop-joined s (start_translation cmd_buf) refl refl h)
  where
    as_ended :
        (o : Option Translation)
        → (o >>= λ t. (if t.prev_backslash then chop t.buf else some t.buf) >>= λ b.
            trim_back (reverse b) >>= λ r. some (reverse r))
          ≡ (ended o >>= λ b. trim_back (reverse b) >>= λ r. some (reverse r))
    as_ended none = refl
    as_ended (some t) = refl
