-- ===== src/Strutil/Escape/Echo.antt =====
-- `EchoEscape` loses nothing.
use kati.Prelude.{ℕ, ◌≡◌, ◌≢◌, refl, sym, ◌∙◌, false, [], ◌∷◌, ◌++◌, arith, Bytes, ◌==◌, Lacks}
use kati.Strutil.Escape.{echo_byte, echo_escape}

-- No escape of a byte is the beginning of another's.
echo_byte-prefix : (c d : ℕ) (x y : Bytes) → echo_byte c ++ x ≡ echo_byte d ++ y → (c ≡ d) × (x ≡ y)
unfolding echo_byte
echo_byte-prefix c d x y h = ground arith

echo_escape-cons : (c : ℕ) (s : Bytes) → c ≢ 0 → echo_escape (c ∷ s) ≡ echo_byte c ++ echo_escape s
unfolding echo_escape
echo_escape-cons c s h = let nz : (c == 0) ≡ false = ground arith in rw nz refl

echo_byte-ne-nil : (c : ℕ) (x : Bytes) → echo_byte c ++ x ≢ []
unfolding echo_byte
echo_byte-ne-nil c x h = ground arith

-- Two texts with no NUL byte that `EchoEscape` writes alike are the same text.
pub echo_escape-injective :
    (s t : Bytes) → Lacks 0 s → Lacks 0 t → echo_escape s ≡ echo_escape t → s ≡ t
echo_escape-injective [] [] hs ht e = refl
echo_escape-injective [] (d ∷ t) hs ht e = absurd (
    echo_byte-ne-nil d (echo_escape t)
      (sym (echo_escape-cons d t ht.0) ∙ sym e ∙ (unfold echo_escape in refl)))
echo_escape-injective (c ∷ s) [] hs ht e = absurd (
    echo_byte-ne-nil c (echo_escape s)
      (sym (echo_escape-cons c s hs.0) ∙ e ∙ (unfold echo_escape in refl)))
echo_escape-injective (c ∷ s) (d ∷ t) hs ht e =
    let (head, tail) =
      echo_byte-prefix c d (echo_escape s) (echo_escape t)
        (sym (echo_escape-cons c s hs.0) ∙ e ∙ echo_escape-cons d t ht.0) in
    let rest : s ≡ t = echo_escape-injective s t hs.1 ht.1 tail in cc (head, rest)
