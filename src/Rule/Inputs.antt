-- ===== src/Rule/Inputs.antt =====
-- Which prerequisites `ParseInputs` reads from a text.
use kati.Prelude.{
  ◌≡◌, refl, sym, ap, ◌∙◌, inl, inr, Bool, true, false, List, [], ◌∷◌, ◌++◌, append_assoc,
  append-nil, Bytes, if◌then◌else◌, Bool-cases, codes, text_eq, map,
}
use kati.Strutil.Words.{words}
use kati.Strutil.Trim.{trim_leading_curdir}
use kati.Rule.{Rule, push_input, push_inputs, input_files, input_words, parse_inputs_text}

-- The words before the first bar, and those behind it that are no bars.
pub before_bar : List Bytes → List Bytes
before_bar [] = []
before_bar (t ∷ ts) = let rest = before_bar ts in if text_eq t (codes "|") then [] else t ∷ rest

pub no_bars : List Bytes → List Bytes
no_bars [] = []
no_bars (t ∷ ts) = if text_eq t (codes "|") then no_bars ts else t ∷ no_bars ts

pub behind_bar : List Bytes → List Bytes
behind_bar [] = []
behind_bar (t ∷ ts) = let rest = behind_bar ts in if text_eq t (codes "|") then no_bars ts else rest

-- The prerequisites for words: each word stands for what the file system has for it, in ninja mode
-- for itself, with no `./` at its start.
pub prerequisites : Bool → (Bytes → List Bytes) → List Bytes → List Bytes
prerequisites ninja glob [] = []
prerequisites ninja glob (t ∷ ts) =
    map trim_leading_curdir (input_files ninja glob t) ++ prerequisites ninja glob ts

module _ {Value : Type 0} where
  -- Both lists of inputs, made longer.
  abbrev pub extend : List Bytes → List Bytes → Rule Value → Rule Value
  extend xs ys r = record r {
    inputs = r.inputs ++ xs;
    order_only_inputs = r.order_only_inputs ++ ys;
  }

  extend-nil : (r : Rule Value) → r ≡ extend [] [] r
  extend-nil r = rw (append-nil r.inputs, append-nil r.order_only_inputs) refl

  extend-extend :
      (xs ys xs' ys' : List Bytes) (r : Rule Value)
      → extend xs' ys' (extend xs ys r) ≡ extend (xs ++ xs') (ys ++ ys') r
  extend-extend xs ys xs' ys' r =
      rw (append_assoc r.inputs xs xs', append_assoc r.order_only_inputs ys ys') refl

  -- The files of one word go to one of the lists.
  abbrev extend_one : Bool → List Bytes → Rule Value → Rule Value
  extend_one true xs r = extend [] xs r
  extend_one false xs r = extend xs [] r

  push_input-extend :
      (order_only : Bool) (sym : Bytes) (r : Rule Value)
      → push_input order_only sym r ≡ extend_one order_only (sym ∷ []) r
  push_input-extend true sym r = rw (append-nil r.inputs) refl
  push_input-extend false sym r = rw (append-nil r.order_only_inputs) refl

  extend_one-cons :
      (order_only : Bool) (x : Bytes) (xs : List Bytes) (r : Rule Value)
      → extend_one order_only xs (extend_one order_only (x ∷ []) r)
        ≡ extend_one order_only (x ∷ xs) r
  extend_one-cons true x xs r = extend-extend [] (x ∷ []) [] xs r
  extend_one-cons false x xs r = extend-extend (x ∷ []) [] xs [] r

  push_inputs-extend :
      (order_only : Bool) (files : List Bytes) (r : Rule Value)
      → push_inputs order_only files r ≡ extend_one order_only (map trim_leading_curdir files) r
  unfolding push_inputs
  push_inputs-extend true [] r = extend-nil r
  push_inputs-extend false [] r = extend-nil r
  push_inputs-extend order_only (f ∷ files) r =
      push_inputs-extend order_only files (push_input order_only (trim_leading_curdir f) r)
      ∙ ap (extend_one order_only (map trim_leading_curdir files))
          (push_input-extend order_only (trim_leading_curdir f) r)
      ∙ extend_one-cons order_only (trim_leading_curdir f) (map trim_leading_curdir files) r

  module _ (ninja : Bool) (glob : Bytes → List Bytes) where
    input_words-order_only :
        (ts : List Bytes) (r : Rule Value)
        → input_words ninja glob true ts r ≡ extend [] (prerequisites ninja glob (no_bars ts)) r
    unfolding input_words prerequisites no_bars
    input_words-order_only [] r = extend-nil r
    input_words-order_only (t ∷ ts) r =
        let files = input_files ninja glob t in
        elim (Bool-cases (text_eq t (codes "|"))) [
          | inl e ↦ rw e (input_words-order_only ts r)
          | inr e ↦ rw e (
              input_words-order_only ts (push_inputs true files r)
              ∙ ap (extend [] (prerequisites ninja glob (no_bars ts)))
                  (push_inputs-extend true files r)
              ∙ extend-extend [] (map trim_leading_curdir files) []
                  (prerequisites ninja glob (no_bars ts)) r)
        ]

    input_words-split :
        (ts : List Bytes) (r : Rule Value)
        → input_words ninja glob false ts r
          ≡ extend
              (prerequisites ninja glob (before_bar ts))
              (prerequisites ninja glob (behind_bar ts))
              r
    unfolding input_words prerequisites before_bar behind_bar
    input_words-split [] r = extend-nil r
    input_words-split (t ∷ ts) r =
        let files = input_files ninja glob t in
        elim (Bool-cases (text_eq t (codes "|"))) [
          | inl e ↦ rw e (input_words-order_only ts r)
          | inr e ↦ rw e (
              input_words-split ts (push_inputs false files r)
              ∙ ap
                  (extend (prerequisites ninja glob (before_bar ts))
                    (prerequisites ninja glob (behind_bar ts)))
                  (push_inputs-extend false files r)
              ∙ extend-extend (map trim_leading_curdir files) []
                  (prerequisites ninja glob (before_bar ts))
                  (prerequisites ninja glob (behind_bar ts)) r)
        ]

    -- `ParseInputs` appends to the inputs the prerequisites before the first bar, and to the order-only
    -- inputs those behind it, each in their order; nothing else of the rule changes but the mark that it
    -- is parsed.
    pub parse_inputs_text-split :
        (inputs_str : Bytes) (r : Rule Value)
        → parse_inputs_text ninja glob inputs_str r
          ≡ record (extend
              (prerequisites ninja glob (before_bar (words inputs_str)))
              (prerequisites ninja glob (behind_bar (words inputs_str)))
              r) { parsed_inputs = true }
    unfolding parse_inputs_text
    parse_inputs_text-split inputs_str r =
        ap (λ (q : Rule Value). record q { parsed_inputs = true })
          (input_words-split (words inputs_str) r)
