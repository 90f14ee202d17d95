-- ===== src/Azure/Filter/Literals.antt =====
-- String literals: no value reaches past its closing quote.
use omnia_backends.Base.{
  ℕ, ◌≡◌, refl, ap, sym, ◌∙◌, false, Option, none, some, [], ◌∷◌, ◌++◌, ◌==◌, if◌then◌else◌,
  Bool-cases, inl, inr, ==_iff,
}
use mathlib.Core.Option
use omnia_backends.Base.Strings.{Text}
use omnia_backends.Azure.Filter.{double_quotes, quoted}

abbrev pub with_byte : ℕ → Text × Text → Text × Text
with_byte c (text, rest) = (c ∷ text, rest)

-- A literal as OData reads it, behind its first quote: two quotes are one of its text, one quote ends it.
unfoldable pub inside : Text → Option (Text × Text)
inside [] = none
inside (c ∷ []) = if c == 39 then some ([], []) else none
inside (c ∷ d ∷ text) =
    let behind = inside text in
    let next = inside (d ∷ text) in
    if c == 39
    then if d == 39 then Option.map (with_byte 39) behind else some ([], d ∷ text)
    else Option.map (with_byte c) next

unfoldable pub read_literal : Text → Option (Text × Text)
read_literal [] = none
read_literal (c ∷ text) = if c == 39 then inside text else none

-- What may follow a literal: the text's end, or a byte that is not a quote.
unfoldable pub Follows : Text → Type 0
Follows [] = Unit
Follows (c ∷ text) = (c == 39) ≡ false

inside-other :
    (c : ℕ) (text : Text)
    → (c == 39) ≡ false
    → inside (c ∷ text) ≡ Option.map (with_byte c) (inside text)
unfolding inside
inside-other c [] h = rw h refl
inside-other c (d ∷ text) h = rw h refl

inside-double_quotes :
    (text rest : Text) → Follows rest → inside (double_quotes text ++ 39 ∷ rest) ≡ some (text, rest)
unfolding inside double_quotes Follows
inside-double_quotes [] [] f = refl
inside-double_quotes [] (c ∷ rest) f = rw f refl
inside-double_quotes (c ∷ text) rest f = elim (Bool-cases (c == 39)) [
  | inl quote ↦
      rw (quote, inside-double_quotes text rest f)
        (ap (λ k. some (k ∷ text, rest)) (sym ((==_iff c 39).0 quote)))
  | inr other ↦ rw other (
      inside-other c (double_quotes text ++ 39 ∷ rest) other
      ∙ ap (Option.map (with_byte c)) (inside-double_quotes text rest f))
]

append_assoc : (xs ys zs : Text) → (xs ++ ys) ++ zs ≡ xs ++ (ys ++ zs)
append_assoc [] ys zs = refl
append_assoc (x ∷ xs) ys zs = ap (λ t. x ∷ t) (append_assoc xs ys zs)

-- A text, whatever quotes are in it, is read back from its literal, and the reading stops at the literal's
-- end: no value of a filter goes on as a part of the expression.
pub read_literal-quoted :
    (text rest : Text) → Follows rest → read_literal (quoted text ++ rest) ≡ some (text, rest)
unfolding read_literal quoted
read_literal-quoted text rest f =
    ap inside (append_assoc (double_quotes text) (39 ∷ []) rest) ∙ inside-double_quotes text rest f
