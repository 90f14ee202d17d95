-- ===== src/Git/Transport/Quoting.antt =====
-- What a shell reads of a quoted text.
use omnia_backends.Base.{
  ℕ, ◌≡◌, refl, ap, Option, none, some, [], ◌∷◌, ◌++◌, ◌==◌, ==_iff, ◌∙◌, arith, Bool-cases, inl,
  inr, if◌then◌else◌,
}
use omnia_backends.Git.Transport.{Text, escape, shell_quote}
use mathlib.Core.Option
use mathlib.Core.List.{append_assoc}

abbrev pub put : ℕ → Option (Text × Text) → Option (Text × Text)
put c r = Option.map (λ w. (c ∷ w.0, w.1)) r

pub data Mode : Type 0 where
  plain quoted escaped : Mode

-- The first word of a command line, by a shell's rules for single quotes, for a backslash outside them
-- and for the space that ends a word, and what follows it; none where a quote is left open.
unfoldable pub first_word : Mode → Text → Option (Text × Text)
first_word plain [] = some ([], [])
first_word quoted [] = none
first_word escaped [] = none
first_word plain (c ∷ text) =
    let inside = first_word quoted text in
    let next = first_word escaped text in
    let outside = first_word plain text in
    if c == b'\''
    then inside
    else if c == b'\\'
    then next
    else if c == b' '
    then some ([], text)
    else put c outside
first_word quoted (c ∷ text) =
    let inside = first_word quoted text in
    let outside = first_word plain text in if c == b'\'' then outside else put c inside
first_word escaped (c ∷ text) = put c (first_word plain text)

escaped_word :
    (value rest : Text)
    → first_word quoted (escape value ++ b'\'' ∷ b' ' ∷ rest) ≡ some (value, rest)
unfolding first_word escape
escaped_word [] rest = refl
escaped_word (c ∷ value) rest = elim (Bool-cases (c == b'\'')) [
  | inl e ↦ ground (arith, e, (==_iff c b'\'').0 e, escaped_word value rest)
  | inr e ↦ ground (arith, e, escaped_word value rest)
]

-- A shell reads a quoted text, whatever its bytes, as one word and that word as the text; what follows
-- the space behind it is untouched.
pub first_word-shell_quote :
    (value rest : Text) → first_word plain (shell_quote value ++ b' ' ∷ rest) ≡ some (value, rest)
unfolding first_word shell_quote
first_word-shell_quote value rest =
    ap (first_word quoted) (append_assoc (escape value) (b'\'' ∷ []) (b' ' ∷ rest))
    ∙ escaped_word value rest
