-- ===== src/Base/Strings.antt =====
-- What the program uses of Rust's `str`.
use Prim.Native.Nat.{ℕ, ◌+◌}
use mathlib.Core.Bool.{Bool, true, false, ◌&&◌, ◌||◌}
use mathlib.Core.List.{List, [], ◌∷◌}
use mathlib.Core.Option.{Option, none, some}
use mathlib.Core.Option
use omnia_backends.Base.Tests.{leb, ◌==◌, if◌then◌else◌}
use omnia_backends.Base.Order.{bytes_ord, same}

abbrev pub Text : Type 0
Text = List ℕ

unfoldable pub trim_start : (ℕ → Bool) → Text → Text
trim_start p [] = []
trim_start p (c ∷ text) = let rest = trim_start p text in if p c then rest else c ∷ text

unfoldable pub trim_end : (ℕ → Bool) → Text → Text
trim_end p [] = []
trim_end p (c ∷ text) = elim (trim_end p text) [
  | [] ↦ if p c then [] else c ∷ []
  | k ∷ rest ↦ c ∷ k ∷ rest
]

unfoldable pub trim_matches : (ℕ → Bool) → Text → Text
unfolding trim_start trim_end
trim_matches p text = trim_end p (trim_start p text)

unfoldable pub lower : ℕ → ℕ
lower c = if leb 65 c && leb c 90 then c + 32 else c

unfoldable pub to_ascii_lowercase : Text → Text
unfolding lower
to_ascii_lowercase [] = []
to_ascii_lowercase (c ∷ text) = lower c ∷ to_ascii_lowercase text

unfoldable pub strip_prefix : Text → Text → Option Text
strip_prefix [] text = some text
strip_prefix (p ∷ prefix) [] = none
strip_prefix (p ∷ prefix) (c ∷ text) =
    let rest = strip_prefix prefix text in if c == p then rest else none

unfoldable pub strip_suffix : Text → Text → Option Text
strip_suffix suffix [] = if same [] suffix then some [] else none
strip_suffix suffix (c ∷ text) =
    if same (c ∷ text) suffix
    then some []
    else Option.map (λ rest. c ∷ rest) (strip_suffix suffix text)

unfoldable pub starts_with : Text → Text → Bool
starts_with [] text = true
starts_with (p ∷ prefix) [] = false
starts_with (p ∷ prefix) (c ∷ text) = c == p && starts_with prefix text

-- `str::contains`, of a text.
unfoldable pub contains : Text → Text → Bool
unfolding starts_with
contains part [] = starts_with part []
contains part (c ∷ text) = starts_with part (c ∷ text) || contains part text
