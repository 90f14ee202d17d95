-- ===== src/GenAi/Truncate.antt =====
-- crates/genai/src/conversation.rs, `truncate`: the head and the tail of a long result, cut between characters.
pub mod Bounds
use omnia_backends.Base.{
  ℕ, zero, suc, ◌+◌, ◌-◌, ◌/◌, Bool, true, false, ◌&&◌, not, List, [], ◌∷◌, ◌++◌, length, take,
  drop, leb, ltb, if◌then◌else◌,
}
use omnia_backends.Base.Text.{codes, decimal}

abbrev pub Text : Type 0
Text = List ℕ

-- A byte that goes on with a character of UTF-8.
unfoldable pub continues : ℕ → Bool
continues b = leb 128 b && ltb b 192

unfoldable pub starts_char : Text → Bool
starts_char [] = true
starts_char (b ∷ text) = not (continues b)

-- `str::is_char_boundary`, at an index within the text.
unfoldable pub is_char_boundary : ℕ → Text → Bool
is_char_boundary zero text = true
is_char_boundary (suc i) text = starts_char (drop (suc i) text)

-- `str::floor_char_boundary`
unfoldable pub floor_char_boundary : ℕ → Text → ℕ
floor_char_boundary zero text = 0
floor_char_boundary (suc i) text =
    let lower = floor_char_boundary i text in if is_char_boundary (suc i) text then suc i else lower

-- `str::ceil_char_boundary`, on the text from the index on: how many bytes to skip.
unfoldable pub skip_to_char : Text → ℕ
skip_to_char [] = 0
skip_to_char (b ∷ text) = let more = skip_to_char text in if continues b then suc more else 0

unfoldable pub ceil_char_boundary : ℕ → Text → ℕ
ceil_char_boundary zero text = 0
ceil_char_boundary (suc i) text = suc i + skip_to_char (drop (suc i) text)

-- The line that stands for what is left out; `…` in its bytes.
unfoldable pub omitted : ℕ → Text
omitted n =
    codes "\n["
    ++ (226 ∷ 128 ∷ 166 ∷ codes " ")
    ++ (decimal n ++ (codes " bytes omitted " ++ (226 ∷ 128 ∷ 166 ∷ codes "]\n")))

unfoldable pub truncate : Text → ℕ → Text
truncate text cap =
    if leb (length text) cap
    then text
    else let head = floor_char_boundary (cap / 2) text in
      let tail = ceil_char_boundary (length text - (cap - head)) text in
      take head text ++ (omitted (tail - head) ++ drop tail text)
