-- ===== src/Git/Glob.antt =====
-- crates/git/src/vcs/policy.rs, `matches`, `tokens` and `glob`: the patterns of a merge policy's rules,
-- over bytes.
pub mod Reference
pub mod Table
pub mod Folding
pub mod Bound
pub mod Paths
mod Tests
use omnia_backends.Base.{
  ℕ, zero, suc, ◌+◌, ◌<◌, Bool, true, false, ◌&&◌, ◌||◌, not, Option, none, some, List, [], ◌∷◌,
  ◌++◌, length, replicate, ◌==◌, ltb, if◌then◌else◌, keep, any,
}

abbrev pub Bytes : Type 0
Bytes = List ℕ

pub data Token : Type 0 where
  byte : ℕ → Token
  one star dirs all : Token

unfoldable pub wild : Token → Bool
wild star = true
wild dirs = true
wild all = true
wild _ = false

unfoldable pub needs_byte : Token → Bool
needs_byte (byte b) = true
needs_byte one = true
needs_byte _ = false

-- `==` of tokens, as far as `tokens` asks it.
is_all : Token → Bool
is_all all = true
is_all _ = false

same_wild : Token → Token → Bool
same_wild star star = true
same_wild dirs dirs = true
same_wild all all = true
same_wild _ _ = false

-- The last token and a new one: two wildcards fold.
pub fold : Token → Token → List Token
unfolding wild is_all same_wild
fold last token =
    if wild last && wild token
    then (if is_all last || is_all token
        then all ∷ []
        else if same_wild last token
        then last ∷ []
        else last ∷ token ∷ [])
    else last ∷ token ∷ []

-- One round's write to the vector.
pub push : List Token → Token → List Token
unfolding fold
push [] token = token ∷ []
push (last ∷ []) token = fold last token
push (t ∷ u ∷ ts) token = t ∷ push (u ∷ ts) token

-- A byte of the pattern that begins no `**`.
pub single : ℕ → Token
single b = if b == b'*' then star else if b == b'?' then one else byte b

is_star_star : ℕ → ℕ → Bool
is_star_star a b = a == b'*' && b == b'*'

-- The loop over what is left of the pattern: a `**/`, a `**`, or one byte is taken off in a round.
pub tokens_loop : List Token → Bytes → List Token
unfolding push single is_star_star
tokens_loop acc [] = acc
tokens_loop acc (a ∷ []) = push acc (single a)
tokens_loop acc (a ∷ b ∷ []) =
    if is_star_star a b then push acc all else push (push acc (single a)) (single b)
tokens_loop acc (a ∷ b ∷ c ∷ rest) =
    let cross = tokens_loop (push acc dirs) rest in
    let any_run = tokens_loop (push acc all) (c ∷ rest) in
    let next = tokens_loop (push acc (single a)) (b ∷ c ∷ rest) in
    if is_star_star a b then (if c == b'/' then cross else any_run) else next

pub tokens : Bytes → List Token
unfolding tokens_loop
tokens pattern = tokens_loop [] pattern

-- The table's rows. A row has a cell for each cut of the text, the first before it.
abbrev pub Row : Type 0
Row = List Bool

abbrev pub falses : Bytes → Row
falses text = replicate (length text) false

-- `next[j + 1] = row[j] && ok(text[j])`
pub row_one : (ℕ → Bool) → Bytes → Row → Row
row_one ok' (c ∷ text) (r ∷ row) = (r && ok' c) ∷ row_one ok' text row
row_one ok' _ _ = []

-- `next[j + 1] = row[j + 1] || (next[j] && ok(text[j]))`, from `next[j]` on, over the later cells.
pub row_run : (ℕ → Bool) → Bool → Bytes → Row → Row
row_run ok' n (c ∷ text) (r ∷ row) = let n' = r || (n && ok' c) in n' ∷ row_run ok' n' text row
row_run ok' n _ _ = []

-- `next[j + 1] = row[j + 1] || (open && text[j] == '/'); open |= row[j + 1]`
pub row_dirs : Bool → Bytes → Row → Row
row_dirs open' (c ∷ text) (r ∷ row) = (r || (open' && c == b'/')) ∷ row_dirs (open' || r) text row
row_dirs open' _ _ = []

abbrev not_slash : ℕ → Bool
not_slash c = not (c == b'/')

abbrev anything : ℕ → Bool
anything c = true

-- One token's row from the row before it. A row is never empty.
pub next_row : Token → Bytes → Row → Row
unfolding row_one row_run row_dirs
next_row (byte want) text row = false ∷ row_one (λ c. c == want) text row
next_row one text row = false ∷ row_one not_slash text row
next_row star text (r ∷ row) = r ∷ row_run not_slash r text row
next_row all text (r ∷ row) = r ∷ row_run anything r text row
next_row dirs text (r ∷ row) = r ∷ row_dirs r text row
next_row _ text [] = []

pub rows : List Token → Bytes → Row → Row
unfolding next_row
rows [] text row = row
rows (t ∷ ts) text row = rows ts text (next_row t text row)

-- `row[text.len()]`
pub last_cell : Row → Bool
last_cell [] = false
last_cell (r ∷ []) = r
last_cell (r ∷ s ∷ row) = last_cell (s ∷ row)

pub needed : List Token → ℕ
needed ts = length (keep needs_byte ts)

pub first_row : Bytes → Row
first_row text = true ∷ falses text

pub glob : Bytes → Bytes → Bool
unfolding tokens needed rows last_cell first_row needs_byte
glob pattern text =
    let ts = tokens pattern in
    if ltb (length text) (needed ts) then false else last_cell (rows ts text (first_row text))

-- `pattern.contains('/')`
pub contains_slash : Bytes → Bool
contains_slash text = any (λ c. c == b'/') text

pub strip_slash : Bytes → Bytes
strip_slash (c ∷ text) = if c == b'/' then text else c ∷ text
strip_slash [] = []

-- `path.rsplit('/').next()`: what follows the last slash, or the whole path.
pub file_name : Bytes → Bytes
unfolding contains_slash
file_name [] = []
file_name (c ∷ path) =
    let rest = file_name path in
    if contains_slash path then rest else if c == b'/' then path else c ∷ path

pub matches : Bytes → Bytes → Bool
matches pattern path =
    if contains_slash pattern
    then glob (strip_slash pattern) path
    else glob pattern (file_name path)
