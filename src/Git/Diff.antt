-- ===== src/Git/Diff.antt =====
-- crates/git/src/vcs/policy.rs, `TreeDiff`, `parse_tree_diff` and `rule_for`: which paths both sides of a
-- merge changed, and the rule that a path falls under.
pub mod Laws
mod Tests
use omnia_backends.Base.{
  ℕ, Bool, true, false, ◌&&◌, ◌||◌, Option, none, some, List, [], ◌∷◌, ◌++◌, map, keep, any, find,
  ◌==◌, if◌then◌else◌,
}
use omnia_backends.Base.Map.{Map, get, insert, contains_key}
use omnia_backends.Base.Order.{bytes_ord, same}
use omnia_backends.Git.Glob.{matches}
use mathlib.Core.Option

abbrev pub FilePath : Type 0
FilePath = List ℕ

-- `BTreeSet<String>`.
abbrev pub Paths : Type 0
Paths = Map FilePath (Unit {0})

abbrev pub contains : FilePath → Paths → Bool
contains p s = contains_key p s

abbrev pub add : FilePath → Paths → Paths
add p s = insert p tt s

pub record TreeDiff : Type 0 where
  pub paths : Paths
  pub renames : List (FilePath × FilePath)

abbrev pub empty_diff : TreeDiff
empty_diff = record { paths = []; renames = [] }

-- `output.split('\0')`: the fields between NUL bytes, one more than there are.
pub split_nul : List ℕ → List (List ℕ)
split_nul [] = [] ∷ []
split_nul (c ∷ text) = elim (split_nul text) [
  | [] ↦ [] ∷ []
  | field ∷ fields ↦ if c == 0 then [] ∷ field ∷ fields else (c ∷ field) ∷ fields
]

pub starts_with_r : List ℕ → Bool
starts_with_r [] = false
starts_with_r (c ∷ status) = c == b'R'

pub note_rename : FilePath → FilePath → TreeDiff → TreeDiff
note_rename old new d = record {
  paths = add old (add new d.paths);
  renames = d.renames ++ (old, new) ∷ [];
}

pub note_path : FilePath → TreeDiff → TreeDiff
note_path path d = record d { paths = add path d.paths }

-- The `while let` over the fields.
pub parse_fields : List (List ℕ) → TreeDiff → TreeDiff
unfolding starts_with_r note_rename note_path
parse_fields (status ∷ path ∷ []) d = if starts_with_r status then d else note_path path d
parse_fields (status ∷ path ∷ new ∷ fields) d =
    let renamed = parse_fields fields (note_rename path new d) in
    let changed = parse_fields (new ∷ fields) (note_path path d) in
    if starts_with_r status then renamed else changed
parse_fields _ d = d

pub parse_tree_diff : List ℕ → TreeDiff
unfolding parse_fields split_nul
parse_tree_diff output = parse_fields (split_nul output) empty_diff

-- `extend` with the items of a list.
pub extend : List FilePath → Paths → Paths
extend [] s = s
extend (p ∷ ps) s = extend ps (add p s)

abbrev key_of : FilePath × (Unit {0}) → FilePath
key_of e = e.0

pub followed : TreeDiff → TreeDiff → List FilePath
followed self other =
    map (λ r. r.1)
      (keep (λ r. contains r.0 other.paths) self.renames
        ++ keep (λ r. contains r.0 self.paths) other.renames)

pub shared : TreeDiff → TreeDiff → Paths
unfolding extend followed
shared self other = extend (followed self other) (keep (λ e. contains e.0 other.paths) self.paths)

pub data Strategy : Type 0 where
  ours theirs union : Strategy

pub record Rule : Type 0 where
  pub paths : List ℕ
  pub strategy : Strategy

pub rule_for : FilePath → List Rule → Option Strategy
rule_for path rules = Option.map (λ r. r.strategy) (find (λ r. matches r.paths path) rules)
