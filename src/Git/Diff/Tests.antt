-- ===== src/Git/Diff/Tests.antt =====
-- Runs of the listing's parser, and the theorems at them.
use omnia_backends.Base.{◌≡◌, refl, List, [], ◌∷◌, All, arith}
use omnia_backends.Base.Map.{insert}
use omnia_backends.Base.Order.{bytes_ord, lex}
use omnia_backends.Base.Text.{codes}
use omnia_backends.Git.Diff.{
  TreeDiff, parse_tree_diff, parse_fields, split_nul, starts_with_r, note_rename, note_path,
}
use omnia_backends.Git.Diff.Laws.{
  Change, changed, renamed, IsWritten, print, Holds, parse_tree_diff-print,
}

abbrev listing : List Change
listing = changed (codes "M") (codes "b") ∷ renamed (codes "100") (codes "a") (codes "c") ∷ []

abbrev ours : TreeDiff
ours = record {
  paths = (codes "a", tt) ∷ (codes "b", tt) ∷ (codes "c", tt) ∷ [];
  renames = (codes "a", codes "c") ∷ [];
}

abbrev theirs : TreeDiff
theirs = record { paths = (codes "a", tt) ∷ []; renames = [] }

parses : parse_tree_diff (codes "M\0b\0R100\0a\0c\0") ≡ ours
unfolding parse_tree_diff parse_fields split_nul starts_with_r note_rename note_path insert lex
parses = refl

listing-IsWritten : All IsWritten listing
unfolding starts_with_r
listing-IsWritten = ground arith

parse_tree_diff-print_example : Holds listing (parse_tree_diff (print listing))
parse_tree_diff-print_example = parse_tree_diff-print listing listing-IsWritten
