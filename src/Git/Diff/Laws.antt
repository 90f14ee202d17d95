-- ===== src/Git/Diff/Laws.antt =====
-- What `parse_tree_diff` and `shared` compute, as sets.
use omnia_backends.Base.{
  ℕ, ◌≡◌, ◌≢◌, refl, sym, ap, ◌∙◌, Bool, true, false, ◌&&◌, ◌||◌, List, [], ◌∷◌, ◌++◌, map, keep,
  any, All, arith, ◌==◌, Bool-cases, inl, inr,
}
use omnia_backends.Base.Map.{get, get-insert}
use omnia_backends.Base.Order.{bytes_ord, same, eq_of_same}
use omnia_backends.Git.Diff.{
  FilePath, Paths, TreeDiff, empty_diff, contains, add, split_nul, starts_with_r, note_rename,
  note_path, parse_fields, parse_tree_diff, extend, followed, shared,
}

contains-add : (p q : FilePath) (s : Paths) → contains p (add q s) ≡ (same p q || contains p s)
contains-add p q s = ground (arith, get-insert p q tt s)

contains-extend :
    (p : FilePath) (ps : List FilePath) (s : Paths)
    → contains p (extend ps s) ≡ (any (λ q. same p q) ps || contains p s)
unfolding extend
contains-extend p [] s = refl
contains-extend p (q ∷ ps) s = ground (arith, contains-extend p ps (add q s), contains-add p q s)

contains-keep :
    (p : FilePath) (s other : Paths)
    → contains p (keep (λ e. contains e.0 other) s) ≡ (contains p s && contains p other)
unfolding get
contains-keep p [] other = refl
contains-keep p ((q, u) ∷ s) other = ground (arith, contains-keep p s other, eq_of_same p q)

any-followed :
    (p : FilePath) (a b : List (FilePath × FilePath))
    → any (λ q. same p q) (map (λ r. r.1) (a ++ b))
      ≡ (any (λ r. same p r.1) a || any (λ r. same p r.1) b)
any-followed p [] [] = refl
any-followed p [] (r ∷ b) = ground (arith, any-followed p [] b)
any-followed p (r ∷ a) b = ground (arith, any-followed p a b)

-- Some rename of one side brought the path from one that the other side changed.
pub carried : FilePath → List (FilePath × FilePath) → Paths → Bool
carried p renames other = any (λ r. same p r.1 && contains r.0 other) renames

any-keep :
    (p : FilePath) (renames : List (FilePath × FilePath)) (other : Paths)
    → any (λ r. same p r.1) (keep (λ r. contains r.0 other) renames) ≡ carried p renames other
unfolding carried
any-keep p [] other = refl
any-keep p (r ∷ renames) other = ground (arith, any-keep p renames other)

-- A merge rule may apply to exactly the paths that both sides changed and the new names of paths that
-- one side renamed and the other changed.
pub contains-shared :
    (p : FilePath) (a b : TreeDiff)
    → contains p (shared a b) ≡ (
        (contains p a.paths && contains p b.paths)
        || carried p a.renames b.paths
        || carried p b.renames a.paths)
unfolding shared followed
contains-shared p a b = ground (
  arith,
  contains-extend p
      (map (λ r. r.1)
        (keep (λ r. contains r.0 b.paths) a.renames ++ keep (λ r. contains r.0 a.paths) b.renames))
      (keep (λ e. contains e.0 b.paths) a.paths),
  contains-keep p a.paths b.paths,
  any-followed p (keep (λ r. contains r.0 b.paths) a.renames)
      (keep (λ r. contains r.0 a.paths) b.renames),
  any-keep p a.renames b.paths,
  any-keep p b.renames a.paths,
)

-- A record of the listing: a status and its path, or a rename with its score, the old path and the new.
pub data Change : Type 0 where
  changed : List ℕ → FilePath → Change
  renamed : List ℕ → FilePath → FilePath → Change

abbrev pub NulFree : List ℕ → Type 0
NulFree text = All (λ c. c ≢ 0) text

-- The status does not begin with an R, which is byte 82.
abbrev pub Plain : List ℕ → Type 0
Plain [] = Unit
Plain (c ∷ status) = c ≢ 82

-- The listing as git writes it: no NUL inside a field, and an R first in a rename's status alone.
abbrev pub IsWritten : Change → Type 0
IsWritten (changed status path) = NulFree status × NulFree path × Plain status
IsWritten (renamed score old new) = NulFree score × NulFree old × NulFree new

abbrev field : List ℕ → List ℕ → List ℕ
field f rest = f ++ 0 ∷ rest

-- `git diff --name-status -z`.
pub print : List Change → List ℕ
print [] = []
print (changed status path ∷ cs) = field status (field path (print cs))
print (renamed score old new ∷ cs) = field (82 ∷ score) (field old (field new (print cs)))

-- The paths that the records name, and the renames among them.
pub paths_of : List Change → List FilePath
paths_of [] = []
paths_of (changed status path ∷ cs) = path ∷ paths_of cs
paths_of (renamed score old new ∷ cs) = old ∷ new ∷ paths_of cs

pub renames_of : List Change → List (FilePath × FilePath)
renames_of [] = []
renames_of (changed status path ∷ cs) = renames_of cs
renames_of (renamed score old new ∷ cs) = (old, new) ∷ renames_of cs

-- The difference holds what the records say.
pub record Holds (cs : List Change) (d : TreeDiff) : Type 0 where
  pub paths_lem : (p : FilePath) → contains p d.paths ≡ any (λ q. same p q) (paths_of cs)
  pub renames_lem : d.renames ≡ renames_of cs

applied : List Change → TreeDiff → TreeDiff
applied [] d = d
applied (changed status path ∷ cs) d = applied cs (note_path path d)
applied (renamed score old new ∷ cs) d = applied cs (note_rename old new d)

paths-applied :
    (cs : List Change) (d : TreeDiff) (p : FilePath)
    → contains p (applied cs d).paths ≡ (any (λ q. same p q) (paths_of cs) || contains p d.paths)
unfolding applied paths_of note_path note_rename
paths-applied [] d p = refl
paths-applied (changed status path ∷ cs) d p =
    ground (arith, paths-applied cs (note_path path d) p, contains-add p path d.paths)
paths-applied (renamed score old new ∷ cs) d p = ground (
  arith,
  paths-applied cs (note_rename old new d) p,
  contains-add p old (add new d.paths),
  contains-add p new d.paths,
)

append_nil {ℓ} : {A : Type ℓ} (xs : List A) → xs ++ [] ≡ xs
append_nil [] = refl
append_nil (x ∷ xs) = ap (λ ys. x ∷ ys) (append_nil xs)

append_assoc {ℓ} : {A : Type ℓ} (xs ys zs : List A) → (xs ++ ys) ++ zs ≡ xs ++ (ys ++ zs)
append_assoc [] ys zs = refl
append_assoc (x ∷ xs) ys zs = ap (λ ws. x ∷ ws) (append_assoc xs ys zs)

renames-applied :
    (cs : List Change) (d : TreeDiff) → (applied cs d).renames ≡ d.renames ++ renames_of cs
unfolding applied renames_of note_path note_rename
renames-applied [] d = sym (append_nil d.renames)
renames-applied (changed status path ∷ cs) d = renames-applied cs (note_path path d)
renames-applied (renamed score old new ∷ cs) d =
    renames-applied cs (note_rename old new d)
    ∙ append_assoc d.renames ((old, new) ∷ []) (renames_of cs)

split_nul_cons : (text : List ℕ) → (f : List ℕ) × (fs : List (List ℕ)) × (split_nul text ≡ f ∷ fs)
unfolding split_nul
split_nul_cons [] = ([], [], refl)
split_nul_cons (c ∷ text) =
    let (f, fs, e) = split_nul_cons text in
    elim (Bool-cases (c == 0)) [
      | inl nul ↦ ([], f ∷ fs, ground (arith, nul, e))
      | inr other ↦ (c ∷ f, fs, ground (arith, other, e))
    ]

split_nul-field : (f rest : List ℕ) → NulFree f → split_nul (f ++ 0 ∷ rest) ≡ f ∷ split_nul rest
unfolding split_nul
split_nul-field [] rest h = let (f, fs, e) = split_nul_cons rest in ground (arith, e)
split_nul-field (c ∷ f) rest h = ground (arith, split_nul-field f rest h.1, h.0)

parse_changed :
    (status path : List ℕ) (d : TreeDiff) (f : List ℕ) (fs : List (List ℕ))
    → starts_with_r status ≡ false
    → parse_fields (status ∷ path ∷ f ∷ fs) d ≡ parse_fields (f ∷ fs) (note_path path d)
unfolding parse_fields
parse_changed status path d f fs h = rw h refl

parse_renamed :
    (status old new : List ℕ) (d : TreeDiff) (fs : List (List ℕ))
    → starts_with_r status ≡ true
    → parse_fields (status ∷ old ∷ new ∷ fs) d ≡ parse_fields fs (note_rename old new d)
unfolding parse_fields
parse_renamed status old new d fs h = rw h refl

starts_with_r-Plain : (status : List ℕ) → Plain status → starts_with_r status ≡ false
unfolding starts_with_r
starts_with_r-Plain [] h = refl
starts_with_r-Plain (c ∷ status) h = ground arith

starts_with_r-82 : (score : List ℕ) → starts_with_r (82 ∷ score) ≡ true
unfolding starts_with_r
starts_with_r-82 score = refl

parse_fields-print :
    (cs : List Change) (d : TreeDiff)
    → All IsWritten cs
    → parse_fields (split_nul (print cs)) d ≡ applied cs d
unfolding print applied
parse_fields-print [] d h = nothing d
  where
    nothing : (d : TreeDiff) → parse_fields (split_nul []) d ≡ d
    nothing d = unfold parse_fields split_nul in refl
parse_fields-print (changed status path ∷ cs) d h =
    let (f, fs, e) = split_nul_cons (print cs) in
    rw
      (
        split_nul-field status (field path (print cs)) h.0.0,
        split_nul-field path (print cs) h.0.1,
        e,
      )
      (parse_changed status path d f fs (starts_with_r-Plain status h.0.2)
        ∙ (rw (← e) (parse_fields-print cs (note_path path d) h.1)))
parse_fields-print (renamed score old new ∷ cs) d h =
    rw
      (
        split_nul-field (82 ∷ score) (field old (field new (print cs))) (omega arith, h.0.0),
        split_nul-field old (field new (print cs)) h.0.1,
        split_nul-field new (print cs) h.0.2,
      )
      (parse_renamed (82 ∷ score) old new d (split_nul (print cs)) (starts_with_r-82 score)
        ∙ parse_fields-print cs (note_rename old new d) h.1)

or-false : (b : Bool) → (b || false) ≡ b
or-false b = ground arith

-- The parser reads back each listing that git writes: its paths are those of the records, both paths of
-- a rename, and no others, and its renames those of the records in their order.
pub parse_tree_diff-print :
    (cs : List Change) → All IsWritten cs → Holds cs (parse_tree_diff (print cs))
unfolding parse_tree_diff get
parse_tree_diff-print cs h =
    let e = parse_fields-print cs empty_diff h in
    record {
      paths_lem = λ p.
          ap (λ d. contains p d.paths) e
          ∙ (paths-applied cs empty_diff p ∙ or-false (any (λ q. same p q) (paths_of cs)));
      renames_lem = ap (λ d. d.renames) e ∙ renames-applied cs empty_diff;
    }
