-- ===== src/Git/Glob/Paths.antt =====
-- `matches`: a pattern without a slash is held to the path's last component, any other to the whole.
use omnia_backends.Base.{
  ℕ, ◌≡◌, ◌≢◌, ◌↔◌, ◌⊎◌, refl, ap, ◌∙◌, true, false, [], ◌∷◌, ◌++◌, All, arith, ◌==◌, ==_iff,
  Bool-cases, inl, inr,
}
use omnia_backends.Git.Glob.{Bytes, matches, contains_slash, strip_slash, file_name}
use omnia_backends.Git.Glob.Reference.{Matches, raw}
use omnia_backends.Git.Glob.Bound.{glob-Matches}

slash_free_of : (text : Bytes) → contains_slash text ≡ false → All (λ c. c ≢ b'/') text
unfolding contains_slash
slash_free_of [] h = tt
slash_free_of (c ∷ text) h = (ground arith, slash_free_of text (ground arith))

-- The last component: no slash in it, and nothing or a slash before it.
pub record LastComponent (path name : Bytes) : Type 0 where
  pub slash_free : All (λ c. c ≢ b'/') name
  pub ends : (path ≡ name) ⊎ ((dir : Bytes) × (path ≡ dir ++ b'/' ∷ name))

no_slash : (text : Bytes) → All (λ c. c ≢ b'/') text → contains_slash text ≡ false
unfolding contains_slash
no_slash [] h = refl
no_slash (c ∷ text) h = ground (arith, no_slash text h.1, h.0)

differs : (c : ℕ) → c ≡ b'/' → (c == b'/') ≡ false → ⊥
differs c e h = ground arith

deeper :
    (c : ℕ) (path : Bytes) {name : Bytes}
    → contains_slash path ≡ true
    → LastComponent path name
    → (c ∷ path ≡ name) ⊎ ((dir : Bytes) × (c ∷ path ≡ dir ++ b'/' ∷ name))
deeper c path {name} later l = elim l.ends [
  | inl e ↦ absurd (let h = no_slash name l.slash_free in clash (ap contains_slash e ∙ h) later)
  | inr (dir, e) ↦ inr (c ∷ dir, ap (◌∷◌ c) e)
]
  where
    clash : contains_slash path ≡ false → contains_slash path ≡ true → ⊥
    clash f t = cc

file_name-LastComponent : (path : Bytes) → LastComponent path (file_name path)
unfolding file_name
file_name-LastComponent [] = record { slash_free = tt; ends = inl refl }
file_name-LastComponent (c ∷ path) = elim (Bool-cases (contains_slash path)) [
  | inl later ↦ rw later (
      let ih = file_name-LastComponent path in
      record { slash_free = ih.slash_free; ends = deeper c path later ih })
  | inr no' ↦ rw no' (elim (Bool-cases (c == b'/')) [
    | inl here ↦ rw here (record {
      slash_free = slash_free_of path no';
      ends = inr ([], ap (λ x. x ∷ path) ((==_iff c b'/').0 here));
    })
    | inr other ↦
        rw other (record {
          slash_free = (λ e. differs c e other, slash_free_of path no');
          ends = inl refl;
        })
  ])
]

-- In gitignore's reading: a pattern with no slash matches the path's last component, wherever it
-- lies, and one with a slash is matched from the root, its leading slash dropped.
pub matches-Matches :
    (pattern path : Bytes)
    → ((contains_slash pattern ≡ true)
        × ((matches pattern path ≡ true) ↔ Matches (raw (strip_slash pattern)) path))
      ⊎ ((contains_slash pattern ≡ false)
          × ((name : Bytes) × LastComponent path name
              × ((matches pattern path ≡ true) ↔ Matches (raw pattern) name)))
unfolding matches
matches-Matches pattern path = elim (Bool-cases (contains_slash pattern)) [
  | inl anchored ↦ inl (anchored, rw anchored (glob-Matches (strip_slash pattern) path))
  | inr free ↦ inr (
    free,
    (file_name path, file_name-LastComponent path, rw free (glob-Matches pattern (file_name path))),
  )
]
