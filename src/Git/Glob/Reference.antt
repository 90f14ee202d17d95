-- ===== src/Git/Glob/Reference.antt =====
-- What a pattern means: each token spans a stretch of the text, and the stretches make up the text.
-- `reference` decides this by trying every stretch, one token after the other.
use omnia_backends.Base.{
  ℕ, ◌≡◌, ◌≢◌, All-map, ==_refl, refl, ap, Bool, true, false, ◌&&◌, ◌||◌, not, List, [], ◌∷◌, ◌++◌,
  All, arith, ◌==◌, ==_iff, Bool-cases, inl, inr, if◌then◌else◌,
}
use omnia_backends.Git.Glob.{Bytes, Token, byte, one, star, dirs, all, single, is_star_star}

-- The stretch of text a token may stand for: `dirs` is whole components with their slashes.
pub data Spans : Token → Bytes → Type 0 where
  spans_byte : (b : ℕ) → Spans (byte b) (b ∷ [])
  spans_one : (c : ℕ) → c ≢ b'/' → Spans one (c ∷ [])
  spans_star : (u : Bytes) → All (λ c. c ≢ b'/') u → Spans star u
  spans_all : (u : Bytes) → Spans all u
  spans_none : Spans dirs []
  spans_dirs : (u : Bytes) → Spans dirs (u ++ b'/' ∷ [])

pub data Matches : List Token → Bytes → Type 0 where
  done : Matches [] []
  span :
      {t : Token} {ts : List Token} {u v w : Bytes}
      → Spans t u
      → Matches ts v
      → w ≡ u ++ v
      → Matches (t ∷ ts) w

unfoldable pub is_empty : Bytes → Bool
is_empty [] = true
is_empty (c ∷ w) = false

-- The rest of the text matches once one byte is taken off the front.
unfoldable pub take_one : (ℕ → Bool) → (Bytes → Bool) → Bytes → Bool
take_one ok' q [] = false
take_one ok' q (c ∷ w) = ok' c && q w

-- Once a run of bytes is.
unfoldable pub take_run : (ℕ → Bool) → (Bytes → Bool) → Bytes → Bool
take_run ok' q [] = q []
take_run ok' q (c ∷ w) = q (c ∷ w) || (ok' c && take_run ok' q w)

-- Once a run that ends in a slash is.
unfoldable pub take_dirs : (Bytes → Bool) → Bytes → Bool
take_dirs q [] = false
take_dirs q (c ∷ w) = (c == b'/' && q w) || take_dirs q w

abbrev pub slash_free : ℕ → Bool
slash_free c = not (c == b'/')

abbrev pub any_byte : ℕ → Bool
any_byte c = true

unfoldable pub after : Token → (Bytes → Bool) → Bytes → Bool
after (byte b) q w = take_one (λ c. c == b) q w
after one q w = take_one slash_free q w
after star q w = take_run slash_free q w
after all q w = take_run any_byte q w
after dirs q w = q w || take_dirs q w

unfoldable pub reference : List Token → Bytes → Bool
reference [] w = is_empty w
reference (t ∷ ts) w = after t (reference ts) w

-- The pattern as tokens, before any fold.
unfoldable pub raw : Bytes → List Token
unfolding single is_star_star
raw [] = []
raw (a ∷ []) = single a ∷ []
raw (a ∷ b ∷ []) = if is_star_star a b then all ∷ [] else single a ∷ single b ∷ []
raw (a ∷ b ∷ c ∷ rest) =
    let cross = raw rest in
    let any_run = raw (c ∷ rest) in
    let next = raw (b ∷ c ∷ rest) in
    if is_star_star a b
    then (if c == b'/' then dirs ∷ cross else all ∷ any_run)
    else single a ∷ next

-- A run of bytes that pass, then a rest that satisfies `q`.
abbrev Run : (ℕ → Bool) → (Bytes → Bool) → Bytes → Type 0
Run ok' q w = (u v : Bytes) × All (λ c. ok' c ≡ true) u × (w ≡ u ++ v) × (q v ≡ true)

take_run-Run :
    (ok' : ℕ → Bool) (q : Bytes → Bool) (w : Bytes) → take_run ok' q w ≡ true → Run ok' q w
unfolding take_run
take_run-Run ok' q [] h = ([], [], tt, refl, h)
take_run-Run ok' q (c ∷ w) h = elim (Bool-cases (q (c ∷ w))) [
  | inl here ↦ ([], c ∷ w, tt, refl, here)
  | inr no' ↦
      let (u, v, a, e, qv) = take_run-Run ok' q w (ground arith) in
      (c ∷ u, v, (ground arith, a), ap (◌∷◌ c) e, qv)
]

Run-take_run :
    (ok' : ℕ → Bool) (q : Bytes → Bool) (u v : Bytes)
    → All (λ c. ok' c ≡ true) u
    → q v ≡ true
    → take_run ok' q (u ++ v) ≡ true
unfolding take_run
Run-take_run ok' q [] [] a h = h
Run-take_run ok' q [] (c ∷ v) a h = rw h refl
Run-take_run ok' q (c ∷ u) v a h = ground (arith, Run-take_run ok' q u v a.1 h)

-- Whole components, then a rest that satisfies `q`.
take_dirs-Run :
    (q : Bytes → Bool) (w : Bytes)
    → take_dirs q w ≡ true
    → (u v : Bytes) × (w ≡ (u ++ b'/' ∷ []) ++ v) × (q v ≡ true)
unfolding take_dirs
take_dirs-Run q [] h = cc
take_dirs-Run q (c ∷ w) h = elim (Bool-cases (c == b'/' && q w)) [
  | inl here ↦ ([], w, ap (λ x. x ∷ w) ((==_iff c b'/').0 (ground arith)), ground arith)
  | inr no' ↦ let (u, v, e, qv) = take_dirs-Run q w (ground arith) in (c ∷ u, v, ap (◌∷◌ c) e, qv)
]

Run-take_dirs :
    (q : Bytes → Bool) (u v : Bytes) → q v ≡ true → take_dirs q ((u ++ b'/' ∷ []) ++ v) ≡ true
unfolding take_dirs
Run-take_dirs q [] v h = rw h refl
Run-take_dirs q (c ∷ u) v h = ground (arith, Run-take_dirs q u v h)

-- Some stretch of the token leaves a rest that satisfies `q`.
abbrev Leaves : Token → (Bytes → Bool) → Bytes → Type 0
Leaves t q w = (u v : Bytes) × Spans t u × (w ≡ u ++ v) × (q v ≡ true)

after-Leaves : (t : Token) (q : Bytes → Bool) (w : Bytes) → after t q w ≡ true → Leaves t q w
unfolding after take_one
after-Leaves (byte b) q [] h = cc
after-Leaves (byte b) q (c ∷ w) h =
    (b ∷ [], w, spans_byte b, ap (λ x. x ∷ w) ((==_iff c b).0 (ground arith)), ground arith)
after-Leaves one q [] h = cc
after-Leaves one q (c ∷ w) h = (c ∷ [], w, spans_one c (ground arith), refl, ground arith)
after-Leaves star q w h =
    let (u, v, a, e, qv) = take_run-Run slash_free q w h in
    (u, v, spans_star u (All-map (λ c k. ground arith) u a), e, qv)
after-Leaves all q w h =
    let (u, v, a, e, qv) = take_run-Run any_byte q w h in (u, v, spans_all u, e, qv)
after-Leaves dirs q w h = elim (Bool-cases (q w)) [
  | inl here ↦ ([], w, spans_none, refl, here)
  | inr no' ↦
      let (u, v, e, qv) = take_dirs-Run q w (ground arith) in
      (u ++ b'/' ∷ [], v, spans_dirs u, e, qv)
]

All-any : (u : Bytes) → All (λ c. any_byte c ≡ true) u
All-any [] = tt
All-any (c ∷ u) = (refl, All-any u)

Leaves-after :
    {t : Token} {u : Bytes} (q : Bytes → Bool) (v : Bytes)
    → Spans t u
    → q v ≡ true
    → after t q (u ++ v) ≡ true
unfolding after take_one
Leaves-after q v (spans_byte b) h = rw (==_refl b) h
Leaves-after q v (spans_one c ne) h = ground arith
Leaves-after q v (spans_star u a) h =
    Run-take_run slash_free q u v (All-map (λ c k. ground arith) u a) h
Leaves-after q v (spans_all u) h = Run-take_run any_byte q u v (All-any u) h
Leaves-after q v spans_none h = rw h refl
Leaves-after q v (spans_dirs u) h = ground (arith, Run-take_dirs q u v h)

pub reference-Matches : (ts : List Token) (w : Bytes) → reference ts w ≡ true → Matches ts w
unfolding reference is_empty
reference-Matches [] [] h = done
reference-Matches [] (c ∷ w) h = cc
reference-Matches (t ∷ ts) w h =
    let (u, v, s, e, qv) = after-Leaves t (reference ts) w h in span s (reference-Matches ts v qv) e

pub Matches-reference : {ts : List Token} {w : Bytes} → Matches ts w → reference ts w ≡ true
unfolding reference is_empty
Matches-reference done = refl
Matches-reference (span {ts} {v} s m e) =
    rw e (Leaves-after (reference ts) v s (Matches-reference m))
