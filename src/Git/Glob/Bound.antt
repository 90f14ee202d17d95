-- ===== src/Git/Glob/Bound.antt =====
-- The test before the table: a text shorter than the bytes that the tokens need has no match.
use omnia_backends.Base.{
  ℕ, ◌+◌, ◌≤◌, ◌≡◌, ◌↔◌, sym, ap, ◌∙◌, Bool, true, List, [], ◌∷◌, arith, length, ◌==◌, ltb, ltb→lt,
  Bool-cases, inl, inr,
}
use omnia_backends.Git.Glob.{
  Bytes, Token, byte, one, star, dirs, all, needs_byte, needed, tokens, glob,
}
use omnia_backends.Git.Glob.Reference.{
  Matches, reference-Matches, Matches-reference, take_one, take_run, take_dirs, after, reference,
  raw, slash_free, any_byte,
}
use omnia_backends.Git.Glob.Table.{rows-reference}
use omnia_backends.Git.Glob.Folding.{tokens-raw}

module _ (q : Bytes → Bool) (k : ℕ) (long : (v : Bytes) → q v ≡ true → k ≤ length v) where
  run_long : (ok' : ℕ → Bool) (w : Bytes) → take_run ok' q w ≡ true → k ≤ length w
  unfolding take_run
  run_long ok' [] h = long [] h
  run_long ok' (c ∷ w) h = ground (arith, long (c ∷ w), run_long ok' w)

  dirs_long : (w : Bytes) → take_dirs q w ≡ true → k ≤ length w
  unfolding take_dirs
  dirs_long [] h = cc
  dirs_long (c ∷ w) h = ground (arith, long w, dirs_long w)

  one_long : (ok' : ℕ → Bool) (w : Bytes) → take_one ok' q w ≡ true → k + 1 ≤ length w
  unfolding take_one
  one_long ok' [] h = cc
  one_long ok' (c ∷ w) h = ground (arith, long w)

reference_long : (ts : List Token) (w : Bytes) → reference ts w ≡ true → needed ts ≤ length w
unfolding reference after needed needs_byte
reference_long [] w h = omega arith
reference_long (byte b ∷ ts) w h =
    omega (arith, one_long (reference ts) (needed ts) (reference_long ts) (λ c. c == b) w h)
reference_long (one ∷ ts) w h =
    omega (arith, one_long (reference ts) (needed ts) (reference_long ts) slash_free w h)
reference_long (star ∷ ts) w h =
    run_long (reference ts) (needed ts) (reference_long ts) slash_free w h
reference_long (all ∷ ts) w h = run_long (reference ts) (needed ts) (reference_long ts) any_byte w h
reference_long (dirs ∷ ts) w h =
    ground (arith, dirs_long (reference ts) (needed ts) (reference_long ts) w, reference_long ts w)

glob-reference : (pattern text : Bytes) → glob pattern text ≡ reference (tokens pattern) text
unfolding glob
glob-reference pattern text = elim (Bool-cases (ltb (length text) (needed (tokens pattern)))) [
  | inr enough ↦ rw (enough, glob) (rows-reference (tokens pattern) text)
  | inl short ↦
      rw (short, glob)
        (elim (Bool-cases (reference (tokens pattern) text)) [
          | inr no' ↦ sym no'
          | inl h ↦ absurd (omega (arith, ltb→lt _ _ short, reference_long (tokens pattern) text h))
        ])
]

-- `glob` accepts exactly the texts that are a stretch for each token of the pattern, one after the
-- other: the table, the folding of wildcards and the length test in front of it lose and add nothing.
pub glob-Matches : (pattern text : Bytes) → (glob pattern text ≡ true) ↔ Matches (raw pattern) text
glob-Matches pattern text =
    let e = glob-reference pattern text ∙ ap (λ q. q text) (tokens-raw pattern) in
    (λ h. reference-Matches (raw pattern) text (sym e ∙ h), λ m. e ∙ Matches-reference m)
