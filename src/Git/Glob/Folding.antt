-- ===== src/Git/Glob/Folding.antt =====
-- Folding adjacent wildcards changes no match.
use mathlib.Core.List.{append-nil}
use omnia_backends.Base.{
  ℕ, ◌≡◌, refl, sym, ap, ◌∙◌, Bool, true, List, [], ◌∷◌, ◌++◌, arith, ◌==◌, fun_ext, Bool-cases,
  inl, inr,
}
use omnia_backends.Git.Glob.{
  Bytes, Token, byte, one, star, dirs, all, fold, push, single, is_star_star, tokens_loop, tokens,
}
use omnia_backends.Git.Glob.Reference.{
  take_run, take_dirs, after, reference, raw, slash_free, any_byte,
}

module _ (q : Bytes → Bool) where
  run_any_of : (w : Bytes) → q w ≡ true → take_run any_byte q w ≡ true
  unfolding take_run
  run_any_of [] h = h
  run_any_of (c ∷ w) h = ground arith

  run_any_of_run :
      (ok' : ℕ → Bool) (w : Bytes) → take_run ok' q w ≡ true → take_run any_byte q w ≡ true
  unfolding take_run
  run_any_of_run ok' [] h = h
  run_any_of_run ok' (c ∷ w) h = ground (arith, run_any_of_run ok' w)

  run_any_of_dirs : (w : Bytes) → take_dirs q w ≡ true → take_run any_byte q w ≡ true
  unfolding take_run take_dirs
  run_any_of_dirs [] h = cc
  run_any_of_dirs (c ∷ w) h = ground (arith, run_any_of_dirs w, run_any_of w)

  run_run : (ok' : ℕ → Bool) (w : Bytes) → take_run ok' (take_run ok' q) w ≡ take_run ok' q w
  unfolding take_run
  run_run ok' [] = refl
  run_run ok' (c ∷ w) = ground (arith, run_run ok' w)

  all_run :
      (ok' : ℕ → Bool) (w : Bytes) → take_run any_byte (take_run ok' q) w ≡ take_run any_byte q w
  unfolding take_run
  all_run ok' [] = refl
  all_run ok' (c ∷ w) = ground (arith, all_run ok' w, run_any_of_run ok' w)

  run_all :
      (ok' : ℕ → Bool) (w : Bytes) → take_run ok' (take_run any_byte q) w ≡ take_run any_byte q w
  unfolding take_run
  run_all ok' [] = refl
  run_all ok' (c ∷ w) = ground (arith, run_all ok' w)

  all_dirs : (w : Bytes) → take_run any_byte (after dirs q) w ≡ take_run any_byte q w
  unfolding take_run take_dirs after
  all_dirs [] = ground arith
  all_dirs (c ∷ w) = ground (arith, all_dirs w, run_any_of_dirs w, run_any_of w)

  dirs_of_all :
      (w : Bytes) → take_dirs (take_run any_byte q) w ≡ true → take_run any_byte q w ≡ true
  unfolding take_run take_dirs
  dirs_of_all [] h = cc
  dirs_of_all (c ∷ w) h = ground (arith, dirs_of_all w)

  dirs_all : (w : Bytes) → after dirs (take_run any_byte q) w ≡ take_run any_byte q w
  unfolding after
  dirs_all w = ground (arith, dirs_of_all w)

  dirs_of_dirs : (w : Bytes) → take_dirs (after dirs q) w ≡ true → take_dirs q w ≡ true
  unfolding take_dirs after
  dirs_of_dirs [] h = cc
  dirs_of_dirs (c ∷ w) h = ground (arith, dirs_of_dirs w)

  dirs-dirs : (w : Bytes) → after dirs (after dirs q) w ≡ after dirs q w
  unfolding after
  dirs-dirs w = ground (arith, dirs_of_dirs w)

-- The two tokens and their fold leave the same rests.
fold_lem :
    (last token : Token) (ts : List Token) (w : Bytes)
    → reference (fold last token ++ ts) w ≡ reference (last ∷ token ∷ ts) w
unfolding fold reference after
fold_lem (byte a) token ts w = refl
fold_lem one token ts w = refl
fold_lem star (byte b) ts w = refl
fold_lem star one ts w = refl
fold_lem star star ts w = sym (run_run (reference ts) slash_free w)
fold_lem star dirs ts w = refl
fold_lem star all ts w = sym (run_all (reference ts) slash_free w)
fold_lem dirs (byte b) ts w = refl
fold_lem dirs one ts w = refl
fold_lem dirs star ts w = refl
fold_lem dirs dirs ts w = sym (dirs-dirs (reference ts) w)
fold_lem dirs all ts w = sym (dirs_all (reference ts) w)
fold_lem all (byte b) ts w = refl
fold_lem all one ts w = refl
fold_lem all star ts w = sym (all_run (reference ts) slash_free w)
fold_lem all dirs ts w = sym (all_dirs (reference ts) w)
fold_lem all all ts w = sym (run_run (reference ts) any_byte w)

reference_cons :
    (t : Token) (ts us : List Token)
    → reference ts ≡ reference us
    → reference (t ∷ ts) ≡ reference (t ∷ us)
unfolding reference
reference_cons t ts us e = fun_ext λ w. ap (λ q. after t q w) e

push_lem :
    (acc : List Token) (token : Token) (ts : List Token)
    → reference (push acc token ++ ts) ≡ reference (acc ++ token ∷ ts)
unfolding push
push_lem [] token ts = refl
push_lem (last ∷ []) token ts = fun_ext (fold_lem last token ts)
push_lem (t ∷ u ∷ acc) token ts = reference_cons t _ _ (push_lem (u ∷ acc) token ts)

push_last :
    (acc : List Token) (token : Token) → reference (push acc token) ≡ reference (acc ++ token ∷ [])
push_last acc token = ap reference (sym (append-nil (push acc token))) ∙ push_lem acc token []

tokens_loop-raw :
    (acc : List Token) (pattern : Bytes)
    → reference (tokens_loop acc pattern) ≡ reference (acc ++ raw pattern)
unfolding tokens_loop raw
tokens_loop-raw acc [] = ap reference (sym (append-nil acc))
tokens_loop-raw acc (a ∷ []) = push_last acc (single a)
tokens_loop-raw acc (a ∷ b ∷ []) = elim (Bool-cases (is_star_star a b)) [
  | inl both ↦ rw both (push_last acc all)
  | inr no' ↦
      rw no' (push_last (push acc (single a)) (single b) ∙ push_lem acc (single a) (single b ∷ []))
]
tokens_loop-raw acc (a ∷ b ∷ c ∷ rest) = elim (Bool-cases (is_star_star a b)) [
  | inr no' ↦ rw no' (
      tokens_loop-raw (push acc (single a)) (b ∷ c ∷ rest)
      ∙ push_lem acc (single a) (raw (b ∷ c ∷ rest)))
  | inl both ↦ rw both (elim (Bool-cases (c == b'/')) [
    | inl cross ↦ rw cross (tokens_loop-raw (push acc dirs) rest ∙ push_lem acc dirs (raw rest))
    | inr other ↦
        rw other (tokens_loop-raw (push acc all) (c ∷ rest) ∙ push_lem acc all (raw (c ∷ rest)))
  ])
]

-- The folded tokens match what the pattern's tokens match one by one.
pub tokens-raw : (pattern : Bytes) → reference (tokens pattern) ≡ reference (raw pattern)
unfolding tokens
tokens-raw pattern = tokens_loop-raw [] pattern
