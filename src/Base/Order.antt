-- ===== src/Base/Order.antt =====
-- A decidable linear order as an interface, for the keys of an ordered map: the native numbers,
-- and byte strings in the order of Rust's `str`.
use Prim.Native.Nat.{ℕ, compare, Ordering}
use mathlib.Core.Path.{◌≡◌, refl, ap, sym, ◌∙◌}
use mathlib.Core.Logic.{◌↔◌}
use mathlib.Core.Bool.{Bool, true, false}
use mathlib.Core.List.{List, [], ◌∷◌}
use native.Mathlib.Omega.{arith}

pub record Ord {ℓ} (K : Type ℓ) : Type ℓ where
  pub cmp : K → K → Ordering
  pub cmp_refl : (a : K) → cmp a a ≡ Ordering.eq
  pub eq_of_cmp : (a b : K) → cmp a b ≡ Ordering.eq → a ≡ b
  pub cmp_flip : (a b : K) → cmp a b ≡ Ordering.gt → cmp b a ≡ Ordering.lt
  pub cmp_trans :
      (a b c : K) → cmp a b ≡ Ordering.lt → cmp b c ≡ Ordering.lt → cmp a c ≡ Ordering.lt

pub nat_refl : (a : ℕ) → compare a a ≡ Ordering.eq
nat_refl a = ground arith

pub nat-eq : (a b : ℕ) → compare a b ≡ Ordering.eq → a ≡ b
nat-eq a b h = ground arith

pub nat-flip : (a b : ℕ) → compare a b ≡ Ordering.gt → compare b a ≡ Ordering.lt
nat-flip a b h = ground arith

pub nat_trans :
    (a b c : ℕ) → compare a b ≡ Ordering.lt → compare b c ≡ Ordering.lt → compare a c ≡ Ordering.lt
nat_trans a b c h k = ground arith

instance abbrev pub nat_ord : Ord ℕ
nat_ord = record {
  cmp = compare;
  cmp_refl = nat_refl;
  eq_of_cmp = nat-eq;
  cmp_flip = nat-flip;
  cmp_trans = nat_trans;
}

-- Bytewise, a proper prefix first.
unfoldable pub lex : List ℕ → List ℕ → Ordering
lex [] [] = Ordering.eq
lex [] (b ∷ bs) = Ordering.lt
lex (a ∷ as') [] = Ordering.gt
lex (a ∷ as') (b ∷ bs) = elim (compare a b) [
  | Ordering.lt ↦ Ordering.lt
  | Ordering.eq ↦ lex as' bs
  | Ordering.gt ↦ Ordering.gt
]

pub lex_refl : (a : List ℕ) → lex a a ≡ Ordering.eq
unfolding lex
lex_refl [] = refl
lex_refl (a ∷ as') = ground (arith, lex_refl as')

pub lex-eq : (a b : List ℕ) → lex a b ≡ Ordering.eq → a ≡ b
unfolding lex
lex-eq [] [] h = refl
lex-eq [] (b ∷ bs) h = ground arith
lex-eq (a ∷ as') [] h = ground arith
lex-eq (a ∷ as') (b ∷ bs) h = ground (arith, lex-eq as' bs)

pub lex-flip : (a b : List ℕ) → lex a b ≡ Ordering.gt → lex b a ≡ Ordering.lt
unfolding lex
lex-flip [] [] h = ground arith
lex-flip [] (b ∷ bs) h = ground arith
lex-flip (a ∷ as') [] h = refl
lex-flip (a ∷ as') (b ∷ bs) h = ground (arith, lex-flip as' bs)

pub lex_trans :
    (a b c : List ℕ) → lex a b ≡ Ordering.lt → lex b c ≡ Ordering.lt → lex a c ≡ Ordering.lt
unfolding lex
lex_trans [] [] c h k = k
lex_trans [] (b ∷ bs) [] h k = ground arith
lex_trans [] (b ∷ bs) (c ∷ cs) h k = refl
lex_trans (a ∷ as') [] c h k = ground arith
lex_trans (a ∷ as') (b ∷ bs) [] h k = ground arith
lex_trans (a ∷ as') (b ∷ bs) (c ∷ cs) h k = ground (arith, lex_trans as' bs cs)

instance abbrev pub bytes_ord : Ord (List ℕ)
bytes_ord = record {
  cmp = lex;
  cmp_refl = lex_refl;
  eq_of_cmp = lex-eq;
  cmp_flip = lex-flip;
  cmp_trans = lex_trans;
}

-- Equality of keys, as the order decides it.
abbrev pub same {ℓ} : {K : Type ℓ} ⦃o : Ord K⦄ → K → K → Bool
same ⦃o⦄ a b = elim (o.cmp a b) [ Ordering.eq ↦ true | _ ↦ false ]

module _ {ℓ} {K : Type ℓ} ⦃o : Ord K⦄ where
  pub same_refl : (a : K) → same a a ≡ true
  same_refl a = ground (arith, o.cmp_refl a)

  pub eq_of_same : (a b : K) → same a b ≡ true → a ≡ b
  eq_of_same a b h = ground (arith, o.eq_of_cmp a b)

  pub same_iff : (a b : K) → (same a b ≡ true) ↔ (a ≡ b)
  same_iff a b = (eq_of_same a b, λ e. ap (same a) (sym e) ∙ same_refl a)
