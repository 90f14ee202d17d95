-- ===== src/Base/Lists.antt =====
-- Lists measured and indexed by native numbers, and predicates over a whole list.
use Prim.Native.Nat.{ℕ, zero, suc, ◌+◌, ◌-◌, ◌≤◌}
use mathlib.Core.Path.{◌≡◌, refl, ap, ◌∙◌}
use mathlib.Core.Logic.{◌⊎◌, inl, inr}
use mathlib.Core.Bool.{Bool, true, false, ◌||◌, ◌&&◌}
use mathlib.Core.List.{List, [], ◌∷◌, ◌++◌, map}
use mathlib.Core.Option.{Option, none, some}
use native.Mathlib.Omega.{arith}
use omnia_backends.Base.Tests.{if◌then◌else◌, Bool-cases}

module _ {ℓ} {A : Type ℓ} where
  abbrev pub length : List A → ℕ
  length [] = 0
  length (x ∷ xs) = suc (length xs)

  abbrev pub take : ℕ → List A → List A
  take zero xs = []
  take (suc n) [] = []
  take (suc n) (x ∷ xs) = x ∷ take n xs

  abbrev pub drop : ℕ → List A → List A
  drop zero xs = xs
  drop (suc n) [] = []
  drop (suc n) (x ∷ xs) = drop n xs

  abbrev pub replicate : ℕ → A → List A
  replicate zero a = []
  replicate (suc n) a = a ∷ replicate n a

  -- `Iterator::any`, `all`, `filter` and `find` over a Boolean test.
  abbrev pub any : (A → Bool) → List A → Bool
  any p [] = false
  any p (x ∷ xs) = p x || any p xs

  abbrev pub all : (A → Bool) → List A → Bool
  all p [] = true
  all p (x ∷ xs) = p x && all p xs

  abbrev pub keep : (A → Bool) → List A → List A
  keep p [] = []
  keep p (x ∷ xs) = if p x then x ∷ keep p xs else keep p xs

  abbrev pub find : (A → Bool) → List A → Option A
  find p [] = none
  find p (x ∷ xs) = if p x then some x else find p xs

  -- The last item, as `Vec::last` and `rfind` see it.
  abbrev pub rfind : (A → Bool) → List A → Option A
  rfind p [] = none
  rfind p (x ∷ xs) = elim (rfind p xs) [ some y ↦ some y | none ↦ if p x then some x else none ]

  pub length-append : (xs ys : List A) → length (xs ++ ys) ≡ length xs + length ys
  length-append [] ys = omega arith
  length-append (x ∷ xs) ys = omega (arith, length-append xs ys)

  pub take-drop : (n : ℕ) (xs : List A) → take n xs ++ drop n xs ≡ xs
  take-drop zero xs = refl
  take-drop (suc n) [] = refl
  take-drop (suc n) (x ∷ xs) = ap (λ ys. x ∷ ys) (take-drop n xs)

  pub length-take : (n : ℕ) (xs : List A) → n ≤ length xs → length (take n xs) ≡ n
  length-take zero xs h = refl
  length-take (suc n) [] h = absurd (omega arith)
  length-take (suc n) (x ∷ xs) h = ap suc (length-take n xs (omega arith))

  pub length-drop : (n : ℕ) (xs : List A) → length (drop n xs) ≡ length xs - n
  length-drop zero xs = omega arith
  length-drop (suc n) [] = omega arith
  length-drop (suc n) (x ∷ xs) = omega (arith, length-drop n xs)

  pub drop-drop : (n k l : ℕ) (xs : List A) → n + k ≡ l → drop k (drop n xs) ≡ drop l xs
  drop-drop zero k l xs e = ap (λ m. drop m xs) (omega arith)
  drop-drop (suc n) k zero xs e = absurd (omega arith)
  drop-drop (suc n) zero (suc l) [] e = refl
  drop-drop (suc n) (suc k) (suc l) [] e = refl
  drop-drop (suc n) k (suc l) (x ∷ xs) e = drop-drop n k l xs (omega arith)

  pub length-keep-le : (p : A → Bool) (xs : List A) → length (keep p xs) ≤ length xs
  length-keep-le p [] = omega arith
  length-keep-le p (x ∷ xs) = ground (arith, length-keep-le p xs)

-- Predicates by recursion, which compute to tuples and sums.
module _ {ℓ} {A : Type ℓ} where
  abbrev pub All : (A → Type 0) → List A → Type 0
  All P [] = Unit
  All P (x ∷ xs) = P x × All P xs

  abbrev pub Any : (A → Type 0) → List A → Type 0
  Any P [] = ⊥
  Any P (x ∷ xs) = P x ⊎ Any P xs

  pub All-map : {P Q : A → Type 0} (f : (a : A) → P a → Q a) (xs : List A) → All P xs → All Q xs
  All-map f [] h = tt
  All-map f (x ∷ xs) h = (f x h.0, All-map f xs h.1)

  pub All-append : (P : A → Type 0) (xs ys : List A) → All P xs → All P ys → All P (xs ++ ys)
  All-append P [] ys h k = k
  All-append P (x ∷ xs) ys h k = (h.0, All-append P xs ys h.1 k)

  pub Any-left : (P : A → Type 0) (xs ys : List A) → Any P xs → Any P (xs ++ ys)
  Any-left P [] ys h = absurd h
  Any-left P (x ∷ xs) ys (inl p) = inl p
  Any-left P (x ∷ xs) ys (inr h) = inr (Any-left P xs ys h)

  pub Any-right : (P : A → Type 0) (xs ys : List A) → Any P ys → Any P (xs ++ ys)
  Any-right P [] ys h = h
  Any-right P (x ∷ xs) ys h = inr (Any-right P xs ys h)

  pub Any-append : (P : A → Type 0) (xs ys : List A) → Any P (xs ++ ys) → Any P xs ⊎ Any P ys
  Any-append P [] ys h = inr h
  Any-append P (x ∷ xs) ys (inl p) = inl (inl p)
  Any-append P (x ∷ xs) ys (inr h) = elim (Any-append P xs ys h) [
    | inl k ↦ inl (inr k)
    | inr k ↦ inr k
  ]

  pub Any-All :
      {P Q R : A → Type 0} (f : (a : A) → P a → Q a → R a) (xs : List A)
      → Any P xs
      → All Q xs
      → Any R xs
  Any-All f [] h k = absurd h
  Any-All f (x ∷ xs) (inl p) k = inl (f x p k.0)
  Any-All f (x ∷ xs) (inr h) k = inr (Any-All f xs h k.1)

module _ {A : Type 0} where
  -- An item that passes the filter stays.
  pub Any-keep :
      (p : A → Bool) (a : A) (xs : List A)
      → p a ≡ true
      → Any (λ x. x ≡ a) xs
      → Any (λ x. x ≡ a) (keep p xs)
  Any-keep p a [] t h = absurd h
  Any-keep p a (x ∷ xs) t (inl e) = rw (ap p e ∙ t) (inl e)
  Any-keep p a (x ∷ xs) t (inr h) = elim (Bool-cases (p x)) [
    | inl yes' ↦ rw yes' (inr (Any-keep p a xs t h))
    | inr no' ↦ rw no' (Any-keep p a xs t h)
  ]

  -- A test that one item passes is passed by some item.
  pub any_of :
      (p : A → Bool) (a : A) (xs : List A) → p a ≡ true → Any (λ x. x ≡ a) xs → any p xs ≡ true
  any_of p a [] t h = absurd h
  any_of p a (x ∷ xs) t (inl e) = rw (ap p e ∙ t) refl
  any_of p a (x ∷ xs) t (inr h) = ground (arith, any_of p a xs t h)

  pub find_of :
      (p : A → Bool) (a : A) (xs : List A)
      → p a ≡ true
      → Any (λ x. x ≡ a) xs
      → (b : A) × (find p xs ≡ some b)
  find_of p a [] t h = absurd h
  find_of p a (x ∷ xs) t (inl e) = (x, rw (ap p e ∙ t) refl)
  find_of p a (x ∷ xs) t (inr h) = elim (Bool-cases (p x)) [
    | inl yes' ↦ (x, rw yes' refl)
    | inr no' ↦ let (b, e) = find_of p a xs t h in (b, rw no' e)
  ]

module _ {ℓ κ} {A : Type ℓ} {B : Type κ} where
  pub Any-map :
      (P : A → Type 0) (Q : B → Type 0) (f : A → B) (xs : List A)
      → ((a : A) → P a → Q (f a))
      → Any P xs
      → Any Q (map f xs)
  Any-map P Q f [] g h = absurd h
  Any-map P Q f (x ∷ xs) g (inl p) = inl (g x p)
  Any-map P Q f (x ∷ xs) g (inr h) = inr (Any-map P Q f xs g h)
