-- ===== src/Base/Integers.antt =====
-- Integers of 64 bits as texts, and the numbers of JSON as integers.
use Prim.Native.Nat.{ℕ, zero, suc, ◌+◌, ◌-◌, ◌*◌, ◌/◌, ◌%◌, ◌≤◌, ◌<◌}
use mathlib.Core.Path.{◌≡◌, refl, ap, ◌∙◌}
use mathlib.Core.Logic.{inl, inr}
use mathlib.Core.Bool.{Bool, true, false, ◌&&◌}
use mathlib.Core.List.{[], ◌∷◌, ◌++◌}
use mathlib.Core.Option.{Option, none, some}
use native.Mathlib.Omega.{arith}
use omnia_backends.Base.Tests.{
  leb, ltb, ◌==◌, if◌then◌else◌, if_lem, Bool-cases, ltb→lt, ltb→le, lt→ltb,
}
use omnia_backends.Base.Strings.{Text}
use omnia_backends.Base.Text.{digits, decimal}
use omnia_backends.Base.Json.{ℤ, pos, negsuc, Number, integer, float}

infixl 5 ◌>>=◌
abbrev ◌>>=◌ : {A B : Type 0} → Option A → (A → Option B) → Option B
none >>= f = none
some a >>= f = f a

abbrev pub i64_limit : ℕ
i64_limit = 9223372036854775808

unfoldable pub is_digit : ℕ → Bool
is_digit c = leb 48 c && leb c 57

-- The digits of a text as a number, on what came before.
unfoldable pub digits_value : ℕ → Text → Option ℕ
digits_value acc [] = some acc
digits_value acc (c ∷ text) =
    let rest = digits_value (acc * 10 + (c - 48)) text in if is_digit c then rest else none

unfoldable pub magnitude : Text → Option ℕ
magnitude [] = none
magnitude (c ∷ text) = digits_value 0 (c ∷ text)

unfoldable pub below_limit : ℕ → Option ℤ
below_limit n = if ltb n i64_limit then some (pos n) else none

unfoldable pub minus : ℕ → Option ℤ
minus zero = some (pos 0)
minus (suc n) = if ltb n i64_limit then some (negsuc n) else none

-- `str::parse::<i64>`: a sign or none, digits, and the range.
unfoldable pub parse_i64 : Text → Option ℤ
parse_i64 [] = none
parse_i64 (c ∷ text) =
    if c == 45
    then (magnitude text >>= minus)
    else if c == 43
    then (magnitude text >>= below_limit)
    else (magnitude (c ∷ text) >>= below_limit)

unfoldable pub as_i64 : Number → Option ℤ
as_i64 (integer (pos n)) = below_limit n
as_i64 (integer (negsuc n)) = if ltb n i64_limit then some (negsuc n) else none
as_i64 (float text) = none

-- `i64::to_string`
unfoldable pub to_text : ℤ → Text
to_text (pos n) = decimal n
to_text (negsuc n) = 45 ∷ decimal (suc n)

-- From -2^63 to 2^63 - 1.
abbrev pub InRange : ℤ → Type 0
InRange (pos n) = n < i64_limit
InRange (negsuc n) = n < i64_limit

digit : (d : ℕ) → d < 10 → is_digit (48 + d) ≡ true
unfolding is_digit
digit d h = ground arith

digits_value-append :
    (acc : ℕ) (text : Text) (n d : ℕ)
    → d < 10
    → digits_value acc text ≡ some n
    → digits_value acc (text ++ (48 + d) ∷ []) ≡ some (n * 10 + d)
unfolding digits_value
digits_value-append acc [] n d h = rw (digit d h) (λ e. ground arith)
digits_value-append acc (c ∷ text) n d h = elim (Bool-cases (is_digit c)) [
  | inl yes' ↦ rw yes' (digits_value-append (acc * 10 + (c - 48)) text n d h)
  | inr no' ↦ rw no' (λ e. cc)
]

-- The digits of a number: a first one, and the number that they all are.
abbrev Spells : ℕ → Text → Type 0
Spells n text =
    (c : ℕ) × (rest : Text) × (text ≡ c ∷ rest) × (48 ≤ c) × (digits_value 0 (c ∷ rest) ≡ some n)

digits-Spells : (fuel n : ℕ) → n < fuel → Spells n (digits fuel n)
unfolding digits digits_value
digits-Spells zero n h = absurd (omega arith)
digits-Spells (suc fuel) n h =
    if_lem (Spells n) (ltb n 10) ((48 + n) ∷ []) (digits fuel (n / 10) ++ (48 + n % 10) ∷ [])
      (λ small. (
        48 + n,
        [],
        refl,
        omega arith,
        digits_value-append 0 [] 0 n (ltb→lt n 10 small) refl ∙ ap some (omega arith),
      ))
      (λ large.
        let (c, rest, e, first, value) =
          digits-Spells fuel (n / 10) (omega (arith, ltb→le n 10 large)) in
        (
          c,
          rest ++ (48 + n % 10) ∷ [],
          ap (λ t. t ++ (48 + n % 10) ∷ []) e,
          first,
          digits_value-append 0 (c ∷ rest) (n / 10) (n % 10) (omega arith) value
              ∙ ap some (omega arith),
        ))

above : (c k : ℕ) → 48 ≤ c → k < 48 → (c == k) ≡ false
above c k h g = ground arith

pub as_i64-integer : (z : ℤ) → InRange z → as_i64 (integer z) ≡ some z
unfolding as_i64 below_limit
as_i64-integer (pos n) h = rw (lt→ltb n i64_limit h) refl
as_i64-integer (negsuc n) h = rw (lt→ltb n i64_limit h) refl

-- An integer of 64 bits is read back from its text.
pub parse_i64-to_text : (z : ℤ) → InRange z → parse_i64 (to_text z) ≡ some z
unfolding to_text parse_i64 magnitude decimal below_limit minus
parse_i64-to_text (pos n) h =
    let (c, rest, e, first, value) = digits-Spells (suc n) n (omega arith) in
    rw
      (
        e,
        above c 45 first (omega arith),
        above c 43 first (omega arith),
        value,
        lt→ltb n i64_limit h,
      )
      refl
parse_i64-to_text (negsuc n) h =
    let (c, rest, e, first, value) = digits-Spells (suc (suc n)) (suc n) (omega arith) in
    rw (e, value, lt→ltb n i64_limit h) refl

guarded : (b : Bool) (z v : ℤ) → (if b then some z else none) ≡ some v → (b ≡ true) × (v ≡ z)
guarded true z v h = (refl, cc)
guarded false z v h = cc

-- A number that is an integer of 64 bits is that integer, in its range.
pub as_i64-some : (z v : ℤ) → as_i64 (integer z) ≡ some v → (v ≡ z) × InRange z
unfolding as_i64 below_limit
as_i64-some (pos n) v h =
    let (b, e) = guarded (ltb n i64_limit) (pos n) v h in (e, ltb→lt n i64_limit b)
as_i64-some (negsuc n) v h =
    let (b, e) = guarded (ltb n i64_limit) (negsuc n) v h in (e, ltb→lt n i64_limit b)
