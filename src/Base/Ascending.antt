-- ===== src/Base/Ascending.antt =====
-- Maps with numeric keys that ascend, the invariant of an ordered map, and what it gives.
use omnia_backends.Base.Lists.{All, All-map, length}
use omnia_backends.Base.Map.{Map, get, insert, remove}
use omnia_backends.Base.Order.{nat_ord}
use Prim.Native.Nat.{ℕ, ◌<◌, ◌≤◌}
use mathlib.Core.Path.{◌≡◌, refl}
use mathlib.Core.List.{[], ◌∷◌}
use mathlib.Core.Option.{none, some}
use native.Mathlib.Omega.{arith}

module _ {V : Type 0} where
  -- Every key of the map is above `k`.
  abbrev pub Above : ℕ → Map ℕ V → Type 0
  Above k m = All (λ e. k < e.0) m

  abbrev pub Ascending : Map ℕ V → Type 0
  Ascending [] = Unit
  Ascending (e ∷ m) = Above e.0 m × Ascending m

  pub Above-trans : (j k : ℕ) (m : Map ℕ V) → j ≤ k → Above k m → Above j m
  Above-trans j k m h a = All-map (λ e p. omega arith) m a

  pub get-Above : (k : ℕ) (m : Map ℕ V) → Above k m → get k m ≡ none
  unfolding get
  get-Above k [] h = refl
  get-Above k ((j, v) ∷ m) h = ground (arith, get-Above k m h.1)

  pub lt_of_get : (k j : ℕ) (v : V) (m : Map ℕ V) → Above k m → get j m ≡ some v → k < j
  unfolding get
  lt_of_get k j v [] h g = ground arith
  lt_of_get k j v ((i, w) ∷ m) h g = ground (arith, lt_of_get k j v m h.1)

  pub insert-Above : (j k : ℕ) (v : V) (m : Map ℕ V) → j < k → Above j m → Above j (insert k v m)
  unfolding insert
  insert-Above j k v [] h a = (h, tt)
  insert-Above j k v ((i, w) ∷ m) h a = ground (arith, insert-Above j k v m h a.1)

  pub insert-Ascending : (k : ℕ) (v : V) (m : Map ℕ V) → Ascending m → Ascending (insert k v m)
  unfolding insert
  insert-Ascending k v [] a = (tt, tt)
  insert-Ascending k v ((i, w) ∷ m) a =
      ground (arith, insert-Above i k v m, insert-Ascending k v m a.1, Above-trans k i m)

  pub remove-Above : (j k : ℕ) (m : Map ℕ V) → Above j m → Above j (remove k m)
  unfolding remove
  remove-Above j k [] a = tt
  remove-Above j k ((i, w) ∷ m) a = ground (arith, remove-Above j k m a.1)

  pub remove-Ascending : (k : ℕ) (m : Map ℕ V) → Ascending m → Ascending (remove k m)
  unfolding remove
  remove-Ascending k [] a = tt
  remove-Ascending k ((i, w) ∷ m) a =
      ground (arith, remove-Above i k m a.0, remove-Ascending k m a.1)

  pub length-remove-le : (k : ℕ) (m : Map ℕ V) → length (remove k m) ≤ length m
  unfolding remove
  length-remove-le k [] = omega arith
  length-remove-le k (e ∷ m) = ground (arith, length-remove-le k m)

  pub length-remove-lt :
      (k : ℕ) (v : V) (m : Map ℕ V) → get k m ≡ some v → length (remove k m) < length m
  unfolding remove get
  length-remove-lt k v [] h = ground arith
  length-remove-lt k v (e ∷ m) h = ground (arith, length-remove-lt k v m, length-remove-le k m)
