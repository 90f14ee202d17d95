-- ===== src/Base/Sorted.antt =====
-- Ordered maps over any ordered keys: sorted, so every entry of the list is what `get` finds.
use omnia_backends.Base.Lists.{All, Any}
use omnia_backends.Base.Map.{Map, get, insert}
use omnia_backends.Base.Order.{Ord}
use Prim.Native.Nat.{Ordering}
use mathlib.Core.Path.{◌≡◌}
use mathlib.Core.Logic.{inl, inr}
use mathlib.Core.List.{[], ◌∷◌}
use mathlib.Core.Option.{some}
use native.Mathlib.Omega.{arith}

module _ {K V : Type 0} ⦃o : Ord K⦄ where
  -- Every key of the map comes after `k`.
  abbrev pub Precedes : K → Map K V → Type 0
  Precedes k m = All (λ e. o.cmp k e.0 ≡ Ordering.lt) m

  abbrev pub IsSorted : Map K V → Type 0
  IsSorted [] = Unit
  IsSorted (e ∷ m) = Precedes e.0 m × IsSorted m

  pub insert-Precedes :
      (j k : K) (v : V) (m : Map K V)
      → o.cmp j k ≡ Ordering.lt
      → Precedes j m
      → Precedes j (insert k v m)
  unfolding insert
  insert-Precedes j k v [] h a = (h, tt)
  insert-Precedes j k v ((i, w) ∷ m) h a = ground (arith, insert-Precedes j k v m h a.1)

  pub Precedes-trans :
      (j k : K) (m : Map K V) → o.cmp j k ≡ Ordering.lt → Precedes k m → Precedes j m
  Precedes-trans j k [] h a = tt
  Precedes-trans j k ((i, w) ∷ m) h a = (o.cmp_trans j k i h a.0, Precedes-trans j k m h a.1)

  pub insert-IsSorted : (k : K) (v : V) (m : Map K V) → IsSorted m → IsSorted (insert k v m)
  unfolding insert
  insert-IsSorted k v [] a = (tt, tt)
  insert-IsSorted k v ((i, w) ∷ m) a = ground (
    arith,
    insert-Precedes i k v m,
    insert-IsSorted k v m a.1,
    Precedes-trans k i m,
    o.cmp_flip k i,
    o.eq_of_cmp k i,
  )

  -- What holds of each value still does after the insertion of one more of which it holds.
  pub insert-All :
      (P : V → Type 0) (k : K) (v : V) (m : Map K V)
      → P v
      → All (λ e. P e.1) m
      → All (λ e. P e.1) (insert k v m)
  unfolding insert
  insert-All P k v [] h a = (h, tt)
  insert-All P k v ((i, w) ∷ m) h a = ground (arith, insert-All P k v m h a.1)

  pub get-All :
      (P : V → Type 0) (k : K) (v : V) (m : Map K V) → All (λ e. P e.1) m → get k m ≡ some v → P v
  unfolding get
  get-All P k v [] a h = cc
  get-All P k v ((i, w) ∷ m) a h = ground (arith, get-All P k v m a.1)

  -- In a sorted map a key that precedes another is not that key.
  pub get-Precedes :
      (k j : K) (v : V) (m : Map K V)
      → Precedes k m
      → Any (λ e. e ≡ (j, v)) m
      → o.cmp k j ≡ Ordering.lt
  get-Precedes k j v [] a h = absurd h
  get-Precedes k j v ((i, w) ∷ m) a (inl h) = ground arith
  get-Precedes k j v ((i, w) ∷ m) a (inr h) = get-Precedes k j v m a.1 h

  pub get_of_entry :
      (k : K) (v : V) (m : Map K V) → IsSorted m → Any (λ e. e ≡ (k, v)) m → get k m ≡ some v
  unfolding get
  get_of_entry k v [] a h = absurd h
  get_of_entry k v ((i, w) ∷ m) a (inl h) = ground (arith, o.cmp_refl k)
  get_of_entry k v ((i, w) ∷ m) a (inr h) =
      ground
        (arith, get_of_entry k v m a.1 h, get-Precedes i k v m a.0 h, o.eq_of_cmp k i, o.cmp_refl k)
