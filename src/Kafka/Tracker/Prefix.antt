-- ===== src/Kafka/Tracker/Prefix.antt =====
-- `Partition::resolve`: what leaves a partition's pending records and what stays.
use omnia_backends.Base.{
  ℕ, ◌≡◌, refl, inl, inr, true, false, Option, some, [], ◌∷◌, ◌++◌, All, arith, Bool-cases,
}
use omnia_backends.Base.Map.{Map}
use omnia_backends.Base.Ascending.{Above, Ascending, Above-trans}
use omnia_backends.Kafka.Tracker.{Pending, resolved, resolve_loop}

abbrev pub Entries : Type 0
Entries = Map ℕ Pending

-- The first record left is not resolved, or none is left.
abbrev pub Settled : ℕ → Entries → Type 0
Settled d [] = Unit
Settled d ((k, p) ∷ m) = resolved p d ≡ false

-- What `resolve` reports: the key of the last record that left.
abbrev pub last_key : Option ℕ → Entries → Option ℕ
last_key last [] = last
last_key last ((k, p) ∷ m) = last_key (some k) m

abbrev pub Resolved : ℕ → ℕ × Pending → Type 0
Resolved d e = resolved e.1 d ≡ true

-- The records that leave and those that stay.
pub record Split (d : ℕ) (last : Option ℕ) (m : Entries) (r : Option ℕ × Entries) : Type 0 where
  pub left : Entries
  pub whole : m ≡ left ++ r.1
  pub left_resolved : All (Resolved d) left
  pub rest_settled : Settled d r.1
  pub last_lem : r.0 ≡ last_key last left

-- The pending records split into those that leave, all of them resolved, and those that stay, of
-- which the first is not; the last of those that leave is reported.
pub resolve_loop-Split :
    (d : ℕ) (last : Option ℕ) (m : Entries) → Split d last m (resolve_loop d last m)
unfolding resolve_loop
resolve_loop-Split d last [] = record {
  left = [];
  whole = refl;
  left_resolved = tt;
  rest_settled = tt;
  last_lem = refl;
}
resolve_loop-Split d last ((k, p) ∷ m) = elim (Bool-cases (resolved p d)) [
  | inl yes' ↦ rw yes' (
      let ih = resolve_loop-Split d (some k) m in
      record {
        left = (k, p) ∷ ih.left;
        whole = ground (arith, ih.whole);
        left_resolved = (yes', ih.left_resolved);
        rest_settled = ih.rest_settled;
        last_lem = ih.last_lem;
      })
  | inr no' ↦
      rw no' (record {
        left = [];
        whole = refl;
        left_resolved = tt;
        rest_settled = no';
        last_lem = refl;
      })
]

-- The pending records that stay keep the order, and lie above whatever the map lay above.
pub resolve_loop-Above :
    (d : ℕ) (last : Option ℕ) (j : ℕ) (m : Entries) → Above j m → Above j (resolve_loop d last m).1
unfolding resolve_loop
resolve_loop-Above d last j [] h = tt
resolve_loop-Above d last j ((k, p) ∷ m) h = ground (arith, resolve_loop-Above d (some k) j m h.1)

pub resolve_loop-Ascending :
    (d : ℕ) (last : Option ℕ) (m : Entries) → Ascending m → Ascending (resolve_loop d last m).1
unfolding resolve_loop
resolve_loop-Ascending d last [] h = tt
resolve_loop-Ascending d last ((k, p) ∷ m) h =
    ground (arith, resolve_loop-Ascending d (some k) m h.1)

-- Every record that stays is above the offset reported, so a commit passes no pending record.
pub resolve_loop_passes :
    (d : ℕ) (last : ℕ) (m : Entries) (k : ℕ)
    → Ascending m
    → Above last m
    → (resolve_loop d (some last) m).0 ≡ some k
    → Above k (resolve_loop d (some last) m).1
unfolding resolve_loop
resolve_loop_passes d last [] k a h e = tt
resolve_loop_passes d last ((j, p) ∷ m) k a h e =
    ground (arith, resolve_loop_passes d j m k a.1 a.0, Above-trans k j m)
