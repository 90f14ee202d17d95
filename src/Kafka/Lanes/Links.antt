-- ===== src/Kafka/Lanes/Links.antt =====
-- The chain of the lanes of a key, and what taking one off it leaves.
use omnia_backends.Base.{
  ℕ, ◌<◌, ◌≤◌, ◌≡◌, refl, ap, ◌∙◌, ◌⊎◌, inl, inr, Bool, true, false, Option, none, some, List, [],
  ◌∷◌, ◌++◌, any, ◌==◌, if◌then◌else◌, Bool-cases, ==_iff, arith,
}
use omnia_backends.Base.Map
use omnia_backends.Base.Map.{Map, get-insert, get-remove}
use omnia_backends.Base.Order.{bytes_ord, same, eq_of_same}
use omnia_backends.Base.Strings.{Text}
use omnia_backends.Kafka.Lanes.{Lane, Lanes, enqueue, is_tail, release}

-- The lanes of unfinished tasks, the latest first; of those of a key, the number of the latest.
unfoldable pub latest : Text → List Lane → Option ℕ
latest k [] = none
latest k (l ∷ older) = let more = latest k older in if same k l.lane_key then some l.seq else more

abbrev pub Behind : Lane → List Lane → Type 0
Behind l older = (latest l.lane_key older ≡ none) ⊎ (latest l.lane_key older ≡ l.behind)

-- Numbers fall below `n`, and each lane waits on the one before it of its key.
unfoldable pub Linked : ℕ → List Lane → Type 0
Linked n [] = Unit
Linked n (l ∷ older) = (l.seq < n) × Behind l older × Linked l.seq older

abbrev pub Tails : Map Text ℕ → List Lane → Type 0
Tails tails ls = (k : Text) → (latest k ls ≡ none) ⊎ (latest k ls ≡ Map.get k tails)

abbrev pub numbered : ℕ → List Lane → Bool
numbered n ls = any (λ l. l.seq == n) ls

pub enqueue-Linked :
    (k : Text) (lanes : Lanes) (ls : List Lane)
    → Tails lanes.tails ls
    → Linked lanes.next ls
    → Linked (enqueue k lanes).1.next ((enqueue k lanes).0 ∷ ls)
unfolding enqueue Linked
enqueue-Linked k lanes ls t h = (omega arith, t k, h)

pub enqueue-Tails :
    (k : Text) (lanes : Lanes) (ls : List Lane)
    → Tails lanes.tails ls
    → Tails (enqueue k lanes).1.tails ((enqueue k lanes).0 ∷ ls)
unfolding enqueue latest
enqueue-Tails k lanes ls t j = elim (Bool-cases (same j k)) [
  | inl e ↦ inr (rw (get-insert j k lanes.next lanes.tails, e) refl)
  | inr e ↦ rw (get-insert j k lanes.next lanes.tails, e) (t j)
]

latest-numbered : (k : Text) (ls : List Lane) (n : ℕ) → latest k ls ≡ some n → numbered n ls ≡ true
unfolding latest
latest-numbered k [] n h = cc
latest-numbered k (l ∷ older) n h = ground (arith, latest-numbered k older n)

-- Its turn has come for a lane that waits on none of the lanes.
abbrev pub Free : Lane → List Lane → Type 0
Free l ls = (l.behind ≡ none) ⊎ ((n : ℕ) × (l.behind ≡ some n) × (numbered n ls ≡ false))

Linked-mono : (n m : ℕ) (ls : List Lane) → n ≤ m → Linked n ls → Linked m ls
unfolding Linked
Linked-mono n m [] h k = tt
Linked-mono n m (l ∷ older) h (a, b, c) = (omega arith, b, c)

latest-remove :
    (k : Text) (newer : List Lane) (l : Lane) (older : List Lane)
    → latest l.lane_key older ≡ none
    → (latest k (newer ++ older) ≡ none)
      ⊎ (latest k (newer ++ older) ≡ latest k (newer ++ l ∷ older))
unfolding latest
latest-remove k [] l older h = elim (Bool-cases (same k l.lane_key)) [
  | inl e ↦ inl (ap (λ j. latest j older) (eq_of_same k l.lane_key e) ∙ h)
  | inr e ↦ inr (rw e refl)
]
latest-remove k (m ∷ newer) l older h = elim (Bool-cases (same k m.lane_key)) [
  | inl e ↦ inr (rw e refl)
  | inr e ↦ rw e (latest-remove k newer l older h)
]

pub Linked-remove :
    (n : ℕ) (newer : List Lane) (l : Lane) (older : List Lane)
    → latest l.lane_key older ≡ none
    → Linked n (newer ++ l ∷ older)
    → Linked n (newer ++ older)
unfolding Linked
Linked-remove n [] l older h (a, b, c) = Linked-mono l.seq n older (omega arith) c
Linked-remove n (m ∷ newer) l older h (a, b, c) =
    (a, still (latest-remove m.lane_key newer l older h) b, Linked-remove m.seq newer l older h c)
  where
    still :
        (latest m.lane_key (newer ++ older) ≡ none)
          ⊎ (latest m.lane_key (newer ++ older) ≡ latest m.lane_key (newer ++ l ∷ older))
        → Behind m (newer ++ l ∷ older)
        → Behind m (newer ++ older)
    still (inl e) b = inl e
    still (inr e) (inl b) = inl (e ∙ b)
    still (inr e) (inr b) = inr (e ∙ b)

Linked-lt :
    (n : ℕ) (newer : List Lane) (l : Lane) (older : List Lane)
    → Linked n (newer ++ l ∷ older)
    → l.seq < n
unfolding Linked
Linked-lt n [] l older (a, b, c) = a
Linked-lt n (m ∷ newer) l older (a, b, c) = omega (arith, Linked-lt m.seq newer l older c)

numbered-below : (n q : ℕ) (ls : List Lane) → n ≤ q → Linked n ls → numbered q ls ≡ false
unfolding Linked
numbered-below n q [] h k = refl
numbered-below n q (l ∷ older) h (a, b, c) =
    ground (arith, numbered-below l.seq q older (omega arith) c)

-- A number is given once.
numbered-rest :
    (n : ℕ) (newer : List Lane) (l : Lane) (older : List Lane)
    → Linked n (newer ++ l ∷ older)
    → numbered l.seq (newer ++ older) ≡ false
unfolding Linked
numbered-rest n [] l older (a, b, c) = numbered-below l.seq l.seq older (omega arith) c
numbered-rest n (m ∷ newer) l older (a, b, c) =
    ground (arith, Linked-lt m.seq newer l older c, numbered-rest m.seq newer l older c)

Linked-Behind :
    (n : ℕ) (newer : List Lane) (l : Lane) (older : List Lane)
    → Linked n (newer ++ l ∷ older)
    → Behind l older
unfolding Linked
Linked-Behind n [] l older (a, b, c) = b
Linked-Behind n (m ∷ newer) l older (a, b, c) = Linked-Behind m.seq newer l older c

numbered-older :
    (q : ℕ) (newer : List Lane) (l : Lane) (older : List Lane)
    → numbered q older ≡ true
    → numbered q (newer ++ l ∷ older) ≡ true
numbered-older q [] l older h = ground arith
numbered-older q (m ∷ newer) l older h = ground (arith, numbered-older q newer l older h)

false-true : (b : Bool) → b ≡ false → b ≡ true → ⊥
false-true b h k = cc

-- Where its turn has come, no earlier lane of its key is left.
pub Free-First :
    (n : ℕ) (newer : List Lane) (l : Lane) (older : List Lane)
    → Linked n (newer ++ l ∷ older)
    → Free l (newer ++ l ∷ older)
    → latest l.lane_key older ≡ none
Free-First n newer l older h f = decide (Linked-Behind n newer l older h) f
  where
    decide : Behind l older → Free l (newer ++ l ∷ older) → latest l.lane_key older ≡ none
    decide (inl e) f' = e
    decide (inr e) (inl b) = e ∙ b
    decide (inr e) (inr (q, b, gone)) = absurd (
        false-true (numbered q (newer ++ l ∷ older)) gone
          (numbered-older q newer l older (latest-numbered l.lane_key older q (e ∙ b))))

is_tail-some : (l : Lane) (o : Option ℕ) → is_tail l o ≡ true → o ≡ some l.seq
unfolding is_tail
is_tail-some l none h = cc
is_tail-some l (some tail) h = ap some ((==_iff tail l.seq).0 h)

pub release-Tails :
    (n : ℕ) (newer : List Lane) (l : Lane) (older : List Lane) (lanes : Lanes)
    → Linked n (newer ++ l ∷ older)
    → latest l.lane_key older ≡ none
    → Tails lanes.tails (newer ++ l ∷ older)
    → Tails (release l lanes).tails (newer ++ older)
unfolding release
release-Tails n newer l older lanes h first t k =
    elim (Bool-cases (is_tail l (Map.get l.lane_key lanes.tails))) [
      | inr kept ↦ rw kept (both (latest-remove k newer l older first) (t k))
      | inl last ↦ rw last (elim (Bool-cases (same k l.lane_key)) [
        | inr e ↦
            rw (get-remove k l.lane_key lanes.tails, e)
              (both (latest-remove k newer l older first) (t k))
        | inl e ↦ inl (own e last (both (latest-remove k newer l older first) (t k)))
      ])
    ]
  where
    both :
        (latest k (newer ++ older) ≡ none)
          ⊎ (latest k (newer ++ older) ≡ latest k (newer ++ l ∷ older))
        → (latest k (newer ++ l ∷ older) ≡ none)
          ⊎ (latest k (newer ++ l ∷ older) ≡ Map.get k lanes.tails)
        → (latest k (newer ++ older) ≡ none) ⊎ (latest k (newer ++ older) ≡ Map.get k lanes.tails)
    both (inl e) x = inl e
    both (inr e) (inl x) = inl (e ∙ x)
    both (inr e) (inr x) = inr (e ∙ x)

    own :
        same k l.lane_key ≡ true
        → is_tail l (Map.get l.lane_key lanes.tails) ≡ true
        → (latest k (newer ++ older) ≡ none) ⊎ (latest k (newer ++ older) ≡ Map.get k lanes.tails)
        → latest k (newer ++ older) ≡ none
    own e last (inl x) = x
    own e last (inr x) = absurd (
        false-true (numbered l.seq (newer ++ older)) (numbered-rest n newer l older h) (
          latest-numbered k (newer ++ older) l.seq (
            x
            ∙ (ap (λ j. Map.get j lanes.tails) (eq_of_same k l.lane_key e)
                ∙ is_tail-some l (Map.get l.lane_key lanes.tails) last))))
