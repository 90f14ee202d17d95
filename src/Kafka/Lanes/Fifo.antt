-- ===== src/Kafka/Lanes/Fifo.antt =====
-- The order of deliveries, from the start on: records of one key one at a time.
use omnia_backends.Base.{
  ℕ, ◌≡◌, refl, sym, ap, subst, ◌∙◌, inl, inr, Bool, true, false, not, ◌||◌, Option, none, some,
  List, [], ◌∷◌, ◌++◌, any, ◌==◌, Option-cases, All, arith,
}
use omnia_backends.Base.Order.{bytes_ord, same}
use omnia_backends.Base.Strings.{Text}
use omnia_backends.Kafka.Lanes.{
  Lane, Lanes, Task, Delivery, enqueue, release_lane, has_seq, its_turn, admit, release, lane_has,
  Step, took, admitted, returned, woken, finished, no_tasks, Reached, begun, stepped,
}
use omnia_backends.Kafka.Lanes.Links.{
  latest, Linked, Tails, numbered, Free, enqueue-Linked, enqueue-Tails, Linked-remove, Free-First,
  release-Tails,
}

abbrev with_lane : Option Lane → List Lane → List Lane
with_lane none ls = ls
with_lane (some l) ls = l ∷ ls

-- The lanes of tasks, the latest first.
unfoldable pub lanes_of : List Task → List Lane
lanes_of [] = []
lanes_of (task ∷ tasks) = with_lane task.lane (lanes_of tasks)

abbrev InOrder : Lanes → List Task → Type 0
InOrder lanes tasks = Linked lanes.next (lanes_of tasks) × Tails lanes.tails (lanes_of tasks)

lanes_of-append : (xs ys : List Task) → lanes_of (xs ++ ys) ≡ lanes_of xs ++ lanes_of ys
unfolding lanes_of
lanes_of-append [] ys = refl
lanes_of-append (task ∷ xs) ys = one task.lane (lanes_of-append xs ys)
  where
    one :
        (lane : Option Lane)
        → lanes_of (xs ++ ys) ≡ lanes_of xs ++ lanes_of ys
        → with_lane lane (lanes_of (xs ++ ys)) ≡ with_lane lane (lanes_of xs) ++ lanes_of ys
    one none e = e
    one (some l) e = ap (λ ls. l ∷ ls) e

-- A lane whose turn has come is free of the others.
numbered-lanes_of :
    (n : ℕ) (tasks : List Task) → any (has_seq n) tasks ≡ numbered n (lanes_of tasks)
unfolding lanes_of has_seq
numbered-lanes_of n [] = refl
numbered-lanes_of n (task ∷ tasks) = one task.lane (numbered-lanes_of n tasks)
  where
    one :
        (lane : Option Lane)
        → any (has_seq n) tasks ≡ numbered n (lanes_of tasks)
        → (lane_has n lane || any (has_seq n) tasks) ≡ numbered n (with_lane lane (lanes_of tasks))
    one none e = e
    one (some l) e = ap (λ b. l.seq == n || b) e

not-true : (b : Bool) → not b ≡ true → b ≡ false
not-true true h = cc
not-true false h = refl

its_turn-Free :
    (l : Lane) (tasks : List Task) → its_turn (some l) tasks ≡ true → Free l (lanes_of tasks)
unfolding its_turn
its_turn-Free l tasks = elim (Option-cases l.behind) [
  | inl none' ↦ λ h. inl none'
  | inr (n, e) ↦
      rw (e, its_turn)
        (λ h. inr (n, refl, sym (numbered-lanes_of n tasks) ∙ not-true (any (has_seq n) tasks) h))
]

abbrev Chained : Lanes → List Lane → Type 0
Chained lanes ls = Linked lanes.next ls × Tails lanes.tails ls

release-next : (l : Lane) (lanes : Lanes) → (release l lanes).next ≡ lanes.next
unfolding release
release-next l lanes = ground arith

-- The lanes of a state's tasks, around one of them.
around :
    (d : Delivery) (newer older : List Task) (lane : Option Lane) (slot : Bool)
    → d.tasks ≡ newer ++ record { lane = lane; slot = slot } ∷ older
    → lanes_of d.tasks ≡ lanes_of newer ++ with_lane lane (lanes_of older)
unfolding lanes_of
around d newer older lane slot e =
    ap lanes_of e ∙ lanes_of-append newer (record { lane = lane; slot = slot } ∷ older)

finished-InOrder :
    (d : Delivery) (newer older : List Task) (lane : Option Lane)
    → d.tasks ≡ newer ++ record { lane = lane; slot = true } ∷ older
    → its_turn lane d.tasks ≡ true
    → InOrder d.lanes d.tasks
    → Chained (release_lane lane d.lanes) (lanes_of newer ++ lanes_of older)
unfolding release_lane
finished-InOrder d newer older none e turn o =
    subst (Chained d.lanes) (around d newer older none true e) o
finished-InOrder d newer older (some l) e turn o =
    let here = around d newer older (some l) true e in
    let (linked, tails) = subst (Chained d.lanes) here o in
    let free = subst (Free l) here (its_turn-Free l d.tasks turn) in
    let first = Free-First d.lanes.next (lanes_of newer) l (lanes_of older) linked free in
    (
      subst (λ n. Linked n (lanes_of newer ++ lanes_of older)) (sym (release-next l d.lanes))
          (Linked-remove d.lanes.next (lanes_of newer) l (lanes_of older) first linked),
      release-Tails d.lanes.next (lanes_of newer) l (lanes_of older) d.lanes linked first tails,
    )

step-InOrder : {d d' : Delivery} → Step d d' → InOrder d.lanes d.tasks → InOrder d'.lanes d'.tasks
unfolding admit enqueue lanes_of release_lane
step-InOrder (took d left out s) o = o
step-InOrder (returned d taken) o = o
step-InOrder (admitted d none taken) o = o
step-InOrder (admitted d (some key) taken) (linked, tails) = (
  enqueue-Linked key d.lanes (lanes_of d.tasks) tails linked,
  enqueue-Tails key d.lanes (lanes_of d.tasks) tails,
)
step-InOrder (woken d newer older lane left e turn s) o =
    subst (Chained d.lanes)
      (around d newer older lane false e
        ∙ sym (lanes_of-append newer (record { lane = lane; slot = true } ∷ older)))
      o
step-InOrder (finished d newer older lane e turn) o =
    subst (Chained (release_lane lane d.lanes)) (sym (lanes_of-append newer older))
      (finished-InOrder d newer older lane e turn o)

Reached-InOrder : {slots : ℕ} {d : Delivery} → Reached slots d → InOrder d.lanes d.tasks
unfolding no_tasks lanes_of Linked latest
Reached-InOrder begun = (tt, λ k. inl refl)
Reached-InOrder (stepped r s) = step-InOrder s (Reached-InOrder r)

abbrev pub keyed : Text → Option Lane → Bool
keyed k none = false
keyed k (some l) = same k l.lane_key

none-keyed :
    (k : Text) (tasks : List Task)
    → latest k (lanes_of tasks) ≡ none
    → All (λ t. keyed k t.lane ≡ false) tasks
unfolding latest lanes_of
none-keyed k [] h = tt
none-keyed k (task ∷ tasks) h = one task.lane h (none-keyed k tasks)
  where
    one :
        (lane : Option Lane)
        → latest k (with_lane lane (lanes_of tasks)) ≡ none
        → (latest k (lanes_of tasks) ≡ none → All (λ t. keyed k t.lane ≡ false) tasks)
        → (keyed k lane ≡ false) × All (λ t. keyed k t.lane ≡ false) tasks
    one none e ih = (refl, ih e)
    one (some l) e ih = (ground arith, ih (ground arith))

-- In any run of deliveries: where a task's turn has come, no unfinished task of its key was pulled before it. So
-- records of a key are handled in the order they were pulled, and no two of them at once.
pub its_turn-First :
    (slots : ℕ) (d : Delivery) (newer older : List Task) (l : Lane) (slot : Bool)
    → Reached slots d
    → d.tasks ≡ newer ++ record { lane = some l; slot = slot } ∷ older
    → its_turn (some l) d.tasks ≡ true
    → All (λ t. keyed l.lane_key t.lane ≡ false) older
its_turn-First slots d newer older l slot r e turn =
    let here = around d newer older (some l) slot e in
    let (linked, tails) = subst (Chained d.lanes) here (Reached-InOrder r) in
    none-keyed l.lane_key older (
      Free-First d.lanes.next (lanes_of newer) l (lanes_of older) linked
        (subst (Free l) here (its_turn-Free l d.tasks turn)))
