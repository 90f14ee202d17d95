-- ===== src/Kafka/Tracker/Access.antt =====
-- Reading a partition back after each way the tracker is written.
use mathlib.Core.Option
use omnia_backends.Base.{
  ℕ, ◌≡◌, refl, ◌&&◌, Option, none, some, List, [], ◌∷◌, if◌then◌else◌, arith, if_some-cases,
  Bool-cases, Option-cases, ==_iff, ◌==◌, ltb, ltb→lt, ◌<◌, inl, inr, ◌⊎◌, ◌∙◌, sym, Bool, true,
}
use omnia_backends.Base.Map.{Map, get, insert, get-insert}
use omnia_backends.Base.Order.{nat_ord, bytes_ord, same, eq_of_same}
use omnia_backends.Kafka.Tracker.{
  Tracker, Partition, Topic, partition, partitions_of, write_partition, resolve, resolve_partitions,
  resolve_topics, resolve_all, Stored, Pending, done_record, done_in, settle, mark, note_delivered,
  advance,
}

abbrev pub same_place : Topic → ℕ → Topic → ℕ → Bool
same_place topic p topic' p' = same topic topic' && same p p'

pub partition-write_partition :
    (t : Tracker) (topic topic' : Topic) (p p' : ℕ) (state : Partition)
    → partition (write_partition t topic' p' state) topic p
      ≡ (if same_place topic p topic' p' then some state else partition t topic p)
unfolding partition write_partition partitions_of get
partition-write_partition t topic topic' p p' state = ground (
  arith,
  get-insert topic topic' (insert p' state (partitions_of t topic')) t.topics,
  get-insert p p' state (partitions_of t topic'),
  eq_of_same topic topic',
)

-- What a read finds after a write: the partition written, or one that was there.
pub write_partition-cases :
    (t : Tracker) (topic topic' : Topic) (p p' : ℕ) (state found : Partition)
    → partition (write_partition t topic' p' state) topic p ≡ some found
    → ((state ≡ found) × (same_place topic p topic' p' ≡ true)) ⊎ (partition t topic p ≡ some found)
write_partition-cases t topic topic' p p' state found e =
    if_some-cases (same_place topic p topic' p') state found (partition t topic p)
      (sym (partition-write_partition t topic topic' p p' state) ∙ e)

pub write_partition_fields :
    (t : Tracker) (topic : Topic) (p : ℕ) (state : Partition)
    → ((write_partition t topic p state).delivered ≡ t.delivered)
      × ((write_partition t topic p state).out_of_order ≡ t.out_of_order)
      × ((write_partition t topic p state).tickets ≡ t.tickets)
unfolding write_partition
write_partition_fields t topic p state = (refl, refl, refl)

pub get-resolve_partitions :
    (d : ℕ) (topic : Topic) (p : ℕ) (m : Map ℕ Partition)
    → get p (resolve_partitions d topic m).1 ≡ Option.map (λ s. (resolve d s).1) (get p m)
unfolding resolve_partitions get
get-resolve_partitions d topic p [] = refl
get-resolve_partitions d topic p ((q, s) ∷ m) = ground (arith, get-resolve_partitions d topic p m)

-- A partition within the two levels of the map, as `partition` reads it.
pub lookup : Map Topic (Map ℕ Partition) → Topic → ℕ → Option Partition
lookup m topic p = elim (get topic m) [ none ↦ none | some partitions ↦ get p partitions ]

pub partition-lookup :
    (t : Tracker) (topic : Topic) (p : ℕ) → partition t topic p ≡ lookup t.topics topic p
unfolding partition lookup
partition-lookup t topic p = refl

lookup-resolve_topics :
    (d : ℕ) (topic : Topic) (p : ℕ) (m : Map Topic (Map ℕ Partition))
    → lookup (resolve_topics d m).1 topic p ≡ Option.map (λ s. (resolve d s).1) (lookup m topic p)
unfolding resolve_topics lookup get
lookup-resolve_topics d topic p [] = refl
lookup-resolve_topics d topic p ((name, parts) ∷ m) =
    ground (arith, lookup-resolve_topics d topic p m, get-resolve_partitions d name p parts)

-- `resolve_all` leaves each partition resolved, and touches nothing else.
pub partition-resolve_all :
    (t : Tracker) (topic : Topic) (p : ℕ)
    → partition (resolve_all t).1 topic p
      ≡ Option.map (λ s. (resolve t.delivered s).1) (partition t topic p)
unfolding resolve_all partition lookup
partition-resolve_all t topic p = lookup-resolve_topics t.delivered topic p t.topics

-- The branches of `done` and of `note_delivered`, each with what its tests established.
pub done_record-cases {ℓ} :
    (P : Option Stored × Tracker → Type ℓ) (t : Tracker) (topic : Topic) (p offset ticket sends : ℕ)
    → P (none, t)
    → ((s : Partition) (q : Pending)
        → partition t topic p ≡ some s
        → get offset s.pending ≡ some q
        → q.ticket ≡ ticket
        → P (settle t topic p (mark s offset q sends)))
    → P (done_record t topic p offset ticket sends)
unfolding done_record done_in
done_record-cases P t topic p offset ticket sends skip act =
    elim (Option-cases (partition t topic p)) [
      | inl e ↦ rw (e, done_record) skip
      | inr (s, e) ↦
          rw (e, done_record)
            (elim (Option-cases (get offset s.pending)) [
              | inl e' ↦ rw (e', done_in) skip
              | inr (q, e') ↦
                  rw (e', done_in)
                    (elim (Bool-cases (q.ticket == ticket)) [
                      | inr other ↦ rw other skip
                      | inl mine ↦ rw mine (act s q e e' ((==_iff q.ticket ticket).0 mine))
                    ])
            ])
    ]

pub note_delivered-cases {ℓ} :
    (P : List Stored × Tracker → Type ℓ) (t : Tracker) (id : ℕ)
    → (id < t.delivered → P ([], t))
    → (t.delivered < id → P ([], record t { out_of_order = insert id tt t.out_of_order }))
    → (id ≡ t.delivered → P (resolve_all (advance t)))
    → P (note_delivered t id)
unfolding note_delivered
note_delivered-cases P t id late early next = elim (Bool-cases (ltb id t.delivered)) [
  | inl l ↦ rw l (late (ltb→lt _ _ l))
  | inr g ↦ rw g (elim (Bool-cases (ltb t.delivered id)) [
    | inl l ↦ rw l (early (ltb→lt _ _ l))
    | inr g' ↦ rw g' (next (ground arith))
  ])
]
