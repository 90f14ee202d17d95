-- ===== src/Kafka/Tracker/Sorted.antt =====
-- The topics and their partitions stay sorted maps.
use omnia_backends.Base.{ℕ, [], ◌∷◌, All, Option-cases, inl, inr}
use omnia_backends.Base.Map.{Map, get, insert}
use omnia_backends.Base.Order.{nat_ord, bytes_ord}
use omnia_backends.Base.Sorted.{Precedes, IsSorted, insert-IsSorted, insert-All, get-All}
use omnia_backends.Kafka.Tracker.{
  Tracker, Partition, Topic, Event, inserts, finishes, reports, revokes, assigns, write_partition,
  partitions_of, resolve_partitions, resolve_topics, resolve_all, advance, insert_record,
  done_record, settle, note_delivered, revoke, assign, step, default_tracker,
}
use omnia_backends.Kafka.Tracker.Access.{done_record-cases, note_delivered-cases}

abbrev pub TopicsSorted : Map Topic (Map ℕ Partition) → Type 0
TopicsSorted m = IsSorted m × All (λ e. IsSorted e.1) m

abbrev pub PlacesSorted : Tracker → Type 0
PlacesSorted t = TopicsSorted t.topics

partitions_of-IsSorted :
    (t : Tracker) (topic : Topic) → PlacesSorted t → IsSorted (partitions_of t topic)
unfolding partitions_of
partitions_of-IsSorted t topic s = elim (Option-cases (get topic t.topics)) [
  | inl e ↦ rw (e, partitions_of) tt
  | inr (m, e) ↦ rw (e, partitions_of) (get-All IsSorted topic m t.topics s.1 e)
]

write-PlacesSorted :
    (t : Tracker) (topic : Topic) (p : ℕ) (state : Partition)
    → PlacesSorted t
    → PlacesSorted (write_partition t topic p state)
unfolding write_partition
write-PlacesSorted t topic p state s =
    let m = insert p state (partitions_of t topic) in
    let parts =
      insert-IsSorted p state (partitions_of t topic) (partitions_of-IsSorted t topic s) in
    (insert-IsSorted topic m t.topics s.0, insert-All IsSorted topic m t.topics parts s.1)

resolve_partitions-Precedes :
    (d : ℕ) (topic : Topic) (p : ℕ) (m : Map ℕ Partition)
    → Precedes p m
    → Precedes p (resolve_partitions d topic m).1
unfolding resolve_partitions
resolve_partitions-Precedes d topic p [] h = tt
resolve_partitions-Precedes d topic p ((q, s) ∷ m) h =
    (h.0, resolve_partitions-Precedes d topic p m h.1)

resolve_partitions-IsSorted :
    (d : ℕ) (topic : Topic) (m : Map ℕ Partition)
    → IsSorted m
    → IsSorted (resolve_partitions d topic m).1
unfolding resolve_partitions
resolve_partitions-IsSorted d topic [] h = tt
resolve_partitions-IsSorted d topic ((q, s) ∷ m) h =
    (resolve_partitions-Precedes d topic q m h.0, resolve_partitions-IsSorted d topic m h.1)

resolve_topics-Precedes :
    (d : ℕ) (topic : Topic) (m : Map Topic (Map ℕ Partition))
    → Precedes topic m
    → Precedes topic (resolve_topics d m).1
unfolding resolve_topics
resolve_topics-Precedes d topic [] h = tt
resolve_topics-Precedes d topic ((q, s) ∷ m) h = (h.0, resolve_topics-Precedes d topic m h.1)

resolve_topics-TopicsSorted :
    (d : ℕ) (m : Map Topic (Map ℕ Partition)) → TopicsSorted m → TopicsSorted (resolve_topics d m).1
unfolding resolve_topics
resolve_topics-TopicsSorted d [] h = (tt, tt)
resolve_topics-TopicsSorted d ((topic, parts) ∷ m) h =
    let (sorted, all_sorted) = resolve_topics-TopicsSorted d m (h.0.1, h.1.1) in
    (
      (resolve_topics-Precedes d topic m h.0.0, sorted),
      (resolve_partitions-IsSorted d topic parts h.1.0, all_sorted),
    )

insert_record-PlacesSorted :
    (t : Tracker) (topic : Topic) (p offset : ℕ)
    → PlacesSorted t
    → PlacesSorted (insert_record t topic p offset).1
unfolding insert_record
insert_record-PlacesSorted t topic p offset s = write-PlacesSorted t topic p _ s

done_record-PlacesSorted :
    (t : Tracker) (topic : Topic) (p offset ticket sends : ℕ)
    → PlacesSorted t
    → PlacesSorted (done_record t topic p offset ticket sends).1
unfolding settle
done_record-PlacesSorted t topic p offset ticket sends s =
    done_record-cases (λ r. PlacesSorted r.1) t topic p offset ticket sends s
      (λ state q _ _ _. write-PlacesSorted t topic p _ s)

resolve_all-PlacesSorted : (t : Tracker) → PlacesSorted t → PlacesSorted (resolve_all t).1
unfolding resolve_all
resolve_all-PlacesSorted t s = resolve_topics-TopicsSorted t.delivered t.topics s

pub advance-PlacesSorted : (t : Tracker) → PlacesSorted t → PlacesSorted (advance t)
unfolding advance
advance-PlacesSorted t s = s

note_delivered-PlacesSorted :
    (t : Tracker) (id : ℕ) → PlacesSorted t → PlacesSorted (note_delivered t id).1
note_delivered-PlacesSorted t id s =
    note_delivered-cases (λ r. PlacesSorted r.1) t id (λ _. s) (λ _. s)
      (λ _. resolve_all-PlacesSorted (advance t) (advance-PlacesSorted t s))

-- Every call keeps the topics, and each topic's partitions, in strictly ascending order.
pub step-PlacesSorted : (t : Tracker) (e : Event) → PlacesSorted t → PlacesSorted (step t e)
unfolding step revoke assign
step-PlacesSorted t (inserts topic p offset) s = insert_record-PlacesSorted t topic p offset s
step-PlacesSorted t (finishes topic p offset ticket sends) s =
    done_record-PlacesSorted t topic p offset ticket sends s
step-PlacesSorted t (reports id) s = note_delivered-PlacesSorted t id s
step-PlacesSorted t (revokes topic p) s = write-PlacesSorted t topic p _ s
step-PlacesSorted t (assigns topic p) s = write-PlacesSorted t topic p _ s

pub default-PlacesSorted : PlacesSorted default_tracker
default-PlacesSorted = (tt, tt)
