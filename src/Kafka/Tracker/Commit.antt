-- ===== src/Kafka/Tracker/Commit.antt =====
-- The offsets a call hands to `store_offset`, and what is left pending below them: nothing.
use omnia_backends.Base.{
  ℕ, ◌<◌, ◌≡◌, refl, sym, ◌∙◌, ap, subst, Option, none, some, List, [], ◌∷◌, Any, Any-append, arith,
  inl, inr, ◌⊎◌, Bool-cases, map-eq-some,
}
use omnia_backends.Base.Map.{Map, get}
use omnia_backends.Base.Ascending.{Above, Ascending, lt_of_get, insert-Ascending}
use omnia_backends.Base.Sorted.{IsSorted, get_of_entry}
use omnia_backends.Base.Order.{nat_ord, bytes_ord, same_refl}
use omnia_backends.Kafka.Tracker.{
  Tracker, Partition, Pending, Topic, Stored, Event, finishes, reports, partition, resolve,
  resolve_loop, resolve_partitions, resolve_topics, resolve_all, push_stored, write_partition,
  advance, settle, mark, done_record, note_delivered, step, resolved,
}
use omnia_backends.Kafka.Tracker.Prefix.{Entries, resolve_loop_passes}
use omnia_backends.Kafka.Tracker.Access.{
  partition-resolve_all, done_record-cases, note_delivered-cases,
}
use omnia_backends.Kafka.Tracker.Invariant.{IsValid, partition-advance}
use omnia_backends.Kafka.Tracker.Sorted.{PlacesSorted, TopicsSorted, advance-PlacesSorted}
use omnia_backends.Kafka.Tracker.Slots.{slot, slot-write_partition}

-- `Option::as_slice`, which `Shared::done` hands to `store_offsets`.
abbrev pub as_slice : Option Stored → List Stored
as_slice none = []
as_slice (some stored) = stored ∷ []

as_slice-some : (o : Option Stored) (x : Stored) → Any (λ s. s ≡ x) (as_slice o) → o ≡ some x
as_slice-some none x h = absurd h
as_slice-some (some stored) x (inl h) = ap (λ y. some y) h
as_slice-some (some stored) x (inr h) = absurd h

-- What a call returns, a list of at most one offset for `done`.
unfoldable pub output : Tracker → Event → List Stored
output t (finishes topic p offset ticket sends) =
    as_slice (done_record t topic p offset ticket sends).0
output t (reports id) = (note_delivered t id).0
output t _ = []

-- The call stores the offset for the partition.
abbrev pub Stores : Tracker → Event → Topic → ℕ → ℕ → Type 0
Stores t e topic p offset = Any (λ s. s ≡ (topic, p, offset)) (output t e)

resolve_loop_passes_none :
    (d k : ℕ) (m : Entries)
    → Ascending m
    → (resolve_loop d none m).0 ≡ some k
    → Above k (resolve_loop d none m).1
unfolding resolve_loop
resolve_loop_passes_none d k [] a h = tt
resolve_loop_passes_none d k ((j, q) ∷ m) a h = elim (Bool-cases (resolved q d)) [
  | inl yes' ↦ rw yes' (resolve_loop_passes d j m k a.1 a.0 (ground arith))
  | inr no' ↦ ground arith
]

pub resolve_passes :
    (d : ℕ) (s : Partition) (k : ℕ)
    → Ascending s.pending
    → (resolve d s).0 ≡ some k
    → Above k (resolve d s).1.pending
unfolding resolve
resolve_passes d s k a h = resolve_loop_passes_none d k s.pending a h

push_stored-cases :
    (P : Stored → Type 0) (topic : Topic) (p : ℕ) (last : Option ℕ) (rest : List Stored)
    → Any P (push_stored topic p last rest)
    → ((k : ℕ) × (last ≡ some k) × P (topic, p, k)) ⊎ Any P rest
push_stored-cases P topic p none rest h = inr h
push_stored-cases P topic p (some k) rest (inl h) = inl (k, refl, h)
push_stored-cases P topic p (some k) rest (inr h) = inr h

-- A partition of the map that reported the offset.
abbrev Reports : ℕ → ℕ → ℕ → Map ℕ Partition → Type 0
Reports d p k m = (s : Partition) × Any (λ e. e ≡ (p, s)) m × ((resolve d s).0 ≡ some k)

stored_in_partitions :
    (d : ℕ) (topic name : Topic) (p k : ℕ) (m : Map ℕ Partition)
    → Any (λ s. s ≡ (topic, p, k)) (resolve_partitions d name m).0
    → (name ≡ topic) × Reports d p k m
unfolding resolve_partitions
stored_in_partitions d topic name p k [] h = absurd h
stored_in_partitions d topic name p k ((q, s) ∷ m) h =
    elim (push_stored-cases (λ x. x ≡ (topic, p, k)) name q (resolve d s).0 _ h) [
      | inl (k', e, place) ↦
          (ap (λ x. x.0) place, (s, inl (ap (λ x. (x.1, s)) place), e ∙ ap (λ x. some x.2) place))
      | inr later ↦
          let (name_eq, (s', entry, reported)) = stored_in_partitions d topic name p k m later in
          (name_eq, (s', inr entry, reported))
    ]

stored_in_topics :
    (d : ℕ) (topic : Topic) (p k : ℕ) (m : Map Topic (Map ℕ Partition))
    → TopicsSorted m
    → Any (λ s. s ≡ (topic, p, k)) (resolve_topics d m).0
    → (parts : Map ℕ Partition) × Any (λ e. e ≡ (topic, parts)) m
      × IsSorted parts
      × Reports d p k parts
unfolding resolve_topics
stored_in_topics d topic p k [] sorted h = absurd h
stored_in_topics d topic p k ((name, parts) ∷ m) sorted h =
    elim (Any-append (λ s. s ≡ (topic, p, k)) (resolve_partitions d name parts).0 _ h) [
      | inl here ↦
          let (name_eq, reported) = stored_in_partitions d topic name p k parts here in
          (parts, inl (ap (λ x. (x, parts)) name_eq), sorted.1.0, reported)
      | inr later ↦
          let (parts', entry, s, r) =
            stored_in_topics d topic p k m (sorted.0.1, sorted.1.1) later in
          (parts', inr entry, s, r)
    ]

-- A stored offset is what `resolve` reported of the partition that it names.
stored_of_partition :
    (t : Tracker) (topic : Topic) (p k : ℕ)
    → PlacesSorted t
    → Any (λ s. s ≡ (topic, p, k)) (resolve_all t).0
    → (s : Partition) × (partition t topic p ≡ some s) × ((resolve t.delivered s).0 ≡ some k)
unfolding resolve_all partition
stored_of_partition t topic p k sorted h =
    let (parts, topic_entry, parts_sorted, (s, entry, reported)) =
      stored_in_topics t.delivered topic p k t.topics sorted h in
    (
      s,
      rw (partition, get_of_entry topic parts t.topics sorted.0 topic_entry)
          (get_of_entry p s parts parts_sorted entry),
      reported,
    )

-- The next lemma for one partition: what stays after `resolve` is above what it reported.
pending_above :
    (d : ℕ) (s : Partition) (k j : ℕ) (q : Pending)
    → Ascending s.pending
    → (resolve d s).0 ≡ some k
    → get j (resolve d s).1.pending ≡ some q
    → k < j
pending_above d s k j q a h g = lt_of_get k j q (resolve d s).1.pending (resolve_passes d s k a h) g

slot_after :
    (t : Tracker) (topic : Topic) (p j : ℕ) (s : Partition)
    → partition (advance t) topic p ≡ some s
    → slot (resolve_all (advance t)).1 topic p j ≡ get j (resolve (advance t).delivered s).1.pending
unfolding slot
slot_after t topic p j s found = rw (partition-resolve_all (advance t) topic p, found)

note_passes :
    (t : Tracker) (id : ℕ) (topic : Topic) (p k j : ℕ) (q : Pending)
    → IsValid t
    → PlacesSorted t
    → Any (λ s. s ≡ (topic, p, k)) (note_delivered t id).0
    → slot (note_delivered t id).1 topic p j ≡ some q
    → k < j
note_passes t id topic p k j q v sorted =
    note_delivered-cases
      (λ r. Any (λ s. s ≡ (topic, p, k)) r.0 → slot r.1 topic p j ≡ some q → k < j) t id
      (λ _ h. absurd h) (λ _ h. absurd h)
      λ _ h g.
        let (s, found, reported) =
          stored_of_partition (advance t) topic p k (advance-PlacesSorted t sorted) h in
        let before = sym (partition-advance t topic p) ∙ found in
        pending_above (advance t).delivered s k j q (v.parts topic p s before).ascending reported
          (sym (slot_after t topic p j s found) ∙ g)

mark-Ascending :
    (s : Partition) (offset : ℕ) (r : Pending) (sends : ℕ)
    → Ascending s.pending
    → Ascending (mark s offset r sends).pending
unfolding mark
mark-Ascending s offset r sends a = insert-Ascending offset _ s.pending a

settle_passes :
    (t : Tracker) (topic topic' : Topic) (p p' k j : ℕ) (q : Pending) (s : Partition)
    → Ascending s.pending
    → (settle t topic' p' s).0 ≡ some (topic, p, k)
    → slot (settle t topic' p' s).1 topic p j ≡ some q
    → k < j
unfolding settle
settle_passes t topic topic' p p' k j q s a h g =
    let (k', reported, place) =
      map-eq-some (λ offset. (topic', p', offset)) (resolve t.delivered s).0 _ h in
    let g' : slot (write_partition t topic' p' (resolve t.delivered s).1) topic' p' j ≡ some q =
      subst
        (λ (x : Stored).
          slot (write_partition t topic' p' (resolve t.delivered s).1) x.0 x.1 j ≡ some q)
        (sym place) g in
    let here =
      slot-write_partition t topic' topic' p' p' j (resolve t.delivered s).1
      ∙ rw (same_refl topic', same_refl p') refl in
    pending_above t.delivered s k j q a (reported ∙ ap (λ x. some x.2) place) (sym here ∙ g')

-- A call that stores an offset leaves no record pending at or below it in that partition, so a
-- commit never passes a record that is still held.
pub output_passes :
    (t : Tracker) (e : Event) (topic : Topic) (p k j : ℕ) (q : Pending)
    → IsValid t
    → PlacesSorted t
    → Stores t e topic p k
    → slot (step t e) topic p j ≡ some q
    → k < j
unfolding output step
output_passes t (reports id) topic p k j q v sorted h g =
    note_passes t id topic p k j q v sorted h g
output_passes t (finishes topic' p' offset ticket sends) topic p k j q v sorted h g =
    done_record-cases
      (λ r. Any (λ s. s ≡ (topic, p, k)) (as_slice r.0) → slot r.1 topic p j ≡ some q → k < j) t
      topic' p' offset ticket sends (λ h _. absurd h)
      (λ s r found _ _ h g.
        settle_passes t topic topic' p p' k j q (mark s offset r sends)
          (mark-Ascending s offset r sends (v.parts topic' p' s found).ascending)
          (as_slice-some _ _ h) g)
      h g
output_passes t _ topic p k j q v sorted h g = absurd h
