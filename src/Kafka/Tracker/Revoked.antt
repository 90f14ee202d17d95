-- ===== src/Kafka/Tracker/Revoked.antt =====
-- The revoked mark of a partition and the watermark, across each call.
use omnia_backends.Base.{
  ℕ, ◌+◌, ◌≡◌, refl, sym, ap, ◌∙◌, Bool, true, false, Option, none, some, arith, Bool-cases, inl,
  inr, if◌then◌else◌,
}
use omnia_backends.Base.Map.{insert}
use omnia_backends.Base.Order.{nat_ord}
use omnia_backends.Kafka.Tracker.{
  Tracker, Partition, Pending, Topic, partition, partition_or_default, write_partition, resolve,
  hold, mark, resolve_all, advance, insert_record, done_record, settle, note_delivered, revoke,
  assign,
}
use omnia_backends.Kafka.Tracker.Access.{
  same_place, partition-write_partition, partition-resolve_all, write_partition_fields,
  done_record-cases, note_delivered-cases,
}
use omnia_backends.Kafka.Tracker.Invariant.{partition-advance}
use omnia_backends.Kafka.Tracker.Slots.{is_revoked, place_eq}

abbrev revoked_in : Option Partition → Bool
revoked_in none = false
revoked_in (some s) = s.revoked

is_revoked-partition :
    (t : Tracker) (topic : Topic) (p : ℕ) → is_revoked t topic p ≡ revoked_in (partition t topic p)
unfolding is_revoked partition_or_default
is_revoked-partition t topic p = ground arith

is_revoked-write :
    (t : Tracker) (topic topic' : Topic) (p p' : ℕ) (s : Partition)
    → is_revoked (write_partition t topic' p' s) topic p
      ≡ (if same_place topic p topic' p' then s.revoked else is_revoked t topic p)
is_revoked-write t topic topic' p p' s = ground (
  arith,
  is_revoked-partition (write_partition t topic' p' s) topic p,
  is_revoked-partition t topic p,
  partition-write_partition t topic topic' p p' s,
)

-- A write that keeps the mark of the partition it writes keeps every mark.
is_revoked-write_same :
    (t : Tracker) (topic topic' : Topic) (p p' : ℕ) (s : Partition)
    → s.revoked ≡ is_revoked t topic' p'
    → is_revoked (write_partition t topic' p' s) topic p ≡ is_revoked t topic p
is_revoked-write_same t topic topic' p p' s e =
    is_revoked-write t topic topic' p p' s ∙ elim (Bool-cases (same_place topic p topic' p')) [
      | inr no' ↦ rw no' refl
      | inl yes' ↦ let (a, b) = place_eq topic topic' p p' yes' in rw (yes', a, b) e
    ]

is_revoked_retag :
    (t : Tracker) (topic : Topic) (p n : ℕ)
    → is_revoked (record t { tickets = n }) topic p ≡ is_revoked t topic p
unfolding is_revoked partition_or_default partition
is_revoked_retag t topic p n = refl

revoked-hold : (s : Partition) (offset n : ℕ) → (hold s offset n).revoked ≡ s.revoked
unfolding hold
revoked-hold s offset n = ground arith

pub is_revoked-insert_record :
    (t : Tracker) (topic topic' : Topic) (p p' offset : ℕ)
    → is_revoked (insert_record t topic' p' offset).1 topic p ≡ is_revoked t topic p
unfolding insert_record is_revoked
is_revoked-insert_record t topic topic' p p' offset =
    let s = partition_or_default t topic' p' in
    is_revoked_retag (write_partition t topic' p' (hold s offset t.tickets)) topic p (t.tickets + 1)
    ∙ is_revoked-write_same t topic topic' p p' (hold s offset t.tickets)
        (revoked-hold s offset t.tickets)

revoked-resolve : (d : ℕ) (s : Partition) → (resolve d s).1.revoked ≡ s.revoked
unfolding resolve
revoked-resolve d s = refl

revoked-mark :
    (s : Partition) (offset : ℕ) (q : Pending) (sends : ℕ)
    → (mark s offset q sends).revoked ≡ s.revoked
unfolding mark
revoked-mark s offset q sends = refl

pub is_revoked-done_record :
    (t : Tracker) (topic topic' : Topic) (p p' offset ticket sends : ℕ)
    → is_revoked (done_record t topic' p' offset ticket sends).1 topic p ≡ is_revoked t topic p
unfolding settle
is_revoked-done_record t topic topic' p p' offset ticket sends =
    done_record-cases (λ r. is_revoked r.1 topic p ≡ is_revoked t topic p) t topic' p' offset ticket
      sends refl
      λ s q e _ _. is_revoked-write_same t topic topic' p p' _ (
        revoked-resolve t.delivered (mark s offset q sends)
        ∙ revoked-mark s offset q sends
        ∙ sym (is_revoked-partition t topic' p' ∙ ap revoked_in e))

is_revoked-resolve_all :
    (t : Tracker) (topic : Topic) (p : ℕ)
    → is_revoked (resolve_all (advance t)).1 topic p ≡ is_revoked t topic p
unfolding resolve
is_revoked-resolve_all t topic p = ground (
  arith,
  is_revoked-partition (resolve_all (advance t)).1 topic p,
  is_revoked-partition t topic p,
  partition-resolve_all (advance t) topic p,
  partition-advance t topic p,
)

is_revoked_early :
    (t : Tracker) (topic : Topic) (p id : ℕ)
    → is_revoked (record t { out_of_order = insert id tt t.out_of_order }) topic p
      ≡ is_revoked t topic p
unfolding is_revoked partition_or_default partition
is_revoked_early t topic p id = refl

pub is_revoked-note_delivered :
    (t : Tracker) (topic : Topic) (p id : ℕ)
    → is_revoked (note_delivered t id).1 topic p ≡ is_revoked t topic p
is_revoked-note_delivered t topic p id =
    note_delivered-cases (λ r. is_revoked r.1 topic p ≡ is_revoked t topic p) t id (λ _. refl)
      (λ _. is_revoked_early t topic p id) (λ _. is_revoked-resolve_all t topic p)

pub is_revoked-revoke :
    (t : Tracker) (topic topic' : Topic) (p p' : ℕ)
    → is_revoked (revoke t topic' p') topic p
      ≡ (if same_place topic p topic' p' then true else is_revoked t topic p)
unfolding revoke
is_revoked-revoke t topic topic' p p' = is_revoked-write t topic topic' p p' _

pub is_revoked-assign :
    (t : Tracker) (topic topic' : Topic) (p p' : ℕ)
    → is_revoked (assign t topic' p') topic p
      ≡ (if same_place topic p topic' p' then false else is_revoked t topic p)
unfolding assign
is_revoked-assign t topic topic' p p' = is_revoked-write t topic topic' p p' _

-- Only a delivery report moves the watermark.
pub delivered-insert_record :
    (t : Tracker) (topic : Topic) (p offset : ℕ)
    → (insert_record t topic p offset).1.delivered ≡ t.delivered
unfolding insert_record
delivered-insert_record t topic p offset = (write_partition_fields t topic p _).0

pub delivered-done_record :
    (t : Tracker) (topic : Topic) (p offset ticket sends : ℕ)
    → (done_record t topic p offset ticket sends).1.delivered ≡ t.delivered
unfolding settle
delivered-done_record t topic p offset ticket sends =
    done_record-cases (λ r. r.1.delivered ≡ t.delivered) t topic p offset ticket sends refl
      λ s q _ _ _. (write_partition_fields t topic p _).0

pub delivered-revoke :
    (t : Tracker) (topic : Topic) (p : ℕ) → (revoke t topic p).delivered ≡ t.delivered
unfolding revoke
delivered-revoke t topic p = (write_partition_fields t topic p _).0

pub delivered-assign :
    (t : Tracker) (topic : Topic) (p : ℕ) → (assign t topic p).delivered ≡ t.delivered
unfolding assign
delivered-assign t topic p = (write_partition_fields t topic p _).0
