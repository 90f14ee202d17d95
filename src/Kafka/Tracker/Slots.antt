-- ===== src/Kafka/Tracker/Slots.antt =====
-- The pending record at one place, and what each call does to it.
use omnia_backends.Base.{
  ℕ, ◌+◌, ◌≡◌, refl, sym, ◌∙◌, Bool, true, ◌&&◌, not, Option, none, some, arith, ◌==◌, Bool-cases,
  inl, inr, if◌then◌else◌, is_some_and,
}
use omnia_backends.Base.Map.{get, get-insert}
use omnia_backends.Base.Order.{nat_ord, bytes_ord, eq_of_same}
use omnia_backends.Kafka.Tracker.{
  Tracker, Partition, Pending, Topic, Ticket, partition, partition_or_default, write_partition,
  hold, pulled, holds, insert_record, revoke, assign,
}
use omnia_backends.Kafka.Tracker.Access.{partition-write_partition, same_place}

abbrev pub slot_in : Option Partition → ℕ → Option Pending
slot_in none offset = none
slot_in (some s) offset = get offset s.pending

unfoldable pub slot : Tracker → Topic → ℕ → ℕ → Option Pending
slot t topic p offset = slot_in (partition t topic p) offset

pub holds-slot :
    (t : Tracker) (topic : Topic) (p offset : ℕ) (ticket : Ticket)
    → holds t topic p offset ticket ≡ is_some_and (λ q. q.ticket == ticket) (slot t topic p offset)
unfolding holds slot partition
holds-slot t topic p offset ticket = ground arith

pub slot-write_partition :
    (t : Tracker) (topic topic' : Topic) (p p' offset : ℕ) (s : Partition)
    → slot (write_partition t topic' p' s) topic p offset
      ≡ (if same_place topic p topic' p' then get offset s.pending else slot t topic p offset)
unfolding slot
slot-write_partition t topic topic' p p' offset s =
    rw (partition-write_partition t topic topic' p p' s) (ground arith)

unfoldable pub is_revoked : Tracker → Topic → ℕ → Bool
is_revoked t topic p = (partition_or_default t topic p).revoked

-- The place named is the place `(topic, p)` and the offset.
abbrev pub at : Topic → ℕ → ℕ → Topic → ℕ → ℕ → Bool
at topic p offset topic' p' offset' = same_place topic p topic' p' && offset == offset'

pub place_eq :
    (topic topic' : Topic) (p p' : ℕ)
    → same_place topic p topic' p' ≡ true
    → (topic ≡ topic') × (p ≡ p')
place_eq topic topic' p p' h =
    (eq_of_same topic topic' (ground arith), eq_of_same p p' (ground arith))

pub slot_place :
    (t : Tracker) (topic topic' : Topic) (p p' offset : ℕ)
    → same_place topic p topic' p' ≡ true
    → slot t topic p offset ≡ slot t topic' p' offset
slot_place t topic topic' p p' offset h = let e = place_eq topic topic' p p' h in cc (e.0, e.1)

slot_retag :
    (t : Tracker) (topic : Topic) (p offset n : ℕ)
    → slot (record t { tickets = n }) topic p offset ≡ slot t topic p offset
unfolding slot partition
slot_retag t topic p offset n = refl

get-partition_or_default :
    (t : Tracker) (topic : Topic) (p offset : ℕ)
    → get offset (partition_or_default t topic p).pending ≡ slot t topic p offset
unfolding partition_or_default slot get
get-partition_or_default t topic p offset = ground arith

get-hold :
    (s : Partition) (offset offset' n : ℕ)
    → get offset (hold s offset' n).pending
      ≡ (if offset == offset' && not s.revoked then some (pulled n) else get offset s.pending)
unfolding hold
get-hold s offset offset' n = ground (arith, get-insert offset offset' (pulled n) s.pending)

pub slot-insert_record :
    (t : Tracker) (topic topic' : Topic) (p p' offset offset' : ℕ)
    → slot (insert_record t topic' p' offset').1 topic p offset ≡ (
        if at topic p offset topic' p' offset' && not (is_revoked t topic' p')
        then some (pulled t.tickets)
        else slot t topic p offset)
unfolding insert_record is_revoked
slot-insert_record t topic topic' p p' offset offset' =
    let s = partition_or_default t topic' p' in
    let n = t.tickets in
    slot_retag (write_partition t topic' p' (hold s offset' n)) topic p offset (n + 1)
    ∙ slot-write_partition t topic topic' p p' offset (hold s offset' n)
    ∙ elim (Bool-cases (same_place topic p topic' p')) [
      | inr no' ↦ rw no' refl
      | inl yes' ↦ ground (
        arith,
        yes',
        get-hold s offset offset' n,
        get-partition_or_default t topic' p' offset,
        slot_place t topic topic' p p' offset yes',
      )
    ]

pub slot-revoke :
    (t : Tracker) (topic topic' : Topic) (p p' offset : ℕ)
    → slot (revoke t topic' p') topic p offset
      ≡ (if same_place topic p topic' p' then none else slot t topic p offset)
unfolding revoke get
slot-revoke t topic topic' p p' offset = slot-write_partition t topic topic' p p' offset _

pub slot-assign :
    (t : Tracker) (topic topic' : Topic) (p p' offset : ℕ)
    → slot (assign t topic' p') topic p offset ≡ slot t topic p offset
unfolding assign
slot-assign t topic topic' p p' offset =
    slot-write_partition t topic topic' p p' offset _
    ∙ elim (Bool-cases (same_place topic p topic' p')) [
      | inr no' ↦ rw no' refl
      | inl yes' ↦ rw yes' (
          get-partition_or_default t topic' p' offset
          ∙ sym (slot_place t topic topic' p p' offset yes'))
    ]

pub slot_of :
    (t : Tracker) (topic : Topic) (p offset : ℕ) (s : Partition)
    → partition t topic p ≡ some s
    → slot t topic p offset ≡ get offset s.pending
unfolding slot
slot_of t topic p offset s e = rw e refl
