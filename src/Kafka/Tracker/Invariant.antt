-- ===== src/Kafka/Tracker/Invariant.antt =====
-- The tracker's well-formedness, kept by every call.
use mathlib.Core.Option
use omnia_backends.Base.{
  ℕ, ◌+◌, ◌≤◌, ◌<◌, ◌≡◌, refl, sym, ◌∙◌, subst, true, false, Option, none, some, [], ◌∷◌, All,
  All-map, arith, map-eq-some, Bool-cases, Option-cases, inl, inr,
}
use omnia_backends.Base.Map.{get, insert}
use omnia_backends.Base.Ascending.{Above, Ascending, insert-Ascending, insert-Above}
use omnia_backends.Base.Order.{nat_ord, bytes_ord}
use omnia_backends.Kafka.Tracker.{
  Tracker, Partition, Pending, Topic, Event, inserts, finishes, reports, revokes, assigns,
  partition, partition_or_default, write_partition, resolve, resolve_loop, resolved, resolve_all,
  advance, hold, mark, pulled, insert_record, done_record, settle, note_delivered, revoke, assign,
  step, default_tracker, default_partition, revoked_partition, partitions_of,
}
use omnia_backends.Kafka.Tracker.Prefix.{
  Entries, Settled, resolve_loop-Split, resolve_loop-Ascending,
}
use omnia_backends.Kafka.Tracker.Access.{
  partition-resolve_all, write_partition-cases, write_partition_fields, done_record-cases,
  note_delivered-cases,
}
use omnia_backends.Kafka.Tracker.Watermark.{advance-Advanced, resolve_all_watermark}

abbrev pub Issued : ℕ → Entries → Type 0
Issued n m = All (λ e. e.1.ticket < n) m

-- Over the watermark `d`, with `n` tickets issued.
pub record PartitionIsValid (d n : ℕ) (s : Partition) : Type 0 where
  pub ascending : Ascending s.pending
  pub issued : Issued n s.pending
  pub settled : Settled d s.pending
  pub empty_if_revoked : s.revoked ≡ true → s.pending ≡ []

pub record IsValid (t : Tracker) : Type 0 where
  pub waiting_above : Above t.delivered t.out_of_order
  pub waiting_ascending : Ascending t.out_of_order
  pub parts :
      (topic : Topic) (p : ℕ) (s : Partition)
      → partition t topic p ≡ some s
      → PartitionIsValid t.delivered t.tickets s

Issued-mono : (j k : ℕ) (m : Entries) → j ≤ k → Issued j m → Issued k m
Issued-mono j k m h i = All-map (λ e p. omega arith) m i

insert-Issued :
    (n k : ℕ) (q : Pending) (m : Entries) → q.ticket < n → Issued n m → Issued n (insert k q m)
unfolding insert
insert-Issued n k q [] h i = (h, tt)
insert-Issued n k q ((j, r) ∷ m) h i = ground (arith, insert-Issued n k q m h i.1)

get-Issued : (n k : ℕ) (q : Pending) (m : Entries) → Issued n m → get k m ≡ some q → q.ticket < n
unfolding get
get-Issued n k q [] i e = ground arith
get-Issued n k q ((j, r) ∷ m) i e = ground (arith, get-Issued n k q m i.1)

resolve_loop-Issued :
    (d : ℕ) (last : Option ℕ) (n : ℕ) (m : Entries)
    → Issued n m
    → Issued n (resolve_loop d last m).1
unfolding resolve_loop
resolve_loop-Issued d last n [] i = tt
resolve_loop-Issued d last n ((k, q) ∷ m) i = ground (arith, resolve_loop-Issued d (some k) n m i.1)

-- A record just pulled is not resolved, so it settles nothing.
insert-Settled : (d k n : ℕ) (m : Entries) → Settled d m → Settled d (insert k (pulled n) m)
unfolding insert resolved
insert-Settled d k n [] s = refl
insert-Settled d k n ((j, r) ∷ m) s = ground arith

default-PartitionIsValid : (d n : ℕ) → PartitionIsValid d n default_partition
default-PartitionIsValid d n = record {
  ascending = tt;
  issued = tt;
  settled = tt;
  empty_if_revoked = λ e. refl;
}

or_default-IsValid :
    {t : Tracker} (topic : Topic) (p : ℕ)
    → IsValid t
    → PartitionIsValid t.delivered t.tickets (partition_or_default t topic p)
unfolding partition_or_default
or_default-IsValid {t} topic p v = elim (Option-cases (partition t topic p)) [
  | inl e ↦ rw (e, partition_or_default) (default-PartitionIsValid t.delivered t.tickets)
  | inr (s, e) ↦ rw (e, partition_or_default) (v.parts topic p s e)
]

weaken : {d n k : ℕ} {s : Partition} → n ≤ k → PartitionIsValid d n s → PartitionIsValid d k s
weaken {d} {n} {k} {s} h x = record {
  ascending = x.ascending;
  issued = Issued-mono n k s.pending h x.issued;
  settled = x.settled;
  empty_if_revoked = x.empty_if_revoked;
}

retag-IsValid :
    (t : Tracker) (n : ℕ) → t.tickets ≤ n → IsValid t → IsValid (record t { tickets = n })
unfolding partition
retag-IsValid t n h v = record {
  waiting_above = v.waiting_above;
  waiting_ascending = v.waiting_ascending;
  parts = λ topic p s e. weaken h (v.parts topic p s e);
}

write-IsValid :
    (t : Tracker) (topic : Topic) (p : ℕ) (s : Partition)
    → IsValid t
    → PartitionIsValid t.delivered t.tickets s
    → IsValid (write_partition t topic p s)
write-IsValid t topic p s v w =
    let fields = write_partition_fields t topic p s in
    record {
      waiting_above = rw (fields.0, fields.1) v.waiting_above;
      waiting_ascending = rw (fields.1) v.waiting_ascending;
      parts = λ topic' p' s' e. elim (write_partition-cases t topic' topic p' p s s' e) [
        | inl (here, _) ↦ rw (fields.0, fields.2, ← here) w
        | inr before ↦ rw (fields.0, fields.2) (v.parts topic' p' s' before)
      ];
    }

resolve-IsValid :
    (d n : ℕ) (s : Partition)
    → Ascending s.pending
    → Issued n s.pending
    → (s.revoked ≡ true → s.pending ≡ [])
    → PartitionIsValid d n (resolve d s).1
unfolding resolve
resolve-IsValid d n s a i r = record {
  ascending = resolve_loop-Ascending d none s.pending a;
  issued = resolve_loop-Issued d none n s.pending i;
  settled = (resolve_loop-Split d none s.pending).rest_settled;
  empty_if_revoked = λ h. rw (r h, resolve_loop) refl;
}

hold-IsValid :
    (d n : ℕ) (s : Partition) (offset : ℕ)
    → PartitionIsValid d n s
    → PartitionIsValid d (n + 1) (hold s offset n)
unfolding hold
hold-IsValid d n s offset v = elim (Bool-cases s.revoked) [
  | inl gone ↦ simp gone (weaken (omega arith) v)
  | inr kept ↦ rw kept (record {
    ascending = insert-Ascending offset (pulled n) s.pending v.ascending;
    issued =
        insert-Issued (n + 1) offset (pulled n) s.pending (omega arith)
          (Issued-mono n (n + 1) s.pending (omega arith) v.issued);
    settled = insert-Settled d offset n s.pending v.settled;
    empty_if_revoked = λ h. ground (arith, kept);
  })
]

retag_write :
    (t : Tracker) (topic : Topic) (p : ℕ) (s : Partition) (n : ℕ)
    → write_partition (record t { tickets = n }) topic p s
      ≡ record (write_partition t topic p s) { tickets = n }
unfolding write_partition partitions_of
retag_write t topic p s n = refl

pub insert_record-IsValid :
    (t : Tracker) (topic : Topic) (p offset : ℕ)
    → IsValid t
    → IsValid (insert_record t topic p offset).1
unfolding insert_record
insert_record-IsValid t topic p offset v =
    let n = t.tickets + 1 in
    let s = hold (partition_or_default t topic p) offset t.tickets in
    subst IsValid (retag_write t topic p s n) (
      write-IsValid (record t { tickets = n }) topic p s (retag-IsValid t n (omega arith) v)
        (hold-IsValid t.delivered t.tickets (partition_or_default t topic p) offset
          (or_default-IsValid topic p v)))

-- An entry is written over, so the partition stays in order and, if it was empty, empty.
mark-kept :
    (d n : ℕ) (s : Partition) (offset : ℕ) (q : Pending) (sends : ℕ)
    → PartitionIsValid d n s
    → get offset s.pending ≡ some q
    → Ascending (mark s offset q sends).pending
      × Issued n (mark s offset q sends).pending
      × ((mark s offset q sends).revoked ≡ true → (mark s offset q sends).pending ≡ [])
unfolding mark get
mark-kept d n s offset q sends v e = (
  insert-Ascending offset _ s.pending v.ascending,
  insert-Issued n offset _ s.pending (get-Issued n offset q s.pending v.issued e) v.issued,
  λ r. ground (arith, v.empty_if_revoked r),
)

pub settle-IsValid :
    (t : Tracker) (topic : Topic) (p : ℕ) (s : Partition)
    → IsValid t
    → Ascending s.pending
    → Issued t.tickets s.pending
    → (s.revoked ≡ true → s.pending ≡ [])
    → IsValid (settle t topic p s).1
unfolding settle
settle-IsValid t topic p s v a i r =
    write-IsValid t topic p (resolve t.delivered s).1 v
      (resolve-IsValid t.delivered t.tickets s a i r)

pub partition-advance :
    (t : Tracker) (topic : Topic) (p : ℕ) → partition (advance t) topic p ≡ partition t topic p
unfolding partition advance
partition-advance t topic p = refl

pub tickets-advance : (t : Tracker) → (advance t).tickets ≡ t.tickets
unfolding advance
tickets-advance t = refl

settled_part :
    (t : Tracker) (topic : Topic) (p : ℕ) (s : Partition)
    → IsValid t
    → Option.map (λ s. (resolve (advance t).delivered s).1) (partition (advance t) topic p) ≡ some s
    → PartitionIsValid (advance t).delivered (advance t).tickets s
settled_part t topic p s v e =
    let (before, found, is_s) =
      map-eq-some (λ s. (resolve (advance t).delivered s).1) (partition (advance t) topic p) s e in
    let w = v.parts topic p before (sym (partition-advance t topic p) ∙ found) in
    subst (PartitionIsValid (advance t).delivered (advance t).tickets) is_s (
      rw (tickets-advance t) (
        resolve-IsValid (advance t).delivered t.tickets before w.ascending w.issued
          w.empty_if_revoked))

pub done_record-IsValid :
    (t : Tracker) (topic : Topic) (p offset ticket sends : ℕ)
    → IsValid t
    → IsValid (done_record t topic p offset ticket sends).1
done_record-IsValid t topic p offset ticket sends v =
    done_record-cases (λ r. IsValid r.1) t topic p offset ticket sends v
      λ s q e e' _.
        let kept = mark-kept t.delivered t.tickets s offset q sends (v.parts topic p s e) e' in
        settle-IsValid t topic p (mark s offset q sends) v kept.0 kept.1 kept.2

note_early-IsValid :
    (t : Tracker) (id : ℕ)
    → t.delivered < id
    → IsValid t
    → IsValid (record t { out_of_order = insert id tt t.out_of_order })
unfolding partition
note_early-IsValid t id h v = record {
  waiting_above = insert-Above t.delivered id tt t.out_of_order h v.waiting_above;
  waiting_ascending = insert-Ascending id tt t.out_of_order v.waiting_ascending;
  parts = v.parts;
}

note_next-IsValid : (t : Tracker) → IsValid t → IsValid (resolve_all (advance t)).1
note_next-IsValid t v =
    let a = advance-Advanced t v.waiting_above v.waiting_ascending in
    let same' = resolve_all_watermark (advance t) in
    record {
      waiting_above = rw (same'.0, same'.1) a.above;
      waiting_ascending = rw (same'.1) a.ascending;
      parts = λ topic p s e.
          rw (same'.0, same'.2)
            (settled_part t topic p s v (sym (partition-resolve_all (advance t) topic p) ∙ e));
    }

pub note_delivered-IsValid : (t : Tracker) (id : ℕ) → IsValid t → IsValid (note_delivered t id).1
note_delivered-IsValid t id v =
    note_delivered-cases (λ r. IsValid r.1) t id (λ _. v) (λ h. note_early-IsValid t id h v)
      (λ _. note_next-IsValid t v)

pub revoke-IsValid : (t : Tracker) (topic : Topic) (p : ℕ) → IsValid t → IsValid (revoke t topic p)
unfolding revoke
revoke-IsValid t topic p v =
    write-IsValid t topic p revoked_partition v
      (record { ascending = tt; issued = tt; settled = tt; empty_if_revoked = λ e. refl })

pub assign-IsValid : (t : Tracker) (topic : Topic) (p : ℕ) → IsValid t → IsValid (assign t topic p)
unfolding assign
assign-IsValid t topic p v =
    let s = or_default-IsValid topic p v in
    write-IsValid t topic p (record (partition_or_default t topic p) { revoked = false }) v
      (record {
        ascending = s.ascending;
        issued = s.issued;
        settled = s.settled;
        empty_if_revoked = λ e. cc;
      })

pub default-IsValid : IsValid default_tracker
unfolding partition get
default-IsValid = record { waiting_above = tt; waiting_ascending = tt; parts = λ topic p s e. cc }

-- Every call keeps the tracker well formed: early reports lie in ascending order above the watermark,
-- and in each partition the pending offsets ascend, their tickets were issued, the first of them is
-- not resolved, and none is pending once the partition is revoked.
pub step-IsValid : (t : Tracker) (e : Event) → IsValid t → IsValid (step t e)
unfolding step
step-IsValid t (inserts topic p offset) v = insert_record-IsValid t topic p offset v
step-IsValid t (finishes topic p offset ticket sends) v =
    done_record-IsValid t topic p offset ticket sends v
step-IsValid t (reports id) v = note_delivered-IsValid t id v
step-IsValid t (revokes topic p) v = revoke-IsValid t topic p v
step-IsValid t (assigns topic p) v = assign-IsValid t topic p v
