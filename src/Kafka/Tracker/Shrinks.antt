-- ===== src/Kafka/Tracker/Shrinks.antt =====
-- What resolving does to the pending records: some leave, none changes.
use omnia_backends.Base.{
  ℕ, ◌≡◌, refl, sym, ◌∙◌, true, Option, none, some, [], ◌∷◌, arith, Option-cases, inl, inr, ◌⊎◌,
  if◌then◌else◌,
}
use mathlib.Core.Option
use omnia_backends.Base.Map.{get, insert, get-insert}
use omnia_backends.Base.Ascending.{Ascending, get-Above, insert-Ascending}
use omnia_backends.Base.Order.{nat_ord, bytes_ord}
use omnia_backends.Kafka.Tracker.{
  Tracker, Partition, Pending, Topic, Ticket, partition, resolve, resolve_loop, resolved,
  resolve_all, advance, mark, done_record, settle, note_delivered,
}
use omnia_backends.Kafka.Tracker.Prefix.{Entries}
use omnia_backends.Kafka.Tracker.Access.{
  partition-resolve_all, same_place, done_record-cases, note_delivered-cases,
}
use omnia_backends.Kafka.Tracker.Invariant.{IsValid, partition-advance}
use omnia_backends.Kafka.Tracker.Watermark.{resolve_all_watermark}
use omnia_backends.Kafka.Tracker.Slots.{
  slot, slot_in, slot_of, slot_place, slot-write_partition, at,
}

-- Records left only by being resolved over the watermark `d`, and none changed.
pub record Shrinks (d : ℕ) (before after : Topic → ℕ → ℕ → Option Pending) : Type 0 where
  pub was :
      (topic : Topic) (p offset : ℕ) (q : Pending)
      → after topic p offset ≡ some q
      → before topic p offset ≡ some q
  pub left :
      (topic : Topic) (p offset : ℕ) (q : Pending)
      → before topic p offset ≡ some q
      → (after topic p offset ≡ some q) ⊎ (resolved q d ≡ true)

Shrinks-refl : (d : ℕ) (f : Topic → ℕ → ℕ → Option Pending) → Shrinks d f f
Shrinks-refl d f = record { was = λ topic p offset q h. h; left = λ topic p offset q h. inl h }

Shrinks-before :
    {d : ℕ} {f g h : Topic → ℕ → ℕ → Option Pending}
    → ((topic : Topic) (p offset : ℕ) → f topic p offset ≡ g topic p offset)
    → Shrinks d f h
    → Shrinks d g h
Shrinks-before e s = record {
  was = λ topic p offset q x. sym (e topic p offset) ∙ s.was topic p offset q x;
  left = λ topic p offset q x. s.left topic p offset q (e topic p offset ∙ x);
}

pub get-resolve_loop :
    (d : ℕ) (last : Option ℕ) (offset : ℕ) (q : Pending) (m : Entries)
    → Ascending m
    → get offset (resolve_loop d last m).1 ≡ some q
    → get offset m ≡ some q
unfolding resolve_loop get
get-resolve_loop d last offset q [] a h = h
get-resolve_loop d last offset q ((k, r) ∷ m) a h =
    ground (arith, get-resolve_loop d (some k) offset q m a.1, get-Above k m a.0)

pub resolve_loop-left :
    (d : ℕ) (last : Option ℕ) (offset : ℕ) (q : Pending) (m : Entries)
    → get offset m ≡ some q
    → (get offset (resolve_loop d last m).1 ≡ some q) ⊎ (resolved q d ≡ true)
unfolding resolve_loop get
resolve_loop-left d last offset q [] h = inl h
resolve_loop-left d last offset q ((k, r) ∷ m) h =
    ground (arith, resolve_loop-left d (some k) offset q m)

abbrev pub over :
    (Topic → ℕ → ℕ → Option Pending) → Topic → ℕ → Partition → Topic → ℕ → ℕ → Option Pending
over before topic' p' s topic p offset =
    if same_place topic p topic' p' then get offset s.pending else before topic p offset

-- `resolve` on one partition, as its records see it.
pub settle-Shrinks :
    (t : Tracker) (topic : Topic) (p : ℕ) (s : Partition)
    → Ascending s.pending
    → Shrinks t.delivered (over (slot t) topic p s) (slot (settle t topic p s).1)
unfolding settle resolve
settle-Shrinks t topic' p' s a = record {
  was = λ topic p offset q h. ground (
    arith,
    slot-write_partition t topic topic' p p' offset (resolve t.delivered s).1,
    get-resolve_loop t.delivered none offset q s.pending a,
    h,
  );
  left = λ topic p offset q h. ground (
    arith,
    slot-write_partition t topic topic' p p' offset (resolve t.delivered s).1,
    resolve_loop-left t.delivered none offset q s.pending,
    h,
  );
}

-- The entry as `done` writes it.
abbrev pub finished_entry : Pending → ℕ → Pending
finished_entry q sends = record q { done = true; sends_before = sends }

abbrev pub marked :
    (Topic → ℕ → ℕ → Option Pending) → Topic → ℕ → ℕ → Pending → Topic → ℕ → ℕ → Option Pending
marked before topic' p' offset' r topic p offset =
    if at topic p offset topic' p' offset' then some r else before topic p offset

-- `done` marks the entry it was given, if the ticket is that entry's, and resolves the partition.
unfoldable pub Done : Tracker → Topic → ℕ → ℕ → Ticket → ℕ → Tracker → Type 0
Done t topic p offset ticket sends after =
    (q : Pending) × (slot t topic p offset ≡ some q)
    × (q.ticket ≡ ticket)
    × Shrinks t.delivered (marked (slot t) topic p offset (finished_entry q sends)) (slot after)

slot-mark :
    (t : Tracker) (topic topic' : Topic) (p p' offset offset' sends : ℕ) (s : Partition)
    (q : Pending)
    → partition t topic' p' ≡ some s
    → over (slot t) topic' p' (mark s offset' q sends) topic p offset
      ≡ marked (slot t) topic' p' offset' (finished_entry q sends) topic p offset
unfolding mark slot
slot-mark t topic topic' p p' offset offset' sends s q e = ground (
  arith,
  get-insert offset offset' (finished_entry q sends) s.pending,
  slot_place t topic topic' p p' offset,
)

pub done_record-Done :
    (t : Tracker) (topic : Topic) (p offset ticket sends : ℕ)
    → IsValid t
    → ((done_record t topic p offset ticket sends).1 ≡ t)
      ⊎ Done t topic p offset ticket sends (done_record t topic p offset ticket sends).1
unfolding Done mark
done_record-Done t topic p offset ticket sends v =
    done_record-cases (λ r. (r.1 ≡ t) ⊎ Done t topic p offset ticket sends r.1) t topic p offset
      ticket sends (inl refl)
      λ s q e e' own. inr (
        q,
        slot_of t topic p offset s e ∙ e',
        own,
        Shrinks-before
            (λ topic' p' offset'. slot-mark t topic' topic p' p offset' offset sends s q e)
            (settle-Shrinks t topic p (mark s offset q sends)
              (insert-Ascending offset _ s.pending (v.parts topic p s e).ascending)),
      )

early-Shrinks :
    (t : Tracker) (id : ℕ)
    → Shrinks t.delivered (slot t) (slot (record t { out_of_order = insert id tt t.out_of_order }))
unfolding slot partition
early-Shrinks t id = Shrinks-refl t.delivered (slot t)

slot-resolve_all :
    (t : Tracker) (topic : Topic) (p offset : ℕ)
    → slot (resolve_all (advance t)).1 topic p offset
      ≡ slot_in (Option.map (λ s. (resolve (advance t).delivered s).1) (partition t topic p)) offset
unfolding slot
slot-resolve_all t topic p offset =
    rw (partition-resolve_all (advance t) topic p, partition-advance t topic p)

next-was :
    (t : Tracker) (d : ℕ) (topic : Topic) (p offset : ℕ) (q : Pending)
    → IsValid t
    → slot_in (Option.map (λ s. (resolve d s).1) (partition t topic p)) offset ≡ some q
    → slot t topic p offset ≡ some q
unfolding resolve slot
next-was t d topic p offset q v h = elim (Option-cases (partition t topic p)) [
  | inl e ↦ ground (arith, e)
  | inr (s, e) ↦
      ground (arith, e, get-resolve_loop d none offset q s.pending (v.parts topic p s e).ascending)
]

next-left :
    (t : Tracker) (d : ℕ) (topic : Topic) (p offset : ℕ) (q : Pending)
    → slot t topic p offset ≡ some q
    → (slot_in (Option.map (λ s. (resolve d s).1) (partition t topic p)) offset ≡ some q)
      ⊎ (resolved q d ≡ true)
unfolding resolve slot
next-left t d topic p offset q h = elim (Option-cases (partition t topic p)) [
  | inl e ↦ ground (arith, e)
  | inr (s, e) ↦ ground (arith, e, resolve_loop-left d none offset q s.pending)
]

next-Shrinks :
    (t : Tracker)
    → IsValid t
    → Shrinks (resolve_all (advance t)).1.delivered (slot t) (slot (resolve_all (advance t)).1)
next-Shrinks t v = rw (resolve_all_watermark (advance t)).0 (record {
  was = λ topic p offset q h.
      next-was t (advance t).delivered topic p offset q v
        (sym (slot-resolve_all t topic p offset) ∙ h);
  left = λ topic p offset q h.
      rw (slot-resolve_all t topic p offset) (next-left t (advance t).delivered topic p offset q h);
})

pub note_delivered-Shrinks :
    (t : Tracker) (id : ℕ)
    → IsValid t
    → Shrinks (note_delivered t id).1.delivered (slot t) (slot (note_delivered t id).1)
note_delivered-Shrinks t id v =
    note_delivered-cases (λ r. Shrinks r.1.delivered (slot t) (slot r.1)) t id
      (λ _. Shrinks-refl t.delivered (slot t)) (λ _. early-Shrinks t id) (λ _. next-Shrinks t v)
