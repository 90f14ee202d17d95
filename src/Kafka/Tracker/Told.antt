-- ===== src/Kafka/Tracker/Told.antt =====
-- What the tracker was told, against the history: the delivery reports.
use omnia_backends.Base.{
  ℕ, suc, zero, ◌≤◌, ◌<◌, ◌≡◌, refl, ◌∙◌, ap, true, ◌||◌, List, [], ◌∷◌, arith, ◌==◌,
}
use omnia_backends.Base.Map.{get}
use omnia_backends.Base.Order.{nat_ord, bytes_ord}
use omnia_backends.Kafka.Tracker.{
  Tracker, Topic, Event, inserts, finishes, reports, revokes, assigns, step, insert_record,
  done_record, settle, revoke, assign,
}
use omnia_backends.Kafka.Tracker.Access.{write_partition_fields, done_record-cases}
use omnia_backends.Kafka.Tracker.Watermark.{reported, reported-note_delivered}
use omnia_backends.Kafka.Tracker.Kept.{state-IsValid}
use omnia_backends.Kafka.Tracker.History.{state, was_told, all_told}

-- The call leaves the reports as they were.
abbrev Quiet : Tracker → Tracker → Type 0
Quiet t t' = (t'.delivered ≡ t.delivered) × (t'.out_of_order ≡ t.out_of_order)

Quiet-insert_record :
    (t : Tracker) (topic : Topic) (p offset : ℕ) → Quiet t (insert_record t topic p offset).1
unfolding insert_record
Quiet-insert_record t topic p offset = let f = write_partition_fields t topic p _ in (f.0, f.1)

Quiet-done_record :
    (t : Tracker) (topic : Topic) (p offset ticket sends : ℕ)
    → Quiet t (done_record t topic p offset ticket sends).1
unfolding settle
Quiet-done_record t topic p offset ticket sends =
    done_record-cases (λ r. Quiet t r.1) t topic p offset ticket sends (refl, refl)
      λ s q _ _ _. let f = write_partition_fields t topic p _ in (f.0, f.1)

Quiet-revoke : (t : Tracker) (topic : Topic) (p : ℕ) → Quiet t (revoke t topic p)
unfolding revoke
Quiet-revoke t topic p = let f = write_partition_fields t topic p _ in (f.0, f.1)

Quiet-assign : (t : Tracker) (topic : Topic) (p : ℕ) → Quiet t (assign t topic p)
unfolding assign
Quiet-assign t topic p = let f = write_partition_fields t topic p _ in (f.0, f.1)

Quiet-reported : (t t' : Tracker) (id : ℕ) → Quiet t t' → reported t' id ≡ reported t id
Quiet-reported t t' id (d, w) = rw (d, w) refl

-- The tracker has taken in exactly the reports that came.
pub reported-state : (h : List Event) (id : ℕ) → reported (state h) id ≡ was_told h id
unfolding state was_told step get
reported-state [] id = ground arith
reported-state (inserts topic p offset ∷ h) id =
    Quiet-reported (state h) (step (state h) (inserts topic p offset)) id
      (Quiet-insert_record (state h) topic p offset)
    ∙ reported-state h id
reported-state (finishes topic p offset ticket sends ∷ h) id =
    Quiet-reported (state h) (step (state h) (finishes topic p offset ticket sends)) id
      (Quiet-done_record (state h) topic p offset ticket sends)
    ∙ reported-state h id
reported-state (reports id' ∷ h) id =
    let v = state-IsValid h in
    reported-note_delivered (state h) id' id v.waiting_above v.waiting_ascending
    ∙ ap (λ b. id == id' || b) (reported-state h id)
reported-state (revokes topic p ∷ h) id =
    Quiet-reported (state h) (step (state h) (revokes topic p)) id (Quiet-revoke (state h) topic p)
    ∙ reported-state h id
reported-state (assigns topic p ∷ h) id =
    Quiet-reported (state h) (step (state h) (assigns topic p)) id (Quiet-assign (state h) topic p)
    ∙ reported-state h id

below-was_told : (h : List Event) (id : ℕ) → id < (state h).delivered → was_told h id ≡ true
below-was_told h id lt = ground (arith, reported-state h id)

all_told-below : (h : List Event) (d : ℕ) → d ≤ (state h).delivered → all_told h d ≡ true
unfolding all_told
all_told-below h zero le = refl
all_told-below h (suc d) le =
    ground (arith, below-was_told h d (omega arith), all_told-below h d (omega arith))

-- So every send below the watermark was reported.
pub all_told-delivered : (h : List Event) → all_told h (state h).delivered ≡ true
all_told-delivered h = all_told-below h (state h).delivered (omega arith)
