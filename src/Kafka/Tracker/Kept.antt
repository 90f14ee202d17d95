-- ===== src/Kafka/Tracker/Kept.antt =====
-- What holds of the tracker after any history: the invariants, and the number of tickets given.
use omnia_backends.Base.{ℕ, suc, ◌≡◌, refl, ◌∙◌, ap, List, [], ◌∷◌, arith}
use omnia_backends.Base.Order.{nat_ord, bytes_ord}
use omnia_backends.Kafka.Tracker.{
  Tracker, Topic, Event, inserts, finishes, reports, revokes, assigns, step, insert_record,
  done_record, note_delivered, settle, revoke, assign, advance,
}
use omnia_backends.Kafka.Tracker.Access.{
  write_partition_fields, done_record-cases, note_delivered-cases,
}
use omnia_backends.Kafka.Tracker.Watermark.{resolve_all_watermark}
use omnia_backends.Kafka.Tracker.Invariant.{IsValid, step-IsValid, default-IsValid}
use omnia_backends.Kafka.Tracker.Sorted.{PlacesSorted, step-PlacesSorted, default-PlacesSorted}
use omnia_backends.Kafka.Tracker.History.{state, pulls}

pub state-IsValid : (h : List Event) → IsValid (state h)
unfolding state
state-IsValid [] = default-IsValid
state-IsValid (e ∷ h) = step-IsValid (state h) e (state-IsValid h)

pub state-PlacesSorted : (h : List Event) → PlacesSorted (state h)
unfolding state
state-PlacesSorted [] = default-PlacesSorted
state-PlacesSorted (e ∷ h) = step-PlacesSorted (state h) e (state-PlacesSorted h)

tickets-insert_record :
    (t : Tracker) (topic : Topic) (p offset : ℕ)
    → (insert_record t topic p offset).1.tickets ≡ suc t.tickets
unfolding insert_record
tickets-insert_record t topic p offset = omega arith

tickets-done_record :
    (t : Tracker) (topic : Topic) (p offset ticket sends : ℕ)
    → (done_record t topic p offset ticket sends).1.tickets ≡ t.tickets
unfolding settle
tickets-done_record t topic p offset ticket sends =
    done_record-cases (λ r. r.1.tickets ≡ t.tickets) t topic p offset ticket sends refl
      λ s q _ _ _. (write_partition_fields t topic p _).2

tickets-advance : (t : Tracker) → (advance t).tickets ≡ t.tickets
unfolding advance
tickets-advance t = refl

tickets-note_delivered : (t : Tracker) (id : ℕ) → (note_delivered t id).1.tickets ≡ t.tickets
tickets-note_delivered t id =
    note_delivered-cases (λ r. r.1.tickets ≡ t.tickets) t id (λ _. refl) (λ _. refl)
      (λ _. (resolve_all_watermark (advance t)).2 ∙ tickets-advance t)

tickets-revoke : (t : Tracker) (topic : Topic) (p : ℕ) → (revoke t topic p).tickets ≡ t.tickets
unfolding revoke
tickets-revoke t topic p = (write_partition_fields t topic p _).2

tickets-assign : (t : Tracker) (topic : Topic) (p : ℕ) → (assign t topic p).tickets ≡ t.tickets
unfolding assign
tickets-assign t topic p = (write_partition_fields t topic p _).2

-- The next ticket is the number of pulls.
pub tickets-state : (h : List Event) → (state h).tickets ≡ pulls h
unfolding state pulls step
tickets-state [] = refl
tickets-state (inserts topic p offset ∷ h) =
    tickets-insert_record (state h) topic p offset ∙ ap suc (tickets-state h)
tickets-state (finishes topic p offset ticket sends ∷ h) =
    tickets-done_record (state h) topic p offset ticket sends ∙ tickets-state h
tickets-state (reports id ∷ h) = tickets-note_delivered (state h) id ∙ tickets-state h
tickets-state (revokes topic p ∷ h) = tickets-revoke (state h) topic p ∙ tickets-state h
tickets-state (assigns topic p ∷ h) = tickets-assign (state h) topic p ∙ tickets-state h
