-- ===== src/Kafka/Tracker/AtLeastOnce.antt =====
-- At-least-once, and which pulls are held: the theorems about histories.
use omnia_backends.Base.{
  ℕ, ◌≤◌, ◌≡◌, ◌∙◌, subst, true, false, some, List, [], ◌∷◌, arith, Bool-cases, Option-cases, inl,
  inr,
}
use omnia_backends.Base.Order.{nat_ord, bytes_ord}
use omnia_backends.Kafka.Tracker.{
  Tracker, Pending, Topic, Event, inserts, finishes, reports, revokes, assigns, resolved, holds,
  done_record, step,
}
use omnia_backends.Kafka.Tracker.Invariant.{IsValid}
use omnia_backends.Kafka.Tracker.Kept.{state-IsValid, state-PlacesSorted}
use omnia_backends.Kafka.Tracker.Told.{all_told-delivered}
use omnia_backends.Kafka.Tracker.Slots.{slot, at, slot_place, holds-slot}
use omnia_backends.Kafka.Tracker.Shrinks.{Done, finished_entry, done_record-Done}
use omnia_backends.Kafka.Tracker.Revoked.{is_revoked-done_record, delivered-done_record}
use omnia_backends.Kafka.Tracker.Commit.{Stores, output_passes}
use omnia_backends.Kafka.Tracker.History.{state, assigned, all_told, pulled, finished, Held, Tracks}
use omnia_backends.Kafka.Tracker.Tracks.{
  nothing-Tracks, inserts-Tracks, revokes-Tracks, assigns-Tracks, reports-Tracks, left_finished,
}

finishes_unmoved :
    (h : List Event) (topic : Topic) (p offset ticket sends : ℕ)
    → (done_record (state h) topic p offset ticket sends).1 ≡ state h
    → Tracks h
    → Tracks (finishes topic p offset ticket sends ∷ h)
unfolding state assigned pulled finished step
finishes_unmoved h topic' p' offset' ticket' sends e tr = record {
  revoked_lem = λ topic p. rw e (tr.revoked_lem topic p);
  held_pulled = λ topic p offset q s. ground (arith, e, tr.held_pulled topic p offset q);
  marks = λ topic p offset q s d. ground (arith, e, tr.marks topic p offset q);
  accounted = λ topic p offset ticket g. ground (arith, e, tr.accounted topic p offset ticket);
}

slot-at :
    (t : Tracker) (topic topic' : Topic) (p p' offset offset' : ℕ)
    → at topic p offset topic' p' offset' ≡ true
    → slot t topic p offset ≡ slot t topic' p' offset'
slot-at t topic topic' p p' offset offset' h = ground (arith, slot_place t topic topic' p p' offset)

finishes_moved :
    (h : List Event) (topic : Topic) (p offset ticket sends : ℕ)
    → Done
        (state h)
        topic
        p
        offset
        ticket
        sends
        (done_record (state h) topic p offset ticket sends).1
    → Tracks h
    → Tracks (finishes topic p offset ticket sends ∷ h)
unfolding state assigned pulled finished step Done resolved
finishes_moved h topic' p' offset' ticket' sends (r, at_place, own, s) tr = record {
  revoked_lem = λ topic p.
      is_revoked-done_record (state h) topic topic' p p' offset' ticket' sends
      ∙ tr.revoked_lem topic p;
  held_pulled = λ topic p offset q e. ground (
    arith,
    at_place,
    s.was topic p offset q e,
    slot-at (state h) topic topic' p p' offset offset',
    tr.held_pulled topic p offset q,
    tr.held_pulled topic p offset r,
  );
  marks = λ topic p offset q e d. ground (
    arith,
    own,
    at_place,
    s.was topic p offset q e,
    slot-at (state h) topic topic' p p' offset offset',
    tr.held_pulled topic p offset r,
    tr.marks topic p offset q,
  );
  accounted = λ topic p offset ticket g. elim (tr.accounted topic p offset ticket g) [
    | inr f ↦ ground (arith, delivered-done_record (state h) topic' p' offset' ticket' sends, f)
    | inl (q, e, mine) ↦ elim (Bool-cases (at topic p offset topic' p' offset')) [
      | inr other ↦ ground (
        arith,
        other,
        e,
        mine,
        s.left topic p offset q,
        delivered-done_record (state h) topic' p' offset' ticket' sends,
        left_finished h topic p offset q (state h).delivered tr e,
      )
      | inl here ↦ ground (
        arith,
        here,
        e,
        mine,
        own,
        at_place,
        slot-at (state h) topic topic' p p' offset offset' here,
        g,
        s.left topic p offset (finished_entry r sends),
        delivered-done_record (state h) topic' p' offset' ticket' sends,
      )
    ]
  ];
}

finishes-Tracks :
    (h : List Event) (topic : Topic) (p offset ticket sends : ℕ)
    → IsValid (state h)
    → Tracks h
    → Tracks (finishes topic p offset ticket sends ∷ h)
finishes-Tracks h topic p offset ticket sends v tr =
    elim (done_record-Done (state h) topic p offset ticket sends v) [
      | inl e ↦ finishes_unmoved h topic p offset ticket sends e tr
      | inr d ↦ finishes_moved h topic p offset ticket sends d tr
    ]

state-Tracks : (h : List Event) → Tracks h
state-Tracks [] = nothing-Tracks
state-Tracks (inserts topic p offset ∷ h) = inserts-Tracks h topic p offset (state-Tracks h)
state-Tracks (finishes topic p offset ticket sends ∷ h) =
    finishes-Tracks h topic p offset ticket sends (state-IsValid h) (state-Tracks h)
state-Tracks (reports id ∷ h) = reports-Tracks h id (state-IsValid h) (state-Tracks h)
state-Tracks (revokes topic p ∷ h) = revokes-Tracks h topic p (state-Tracks h)
state-Tracks (assigns topic p ∷ h) = assigns-Tracks h topic p (state-Tracks h)

holds-slot_some :
    (t : Tracker) (topic : Topic) (p offset ticket : ℕ)
    → holds t topic p offset ticket ≡ true
    → Held t topic p offset ticket
holds-slot_some t topic p offset ticket h = elim (Option-cases (slot t topic p offset)) [
  | inl e ↦ ground (arith, e, holds-slot t topic p offset ticket)
  | inr (q, e) ↦ (q, e, ground (arith, e, holds-slot t topic p offset ticket))
]

-- The record that a delivery task asks for is held only under the ticket of the offset's latest pull
-- in the partition's present assignment, and a pull's ticket is the number of pulls before it.
pub holds-pulled :
    (h : List Event) (topic : Topic) (p offset ticket : ℕ)
    → holds (state h) topic p offset ticket ≡ true
    → pulled h topic p offset ticket ≡ true
holds-pulled h topic p offset ticket e =
    let (q, found, own) = holds-slot_some (state h) topic p offset ticket e in
    subst (λ k. pulled h topic p offset k ≡ true) own
      ((state-Tracks h).held_pulled topic p offset q found)

-- A pull of the present assignment is held until it is finished: no other call loses it.
pub holds_until_finished :
    (h : List Event) (topic : Topic) (p offset ticket : ℕ)
    → pulled h topic p offset ticket ≡ true
    → finished h topic p offset ticket (state h).delivered ≡ false
    → holds (state h) topic p offset ticket ≡ true
holds_until_finished h topic p offset ticket g f =
    elim ((state-Tracks h).accounted topic p offset ticket g) [
      | inl (q, found, own) ↦ ground (arith, found, own, holds-slot (state h) topic p offset ticket)
      | inr done' ↦ ground arith
    ]

held_step :
    (h : List Event) (e : Event) (topic : Topic) (p offset : ℕ) (q : Pending)
    → slot (state (e ∷ h)) topic p offset ≡ some q
    → slot (step (state h) e) topic p offset ≡ some q
unfolding state
held_step h e topic p offset q held = held

-- After any history of calls, a call that stores offset `k` of a partition has been told that every
-- record of the partition's present assignment at or below `k` is finished: for the offset's latest
-- ticket `done` came, and every send numbered below its `sends_before` has a delivery report among
-- the calls. So a commit never covers a record that could still be lost.
pub commit_at_least_once :
    (h : List Event) (e : Event) (topic : Topic) (p k offset ticket : ℕ)
    → Stores (state h) e topic p k
    → offset ≤ k
    → pulled (e ∷ h) topic p offset ticket ≡ true
    → (d : ℕ) × (finished (e ∷ h) topic p offset ticket d ≡ true) × (all_told (e ∷ h) d ≡ true)
commit_at_least_once h e topic p k offset ticket stores le g =
    elim ((state-Tracks (e ∷ h)).accounted topic p offset ticket g) [
      | inr f ↦ ((state (e ∷ h)).delivered, f, all_told-delivered (e ∷ h))
      | inl (q, held, _) ↦ absurd (
          omega (
            arith,
            output_passes (state h) e topic p k offset q (state-IsValid h) (state-PlacesSorted h)
                stores (held_step h e topic p offset q held),
          ))
    ]
