-- ===== src/Kafka/Tracker/Tracks.antt =====
-- Each call keeps the tracker's state in step with the history: the empty history, pulls, rebalances
-- and delivery reports.
use omnia_backends.Base.{ℕ, ◌≡◌, refl, ◌∙◌, true, false, none, some, List, [], ◌∷◌, arith, inl, inr}
use omnia_backends.Base.Map.{get}
use omnia_backends.Base.Order.{nat_ord, bytes_ord}
use omnia_backends.Kafka.Tracker.{
  Pending, Topic, Event, inserts, reports, revokes, assigns, partition, partition_or_default,
  resolved, step, default_tracker,
}
use omnia_backends.Kafka.Tracker.Invariant.{IsValid}
use omnia_backends.Kafka.Tracker.Slots.{
  slot, is_revoked, slot-insert_record, slot-revoke, slot-assign,
}
use omnia_backends.Kafka.Tracker.Shrinks.{note_delivered-Shrinks}
use omnia_backends.Kafka.Tracker.Revoked.{
  is_revoked-insert_record, is_revoked-note_delivered, is_revoked-revoke, is_revoked-assign,
  delivered-insert_record, delivered-revoke, delivered-assign,
}
use omnia_backends.Kafka.Tracker.Watermark.{delivered-note_delivered}
use omnia_backends.Kafka.Tracker.Kept.{tickets-state}
use omnia_backends.Kafka.Tracker.History.{state, assigned, pulled, finished, finished_mono, Tracks}

pending_nowhere : (topic : Topic) (p : ℕ) → is_revoked default_tracker topic p ≡ false
unfolding is_revoked partition_or_default partition get
pending_nowhere topic p = refl

slot_nowhere : (topic : Topic) (p offset : ℕ) → slot default_tracker topic p offset ≡ none
unfolding slot partition get
slot_nowhere topic p offset = refl

pub nothing-Tracks : Tracks []
unfolding state assigned pulled
nothing-Tracks = record {
  revoked_lem = pending_nowhere;
  held_pulled = λ topic p offset q s. ground (arith, slot_nowhere topic p offset);
  marks = λ topic p offset q s d. ground (arith, slot_nowhere topic p offset);
  accounted = λ topic p offset ticket g. cc;
}

pub inserts-Tracks :
    (h : List Event) (topic : Topic) (p offset : ℕ) → Tracks h → Tracks (inserts topic p offset ∷ h)
unfolding state assigned pulled finished step
inserts-Tracks h topic' p' offset' tr = record {
  revoked_lem = λ topic p.
      is_revoked-insert_record (state h) topic topic' p p' offset' ∙ tr.revoked_lem topic p;
  held_pulled = λ topic p offset q s. ground (
    arith,
    slot-insert_record (state h) topic topic' p p' offset offset',
    tickets-state h,
    tr.revoked_lem topic' p',
    tr.held_pulled topic p offset q,
  );
  marks = λ topic p offset q s d. ground (
    arith,
    slot-insert_record (state h) topic topic' p p' offset offset',
    tr.marks topic p offset q,
  );
  accounted = λ topic p offset ticket g. ground (
    arith,
    slot-insert_record (state h) topic topic' p p' offset offset',
    tickets-state h,
    delivered-insert_record (state h) topic' p' offset',
    tr.revoked_lem topic' p',
    tr.accounted topic p offset ticket,
  );
}

pub revokes-Tracks :
    (h : List Event) (topic : Topic) (p : ℕ) → Tracks h → Tracks (revokes topic p ∷ h)
unfolding state assigned pulled finished step
revokes-Tracks h topic' p' tr = record {
  revoked_lem = λ topic p.
      ground (arith, is_revoked-revoke (state h) topic topic' p p', tr.revoked_lem topic p);
  held_pulled = λ topic p offset q s.
      ground
        (arith, slot-revoke (state h) topic topic' p p' offset, tr.held_pulled topic p offset q);
  marks = λ topic p offset q s d.
      ground (arith, slot-revoke (state h) topic topic' p p' offset, tr.marks topic p offset q);
  accounted = λ topic p offset ticket g. ground (
    arith,
    slot-revoke (state h) topic topic' p p' offset,
    delivered-revoke (state h) topic' p',
    tr.accounted topic p offset ticket,
  );
}

pub assigns-Tracks :
    (h : List Event) (topic : Topic) (p : ℕ) → Tracks h → Tracks (assigns topic p ∷ h)
unfolding state assigned pulled finished step
assigns-Tracks h topic' p' tr = record {
  revoked_lem = λ topic p.
      ground (arith, is_revoked-assign (state h) topic topic' p p', tr.revoked_lem topic p);
  held_pulled = λ topic p offset q s.
      ground
        (arith, slot-assign (state h) topic topic' p p' offset, tr.held_pulled topic p offset q);
  marks = λ topic p offset q s d.
      ground (arith, slot-assign (state h) topic topic' p p' offset, tr.marks topic p offset q);
  accounted = λ topic p offset ticket g. ground (
    arith,
    slot-assign (state h) topic topic' p p' offset,
    delivered-assign (state h) topic' p',
    tr.accounted topic p offset ticket,
  );
}

-- A record that leaves by being resolved was finished.
pub left_finished :
    (h : List Event) (topic : Topic) (p offset : ℕ) (q : Pending) (d : ℕ)
    → Tracks h
    → slot (state h) topic p offset ≡ some q
    → resolved q d ≡ true
    → finished h topic p offset q.ticket d ≡ true
unfolding resolved
left_finished h topic p offset q d tr e r =
    finished_mono h topic p offset q.ticket q.sends_before d (ground arith)
      (tr.marks topic p offset q e (ground arith))

pub reports-Tracks :
    (h : List Event) (id : ℕ) → IsValid (state h) → Tracks h → Tracks (reports id ∷ h)
unfolding state assigned pulled finished step resolved
reports-Tracks h id v tr =
    let s = note_delivered-Shrinks (state h) id v in
    let grows = delivered-note_delivered (state h) id v.waiting_above v.waiting_ascending in
    record {
      revoked_lem =
          λ topic p. is_revoked-note_delivered (state h) topic p id ∙ tr.revoked_lem topic p;
      held_pulled =
          λ topic p offset q e. tr.held_pulled topic p offset q (s.was topic p offset q e);
      marks = λ topic p offset q e d. tr.marks topic p offset q (s.was topic p offset q e) d;
      accounted = λ topic p offset ticket g. elim (tr.accounted topic p offset ticket g) [
        | inr f ↦ inr (finished_mono h topic p offset ticket _ _ grows f)
        | inl (q, e, own) ↦ elim (s.left topic p offset q e) [
          | inl kept ↦ inl (q, kept, own)
          | inr left ↦ inr (rw (← own) (left_finished h topic p offset q _ tr e left))
        ]
      ];
    }
