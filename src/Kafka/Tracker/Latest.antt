-- ===== src/Kafka/Tracker/Latest.antt =====
-- A pull that is still held was disturbed by no call after it.
use omnia_backends.Base.{
  ℕ, ◌<◌, ◌≡◌, refl, subst, Bool, true, false, List, [], ◌∷◌, ◌++◌, any, arith,
}
use omnia_backends.Base.Order.{nat_ord, bytes_ord}
use omnia_backends.Kafka.Tracker.{
  Topic, Event, inserts, finishes, reports, revokes, assigns, holds, insert_record,
}
use omnia_backends.Kafka.Tracker.Access.{same_place}
use omnia_backends.Kafka.Tracker.Slots.{at, place_eq}
use omnia_backends.Kafka.Tracker.Kept.{tickets-state}
use omnia_backends.Kafka.Tracker.History.{state, assigned, pulls, pulled}
use omnia_backends.Kafka.Tracker.AtLeastOnce.{holds-pulled}

-- The event revokes the partition, or pulls the offset again.
unfoldable pub disturbs : Topic → ℕ → ℕ → Event → Bool
disturbs topic p offset (inserts topic' p' offset') = at topic p offset topic' p' offset'
disturbs topic p offset (revokes topic' p') = same_place topic p topic' p'
disturbs topic p offset (assigns topic' p') = false
disturbs topic p offset (finishes topic' p' offset' ticket sends) = false
disturbs topic p offset (reports id) = false

assigned-place :
    (h : List Event) (topic topic' : Topic) (p p' : ℕ)
    → same_place topic p topic' p' ≡ true
    → assigned h topic p ≡ assigned h topic' p'
assigned-place h topic topic' p p' e =
    let (et, ep) = place_eq topic topic' p p' e in rw (et, ep) refl

pulled-assigned :
    (h : List Event) (topic : Topic) (p offset ticket : ℕ)
    → pulled h topic p offset ticket ≡ true
    → assigned h topic p ≡ true
unfolding pulled assigned
pulled-assigned [] topic p offset ticket g = cc
pulled-assigned (inserts topic' p' offset' ∷ h) topic p offset ticket g =
    ground (arith, pulled-assigned h topic p offset ticket, assigned-place h topic topic' p p')
pulled-assigned (finishes topic' p' offset' ticket' sends ∷ h) topic p offset ticket g =
    pulled-assigned h topic p offset ticket g
pulled-assigned (reports id ∷ h) topic p offset ticket g = pulled-assigned h topic p offset ticket g
pulled-assigned (revokes topic' p' ∷ h) topic p offset ticket g =
    ground (arith, pulled-assigned h topic p offset ticket)
pulled-assigned (assigns topic' p' ∷ h) topic p offset ticket g =
    ground (arith, pulled-assigned h topic p offset ticket)

pulls-append :
    (newer older : List Event) (topic : Topic) (p offset : ℕ)
    → pulls older < pulls (newer ++ inserts topic p offset ∷ older)
unfolding pulls
pulls-append [] older topic p offset = omega arith
pulls-append (inserts topic' p' offset' ∷ newer) older topic p offset =
    omega (arith, pulls-append newer older topic p offset)
pulls-append (finishes topic' p' offset' ticket sends ∷ newer) older topic p offset =
    pulls-append newer older topic p offset
pulls-append (reports id ∷ newer) older topic p offset = pulls-append newer older topic p offset
pulls-append (revokes topic' p' ∷ newer) older topic p offset =
    pulls-append newer older topic p offset
pulls-append (assigns topic' p' ∷ newer) older topic p offset =
    pulls-append newer older topic p offset

-- The history with a pull in it is given that pull's ticket.
module _ (topic : Topic) (p offset : ℕ) (older : List Event) where
  since : List Event → List Event
  since newer = newer ++ inserts topic p offset ∷ older

  undisturbed :
      (newer : List Event)
      → pulled (since newer) topic p offset (pulls older) ≡ true
      → any (disturbs topic p offset) newer ≡ false
  unfolding pulled disturbs since
  undisturbed [] g = refl
  undisturbed (inserts topic' p' offset' ∷ newer) g = ground (
    arith,
    undisturbed newer,
    pulls-append newer older topic p offset,
    pulled-assigned (since newer) topic p offset (pulls older),
    assigned-place (since newer) topic topic' p p',
  )
  undisturbed (finishes topic' p' offset' ticket sends ∷ newer) g = undisturbed newer g
  undisturbed (reports id ∷ newer) g = undisturbed newer g
  undisturbed (revokes topic' p' ∷ newer) g = ground (arith, undisturbed newer)
  undisturbed (assigns topic' p' ∷ newer) g = undisturbed newer g

ticket_given :
    (h : List Event) (topic : Topic) (p offset : ℕ)
    → (insert_record (state h) topic p offset).0 ≡ pulls h
unfolding insert_record
ticket_given h topic p offset = tickets-state h

-- A pull that is still held under the ticket it was given is the offset's latest: since that pull the
-- partition was not revoked, and the offset was not pulled again. So once either has happened, the
-- task of the earlier pull delivers nothing.
pub holds-undisturbed :
    (newer older : List Event) (topic : Topic) (p offset : ℕ)
    → holds
        (state (newer ++ inserts topic p offset ∷ older))
        topic
        p
        offset
        (insert_record (state older) topic p offset).0
      ≡ true
    → any (disturbs topic p offset) newer ≡ false
unfolding since
holds-undisturbed newer older topic p offset h = undisturbed topic p offset older newer (
    subst (λ k. pulled (newer ++ inserts topic p offset ∷ older) topic p offset k ≡ true)
      (ticket_given older topic p offset)
      (holds-pulled (newer ++ inserts topic p offset ∷ older) topic p offset _ h))
