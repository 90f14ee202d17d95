-- ===== src/Kafka/Tracker/History.antt =====
-- At-least-once: the tracker against the history of the calls that made it.
--
-- A history lists the calls, the latest first. `pulled` and `finished` read it alone: which ticket a
-- place was last given in the partition's present assignment, and whether `done` came for that
-- ticket with every earlier send among the first `d`. A ticket is the number of the pulls before.
use omnia_backends.Base.{
  ℕ, zero, suc, ◌≤◌, ◌≡◌, Bool, true, false, ◌&&◌, ◌||◌, not, some, List, [], ◌∷◌, arith, leb, ◌==◌,
  ◌⊎◌, if◌then◌else◌,
}
use omnia_backends.Base.Order.{nat_ord, bytes_ord}
use omnia_backends.Kafka.Tracker.{
  Tracker, Pending, Topic, Ticket, Event, inserts, finishes, reports, revokes, assigns, step,
  default_tracker,
}
use omnia_backends.Kafka.Tracker.Access.{same_place}
use omnia_backends.Kafka.Tracker.Slots.{slot, is_revoked, at}

-- The tracker after the history.
unfoldable pub state : List Event → Tracker
state [] = default_tracker
state (e ∷ h) = step (state h) e

-- The partition has not been revoked since it was last assigned.
unfoldable pub assigned : List Event → Topic → ℕ → Bool
assigned [] topic p = true
assigned (revokes topic' p' ∷ h) topic p =
    if same_place topic p topic' p' then false else assigned h topic p
assigned (assigns topic' p' ∷ h) topic p =
    if same_place topic p topic' p' then true else assigned h topic p
assigned (inserts topic' p' offset' ∷ h) topic p = assigned h topic p
assigned (finishes topic' p' offset' ticket' sends ∷ h) topic p = assigned h topic p
assigned (reports id ∷ h) topic p = assigned h topic p

-- The pulls so far: the tickets that were given.
unfoldable pub pulls : List Event → ℕ
pulls [] = 0
pulls (inserts topic p offset ∷ h) = suc (pulls h)
pulls (_ ∷ h) = pulls h

-- The send's delivery report came.
unfoldable pub was_told : List Event → ℕ → Bool
was_told [] id = false
was_told (reports id' ∷ h) id = id == id' || was_told h id
was_told (_ ∷ h) id = was_told h id

-- The first `d` sends were all reported.
unfoldable pub all_told : List Event → ℕ → Bool
all_told h zero = true
all_told h (suc d) = was_told h d && all_told h d

-- The offset's latest pull, in the partition's present assignment, was given the ticket.
unfoldable pub pulled : List Event → Topic → ℕ → ℕ → Ticket → Bool
pulled [] topic p offset ticket = false
pulled (inserts topic' p' offset' ∷ h) topic p offset ticket =
    if at topic p offset topic' p' offset' && assigned h topic' p'
    then ticket == pulls h
    else pulled h topic p offset ticket
pulled (revokes topic' p' ∷ h) topic p offset ticket =
    if same_place topic p topic' p' then false else pulled h topic p offset ticket
pulled (assigns topic' p' ∷ h) topic p offset ticket = pulled h topic p offset ticket
pulled (finishes topic' p' offset' ticket' sends ∷ h) topic p offset ticket =
    pulled h topic p offset ticket
pulled (reports id ∷ h) topic p offset ticket = pulled h topic p offset ticket

-- `done` came for the ticket after the pull that was given it, with `sends_before` at most `d`.
unfoldable pub finished : List Event → Topic → ℕ → ℕ → Ticket → ℕ → Bool
finished [] topic p offset ticket d = false
finished (finishes topic' p' offset' ticket' sends ∷ h) topic p offset ticket d =
    (at topic p offset topic' p' offset'
      && ticket == ticket'
      && leb sends d
      && pulled h topic p offset ticket)
    || finished h topic p offset ticket d
finished (inserts topic' p' offset' ∷ h) topic p offset ticket d =
    finished h topic p offset ticket d
finished (revokes topic' p' ∷ h) topic p offset ticket d = finished h topic p offset ticket d
finished (assigns topic' p' ∷ h) topic p offset ticket d = finished h topic p offset ticket d
finished (reports id ∷ h) topic p offset ticket d = finished h topic p offset ticket d

pub finished_mono :
    (h : List Event) (topic : Topic) (p offset ticket d d' : ℕ)
    → d ≤ d'
    → finished h topic p offset ticket d ≡ true
    → finished h topic p offset ticket d' ≡ true
unfolding finished
finished_mono [] topic p offset ticket d d' le f = f
finished_mono (finishes topic' p' offset' ticket' sends ∷ h) topic p offset ticket d d' le f =
    ground (arith, finished_mono h topic p offset ticket d d' le)
finished_mono (_ ∷ h) topic p offset ticket d d' le f =
    finished_mono h topic p offset ticket d d' le f

-- The record is still pending under its ticket.
abbrev pub Held : Tracker → Topic → ℕ → ℕ → Ticket → Type 0
Held t topic p offset ticket =
    (q : Pending) × (slot t topic p offset ≡ some q) × (q.ticket ≡ ticket)

-- What the tracker's state says of its history, partition by partition.
pub record Tracks (h : List Event) : Type 0 where
  pub revoked_lem :
      (topic : Topic) (p : ℕ) → is_revoked (state h) topic p ≡ not (assigned h topic p)
  pub held_pulled :
      (topic : Topic) (p offset : ℕ) (q : Pending)
      → slot (state h) topic p offset ≡ some q
      → pulled h topic p offset q.ticket ≡ true
  pub marks :
      (topic : Topic) (p offset : ℕ) (q : Pending)
      → slot (state h) topic p offset ≡ some q
      → q.done ≡ true
      → finished h topic p offset q.ticket q.sends_before ≡ true
  pub accounted :
      (topic : Topic) (p offset ticket : ℕ)
      → pulled h topic p offset ticket ≡ true
      → Held (state h) topic p offset ticket
        ⊎ (finished h topic p offset ticket (state h).delivered ≡ true)
