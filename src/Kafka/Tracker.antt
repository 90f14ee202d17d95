-- ===== src/Kafka/Tracker.antt =====
-- crates/kafka/src/tracker.rs: which offsets may be committed.
--
-- `usize`, `u64`, `i32` and `i64` values are natural numbers: the code compares them, copies them and
-- adds one to `delivered` and `tickets`, and 2^64 sends or pulls are out of reach of a process.
-- Topic names are byte strings, in whose order a `BTreeMap<String, _>` iterates.
pub mod Prefix
pub mod Access
pub mod Watermark
pub mod Invariant
pub mod Slots
pub mod Shrinks
pub mod Sorted
pub mod Revoked
pub mod Commit
pub mod History
pub mod Kept
pub mod Told
pub mod Tracks
pub mod AtLeastOnce
pub mod Latest
mod Tests
use mathlib.Core.Option
use omnia_backends.Base.{
  ℕ, zero, suc, ◌+◌, ◌≡◌, Bool, true, false, ◌&&◌, Option, none, some, List, [], ◌∷◌, ◌++◌,
  if◌then◌else◌, leb, ltb, ◌==◌, is_some, is_some_and, length,
}
use omnia_backends.Base.Map.{Map, get, insert, remove, contains_key}
use omnia_backends.Base.Order.{nat_ord, bytes_ord}

abbrev pub Topic : Type 0
Topic = List ℕ

-- Topic, partition, offset.
abbrev pub Stored : Type 0
Stored = Topic × ℕ × ℕ

abbrev pub Ticket : Type 0
Ticket = ℕ

pub record Pending : Type 0 where
  pub ticket : Ticket
  pub done : Bool
  pub sends_before : ℕ

pub resolved : Pending → ℕ → Bool
resolved p delivered = p.done && leb p.sends_before delivered

pub record Partition : Type 0 where
  pub revoked : Bool
  pub pending : Map ℕ Pending

abbrev pub default_partition : Partition
default_partition = record { revoked = false; pending = [] }

-- The `while let` of `Partition::resolve`, over the entries from the first on.
pub resolve_loop : ℕ → Option ℕ → Map ℕ Pending → Option ℕ × Map ℕ Pending
resolve_loop delivered last [] = (last, [])
resolve_loop delivered last ((offset, p) ∷ m) =
    let rest = resolve_loop delivered (some offset) m in
    if resolved p delivered then rest else (last, (offset, p) ∷ m)

pub resolve : ℕ → Partition → Option ℕ × Partition
unfolding resolve_loop resolved
resolve delivered state =
    let (last, rest) = resolve_loop delivered none state.pending in
    (last, record state { pending = rest })

pub record Tracker : Type 0 where
  pub topics : Map Topic (Map ℕ Partition)
  pub delivered : ℕ
  pub out_of_order : Map ℕ (Unit {0})
  pub tickets : ℕ

abbrev pub default_tracker : Tracker
default_tracker = record { topics = []; delivered = 0; out_of_order = []; tickets = 0 }

-- `Tracker::partition` and `partition_mut`.
pub partition : Tracker → Topic → ℕ → Option Partition
partition t topic p = elim (get topic t.topics) [ none ↦ none | some partitions ↦ get p partitions ]

-- The topic's partitions, none before its first.
pub partitions_of : Tracker → Topic → Map ℕ Partition
partitions_of t topic = elim (get topic t.topics) [ none ↦ [] | some partitions ↦ partitions ]

-- A write through the reference that `partition_mut` or `partition_or_insert` returned.
pub write_partition : Tracker → Topic → ℕ → Partition → Tracker
unfolding partitions_of
write_partition t topic p state = record t {
  topics = insert topic (insert p state (partitions_of t topic)) t.topics;
}

-- What `partition_or_insert` finds, an absent partition being the default one.
pub partition_or_default : Tracker → Topic → ℕ → Partition
partition_or_default t topic p = elim (partition t topic p) [
  | none ↦ default_partition
  | some state ↦ state
]

abbrev pub pulled : Ticket → Pending
pulled ticket = record { ticket = ticket; done = false; sends_before = 0 }

pub hold : Partition → ℕ → Ticket → Partition
hold state offset ticket =
    if state.revoked
    then state
    else record state { pending = insert offset (pulled ticket) state.pending }

pub insert_record : Tracker → Topic → ℕ → ℕ → Ticket × Tracker
insert_record t topic p offset =
    let ticket = t.tickets in
    let state = partition_or_default t topic p in
    (ticket, record (write_partition t topic p (hold state offset ticket)) { tickets = ticket + 1 })

pub holds : Tracker → Topic → ℕ → ℕ → Ticket → Bool
unfolding partition
holds t topic p offset ticket = elim (partition t topic p) [
  | none ↦ false
  | some state ↦ is_some_and (λ pending. pending.ticket == ticket) (get offset state.pending)
]

-- The entry that `done` writes through `get_mut`.
pub mark : Partition → ℕ → Pending → ℕ → Partition
mark state offset pending sends_before = record state {
  pending =
      insert offset (record pending { done = true; sends_before = sends_before }) state.pending;
}

pub settle : Tracker → Topic → ℕ → Partition → Option Stored × Tracker
settle t topic p state =
    let (last, state') = resolve t.delivered state in
    (Option.map (λ offset. (topic, p, offset)) last, write_partition t topic p state')

pub done_in : Tracker → Topic → ℕ → ℕ → Ticket → ℕ → Partition → Option Stored × Tracker
done_in t topic p offset ticket sends_before state = elim (get offset state.pending) [
  | none ↦ (none, t)
  | some pending ↦
      if pending.ticket == ticket
      then settle t topic p (mark state offset pending sends_before)
      else (none, t)
]

pub done_record : Tracker → Topic → ℕ → ℕ → Ticket → ℕ → Option Stored × Tracker
done_record t topic p offset ticket sends_before = elim (partition t topic p) [
  | none ↦ (none, t)
  | some state ↦ done_in t topic p offset ticket sends_before state
]

-- The loop of `advance`, on fuel: each round takes a number out of the set.
pub advance_loop : ℕ → ℕ → Map ℕ (Unit {0}) → ℕ × Map ℕ (Unit {0})
advance_loop zero delivered waiting = (delivered, waiting)
advance_loop (suc fuel) delivered waiting =
    let rest = advance_loop fuel (delivered + 1) (remove delivered waiting) in
    if contains_key delivered waiting then rest else (delivered, waiting)

pub advance : Tracker → Tracker
unfolding advance_loop
advance t =
    let (d, waiting) = advance_loop (length t.out_of_order) (t.delivered + 1) t.out_of_order in
    record t { delivered = d; out_of_order = waiting }

abbrev pub push_stored : Topic → ℕ → Option ℕ → List Stored → List Stored
push_stored topic p none stored = stored
push_stored topic p (some offset) stored = (topic, p, offset) ∷ stored

pub resolve_partitions : ℕ → Topic → Map ℕ Partition → List Stored × Map ℕ Partition
unfolding resolve
resolve_partitions d topic [] = ([], [])
resolve_partitions d topic ((p, state) ∷ m) =
    let (last, state') = resolve d state in
    let (stored, m') = resolve_partitions d topic m in
    (push_stored topic p last stored, (p, state') ∷ m')

pub resolve_topics : ℕ → Map Topic (Map ℕ Partition) → List Stored × Map Topic (Map ℕ Partition)
unfolding resolve_partitions
resolve_topics d [] = ([], [])
resolve_topics d ((topic, partitions) ∷ m) =
    let (stored, partitions') = resolve_partitions d topic partitions in
    let (later, m') = resolve_topics d m in (stored ++ later, (topic, partitions') ∷ m')

pub resolve_all : Tracker → List Stored × Tracker
unfolding resolve_topics
resolve_all t =
    let (stored, topics') = resolve_topics t.delivered t.topics in
    (stored, record t { topics = topics' })

pub note_delivered : Tracker → ℕ → List Stored × Tracker
note_delivered t id =
    if ltb id t.delivered
    then ([], t)
    else if ltb t.delivered id
    then ([], record t { out_of_order = insert id tt t.out_of_order })
    else resolve_all (advance t)

abbrev pub revoked_partition : Partition
revoked_partition = record { revoked = true; pending = [] }

pub revoke : Tracker → Topic → ℕ → Tracker
revoke t topic p = write_partition t topic p revoked_partition

pub assign : Tracker → Topic → ℕ → Tracker
assign t topic p =
    let state = partition_or_default t topic p in
    write_partition t topic p (record state { revoked = false })

-- The calls that change the tracker. `Shared` makes each under one lock, so a history of the
-- consumer is a list of these.
pub data Event : Type 0 where
  inserts : Topic → ℕ → ℕ → Event
  finishes : Topic → ℕ → ℕ → Ticket → ℕ → Event
  reports : ℕ → Event
  revokes : Topic → ℕ → Event
  assigns : Topic → ℕ → Event

pub step : Tracker → Event → Tracker
step t (inserts topic p offset) = (insert_record t topic p offset).1
step t (finishes topic p offset ticket sends) = (done_record t topic p offset ticket sends).1
step t (reports id) = (note_delivered t id).1
step t (revokes topic p) = revoke t topic p
step t (assigns topic p) = assign t topic p

pub run : Tracker → List Event → Tracker
run t [] = t
run t (e ∷ es) = run (step t e) es
