-- ===== src/Kafka/Tracker/Tests.antt =====
-- Runs of the tracker, and the theorems at them.
use omnia_backends.Base.{
  ℕ, ◌<◌, ◌≡◌, refl, true, false, any, ◌||◌, some, List, [], ◌∷◌, inl, arith, ◌==◌,
}
use omnia_backends.Base.Text.{codes}
use omnia_backends.Base.Map.{Map, get, insert, remove}
use omnia_backends.Base.Ascending.{Above}
use omnia_backends.Base.Order.{nat_ord, bytes_ord, lex}
use omnia_backends.Kafka.Tracker.{
  Tracker, Pending, Topic, Event, inserts, finishes, reports, revokes, assigns, partition, resolve,
  resolve_loop, resolved, resolve_all, resolve_topics, resolve_partitions, advance, advance_loop,
  hold, mark, pulled, insert_record, done_record, done_in, settle, note_delivered, revoke, assign,
  step, write_partition, partition_or_default, partitions_of, holds,
}
use omnia_backends.Kafka.Tracker.Watermark.{reported, reported-note_delivered}
use omnia_backends.Kafka.Tracker.Invariant.{IsValid, step-IsValid}
use omnia_backends.Kafka.Tracker.Slots.{slot}
use omnia_backends.Kafka.Tracker.Commit.{Stores, output, output_passes}
use omnia_backends.Kafka.Tracker.Kept.{state-IsValid, state-PlacesSorted}
use omnia_backends.Kafka.Tracker.History
use omnia_backends.Kafka.Tracker.History.{state, assigned, pulls, all_told, finished}
use omnia_backends.Kafka.Tracker.Latest.{disturbs, holds-undisturbed}
use omnia_backends.Kafka.Tracker.AtLeastOnce.{
  holds-pulled, holds_until_finished, commit_at_least_once,
}

abbrev orders : Topic
orders = codes "orders"

-- Offsets 5 and 6 are pulled, then 5 is finished with one send before it.
abbrev before : List Event
before = finishes orders 0 5 0 1 ∷ inserts orders 0 6 ∷ inserts orders 0 5 ∷ []

-- Send 1 is reported before send 0.
abbrev early : Tracker
early = record { topics = []; delivered = 0; out_of_order = (1, tt) ∷ []; tickets = 0 }

-- Then 6 is finished, with the same send before it.
abbrev both_done : List Event
both_done = finishes orders 0 6 1 1 ∷ before

commit_waits : Stores (state before) (reports 0) orders 0 5
unfolding output state step insert_record done_record done_in settle note_delivered resolve_all
    resolve_topics resolve_partitions resolve resolve_loop resolved advance advance_loop hold mark
    partition_or_default partition partitions_of write_partition get insert remove lex
commit_waits = inl refl

no_commit_before_report :
    output (state (inserts orders 0 6 ∷ inserts orders 0 5 ∷ [])) (finishes orders 0 5 0 1) ≡ []
unfolding output state step insert_record done_record done_in settle note_delivered resolve_all
    resolve_topics resolve_partitions resolve resolve_loop resolved advance advance_loop hold mark
    partition_or_default partition partitions_of write_partition get insert remove lex
no_commit_before_report = refl

-- One report releases both records, and the later offset alone is stored.
commit_both : output (state both_done) (reports 0) ≡ (orders, 0, 6) ∷ []
unfolding output state step insert_record done_record done_in settle note_delivered resolve_all
    resolve_topics resolve_partitions resolve resolve_loop resolved advance advance_loop hold mark
    partition_or_default partition partitions_of write_partition get insert remove lex
commit_both = refl

-- A finish that comes after a revoke and a new pull of the offset does nothing.
stale_finish :
    output
      (state (inserts orders 0 5 ∷ assigns orders 0 ∷ revokes orders 0 ∷ inserts orders 0 5 ∷ []))
      (finishes orders 0 5 0 0)
    ≡ []
unfolding output state step insert_record done_record done_in settle note_delivered resolve_all
    resolve_topics resolve_partitions resolve resolve_loop resolved advance advance_loop hold mark
    partition_or_default partition partitions_of write_partition get insert remove lex revoke assign
stale_finish = refl

six_pulled : History.pulled before orders 0 6 1 ≡ true
unfolding output state step insert_record done_record done_in settle note_delivered resolve_all
    resolve_topics resolve_partitions resolve resolve_loop resolved advance advance_loop hold mark
    partition_or_default partition partitions_of write_partition get insert remove lex
    History.pulled assigned pulls
six_pulled = refl

six_unfinished : finished before orders 0 6 1 (state before).delivered ≡ false
unfolding output state step insert_record done_record done_in settle note_delivered resolve_all
    resolve_topics resolve_partitions resolve resolve_loop resolved advance advance_loop hold mark
    partition_or_default partition partitions_of write_partition get insert remove lex finished
    History.pulled assigned pulls
six_unfinished = refl

six_held : holds (state before) orders 0 6 1 ≡ true
unfolding output state step insert_record done_record done_in settle note_delivered resolve_all
    resolve_topics resolve_partitions resolve resolve_loop resolved advance advance_loop hold mark
    partition_or_default partition partitions_of write_partition get insert remove lex holds
six_held = refl

five_pulled : History.pulled (reports 0 ∷ before) orders 0 5 0 ≡ true
unfolding output state step insert_record done_record done_in settle note_delivered resolve_all
    resolve_topics resolve_partitions resolve resolve_loop resolved advance advance_loop hold mark
    partition_or_default partition partitions_of write_partition get insert remove lex
    History.pulled assigned pulls
five_pulled = refl

six_slot : slot (step (state before) (reports 0)) orders 0 6 ≡ some (pulled 1)
unfolding output state step insert_record done_record done_in settle note_delivered resolve_all
    resolve_topics resolve_partitions resolve resolve_loop resolved advance advance_loop hold mark
    partition_or_default partition partitions_of write_partition get insert remove lex slot
six_slot = refl

commit_at_least_once_example :
    (d : ℕ) × (finished (reports 0 ∷ before) orders 0 5 0 d ≡ true)
    × (all_told (reports 0 ∷ before) d ≡ true)
commit_at_least_once_example =
    commit_at_least_once before (reports 0) orders 0 5 5 0 commit_waits (omega arith) five_pulled

output_passes_example : 5 < 6
output_passes_example =
    output_passes (state before) (reports 0) orders 0 5 6 (pulled 1) (state-IsValid before)
      (state-PlacesSorted before) commit_waits six_slot

holds-pulled_example : History.pulled before orders 0 6 1 ≡ true
holds-pulled_example = holds-pulled before orders 0 6 1 six_held

-- Offset 6 is pulled, then 5 finishes.
six_since :
    holds
      (state (finishes orders 0 5 0 1 ∷ inserts orders 0 6 ∷ inserts orders 0 5 ∷ []))
      orders
      0
      6
      (insert_record (state (inserts orders 0 5 ∷ [])) orders 0 6).0
    ≡ true
unfolding output state step insert_record done_record done_in settle note_delivered resolve_all
    resolve_topics resolve_partitions resolve resolve_loop resolved advance advance_loop hold mark
    partition_or_default partition partitions_of write_partition get insert remove lex holds
six_since = refl

holds-undisturbed_example : any (disturbs orders 0 6) (finishes orders 0 5 0 1 ∷ []) ≡ false
holds-undisturbed_example =
    holds-undisturbed (finishes orders 0 5 0 1 ∷ []) (inserts orders 0 5 ∷ []) orders 0 6 six_since

holds_until_finished_example : holds (state before) orders 0 6 1 ≡ true
holds_until_finished_example = holds_until_finished before orders 0 6 1 six_pulled six_unfinished

step-IsValid_example : IsValid (step (state before) (reports 0))
step-IsValid_example = step-IsValid (state before) (reports 0) (state-IsValid before)

early-Above : Above early.delivered early.out_of_order
early-Above = (omega arith, tt)

reported-note_delivered_example :
    reported (note_delivered early 0).1 1 ≡ (1 == 0 || reported early 1)
reported-note_delivered_example = reported-note_delivered early 0 1 early-Above (tt, tt)

abbrev two_pending : Map ℕ Pending
two_pending = (5, record { ticket = 0; done = true; sends_before = 1 }) ∷ (6, pulled 1) ∷ []
