-- ===== src/Kafka/Lanes.antt =====
-- crates/kafka/src/consume/lanes.rs, and the delivery of records through it in consume.rs: records of one key run
-- one at a time and in the order they were pulled.
--
-- A lane's `oneshot` receiver is the number of the lane whose end wakes it. A delivery's state holds the
-- unfinished tasks, the latest first, the free slots and whether the loop has one in hand; the backlog and the outcome of a handler
-- are left out, and a task that ends takes its lane with it.
pub mod Links
pub mod Fifo
pub mod Tests
use omnia_backends.Base.{
  ℕ, suc, Bool, true, false, not, Option, none, some, List, [], ◌∷◌, ◌++◌, ◌≡◌, is_some, ◌==◌, ◌||◌,
  any, if◌then◌else◌,
}
use omnia_backends.Base.Map.{Map}
use omnia_backends.Base.Map
use omnia_backends.Base.Order.{bytes_ord}
use omnia_backends.Base.Strings.{Text}

pub record Lane : Type 0 where
  pub lane_key : Text
  pub seq : ℕ
  pub behind : Option ℕ

pub record Lanes : Type 0 where
  pub tails : Map Text ℕ
  pub next : ℕ

unfoldable pub enqueue : Text → Lanes → Lane × Lanes
enqueue key lanes = (
  record { lane_key = key; seq = lanes.next; behind = Map.get key lanes.tails },
  record { tails = Map.insert key lanes.next lanes.tails; next = suc lanes.next },
)

unfoldable pub is_tail : Lane → Option ℕ → Bool
is_tail lane none = false
is_tail lane (some tail) = tail == lane.seq

unfoldable pub release : Lane → Lanes → Lanes
release lane lanes =
    if is_tail lane (Map.get lane.lane_key lanes.tails)
    then record lanes { tails = Map.remove lane.lane_key lanes.tails }
    else lanes

unfoldable pub is_head : Lane → Bool
is_head lane = not (is_some lane.behind)

-- A record's task: its lane, where it has a key, and whether it holds a slot.
pub record Task : Type 0 where
  pub lane : Option Lane
  pub slot : Bool

pub record Delivery : Type 0 where
  pub lanes : Lanes
  pub tasks : List Task
  pub slots : ℕ
  pub in_hand : Bool

abbrev pub lane_has : ℕ → Option Lane → Bool
lane_has n none = false
lane_has n (some lane) = lane.seq == n

unfoldable pub has_seq : ℕ → Task → Bool
has_seq n task = lane_has n task.lane

-- `turn` has resolved: the task ahead is done, or there was none.
unfoldable pub its_turn : Option Lane → List Task → Bool
its_turn none tasks = true
its_turn (some lane) tasks = elim lane.behind [ none ↦ true | some n ↦ not (any (has_seq n) tasks) ]

-- A record pulled with a slot in hand: a record behind its key gives the slot back.
unfoldable pub admit : Option Text → Delivery → Delivery
admit none d = record d { tasks = record { lane = none; slot = true } ∷ d.tasks; in_hand = false }
admit (some key) d =
    let (lane, lanes) = enqueue key d.lanes in
    record {
      lanes = lanes;
      tasks = record { lane = some lane; slot = is_head lane } ∷ d.tasks;
      slots = if is_head lane then d.slots else suc d.slots;
      in_hand = false;
    }

unfoldable pub release_lane : Option Lane → Lanes → Lanes
release_lane none lanes = lanes
release_lane (some lane) lanes = release lane lanes

pub data Step : Delivery → Delivery → Type 0 where
  -- the loop takes a slot, and only then waits for a record
  took :
      (d : Delivery) (left : ℕ)
      → d.in_hand ≡ false
      → d.slots ≡ suc left
      → Step d (record d { slots = left; in_hand = true })
  admitted : (d : Delivery) (key : Option Text) → d.in_hand ≡ true → Step d (admit key d)
  -- a task was reaped, or the records have ended: the slot in hand goes back
  returned :
      (d : Delivery) → d.in_hand ≡ true → Step d (record d { slots = suc d.slots; in_hand = false })
  -- a task behind its key takes a slot when its turn comes
  woken :
      (d : Delivery) (newer older : List Task) (lane : Option Lane) (left : ℕ)
      → d.tasks ≡ newer ++ record { lane = lane; slot = false } ∷ older
      → its_turn lane d.tasks ≡ true
      → d.slots ≡ suc left
      → Step d
          (record d { tasks = newer ++ record { lane = lane; slot = true } ∷ older; slots = left })
  -- a task whose handler is done
  finished :
      (d : Delivery) (newer older : List Task) (lane : Option Lane)
      → d.tasks ≡ newer ++ record { lane = lane; slot = true } ∷ older
      → its_turn lane d.tasks ≡ true
      → Step d (record d {
        lanes = release_lane lane d.lanes;
        tasks = newer ++ older;
        slots = suc d.slots;
      })

unfoldable pub no_tasks : ℕ → Delivery
no_tasks slots = record {
  lanes = record { tails = []; next = 0 };
  tasks = [];
  slots = slots;
  in_hand = false;
}

pub data Reached (slots : ℕ) : Delivery → Type 0 where
  begun : Reached slots (no_tasks slots)
  stepped : {d d' : Delivery} → Reached slots d → Step d d' → Reached slots d'
