-- ===== src/Kafka/Lanes/Tests.antt =====
-- Three records, two of one key behind one without, and the theorems at them.
use omnia_backends.Base.{ℕ, ◌≡◌, refl, true, false, none, some, [], ◌∷◌, All}
use omnia_backends.Base.Map.{get, insert}
use omnia_backends.Base.Order.{bytes_ord, lex}
use omnia_backends.Base.Strings.{Text}
use omnia_backends.Base.Text.{codes}
use omnia_backends.Kafka.Lanes.{
  Lane, Task, Delivery, enqueue, is_head, admit, its_turn, has_seq, took, admitted, no_tasks,
  Reached, begun, stepped,
}
use omnia_backends.Kafka.Lanes.Fifo.{keyed, its_turn-First}

abbrev key : Text
key = codes "k"

abbrev none_pulled : Delivery
none_pulled = no_tasks 4

abbrev taking : Delivery → ℕ → Delivery
taking d left = record d { slots = left; in_hand = true }

abbrev one_pulled : Delivery
one_pulled = admit none (taking none_pulled 3)

abbrev two_pulled : Delivery
two_pulled = admit (some key) (taking one_pulled 2)

abbrev three_pulled : Delivery
three_pulled = admit (some key) (taking two_pulled 1)

one_pulled-Reached : Reached 4 one_pulled
unfolding no_tasks
one_pulled-Reached =
    stepped (stepped begun (took none_pulled 3 refl refl))
      (admitted (taking none_pulled 3) none refl)

two_pulled-Reached : Reached 4 two_pulled
unfolding no_tasks admit
two_pulled-Reached =
    stepped (stepped one_pulled-Reached (took one_pulled 2 refl refl))
      (admitted (taking one_pulled 2) (some key) refl)

three_pulled-Reached : Reached 4 three_pulled
unfolding no_tasks admit enqueue is_head get insert lex
three_pulled-Reached =
    stepped (stepped two_pulled-Reached (took two_pulled 1 refl refl))
      (admitted (taking two_pulled 1) (some key) refl)

abbrev ahead : Lane
ahead = record { lane_key = key; seq = 0; behind = none }

abbrev unkeyed : Task
unkeyed = record { lane = none; slot = true }

abbrev waiting : Task
waiting = record { lane = some (record { lane_key = key; seq = 1; behind = some 0 }); slot = false }

the_tasks : three_pulled.tasks ≡ waiting ∷ record { lane = some ahead; slot = true } ∷ unkeyed ∷ []
unfolding no_tasks admit enqueue is_head get insert lex
the_tasks = refl

its_turn-ahead : its_turn (some ahead) three_pulled.tasks ≡ true
unfolding its_turn
its_turn-ahead = refl

-- The record behind it has to wait.
its_turn-waiting : its_turn waiting.lane three_pulled.tasks ≡ false
unfolding its_turn has_seq no_tasks admit enqueue is_head get insert lex
its_turn-waiting = refl

its_turn-First_example : All (λ t. keyed ahead.lane_key t.lane ≡ false) (unkeyed ∷ [])
its_turn-First_example =
    its_turn-First 4 three_pulled (waiting ∷ []) (unkeyed ∷ []) ahead true three_pulled-Reached
      the_tasks its_turn-ahead
