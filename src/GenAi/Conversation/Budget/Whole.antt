-- ===== src/GenAi/Conversation/Budget/Whole.antt =====
-- The budgets of whole runs: the rounds bound the requests, and the candidates the checks.
use omnia_backends.Base.{
  ℕ, zero, suc, ◌+◌, ◌*◌, ◌≤◌, ◌<◌, ◌≡◌, refl, sym, ap, ◌∙◌, false, not, Option, none, some, arith,
  if_lem, ◌==◌, if◌then◌else◌,
}
use omnia_backends.Base.Results.{Result, ok, err}
use omnia_backends.Base.Machine.{Post, resume-Post, Post-map}
use omnia_backends.GenAi.Chat.{Text, ChatRequest, Verdict}
use omnia_backends.GenAi.Conversation.{Answer, Setup, State, Error, M, run_check}
use omnia_backends.GenAi.Conversation.Round.{next_reply}
use omnia_backends.GenAi.Conversation.Run.{
  nudge, reject, finish, off_shape, spent, heed, validate, shape, judge, after_reply, run, start,
  complete,
}
use omnia_backends.GenAi.Conversation.Budget.{asks, checks, is_stuck}
use omnia_backends.GenAi.Conversation.Budget.Rounds.{Within, Got, Lost, next_reply_lem, some_reply}

-- The candidates that may be checked: one at least, whatever the budget.
abbrev pub limit : Setup → ℕ
limit c = if c.budgets.max_candidates == 0 then 1 else c.budgets.max_candidates

abbrev Ready : Setup → State → Type 0
Ready c s =
    (s.round ≤ c.budgets.max_rounds) × (checks s.log ≡ s.candidates) × (s.candidates < limit c)

abbrev Done : Setup → State → State → Type 0
Done c s s' =
    (s'.round ≤ c.budgets.max_rounds)
    × (asks s'.log + 4 * s.round ≤ asks s.log + 4 * s'.round)
    × (checks s'.log ≤ limit c)

abbrev Broke : Setup → State → Error → State → Type 0
Broke c s e s' = Done c s s' × (is_stuck e ≡ false)

abbrev Goal : Setup → State → Result Answer Error × State → Type 0
Goal c s = Post (λ _. Done c s) (Broke c s)

-- The rest of a run, from any state of the round that `s` is in.
abbrev Goes : Setup → State → M Answer → Type 0
Goes c s again =
    (t : State) → Ready c t → t.round ≡ s.round → asks t.log ≡ asks s.log → Goal c s (again t)

heed_lem :
    (c : Setup) (again : M Answer) (candidate : Text) (verdict : Option Verdict) (s t : State)
    → Goes c s again
    → t.round ≡ s.round
    → t.round ≤ c.budgets.max_rounds
    → asks t.log ≡ asks s.log
    → checks t.log ≡ t.candidates
    → t.candidates ≤ limit c
    → Goal c s (heed c again candidate verdict t)
unfolding heed is_stuck finish spent reject
heed_lem c again candidate none s t g r b a k l = ((b, omega arith, omega arith), refl)
heed_lem c again candidate (some (ok accepted)) s t g r b a k l = (b, omega arith, omega arith)
heed_lem c again candidate (some (err correction)) s t g r b a k l =
    if_lem {A = M Answer} (λ m. Goal c s (m t)) (spent c t) _ _
      (λ over. ((b, omega arith, omega arith), refl)) (λ more. g _ (b, k, ground arith) r a)

judge_lem :
    (c : Setup) (again : M Answer) (candidate : Text) (s : State)
    → Goes c s again
    → Ready c s
    → Goal c s (judge c again candidate s)
unfolding judge finish checks asks run_check nudge validate shape
judge_lem c again candidate s g (b, k, l) =
    if_lem {A = M Answer} (λ m. Goal c s (m s)) (not c.checking) _ _
      (λ unchecked. (b, omega arith, omega arith))
      (λ checking. shape_lem (if s.nudged then none else off_shape c candidate))
  where
    shape_lem : (prompt : Option Text) → Goal c s (shape c again candidate prompt s)
    shape_lem (some prompt) = g _ (b, k, l) refl refl
    shape_lem none = heed_lem c again candidate _ s _ g refl b refl (ap suc k) (omega arith)

after_reply_lem :
    (c : Setup) (again : M Answer) (s : State) (reply : Option Text) (t : State)
    → Ready c s
    → Within c.budgets.max_rounds (some_reply reply) s t
    → ((u : State) → Ready c u → s.round < u.round → Goal c u (again u))
    → Goal c s (after_reply c again reply t)
unfolding after_reply is_stuck
after_reply_lem c again s none t (b, k, l) (x, y, z, v, w) g = ((y, w, omega arith), refl)
after_reply_lem c again s (some text) t (b, k, l) (x, y, z, v, w) g =
    Post-map (λ _. Done c t) (λ _. Done c s) (Broke c t) (Broke c s)
      (judge c again (c.world.candidate c.format text) t) (λ a u (i, j, o). (i, omega arith, o))
      (λ e u ((i, j, o), q). ((i, omega arith, o), q))
      (judge_lem c again (c.world.candidate c.format text) t
        (λ u r same_round same_asks.
          Post-map (λ _. Done c u) (λ _. Done c t) (Broke c u) (Broke c t) (again u)
            (λ a p (i, j, o). (i, omega arith, o)) (λ e p ((i, j, o), q). ((i, omega arith, o), q))
            (g u r (omega arith)))
        (y, v ∙ (k ∙ sym z), omega arith))

run_lem :
    (c : Setup) (fuel : ℕ) (s : State)
    → c.budgets.max_rounds < fuel + s.round
    → Ready c s
    → Goal c s (run c fuel s)
unfolding run
run_lem c zero s h r = absurd (omega arith)
run_lem c (suc fuel) s h (b, k, l) =
    resume-Post (Got c.budgets.max_rounds s) (Lost c.budgets.max_rounds s) (Broke c s)
      (λ _. Done c s) (next_reply c (suc c.budgets.max_rounds) s) (after_reply c (run c fuel))
      (next_reply_lem c (suc c.budgets.max_rounds) s (omega arith) b)
      (λ e t ((x, y, z, v, w), q). ((y, w, omega arith), q))
      (λ reply t w.
        after_reply_lem c (run c fuel) s reply t (b, k, l) w
          (λ u r later. run_lem c fuel u (omega arith) r))

complete_lem : (c : Setup) (chat : ChatRequest) → Goal c (start c chat) (complete c chat)
unfolding complete start checks
complete_lem c chat =
    run_lem c (suc c.budgets.max_rounds) (start c chat) (omega arith)
      (omega arith, refl, ground arith)

-- A conversation ends: with an answer or with an error of its own, whatever the provider, the tools
-- and the guest say. The fuel, a round more than the budget's, is never used up.
pub complete-Ends :
    (c : Setup) (chat : ChatRequest)
    → Post (λ _ _. Unit) (λ e _. is_stuck e ≡ false) (complete c chat)
complete-Ends c chat =
    Post-map (λ _. Done c (start c chat)) (λ _ _. Unit) (Broke c (start c chat))
      (λ e _. is_stuck e ≡ false) (complete c chat) (λ _ _ _. tt) (λ e s (d, q). q)
      (complete_lem c chat)

-- A conversation makes at most `max_rounds` rounds of at most four requests each, and has the guest
-- check at most `max_candidates` candidates, or one where that is 0.
pub complete-Spends :
    (c : Setup) (chat : ChatRequest)
    → ((complete c chat).1.round ≤ c.budgets.max_rounds)
      × (asks (complete c chat).1.log ≤ 4 * (complete c chat).1.round)
      × (checks (complete c chat).1.log ≤ limit c)
unfolding start asks
complete-Spends c chat = end (complete c chat) (complete_lem c chat)
  where
    end :
        (r : Result Answer Error × State)
        → Goal c (start c chat) r
        → (r.1.round ≤ c.budgets.max_rounds)
          × (asks r.1.log ≤ 4 * r.1.round)
          × (checks r.1.log ≤ limit c)
    end (ok a, s) (b, k, l) = (b, omega arith, l)
    end (err e, s) ((b, k, l), q) = (b, omega arith, l)
