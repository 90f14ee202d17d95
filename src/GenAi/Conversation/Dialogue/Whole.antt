-- ===== src/GenAi/Conversation/Dialogue/Whole.antt =====
-- Whole runs: every dialogue is proper, and an answer is a candidate that the guest has passed.
use omnia_backends.Base.{
  ℕ, zero, suc, ◌≡◌, refl, true, not, Option, none, some, List, [], ◌∷◌, if◌then◌else◌, if_lem,
}
use omnia_backends.Base.Results.{ok, err}
use omnia_backends.Base.Machine.{Post, resume-Post, Post-map}
use omnia_backends.GenAi.Chat.{Text, ChatRequest, user, assistant, Verdict, Act, checked}
use omnia_backends.GenAi.Conversation.{Answer, Setup, State, M, append_message, run_check}
use omnia_backends.GenAi.Conversation.Round.{next_reply}
use omnia_backends.GenAi.Conversation.Run.{
  exchange, nudge, reject, finish, off_shape, spent, heed, validate, shape, judge, after_reply, run,
  start, complete,
}
use omnia_backends.GenAi.Conversation.Dialogue.{said, Settled, Proper, is_speech}
use omnia_backends.GenAi.Conversation.Dialogue.Rounds.{Waits, Ends, next_reply_lem}

-- The log of an answer ends with the guest's consent to it, where the guest checks.
abbrev pub Passed : Setup → Answer → List Act → Type 0
Passed c a log =
    c.checking ≡ true → (before : List Act) × (log ≡ checked a.answer_text (some (ok tt)) ∷ before)

abbrev pub Answered : Setup → Answer → State → Type 0
Answered c a s = Proper c s.log × Passed c a s.log

abbrev Goes : Setup → M Answer → Type 0
Goes c again = (s : State) → Waits c [] s → Post (Answered c) (Ends c) (again s)

exchange_lem :
    (c : Setup) (candidate prompt : Text) (s : State)
    → Settled s.chat
    → Settled (exchange candidate prompt s)
unfolding exchange append_message is_speech
exchange_lem c candidate prompt s p = said (said p (assistant candidate) refl) (user prompt) refl

heed_lem :
    (c : Setup) (again : M Answer) (candidate : Text) (verdict : Option Verdict) (s : State)
    (before : List Act)
    → Goes c again
    → Waits c [] s
    → s.log ≡ checked candidate verdict ∷ before
    → Post (Answered c) (Ends c) (heed c again candidate verdict s)
unfolding heed finish reject
heed_lem c again candidate none s before g (p, l) e = l
heed_lem c again candidate (some (ok accepted)) s before g (p, l) e = (l, λ checks. (before, e))
heed_lem c again candidate (some (err correction)) s before g (p, l) e =
    if_lem {A = M Answer} (λ m. Post (Answered c) (Ends c) (m s)) (spent c s) _ _ (λ over. l)
      (λ more. g _ (exchange_lem c candidate correction s p, l))

shape_lem :
    (c : Setup) (again : M Answer) (candidate : Text) (prompt : Option Text) (s : State)
    → Goes c again
    → Waits c [] s
    → Post (Answered c) (Ends c) (shape c again candidate prompt s)
unfolding shape nudge validate run_check Proper
shape_lem c again candidate none s g (p, l) = heed_lem c again candidate _ _ s.log g (p, l) refl
shape_lem c again candidate (some prompt) s g (p, l) = g _ (exchange_lem c candidate prompt s p, l)

judge_lem :
    (c : Setup) (again : M Answer) (candidate : Text)
    → Goes c again
    → Goes c (judge c again candidate)
unfolding judge finish
judge_lem c again candidate g s (p, l) =
    if_lem {A = M Answer} (λ m. Post (Answered c) (Ends c) (m s)) (not c.checking) _ _
      (λ unchecked. (l, λ checks. cc))
      (λ checking.
        shape_lem c again candidate (if s.nudged then none else off_shape c candidate) s g (p, l))

after_reply_lem :
    (c : Setup) (again : M Answer) (reply : Option Text)
    → Goes c again
    → Goes c (after_reply c again reply)
unfolding after_reply
after_reply_lem c again none g = λ s (p, l). l
after_reply_lem c again (some text) g = judge_lem c again (c.world.candidate c.format text) g

run_lem : (c : Setup) (fuel : ℕ) → Goes c (run c fuel)
unfolding run
run_lem c zero s (p, l) = l
run_lem c (suc fuel) s w =
    resume-Post (λ _. Waits c []) (Ends c) (Ends c) (Answered c)
      (next_reply c (suc c.budgets.max_rounds) s) (after_reply c (run c fuel))
      (next_reply_lem c (suc c.budgets.max_rounds) s w) (λ e t l. l)
      (λ reply. after_reply_lem c (run c fuel) reply (run_lem c fuel))

complete_lem :
    (c : Setup) (chat : ChatRequest) → Settled chat → Post (Answered c) (Ends c) (complete c chat)
unfolding complete start Proper
complete_lem c chat p = run_lem c (suc c.budgets.max_rounds) (start c chat) (p, tt)

-- Where the guest checks, an answer is a candidate that the guest has passed, and passing it was the
-- last call that the conversation made.
pub complete-Passed :
    (c : Setup) (chat : ChatRequest)
    → c.checking ≡ true
    → Settled chat
    → Post
        (λ a s. (before : List Act) × (s.log ≡ checked a.answer_text (some (ok tt)) ∷ before))
        (λ _ _. Unit)
        (complete c chat)
complete-Passed c chat checks p =
    Post-map (Answered c) _ (Ends c) (λ _ _. Unit) (complete c chat)
      (λ a s (l, passed). passed checks) (λ _ _ _. tt) (complete_lem c chat p)
