-- ===== src/GenAi/Conversation/Budget.antt =====
-- What a conversation may spend: rounds, requests to the provider and calls of the guest's check.
pub mod Rounds
pub mod Whole
use omnia_backends.Base.{
  ℕ, zero, suc, ◌+◌, ◌*◌, ◌≤◌, ◌<◌, ◌≡◌, refl, ◌∙◌, Bool, true, false, Option, none, some, List, [],
  ◌∷◌, length, arith, ltb, leb, if◌then◌else◌,
}
use omnia_backends.Base.Results.{Result, ok, err}
use omnia_backends.Base.Machine.{
  Machine, Post, resume-Post, Post-map, ◌>>=◌, ◌>>◌, pure, raise, observe, modify,
}
use omnia_backends.GenAi.Chat.{
  Text, ToolCall, ChatRequest, ChatOptions, ChatResponse, CallError, transport, refused, elapsed,
  Halt, host_failed, overdue, ToolOutcome, Act, asked, ran, checked,
}
use omnia_backends.GenAi.Truncate.{truncate}
use omnia_backends.GenAi.Conversation.{
  Setup, State, Error, timed_out, provider_failed, no_content, no_host, stuck, budget_exhausted, M,
  ask, run_tool, run_check, refused_in_closing, or_zero, max_result_bytes, refused_when_cut,
  transport_retry_waits, closing, round_options, is_cut,
}
use omnia_backends.GenAi.Conversation.Round.{
  retry, respond, open_calls, refuse_each, refuse, exec_chat, failed, told, run_each, tool_round,
  dispatch, reply_content, take_reply, attempt, next_reply,
}

unfoldable pub asks : List Act → ℕ
asks [] = 0
asks (asked round nudged chat options outcome ∷ log) = suc (asks log)
asks (ran call outcome ∷ log) = asks log
asks (checked candidate verdict ∷ log) = asks log

unfoldable pub checks : List Act → ℕ
checks [] = 0
checks (asked round nudged chat options outcome ∷ log) = checks log
checks (ran call outcome ∷ log) = checks log
checks (checked candidate verdict ∷ log) = suc (checks log)

unfoldable pub is_stuck : Error → Bool
is_stuck stuck = true
is_stuck _ = false

-- From one state to another within a round: at most `n` requests, and no candidate checked.
abbrev pub Spends : ℕ → State → State → Type 0
Spends n s s' =
    (s'.round ≡ s.round)
    × (s'.candidates ≡ s.candidates)
    × (checks s'.log ≡ checks s.log)
    × (asks s'.log ≤ asks s.log + n)

abbrev pub Fails : ℕ → State → Error → State → Type 0
Fails n s e s' = Spends n s s' × (is_stuck e ≡ false)

abbrev pub Costs : {A : Type 0} → ℕ → M A → Type 0
Costs n m = (s : State) → Post (λ _ s'. Spends n s s') (Fails n s) (m s)

abbrev add : (n k l : ℕ) (s t u : State) → n + k ≡ l → Spends n s t → Spends k t u → Spends l s u
add n k l s t u sum (a, b, c, d) (e, f, g, h) = (e ∙ a, f ∙ b, g ∙ c, omega arith)

abbrev widen : (n k l : ℕ) (s t : State) → n + k ≡ l → Spends n s t → Spends l s t
widen n k l s t sum (a, b, c, d) = (a, b, c, omega arith)

then-Costs :
    {A B : Type 0} (n k : ℕ) (m : M A) (f : A → M B)
    → Costs n m
    → ((a : A) → Costs k (f a))
    → (l : ℕ) → n + k ≡ l
    → Costs l (m >>= f)
then-Costs n k m f h g l sum s =
    resume-Post (λ _. Spends n s) (Fails n s) (Fails l s) (λ _. Spends l s) (m s) f (h s)
      (λ e t (p, q). (widen n k l s t sum p, q))
      (λ a t p.
        Post-map (λ _. Spends k t) (λ _. Spends l s) (Fails k t) (Fails l s) (f a t)
          (λ _ u q. add n k l s t u sum p q) (λ e u (q, r). (add n k l s t u sum p q, r)) (g a t))

idle : Costs 0 (pure tt)
idle s = (refl, refl, refl, omega arith)

retry_lem :
    (outcome : Result ChatResponse CallError) (again : M ChatResponse) (n : ℕ)
    → Costs n again
    → Costs n (retry outcome again)
unfolding retry is_stuck
retry_lem (ok response) again n h s = (refl, refl, refl, omega arith)
retry_lem (err transport) again n h s = h s
retry_lem (err refused) again n h s = ((refl, refl, refl, omega arith), refl)
retry_lem (err elapsed) again n h s = ((refl, refl, refl, omega arith), refl)

ask-Costs : (c : Setup) (chat : ChatRequest) (options : ChatOptions) → Costs 1 (ask c chat options)
unfolding ask asks checks
ask-Costs c chat options s = (refl, refl, refl, omega arith)

exec_chat-Costs :
    (c : Setup) (waits : List ℕ) (chat : ChatRequest) (options : ChatOptions)
    → Costs (suc (length waits)) (exec_chat c waits chat options)
unfolding exec_chat is_stuck
exec_chat-Costs c [] chat options =
    then-Costs 1 0 (ask c chat options) (λ o. retry o (raise provider_failed))
      (ask-Costs c chat options)
      (λ o. retry_lem o (raise provider_failed) 0 (λ s. ((refl, refl, refl, omega arith), refl))) _
      refl
exec_chat-Costs c (wait ∷ waits) chat options =
    then-Costs 1 (suc (length waits)) (ask c chat options)
      (λ o. retry o (exec_chat c waits chat options)) (ask-Costs c chat options)
      (λ o.
        retry_lem o (exec_chat c waits chat options) (suc (length waits))
          (exec_chat-Costs c waits chat options))
      _ (omega arith)

respond-Costs : (call : ToolCall) (result : Text) → Costs 0 (respond call result)
unfolding respond
respond-Costs call result s = (refl, refl, refl, omega arith)

open_calls-Costs : (calls : List ToolCall) → Costs 0 (open_calls calls)
unfolding open_calls
open_calls-Costs calls s = (refl, refl, refl, omega arith)

refuse_each-Costs : (refusal : Text) (calls : List ToolCall) → Costs 0 (refuse_each refusal calls)
unfolding refuse_each
refuse_each-Costs refusal [] = idle
refuse_each-Costs refusal (call ∷ calls) =
    then-Costs 0 0 (respond call refusal) (λ _. refuse_each refusal calls)
      (respond-Costs call refusal) (λ _. refuse_each-Costs refusal calls) 0 refl

refuse-Costs : (calls : List ToolCall) (refusal : Text) → Costs 0 (refuse calls refusal)
unfolding refuse
refuse-Costs calls refusal =
    then-Costs 0 0 (open_calls calls) (λ _. refuse_each refusal calls) (open_calls-Costs calls)
      (λ _. refuse_each-Costs refusal calls) 0 refl

failed-Costs : (c : Setup) (call : ToolCall) (reason : Text) → Costs 0 (failed c call reason)
unfolding failed is_stuck
failed-Costs c call reason s = ground arith

told-Costs :
    (c : Setup) (call : ToolCall) (outcome : Result ToolOutcome Halt)
    → Costs 0 (told c call outcome)
unfolding told is_stuck
told-Costs c call (err host_failed) s = ((refl, refl, refl, omega arith), refl)
told-Costs c call (err overdue) s = ((refl, refl, refl, omega arith), refl)
told-Costs c call (ok (ok output)) s = (refl, refl, refl, omega arith)
told-Costs c call (ok (err reason)) s = failed-Costs c call (truncate reason max_result_bytes) s

run_tool-Costs : (c : Setup) (call : ToolCall) → Costs 0 (run_tool c call)
unfolding run_tool asks checks
run_tool-Costs c call s = (refl, refl, refl, omega arith)

run_each-Costs : (c : Setup) (calls : List ToolCall) → Costs 0 (run_each c calls)
unfolding run_each
run_each-Costs c [] = idle
run_each-Costs c (call ∷ calls) =
    then-Costs 0 0 (run_tool c call) _ (run_tool-Costs c call)
      (λ outcome.
        then-Costs 0 0 (told c call outcome) _ (told-Costs c call outcome)
          (λ result.
            then-Costs 0 0 (respond call result) _ (respond-Costs call result)
              (λ _. run_each-Costs c calls) 0 refl)
          0 refl)
      0 refl

dispatch-Costs :
    (c : Setup) (due cut : Bool) (calls : List ToolCall) → Costs 0 (dispatch c due cut calls)
unfolding dispatch tool_round
dispatch-Costs c true cut calls = refuse-Costs calls refused_in_closing
dispatch-Costs c false true calls =
    refuse-Costs calls (refused_when_cut (or_zero c.options.max_tokens))
dispatch-Costs c false false calls =
    then-Costs 0 0 (open_calls calls) (λ _. run_each c calls) (open_calls-Costs calls)
      (λ _. run_each-Costs c calls) 0 refl
