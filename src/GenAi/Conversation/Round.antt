-- ===== src/GenAi/Conversation/Round.antt =====
-- One round: the provider's reply with its retries, and the tool calls of it, run or refused.
use omnia_backends.Base.{
  ℕ, zero, suc, Bool, true, false, Option, none, some, List, [], ◌∷◌, ◌++◌, ltb, leb, if◌then◌else◌,
}
use omnia_backends.Base.Results.{Result, ok, err}
use omnia_backends.Base.Machine.{◌>>=◌, ◌>>◌, pure, raise, observe, modify}
use omnia_backends.Base.Map
use omnia_backends.Base.Order.{nat_ord}
use omnia_backends.GenAi.Chat.{
  Text, ToolCall, tool_calls, tool_response, ChatRequest, ChatOptions, ChatResponse, CallError,
  transport, refused, elapsed, Halt, host_failed, overdue, ToolOutcome,
}
use omnia_backends.GenAi.Truncate.{truncate}
use omnia_backends.GenAi.Conversation.{
  Setup, timed_out, provider_failed, no_content, no_host, stuck, budget_exhausted, M,
  max_result_bytes, repeat_note_from, transport_retry_waits, append_message, refused_in_closing,
  refused_when_cut, failure_text, repeated_text, repeat_note, or_zero, ask, run_tool, closing,
  round_options, is_cut,
}

-- A failed call of the provider: put again where it failed at the transport and a wait is left.
unfoldable pub retry : Result ChatResponse CallError → M ChatResponse → M ChatResponse
retry (ok response) again = pure response
retry (err transport) again = again
retry (err refused) again = raise provider_failed
retry (err elapsed) again = raise timed_out

-- A call's message and turn, after its result.
unfoldable pub respond : ToolCall → Text → M (Unit {0})
respond call result = modify (λ s. record s {
  transcript =
      s.transcript
      ++ record { tool = call.fn_name; arguments = call.fn_arguments; result = result } ∷ [];
  chat = append_message (tool_response call.call_id result) s.chat;
})

unfoldable pub open_calls : List ToolCall → M (Unit {0})
open_calls calls = modify (λ s. record s { chat = append_message (tool_calls calls) s.chat })

unfoldable pub refuse_each : Text → List ToolCall → M (Unit {0})
refuse_each refusal [] = pure tt
refuse_each refusal (call ∷ calls) = do respond call refusal; refuse_each refusal calls

unfoldable pub refuse : List ToolCall → Text → M (Unit {0})
refuse calls refusal = do open_calls calls; refuse_each refusal calls

module _ (c : Setup) where
  unfoldable pub exec_chat : List ℕ → ChatRequest → ChatOptions → M ChatResponse
  exec_chat [] chat options = do outcome ← ask c chat options; retry outcome (raise provider_failed)
  exec_chat (wait ∷ waits) chat options = do
    outcome ← ask c chat options
    retry outcome (exec_chat waits chat options)

  unfoldable pub failed : ToolCall → Text → M Text
  failed call reason = do
    let id = c.world.identity call
    before ← observe (λ s. or_zero (Map.get id s.repeats))
    let count = suc before
    modify (λ s. record s { repeats = Map.insert id count s.repeats })
    let result = failure_text call.fn_name reason
    if leb c.budgets.max_repeats count
        then raise (budget_exhausted (repeated_text call.fn_name count reason))
        else if ltb count repeat_note_from
        then pure result
        else pure (result ++ repeat_note count c.budgets.max_repeats)

  -- The result that a call's outcome is told with.
  unfoldable pub told : ToolCall → Result ToolOutcome Halt → M Text
  told call (err host_failed) = raise no_host
  told call (err overdue) = raise timed_out
  told call (ok (ok output)) = do
    modify (λ s. record s { repeats = Map.remove (c.world.identity call) s.repeats })
    pure (truncate output max_result_bytes)
  told call (ok (err reason)) = failed call (truncate reason max_result_bytes)

  unfoldable pub run_each : List ToolCall → M (Unit {0})
  run_each [] = pure tt
  run_each (call ∷ calls) = do
    outcome ← run_tool c call
    result ← told call outcome
    respond call result
    run_each calls

  unfoldable pub tool_round : List ToolCall → M (Unit {0})
  tool_round calls = do open_calls calls; run_each calls

  unfoldable pub dispatch : Bool → Bool → List ToolCall → M (Unit {0})
  dispatch true cut calls = refuse calls refused_in_closing
  dispatch false true calls = refuse calls (refused_when_cut (or_zero c.options.max_tokens))
  dispatch false false calls = tool_round calls

  unfoldable pub reply_content : Option Text → M (Option Text)
  reply_content none = raise no_content
  reply_content (some text) = pure (some text)

  -- After the reply: its text, or its tool calls and the rounds behind them.
  unfoldable pub take_reply :
      M (Option Text) → Bool → Bool → Option Text → List ToolCall → M (Option Text)
  take_reply again due cut text [] = reply_content text
  take_reply again due cut text (call ∷ calls) = do dispatch due cut (call ∷ calls); again

  unfoldable pub attempt : M (Option Text) → M (Option Text)
  attempt again = do
    modify (λ s. record s { round = suc s.round })
    due ← observe (closing c)
    chat ← observe (λ s. s.chat)
    options ← observe (round_options c)
    response ← exec_chat transport_retry_waits chat options
    take_reply again due (is_cut c response) response.first_text response.calls

  -- The loop, on fuel: as many rounds as the budget has left, and one more look at it.
  unfoldable pub next_reply : ℕ → M (Option Text)
  next_reply zero = raise stuck
  next_reply (suc fuel) = do
    more ← observe (λ s. ltb s.round c.budgets.max_rounds)
    if more then attempt (next_reply fuel) else pure none
