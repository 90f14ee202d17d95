-- ===== src/GenAi/Conversation/Dialogue.antt =====
-- What the provider is sent and what it may set off: chats in which every tool call has its response,
-- and tools that run only on the calls of a whole reply to a request that allowed them.
pub mod Rounds
pub mod Whole
use omnia_backends.Base.{
  ℕ, zero, suc, ◌≡◌, refl, Bool, true, false, Option, none, some, List, [], ◌∷◌, ◌++◌, ◌⊎◌, inl,
  inr, ◌==◌,
}
use omnia_backends.Base.Results.{Result, ok, err}
use omnia_backends.GenAi.Chat.{
  Text, ToolCall, Message, system, assistant, user, tool_calls, tool_response, ChatRequest, Act,
  asked, ran, checked,
}
use omnia_backends.GenAi.Conversation.{Setup, is_cut}

unfoldable pub is_speech : Message → Bool
is_speech (system text) = true
is_speech (assistant text) = true
is_speech (user text) = true
is_speech (tool_calls calls) = false
is_speech (tool_response id result) = false

-- The messages of a chat, and the calls at its end that wait for their responses, in order.
pub data Awaits : List Message → List ToolCall → Type 0 where
  silence : Awaits [] []
  said :
      {ms : List Message}
      → Awaits ms []
      → (m : Message) → is_speech m ≡ true
      → Awaits (ms ++ m ∷ []) []
  opened :
      {ms : List Message}
      → Awaits ms []
      → (calls : List ToolCall) → Awaits (ms ++ tool_calls calls ∷ []) calls
  responded :
      {ms : List Message} {call : ToolCall} {calls : List ToolCall}
      → Awaits ms (call ∷ calls)
      → (result : Text) → Awaits (ms ++ tool_response call.call_id result ∷ []) calls

abbrev pub Settled : ChatRequest → Type 0
Settled chat = Awaits chat.messages []

abbrev pub Among : ToolCall → List ToolCall → Type 0
Among x [] = ⊥
Among x (y ∷ ys) = (x ≡ y) ⊎ Among x ys

-- A call of the reply that was the last before it: a whole reply, in a round that was neither the last of the
-- budget nor after a nudge, to a request with the options as they were set.
unfoldable pub Licensed : Setup → List Act → ToolCall → Type 0
Licensed c [] call = ⊥
Licensed c (asked round nudged chat options (ok response) ∷ log) call =
    ((round == c.budgets.max_rounds) ≡ false)
    × (nudged ≡ false)
    × (options ≡ c.options)
    × (is_cut c response ≡ false)
    × Among call response.calls
Licensed c (asked round nudged chat options (err e) ∷ log) call = ⊥
Licensed c (ran other outcome ∷ log) call = Licensed c log call
Licensed c (checked candidate verdict ∷ log) call = ⊥

-- A log, the latest call first, of settled chats and licensed tool calls.
unfoldable pub Proper : Setup → List Act → Type 0
Proper c [] = Unit
Proper c (asked round nudged chat options outcome ∷ log) = Settled chat × Proper c log
Proper c (ran call outcome ∷ log) = Licensed c log call × Proper c log
Proper c (checked candidate verdict ∷ log) = Proper c log
