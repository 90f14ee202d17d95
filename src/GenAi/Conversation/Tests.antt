-- ===== src/GenAi/Conversation/Tests.antt =====
-- A conversation in full: a tool call, a failed transport, a candidate the guest rejects and one it passes.
use omnia_backends.Base.{◌≡◌, ◌≤◌, ◌*◌, refl, true, false, Option, none, some, List, [], ◌∷◌, arith}
use omnia_backends.Base.Results.{Result, ok, err}
use omnia_backends.Base.Machine.{Post}
use omnia_backends.Base.Text.{codes}
use omnia_backends.GenAi.Chat.{
  Text, ToolCall, user, ChatRequest, ChatResponse, CallError, transport, Verdict, Act, checked,
  plain, World,
}
use omnia_backends.GenAi.Truncate.{truncate}
use omnia_backends.GenAi.Truncate.Bounds.{Cut, truncate-Cut}
use omnia_backends.GenAi.Conversation.{Setup}
use omnia_backends.GenAi.Conversation.Run.{complete}
use omnia_backends.GenAi.Conversation.Budget.{asks, checks, is_stuck}
use omnia_backends.GenAi.Conversation.Budget.Whole.{limit, complete-Ends, complete-Spends}
use omnia_backends.GenAi.Conversation.Dialogue.{Settled, said, silence, is_speech}
use omnia_backends.GenAi.Conversation.Dialogue.Whole.{complete-Passed}

abbrev a_call : ToolCall
a_call = record { call_id = codes "c1"; fn_name = codes "read"; fn_arguments = codes "{}" }

abbrev a_reply : Option Text → List ToolCall → Result ChatResponse CallError
a_reply text calls =
    ok
      (record { first_text = text; calls = calls; is_max_tokens = false; completion_tokens = none })

abbrev replies : List Act → Result ChatResponse CallError
replies [] = a_reply none (a_call ∷ [])
replies (a ∷ b ∷ []) = err transport
replies (a ∷ b ∷ c ∷ []) = a_reply (some (codes "bad")) []
replies _ = a_reply (some (codes "good")) []

abbrev verdicts : List Act → Option Verdict
verdicts (a ∷ b ∷ c ∷ d ∷ []) = some (err (codes "fix it"))
verdicts _ = some (ok tt)

abbrev a_world : World
a_world = record {
  provider = λ log chat options. replies log;
  host_call = λ log call. ok (ok (codes "contents"));
  ask_guest = λ log candidate. verdicts log;
  identity = λ call. 7;
  candidate = λ format text. text;
  from_str = λ text. ok text;
}

abbrev a_setup : Setup
a_setup = record {
  world = a_world;
  options = record { max_tokens = none; response_format = none; no_tools = false };
  format = plain;
  validator = none;
  checking = true;
  budgets = record { max_rounds = 5; max_candidates = 3; max_repeats = 5 };
}

abbrev a_chat : ChatRequest
a_chat = record { messages = user (codes "hi") ∷ []; tools = some (codes "read" ∷ []) }

a_chat-Settled : Settled a_chat
unfolding is_speech
a_chat-Settled = said silence (user (codes "hi")) refl

complete-Ends_example : Post (λ _ _. Unit) (λ e _. is_stuck e ≡ false) (complete a_setup a_chat)
complete-Ends_example = complete-Ends a_setup a_chat

complete-Spends_example :
    ((complete a_setup a_chat).1.round ≤ 5)
    × (asks (complete a_setup a_chat).1.log ≤ 4 * (complete a_setup a_chat).1.round)
    × (checks (complete a_setup a_chat).1.log ≤ limit a_setup)
complete-Spends_example = complete-Spends a_setup a_chat

complete-Passed_example :
    Post
      (λ a s. (before : List Act) × (s.log ≡ checked a.answer_text (some (ok tt)) ∷ before))
      (λ _ _. Unit)
      (complete a_setup a_chat)
complete-Passed_example = complete-Passed a_setup a_chat refl a_chat-Settled

truncate-Cut_example : Cut (codes "abcdef") (truncate (codes "abcdef") 5) 5
truncate-Cut_example = truncate-Cut (codes "abcdef") 5 (omega arith)
