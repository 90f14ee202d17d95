-- ===== src/GenAi/Conversation.antt =====
-- crates/genai/src/conversation.rs: the bounded conversation with a provider's model.
--
-- `Setup` holds the fields that no method writes, `State` the others, with a log of every call of the
-- provider, the tools and the guest, the latest first. The bound on a reply is the outcome `elapsed` or
-- `overdue` of a call inside it. Where the code takes its chat out while tools run, an error leaves the
-- chat of that moment, which nothing reads.
pub mod Round
pub mod Run
pub mod Budget
pub mod Dialogue
pub mod Tests
use mathlib.Core.Option
use omnia_backends.Base.{
  ℕ, zero, suc, ◌+◌, Bool, true, false, ◌&&◌, ◌||◌, not, Option, none, some, List, [], ◌∷◌, ◌++◌,
  map, leb, ltb, ◌==◌, if◌then◌else◌,
}
use omnia_backends.Base.Results.{Result, ok, err}
use omnia_backends.Base.Machine.{Machine, ◌>>=◌, ◌>>◌, pure, raise, observe, modify}
use omnia_backends.Base.Map.{Map}
use omnia_backends.Base.Map
use omnia_backends.Base.Order.{nat_ord}
use omnia_backends.Base.Text.{codes, decimal, join}
use omnia_backends.GenAi.Chat.{
  Text, ToolCall, Message, assistant, user, tool_calls, tool_response, ChatRequest, ChatOptions,
  json_mode, ChatResponse, CallError, transport, refused, elapsed, Halt, host_failed, overdue,
  ToolOutcome, Verdict, Act, asked, ran, checked, Format, plain, json, schema, World, Budgets,
  Validator,
}
use omnia_backends.GenAi.Truncate.{truncate}

pub record ToolTurn : Type 0 where
  pub tool : Text
  pub arguments : Text
  pub result : Text

pub record Answer : Type 0 where
  pub answer_text : Text
  pub transcript : List ToolTurn

pub record Setup : Type 0 where
  pub world : World
  pub options : ChatOptions
  pub format : Format
  pub validator : Option Validator
  pub checking : Bool
  pub budgets : Budgets

pub record State : Type 0 where
  pub chat : ChatRequest
  pub round : ℕ
  pub candidates : ℕ
  pub repeats : Map ℕ ℕ
  pub nudged : Bool
  pub transcript : List ToolTurn
  pub log : List Act

pub data Error : Type 0 where
  timed_out provider_failed no_content no_host stuck : Error
  budget_exhausted : Text → Error

abbrev pub M : Type 0 → Type 0
M A = Machine State Error A

abbrev pub max_result_bytes : ℕ
max_result_bytes = 65536

abbrev pub repeat_note_from : ℕ
repeat_note_from = 3

-- `TRANSPORT_RETRY_WAITS`, in seconds.
abbrev pub transport_retry_waits : List ℕ
transport_retry_waits = 1 ∷ 5 ∷ 15 ∷ []

unfoldable pub has_tools : Option (List Text) → Bool
has_tools (some (t ∷ ts)) = true
has_tools _ = false

unfoldable pub append_message : Message → ChatRequest → ChatRequest
append_message m chat = record chat { messages = chat.messages ++ m ∷ [] }

unfoldable pub by_bill : Option ℕ → Option ℕ → Bool
by_bill (some bound) (some spent) = leb bound spent
by_bill _ _ = false

unfoldable pub at_path : Text × Text → Text
at_path ([], fault) = fault
at_path (c ∷ path, fault) = codes "at `" ++ (c ∷ path ++ (codes "`: " ++ fault))

unfoldable pub ill_formed : Text → Text
ill_formed fault =
    codes "Your last reply is not one well-formed JSON value ("
    ++ (fault
        ++ codes
            "), so it is not the answer. Reply now with only your final answer as a single JSON value in the shape the prompt asked for, and nothing else.")

unfoldable pub misshapen : List (Text × Text) → Text
misshapen faults =
    codes "Your last reply is JSON but not in the shape the prompt asked for ("
    ++ (join (codes "; ") (map at_path faults)
        ++ codes
            "), so it is not the answer. Reply now with only your final answer as a single JSON value in exactly that shape, and nothing else.")

unfoldable pub shape_faults : Option Validator → Text → Option Text
shape_faults none value = none
shape_faults (some validator) value = elim (validator value) [
  | [] ↦ none
  | fault ∷ faults ↦ some (misshapen (fault ∷ faults))
]

unfoldable pub refused_in_closing : Text
refused_in_closing =
    codes
      "not run: your final answer is due now. Reply with only your final answer as a single JSON value in the shape the prompt asked for, and nothing else."

unfoldable pub refused_when_cut : ℕ → Text
refused_when_cut bound =
    codes "not run: your reply ran to the cap of "
    ++ (decimal bound
        ++ codes
            " tokens and was cut there, so the arguments of this call did not arrive as you wrote them. Send smaller calls, fewer files or edits a call and each shorter, so one reply stays within the cap.")

unfoldable pub failure_text : Text → Text → Text
failure_text name reason = codes "tool `" ++ (name ++ (codes "` failed: " ++ reason))

unfoldable pub repeated_text : Text → ℕ → Text → Text
repeated_text name count reason =
    codes "tool `"
    ++ (name
        ++ (codes "` failed "
            ++ (decimal count ++ (codes " times with the same arguments: " ++ reason))))

unfoldable pub repeat_note : ℕ → ℕ → Text
repeat_note count most =
    codes "\n\nThis exact call has now failed "
    ++ (decimal count
        ++ (codes
              " times, and the same call will fail the same way. Change the arguments or the approach: after "
            ++ (decimal most ++ codes " identical failures the task ends.")))

abbrev pub or_zero : Option ℕ → ℕ
or_zero none = 0
or_zero (some n) = n

-- The calls of what lies outside, each with its entry in the log.
module _ (c : Setup) where
  unfoldable pub ask : ChatRequest → ChatOptions → M (Result ChatResponse CallError)
  ask chat options s =
      let outcome = c.world.provider s.log chat options in
      (ok outcome, record s { log = asked s.round s.nudged chat options outcome ∷ s.log })

  unfoldable pub run_tool : ToolCall → M (Result ToolOutcome Halt)
  run_tool call s =
      let outcome = c.world.host_call s.log call in
      (ok outcome, record s { log = ran call outcome ∷ s.log })

  unfoldable pub run_check : Text → M (Option Verdict)
  run_check candidate s =
      let verdict = c.world.ask_guest s.log candidate in
      (ok verdict, record s { log = checked candidate verdict ∷ s.log })

  unfoldable pub closing : State → Bool
  closing s = s.nudged || s.round == c.budgets.max_rounds

  -- The options half of `round_request`; the chat is the state's.
  unfoldable pub round_options : State → ChatOptions
  round_options s =
      let options =
        if s.nudged then record c.options { response_format = some json_mode } else c.options in
      if closing s && has_tools s.chat.tools then record options { no_tools = true } else options

  unfoldable pub is_cut : ChatResponse → Bool
  is_cut response =
      response.is_max_tokens || by_bill c.options.max_tokens response.completion_tokens
