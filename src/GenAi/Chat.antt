-- ===== src/GenAi/Chat.antt =====
-- What crates/genai/src/conversation.rs exchanges with the provider, the tools and the guest: the parts of the
-- genai crate's chat that the loop reads and writes, and what happens outside it.
--
-- Texts are byte strings, and a JSON value is its text. The fields of an option set that the loop
-- passes on unread, and the usage it reports, are left out.
use omnia_backends.Base.{ℕ, Bool, Option, List}
use omnia_backends.Base.Results.{Result}

abbrev pub Text : Type 0
Text = List ℕ

pub record ToolCall : Type 0 where
  pub call_id : Text
  pub fn_name : Text
  pub fn_arguments : Text

pub data Message : Type 0 where
  system assistant user : Text → Message
  tool_calls : List ToolCall → Message
  tool_response : Text → Text → Message

pub record ChatRequest : Type 0 where
  pub messages : List Message
  pub tools : Option (List Text)

pub data ResponseFormat : Type 0 where
  json_mode : ResponseFormat
  json_spec : Text → ResponseFormat

pub record ChatOptions : Type 0 where
  pub max_tokens : Option ℕ
  pub response_format : Option ResponseFormat
  -- `ToolChoice::None`
  pub no_tools : Bool

pub record ChatResponse : Type 0 where
  pub first_text : Option Text
  pub calls : List ToolCall
  pub is_max_tokens : Bool
  -- the tokens billed for the reply, none where they are missing or negative
  pub completion_tokens : Option ℕ

-- How a request to the provider fails: before any reply, with an answer, or by the reply's bound.
pub data CallError : Type 0 where
  transport refused elapsed : CallError

-- How a call of a tool ends the completion.
pub data Halt : Type 0 where
  host_failed overdue : Halt

-- What a tool said: its output, or a failure that the model reads.
abbrev pub ToolOutcome : Type 0
ToolOutcome = Result Text Text

-- What the guest said of a candidate: nothing against it, or a correction.
abbrev pub Verdict : Type 0
Verdict = Result (Unit {0}) Text

-- A call of what lies outside the loop, with its outcome. A request notes the round it was made in, and
-- whether the reply had been nudged by then.
pub data Act : Type 0 where
  asked : ℕ → Bool → ChatRequest → ChatOptions → Result ChatResponse CallError → Act
  ran : ToolCall → Result ToolOutcome Halt → Act
  checked : Text → Option Verdict → Act

pub data Format : Type 0 where
  plain json : Format
  schema : Text → Format

-- The provider, the tools, the guest and the clock answer as they like: by all that went before.
pub record World : Type 0 where
  pub provider : List Act → ChatRequest → ChatOptions → Result ChatResponse CallError
  pub host_call : List Act → ToolCall → Result ToolOutcome Halt
  -- none where the host fails
  pub ask_guest : List Act → Text → Option Verdict
  -- the hash of a call's name and arguments
  pub identity : ToolCall → ℕ
  -- `Format::candidate`, and the JSON parser with its fault
  pub candidate : Format → Text → Text
  pub from_str : Text → Result Text Text

pub record Budgets : Type 0 where
  pub max_rounds : ℕ
  pub max_candidates : ℕ
  pub max_repeats : ℕ

-- A schema's errors for a value: the path and the fault of each.
abbrev pub Validator : Type 0
Validator = Text → List (Text × Text)
