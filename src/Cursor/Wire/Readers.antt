-- ===== src/Cursor/Wire/Readers.antt =====
-- The readers of what the process answers.
use mathlib.Core.Option
use omnia_backends.Base.{
  ℕ, zero, suc, Bool, ◌&&◌, not, Option, none, some, List, [], ◌∷◌, if◌then◌else◌, is_some,
}
use omnia_backends.Base.Strings.{Text}
use omnia_backends.Base.Order.{bytes_ord, same}
use omnia_backends.Base.Text.{codes}
use omnia_backends.Base.Integers.{parse_i64, as_i64}
use omnia_backends.Base.Json.{
  ℤ, pos, integer, Json, null, number, string, array, object, Items, last_item, item, Fields,
  lookup,
}

infixl 5 ◌>>=◌
abbrev ◌>>=◌ : {A B : Type 0} → Option A → (A → Option B) → Option B
none >>= f = none
some a >>= f = f a

unfoldable pub fields_in : Json → Option Fields
fields_in (object fs) = some fs
fields_in _ = none

-- A field with its default: missing, it is the default, of another type, the message is unreadable.
unfoldable pub or_default : {A : Type 0} → A → (Json → Option A) → Option Json → Option A
or_default a read none = some a
or_default a read (some value) = read value

-- An `Option` field: `null` is none.
unfoldable pub nullable : {A : Type 0} → (Json → Option A) → Json → Option (Option A)
nullable read null = some none
nullable read value = Option.map some (read value)

unfoldable pub text_of : Json → Option Text
text_of (string t) = some t
text_of _ = none

unfoldable pub texts_in : Items → Option (List Text)
texts_in last_item = some []
texts_in (item value rest) = do t ← text_of value; ts ← texts_in rest; some (t ∷ ts)

unfoldable pub texts_of : Json → Option (List Text)
texts_of (array values) = texts_in values
texts_of _ = none

unfoldable pub any_of : Json → Option Json
any_of value = some value

pub record GetVersionResponse : Type 0 where
  pub protocol_version : Text
  pub capabilities : List Text

unfoldable pub version_of : Json → Option GetVersionResponse
version_of value = do
  fs ← fields_in value
  version ← or_default [] text_of (lookup (codes "protocolVersion") fs)
  capabilities ← or_default [] texts_of (lookup (codes "capabilities") fs)
  some (record { protocol_version = version; capabilities = capabilities })

-- `CreateAgentResponse`, its agent's id.
unfoldable pub created_of : Json → Option Text
created_of value = do fs ← fields_in value; or_default [] text_of (lookup (codes "agentId") fs)

pub data RunStatus : Type 0 where
  unspecified creating running finished error cancelled expired unknown : RunStatus

unfoldable pub status_named : Text → RunStatus
status_named name =
    if same name (codes "RUN_LIFECYCLE_STATUS_UNSPECIFIED")
    then unspecified
    else if same name (codes "RUN_LIFECYCLE_STATUS_CREATING")
    then creating
    else if same name (codes "RUN_LIFECYCLE_STATUS_RUNNING")
    then running
    else if same name (codes "RUN_LIFECYCLE_STATUS_FINISHED")
    then finished
    else if same name (codes "RUN_LIFECYCLE_STATUS_ERROR")
    then error
    else if same name (codes "RUN_LIFECYCLE_STATUS_CANCELLED")
    then cancelled
    else if same name (codes "RUN_LIFECYCLE_STATUS_EXPIRED")
    then expired
    else unknown

-- `BY_NUMBER`
abbrev pub by_number : List RunStatus
by_number = unspecified ∷ creating ∷ running ∷ finished ∷ error ∷ cancelled ∷ expired ∷ []

unfoldable pub nth_or_unknown : ℕ → List RunStatus → RunStatus
nth_or_unknown n [] = unknown
nth_or_unknown zero (s ∷ rest) = s
nth_or_unknown (suc n) (s ∷ rest) = nth_or_unknown n rest

unfoldable pub run_status : Json → RunStatus
run_status (string name) = status_named name
run_status (number (integer (pos n))) = nth_or_unknown n by_number
run_status _ = unknown

unfoldable pub lenient_i64 : Json → Option ℤ
lenient_i64 (number n) = as_i64 n
lenient_i64 (string text) = parse_i64 text
lenient_i64 _ = none

unfoldable pub flexible_i64_opt : Option Json → Option ℤ
flexible_i64_opt none = none
flexible_i64_opt (some value) = lenient_i64 value

unfoldable pub flexible_i64 : Option Json → ℤ
flexible_i64 value = elim (flexible_i64_opt value) [ none ↦ pos 0 | some n ↦ n ]

pub record TokenUsage : Type 0 where
  pub input_tokens : ℤ
  pub output_tokens : ℤ
  pub reasoning_tokens : Option ℤ
  pub cache_read_tokens : Option ℤ
  pub cache_write_tokens : Option ℤ
  pub total_tokens : Option ℤ

unfoldable pub usage_of : Json → Option TokenUsage
usage_of value = do
  fs ← fields_in value
  some (record {
    input_tokens = flexible_i64 (lookup (codes "inputTokens") fs);
    output_tokens = flexible_i64 (lookup (codes "outputTokens") fs);
    reasoning_tokens = flexible_i64_opt (lookup (codes "reasoningTokens") fs);
    cache_read_tokens = flexible_i64_opt (lookup (codes "cacheReadTokens") fs);
    cache_write_tokens = flexible_i64_opt (lookup (codes "cacheWriteTokens") fs);
    total_tokens = flexible_i64_opt (lookup (codes "totalTokens") fs);
  })

-- `AgentUsage` and, the same in a `usage` of its own, `GetUsageResponse`.
unfoldable pub agent_usage_of : Json → Option (Option TokenUsage)
agent_usage_of value = do
  fs ← fields_in value
  or_default none (nullable usage_of) (lookup (codes "usage") fs)

unfoldable pub get_usage_of : Json → Option (Option TokenUsage)
get_usage_of value = do
  fs ← fields_in value
  usage ← or_default none (nullable agent_usage_of) (lookup (codes "usage") fs)
  some (elim usage [ none ↦ none | some u ↦ u ])

pub record RunResult : Type 0 where
  pub result : Text
  pub usage : Option TokenUsage

unfoldable pub result_of : Json → Option RunResult
result_of value = do
  fs ← fields_in value
  result ← or_default [] text_of (lookup (codes "result") fs)
  usage ← or_default none (nullable usage_of) (lookup (codes "usage") fs)
  some (record { result = result; usage = usage })

pub record RunStreamResult : Type 0 where
  pub run_id : Text
  pub status : RunStatus
  pub error_code : Option Text
  pub result : Option RunResult

unfoldable pub status_of : Option Json → RunStatus
status_of none = unspecified
status_of (some value) = run_status value

unfoldable pub stream_result_of : Json → Option RunStreamResult
stream_result_of value = do
  fs ← fields_in value
  run ← or_default [] text_of (lookup (codes "runId") fs)
  code ← or_default none (nullable text_of) (lookup (codes "errorCode") fs)
  result ← or_default none (nullable result_of) (lookup (codes "result") fs)
  some (record {
    run_id = run;
    status = status_of (lookup (codes "status") fs);
    error_code = code;
    result = result;
  })

pub record SdkMessage : Type 0 where
  pub kind : Text
  pub message : Json

unfoldable pub sdk_message_of : Json → Option SdkMessage
sdk_message_of value = do
  fs ← fields_in value
  kind ← or_default [] text_of (lookup (codes "type") fs)
  message ← or_default null any_of (lookup (codes "message") fs)
  some (record { kind = kind; message = message })

-- `done` and `offset` say only whether they are there.
pub record RunStreamMessage : Type 0 where
  pub sdk_message : Option SdkMessage
  pub result : Option RunStreamResult
  pub done : Bool
  pub offset : Bool

unfoldable pub present : Text → Fields → Option Bool
present key fs = Option.map is_some (or_default none (nullable any_of) (lookup key fs))

unfoldable pub stream_message_of : Json → Option RunStreamMessage
stream_message_of value = do
  fs ← fields_in value
  message ← or_default none (nullable sdk_message_of) (lookup (codes "sdkMessage") fs)
  result ← or_default none (nullable stream_result_of) (lookup (codes "result") fs)
  done ← present (codes "done") fs
  offset ← present (codes "offset") fs
  some (record { sdk_message = message; result = result; done = done; offset = offset })

unfoldable pub is_keepalive : RunStreamMessage → Bool
is_keepalive m = not (is_some m.sdk_message) && not (is_some m.result) && not m.done && not m.offset

pub record ConnectStatus : Type 0 where
  pub code : Text
  pub message : Text

unfoldable pub no_status : ConnectStatus
no_status = record { code = codes "unknown"; message = [] }

unfoldable pub connect_status_of : Json → Option ConnectStatus
connect_status_of value = do
  fs ← fields_in value
  code ← or_default (codes "unknown") text_of (lookup (codes "code") fs)
  message ← or_default [] text_of (lookup (codes "message") fs)
  some (record { code = code; message = message })

-- `EndStreamResponse`, its error.
unfoldable pub end_stream_of : Json → Option (Option ConnectStatus)
end_stream_of value = do
  fs ← fields_in value
  or_default none (nullable connect_status_of) (lookup (codes "error") fs)
