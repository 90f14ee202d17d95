-- ===== src/Cursor/Wire.antt =====
-- crates/cursor/src/protocol.rs, the messages of `sdk.v1` and their JSON: a writer for each request, a reader for
-- each response, as the derived `Serialize` and `Deserialize` have them.
--
-- A reader takes an object, as the process sends, and not the array of fields that serde takes too. A
-- run's status is read from a name or a number; the log lines' and the `Debug` forms are left out.
pub mod Readers
pub mod Numbers
use mathlib.Core.Option
use omnia_backends.Base.{
  ℕ, Bool, true, false, Option, none, some, List, [], ◌∷◌, ◌++◌, map, if◌then◌else◌,
}
use omnia_backends.Base.Map.{Map}
use omnia_backends.Base.Strings.{Text}
use omnia_backends.Base.Text.{codes}
use omnia_backends.Base.Json.{
  ℤ, pos, integer, Json, number, string, array, object, fields_of, items_of,
}

pub record CustomToolDefinition : Type 0 where
  pub description : Option Text
  pub input_schema : Json

pub record LocalAgentOptions : Type 0 where
  pub cwd : List Text
  pub source : Option Text
  pub custom_tools : Map Text CustomToolDefinition

-- The URL of an `McpServerConfig::streamable_http`.
pub record McpServerConfig : Type 0 where
  pub url : Text

pub record AgentOptions : Type 0 where
  -- `ModelSelection::id`
  pub model : Text
  pub api_key : Text
  pub local : LocalAgentOptions
  pub mcp_servers : Map Text McpServerConfig
  pub tools : Option (List Text)

pub record AgentOperationOptions : Type 0 where
  pub directory : Text
  pub key : Text

pub data RpcRequest : Type 0 where
  ping_request get_version_request : RpcRequest
  -- the grace in seconds
  shutdown_request : ℕ → RpcRequest
  create_agent_request : AgentOptions → RpcRequest
  -- the run and the agent
  cancel_run_request : Text → Text → RpcRequest
  close_agent_request get_usage_request : Text → RpcRequest
  delete_agent_request : Text → AgentOperationOptions → RpcRequest
  -- the agent and the text
  send_request : Text → Text → RpcRequest

unfoldable pub record_of : List (Text × Json) → Json
record_of members = object (fields_of members)

unfoldable pub strings : List Text → Json
strings texts = array (items_of (map string texts))

-- `skip_serializing_if` of an option and of a map.
unfoldable pub unless_none : {A : Type 0} → Text → (A → Json) → Option A → List (Text × Json)
unless_none key write none = []
unless_none key write (some a) = (key, write a) ∷ []

unfoldable pub entries : {A : Type 0} → (A → Json) → Map Text A → List (Text × Json)
entries write [] = []
entries write ((key, a) ∷ m) = (key, write a) ∷ entries write m

unfoldable pub unless_empty : {A : Type 0} → Text → (A → Json) → Map Text A → List (Text × Json)
unless_empty key write [] = []
unless_empty key write (entry ∷ m) = (key, record_of (entries write (entry ∷ m))) ∷ []

unfoldable pub tool_json : CustomToolDefinition → Json
tool_json tool = record_of (
    unless_none (codes "description") string tool.description
    ++ (codes "inputSchema", tool.input_schema) ∷ [])

unfoldable pub local_json : LocalAgentOptions → Json
local_json options = record_of (
    (codes "cwd", strings options.cwd)
    ∷ (unless_none (codes "source") string options.source
        ++ unless_empty (codes "customTools") tool_json options.custom_tools))

unfoldable pub server_json : McpServerConfig → Json
server_json server = record_of (
    (
      codes "http",
      record_of (
          (codes "type", string (codes "HTTP_MCP_TRANSPORT_TYPE_HTTP"))
          ∷ (codes "url", string server.url)
          ∷ []),
    )
    ∷ [])

unfoldable pub tool_list : List Text → Json
tool_list names = record_of ((codes "names", strings names) ∷ [])

unfoldable pub options_json : AgentOptions → Json
options_json options = record_of (
    (codes "model", record_of ((codes "id", string options.model) ∷ []))
    ∷ (codes "apiKey", string options.api_key)
    ∷ (codes "local", local_json options.local)
    ∷ (unless_empty (codes "mcpServers") server_json options.mcp_servers
        ++ unless_none (codes "tools") tool_list options.tools))

unfoldable pub operation_json : AgentOperationOptions → Json
operation_json options =
    record_of ((codes "cwd", string options.directory) ∷ (codes "apiKey", string options.key) ∷ [])

unfoldable pub request_json : RpcRequest → Json
request_json ping_request = record_of []
request_json get_version_request = record_of []
request_json (shutdown_request grace) =
    record_of ((codes "graceSeconds", number (integer (pos grace))) ∷ [])
request_json (create_agent_request options) =
    record_of ((codes "options", options_json options) ∷ [])
request_json (cancel_run_request run agent) =
    record_of ((codes "runId", string run) ∷ (codes "agentId", string agent) ∷ [])
request_json (close_agent_request agent) = record_of ((codes "agentId", string agent) ∷ [])
request_json (get_usage_request agent) = record_of ((codes "agentId", string agent) ∷ [])
request_json (delete_agent_request agent options) =
    record_of ((codes "agentId", string agent) ∷ (codes "options", operation_json options) ∷ [])
request_json (send_request agent text) = record_of (
    (codes "agentId", string agent)
    ∷ (codes "message", record_of ((codes "text", string text) ∷ []))
    ∷ [])

-- The `Service/Method` of each procedure.
unfoldable pub procedure : RpcRequest → Text
procedure ping_request = codes "SdkBridgeControlService/Ping"
procedure get_version_request = codes "SdkBridgeControlService/GetVersion"
procedure (shutdown_request grace) = codes "SdkBridgeControlService/Shutdown"
procedure (create_agent_request options) = codes "SdkAgentService/CreateAgent"
procedure (cancel_run_request run agent) = codes "SdkAgentService/CancelRun"
procedure (close_agent_request agent) = codes "SdkAgentService/CloseAgent"
procedure (get_usage_request agent) = codes "SdkAgentService/GetUsage"
procedure (delete_agent_request agent options) = codes "SdkAgentService/DeleteAgent"
procedure (send_request agent text) = codes "SdkAgentService/Send"
