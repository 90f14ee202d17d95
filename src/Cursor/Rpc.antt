-- ===== src/Cursor/Rpc.antt =====
-- crates/cursor/src/protocol.rs, the client: the calls of the process and the stream of a run.
--
-- The HTTP layer and the JSON codec are parameters, as are the parsers of URLs and addresses: `Http` answers
-- a request by what it is sent.
pub mod Messages
pub mod Delivery
pub mod Calls
pub mod Gone
pub mod Tests
use omnia_backends.Base.{
  ℕ, zero, suc, ◌+◌, Bool, true, false, ◌&&◌, ◌||◌, not, Option, none, some, List, [], ◌∷◌, ◌++◌,
  length, leb, ltb, any, ◌==◌, if◌then◌else◌,
}
use omnia_backends.Base.Results.{Result, ok, err, ◌>>=◌}
use omnia_backends.Base.Strings.{Text, to_ascii_lowercase, trim_matches, strip_prefix, strip_suffix}
use omnia_backends.Base.Order.{bytes_ord, same}
use omnia_backends.Base.Text.{codes}
use omnia_backends.Base.Json.{Json}
use omnia_backends.Cursor.Frames.{
  Bytes, RpcError, connect_failed, transport_failed, Error, rpc, other, gone_ok, Frame,
  is_end_stream, envelope, Piece, data_piece, trailers, broken, FrameStream, next_frame,
}
use omnia_backends.Cursor.Wire.{
  RpcRequest, ping_request, get_version_request, shutdown_request, create_agent_request,
  cancel_run_request, close_agent_request, get_usage_request, delete_agent_request, send_request,
  AgentOptions, AgentOperationOptions, request_json, procedure,
}
use omnia_backends.Cursor.Wire.Readers.{
  GetVersionResponse, version_of, created_of, TokenUsage, get_usage_of, RunStreamMessage,
  stream_message_of, is_keepalive, ConnectStatus, no_status, connect_status_of, end_stream_of,
}

-- `http::Uri`, as far as it is read.
pub record Uri : Type 0 where
  pub scheme : Option Text
  pub authority : Option Text
  pub host : Option Text

pub record Post : Type 0 where
  pub url : Text
  pub content_type : Text
  pub authorization : Text
  pub post_body : Bytes

pub record Response : Type 0 where
  pub status : ℕ
  pub body : List Piece

pub record Outside : Type 0 where
  -- whether `http` builds the request
  pub builds : Post → Bool
  -- `hyper`: none where the request is not answered
  pub request : Post → Option Response
  -- `serde_json::to_vec` and `from_slice`
  pub to_vec : Json → Bytes
  pub from_slice : Bytes → Option Json
  -- `String::from_utf8_lossy` and `trim`
  pub lossy_trimmed : Bytes → Text
  pub parse_uri : Text → Option Uri
  -- of an IP address: whether it is a loopback one
  pub parse_ip : Text → Option Bool

pub record Rpc : Type 0 where
  pub base : Text
  pub bearer : Text

unfoldable pub ensure : Bool → Text → Result (Unit {0}) Error
ensure true text = ok tt
ensure false text = err (other text)

unfoldable pub context : {A : Type 0} → Text → Option A → Result A Error
context text none = err (other text)
context text (some a) = ok a

-- The brackets of an IPv6 host, where it has both.
unfoldable pub unbracketed : Text → Text
unbracketed host = elim (strip_prefix (codes "[") host) [
  | none ↦ host
  | some inner ↦ elim (strip_suffix (codes "]") inner) [ none ↦ host | some name ↦ name ]
]

unfoldable pub is_http : Option Text → Bool
is_http none = false
is_http (some scheme) = same scheme (codes "http")

unfoldable pub has_userinfo : Option Text → Bool
has_userinfo none = false
has_userinfo (some authority) = any (λ c. c == 64) authority

unfoldable pub is_true : Option Bool → Bool
is_true none = false
is_true (some b) = b

unfoldable pub or_unknown : Option ConnectStatus → ConnectStatus
or_unknown none = no_status
or_unknown (some status) = status

unfoldable pub answered : Text → Option ℕ → ConnectStatus → RpcError
answered method status answer = connect_failed method status answer.code answer.message

unfoldable pub or_raw : Text → Text → Text
or_raw raw [] = raw
or_raw raw (c ∷ message) = c ∷ message

-- All the data of a body.
unfoldable pub collect : List Piece → Option Bytes
collect [] = some []
collect (broken ∷ body) = none
collect (trailers ∷ body) = collect body
collect (data_piece d ∷ body) = elim (collect body) [ none ↦ none | some rest ↦ some (d ++ rest) ]

unfoldable pub size_of : List Piece → ℕ
size_of [] = 0
size_of (data_piece d ∷ body) = length d + size_of body
size_of (trailers ∷ body) = size_of body
size_of (broken ∷ body) = size_of body

unfoldable pub read_body : Text → Text → List Piece → Result Bytes Error
read_body method doing body = elim (collect body) [
  | none ↦ err (rpc (transport_failed method doing))
  | some bytes ↦ ok bytes
]

unfoldable pub is_success : ℕ → Bool
is_success status = leb 200 status && ltb status 300

module _ (o : Outside) where
  unfoldable pub ensure_loopback : Text → Result (Unit {0}) Error
  ensure_loopback base = do
    uri ← context (codes "parsing sdk.v1 URL") (o.parse_uri base)
    http ←
        ensure (is_http uri.scheme)
          (codes "sdk.v1 URL must use the http scheme (the client has no TLS)")
    bare ← ensure (not (has_userinfo uri.authority)) (codes "sdk.v1 URL must not include userinfo")
    host ← context (codes "sdk.v1 URL must include a host") uri.host
    let name = unbracketed host
    ensure (same (to_ascii_lowercase name) (codes "localhost") || is_true (o.parse_ip name))
        (codes "sdk.v1 URL must target a loopback host")

  unfoldable pub parsed : {A : Type 0} → (Json → Option A) → Bytes → Option A
  parsed read bytes = elim (o.from_slice bytes) [ none ↦ none | some value ↦ read value ]

  -- `RpcError::unary`
  unfoldable pub unary_error : Text → ℕ → Bytes → RpcError
  unary_error method status body =
      let answer = or_unknown (parsed connect_status_of body) in
      connect_failed method (some status) answer.code (or_raw (o.lossy_trimmed body) answer.message)

  unfoldable pub end_stream : Text → Bytes → Option RpcError
  end_stream method payload = elim (parsed end_stream_of payload) [
    | some (some answer) ↦ some (answered method none answer)
    | _ ↦ none
  ]

  unfoldable pub post : Rpc → Text → Text → Bytes → Post
  post client method content_type body = record {
    url = client.base ++ (codes "/sdk.v1." ++ method);
    content_type = content_type;
    authorization = client.bearer;
    post_body = body;
  }

  unfoldable pub reply_to : Text → Option Response → Result (List Piece) Error
  reply_to method none = err (rpc (transport_failed method (codes "sending the request")))
  reply_to method (some response) =
      if is_success response.status
      then ok response.body
      else (read_body method (codes "reading the error response") response.body
          >>= (λ bytes. err (rpc (unary_error method response.status bytes))))

  unfoldable pub call : Rpc → Text → Text → Bytes → Result (List Piece) Error
  call client method content_type body =
      let request = post client method content_type body in
      if o.builds request
      then reply_to method (o.request request)
      else err (other (codes "building the request"))

  unfoldable pub unary : {A : Type 0} → (Json → Option A) → Rpc → RpcRequest → Result A Error
  unary read client request = do
    let method = procedure request
    body ← call client method (codes "application/json") (o.to_vec (request_json request))
    bytes ← read_body method (codes "reading the response") body
    context (codes "decoding the response") (parsed read bytes)

  unfoldable pub ignored : Json → Option (Unit {0})
  ignored value = some tt

  unfoldable pub unary_empty : Rpc → RpcRequest → Result (Unit {0}) Error
  unary_empty = unary ignored

  unfoldable pub server_stream : Rpc → RpcRequest → Result FrameStream Error
  server_stream client request = do
    framed ← envelope (o.to_vec (request_json request))
    body ← call client (procedure request) (codes "application/connect+json") framed
    ok (record { body = body; buffer = [] })

  unfoldable pub connect_to : Text → Text → Result Rpc Error
  connect_to base token = do
    safe ← ensure_loopback base
    let client : Rpc = record { base = base; bearer = codes "Bearer " ++ token }
    pong ← unary_empty client ping_request
    version ← unary version_of client get_version_request
    same_protocol ←
        ensure (same version.protocol_version (codes "sdk.v1"))
          (codes "unsupported protocol version")
    ok client

  unfoldable pub shutdown : Rpc → ℕ → Result (Unit {0}) Error
  shutdown client seconds =
      unary_empty client (shutdown_request (if ltb seconds 4294967296 then seconds else 4294967295))

  unfoldable pub create_agent : Rpc → AgentOptions → Result Text Error
  create_agent client options = unary created_of client (create_agent_request options)

  unfoldable pub cancel_run : Rpc → Text → Text → Result (Unit {0}) Error
  cancel_run client run agent = unary_empty client (cancel_run_request run agent)

  unfoldable pub close_agent : Rpc → Text → Result (Unit {0}) Error
  close_agent client agent = gone_ok (unary_empty client (close_agent_request agent))

  unfoldable pub delete_agent : Rpc → Text → AgentOperationOptions → Result (Unit {0}) Error
  delete_agent client agent options =
      gone_ok (unary_empty client (delete_agent_request agent options))

  unfoldable pub get_usage : Rpc → Text → Result (Option TokenUsage) Error
  get_usage client agent = unary get_usage_of client (get_usage_request agent)

  unfoldable pub send : Rpc → Text → Text → Result FrameStream Error
  send client agent text = server_stream client (send_request agent text)
