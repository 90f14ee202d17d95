-- ===== src/Cursor/Rpc/Tests.antt =====
-- Frames, calls and a run's stream at concrete bytes.
use omnia_backends.Base.Integers.{to_text}
use omnia_backends.Base.Json.{negsuc}
use omnia_backends.Base.{◌↔◌, ◌⊎◌, ℕ, ◌≡◌, refl, true, none, some, List, [], ◌∷◌, ◌++◌, arith}
use omnia_backends.Base.Results.{Result, ok, err}
use omnia_backends.Base.Strings.{
  Text, to_ascii_lowercase, lower, strip_prefix, strip_suffix, starts_with, contains,
}
use omnia_backends.Base.Order.{bytes_ord, same, lex}
use omnia_backends.Base.Text.{codes}
use omnia_backends.Base.Json.{integer, number, string, object, fields_of, lookup}
use omnia_backends.Cursor.Frames.{
  connect_failed, Error, rpc, is_agent_gone, gone_ok, Frame, is_compressed, envelope, decode_frame,
  Piece, data_piece, trailers, FrameStream, next_frame, to_be_bytes,
}
use omnia_backends.Cursor.Frames.Decode.{framed, decode-envelope}
use omnia_backends.Cursor.Frames.Stream.{bytes_of, Unbroken, Reads, next_frame-Reads}
use omnia_backends.Cursor.Wire.{
  ping_request, get_version_request, close_agent_request, delete_agent_request,
  AgentOperationOptions,
}
use omnia_backends.Cursor.Wire.Readers.{
  lenient_i64, GetVersionResponse, version_of, fields_in, or_default, text_of, texts_of,
}
use omnia_backends.Cursor.Wire.Numbers.{lenient_i64-to_text}
use omnia_backends.Cursor.Rpc.{
  Outside, Rpc, close_agent, delete_agent, unary, unary_empty, connect_to, ensure_loopback, context,
  ensure, is_http, has_userinfo, is_true, unbracketed, call, reply_to, post, is_success, read_body,
  collect, parsed, ignored,
}
use omnia_backends.Cursor.Rpc.Messages.{run_next}
use omnia_backends.Cursor.Rpc.Delivery.{Sendable, wire, deliver, Agrees, run_next-Agrees}
use omnia_backends.Cursor.Rpc.Calls.{Local, connect_to-Local}
use omnia_backends.Cursor.Rpc.Gone.{Gone, close_agent-Gone}

abbrev hello : List ℕ
hello = codes "hello"

decode-envelope_example :
    (body : List ℕ) × (envelope hello ≡ ok body)
    × (decode_frame (body ++ codes "rest")
        ≡ ok (some (record { flags = 0; payload = hello }, codes "rest")))
decode-envelope_example = decode-envelope hello (codes "rest") (omega arith)

-- A frame of two bytes in three pieces, with trailers between them.
abbrev pieces : List Piece
pieces =
    data_piece (0 ∷ 0 ∷ 0 ∷ [])
    ∷ data_piece (0 ∷ 2 ∷ 104 ∷ [])
    ∷ trailers
    ∷ data_piece (105 ∷ [])
    ∷ []

pieces-Unbroken : Unbroken pieces
unfolding Unbroken
pieces-Unbroken = tt

next_frame-Reads_example :
    Reads
      (codes "SdkAgentService/Send")
      ([] ++ bytes_of pieces)
      (next_frame (codes "SdkAgentService/Send") pieces [])
next_frame-Reads_example = next_frame-Reads (codes "SdkAgentService/Send") pieces [] pieces-Unbroken

-- Every request is answered with a version; bytes are read as that one object.
abbrev answers : Outside
answers = record {
  builds = λ p. true;
  request = λ p. some (record { status = 200; body = data_piece (codes "{}") ∷ [] });
  to_vec = λ value. codes "{}";
  from_slice =
      λ bytes. some (object (fields_of ((codes "protocolVersion", string (codes "sdk.v1")) ∷ [])));
  lossy_trimmed = λ bytes. bytes;
  parse_uri = λ text. some (record {
    scheme = some (codes "http");
    authority = some (codes "localhost:1");
    host = some (codes "localhost");
  });
  parse_ip = λ text. none;
}

abbrev frames : List Frame
frames = record { flags = 0; payload = 104 ∷ 105 ∷ [] } ∷ []

frames-Sendable : Sendable (record { flags = 0; payload = 104 ∷ 105 ∷ [] }) × Unit {0}
unfolding is_compressed
frames-Sendable = ((refl, omega arith), tt)

abbrev stream : FrameStream
stream = record { body = pieces; buffer = [] }

stream-wire : [] ++ bytes_of pieces ≡ wire frames
unfolding bytes_of wire framed to_be_bytes
stream-wire = refl

run_next-Agrees_example :
    Agrees answers
      (codes "SdkAgentService/Send")
      (run_next answers (codes "SdkAgentService/Send") stream)
      (deliver answers (codes "SdkAgentService/Send") frames)
run_next-Agrees_example =
    run_next-Agrees answers (codes "SdkAgentService/Send") frames stream frames-Sendable
      pieces-Unbroken stream-wire

lenient_i64-to_text_example :
    (lenient_i64 (number (integer (negsuc 1233))) ≡ some (negsuc 1233))
    × (lenient_i64 (string (to_text (negsuc 1233))) ≡ some (negsuc 1233))
lenient_i64-to_text_example = lenient_i64-to_text (negsuc 1233) (omega arith)

abbrev gone : Result (Unit {0}) Error
gone = err (
    rpc (
      connect_failed (codes "SdkAgentService/CloseAgent") (some 500) (codes "internal")
        (codes "Agent a1 not found")))

gone-ok : gone_ok gone ≡ ok tt
unfolding gone_ok is_agent_gone lex to_ascii_lowercase lower contains starts_with
gone-ok = refl

abbrev url : Text
url = codes "http://localhost:1"

abbrev client : Rpc
client = record { base = url; bearer = codes "Bearer " ++ codes "t" }

connected : connect_to answers url (codes "t") ≡ ok client
unfolding connect_to ensure_loopback context ensure is_http has_userinfo is_true unbracketed
    strip_prefix strip_suffix to_ascii_lowercase lower lex unary unary_empty call reply_to post
    is_success read_body collect parsed ignored version_of fields_in or_default text_of texts_of
    lookup fields_of
connected = refl

connect_to-Local_example :
    Local answers client.base
    × (unary_empty answers client ping_request ≡ ok tt)
    × ((version : GetVersionResponse) × (unary answers version_of client get_version_request
          ≡ ok version)
        × (same version.protocol_version (codes "sdk.v1") ≡ true))
connect_to-Local_example = connect_to-Local answers url (codes "t") client connected

abbrev no_options : AgentOperationOptions
no_options = record { directory = []; key = [] }

close_agent-Gone_example :
    ((close_agent answers client (codes "a1") ≡ ok tt) ↔ (
      (unary_empty answers client (close_agent_request (codes "a1")) ≡ ok tt)
      ⊎ Gone (unary_empty answers client (close_agent_request (codes "a1")))))
    × ((delete_agent answers client (codes "a1") no_options ≡ ok tt) ↔ (
        (unary_empty answers client (delete_agent_request (codes "a1") no_options) ≡ ok tt)
        ⊎ Gone (unary_empty answers client (delete_agent_request (codes "a1") no_options))))
close_agent-Gone_example = close_agent-Gone answers client (codes "a1") no_options
