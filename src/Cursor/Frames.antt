-- ===== src/Cursor/Frames.antt =====
-- crates/cursor/src/protocol.rs, the framing: the Connect envelope, its decoder over a streaming body, and the
-- errors of a call.
--
-- A stream's body is the list of what the HTTP layer hands over: data, trailers, or a failure. The
-- decoder's state is that body and the bytes buffered.
pub mod Decode
pub mod Stream
use omnia_backends.Base.{
  ℕ, zero, suc, ◌+◌, ◌-◌, ◌*◌, ◌/◌, ◌%◌, Bool, true, false, ◌&&◌, ◌||◌, not, Option, none, some,
  List, [], ◌∷◌, ◌++◌, length, take, drop, ltb, leb, ◌==◌, if◌then◌else◌,
}
use omnia_backends.Base.Results.{Result, ok, err}
use omnia_backends.Base.Strings.{to_ascii_lowercase, contains}
use omnia_backends.Base.Order.{bytes_ord, same}
use omnia_backends.Base.Text.{codes}

abbrev pub Text : Type 0
Text = List ℕ

abbrev pub Bytes : Type 0
Bytes = List ℕ

pub data RpcError : Type 0 where
  -- the method, the HTTP status of a unary failure, the code and the message
  connect_failed : Text → Option ℕ → Text → Text → RpcError
  -- the method and what the client was doing
  transport_failed : Text → Text → RpcError

-- `anyhow::Error`: a failed call, or a text.
pub data Error : Type 0 where
  rpc : RpcError → Error
  other : Text → Error

unfoldable pub truncated : Text → RpcError
truncated method = transport_failed method (codes "reading the stream")

unfoldable pub is_agent_gone : RpcError → Bool
is_agent_gone (transport_failed method doing) = false
is_agent_gone (connect_failed method status code message) =
    let text = to_ascii_lowercase message in
    same code (codes "not_found")
    || (contains (codes "agent") text && contains (codes "not found") text)

unfoldable pub gone_ok : Result (Unit {0}) Error → Result (Unit {0}) Error
gone_ok (ok done) = ok done
gone_ok (err (other text)) = err (other text)
gone_ok (err (rpc error)) = if is_agent_gone error then ok tt else err (rpc error)

pub record Frame : Type 0 where
  pub flags : ℕ
  pub payload : Bytes

-- The two lowest bits of the flags: `COMPRESSED` is 1, `END_STREAM` is 2.
unfoldable pub is_compressed : ℕ → Bool
is_compressed flags = flags % 2 == 1

unfoldable pub is_end_stream : Frame → Bool
is_end_stream frame = frame.flags / 2 % 2 == 1

-- `u32::to_be_bytes` and `from_be_bytes`
unfoldable pub to_be_bytes : ℕ → Bytes
to_be_bytes n = n / 16777216 % 256 ∷ n / 65536 % 256 ∷ n / 256 % 256 ∷ n % 256 ∷ []

unfoldable pub from_be_bytes : ℕ → ℕ → ℕ → ℕ → ℕ
from_be_bytes a b c d = a * 16777216 + b * 65536 + c * 256 + d

-- An encoded message in its envelope.
unfoldable pub envelope : Bytes → Result Bytes Error
envelope message =
    if ltb (length message) 4294967296
    then ok (0 ∷ (to_be_bytes (length message) ++ message))
    else err (other (codes "a message exceeds the Connect frame limit"))

-- The first whole frame and what is behind it.
unfoldable pub decode_frame : Bytes → Result (Option (Frame × Bytes)) Error
decode_frame (flags ∷ a ∷ b ∷ c ∷ d ∷ rest) =
    let size = from_be_bytes a b c d in
    if is_compressed flags
    then err (other (codes "cursor-sdk-bridge sent a compressed frame without negotiation"))
    else if ltb (length rest) size
    then ok none
    else ok (some (record { flags = flags; payload = take size rest }, drop size rest))
decode_frame _ = ok none

-- `hyper`'s frames of a body.
pub data Piece : Type 0 where
  data_piece : Bytes → Piece
  trailers broken : Piece

pub record FrameStream : Type 0 where
  pub body : List Piece
  pub buffer : Bytes

-- What the end of the body makes of the bytes left over.
unfoldable pub at_end : Text → Bytes → Result (Option Frame) Error
at_end method [] = ok none
at_end method (b ∷ buffer) = err (rpc (truncated method))

-- One look at the buffer, and the rest of the loop where it holds no whole frame.
unfoldable pub look :
    List Piece
    → Bytes
    → Result (Option (Frame × Bytes)) Error
    → Result (Option Frame) Error × FrameStream
    → Result (Option Frame) Error × FrameStream
look body buffer (err e) more = (err e, record { body = body; buffer = buffer })
look body buffer (ok (some (frame, rest))) more =
    (ok (some frame), record { body = body; buffer = rest })
look body buffer (ok none) more = more

unfoldable pub next_frame : Text → List Piece → Bytes → Result (Option Frame) Error × FrameStream
next_frame method [] buffer =
    look [] buffer (decode_frame buffer)
      (at_end method buffer, record { body = []; buffer = buffer })
next_frame method (data_piece d ∷ body) buffer =
    let more = next_frame method body (buffer ++ d) in
    look (data_piece d ∷ body) buffer (decode_frame buffer) more
next_frame method (trailers ∷ body) buffer =
    let more = next_frame method body buffer in
    look (trailers ∷ body) buffer (decode_frame buffer) more
next_frame method (broken ∷ body) buffer = look (broken ∷ body) buffer (decode_frame buffer) (
  err (rpc (transport_failed method (codes "reading the stream"))),
  record { body = body; buffer = buffer },
)
