-- ===== src/Cursor/Rpc/Messages.antt =====
-- The messages of a run, `RunStream::next`: frames skipped, handed on or ending the stream.
use omnia_backends.Base.{ℕ, zero, suc, ◌+◌, Option, none, some, length, if◌then◌else◌}
use omnia_backends.Base.Results.{Result, ok, err}
use omnia_backends.Base.Strings.{Text}
use omnia_backends.Base.Order.{bytes_ord}
use omnia_backends.Cursor.Frames.{Bytes, Error, rpc, Frame, is_end_stream, FrameStream, next_frame}
use omnia_backends.Cursor.Wire.Readers.{RunStreamMessage, stream_message_of, is_keepalive}
use omnia_backends.Cursor.Rpc.{Outside, parsed, end_stream, size_of}

module _ (o : Outside) where
  -- The messages of a run: `none` is a clean end.
  unfoldable pub ending : Text → Bytes → Result (Option RunStreamMessage) Error
  ending method payload = elim (end_stream o method payload) [
    | none ↦ ok none
    | some error ↦ err (rpc error)
  ]

  -- A frame is an ending, a message, or skipped.
  unfoldable pub on_frame :
      {R : Type 0} → Text → Frame → (Result (Option RunStreamMessage) Error → R) → R → R
  on_frame method frame return skip =
      if is_end_stream frame
      then return (ending method frame.payload)
      else elim (parsed o stream_message_of frame.payload) [
        | none ↦ skip
        | some message ↦ if is_keepalive message then skip else return (ok (some message))
      ]

  abbrev pub Delivered : Type 0
  Delivered = Result (Option RunStreamMessage) Error × FrameStream

  unfoldable pub after_frame :
      Text → (FrameStream → Delivered) → Result (Option Frame) Error × FrameStream → Delivered
  after_frame method again (err e, s) = (err e, s)
  after_frame method again (ok none, s) = (ok none, s)
  after_frame method again (ok (some frame), s) = on_frame method frame (λ r. (r, s)) (again s)

  -- The loop, on fuel: a frame takes five bytes at least, so the bytes to come are fuel enough.
  unfoldable pub next_message : ℕ → Text → FrameStream → Delivered
  next_message zero method s = (ok none, s)
  next_message (suc fuel) method s =
      after_frame method (next_message fuel method) (next_frame method s.body s.buffer)

  -- `RunStream::next`
  unfoldable pub run_next : Text → FrameStream → Delivered
  run_next method s = next_message (suc (length s.buffer + size_of s.body)) method s
