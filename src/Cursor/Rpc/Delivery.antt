-- ===== src/Cursor/Rpc/Delivery.antt =====
-- The stream of a run against its frames: what the process put in frames is what the caller is handed.
use omnia_backends.Base.{
  ℕ, zero, suc, ◌+◌, ◌≤◌, ◌<◌, ◌≡◌, refl, ap, ◌∙◌, ◌%◌, ◌==◌, Bool, not, ◌||◌, is_some,
  if◌then◌else◌, false, Option, none, some, List, [], ◌∷◌, ◌++◌, length, length-append, All,
  Bool-cases, Option-cases, inl, inr, arith,
}
use omnia_backends.Base.Results.{Result, ok, err}
use omnia_backends.Base.Strings.{Text}
use omnia_backends.Cursor.Frames.{
  Bytes, Error, rpc, connect_failed, Frame, is_compressed, is_end_stream, Piece, data_piece,
  trailers, broken, FrameStream, decode_frame, next_frame, to_be_bytes, at_end,
}
use omnia_backends.Cursor.Frames.Decode.{framed, decode-framed}
use omnia_backends.Cursor.Frames.Stream.{bytes_of, Unbroken, unread, outcome, next_frame-Reads}
use omnia_backends.Cursor.Wire.Readers.{
  RunStreamMessage, ConnectStatus, end_stream_of, stream_message_of, is_keepalive,
}
use omnia_backends.Cursor.Rpc.{Outside, size_of, parsed, end_stream, answered}
use omnia_backends.Cursor.Rpc.Messages.{ending, on_frame, after_frame, next_message, run_next}

-- A frame that a peer without compression may send.
abbrev pub Sendable : Frame → Type 0
Sendable frame = (is_compressed frame.flags ≡ false) × (length frame.payload < 4294967296)

unfoldable pub wire : List Frame → Bytes
wire [] = []
wire (frame ∷ frames) = framed frame ++ wire frames

module _ (o : Outside) (method : Text) where
  -- The second bit of the flags: the frame ends the stream.
  unfoldable pub ends : Frame → Bool
  ends frame = frame.flags % 4 == 2 || frame.flags % 4 == 3

  -- How the stream ended: by the error that the frame tells of, or cleanly.
  unfoldable pub last_word : Option (Option ConnectStatus) → Result (Option RunStreamMessage) Error
  last_word none = ok none
  last_word (some none) = ok none
  last_word (some (some status)) = err (rpc (connect_failed method none status.code status.message))

  -- The message says something.
  unfoldable pub speaks : RunStreamMessage → Bool
  speaks m = is_some m.sdk_message || is_some m.result || m.done || m.offset

  -- A message to hand on, of what was read of a frame.
  unfoldable pub to_hand : Option RunStreamMessage → Option RunStreamMessage
  to_hand none = none
  to_hand (some m) = if speaks m then some m else none

  -- The next message of a run by its frames alone, and the frames behind it.
  unfoldable pub deliver : List Frame → Result (Option RunStreamMessage) Error × List Frame
  deliver [] = (ok none, [])
  deliver (frame ∷ frames) =
      let later = deliver frames in
      if ends frame
      then (last_word (parsed o end_stream_of frame.payload), frames)
      else elim (to_hand (parsed o stream_message_of frame.payload)) [
        | none ↦ later
        | some m ↦ (ok (some m), frames)
      ]

  abbrev pub Agrees :
      Result (Option RunStreamMessage) Error × FrameStream
      → Result (Option RunStreamMessage) Error × List Frame
      → Type 0
  Agrees r d = (r.0 ≡ d.0) × (unread r.1 ≡ wire d.1) × Unbroken r.1.body

  ends_lem : (frame : Frame) → ends frame ≡ is_end_stream frame
  unfolding ends is_end_stream
  ends_lem frame = ground arith

  speaks_lem : (m : RunStreamMessage) → speaks m ≡ not (is_keepalive m)
  unfolding speaks is_keepalive
  speaks_lem m = ground arith

  ending_lem :
      (payload : Bytes) → ending o method payload ≡ last_word (parsed o end_stream_of payload)
  unfolding ending end_stream last_word answered
  ending_lem payload = elim (Option-cases (parsed o end_stream_of payload)) [
    | inl e ↦ ground (arith, e)
    | inr (none, e) ↦ ground (arith, e)
    | inr (some status, e) ↦ ground (arith, e)
  ]

  on_frame_lem :
      (frame : Frame) (s : FrameStream) (frames : List Frame)
      (a : Result (Option RunStreamMessage) Error × FrameStream)
      → unread s ≡ wire frames
      → Unbroken s.body
      → Agrees a (deliver frames)
      → Agrees (on_frame o method frame (λ r. (r, s)) a) (deliver (frame ∷ frames))
  unfolding on_frame deliver to_hand
  on_frame_lem frame s frames a e u h = elim (Bool-cases (is_end_stream frame)) [
    | inl last ↦ rw (ends_lem frame, last) (ending_lem frame.payload, e, u)
    | inr more ↦
        rw (ends_lem frame, more)
          (elim (Option-cases (parsed o stream_message_of frame.payload)) [
            | inl unreadable ↦ rw unreadable h
            | inr (message, read) ↦
                rw (read, speaks_lem message)
                  (elim (Bool-cases (is_keepalive message)) [
                    | inl keepalive ↦ rw keepalive h
                    | inr progress ↦ rw progress (refl, e, u)
                  ])
          ])
  ]

  after_lem :
      (again : FrameStream → Result (Option RunStreamMessage) Error × FrameStream) (frame : Frame)
      (frames : List Frame) (r : Result (Option Frame) Error × FrameStream)
      → r.0 ≡ ok (some frame)
      → unread r.1 ≡ wire frames
      → Unbroken r.1.body
      → Agrees (again r.1) (deliver frames)
      → Agrees (after_frame o method again r) (deliver (frame ∷ frames))
  unfolding after_frame
  after_lem again frame frames (x, s) e w u h = rw e (on_frame_lem frame s frames (again s) w u h)

  end_lem :
      (again : FrameStream → Result (Option RunStreamMessage) Error × FrameStream)
      (r : Result (Option Frame) Error × FrameStream)
      → r.0 ≡ ok none
      → unread r.1 ≡ []
      → Unbroken r.1.body
      → Agrees (after_frame o method again r) (ok none, [])
  unfolding after_frame wire
  end_lem again (x, s) e w u = rw e (refl, w, u)

  next_message-Agrees :
      (fuel : ℕ) (frames : List Frame) (s : FrameStream)
      → All Sendable frames
      → Unbroken s.body
      → unread s ≡ wire frames
      → length frames < fuel
      → Agrees (next_message o fuel method s) (deliver frames)
  unfolding next_message wire outcome decode_frame at_end deliver
  next_message-Agrees zero frames s a u e h = absurd (omega arith)
  next_message-Agrees (suc fuel) [] s a u e h =
      let (x, y, z) = next_frame-Reads method s.body s.buffer u in
      end_lem (next_message o fuel method) (next_frame method s.body s.buffer)
        (x ∙ ap (λ all. (outcome method all (decode_frame all)).0) e)
        (y ∙ ap (λ all. (outcome method all (decode_frame all)).1) e) z
  next_message-Agrees (suc fuel) (frame ∷ frames) s (a, as') u e h =
      let (x, y, z) = next_frame-Reads method s.body s.buffer u in
      let d = decode-framed frame (wire frames) a.0 a.1 in
      let first =
        ap (λ all. outcome method all (decode_frame all)) e
        ∙ ap (outcome method (framed frame ++ wire frames)) d in
      let rest = y ∙ ap (λ p. p.1) first in
      after_lem (next_message o fuel method) frame frames (next_frame method s.body s.buffer)
        (x ∙ ap (λ p. p.0) first) rest z
        (next_message-Agrees fuel frames _ as' z rest (omega arith))

  frames-le : (frames : List Frame) → length frames ≤ length (wire frames)
  unfolding wire framed to_be_bytes
  frames-le [] = omega arith
  frames-le (frame ∷ frames) =
      omega (arith, frames-le frames, length-append frame.payload (wire frames))

  size-bytes : (body : List Piece) → size_of body ≡ length (bytes_of body)
  unfolding size_of bytes_of
  size-bytes [] = refl
  size-bytes (data_piece d ∷ body) = omega (arith, size-bytes body, length-append d (bytes_of body))
  size-bytes (trailers ∷ body) = size-bytes body
  size-bytes (broken ∷ body) = size-bytes body

  -- Where the bytes buffered and to come are those of whole frames, in pieces cut anywhere: the next message
  -- of the stream is the first that the frames deliver, and the frames behind it stay. Frames that no message is
  -- read of and messages without a part are passed over, and a frame with the end bit ends the stream, with
  -- the error it tells of or cleanly.
  pub run_next-Agrees :
      (frames : List Frame) (s : FrameStream)
      → All Sendable frames
      → Unbroken s.body
      → unread s ≡ wire frames
      → Agrees (run_next o method s) (deliver frames)
  unfolding run_next
  run_next-Agrees frames s a u e =
      next_message-Agrees (suc (length s.buffer + size_of s.body)) frames s a u e (
        omega (
          arith,
          frames-le frames,
          size-bytes s.body,
          length-append s.buffer (bytes_of s.body),
          ap length e,
        ))
