-- ===== src/Cursor/Frames/Stream.antt =====
-- Frames and the pieces that the HTTP layer cuts a body into.
use omnia_backends.Base.{◌≡◌, refl, sym, ap, Option, none, some, List, [], ◌∷◌, ◌++◌}
use omnia_backends.Base.Results.{Result, ok, err}
use omnia_backends.Cursor.Frames.{
  Bytes, Text, Error, Frame, Piece, data_piece, trailers, broken, FrameStream, decode_frame, at_end,
  look, next_frame,
}
use omnia_backends.Cursor.Frames.Decode.{decode-more}

unfoldable pub bytes_of : List Piece → Bytes
bytes_of [] = []
bytes_of (data_piece d ∷ body) = d ++ bytes_of body
bytes_of (trailers ∷ body) = bytes_of body
bytes_of (broken ∷ body) = bytes_of body

unfoldable pub Unbroken : List Piece → Type 0
Unbroken [] = Unit
Unbroken (broken ∷ body) = ⊥
Unbroken (piece ∷ body) = Unbroken body

abbrev pub unread : FrameStream → Bytes
unread s = s.buffer ++ bytes_of s.body

-- What a decoder with all the bytes in hand returns, and what it leaves.
unfoldable pub outcome :
    Text → Bytes → Result (Option (Frame × Bytes)) Error → Result (Option Frame) Error × Bytes
outcome method all (err e) = (err e, all)
outcome method all (ok none) = (at_end method all, all)
outcome method all (ok (some (frame, rest))) = (ok (some frame), rest)

abbrev pub Reads : Text → Bytes → Result (Option Frame) Error × FrameStream → Type 0
Reads method all r =
    (r.0 ≡ (outcome method all (decode_frame all)).0)
    × (unread r.1 ≡ (outcome method all (decode_frame all)).1)
    × Unbroken r.1.body

append_assoc : (xs ys zs : Bytes) → (xs ++ ys) ++ zs ≡ xs ++ (ys ++ zs)
append_assoc [] ys zs = refl
append_assoc (x ∷ xs) ys zs = ap (λ t. x ∷ t) (append_assoc xs ys zs)

append_nil : (xs : Bytes) → xs ++ [] ≡ xs
append_nil [] = refl
append_nil (x ∷ xs) = ap (λ t. x ∷ t) (append_nil xs)

look_lem :
    (method : Text) (body : List Piece) (buffer : Bytes)
    (found : Result (Option (Frame × Bytes)) Error)
    (more : Result (Option Frame) Error × FrameStream)
    → decode_frame buffer ≡ found
    → Unbroken body
    → (found ≡ ok none → Reads method (buffer ++ bytes_of body) more)
    → Reads method (buffer ++ bytes_of body) (look body buffer found more)
unfolding look outcome
look_lem method body buffer (err e) more h u k =
    rw ((decode-more buffer (bytes_of body)).0 e h) (refl, refl, u)
look_lem method body buffer (ok none) more h u k = k refl
look_lem method body buffer (ok (some (frame, rest))) more h u k =
    rw ((decode-more buffer (bytes_of body)).1 frame rest h) (refl, refl, u)

-- Where the body does not break off: the next frame, or the end or the error in its place, is the one
-- that the bytes buffered and still to come begin with, however they are cut into pieces, and what
-- is behind it stays unread.
pub next_frame-Reads :
    (method : Text) (body : List Piece) (buffer : Bytes)
    → Unbroken body
    → Reads method (buffer ++ bytes_of body) (next_frame method body buffer)
unfolding next_frame bytes_of Unbroken outcome
next_frame-Reads method [] buffer u =
    look_lem method [] buffer (decode_frame buffer) _ refl tt
      (λ e. rw (append_nil buffer, e) (refl, refl, tt))
next_frame-Reads method (data_piece d ∷ body) buffer u =
    look_lem method (data_piece d ∷ body) buffer (decode_frame buffer) _ refl u (λ e.
      rw (sym (append_assoc buffer d (bytes_of body)))
        (next_frame-Reads method body (buffer ++ d) u))
next_frame-Reads method (trailers ∷ body) buffer u =
    look_lem method (trailers ∷ body) buffer (decode_frame buffer) _ refl u
      (λ e. next_frame-Reads method body buffer u)
next_frame-Reads method (broken ∷ body) buffer u = absurd u
