-- ===== src/Cursor/Frames/Decode.antt =====
-- The decoder of frames on more bytes, on an envelope, and on the errors of close and delete.
use omnia_backends.Base.{
  ℕ, zero, suc, ◌/◌, ◌%◌, ◌≤◌, ◌<◌, ◌≡◌, refl, ap, false, some, [], ◌∷◌, ◌++◌, length,
  length-append, take, drop, ltb, ltb→le, Bool-cases, inl, inr, arith,
}
use omnia_backends.Base.Results.{ok, err}
use omnia_backends.Cursor.Frames.{
  Bytes, Error, Frame, is_compressed, to_be_bytes, from_be_bytes, envelope, decode_frame,
}

take-append : (xs ys : Bytes) → take (length xs) (xs ++ ys) ≡ xs
take-append [] ys = refl
take-append (x ∷ xs) ys = ap (λ t. x ∷ t) (take-append xs ys)

drop-append : (xs ys : Bytes) → drop (length xs) (xs ++ ys) ≡ ys
drop-append [] ys = refl
drop-append (x ∷ xs) ys = drop-append xs ys

-- The bytes of a frame without compression.
unfoldable pub framed : Frame → Bytes
framed frame = frame.flags ∷ (to_be_bytes (length frame.payload) ++ frame.payload)

from-to :
    (n : ℕ)
    → n < 4294967296
    → from_be_bytes (n / 16777216 % 256) (n / 65536 % 256) (n / 256 % 256) (n % 256) ≡ n
unfolding from_be_bytes
from-to n h = omega arith

fits : (xs ys : Bytes) → ltb (length (xs ++ ys)) (length xs) ≡ false
fits xs ys = ground (arith, length-append xs ys)

pub decode-framed :
    (frame : Frame) (rest : Bytes)
    → is_compressed frame.flags ≡ false
    → length frame.payload < 4294967296
    → decode_frame (framed frame ++ rest) ≡ ok (some (frame, rest))
unfolding decode_frame framed to_be_bytes
decode-framed frame rest plain small =
    rw
      (
        plain,
        from-to (length frame.payload) small,
        fits frame.payload rest,
        take-append frame.payload rest,
        drop-append frame.payload rest,
      )
      refl

-- An envelope decodes to its message, with no flag set, and to the bytes that follow it.
pub decode-envelope :
    (message rest : Bytes)
    → length message < 4294967296
    → (body : Bytes) × (envelope message ≡ ok body)
      × (decode_frame (body ++ rest) ≡ ok (some (record { flags = 0; payload = message }, rest)))
unfolding envelope framed is_compressed
decode-envelope message rest small = (
  framed (record { flags = 0; payload = message }),
  ground arith,
  decode-framed (record { flags = 0; payload = message }) rest refl small,
)

take-within : (n : ℕ) (xs ys : Bytes) → n ≤ length xs → take n (xs ++ ys) ≡ take n xs
take-within zero xs ys h = refl
take-within (suc n) [] ys h = absurd (omega arith)
take-within (suc n) (x ∷ xs) ys h = ap (λ t. x ∷ t) (take-within n xs ys (omega arith))

drop-within : (n : ℕ) (xs ys : Bytes) → n ≤ length xs → drop n (xs ++ ys) ≡ drop n xs ++ ys
drop-within zero xs ys h = refl
drop-within (suc n) [] ys h = absurd (omega arith)
drop-within (suc n) (x ∷ xs) ys h = drop-within n xs ys (omega arith)

longer : (n : ℕ) (xs ys : Bytes) → ltb (length xs) n ≡ false → ltb (length (xs ++ ys)) n ≡ false
longer n xs ys h = ground (arith, length-append xs ys)

-- More bytes behind a whole frame, or behind a refused one, change nothing.
pub decode-more :
    (buffer more : Bytes)
    → ((e : Error) → decode_frame buffer ≡ err e → decode_frame (buffer ++ more) ≡ err e)
      × ((frame : Frame) (rest : Bytes)
          → decode_frame buffer ≡ ok (some (frame, rest))
          → decode_frame (buffer ++ more) ≡ ok (some (frame, rest ++ more)))
unfolding decode_frame
decode-more (flags ∷ a ∷ b ∷ c ∷ d ∷ tail) more = elim (Bool-cases (is_compressed flags)) [
  | inl packed ↦ rw packed (λ e h. h, λ frame rest h. cc)
  | inr plain ↦ rw plain (elim (Bool-cases (ltb (length tail) (from_be_bytes a b c d))) [
    | inl short ↦ rw short (λ e h. cc, λ frame rest h. cc)
    | inr full ↦
        let n = from_be_bytes a b c d in
        let inside = ltb→le (length tail) n full in
        rw
          (
            full,
            longer n tail more full,
            take-within n tail more inside,
            drop-within n tail more inside,
          )
          (λ e h. cc, λ frame rest h. cc)
  ])
]
decode-more _ more = (λ e h. cc, λ frame rest h. cc)
