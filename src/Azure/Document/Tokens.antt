-- ===== src/Azure/Document/Tokens.antt =====
-- The separator of two keys is found again.
use mathlib.Core.Option
use omnia_backends.Base.{◌≡◌, refl, Bool, false, none, some, [], ◌∷◌, ◌++◌, any, ◌==◌, arith}
use omnia_backends.Base.Results.{ok}
use omnia_backends.Base.Strings.{Text}
use omnia_backends.Azure.Document.{
  split_once, encode_id, decode_id, encode_continuation, decode_continuation,
}

abbrev pub has_nul : Text → Bool
has_nul text = any (λ c. c == 0) text

split_once-append :
    (key rest : Text) → has_nul key ≡ false → split_once (key ++ 0 ∷ rest) ≡ some (key, rest)
unfolding split_once
split_once-append [] rest h = refl
split_once-append (c ∷ key) rest h = ground (arith, split_once-append key rest (ground arith))

split_once-none : (key : Text) → has_nul key ≡ false → split_once key ≡ none
unfolding split_once
split_once-none [] h = refl
split_once-none (c ∷ key) h = ground (arith, split_once-none key (ground arith))

-- Two keys, the first without U+0000 as the service demands, are read back from a document's id and from a
-- continuation token, and a first key alone from its token.
pub decode_continuation-encode_continuation :
    (pk rk : Text)
    → has_nul pk ≡ false
    → (decode_id (encode_id pk rk) ≡ ok (pk, rk))
      × (Option.map decode_continuation (encode_continuation (some pk) (some rk))
          ≡ some (pk, some rk))
      × (Option.map decode_continuation (encode_continuation (some pk) none) ≡ some (pk, none))
unfolding decode_id encode_id encode_continuation decode_continuation
decode_continuation-encode_continuation pk rk h = (
  rw (split_once-append pk rk h, decode_id) refl,
  rw (split_once-append pk rk h, decode_continuation) refl,
  rw (split_once-none pk h, decode_continuation) refl,
)
