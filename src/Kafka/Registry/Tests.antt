-- ===== src/Kafka/Registry/Tests.antt =====
-- Runs of the registry client, and the theorems at them.
use omnia_backends.Base.{
  ℕ, ◌<◌, ◌≡◌, refl, Option, none, some, List, [], ◌∷◌, All, arith, ◌==◌, if◌then◌else◌,
}
use omnia_backends.Base.Results.{Result, ok, err}
use omnia_backends.Kafka.Registry.{
  Bytes, Schema, Libraries, ClientError, response_error, encode_payload, decode_payload, encode,
  decode, frame, unframe, check, compile, compile_registered, absent_is_none, fetch_latest,
  fetch_by_id, failure, to_be_bytes, from_be_bytes, invalid_payload,
}
use omnia_backends.Kafka.Registry.RoundTrip.{
  decode_payload-encode_payload, encode_payload-decode_payload, decode-encode,
}

-- Texts that do not begin with an `x` read as themselves; a schema accepts what begins like it.
abbrev parsed : Bytes → Option Bytes
parsed [] = none
parsed (c ∷ text) = if c == b'x' then none else some (c ∷ text)

abbrev errors : Bytes → Bytes → List Bytes
errors (v ∷ vs) (c ∷ text) = if v == c then [] else (c ∷ []) ∷ []
errors _ _ = []

abbrev by_id : ℕ → Result Bytes ClientError
by_id id = if id == 258 then ok (b'{' ∷ []) else err (response_error 404)

-- Subjects that begin with an `o` are registered.
abbrev latest : Bytes → Result (Option ℕ × Option Bytes) ClientError
latest [] = err (response_error 500)
latest (c ∷ subject) =
    if c == b'o' then ok (some 258, some (b'{' ∷ [])) else err (response_error 404)

abbrev sample : Libraries
sample = record {
  Json = Bytes;
  Validator = Bytes;
  from_slice = parsed;
  validator_for = λ j. some j;
  iter_errors = errors;
  get_by_id = by_id;
  get_latest_version = latest;
}

abbrev schema : Schema Bytes
schema = record { id = 258; validator = b'{' ∷ [] }

abbrev content : Bytes
content = b'{' ∷ b'}' ∷ []

abbrev framed : Bytes
framed = 0 ∷ 0 ∷ 0 ∷ 1 ∷ 2 ∷ content

encodes_framed : encode sample (b'o' ∷ []) content ≡ ok framed
unfolding encode frame check compile compile_registered absent_is_none fetch_latest failure
    encode_payload to_be_bytes
encodes_framed = refl

unknown_subject_unframed : encode sample (b'z' ∷ []) content ≡ ok content
unfolding encode frame check compile compile_registered absent_is_none fetch_latest failure
unknown_subject_unframed = refl

refused : encode sample (b'o' ∷ []) (b'[' ∷ []) ≡ err invalid_payload
unfolding encode frame check compile compile_registered absent_is_none fetch_latest failure
refused = refl

decodes : decode sample framed ≡ ok content
unfolding decode unframe check compile fetch_by_id decode_payload from_be_bytes failure
decodes = refl

latest_found : fetch_latest sample (b'o' ∷ []) ≡ ok (some schema)
unfolding compile compile_registered absent_is_none fetch_latest failure
latest_found = refl

by_id_found : fetch_by_id sample 258 ≡ ok schema
unfolding compile fetch_by_id failure
by_id_found = refl

reads_framed : decode_payload framed ≡ some (record { registry_id = 258; content = content })
unfolding decode_payload from_be_bytes
reads_framed = refl

decode_payload-encode_payload_example :
    decode_payload (encode_payload 258 content)
    ≡ some (record { registry_id = 258; content = content })
decode_payload-encode_payload_example = decode_payload-encode_payload 258 content (omega arith)

framed_bytes : All (λ b. b < 256) framed
framed_bytes = omega arith

encode_payload-decode_payload_example : (encode_payload 258 content ≡ framed) × (258 < 4294967296)
encode_payload-decode_payload_example =
    encode_payload-decode_payload framed (record { registry_id = 258; content = content })
      framed_bytes reads_framed

decode-encode_example : decode sample framed ≡ ok content
decode-encode_example =
    decode-encode sample (b'o' ∷ []) content framed schema latest_found by_id_found (omega arith)
      encodes_framed
