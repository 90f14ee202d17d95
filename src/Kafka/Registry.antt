-- ===== src/Kafka/Registry.antt =====
-- crates/kafka/src/registry.rs: the Confluent wire format, and payloads validated on the way in and
-- out. The schema registry's client, JSON parsing and JSON Schema validation are other crates': they
-- enter as arguments. A rejection is its reason; the texts for the log are left out.
pub mod RoundTrip
mod Tests
use omnia_backends.Base.{
  ℕ, ◌*◌, ◌+◌, ◌/◌, ◌%◌, Bool, true, false, Option, none, some, List, [], ◌∷◌, ◌++◌, ◌==◌,
  if◌then◌else◌,
}
use omnia_backends.Base.Text.{codes}
use omnia_backends.Base.Results.{Result, ok, err, ◌>>=◌, map_err}

abbrev pub Bytes : Type 0
Bytes = List ℕ

abbrev pub magic_byte : ℕ
magic_byte = 0

-- `i32::to_be_bytes`, of the id's bit pattern, a number below 2^32.
pub to_be_bytes : ℕ → Bytes
to_be_bytes id = id / 16777216 % 256 ∷ id / 65536 % 256 ∷ id / 256 % 256 ∷ id % 256 ∷ []

pub from_be_bytes : ℕ → ℕ → ℕ → ℕ → ℕ
from_be_bytes a b c d = a * 16777216 + b * 65536 + c * 256 + d

pub record Payload : Type 0 where
  pub registry_id : ℕ
  pub content : Bytes

pub encode_payload : ℕ → Bytes → Bytes
unfolding to_be_bytes
encode_payload registry_id payload = magic_byte ∷ (to_be_bytes registry_id ++ payload)

-- `split_first_chunk::<5>`, then the test of the magic byte.
pub decode_payload : Bytes → Option Payload
unfolding from_be_bytes
decode_payload (m ∷ a ∷ b ∷ c ∷ d ∷ rest) =
    if m == magic_byte
    then some (record { registry_id = from_be_bytes a b c d; content = rest })
    else none
decode_payload _ = none

-- Why a fetch produced no schema.
pub data Failure : Type 0 where
  unavailable unknown invalid : Failure

-- Why a record was dropped or a send refused.
pub data Reason : Type 0 where
  registry_unavailable unknown_schema invalid_schema invalid_payload : Reason

-- `impl From<Failure> for Rejection`.
unfoldable pub rejection : Failure → Reason
rejection unavailable = registry_unavailable
rejection unknown = unknown_schema
rejection invalid = invalid_schema

-- What the registry's client reports of an error: a response with its status, or anything else.
pub data ClientError : Type 0 where
  response_error : ℕ → ClientError
  other_error : ClientError

-- `impl From<SchemaRegistryError> for Failure`.
pub failure : ClientError → Failure
failure (response_error status) = if status == 404 then unknown else unavailable
failure other_error = unavailable

pub record Schema (Validator : Type 0) : Type 0 where
  pub id : ℕ
  pub validator : Validator

-- `serde_json`, `jsonschema` and the registry's client.
pub record Libraries : Type 1 where
  pub Json : Type 0
  pub Validator : Type 0
  pub from_slice : Bytes → Option Json
  pub validator_for : Json → Option Validator
  pub iter_errors : Validator → Json → List Bytes
  -- a schema's text by id; a subject's latest id and text, each of which may be missing
  pub get_by_id : ℕ → Result Bytes ClientError
  pub get_latest_version : Bytes → Result (Option ℕ × Option Bytes) ClientError

module _ (l : Libraries) where
  open l use {
    Json, Validator, from_slice, validator_for, iter_errors, get_by_id, get_latest_version,
  }

  pub compile : ℕ → Bytes → Result (Schema Validator) Failure
  compile id text = elim (from_slice text) [
    | none ↦ err invalid
    | some json ↦ elim (validator_for json) [
      | none ↦ err invalid
      | some v ↦ ok (record { id = id; validator = v })
    ]
  ]

  pub check : Schema Validator → Bytes → Result (Unit {0}) Reason
  check s payload = elim (from_slice payload) [
    | none ↦ err invalid_payload
    | some json ↦ elim (iter_errors s.validator json) [ [] ↦ ok tt | _ ∷ _ ↦ err invalid_payload ]
  ]

  -- The fetch of `by_id`, by which the cache is filled.
  pub fetch_by_id : ℕ → Result (Schema Validator) Failure
  fetch_by_id id = map_err failure (get_by_id id) >>= compile id

  compile_registered : Option ℕ × Option Bytes → Result (Option (Schema Validator)) Failure
  compile_registered (some id, some text) = compile id text >>= λ s. ok (some s)
  compile_registered _ = err invalid

  -- A subject that is not registered is no failure: its topic is sent unframed.
  absent_is_none :
      Result (Option (Schema Validator)) Failure → Result (Option (Schema Validator)) Failure
  absent_is_none (err unknown) = ok none
  absent_is_none r = r

  -- The fetch of `latest`, of the topic's subject.
  pub fetch_latest : Bytes → Result (Option (Schema Validator)) Failure
  unfolding compile_registered absent_is_none
  fetch_latest topic =
      absent_is_none
        (map_err failure (get_latest_version (topic ++ codes "-value")) >>= compile_registered)

  pub frame : Bytes → Option (Schema Validator) → Result Bytes Reason
  frame buffer none = ok buffer
  frame buffer (some s) = check s buffer >>= λ _. ok (encode_payload s.id buffer)

  pub encode : Bytes → Bytes → Result Bytes Reason
  unfolding frame
  encode topic buffer = map_err rejection (fetch_latest topic) >>= frame buffer

  pub unframe : Payload → Result Bytes Reason
  unframe framed = map_err rejection (fetch_by_id framed.registry_id) >>= λ s.
      check s framed.content >>= λ _. ok framed.content

  pub decode : Bytes → Result Bytes Reason
  unfolding unframe
  decode buffer = elim (decode_payload buffer) [ none ↦ ok buffer | some framed ↦ unframe framed ]
