-- ===== src/Azure/Document.antt =====
-- crates/azure-table/src/store/document.rs and query.rs: documents as the service's typed entities, and the tokens
-- that stand for a place in a table.
--
-- A JSON object is the list of its fields, with distinct keys. Printing and parsing JSON and doubles are
-- the record `Codec`; an integer is its value.
pub mod Tokens
pub mod Typed
pub mod RoundTrip
pub mod Whole
pub mod Tests
use mathlib.Core.Option
use omnia_backends.Base.{
  ℕ, suc, ◌+◌, ◌≤◌, Bool, true, false, ◌&&◌, ◌||◌, Option, none, some, List, [], ◌∷◌, ◌++◌, any,
  leb, ltb, ◌==◌, if◌then◌else◌,
}
use omnia_backends.Base.Results.{Result, ok, err, ◌>>=◌}
use omnia_backends.Base.Strings.{Text, starts_with, strip_suffix}
use omnia_backends.Base.Order.{bytes_ord, same}
use omnia_backends.Base.Text.{codes}
use omnia_backends.Base.Json.{
  ℤ, pos, negsuc, Number, integer, float, Json, null, bool, number, string, array, object, Items,
  Fields, fields, fields_of,
}
use omnia_backends.Base.Integers.{i64_limit, to_text, parse_i64, as_i64}

pub record Codec : Type 0 where
  -- `serde_json::from_slice`, `to_vec` and `to_string`
  pub from_slice : List ℕ → Option Json
  pub to_vec : Json → List ℕ
  pub to_string : Json → Text
  -- `as_f64` and `from_f64`, and `str::parse::<f64>` and `from_f64`
  pub as_double : Number → Option Number
  pub parse_double : Text → Option Number

pub record Document : Type 0 where
  pub id : Text
  pub document_data : List ℕ

pub data EntityError : Type 0 where
  bad_id bad_json not_an_object out_of_range no_partition_key no_row_key : EntityError

abbrev pub Members : Type 0
Members = List (Text × Json)

-- `split_once` at U+0000.
unfoldable pub split_once : Text → Option (Text × Text)
split_once [] = none
split_once (c ∷ text) =
    let rest = split_once text in
    if c == 0 then some ([], text) else Option.map (λ p. (c ∷ p.0, p.1)) rest

unfoldable pub encode_id : Text → Text → Text
encode_id partition_key row_key = partition_key ++ 0 ∷ row_key

unfoldable pub decode_id : Text → Result (Text × Text) EntityError
decode_id id = elim (split_once id) [ none ↦ err bad_id | some keys ↦ ok keys ]

unfoldable pub encode_continuation : Option Text → Option Text → Option Text
encode_continuation (some pk) (some rk) = some (encode_id pk rk)
encode_continuation (some pk) none = some pk
encode_continuation none rk = none

unfoldable pub decode_continuation : Text → Text × Option Text
decode_continuation token = elim (split_once token) [
  | none ↦ (token, none)
  | some keys ↦ (keys.0, some keys.1)
]

abbrev pub type_suffix : Text
type_suffix = codes "@odata.type"

unfoldable pub ends_with_type : Text → Bool
ends_with_type key = elim (strip_suffix type_suffix key) [ none ↦ false | some rest ↦ true ]

unfoldable pub is_metadata_key : Text → Bool
is_metadata_key key =
    any (same key) (codes "PartitionKey" ∷ codes "RowKey" ∷ codes "Timestamp" ∷ [])
    || (starts_with (codes "odata.") key || ends_with_type key)

unfoldable pub in_i32 : ℤ → Bool
in_i32 (pos n) = ltb n 2147483648
in_i32 (negsuc n) = ltb n 2147483648

unfoldable pub annotated : Text → Json → Text → Members
annotated key value edm = (key, value) ∷ (key ++ type_suffix, string edm) ∷ []

unfoldable pub typed_integer : Text → ℤ → Option ℤ → Result Members EntityError
typed_integer key z none = err out_of_range
typed_integer key z (some v) = ok (
    if in_i32 v
    then (key, number (integer v)) ∷ []
    else annotated key (string (to_text v)) (codes "Edm.Int64"))

module _ (c : Codec) where
  unfoldable pub typed_property : Text → Json → Result Members EntityError
  typed_property key null = ok []
  typed_property key (bool b) = ok ((key, bool b) ∷ [])
  typed_property key (string s) = ok ((key, string s) ∷ [])
  typed_property key (number (float t)) = ok (annotated key (number (float t)) (codes "Edm.Double"))
  typed_property key (number (integer z)) = typed_integer key z (as_i64 (integer z))
  typed_property key (array values) = ok ((key, string (c.to_string (array values))) ∷ [])
  typed_property key (object members) = ok ((key, string (c.to_string (object members))) ∷ [])

  unfoldable pub typed_properties : Members → Result Members EntityError
  typed_properties [] = ok []
  typed_properties ((key, value) ∷ rest) =
      let more = typed_properties rest in
      if is_metadata_key key
      then more
      else (typed_property key value >>= λ properties. more >>= λ others. ok (properties ++ others))

  unfoldable pub as_object : Json → Result Members EntityError
  as_object (object members) = ok (fields members)
  as_object _ = err not_an_object

  unfoldable pub from_bytes : List ℕ → Result Json EntityError
  from_bytes bytes = elim (c.from_slice bytes) [ none ↦ err bad_json | some value ↦ ok value ]

  unfoldable pub flatten : Document → Result Json EntityError
  flatten doc = decode_id doc.id >>= λ keys. from_bytes doc.document_data >>= λ body.
      as_object body >>= λ members. typed_properties members >>= λ properties. ok (
        object (
          fields_of
            ((codes "PartitionKey", string keys.0) ∷ (codes "RowKey", string keys.1) ∷ properties)))

  unfoldable pub find_member : Text → Members → Option Json
  find_member key [] = none
  find_member key ((k, value) ∷ rest) = if same key k then some value else find_member key rest

  unfoldable pub as_str : Option Json → Option Text
  as_str (some (string t)) = some t
  as_str _ = none

  unfoldable pub or_value : Json → Option Number → Json
  or_value value none = value
  or_value value (some n) = number n

  unfoldable pub restore_int64 : Json → Json
  restore_int64 (string t) = or_value (string t) (Option.map integer (parse_i64 t))
  restore_int64 value = value

  unfoldable pub restore_double : Json → Json
  restore_double (number n) = or_value (number n) (c.as_double n)
  restore_double (string t) = or_value (string t) (c.parse_double t)
  restore_double value = value

  unfoldable pub restore_as : Option Text → Json → Json
  restore_as none value = value
  restore_as (some edm) value =
      if same edm (codes "Edm.Int64")
      then restore_int64 value
      else if same edm (codes "Edm.Double")
      then restore_double value
      else value

  unfoldable pub restore_typed_value : Members → Text → Json → Json
  restore_typed_value entity key value =
      restore_as (as_str (find_member (key ++ type_suffix) entity)) value

  unfoldable pub restored : Members → Members → Members
  restored entity [] = []
  restored entity ((key, value) ∷ rest) =
      let more = restored entity rest in
      if is_metadata_key key then more else (key, restore_typed_value entity key value) ∷ more

  unfoldable pub required_key : Text → EntityError → Members → Result Text EntityError
  required_key key error entity = elim (as_str (find_member key entity)) [
    | none ↦ err error
    | some text ↦ ok text
  ]

  unfoldable pub unflatten : Json → Result Document EntityError
  unflatten value = as_object value >>= λ entity.
      required_key (codes "PartitionKey") no_partition_key entity >>= λ pk.
      required_key (codes "RowKey") no_row_key entity >>= λ rk. ok (record {
        id = encode_id pk rk;
        document_data = c.to_vec (object (fields_of (restored entity entity)));
      })
