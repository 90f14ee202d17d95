-- ===== src/Azure/Document/Tests.antt =====
-- A document with a large integer, a null and the service's own name, and the theorems at it.
use mathlib.Core.Option
use omnia_backends.Base.{◌≡◌, refl, true, none, some, List, [], ◌∷◌, ◌++◌}
use omnia_backends.Base.Results.{ok}
use omnia_backends.Base.Strings.{Text, strip_suffix, starts_with}
use omnia_backends.Base.Order.{bytes_ord, lex}
use omnia_backends.Base.Text.{codes, digits, decimal}
use omnia_backends.Base.Json.{
  pos, integer, Json, null, bool, number, string, object, fields, fields_of,
}
use omnia_backends.Base.Integers.{to_text, as_i64, below_limit}
use omnia_backends.Azure.Filter.{quoted}
use omnia_backends.Azure.Filter.Literals.{read_literal, Follows, read_literal-quoted}
use omnia_backends.Azure.Document.{
  Codec, Document, encode_id, decode_id, split_once, encode_continuation, decode_continuation,
  flatten, unflatten, from_bytes, as_object, typed_properties, typed_property, typed_integer,
  in_i32, annotated, is_metadata_key, ends_with_type, find_member,
}
use omnia_backends.Azure.Document.Tokens.{decode_continuation-encode_continuation}
use omnia_backends.Azure.Document.RoundTrip.{settled_members}
use omnia_backends.Azure.Document.Whole.{Distinct, unflatten-flatten}

abbrev rest : Text
rest = codes " or true"

rest-Follows : Follows rest
unfolding Follows
rest-Follows = refl

read_literal-quoted_example :
    read_literal (quoted (codes "O'Neil' or '1") ++ rest) ≡ some (codes "O'Neil' or '1", rest)
read_literal-quoted_example = read_literal-quoted (codes "O'Neil' or '1") rest rest-Follows

decode_continuation-encode_continuation_example :
    (decode_id (encode_id (codes "p") (codes "r")) ≡ ok (codes "p", codes "r"))
    × (Option.map decode_continuation (encode_continuation (some (codes "p")) (some (codes "r")))
        ≡ some (codes "p", some (codes "r")))
    × (Option.map decode_continuation (encode_continuation (some (codes "p")) none)
        ≡ some (codes "p", none))
decode_continuation-encode_continuation_example =
    decode_continuation-encode_continuation (codes "p") (codes "r") refl

abbrev members : List (Text × Json)
members =
    (codes "big", number (integer (pos 5000000000)))
    ∷ (codes "gone", null)
    ∷ (codes "RowKey", bool true)
    ∷ []

abbrev codec : Codec
codec = record {
  from_slice = λ bytes. some (object (fields_of members));
  to_vec = λ value. codes "{}";
  to_string = λ value. codes "{}";
  as_double = λ n. some n;
  parse_double = λ text. none;
}

abbrev doc : Document
doc = record { id = codes "p" ++ 0 ∷ codes "r"; document_data = codes "{}" }

abbrev entity : Json
entity = object (
    fields_of (
      (codes "PartitionKey", string (codes "p"))
      ∷ (codes "RowKey", string (codes "r"))
      ∷ (codes "big", string (codes "5000000000"))
      ∷ (codes "big@odata.type", string (codes "Edm.Int64"))
      ∷ []))

members-Distinct : Distinct codec (fields (fields_of members))
unfolding Distinct find_member fields fields_of lex
members-Distinct = (refl, (refl, (refl, tt)))

flattened : flatten codec doc ≡ ok entity
unfolding flatten decode_id split_once from_bytes as_object typed_properties typed_property
    typed_integer in_i32 annotated is_metadata_key ends_with_type strip_suffix starts_with lex
    fields fields_of as_i64 below_limit to_text decimal digits
flattened = refl

unflatten-flatten_example :
    unflatten codec entity
    ≡ ok (record {
      id = doc.id;
      document_data =
          codec.to_vec (object (fields_of (settled_members codec (fields (fields_of members)))));
    })
unflatten-flatten_example =
    unflatten-flatten codec doc entity (fields_of members) (λ t. refl) refl members-Distinct
      flattened
