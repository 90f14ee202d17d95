-- ===== src/Azure/Filter.antt =====
-- crates/azure-table/src/store/filter.rs: a filter as the service's OData text.
--
-- A double is given with what the standard library prints for it: whether it is whole, with one digit
-- behind the point, and in full. Field names are byte strings.
pub mod Literals
use omnia_backends.Base.{
  ℕ, ◌+◌, ◌/◌, ◌%◌, Bool, true, false, ◌&&◌, ◌||◌, List, [], ◌∷◌, ◌++◌, leb, ltb, ◌==◌, all,
  if◌then◌else◌,
}
use omnia_backends.Base.Results.{Result, ok, err, ◌>>=◌}
use omnia_backends.Base.Strings.{Text}
use omnia_backends.Base.Text.{codes, join}
use omnia_backends.Base.Json.{ℤ}
use omnia_backends.Base.Integers.{to_text}

pub data ComparisonOp : Type 0 where
  op_eq op_ne op_gt op_gte op_lt op_lte : ComparisonOp

pub data ScalarValue : Type 0 where
  null_value : ScalarValue
  bool_value : Bool → ScalarValue
  int32 int64 : ℤ → ScalarValue
  float64 : Bool → Text → Text → ScalarValue
  str binary timestamp : Text → ScalarValue

mutual
  pub data Filter : Type 0 where
    compare_field : Text → ComparisonOp → ScalarValue → Filter
    in_list not_in_list : Text → List ScalarValue → Filter
    all_of any_of : Filters → Filter
    negated : Filter → Filter
    is_null is_not_null contains_text starts_with_text ends_with_text : Text → Filter

  pub data Filters : Type 0 where
    no_filters : Filters
    one_filter : Filter → Filters → Filters

-- Why a filter is refused.
pub data Refusal : Type 0 where
  bad_field no_values no_children null_compared unsupported : Refusal

unfoldable pub is_letter : ℕ → Bool
is_letter c = (leb 65 c && leb c 90) || (leb 97 c && leb c 122) || c == 95

unfoldable pub is_word : ℕ → Bool
is_word c = is_letter c || (leb 48 c && leb c 57)

unfoldable pub validate_field : Text → Result (Unit {0}) Refusal
validate_field [] = err bad_field
validate_field (c ∷ field) = if is_letter c && all is_word (c ∷ field) then ok tt else err bad_field

unfoldable pub odata_op : ComparisonOp → Text
odata_op op_eq = codes "eq"
odata_op op_ne = codes "ne"
odata_op op_gt = codes "gt"
odata_op op_gte = codes "ge"
odata_op op_lt = codes "lt"
odata_op op_lte = codes "le"

-- `replace`, of a quote by two.
unfoldable pub double_quotes : Text → Text
double_quotes [] = []
double_quotes (c ∷ text) =
    let rest = double_quotes text in if c == 39 then 39 ∷ 39 ∷ rest else c ∷ rest

unfoldable pub quoted : Text → Text
quoted text = 39 ∷ (double_quotes text ++ 39 ∷ [])

unfoldable pub hex_digit : ℕ → ℕ
hex_digit d = if ltb d 10 then 48 + d else 87 + d

unfoldable pub hex : Text → Text
hex [] = []
hex (b ∷ bytes) = hex_digit (b / 16) ∷ hex_digit (b % 16) ∷ hex bytes

unfoldable pub odata_value : ScalarValue → Result Text Refusal
odata_value null_value = err null_compared
odata_value (bool_value true) = ok (codes "true")
odata_value (bool_value false) = ok (codes "false")
odata_value (int32 i) = ok (to_text i)
odata_value (int64 i) = ok (to_text i ++ codes "L")
odata_value (float64 whole fixed full) = ok (if whole then fixed else full)
odata_value (str text) = ok (quoted text)
odata_value (binary bytes) = ok (codes "X'" ++ (hex bytes ++ codes "'"))
odata_value (timestamp text) = ok (codes "datetime" ++ quoted text)

unfoldable pub equals : Text → List ScalarValue → Result (List Text) Refusal
equals field [] = ok []
equals field (v ∷ values) = odata_value v >>= λ text.
    equals field values >>= λ rest. ok ((field ++ (codes " eq " ++ text)) ∷ rest)

-- A list's values, of which there is one at least.
unfoldable pub value_list : Text → Text → List ScalarValue → Result Text Refusal
value_list before field [] = err no_values
value_list before field (v ∷ values) =
    equals field (v ∷ values) >>= λ parts. ok (before ++ (join (codes " or ") parts ++ codes ")"))

unfoldable pub some_parts : (List Text → Text) → List Text → Result Text Refusal
some_parts f [] = err no_children
some_parts f (part ∷ parts) = ok (f (part ∷ parts))

unfoldable pub any_parts : List Text → Text
any_parts parts = codes "(" ++ (join (codes " or ") parts ++ codes ")")

unfoldable pub compared : Text → ComparisonOp → Text → Text
compared field op text = field ++ (codes " " ++ (odata_op op ++ (codes " " ++ text)))

unfoldable pub negation : Text → Text
negation text = codes "not (" ++ (text ++ codes ")")

unfoldable mutual
  pub to_odata : Filter → Result Text Refusal
  to_odata (compare_field field op value) =
      validate_field field >>= λ valid. odata_value value >>= λ text. ok (compared field op text)
  to_odata (in_list field values) =
      validate_field field >>= λ valid. value_list (codes "(") field values
  to_odata (not_in_list field values) =
      validate_field field >>= λ valid. value_list (codes "not (") field values
  to_odata (all_of children) = each_odata children >>= some_parts (join (codes " and "))
  to_odata (any_of children) = each_odata children >>= some_parts any_parts
  to_odata (negated inner) = to_odata inner >>= λ text. ok (negation text)
  to_odata (is_null field) = err unsupported
  to_odata (is_not_null field) = err unsupported
  to_odata (contains_text field) = err unsupported
  to_odata (starts_with_text field) = err unsupported
  to_odata (ends_with_text field) = err unsupported

  pub each_odata : Filters → Result (List Text) Refusal
  each_odata no_filters = ok []
  each_odata (one_filter f rest) =
      to_odata f >>= λ text. each_odata rest >>= λ texts. ok (text ∷ texts)
