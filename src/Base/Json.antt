-- ===== src/Base/Json.antt =====
-- JSON values, as serde_json's `Value` has them, and what serde's derived readers and writers do with
-- the fields of an object. Objects have distinct keys.
use Prim.Native.Nat.{ℕ}
use mathlib.Core.Bool.{Bool}
use mathlib.Core.List.{List, [], ◌∷◌}
use mathlib.Core.Option.{Option, none, some}
use omnia_backends.Base.Tests.{if◌then◌else◌}
use omnia_backends.Base.Order.{bytes_ord, same}

-- The integers over the native numbers.
pub data ℤ : Type 0 where
  pos negsuc : ℕ → ℤ

-- A number, an integer or the text of another.
pub data Number : Type 0 where
  integer : ℤ → Number
  float : List ℕ → Number

mutual
  pub data Json : Type 0 where
    null : Json
    bool : Bool → Json
    number : Number → Json
    string : List ℕ → Json
    array : Items → Json
    object : Fields → Json

  pub data Items : Type 0 where
    last_item : Items
    item : Json → Items → Items

  pub data Fields : Type 0 where
    no_fields : Fields
    field : List ℕ → Json → Fields → Fields

unfoldable pub fields_of : List (List ℕ × Json) → Fields
fields_of [] = no_fields
fields_of ((key, value) ∷ rest) = field key value (fields_of rest)

unfoldable pub items_of : List Json → Items
items_of [] = last_item
items_of (value ∷ rest) = item value (items_of rest)

unfoldable pub fields : Fields → List (List ℕ × Json)
fields no_fields = []
fields (field key value rest) = (key, value) ∷ fields rest

unfoldable pub items : Items → List Json
items last_item = []
items (item value rest) = value ∷ items rest

unfoldable pub lookup : List ℕ → Fields → Option Json
lookup key no_fields = none
lookup key (field k value rest) = if same key k then some value else lookup key rest
