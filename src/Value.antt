-- ===== src/Value.antt =====
-- src/value.rs: the values that a node carries. A string is its bytes, a double is its 64 bits, a fixed
-- array is a list, and a `BTreeMap` is the list of its entries in the order of their keys.
pub mod Valid
use tessaridb_sdk_rust.Common.{ℕ, suc, ℤ, Bool, List, [], ◌∷◌}
use tessaridb_sdk_rust.Common.Utf8.{Text}
use tessaridb_sdk_rust.Geometry.{Geometry}

-- A decimal is `mantissa / 10 ^ scale`.
pub data Number : Type 0 where
  integer : ℤ → Number
  float : ℕ → Number
  decimal : ℤ → ℕ → Number

pub data RecordId : Type 0 where
  int : ℤ → RecordId
  text : Text → RecordId
  uuid : List ℕ → RecordId
  bytes : List ℕ → RecordId

pub record RecordRef : Type 0 where
  pub table : ℕ
  pub id : RecordId

-- `Items` is the vector inside an array or a set, `Fields` the map inside an object, and the two
-- arguments of `range` are the ends of a `ValueRange`. `reference` is the source's `Record`.
mutual
  pub data Value : Type 0 where
    none : Value
    null : Value
    bool : Bool → Value
    number : Number → Value
    string : Text → Value
    bytes : List ℕ → Value
    duration : ℤ → ℕ → Value
    datetime : ℤ → ℕ → Value
    uuid : List ℕ → Value
    table : ℕ → Value
    reference : RecordRef → Value
    array : Items → Value
    object : Fields → Value
    range : Bound → Bound → Value
    set : Items → Value
    geometry : Geometry → Value
    regex : Text → Value

  pub data Items : Type 0 where
    no_items : Items
    item : Value → Items → Items

  pub data Fields : Type 0 where
    no_fields : Fields
    field : Text → Value → Fields → Fields

  pub data Bound : Type 0 where
    unbounded : Bound
    included : Value → Bound
    excluded : Value → Bound

unfoldable pub length_items : Items → ℕ
length_items no_items = 0
length_items (item v rest) = suc (length_items rest)

unfoldable pub length_fields : Fields → ℕ
length_fields no_fields = 0
length_fields (field k v rest) = suc (length_fields rest)

-- An object's fields as the entries of a map, and back.
unfoldable pub entries : Fields → List (Text × Value)
entries no_fields = []
entries (field k v rest) = (k, v) ∷ entries rest

unfoldable pub of_entries : List (Text × Value) → Fields
of_entries [] = no_fields
of_entries ((k, v) ∷ rest) = field k v (of_entries rest)
