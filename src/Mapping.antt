-- ===== src/Mapping.antt =====
-- src/mapping/: values and records into what a caller asks for, and the faults of that.
pub mod Elements
use tessaridb_sdk_rust.Common.{
  ℕ, suc, Bool, Option, none, some, List, [], ◌∷◌, ℤ, Result, ok, err, bind as and_then, ok_or,
}
use tessaridb_sdk_rust.Common.Utf8.{Text, literal}
use tessaridb_sdk_rust.Cache.Containers.{list_of}
use tessaridb_sdk_rust.Client.Follow.{get}
use tessaridb_sdk_rust.Queue.Worker.{remove}
use tessaridb_sdk_rust.Value.{Value, Number, entries}
use tessaridb_sdk_rust.Wire.Answer.{Answer}

pub data MappingFault : Type 0 where
  wrong_type : Text → Text → MappingFault
  no_such_field : Text → MappingFault
  in_field : Text → MappingFault → MappingFault
  at_element : ℕ → MappingFault → MappingFault
  not_records : MappingFault
  not_an_object : Text → MappingFault

unfoldable pub name_of : Value → Text
name_of Value.none = literal "an absent field"
name_of Value.null = literal "null"
name_of (Value.bool _) = literal "a boolean"
name_of (Value.number (Number.integer _)) = literal "a whole number"
name_of (Value.number (Number.float _)) = literal "a floating-point number"
name_of (Value.number (Number.decimal _ _)) = literal "an exact decimal"
name_of (Value.string _) = literal "text"
name_of (Value.bytes _) = literal "bytes"
name_of (Value.duration _ _) = literal "a duration"
name_of (Value.datetime _ _) = literal "a datetime"
name_of (Value.uuid _) = literal "a uuid"
name_of (Value.table _) = literal "a table reference"
name_of (Value.reference _) = literal "a record reference"
name_of (Value.array _) = literal "an array"
name_of (Value.object _) = literal "an object"
name_of (Value.range _ _) = literal "a range"
name_of (Value.set _) = literal "a set"
name_of (Value.geometry _) = literal "a geometry"
name_of (Value.regex _) = literal "a pattern"

-- `trait FromValue`
pub record FromValue (A : Type 0) : Type 0 where
  pub from_value : Value → Result MappingFault A
  pub absent : Option A

unfoldable pub mismatch : {A : Type 0} → Text → Value → Result MappingFault A
unfolding name_of
mismatch expected found = err (wrong_type expected (name_of found))

unfoldable pub value_itself : FromValue Value
value_itself = record { from_value = λ v. ok v; absent = none }

unfoldable pub bool_from : Value → Result MappingFault Bool
unfolding mismatch
bool_from (Value.bool held) = ok held
bool_from other = mismatch (literal "a boolean") other

unfoldable pub integer_from : Value → Result MappingFault ℤ
unfolding mismatch
integer_from (Value.number (Number.integer held)) = ok held
integer_from other = mismatch (literal "a whole number") other

unfoldable pub float_from : Value → Result MappingFault ℕ
unfolding mismatch
float_from (Value.number (Number.float bits)) = ok bits
float_from other = mismatch (literal "a floating-point number") other

unfoldable pub number_from : Value → Result MappingFault Number
unfolding mismatch
number_from (Value.number held) = ok held
number_from other = mismatch (literal "a number") other

unfoldable pub text_from : Value → Result MappingFault Text
unfolding mismatch
text_from (Value.string held) = ok held
text_from other = mismatch (literal "text") other

unfoldable pub bytes_from : Value → Result MappingFault (List ℕ)
unfolding mismatch
bytes_from (Value.bytes held) = ok held
bytes_from other = mismatch (literal "bytes") other

-- A type whose `absent` is the default one.
unfoldable pub present : {A : Type 0} → (Value → Result MappingFault A) → FromValue A
present read = record { from_value = read; absent = none }

unfoldable pub optional_from :
    {A : Type 0} → (Value → Result MappingFault A) → Value → Result MappingFault (Option A)
optional_from read Value.none = ok none
optional_from read Value.null = ok none
optional_from read held = and_then (read held) λ a. ok (some a)

unfoldable pub optional : {A : Type 0} → FromValue A → FromValue (Option A)
unfolding optional_from
optional inner = record { from_value = optional_from inner.from_value; absent = some none }

unfoldable pub in_element : {A : Type 0} → ℕ → Result MappingFault A → Result MappingFault A
in_element index (ok a) = ok a
in_element index (err cause) = err (at_element index cause)

unfoldable pub elements_from :
    {A : Type 0} → (Value → Result MappingFault A) → ℕ → List Value → Result MappingFault (List A)
unfolding in_element
elements_from read index [] = ok []
elements_from read index (v ∷ vs) =
    and_then (in_element index (read v))
      λ first. and_then (elements_from read (suc index) vs) λ later. ok (first ∷ later)

unfoldable pub sequence_from :
    {A : Type 0} → (Value → Result MappingFault A) → Value → Result MappingFault (List A)
unfolding elements_from mismatch list_of
sequence_from read (Value.array held) = elements_from read 0 (list_of held)
sequence_from read (Value.set held) = elements_from read 0 (list_of held)
sequence_from read other = mismatch (literal "an array") other

pub record Row : Type 0 where
  pub id : Text
  pub fields : List (Text × Value)

unfoldable pub row : Text → Value → Result MappingFault Row
unfolding name_of
row id (Value.object held) = ok (record { id = id; fields = entries held })
row id other = err (not_an_object (name_of other))

unfoldable pub taken : {A : Type 0} → FromValue A → Text → Option Value → Result MappingFault A
taken into name none = ok_or (no_such_field name) into.absent
taken into name (some v) = elim (into.from_value v) [
  | ok a ↦ ok a
  | err cause ↦ err (in_field name cause)
]

-- `BTreeMap::remove` gives what it takes out.
unfoldable pub take : {A : Type 0} → FromValue A → Text → Row → Result MappingFault A × Row
unfolding taken get remove
take into name r = (taken into name (get r.fields name), record r { fields = remove name r.fields })

unfoldable pub from_rows :
    {A : Type 0}
    → (Row → Result MappingFault A)
    → List (Text × Value)
    → Result MappingFault (List A)
unfolding row
from_rows from_row [] = ok []
from_rows from_row ((id, v) ∷ rest) =
    and_then (and_then (row id v) from_row)
      λ first. and_then (from_rows from_row rest) λ later. ok (first ∷ later)

unfoldable pub records_into :
    {A : Type 0} → (Row → Result MappingFault A) → Answer → Result MappingFault (List A)
unfolding from_rows
records_into from_row (Answer.found held) = from_rows from_row held.records
records_into from_row other = err not_records
