-- ===== src/Wire/Answer.antt =====
-- src/wire/message.rs: what a client got back for each statement.
pub mod Framing
pub mod Layout
pub mod Appended
use tessaridb_sdk_rust.Common.{
  ℕ, zero, suc, Bool, true, false, not, Option, none, some, List, [], ◌∷◌, ◌==◌, if◌then◌else◌,
  Result, ok, err, bind, pure, raise, lift, ◌>>=◌, take_each,
}
use tessaridb_sdk_rust.Common.Utf8.{Text, literal}
use tessaridb_sdk_rust.Common.SortedMap.{insert, number_order}
use tessaridb_sdk_rust.Error.{Error}
use tessaridb_sdk_rust.Value.{Value}
use tessaridb_sdk_rust.Wire.Body.{
  Body, take, take_u8, take_u32, take_u64, take_text, take_bytes, take_encoded, if_more,
}

-- `BTreeMap<u32, String>`
abbrev pub Names : Type 0
Names = List (ℕ × Text)

pub data Exact : Type 0 where
  exact : Exact
  not_exact : Text → Exact

pub record Correction : Type 0 where
  pub typed : Text
  pub instead : Text

pub data Suggested : Type 0 where
  not_sought : Suggested
  nothing_nearer : Suggested
  did_you_mean : List Correction → Suggested

pub record Note : Type 0 where
  pub kind : Text
  pub message : Text

pub record Records : Type 0 where
  pub records : List (Text × Value)
  pub path : Text
  pub names : Names
  pub notes : List Note
  pub only : Bool
  pub exact : Option Exact
  pub suggestion : Option Suggested

pub data Answer : Type 0 where
  done : Answer
  found : Records → Answer
  value : Value → Names → Answer
  keys : List Text → Answer
  removed : ℕ → Answer
  unknown : Answer

unfoldable pub path_name : ℕ → Text
path_name byte =
    if byte == 0
    then literal "record"
    else if byte == 1
    then literal "index"
    else if byte == 3
    then literal "ordered"
    else literal "scan"

-- The loop of `take_names`, with the map that it has filled so far.
unfoldable pub take_names_into : Names → ℕ → Body Names
take_names_into names zero = pure names
take_names_into names (suc count) = do
  table ← take_u32
  name ← take_text
  take_names_into (insert table name names) count

unfoldable pub take_names : Body Names
take_names = take_u32 >>= take_names_into []

unfoldable pub take_record : Body (Text × Value)
take_record = do id ← take_text; v ← take_encoded; pure (id, v)

unfoldable pub take_note : Body Note
take_note = do
  kind ← take_text
  message ← take_text
  pure (record { kind = kind; message = message })

unfoldable pub take_correction : Body Correction
take_correction = do
  typed ← take_text
  instead ← take_text
  pure (record { typed = typed; instead = instead })

unfoldable pub take_exact : Body (Option Exact)
take_exact = do
  approximate ← take_u8
  reason ← take_text
  pure (some (if approximate == 0 then exact else not_exact reason))

unfoldable pub take_suggested : ℕ → Body (Option Suggested)
take_suggested state =
    if state == 0
    then pure (some not_sought)
    else if state == 1
    then pure (some nothing_nearer)
    else if state == 2
    then ((take_u32 >>= take_each take_correction) >>= λ cs. pure (some (did_you_mean cs)))
    else pure none

-- Everything past the records is a later addition, read only if it is there.
unfoldable pub take_appended : ℕ → Names → List (Text × Value) → Body Answer
take_appended path names records = do
  notes ← if_more [] (take_u32 >>= take_each take_note)
  only ← if_more false (take_u8 >>= λ b. pure (not (b == 0)))
  exactness ← if_more none take_exact
  suggestion ← if_more none (take_u8 >>= take_suggested)
  pure (
      found (record {
        records = records;
        path = path_name path;
        names = names;
        notes = notes;
        only = only;
        exact = exactness;
        suggestion = suggestion;
      }))

unfoldable pub take_records : Body Answer
unfolding take_appended
take_records = do
  path ← take_u8
  names ← take_names
  records ← take_u32 >>= take_each take_record
  take_appended path names records

unfoldable pub take_value_answer : Body Answer
take_value_answer = do names ← take_names; v ← take_encoded; pure (value v names)

unfoldable pub decode_tagged : ℕ → Body Answer
decode_tagged tag =
    if tag == 0
    then pure done
    else if tag == 1
    then take_records
    else if tag == 2
    then take_value_answer
    else if tag == 3
    then ((take_u32 >>= take_each take_text) >>= λ ks. pure (keys ks))
    else if tag == 4
    then (take_u64 >>= λ n. pure (removed n))
    else pure unknown

unfoldable pub decode_one : Body Answer
decode_one = take_u8 >>= decode_tagged

-- An outcome is decoded inside its own length; what it leaves there is skipped.
unfoldable pub decode_outcome : List ℕ → Result Error Answer
decode_outcome outcome = bind (decode_one outcome) λ (answer, left). ok answer

unfoldable pub take_outcome : Body Answer
take_outcome = do length_of ← take_u32; outcome ← take length_of; lift (decode_outcome outcome)

unfoldable pub decode_answers : List ℕ → Result Error (List Answer)
decode_answers body =
    bind ((take_u32 >>= take_each take_outcome) body) λ (answers, left). ok answers
