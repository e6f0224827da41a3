-- ===== src/Wire/Push.antt =====
-- src/wire/push.rs: what a client subscribes to, and what arrives.
pub mod RoundTrip
pub mod Subscribing
use tessaridb_sdk_rust.Common.{
  ℕ, ◌+◌, ◌-◌, ◌^◌, min, Option, none, some, List, [], ◌∷◌, ◌++◌, ◌==◌, if◌then◌else◌, Result, ok,
  err, bind, pure, raise, ◌>>=◌,
}
use tessaridb_sdk_rust.Common.Utf8.{Text}
use tessaridb_sdk_rust.Common.SortedMap.{insert, text_order}
use tessaridb_sdk_rust.Codec.Write.{encode as encode_value}
use tessaridb_sdk_rust.Error.{Error, malformed}
use tessaridb_sdk_rust.Value.{Value, of_entries}
use tessaridb_sdk_rust.Wire.Body.{
  Body, put_u64, put_text, put_bytes, take_u8, take_u64, take_text, take_encoded, if_more,
}

pub record Follow : Type 0 where
  pub from : ℕ
  pub table : Option Text
  pub cursor : Option Text
  pub condition : Option Text
  pub parameters : List (Text × Value)

unfoldable pub everything : Follow
everything = record { from = 0; table = none; cursor = none; condition = none; parameters = [] }

-- `sequence.saturating_add(1)`
unfoldable pub resuming_after : ℕ → Follow
resuming_after sequence = record {
  from = min (sequence + 1) (2 ^ 64 - 1);
  table = none;
  cursor = none;
  condition = none;
  parameters = [];
}

unfoldable pub resuming_at : Text → Follow
resuming_at cursor = record {
  from = 0;
  table = none;
  cursor = some cursor;
  condition = none;
  parameters = [];
}

unfoldable pub to_table : Text → Follow → Follow
to_table table f = record f { table = some table }

unfoldable pub matching : Text → Follow → Follow
matching condition f = record f { condition = some condition }

unfoldable pub binding : Text → Value → Follow → Follow
binding name value f = record f { parameters = insert name value f.parameters }

unfoldable pub put_table : Option Text → List ℕ
put_table none = 0 ∷ []
put_table (some name) = 1 ∷ put_text name

-- A condition wants the cursor's place filled.
unfoldable pub put_cursor : Option Text → Option Text → List ℕ
put_cursor (some cursor) condition = put_text cursor
put_cursor none (some condition) = put_text []
put_cursor none none = []

unfoldable pub put_condition : Option Text → List (Text × Value) → List ℕ
put_condition none parameters = []
put_condition (some condition) parameters =
    put_text condition ++ put_bytes (encode_value (Value.object (of_entries parameters)))

unfoldable pub encode : Follow → List ℕ
unfolding put_table put_cursor put_condition
encode f =
    put_u64 f.from
    ++ (put_table f.table
        ++ (put_cursor f.cursor f.condition ++ put_condition f.condition f.parameters))

pub data Became : Type 0 where
  written : Value → Became
  removed : Became

pub record Change : Type 0 where
  pub sequence : ℕ
  pub table : Text
  pub id : Text
  pub became : Became
  pub cursor : Option Text

pub record Progress : Type 0 where
  pub sequence : ℕ
  pub cursor : Option Text

pub data Arrival : Type 0 where
  change : Change → Arrival
  progress : Progress → Arrival

unfoldable pub take_became : ℕ → Body Became
take_became kind =
    if kind == 0
    then (take_encoded >>= λ value. pure (written value))
    else if kind == 1
    then pure removed
    else raise malformed

-- The frame grows by appending: no bytes left mean no cursor.
unfoldable pub take_cursor : Body (Option Text)
take_cursor = if_more none (take_text >>= λ text. pure (some text))

unfoldable pub take_change : Body Change
take_change = do
  sequence ← take_u64
  table ← take_text
  id ← take_text
  became ← take_u8 >>= take_became
  cursor ← take_cursor
  pure (record { sequence = sequence; table = table; id = id; became = became; cursor = cursor })

unfoldable pub decode_change : List ℕ → Result Error Change
decode_change body = bind (take_change body) λ (found, left). ok found

unfoldable pub take_progress : Body Progress
take_progress = do
  sequence ← take_u64
  cursor ← take_cursor
  pure (record { sequence = sequence; cursor = cursor })

unfoldable pub decode_progress : List ℕ → Result Error Progress
decode_progress body = bind (take_progress body) λ (found, left). ok found
