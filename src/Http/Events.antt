-- ===== src/Http/Events.antt =====
-- src/http/series.rs: a batch of events as source text. How `{:?}` writes a double is a parameter.
pub mod Escapes
use tessaridb_sdk_rust.Common.{
  ℕ, zero, suc, ◌+◌, ◌-◌, ◌/◌, ◌%◌, Bool, true, false, Option, none, some, List, [], ◌∷◌, ◌++◌, ℤ,
  pos, negsuc, Result, ok, err, bind as and_then, ltb, leb, ◌==◌, length, if◌then◌else◌,
}
use tessaridb_sdk_rust.Common.Utf8.{Text, literal}
use tessaridb_sdk_rust.Cache.Rankings.{is_finite}
use tessaridb_sdk_rust.Error.{Error, not_an_event}
use tessaridb_sdk_rust.Http.Calendar.{instant, zeros}
use tessaridb_sdk_rust.Statement.{decimal_wide}
use tessaridb_sdk_rust.Value.{Value, Number, Items, no_items, item, Fields, no_fields, field}

-- `\` and `'` are bytes of no other character, so that the loop is over bytes.
unfoldable pub is_escaped : ℕ → Bool
is_escaped c = if c == b'\\' then true else c == b'\''

unfoldable pub escaped : Text → Text
unfolding is_escaped
escaped [] = []
escaped (c ∷ cs) = let later = escaped cs in if is_escaped c then b'\\' ∷ c ∷ later else c ∷ later

unfoldable pub quoted : Text → Text
unfolding escaped
quoted text = b'\'' ∷ (escaped text ++ literal "'")

-- `split_at` of the digits, with a point in between.
unfoldable pub pointed : ℕ → Text → Text
pointed zero digits = b'.' ∷ digits
pointed (suc before) [] = b'.' ∷ []
pointed (suc before) (d ∷ ds) = d ∷ pointed before ds

unfoldable pub scaled : ℕ → Text → Text
unfolding zeros pointed
scaled scale digits =
    let whole =
      (if leb (length digits) scale then zeros (scale - length digits + 1) ++ digits else digits) in
    if scale == 0 then digits else pointed (length whole - scale) whole

-- `unsigned_abs` of an `i128`, in digits.
unfoldable pub magnitude : ℤ → Text
magnitude (pos n) = decimal_wide n
magnitude (negsuc n) = decimal_wide (n + 1)

unfoldable pub sign : ℤ → Text
sign (pos n) = []
sign (negsuc n) = literal "-"

unfoldable pub decimal : ℤ → ℕ → Text
unfolding scaled magnitude sign
decimal mantissa scale = literal "dec " ++ (sign mantissa ++ scaled scale (magnitude mantissa))

unfoldable pub lower_digit : ℕ → ℕ
lower_digit n = if ltb n 10 then 48 + n else 87 + n

unfoldable pub dash_before : ℕ → Text
dash_before position =
    if position == 4
    then literal "-"
    else if position == 6
    then literal "-"
    else if position == 8
    then literal "-"
    else if position == 10
    then literal "-"
    else []

-- The loop over the bytes, from `position` on.
unfoldable pub uuid_from : ℕ → List ℕ → Text
unfolding lower_digit dash_before
uuid_from position [] = []
uuid_from position (b ∷ bs) =
    dash_before position
    ++ lower_digit (b / 16) ∷ lower_digit (b % 16) ∷ uuid_from (suc position) bs

unfoldable pub comma_unless : Bool → Text
comma_unless true = []
comma_unless false = literal ", "

unfoldable pub opening : Bool → Text
opening true = literal " "
opening false = literal ", "

unfoldable pub closing : Bool → Text
closing true = literal "}"
closing false = literal " }"

unfoldable pub no_spelling : Error
no_spelling = not_an_event (
    literal
      "an event carries null, booleans, numbers, strings, datetimes, uuids, arrays and objects")

module _ (show_float : ℕ → Text) where
  unfoldable pub number : Number → Result Error Text
  unfolding decimal sign magnitude
  number (Number.integer held) = ok (sign held ++ magnitude held)
  number (Number.float bits) =
      if is_finite bits
      then ok (show_float bits)
      else err (not_an_event (literal "a float that is not finite has no spelling"))
  number (Number.decimal mantissa scale) = ok (decimal mantissa scale)

  -- `is_first` says that nothing has been written before an element or a field.
  unfoldable mutual
    unfolding number quoted uuid_from no_spelling comma_unless opening closing

    pub spelled : Value → Result Error Text
    spelled Value.null = ok (literal "NULL")
    spelled (Value.bool true) = ok (literal "true")
    spelled (Value.bool false) = ok (literal "false")
    spelled (Value.number n) = number n
    spelled (Value.string held) = ok (quoted held)
    spelled (Value.datetime seconds nanos) =
        and_then (instant seconds nanos) λ held. ok (literal "datetime '" ++ (held ++ literal "'"))
    spelled (Value.uuid bytes) = ok (literal "uuid '" ++ (uuid_from 0 bytes ++ literal "'"))
    spelled (Value.array items) =
        and_then (spelled_items true items) λ held. ok (literal "[" ++ (held ++ literal "]"))
    spelled (Value.object fields) =
        and_then (spelled_fields true fields) λ held. ok (literal "{" ++ held)
    spelled other = err no_spelling

    pub spelled_items : Bool → Items → Result Error Text
    spelled_items is_first no_items = ok []
    spelled_items is_first (item Value.none rest) =
        err (not_an_event (literal "an array cannot hold an absence"))
    spelled_items is_first (item v rest) = and_then (spelled v) λ held.
        and_then (spelled_items false rest) λ later. ok (comma_unless is_first ++ (held ++ later))

    pub spelled_fields : Bool → Fields → Result Error Text
    spelled_fields is_first no_fields = ok (closing is_first)
    spelled_fields is_first (field name Value.none rest) = spelled_fields is_first rest
    spelled_fields is_first (field name v rest) = and_then (spelled v) λ held.
        and_then (spelled_fields false rest)
          λ later. ok (opening is_first ++ (quoted name ++ (literal ": " ++ (held ++ later))))

  -- Each event is an object.
  unfoldable pub event : Value → Result Error Text
  unfolding spelled
  event (Value.object fields) = spelled (Value.object fields)
  event other = err (not_an_event (literal "an event is an object"))

  unfoldable pub events_from : Bool → List Value → Result Error Text
  unfolding event comma_unless
  events_from is_first [] = ok (literal "]")
  events_from is_first (v ∷ vs) =
      and_then (event v) λ held.
        and_then (events_from false vs) λ later. ok (comma_unless is_first ++ (held ++ later))

  unfoldable pub batch : List Value → Result Error Text
  unfolding events_from
  batch events = and_then (events_from true events) λ held. ok (b'[' ∷ held)
