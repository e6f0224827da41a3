-- ===== src/Statement.antt =====
-- What the handles of src/queue/, src/consumer/, src/cache/ and src/vault/ share: the tenancy that
-- goes before every statement, durations, and parameters with their names.
pub mod References
use tessaridb_sdk_rust.Common.{
  ℕ, ◌+◌, ◌*◌, ◌/◌, ◌%◌, ◌^◌, Bool, true, false, Option, none, some, List, [], ◌∷◌, ◌++◌, ℤ, pos,
  negsuc, Result, ok, err, bind as and_then, ltb, leb, ◌==◌, ◌&&◌, if◌then◌else◌, length,
}
use tessaridb_sdk_rust.Common.Utf8.{Text, literal}
use tessaridb_sdk_rust.Error.{Error, build}
use tessaridb_sdk_rust.Query.Decimal.{decimal_from}
use tessaridb_sdk_rust.Query.Fault.{BuildError}
use tessaridb_sdk_rust.Query.Names.{check_name, is_digit, is_letter}
use tessaridb_sdk_rust.Value.{Value, Number}

-- `std::time::Duration`
pub record Duration : Type 0 where
  pub secs : ℕ
  pub subsec_nanos : ℕ

unfoldable pub as_millis : Duration → ℕ
as_millis d = d.secs * 1000 + d.subsec_nanos / 1_000_000

-- `Duration::new`, which carries whole seconds out of the nanoseconds.
unfoldable pub duration_new : ℕ → ℕ → Duration
duration_new seconds nanos = record {
  secs = seconds + nanos / 1_000_000_000;
  subsec_nanos = nanos % 1_000_000_000;
}

-- A statement and what its parameters bind to.
abbrev pub Rendered : Type 0
Rendered = Text × List (Text × Value)

unfoldable pub tenancy_of : Text → Text → Text
tenancy_of namespace database =
    literal "USE NAMESPACE "
    ++ (namespace ++ (literal "; USE DATABASE " ++ (database ++ literal "; ")))

-- `held.is_ascii_alphanumeric() || "_.:-".contains(held)`, on bytes: a byte of a character outside
-- ASCII fails both tests.
unfoldable pub may_be_quoted : ℕ → Bool
may_be_quoted c =
    if is_digit c
    then true
    else if is_letter c
    then true
    else if c == b'_'
    then true
    else if c == b'.'
    then true
    else if c == b':'
    then true
    else c == b'-'

unfoldable pub all_may_be_quoted : Text → Bool
all_may_be_quoted [] = true
all_may_be_quoted (c ∷ cs) = may_be_quoted c && all_may_be_quoted cs

-- A group's or a worker's name: 1 to 128 of those.
unfoldable pub is_quotable : Text → Bool
is_quotable name = leb 1 (length name) && leb (length name) 128 && all_may_be_quoted name

-- A `u128` has at most 39 digits.
unfoldable pub decimal_wide : ℕ → Text
decimal_wide n = decimal_from 39 n []

-- `duration.filter(|millis| *millis > 0).map_or_else(String::new, …)`
unfoldable pub delay_tail : Text → Option Duration → Text
delay_tail word none = []
delay_tail word (some after) =
    let tail = word ++ (decimal_wide (as_millis after) ++ literal "ms") in
    if ltb 0 (as_millis after) then tail else []

-- `u64::try_from(*held).ok()` of an integer value.
unfoldable pub whole : Option Value → Option ℕ
whole (some (Value.number (Number.integer (pos n)))) = some n
whole other = none

-- `?` on a statement that could not be built.
unfoldable pub built : {A : Type 0} → Result BuildError A → Result Error A
built (ok a) = ok a
built (err e) = err (build e)
