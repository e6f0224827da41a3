-- ===== src/Query/Span.antt =====
-- src/query/mod.rs, `check_span`: spans such as `30s` and `1h30m`.
pub mod Grammar
pub mod Found
use tessaridb_sdk_rust.Common.{
  ℕ, zero, suc, Bool, true, false, ◌==◌, Option, none, some, List, [], ◌∷◌, length, Result, ok, err,
  if◌then◌else◌,
}
use tessaridb_sdk_rust.Common.Utf8.{Text}
use tessaridb_sdk_rust.Query.Fault.{BuildError, not_a_span}
use tessaridb_sdk_rust.Query.Names.{is_digit}

-- `SPAN_UNITS`, longest first so that `ms` is read before `m`.
abbrev pub span_units : List Text
span_units =
    (b'm' ∷ b's' ∷ [])
    ∷ (b'n' ∷ b's' ∷ [])
    ∷ (b'u' ∷ b's' ∷ [])
    ∷ (b's' ∷ [])
    ∷ (b'm' ∷ [])
    ∷ (b'h' ∷ [])
    ∷ (b'd' ∷ [])
    ∷ (b'w' ∷ [])
    ∷ []

-- `rest.trim_start_matches(|c| c.is_ascii_digit())`
unfoldable pub trim_digits : Text → Text
trim_digits [] = []
trim_digits (c ∷ cs) = let trimmed = trim_digits cs in if is_digit c then trimmed else c ∷ cs

-- What follows a prefix, if the text starts with it.
unfoldable pub after_prefix : Text → Text → Option Text
after_prefix [] rest = some rest
after_prefix (p ∷ ps) [] = none
after_prefix (p ∷ ps) (c ∷ cs) = let rest = after_prefix ps cs in if p == c then rest else none

unfoldable pub first_of : Option Text → Option Text → Option Text
first_of (some rest) other = some rest
first_of none other = other

-- `SPAN_UNITS.iter().find(|unit| rest.starts_with(*unit))`, with what is left behind the unit.
unfoldable pub find_unit : List Text → Text → Option Text
unfolding first_of
find_unit [] rest = none
find_unit (unit ∷ units) rest = first_of (after_prefix unit rest) (find_unit units rest)

-- What follows one round of the loop: digits and a unit.
unfoldable pub after_part : Text → Option Text
after_part [] = none
after_part (c ∷ cs) = if is_digit c then find_unit span_units (trim_digits cs) else none

unfoldable pub goes_on : Option Text → (Text → Bool) → Bool
goes_on none again = false
goes_on (some rest) again = again rest

-- The loop, with `seen`: whether it ends with every byte read and a part seen. A round reads two
-- bytes at least, so as many rounds as there are bytes are enough.
unfoldable pub spans : ℕ → Bool → Text → Bool
unfolding goes_on
spans rounds seen [] = seen
spans zero seen (c ∷ cs) = false
spans (suc rounds) seen (c ∷ cs) = goes_on (after_part (c ∷ cs)) (spans rounds true)

unfoldable pub check_span : Text → Result BuildError (Unit {0})
check_span bound = if spans (length bound) false bound then ok tt else err (not_a_span bound)
