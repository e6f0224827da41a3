-- ===== src/Query/Decimal.antt =====
-- The decimal text of a `u64`, as `u64::to_string` gives it.
use tessaridb_sdk_rust.Common.{ℕ, zero, suc, ◌+◌, ◌/◌, ◌%◌, ◌==◌, [], ◌∷◌, if◌then◌else◌}
use tessaridb_sdk_rust.Common.Utf8.{Text}

unfoldable pub decimal_from : ℕ → ℕ → Text → Text
decimal_from zero n later = later
decimal_from (suc places) n later =
    let digit = 48 + n % 10 in
    let longer = decimal_from places (n / 10) (digit ∷ later) in
    if n / 10 == 0 then digit ∷ later else longer

-- A `u64` has at most twenty digits.
unfoldable pub decimal : ℕ → Text
decimal n = decimal_from 20 n []
