-- ===== src/Query/Names.antt =====
-- src/query/mod.rs: which strings may be written into a statement as a name. The source tests
-- characters; every byte of a character outside ASCII is above 127 and fails the same tests.
use tessaridb_sdk_rust.Common.{
  ℕ, Bool, true, false, ◌&&◌, ◌==◌, leb, [], ◌∷◌, if◌then◌else◌, Result, ok, err,
}
use tessaridb_sdk_rust.Common.Utf8.{Text}
use tessaridb_sdk_rust.Query.Fault.{BuildError, not_a_name}

unfoldable pub is_digit : ℕ → Bool
is_digit c = leb b'0' c && leb c b'9'

unfoldable pub is_letter : ℕ → Bool
is_letter c = if leb b'a' c && leb c b'z' then true else leb b'A' c && leb c b'Z'

-- `first.is_ascii_alphabetic() || first == '_'`
unfoldable pub opens_name : ℕ → Bool
opens_name c = if is_letter c then true else c == b'_'

-- `character.is_ascii_alphanumeric() || character == '_'`
unfoldable pub continues_name : ℕ → Bool
continues_name c = if is_digit c then true else opens_name c

unfoldable pub all_continue : Text → Bool
all_continue [] = true
all_continue (c ∷ cs) = continues_name c && all_continue cs

unfoldable pub is_name : Text → Bool
is_name [] = false
is_name (first ∷ rest) = if opens_name first then all_continue rest else false

unfoldable pub check_name : Text → Text → Result BuildError (Unit {0})
check_name what name = if is_name name then ok tt else err (not_a_name what name)
