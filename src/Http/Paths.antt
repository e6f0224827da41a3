-- ===== src/Http/Paths.antt =====
-- src/http/object.rs: the path of a file, percent-encoded.
pub mod Decoding
use tessaridb_sdk_rust.Common.{
  ℕ, ◌+◌, ◌/◌, ◌%◌, Bool, true, false, List, [], ◌∷◌, ◌++◌, ltb, ◌==◌, if◌then◌else◌,
}
use tessaridb_sdk_rust.Common.Utf8.{Text, literal}
use tessaridb_sdk_rust.Query.Names.{is_digit, is_letter}

unfoldable pub is_plain : ℕ → Bool
is_plain c =
    if is_letter c
    then true
    else if is_digit c
    then true
    else if c == b'-'
    then true
    else if c == b'.'
    then true
    else if c == b'_'
    then true
    else if c == b'~'
    then true
    else c == b'/'

-- A digit as `{:X}` writes it.
unfoldable pub hex_digit : ℕ → ℕ
hex_digit n = if ltb n 10 then 48 + n else 55 + n

unfoldable pub encode : Text → Text
unfolding is_plain hex_digit
encode [] = []
encode (c ∷ cs) =
    let later = encode cs in
    if is_plain c then c ∷ later else b'%' ∷ hex_digit (c / 16) ∷ hex_digit (c % 16) ∷ later

unfoldable pub route : Text → Text → Text → Text → Text
unfolding encode
route namespace database bucket path =
    literal "/files/" ++ (namespace ++ b'/' ∷ (database ++ b'/' ∷ (bucket ++ b'/' ∷ encode path)))
