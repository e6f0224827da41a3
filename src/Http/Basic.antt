-- ===== src/Http/Basic.antt =====
-- src/http/basic.rs: the `Authorization` header, and the base64 underneath it.
pub mod Decoding
use tessaridb_sdk_rust.Common.{ℕ, zero, suc, ◌+◌, ◌*◌, ◌/◌, ◌%◌, List, [], ◌∷◌, ◌++◌}
use tessaridb_sdk_rust.Common.Utf8.{Text, literal}

abbrev pub alphabet : Text
alphabet = literal "ABCDEFGHIJKLMNOPQRSTUVWXYZabcdefghijklmnopqrstuvwxyz0123456789+/"

-- `ALPHABET[index]`; the index is below the length wherever this is used.
unfoldable pub symbol_at : Text → ℕ → ℕ
symbol_at [] index = 0
symbol_at (c ∷ cs) zero = c
symbol_at (c ∷ cs) (suc index) = symbol_at cs index

-- `six & 0b0011_1111`
unfoldable pub symbol : ℕ → ℕ
unfolding symbol_at
symbol six = symbol_at alphabet (six % 64)

-- The four symbols of three bytes; the bits that are joined by `|` do not overlap, so they are added.
unfoldable pub first_symbol : ℕ → ℕ
unfolding symbol
first_symbol first = symbol (first / 4)

unfoldable pub second_symbol : ℕ → ℕ → ℕ
unfolding symbol
second_symbol first second = symbol (first % 4 * 16 + second / 16)

unfoldable pub third_symbol : ℕ → ℕ → ℕ
unfolding symbol
third_symbol second third = symbol (second % 16 * 4 + third / 64)

unfoldable pub encode : List ℕ → Text
unfolding symbol first_symbol second_symbol third_symbol
encode [] = []
encode (a ∷ []) = first_symbol a ∷ second_symbol a 0 ∷ b'=' ∷ b'=' ∷ []
encode (a ∷ b ∷ []) = first_symbol a ∷ second_symbol a b ∷ third_symbol b 0 ∷ b'=' ∷ []
encode (a ∷ b ∷ c ∷ rest) =
    first_symbol a ∷ second_symbol a b ∷ third_symbol b c ∷ symbol c ∷ encode rest

unfoldable pub header : Text → Text → Text
unfolding encode
header name password = literal "Basic " ++ encode (name ++ b':' ∷ password)
