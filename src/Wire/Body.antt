-- ===== src/Wire/Body.antt =====
-- src/wire/frame.rs, the body primitives: plain integers, most significant byte first. A cursor is
-- the bytes that it has not read.
pub mod RoundTrip
use tessaridb_sdk_rust.Common.{
  ℕ, List, [], ◌∷◌, ◌++◌, length, first, split_at, if◌then◌else◌, Result, ok, err, bind, ok_or,
  Parser, pure, lift, ◌>>=◌,
}
use tessaridb_sdk_rust.Common.Bytes.{to_be_bytes, from_be_bytes}
use tessaridb_sdk_rust.Common.Utf8.{Text, valid_utf8}
use tessaridb_sdk_rust.Codec.Fault.{EncodingFault}
use tessaridb_sdk_rust.Codec.Write.{count_of}
use tessaridb_sdk_rust.Codec.Read.{decode}
use tessaridb_sdk_rust.Error.{Error, malformed, encoding}
use tessaridb_sdk_rust.Value.{Value}

unfoldable pub put_u32 : ℕ → List ℕ
put_u32 value = to_be_bytes 4 value

unfoldable pub put_u64 : ℕ → List ℕ
put_u64 value = to_be_bytes 8 value

unfoldable pub put_bytes : List ℕ → List ℕ
put_bytes bytes = put_u32 (count_of (length bytes)) ++ bytes

unfoldable pub put_text : Text → List ℕ
put_text text = put_bytes text

abbrev pub Body : Type 0 → Type 0
Body A = Parser Error A

unfoldable pub take : ℕ → Body (List ℕ)
take count bytes = ok_or malformed (split_at count bytes)

unfoldable pub take_u8 : Body ℕ
take_u8 = do slice ← take 1; lift (ok_or malformed (first slice))

unfoldable pub take_u32 : Body ℕ
take_u32 = do bytes ← take 4; pure (from_be_bytes 0 bytes)

unfoldable pub take_u64 : Body ℕ
take_u64 = do bytes ← take 8; pure (from_be_bytes 0 bytes)

unfoldable pub take_bytes : Body (List ℕ)
take_bytes = take_u32 >>= take

-- `String::from_utf8(…).map_err(|_| Error::Malformed)`
unfoldable pub text_of_bytes : List ℕ → Result Error Text
text_of_bytes bytes = if valid_utf8 bytes then ok bytes else err malformed

unfoldable pub take_text : Body Text
take_text = take_bytes >>= λ bytes. lift (text_of_bytes bytes)

-- A field that later frames append: read if any byte is left, and `absent` if none is.
unfoldable pub if_more : {A : Type 0} → A → Body A → Body A
if_more absent read [] = ok (absent, [])
if_more absent read (b ∷ bs) = read (b ∷ bs)

-- `decode(&bytes).map_err(Error::from)`
unfoldable pub as_error : {A : Type 0} → Result EncodingFault A → Result Error A
as_error (ok a) = ok a
as_error (err fault) = err (encoding fault)

unfoldable pub take_encoded : Body Value
take_encoded = take_bytes >>= λ bytes. lift (as_error (decode bytes))
