-- ===== src/Codec/Reader.antt =====
-- src/codec/read.rs, `Reader`: the primitive reads. A reader is the bytes from `at` on.
use tessaridb_sdk_rust.Common.{
  take_each, ℕ, ◌^◌, ℤ, of_pattern, List, [], ◌∷◌, ◌++◌, length, first, split_at, leb, ◌==◌,
  if◌then◌else◌, Result, ok, err, ok_or, Parser, pure, raise, lift, ◌>>=◌,
}
use tessaridb_sdk_rust.Common.Bytes.{from_be_bytes}
use tessaridb_sdk_rust.Common.Utf8.{Text, valid_utf8}
use tessaridb_sdk_rust.Codec.Write.{flip_sign}
use tessaridb_sdk_rust.Codec.Fault.{EncodingFault, escape, terminator, escaped_zero}
use tessaridb_sdk_rust.Codec.Fault.EncodingFault.{
  truncated, invalid_utf8, unterminated, invalid_escape, invalid_sub_second,
}

abbrev pub Reader : Type 0 → Type 0
Reader A = Parser EncodingFault A

-- `self.bytes.get(self.at..end).ok_or(Truncated)`
unfoldable pub take : ℕ → Reader (List ℕ)
take count bytes = ok_or truncated (split_at count bytes)

unfoldable pub take_u8 : Reader ℕ
take_u8 = do slice ← take 1; lift (ok_or truncated (first slice))

-- `<[u8; N]>::try_from(slice)` fails on a slice of another length.
unfoldable pub take_fixed : ℕ → Reader (List ℕ)
take_fixed n = do slice ← take n; if length slice == n then pure slice else raise truncated

unfoldable pub take_u32 : Reader ℕ
take_u32 = do bytes ← take_fixed 4; pure (from_be_bytes 0 bytes)

-- The sign bit is inverted.
unfoldable pub take_i64 : Reader ℤ
take_i64 = do bytes ← take_fixed 8; pure (of_pattern (2 ^ 63) (from_be_bytes 0 (flip_sign bytes)))

unfoldable pub take_lenbytes : Reader (List ℕ)
take_lenbytes = do len ← take_u32; take len

unfoldable pub from_utf8 : List ℕ → Result EncodingFault Text
from_utf8 bytes = if valid_utf8 bytes then ok bytes else err invalid_utf8

unfoldable pub take_text : Reader Text
take_text = do bytes ← take_lenbytes; lift (from_utf8 bytes)

-- The loop of `take_varbytes`, with what it has pushed so far.
unfoldable pub take_varbytes_from : List ℕ → Reader (List ℕ)
take_varbytes_from out [] = err unterminated
take_varbytes_from out (byte ∷ []) = err unterminated
take_varbytes_from out (byte ∷ next ∷ rest) =
    let after_byte = take_varbytes_from (out ++ byte ∷ []) (next ∷ rest) in
    let after_escape = take_varbytes_from (out ++ escape ∷ []) rest in
    if byte == escape
    then if next == terminator
      then ok (out, rest)
      else if next == escaped_zero
      then after_escape
      else err (invalid_escape next)
    else after_byte

unfoldable pub take_varbytes : Reader (List ℕ)
take_varbytes = take_varbytes_from []

-- A count and then the items.
unfoldable pub take_counted : {A : Type 0} → Reader A → Reader (List A)
take_counted read = do count ← take_u32; take_each read count

unfoldable pub take_time : Reader (ℤ × ℕ)
take_time = do
  seconds ← take_i64
  nanos ← take_u32
  if leb 1_000_000_000 nanos then raise (invalid_sub_second nanos) else pure (seconds, nanos)
