-- ===== src/Codec/RoundTrip.antt =====
-- What was encoded decodes back: src/codec/read.rs against src/codec/write.rs.
mod Words
mod Parts
mod Values
pub use Words.{take_u8-Reads, take_fixed-Reads, take_varbytes-Reads}
use tessaridb_sdk_rust.Common.{
  ℕ, suc, ◌+◌, ◌≤◌, ◌≡◌, refl, sym, ap, ◌∙◌, List, [], ◌∷◌, ◌++◌, append-nil, arith, length, ok,
  err, bind, Result,
}
use tessaridb_sdk_rust.Codec.Write.{encode, put_value, put_varbytes}
use tessaridb_sdk_rust.Codec.Fault.{EncodingFault}
use tessaridb_sdk_rust.Codec.Fault.EncodingFault.{trailing_bytes}
use tessaridb_sdk_rust.Codec.Reader.{take_varbytes}
use tessaridb_sdk_rust.Codec.Read.{take_value, finish, decode, max_depth}
use tessaridb_sdk_rust.Value.{Value}
use tessaridb_sdk_rust.Value.Valid.{IsValid, depth}

-- What is left over after a valid value is what `finish` is asked about.
pub decode-encode-finish :
    (v : Value) (more : List ℕ)
    → IsValid v
    → depth v ≤ max_depth + 1
    → decode (encode v ++ more) ≡ finish v more
unfolding decode encode
decode-encode-finish v more h d = rw ((Values.take_value-Reads v (max_depth + 1) h d).reads more)

-- The same with nothing behind it.
pub decode-encode_alone :
    (v : Value) → IsValid v → depth v ≤ max_depth + 1 → decode (encode v) ≡ ok v
unfolding finish
decode-encode_alone v h d = rw (append-nil (encode v)) at (decode-encode-finish v [] h d)

-- A valid value of at most 129 levels (`MAX_DEPTH` nestings below the outermost) is decoded from
-- its encoding, and bytes after the encoding are refused with their number.
pub decode-encode :
    (v : Value) (b : ℕ) (more : List ℕ)
    → IsValid v
    → depth v ≤ 129
    → (decode (encode v) ≡ ok v)
      × (decode (encode v ++ b ∷ more) ≡ err (trailing_bytes (1 + length more)))
unfolding finish
decode-encode v b more h d =
    (decode-encode_alone v h d, decode-encode-finish v (b ∷ more) h d ∙ ap_suc more)
  where
    ap_suc : (bs : List ℕ) → finish v (b ∷ bs) ≡ err (trailing_bytes (1 + length bs))
    ap_suc bs = ap (λ n. err (trailing_bytes n)) (omega arith)
