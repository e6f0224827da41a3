-- ===== src/Wire/Body/RoundTrip.antt =====
-- The body primitives of src/wire/frame.rs: the reads undo the writes.
use tessaridb_sdk_rust.Common.{
  ℕ, ◌+◌, ◌^◌, ◌≤◌, ◌≡◌, List, [], ◌∷◌, length, split_at-append, lt→ltb, Reads, Reads-bind,
}
use tessaridb_sdk_rust.Common.Bytes.{length-to_be_bytes, from_be_bytes-to_be_bytes}
use tessaridb_sdk_rust.Common.Utf8.{Text}
use tessaridb_sdk_rust.Codec.Write.{count_of, encode}
use tessaridb_sdk_rust.Codec.Read.{max_depth}
use tessaridb_sdk_rust.Codec.RoundTrip.{decode-encode_alone}
use tessaridb_sdk_rust.Value.{Value}
use tessaridb_sdk_rust.Value.Valid.{IsU32, IsU64, IsShortText, IsValid, depth}
use tessaridb_sdk_rust.Wire.Body.{
  put_u32, put_u64, put_bytes, put_text, take, take_u8, take_u32, take_u64, take_bytes, take_text,
  take_encoded, text_of_bytes, as_error,
}

-- A value that a frame can carry and this client decodes.
pub record IsCarried (v : Value) : Type 0 where
  pub valid : IsValid v
  pub shallow : depth v ≤ max_depth + 1
  pub short : IsU32 (length (encode v))

pub take-Reads : (bytes : List ℕ) → Reads (take (length bytes)) bytes bytes
unfolding take
take-Reads bytes = record { reads = λ rest. rw (split_at-append bytes rest) }

pub take-Reads_of : (n : ℕ) (bytes : List ℕ) → length bytes ≡ n → Reads (take n) bytes bytes
take-Reads_of n bytes e = rw (← e) (take-Reads bytes)

pub take_node-Reads : (bytes : List ℕ) → length bytes ≡ 16 → Reads (take 16) bytes bytes
take_node-Reads = take-Reads_of 16

pub take_u8-Reads : (byte : ℕ) → Reads take_u8 (byte ∷ []) byte
unfolding take_u8
take_u8-Reads byte = record { reads = λ rest. rw ((take-Reads (byte ∷ [])).reads rest) }

pub take_u32-Reads : (n : ℕ) → IsU32 n → Reads take_u32 (put_u32 n) n
unfolding take_u32 put_u32
take_u32-Reads n h = record {
  reads = λ rest.
      rw ((take-Reads_of 4 _ (length-to_be_bytes 4 n)).reads rest, from_be_bytes-to_be_bytes 4 n h);
}

pub take_u64-Reads : (n : ℕ) → IsU64 n → Reads take_u64 (put_u64 n) n
unfolding take_u64 put_u64
take_u64-Reads n h = record {
  reads = λ rest.
      rw ((take-Reads_of 8 _ (length-to_be_bytes 8 n)).reads rest, from_be_bytes-to_be_bytes 8 n h);
}

pub take_count-Reads : (n : ℕ) → IsU32 n → Reads take_u32 (put_u32 (count_of n)) n
unfolding count_of
take_count-Reads n h = rw (lt→ltb n (2 ^ 32) h) (take_u32-Reads n h)

pub take_bytes-Reads :
    (bytes : List ℕ) → IsU32 (length bytes) → Reads take_bytes (put_bytes bytes) bytes
unfolding take_bytes put_bytes
take_bytes-Reads bytes h = Reads-bind _ (take_count-Reads (length bytes) h) (take-Reads bytes)

pub take_text-Reads : (t : Text) → IsShortText t → Reads take_text (put_text t) t
unfolding take_text put_text text_of_bytes
take_text-Reads t h = record { reads = λ rest. rw ((take_bytes-Reads t h.1).reads rest, h.0.utf8) }

pub take_encoded-Reads : (v : Value) → IsCarried v → Reads take_encoded (put_bytes (encode v)) v
unfolding take_encoded as_error
take_encoded-Reads v h = record {
  reads = λ rest.
      rw
        ((take_bytes-Reads (encode v) h.short).reads rest, decode-encode_alone v h.valid h.shallow);
}
