-- ===== src/Codec/Fault.antt =====
-- src/codec/mod.rs, the escape bytes, and src/error.rs, what decoding a value reports.
use tessaridb_sdk_rust.Common.{ℕ}

-- A zero byte, which opens an escape and a terminator, and the second bytes of the two.
abbrev pub escape : ℕ
escape = 0x00

abbrev pub terminator : ℕ
terminator = 0x01

abbrev pub escaped_zero : ℕ
escaped_zero = 0xff

pub data EncodingFault : Type 0 where
  truncated : EncodingFault
  unknown_tag : ℕ → EncodingFault
  invalid_utf8 : EncodingFault
  invalid_sub_second : ℕ → EncodingFault
  unterminated : EncodingFault
  invalid_escape : ℕ → EncodingFault
  trailing_bytes : ℕ → EncodingFault
