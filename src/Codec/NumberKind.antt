-- ===== src/Codec/NumberKind.antt =====
-- src/codec/mod.rs, `number_kind`: which of the three shapes a number takes.
use tessaridb_sdk_rust.Common.{ℕ}

abbrev pub integer : ℕ
integer = 0x01

abbrev pub float : ℕ
float = 0x02

abbrev pub decimal : ℕ
decimal = 0x03
