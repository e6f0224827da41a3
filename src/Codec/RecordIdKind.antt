-- ===== src/Codec/RecordIdKind.antt =====
-- src/codec/mod.rs, `record_id_kind`: the discriminant that opens a record identity.
use tessaridb_sdk_rust.Common.{ℕ}

abbrev pub int : ℕ
int = 0x01

abbrev pub text : ℕ
text = 0x02

abbrev pub uuid : ℕ
uuid = 0x03

abbrev pub bytes : ℕ
bytes = 0x04
