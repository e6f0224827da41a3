-- ===== src/Codec/BoundKind.antt =====
-- src/codec/mod.rs, `bound_kind`: which end a range bound is.
use tessaridb_sdk_rust.Common.{ℕ}

abbrev pub unbounded : ℕ
unbounded = 0x01

abbrev pub included : ℕ
included = 0x02

abbrev pub excluded : ℕ
excluded = 0x03
