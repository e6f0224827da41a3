-- ===== src/Codec/ShapeKind.antt =====
-- src/codec/mod.rs, `shape_kind`: which shape a geometry is.
use tessaridb_sdk_rust.Common.{ℕ}

abbrev pub point : ℕ
point = 0x01

abbrev pub line : ℕ
line = 0x02

abbrev pub polygon : ℕ
polygon = 0x03

abbrev pub multi_point : ℕ
multi_point = 0x04

abbrev pub multi_line : ℕ
multi_line = 0x05

abbrev pub multi_polygon : ℕ
multi_polygon = 0x06

abbrev pub collection : ℕ
collection = 0x07
