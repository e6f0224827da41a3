-- ===== src/Codec/Tag.antt =====
-- src/codec/mod.rs, `tag`: the type tag that opens every value (`reference` is the source's `RECORD`).
use tessaridb_sdk_rust.Common.{ℕ}

abbrev pub none : ℕ
none = 0x01

abbrev pub null : ℕ
null = 0x02

abbrev pub bool : ℕ
bool = 0x03

abbrev pub number : ℕ
number = 0x04

abbrev pub string : ℕ
string = 0x05

abbrev pub bytes : ℕ
bytes = 0x06

abbrev pub duration : ℕ
duration = 0x07

abbrev pub datetime : ℕ
datetime = 0x08

abbrev pub uuid : ℕ
uuid = 0x09

abbrev pub table : ℕ
table = 0x0a

abbrev pub reference : ℕ
reference = 0x0b

abbrev pub array : ℕ
array = 0x0c

abbrev pub object : ℕ
object = 0x0d

abbrev pub range : ℕ
range = 0x0e

abbrev pub set : ℕ
set = 0x0f

abbrev pub geometry : ℕ
geometry = 0x10

abbrev pub regex : ℕ
regex = 0x11
