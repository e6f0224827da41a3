-- ===== src/Codec/Write.antt =====
-- src/codec/write.rs: each function gives the bytes that its namesake appends to `out`.
use tessaridb_sdk_rust.Common.{
  put_each, ℕ, ◌^◌, ℤ, to_pattern, List, [], ◌∷◌, ◌++◌, length, ltb, ◌==◌, if◌then◌else◌, bit_xor,
}
use tessaridb_sdk_rust.Common.Bytes.{to_be_bytes}
use tessaridb_sdk_rust.Codec.Tag
use tessaridb_sdk_rust.Codec.ShapeKind
use tessaridb_sdk_rust.Codec.NumberKind
use tessaridb_sdk_rust.Codec.BoundKind
use tessaridb_sdk_rust.Codec.RecordIdKind
use tessaridb_sdk_rust.Codec.Fault.{escape, terminator, escaped_zero}
use tessaridb_sdk_rust.Geometry.{
  Position, Polygon, Geometry, Shapes, no_shapes, shape, length_shapes,
}
use tessaridb_sdk_rust.Value.{
  Number, RecordId, RecordRef, Value, Items, Fields, Bound, no_items, item, no_fields, field,
  length_items, length_fields,
}

-- `*first ^= 0x80`
abbrev pub flip_sign : List ℕ → List ℕ
flip_sign [] = []
flip_sign (b ∷ bs) = bit_xor b 0x80 ∷ bs

unfoldable pub put_i64 : ℤ → List ℕ
put_i64 value = flip_sign (to_be_bytes 8 (to_pattern (2 ^ 63) value))

unfoldable pub put_u32 : ℕ → List ℕ
put_u32 value = to_be_bytes 4 value

-- `u32::try_from(len).unwrap_or(u32::MAX)`
unfoldable pub count_of : ℕ → ℕ
count_of len = if ltb len (2 ^ 32) then len else 0xffff_ffff

unfoldable pub put_lenbytes : List ℕ → List ℕ
put_lenbytes bytes = put_u32 (count_of (length bytes)) ++ bytes

unfoldable pub put_varbytes : List ℕ → List ℕ
put_varbytes [] = escape ∷ terminator ∷ []
put_varbytes (byte ∷ rest) =
    let later = put_varbytes rest in
    if byte == escape then escape ∷ escaped_zero ∷ later else byte ∷ later

-- A double's bits, plain.
unfoldable pub put_float : ℕ → List ℕ
put_float bits = to_be_bytes 8 bits

unfoldable pub put_position : Position → List ℕ
put_position position = put_float position.longitude ++ put_float position.latitude

-- A count and then the members.
unfoldable pub put_counted : {A : Type 0} → (A → List ℕ) → List A → List ℕ
put_counted put xs = put_u32 (count_of (length xs)) ++ put_each put xs

unfoldable pub put_positions : List Position → List ℕ
put_positions positions = put_counted put_position positions

unfoldable pub put_polygon : Polygon → List ℕ
put_polygon polygon = put_positions polygon.exterior ++ put_counted put_positions polygon.interiors

unfoldable mutual
  pub put_geometry : Geometry → List ℕ
  put_geometry (Geometry.point position) = ShapeKind.point ∷ put_position position
  put_geometry (Geometry.line positions) = ShapeKind.line ∷ put_positions positions
  put_geometry (Geometry.polygon polygon) = ShapeKind.polygon ∷ put_polygon polygon
  put_geometry (Geometry.multi_point positions) = ShapeKind.multi_point ∷ put_positions positions
  put_geometry (Geometry.multi_line lines) = ShapeKind.multi_line ∷ put_counted put_positions lines
  put_geometry (Geometry.multi_polygon polygons) =
      ShapeKind.multi_polygon ∷ put_counted put_polygon polygons
  put_geometry (Geometry.collection shapes) =
      ShapeKind.collection ∷ (put_u32 (count_of (length_shapes shapes)) ++ put_shapes shapes)

  pub put_shapes : Shapes → List ℕ
  put_shapes no_shapes = []
  put_shapes (shape held rest) = put_geometry held ++ put_shapes rest

unfoldable pub put_number : Number → List ℕ
put_number (Number.integer value) = NumberKind.integer ∷ put_i64 value
put_number (Number.float bits) = NumberKind.float ∷ put_float bits
put_number (Number.decimal mantissa scale) =
    NumberKind.decimal ∷ (to_be_bytes 16 (to_pattern (2 ^ 127) mantissa) ++ put_u32 scale)

unfoldable pub put_record_id : RecordId → List ℕ
put_record_id (RecordId.int value) = RecordIdKind.int ∷ put_i64 value
put_record_id (RecordId.text text) = RecordIdKind.text ∷ put_varbytes text
put_record_id (RecordId.uuid bytes) = RecordIdKind.uuid ∷ bytes
put_record_id (RecordId.bytes bytes) = RecordIdKind.bytes ∷ put_varbytes bytes

unfoldable pub put_record_ref : RecordRef → List ℕ
put_record_ref reference = put_u32 reference.table ++ put_record_id reference.id

unfoldable pub put_time : ℤ → ℕ → List ℕ
put_time seconds nanos = put_i64 seconds ++ put_u32 nanos

unfoldable mutual
  pub put_value : Value → List ℕ
  put_value Value.none = Tag.none ∷ []
  put_value Value.null = Tag.null ∷ []
  put_value (Value.bool flag) = Tag.bool ∷ (if flag then 1 else 0) ∷ []
  put_value (Value.number number) = Tag.number ∷ put_number number
  put_value (Value.string text) = Tag.string ∷ put_lenbytes text
  put_value (Value.bytes bytes) = Tag.bytes ∷ put_lenbytes bytes
  put_value (Value.duration seconds nanos) = Tag.duration ∷ put_time seconds nanos
  put_value (Value.datetime seconds nanos) = Tag.datetime ∷ put_time seconds nanos
  put_value (Value.uuid bytes) = Tag.uuid ∷ bytes
  put_value (Value.table table) = Tag.table ∷ put_u32 table
  put_value (Value.reference reference) = Tag.reference ∷ put_record_ref reference
  put_value (Value.array items) =
      Tag.array ∷ (put_u32 (count_of (length_items items)) ++ put_items items)
  put_value (Value.object fields) =
      Tag.object ∷ (put_u32 (count_of (length_fields fields)) ++ put_fields fields)
  put_value (Value.range start end) = Tag.range ∷ (put_bound start ++ put_bound end)
  put_value (Value.set items) =
      Tag.set ∷ (put_u32 (count_of (length_items items)) ++ put_items items)
  put_value (Value.geometry held) = Tag.geometry ∷ put_geometry held
  put_value (Value.regex pattern_text) = Tag.regex ∷ put_lenbytes pattern_text

  pub put_items : Items → List ℕ
  put_items no_items = []
  put_items (item v rest) = put_value v ++ put_items rest

  pub put_fields : Fields → List ℕ
  put_fields no_fields = []
  put_fields (field name v rest) = put_lenbytes name ++ (put_value v ++ put_fields rest)

  pub put_bound : Bound → List ℕ
  put_bound Bound.unbounded = BoundKind.unbounded ∷ []
  put_bound (Bound.included v) = BoundKind.included ∷ put_value v
  put_bound (Bound.excluded v) = BoundKind.excluded ∷ put_value v

unfoldable pub encode : Value → List ℕ
encode value = put_value value
