-- ===== src/Codec/Read.antt =====
-- src/codec/read.rs: values, shapes and their parts. `room` is how many levels are left: the source's
-- `depth` is `MAX_DEPTH + 1 - room`, so `depth > MAX_DEPTH` is `room = 0`.
use tessaridb_sdk_rust.Common.{
  ℕ, zero, suc, ◌+◌, ◌^◌, of_pattern, not, List, [], ◌∷◌, length, ◌==◌, if◌then◌else◌, Result, ok,
  err, bind, pure, raise, lift, ◌>>=◌,
}
use tessaridb_sdk_rust.Common.Bytes.{from_be_bytes}
use tessaridb_sdk_rust.Common.Utf8.{Text}
use tessaridb_sdk_rust.Common.SortedMap.{insert, text_order}
use tessaridb_sdk_rust.Codec.Tag
use tessaridb_sdk_rust.Codec.ShapeKind
use tessaridb_sdk_rust.Codec.NumberKind
use tessaridb_sdk_rust.Codec.BoundKind
use tessaridb_sdk_rust.Codec.RecordIdKind
use tessaridb_sdk_rust.Codec.Fault.{EncodingFault}
use tessaridb_sdk_rust.Codec.Fault.EncodingFault.{truncated, unknown_tag, trailing_bytes}
use tessaridb_sdk_rust.Codec.Reader.{
  Reader, take_u8, take_fixed, take_u32, take_i64, take_lenbytes, take_text, take_varbytes,
  take_counted, take_time, from_utf8,
}
use tessaridb_sdk_rust.Geometry.{Position, Polygon, Geometry, Shapes, no_shapes, shape}
use tessaridb_sdk_rust.Value.{
  Number, RecordId, RecordRef, Value, Items, Bound, no_items, item, of_entries,
}

abbrev pub max_depth : ℕ
max_depth = 128

unfoldable pub take_float : Reader ℕ
take_float = do bytes ← take_fixed 8; pure (from_be_bytes 0 bytes)

-- Longitude first.
unfoldable pub take_position : Reader Position
take_position = do
  longitude ← take_float
  latitude ← take_float
  pure (record { longitude = longitude; latitude = latitude })

unfoldable pub take_positions : Reader (List Position)
take_positions = take_counted take_position

unfoldable pub take_polygon : Reader Polygon
take_polygon = do
  exterior ← take_positions
  interiors ← take_counted take_positions
  pure (record { exterior = exterior; interiors = interiors })

unfoldable pub take_shapes : Reader Geometry → ℕ → Reader Shapes
take_shapes read zero = pure no_shapes
take_shapes read (suc count) = do held ← read; rest ← take_shapes read count; pure (shape held rest)

-- The `match` of `take_geometry`; `deeper` reads a shape one level down.
unfoldable pub take_shape : Reader Geometry → ℕ → Reader Geometry
take_shape deeper kind =
    if kind == ShapeKind.point
    then (take_position >>= λ p. pure (Geometry.point p))
    else if kind == ShapeKind.line
    then (take_positions >>= λ ps. pure (Geometry.line ps))
    else if kind == ShapeKind.polygon
    then (take_polygon >>= λ p. pure (Geometry.polygon p))
    else if kind == ShapeKind.multi_point
    then (take_positions >>= λ ps. pure (Geometry.multi_point ps))
    else if kind == ShapeKind.multi_line
    then (take_counted take_positions >>= λ lines. pure (Geometry.multi_line lines))
    else if kind == ShapeKind.multi_polygon
    then (take_counted take_polygon >>= λ polygons. pure (Geometry.multi_polygon polygons))
    else if kind == ShapeKind.collection
    then ((take_u32 >>= take_shapes deeper) >>= λ shapes. pure (Geometry.collection shapes))
    else raise (unknown_tag kind)

unfoldable pub take_geometry : ℕ → Reader Geometry
take_geometry zero = raise truncated
take_geometry (suc room) = take_u8 >>= take_shape (take_geometry room)

unfoldable pub take_decimal : Reader Number
take_decimal = do
  mantissa ← take_fixed 16
  scale ← take_u32
  pure (Number.decimal (of_pattern (2 ^ 127) (from_be_bytes 0 mantissa)) scale)

unfoldable pub take_number_of : ℕ → Reader Number
take_number_of kind =
    if kind == NumberKind.integer
    then (take_i64 >>= λ value. pure (Number.integer value))
    else if kind == NumberKind.float
    then (take_float >>= λ bits. pure (Number.float bits))
    else if kind == NumberKind.decimal
    then take_decimal
    else raise (unknown_tag kind)

unfoldable pub take_number : Reader Number
take_number = take_u8 >>= take_number_of

unfoldable pub take_record_id_of : ℕ → Reader RecordId
take_record_id_of kind =
    if kind == RecordIdKind.int
    then (take_i64 >>= λ value. pure (RecordId.int value))
    else if kind == RecordIdKind.text
    then ((take_varbytes >>= λ bytes. lift (from_utf8 bytes)) >>= λ text. pure (RecordId.text text))
    else if kind == RecordIdKind.uuid
    then (take_fixed 16 >>= λ bytes. pure (RecordId.uuid bytes))
    else if kind == RecordIdKind.bytes
    then (take_varbytes >>= λ bytes. pure (RecordId.bytes bytes))
    else raise (unknown_tag kind)

unfoldable pub take_record_id : Reader RecordId
take_record_id = take_u8 >>= take_record_id_of

unfoldable pub take_reference : Reader RecordRef
take_reference = do table ← take_u32; id ← take_record_id; pure (record { table = table; id = id })

-- The loop over an array's or a set's items.
unfoldable pub take_items : Reader Value → ℕ → Reader Items
take_items read zero = pure no_items
take_items read (suc count) = do v ← read; rest ← take_items read count; pure (item v rest)

-- The loop over an object's fields, with the map that it has filled so far.
unfoldable pub take_entries : Reader Value → List (Text × Value) → ℕ → Reader (List (Text × Value))
take_entries read fields zero = pure fields
take_entries read fields (suc count) = do
  name ← take_text
  v ← read
  take_entries read (insert name v fields) count

unfoldable pub take_bound_of : Reader Value → ℕ → Reader Bound
take_bound_of read kind =
    if kind == BoundKind.unbounded
    then pure Bound.unbounded
    else if kind == BoundKind.included
    then (read >>= λ v. pure (Bound.included v))
    else if kind == BoundKind.excluded
    then (read >>= λ v. pure (Bound.excluded v))
    else raise (unknown_tag kind)

unfoldable pub take_bound : Reader Value → Reader Bound
take_bound read = take_u8 >>= take_bound_of read

unfoldable pub take_range : Reader Value → Reader Value
take_range read = do start ← take_bound read; end ← take_bound read; pure (Value.range start end)

-- The `match` of `take_value`; `deeper` reads a value one level down, and `room` is what is left
-- there for a shape.
unfoldable pub take_tagged : ℕ → Reader Value → ℕ → Reader Value
take_tagged room deeper found =
    if found == Tag.none
    then pure Value.none
    else if found == Tag.null
    then pure Value.null
    else if found == Tag.bool
    then (take_u8 >>= λ b. pure (Value.bool (not (b == 0))))
    else if found == Tag.number
    then (take_number >>= λ n. pure (Value.number n))
    else if found == Tag.string
    then (take_text >>= λ t. pure (Value.string t))
    else if found == Tag.bytes
    then (take_lenbytes >>= λ bytes. pure (Value.bytes bytes))
    else if found == Tag.duration
    then (take_time >>= λ t. pure (Value.duration t.0 t.1))
    else if found == Tag.datetime
    then (take_time >>= λ t. pure (Value.datetime t.0 t.1))
    else if found == Tag.uuid
    then (take_fixed 16 >>= λ bytes. pure (Value.uuid bytes))
    else if found == Tag.table
    then (take_u32 >>= λ table. pure (Value.table table))
    else if found == Tag.reference
    then (take_reference >>= λ r. pure (Value.reference r))
    else if found == Tag.array
    then ((take_u32 >>= take_items deeper) >>= λ items. pure (Value.array items))
    else if found == Tag.object
    then ((take_u32 >>= take_entries deeper []) >>= λ fields.
        pure (Value.object (of_entries fields)))
    else if found == Tag.range
    then take_range deeper
    else if found == Tag.set
    then ((take_u32 >>= take_items deeper) >>= λ items. pure (Value.set items))
    else if found == Tag.geometry
    then (take_geometry room >>= λ g. pure (Value.geometry g))
    else if found == Tag.regex
    then (take_text >>= λ t. pure (Value.regex t))
    else raise (unknown_tag found)

unfoldable pub take_value : ℕ → Reader Value
take_value zero = raise truncated
take_value (suc room) = take_u8 >>= take_tagged room (take_value room)

unfoldable pub finish : Value → List ℕ → Result EncodingFault Value
finish value [] = ok value
finish value (b ∷ bs) = err (trailing_bytes (length (b ∷ bs)))

unfoldable pub decode : List ℕ → Result EncodingFault Value
unfolding finish
decode bytes = bind (take_value (max_depth + 1) bytes) λ (value, left). finish value left
