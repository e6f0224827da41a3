-- ===== src/Value/Valid.antt =====
-- The values that the client can hold and the codec can count: what the Rust types say of a value
-- (ranges of integers, bytes, UTF-8, sizes of arrays, sorted maps), the range of sub-seconds that
-- is decoded, and lengths that fit a `u32`; and how deep a value goes.
use tessaridb_sdk_rust.Common.{ℕ, suc, ◌^◌, ◌<◌, ◌≡◌, max, ℤ, IsSigned, List, length, All}
use tessaridb_sdk_rust.Common.Bytes.{IsByte}
use tessaridb_sdk_rust.Common.Utf8.{Text, IsText}
use tessaridb_sdk_rust.Common.SortedMap.{IsSorted, text_order}
use tessaridb_sdk_rust.Geometry.{
  Position, Polygon, Geometry, Shapes, no_shapes, shape, length_shapes,
}
use tessaridb_sdk_rust.Value.{
  Number, RecordId, RecordRef, Value, Items, Fields, Bound, no_items, item, no_fields, field,
  length_items, length_fields, entries,
}

abbrev pub IsU32 : ℕ → Type 0
IsU32 n = n < 2 ^ 32

abbrev pub IsU64 : ℕ → Type 0
IsU64 n = n < 2 ^ 64

abbrev pub IsI64 : ℤ → Type 0
IsI64 = IsSigned (2 ^ 63)

abbrev pub IsUuid : List ℕ → Type 0
IsUuid bytes = All IsByte bytes × (length bytes ≡ 16)

-- A text or a block whose length fits a `u32`.
abbrev pub IsShortText : Text → Type 0
IsShortText t = IsText t × IsU32 (length t)

abbrev pub IsShortBytes : List ℕ → Type 0
IsShortBytes bytes = All IsByte bytes × IsU32 (length bytes)

abbrev pub IsTime : ℤ → ℕ → Type 0
IsTime seconds nanos = IsI64 seconds × (nanos < 1_000_000_000)

abbrev pub IsCounted {ℓ} : {A : Type 0} → (A → Type ℓ) → List A → Type ℓ
IsCounted P xs = IsU32 (length xs) × All P xs

abbrev pub IsPosition : Position → Type 0
IsPosition p = IsU64 p.longitude × IsU64 p.latitude

abbrev pub IsPositions : List Position → Type 0
IsPositions = IsCounted IsPosition

abbrev pub IsPolygon : Polygon → Type 0
IsPolygon p = IsPositions p.exterior × IsCounted IsPositions p.interiors

abbrev pub IsNumber : Number → Type 0
IsNumber (Number.integer value) = IsI64 value
IsNumber (Number.float bits) = IsU64 bits
IsNumber (Number.decimal mantissa scale) = IsSigned (2 ^ 127) mantissa × IsU32 scale

abbrev pub IsRecordId : RecordId → Type 0
IsRecordId (RecordId.int value) = IsI64 value
IsRecordId (RecordId.text text) = IsText text
IsRecordId (RecordId.uuid bytes) = IsUuid bytes
IsRecordId (RecordId.bytes bytes) = All IsByte bytes

abbrev pub IsReference : RecordRef → Type 0
IsReference r = IsU32 r.table × IsRecordId r.id

unfoldable mutual
  pub IsGeometry : Geometry → Type 0
  IsGeometry (Geometry.point position) = IsPosition position
  IsGeometry (Geometry.line positions) = IsPositions positions
  IsGeometry (Geometry.polygon polygon) = IsPolygon polygon
  IsGeometry (Geometry.multi_point positions) = IsPositions positions
  IsGeometry (Geometry.multi_line lines) = IsCounted IsPositions lines
  IsGeometry (Geometry.multi_polygon polygons) = IsCounted IsPolygon polygons
  IsGeometry (Geometry.collection shapes) = IsU32 (length_shapes shapes) × AreShapes shapes

  pub AreShapes : Shapes → Type 0
  AreShapes no_shapes = Unit {0}
  AreShapes (shape held rest) = IsGeometry held × AreShapes rest

unfoldable mutual
  pub IsValid : Value → Type 0
  IsValid Value.none = Unit {0}
  IsValid Value.null = Unit {0}
  IsValid (Value.bool flag) = Unit {0}
  IsValid (Value.number number) = IsNumber number
  IsValid (Value.string text) = IsShortText text
  IsValid (Value.bytes bytes) = IsShortBytes bytes
  IsValid (Value.duration seconds nanos) = IsTime seconds nanos
  IsValid (Value.datetime seconds nanos) = IsTime seconds nanos
  IsValid (Value.uuid bytes) = IsUuid bytes
  IsValid (Value.table table) = IsU32 table
  IsValid (Value.reference reference) = IsReference reference
  IsValid (Value.array items) = IsU32 (length_items items) × AreValid items
  IsValid (Value.object fields) =
      IsU32 (length_fields fields) × IsSorted (entries fields) × AreFields fields
  IsValid (Value.range start end) = IsBound start × IsBound end
  IsValid (Value.set items) = IsU32 (length_items items) × AreValid items
  IsValid (Value.geometry held) = IsGeometry held
  IsValid (Value.regex text) = IsShortText text

  pub AreValid : Items → Type 0
  AreValid no_items = Unit {0}
  AreValid (item v rest) = IsValid v × AreValid rest

  pub AreFields : Fields → Type 0
  AreFields no_fields = Unit {0}
  AreFields (field name v rest) = IsShortText name × IsValid v × AreFields rest

  pub IsBound : Bound → Type 0
  IsBound Bound.unbounded = Unit {0}
  IsBound (Bound.included v) = IsValid v
  IsBound (Bound.excluded v) = IsValid v

-- How many levels a shape or a value has; one that holds nothing has one.
unfoldable mutual
  pub depth_geometry : Geometry → ℕ
  depth_geometry (Geometry.collection shapes) = suc (depth_shapes shapes)
  depth_geometry _ = 1

  pub depth_shapes : Shapes → ℕ
  depth_shapes no_shapes = 0
  depth_shapes (shape held rest) = max (depth_geometry held) (depth_shapes rest)

unfoldable mutual
  pub depth : Value → ℕ
  depth (Value.array items) = suc (depth_items items)
  depth (Value.object fields) = suc (depth_fields fields)
  depth (Value.range start end) = suc (max (depth_bound start) (depth_bound end))
  depth (Value.set items) = suc (depth_items items)
  depth (Value.geometry held) = suc (depth_geometry held)
  depth _ = 1

  pub depth_items : Items → ℕ
  depth_items no_items = 0
  depth_items (item v rest) = max (depth v) (depth_items rest)

  pub depth_fields : Fields → ℕ
  depth_fields no_fields = 0
  depth_fields (field name v rest) = max (depth v) (depth_fields rest)

  pub depth_bound : Bound → ℕ
  depth_bound Bound.unbounded = 0
  depth_bound (Bound.included v) = depth v
  depth_bound (Bound.excluded v) = depth v
