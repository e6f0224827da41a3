-- ===== src/Codec/RoundTrip/Parts.antt =====
-- Numbers, identities and shapes are read back.
use tessaridb_sdk_rust.Common.{
  take_each-Reads, ℕ, zero, suc, ◌^◌, ◌≤◌, ◌<◌, refl, to_pattern, of_pattern-to_pattern,
  to_pattern-lt, List, arith, length, Reads, Reads-bind, Reads-map,
}
use tessaridb_sdk_rust.Common.Bytes.{length-to_be_bytes, from_be_bytes-to_be_bytes}
use tessaridb_sdk_rust.Codec.Write.{
  put_float, put_position, put_counted, put_positions, put_polygon, put_geometry, put_shapes,
  put_number, put_record_id, put_record_ref,
}
use tessaridb_sdk_rust.Codec.Reader.{Reader, take_counted}
use tessaridb_sdk_rust.Codec.Read.{
  take_float, take_position, take_positions, take_polygon, take_shapes, take_shape, take_geometry,
  take_decimal, take_number_of, take_number, take_record_id_of, take_record_id, take_reference,
}
use tessaridb_sdk_rust.Codec.RoundTrip.Words.{
  take_u8-Reads, take_fixed-Reads, take_u32-Reads, take_i64-Reads, take_count-Reads,
  take_varbytes-Reads, take_word64-Reads, take_vartext-Reads,
}
use tessaridb_sdk_rust.Geometry.{
  Position, Polygon, Geometry, Shapes, no_shapes, shape, length_shapes,
}
use tessaridb_sdk_rust.Value.{Number, RecordId, RecordRef}
use tessaridb_sdk_rust.Value.Valid.{
  IsU64, IsCounted, IsPosition, IsPositions, IsPolygon, IsNumber, IsRecordId, IsReference,
  IsGeometry, AreShapes, depth_geometry, depth_shapes,
}

pub take_number-Reads : (n : Number) → IsNumber n → Reads take_number (put_number n) n
unfolding take_number take_number_of put_number take_decimal
take_number-Reads (Number.integer value) h =
    Reads-bind _ (take_u8-Reads _) (Reads-map Number.integer (take_i64-Reads value h))
take_number-Reads (Number.float bits) h =
    Reads-bind _ (take_u8-Reads _)
      (Reads-map Number.float (unfold take_float in take_word64-Reads bits h))
take_number-Reads (Number.decimal mantissa scale) h = Reads-bind _ (take_u8-Reads _) (
    Reads-bind _ (take_fixed-Reads 16 _ (length-to_be_bytes 16 (to_pattern (2 ^ 127) mantissa))) (
      rw
        (
          from_be_bytes-to_be_bytes 16 _ (to_pattern-lt (2 ^ 127) mantissa h.0),
          of_pattern-to_pattern (2 ^ 127) mantissa h.0,
        )
        (Reads-map (λ digits. Number.decimal mantissa digits) (take_u32-Reads scale h.1))))

pub take_record_id-Reads :
    (id : RecordId) → IsRecordId id → Reads take_record_id (put_record_id id) id
unfolding take_record_id take_record_id_of put_record_id
take_record_id-Reads (RecordId.int value) h =
    Reads-bind _ (take_u8-Reads _) (Reads-map RecordId.int (take_i64-Reads value h))
take_record_id-Reads (RecordId.text text) h =
    Reads-bind _ (take_u8-Reads _) (Reads-map RecordId.text (take_vartext-Reads text h))
take_record_id-Reads (RecordId.uuid bytes) h =
    Reads-bind _ (take_u8-Reads _) (Reads-map RecordId.uuid (take_fixed-Reads 16 bytes h.1))
take_record_id-Reads (RecordId.bytes bytes) h =
    Reads-bind _ (take_u8-Reads _) (Reads-map RecordId.bytes (take_varbytes-Reads bytes))

pub take_reference-Reads :
    (r : RecordRef) → IsReference r → Reads take_reference (put_record_ref r) r
unfolding take_reference put_record_ref
take_reference-Reads r h = Reads-bind _ (take_u32-Reads r.table h.0) (
    Reads-map (λ id. let made : RecordRef = record { table = r.table; id = id } in made)
      (take_record_id-Reads r.id h.1))

take_float-Reads : (bits : ℕ) → IsU64 bits → Reads take_float (put_float bits) bits
unfolding take_float
take_float-Reads = take_word64-Reads

take_position-Reads : (p : Position) → IsPosition p → Reads take_position (put_position p) p
unfolding take_position put_position
take_position-Reads p h = Reads-bind _ (take_float-Reads p.longitude h.0) (
    Reads-map (λ y. let made : Position = record { longitude = p.longitude; latitude = y } in made)
      (take_float-Reads p.latitude h.1))

-- A loop over members that are each read back.
module _ {A : Type 0} (read : Reader A) (put : A → List ℕ) (P : A → Type 0)
    (member : (x : A) → P x → Reads read (put x) x) where
  pub take_counted-Reads :
      (xs : List A) → IsCounted P xs → Reads (take_counted read) (put_counted put xs) xs
  unfolding take_counted put_counted
  take_counted-Reads xs h =
      Reads-bind _ (take_count-Reads (length xs) h.0) (take_each-Reads read put P member xs h.1)

take_positions-Reads :
    (ps : List Position) → IsPositions ps → Reads take_positions (put_positions ps) ps
unfolding take_positions put_positions
take_positions-Reads = take_counted-Reads take_position put_position IsPosition take_position-Reads

take_polygon-Reads : (p : Polygon) → IsPolygon p → Reads take_polygon (put_polygon p) p
unfolding take_polygon put_polygon
take_polygon-Reads p h = Reads-bind _ (take_positions-Reads p.exterior h.0) (
    Reads-map
      (λ rings. let made : Polygon = record { exterior = p.exterior; interiors = rings } in made)
      (take_counted-Reads take_positions put_positions IsPositions take_positions-Reads p.interiors
        h.1))

depth_geometry_pos : (g : Geometry) → 0 < depth_geometry g
unfolding depth_geometry
depth_geometry_pos (Geometry.collection _) = omega arith
depth_geometry_pos _ = omega arith

mutual
  unfolding take_geometry take_shape put_geometry IsGeometry depth_geometry take_shapes
      length_shapes

  take_geometry-Reads_in :
      (g : Geometry) (room : ℕ)
      → IsGeometry g
      → depth_geometry g ≤ room
      → Reads (take_geometry room) (put_geometry g) g
  take_geometry-Reads_in g zero h d = absurd (omega (arith, depth_geometry_pos g))
  take_geometry-Reads_in (Geometry.point p) (suc room) h d =
      Reads-bind _ (take_u8-Reads _) (Reads-map Geometry.point (take_position-Reads p h))
  take_geometry-Reads_in (Geometry.line ps) (suc room) h d =
      Reads-bind _ (take_u8-Reads _) (Reads-map Geometry.line (take_positions-Reads ps h))
  take_geometry-Reads_in (Geometry.polygon p) (suc room) h d =
      Reads-bind _ (take_u8-Reads _) (Reads-map Geometry.polygon (take_polygon-Reads p h))
  take_geometry-Reads_in (Geometry.multi_point ps) (suc room) h d =
      Reads-bind _ (take_u8-Reads _) (Reads-map Geometry.multi_point (take_positions-Reads ps h))
  take_geometry-Reads_in (Geometry.multi_line lines) (suc room) h d =
      Reads-bind _ (take_u8-Reads _) (
        Reads-map Geometry.multi_line (
          take_counted-Reads take_positions put_positions IsPositions take_positions-Reads lines h))
  take_geometry-Reads_in (Geometry.multi_polygon polygons) (suc room) h d =
      Reads-bind _ (take_u8-Reads _) (
        Reads-map Geometry.multi_polygon
          (take_counted-Reads take_polygon put_polygon IsPolygon take_polygon-Reads polygons h))
  take_geometry-Reads_in (Geometry.collection shapes) (suc room) h d =
      Reads-bind _ (take_u8-Reads _) (
        Reads-map Geometry.collection (
          Reads-bind _ (take_count-Reads (length_shapes shapes) h.0)
            (take_shapes-Reads shapes room h.1 (omega arith))))

  take_shapes-Reads :
      (shapes : Shapes) (room : ℕ)
      → AreShapes shapes
      → depth_shapes shapes ≤ room
      → Reads (take_shapes (take_geometry room) (length_shapes shapes)) (put_shapes shapes) shapes
  take_shapes-Reads no_shapes room h d = record { reads = λ rest. refl }
  take_shapes-Reads (shape g shapes) room h d =
      Reads-bind _ (take_geometry-Reads_in g room h.0 (omega arith))
        (Reads-map (λ gs. shape g gs) (take_shapes-Reads shapes room h.1 (omega arith)))

pub take_geometry-Reads :
    (g : Geometry) (room : ℕ)
    → IsGeometry g
    → depth_geometry g ≤ room
    → Reads (take_geometry room) (put_geometry g) g
take_geometry-Reads g room h d = take_geometry-Reads_in g room h d
