-- ===== src/Geometry.antt =====
-- src/geometry.rs: the shapes. A double is its 64 bits: the source compares positions by
-- `to_bits`, and the codec carries the bits.
pub mod Judging
use tessaridb_sdk_rust.Common.{
  ℕ, suc, ◌%◌, ◌^◌, Bool, true, false, Option, none, some, List, [], ◌∷◌, ◌++◌, leb, ◌==◌, ◌&&◌,
  length, if◌then◌else◌,
}
use tessaridb_sdk_rust.Common.Utf8.{Text, literal}

pub record Position : Type 0 where
  pub longitude : ℕ
  pub latitude : ℕ

-- `struct Ring(Vec<Position>)`
abbrev pub Ring : Type 0
Ring = List Position

pub record Polygon : Type 0 where
  pub exterior : Ring
  pub interiors : List Ring

-- `Shapes` is the vector inside a collection.
mutual
  pub data Geometry : Type 0 where
    point : Position → Geometry
    line : List Position → Geometry
    polygon : Polygon → Geometry
    multi_point : List Position → Geometry
    multi_line : List (List Position) → Geometry
    multi_polygon : List Polygon → Geometry
    collection : Shapes → Geometry

  pub data Shapes : Type 0 where
    no_shapes : Shapes
    shape : Geometry → Shapes → Shapes

unfoldable pub length_shapes : Shapes → ℕ
length_shapes no_shapes = 0
length_shapes (shape g rest) = suc (length_shapes rest)

-- `iter().all(…)`
unfoldable pub all : {A : Type 0} → (A → Bool) → List A → Bool
all test [] = true
all test (x ∷ xs) = test x && all test xs

-- Whether a double is from `-m` to `m`, where `bound` is the bits of a positive double `m`. The bits
-- behind the sign grow with the magnitude, and those of an infinity and of a NaN are larger than all.
unfoldable pub is_within : ℕ → ℕ → Bool
is_within bound bits = leb (bits % 2 ^ 63) bound

-- The bits of 180.0 and of 90.0.
abbrev pub half_turn : ℕ
half_turn = 0x4066_8000_0000_0000

abbrev pub quarter_turn : ℕ
quarter_turn = 0x4056_8000_0000_0000

unfoldable pub is_on_the_sphere : Position → Bool
unfolding is_within
is_on_the_sphere p = is_within half_turn p.longitude && is_within quarter_turn p.latitude

unfoldable pub same_position : Position → Position → Bool
same_position p q = (p.longitude == q.longitude) && (p.latitude == q.latitude)

unfoldable pub last_or : Position → List Position → Position
last_or p [] = p
last_or p (q ∷ qs) = last_or q qs

unfoldable pub is_closed : Ring → Bool
unfolding same_position last_or
is_closed [] = false
is_closed (p ∷ ps) = leb 4 (length (p ∷ ps)) && same_position p (last_or p ps)

unfoldable pub kind_name : Geometry → Text
kind_name (Geometry.point _) = literal "point"
kind_name (Geometry.line _) = literal "line"
kind_name (Geometry.polygon _) = literal "polygon"
kind_name (Geometry.multi_point _) = literal "multipoint"
kind_name (Geometry.multi_line _) = literal "multiline"
kind_name (Geometry.multi_polygon _) = literal "multipolygon"
kind_name (Geometry.collection _) = literal "collection"

unfoldable pub chained : {A : Type 0} → (A → List Position) → List A → List Position
chained collect [] = []
chained collect (x ∷ xs) = collect x ++ chained collect xs

unfoldable pub collect_polygon : Polygon → List Position
unfolding chained
collect_polygon held = held.exterior ++ chained (λ (ring : Ring). ring) held.interiors

unfoldable mutual
  pub positions : Geometry → List Position
  positions (Geometry.point position) = position ∷ []
  positions (Geometry.line held) = held
  positions (Geometry.polygon held) = collect_polygon held
  positions (Geometry.multi_point held) = held
  positions (Geometry.multi_line lines) = chained (λ (line : List Position). line) lines
  positions (Geometry.multi_polygon polygons) = chained collect_polygon polygons
  positions (Geometry.collection shapes) = positions_in shapes

  pub positions_in : Shapes → List Position
  positions_in no_shapes = []
  positions_in (shape held rest) = positions held ++ positions_in rest

unfoldable pub polygon_is_closed : Polygon → Bool
unfolding is_closed all
polygon_is_closed held = is_closed held.exterior && all is_closed held.interiors

-- A line needs two ends.
unfoldable pub has_ends : List Position → Bool
has_ends path = leb 2 (length path)

unfoldable pub are_on_the_sphere : Geometry → Bool
unfolding all is_on_the_sphere positions
are_on_the_sphere held = all is_on_the_sphere (positions held)

unfoldable mutual
  pub is_well_formed : Geometry → Bool
  is_well_formed (Geometry.point position) =
      if are_on_the_sphere (Geometry.point position) then true else false
  is_well_formed (Geometry.line path) =
      if are_on_the_sphere (Geometry.line path) then has_ends path else false
  is_well_formed (Geometry.polygon held) =
      if are_on_the_sphere (Geometry.polygon held) then polygon_is_closed held else false
  is_well_formed (Geometry.multi_point held) =
      if are_on_the_sphere (Geometry.multi_point held) then true else false
  is_well_formed (Geometry.multi_line lines) =
      if are_on_the_sphere (Geometry.multi_line lines) then all has_ends lines else false
  is_well_formed (Geometry.multi_polygon polygons) =
      if are_on_the_sphere (Geometry.multi_polygon polygons)
      then all polygon_is_closed polygons
      else false
  is_well_formed (Geometry.collection shapes) =
      let well_formed = all_well_formed shapes in
      if are_on_the_sphere (Geometry.collection shapes) then well_formed else false

  pub all_well_formed : Shapes → Bool
  all_well_formed no_shapes = true
  all_well_formed (shape held rest) = is_well_formed held && all_well_formed rest
