-- ===== src/Examples/Geometry.antt =====
-- src/geometry.rs at a concrete shape: a triangle around the origin and a line, in a collection.
use tessaridb_sdk_rust.Common.{◌≡◌, ℕ, refl, true, [], ◌∷◌}
use tessaridb_sdk_rust.Geometry.{
  Position, Geometry, shape, no_shapes, all, is_well_formed, all_well_formed, are_on_the_sphere,
  is_within, positions_in, polygon_is_closed, collect_polygon, is_on_the_sphere, is_closed,
  has_ends, positions,
}
use tessaridb_sdk_rust.Geometry.Judging.{is_proper, is_well_formed_lem}

-- The bits of 1.0.
abbrev one : ℕ
one = 0x3ff0_0000_0000_0000

abbrev at : ℕ → ℕ → Position
at longitude latitude = record { longitude = longitude; latitude = latitude }

abbrev island : Geometry
island = Geometry.collection (
    shape
      (Geometry.polygon
        (record { exterior = at 0 0 ∷ at one 0 ∷ at 0 one ∷ at 0 0 ∷ []; interiors = [] }))
      (shape (Geometry.line (at 0 0 ∷ at one one ∷ [])) no_shapes))

island_holds : is_well_formed island ≡ true
unfolding is_well_formed all_well_formed are_on_the_sphere all is_on_the_sphere is_within positions
    positions_in collect_polygon polygon_is_closed is_closed has_ends
island_holds = refl

-- A line whose ends are the same position is well-formed too.
still_holds : is_well_formed (Geometry.line (at 0 0 ∷ at 0 0 ∷ [])) ≡ true
unfolding is_well_formed are_on_the_sphere all is_on_the_sphere is_within positions has_ends
still_holds = refl

is_well_formed_lem_example : is_well_formed island ≡ is_proper island
is_well_formed_lem_example = is_well_formed_lem island
