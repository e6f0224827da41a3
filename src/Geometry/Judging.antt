-- ===== src/Geometry/Judging.antt =====
-- src/geometry.rs: what `is_well_formed` asks of a shape, however deep it is.
use tessaridb_sdk_rust.Common.{
  ◌≡◌, refl, sym, ap, ◌∙◌, arith, Bool, true, false, List, [], ◌∷◌, ◌++◌, ◌&&◌, ◌==◌, ◌%◌, ◌^◌,
  le→leb, length, leb, if◌then◌else◌,
}
use tessaridb_sdk_rust.Geometry.{
  Position, Ring, Polygon, Geometry, Shapes, no_shapes, shape, all, is_within, is_on_the_sphere,
  same_position, last_or, is_closed, chained, collect_polygon, positions, positions_in,
  polygon_is_closed, has_ends, are_on_the_sphere, is_well_formed, all_well_formed,
}

and_assoc : (a b c : Bool) → a && (b && c) ≡ (a && b) && c
and_assoc true b c = refl
and_assoc false b c = refl

all-append :
    {A : Type 0}
    → (test : A → Bool) (xs ys : List A) → all test (xs ++ ys) ≡ all test xs && all test ys
unfolding all
all-append test [] ys = refl
all-append test (x ∷ xs) ys =
    rw (all-append test xs ys, and_assoc (test x) (all test xs) (all test ys))

and_both : {a b c d : Bool} → a ≡ b → c ≡ d → a && c ≡ b && d
and_both e f = cc

shuffle : (a b c d : Bool) → (a && b) && (c && d) ≡ (a && c) && (b && d)
shuffle a b c d = ground arith

and_false : (a : Bool) → false ≡ a && false
and_false true = refl
and_false false = refl

and_twice : (a b : Bool) → a && (a && b) ≡ a && b
and_twice true b = refl
and_twice false b = refl

-- A test that says no less than another is that other and itself.
absorbed : (p a b : Bool) → p ≡ a && b → p ≡ a && p
absorbed p a b h = rw h (sym (and_twice a b))

and_true_back : (a : Bool) → a ≡ a && true
and_true_back true = refl
and_true_back false = refl

guarded : (a b : Bool) → (if a then b else false) ≡ a && b
guarded true b = refl
guarded false b = refl

-- The specification: a position on the sphere has a longitude of at most 180 and a latitude of at most
-- 90, whatever their signs. The bits of a double behind its sign grow with its magnitude, and those of
-- an infinity and of a NaN are above all.
unfoldable pub on_sphere : Position → Bool
on_sphere p =
    leb (p.longitude % 2 ^ 63) 0x4066_8000_0000_0000
    && leb (p.latitude % 2 ^ 63) 0x4056_8000_0000_0000

unfoldable pub every : {A : Type 0} → (A → Bool) → List A → Bool
every test [] = true
every test (x ∷ xs) = if test x then every test xs else false

-- Whether positions end with this one, bit for bit.
unfoldable pub ends_with : Position → List Position → Bool
ends_with p [] = false
ends_with p (q ∷ []) = (p.longitude == q.longitude) && (p.latitude == q.latitude)
ends_with p (q ∷ r ∷ rest) = ends_with p (r ∷ rest)

-- A ring bounds an area: on the sphere, at least four positions, and it ends where it begins.
unfoldable pub is_boundary : List Position → Bool
unfolding every on_sphere ends_with
is_boundary (p ∷ q ∷ r ∷ s ∷ rest) =
    every on_sphere (p ∷ q ∷ r ∷ s ∷ rest) && ends_with p (s ∷ rest)
is_boundary few = false

unfoldable pub is_area : Polygon → Bool
unfolding is_boundary every
is_area held = is_boundary held.exterior && every is_boundary held.interiors

-- A line on the sphere, with a beginning and an end.
unfoldable pub is_path : List Position → Bool
unfolding every on_sphere
is_path (p ∷ q ∷ rest) = every on_sphere (p ∷ q ∷ rest)
is_path few = false

unfoldable mutual
  pub is_proper : Geometry → Bool
  is_proper (Geometry.point p) = on_sphere p
  is_proper (Geometry.line path) = is_path path
  is_proper (Geometry.polygon held) = is_area held
  is_proper (Geometry.multi_point ps) = every on_sphere ps
  is_proper (Geometry.multi_line ls) = every is_path ls
  is_proper (Geometry.multi_polygon ps) = every is_area ps
  is_proper (Geometry.collection shapes) = all_proper shapes

  pub all_proper : Shapes → Bool
  all_proper no_shapes = true
  all_proper (shape held rest) = is_proper held && all_proper rest

every_lem :
    {A : Type 0} → (f g : A → Bool) → ((x : A) → f x ≡ g x) → (xs : List A) → every f xs ≡ all g xs
unfolding every all
every_lem f g h [] = refl
every_lem f g h (x ∷ xs) = rw (h x, every_lem f g h xs) (guarded (g x) (all g xs))

every-and :
    {A : Type 0} → (f g : A → Bool) (xs : List A) → all (λ x. f x && g x) xs ≡ all f xs && all g xs
unfolding all
every-and f g [] = refl
every-and f g (x ∷ xs) = rw (every-and f g xs) (shuffle (f x) (g x) (all f xs) (all g xs))

all-chained :
    {A : Type 0}
    → (test : Position → Bool) (collect : A → List Position) (xs : List A)
    → all test (chained collect xs) ≡ all (λ x. all test (collect x)) xs
unfolding all chained
all-chained test collect [] = refl
all-chained test collect (x ∷ xs) =
    rw (all-append test (collect x) (chained collect xs), all-chained test collect xs) refl

on_sphere_lem : (p : Position) → on_sphere p ≡ is_on_the_sphere p
unfolding on_sphere is_on_the_sphere is_within
on_sphere_lem p = refl

ends_with_lem :
    (p q : Position) (qs : List Position) → ends_with p (q ∷ qs) ≡ same_position p (last_or q qs)
unfolding ends_with same_position last_or
ends_with_lem p q [] = refl
ends_with_lem p q (r ∷ rest) = ends_with_lem p r rest

two_have_ends : (p q : Position) (rest : List Position) → has_ends (p ∷ q ∷ rest) ≡ true
unfolding has_ends
two_have_ends p q rest = le→leb 2 (length (p ∷ q ∷ rest)) (omega arith)

four_close :
    (p q r s : Position) (rest : List Position)
    → is_closed (p ∷ q ∷ r ∷ s ∷ rest) ≡ same_position p (last_or s rest)
unfolding is_closed last_or
four_close p q r s rest =
    ap (λ b. b && same_position p (last_or s rest))
      (le→leb 4 (length (p ∷ q ∷ r ∷ s ∷ rest)) (omega arith))

is_path_lem : (path : List Position) → is_path path ≡ all is_on_the_sphere path && has_ends path
unfolding is_path has_ends all
is_path_lem [] = refl
is_path_lem (p ∷ []) = and_false (all is_on_the_sphere (p ∷ []))
is_path_lem (p ∷ q ∷ rest) =
    every_lem on_sphere is_on_the_sphere on_sphere_lem (p ∷ q ∷ rest)
    ∙ (and_true_back (all is_on_the_sphere (p ∷ q ∷ rest))
        ∙ ap (λ b. all is_on_the_sphere (p ∷ q ∷ rest) && b) (sym (two_have_ends p q rest)))

is_boundary_lem : (ring : Ring) → is_boundary ring ≡ all is_on_the_sphere ring && is_closed ring
unfolding is_boundary is_closed all last_or
is_boundary_lem [] = refl
is_boundary_lem (p ∷ []) = and_false (all is_on_the_sphere (p ∷ []))
is_boundary_lem (p ∷ q ∷ []) = and_false (all is_on_the_sphere (p ∷ q ∷ []))
is_boundary_lem (p ∷ q ∷ r ∷ []) = and_false (all is_on_the_sphere (p ∷ q ∷ r ∷ []))
is_boundary_lem (p ∷ q ∷ r ∷ s ∷ rest) =
    and_both (every_lem on_sphere is_on_the_sphere on_sphere_lem (p ∷ q ∷ r ∷ s ∷ rest))
      (ends_with_lem p s rest ∙ sym (four_close p q r s rest))

is_area_lem :
    (held : Polygon)
    → is_area held ≡ all is_on_the_sphere (collect_polygon held) && polygon_is_closed held
unfolding is_area collect_polygon polygon_is_closed
is_area_lem held =
    rw
      (
        is_boundary_lem held.exterior,
        every_lem is_boundary (λ ring. all is_on_the_sphere ring && is_closed ring) is_boundary_lem
            held.interiors,
        every-and (λ ring. all is_on_the_sphere ring) is_closed held.interiors,
        all-append is_on_the_sphere held.exterior (chained (λ (ring : Ring). ring) held.interiors),
        all-chained is_on_the_sphere (λ (ring : Ring). ring) held.interiors,
      )
      (shuffle (all is_on_the_sphere held.exterior) (is_closed held.exterior)
        (all (λ ring. all is_on_the_sphere ring) held.interiors) (all is_closed held.interiors))

-- What is proper is of one of these, so that its positions are on the sphere.
is_paths_lem :
    (ls : List (List Position))
    → every is_path ls
      ≡ all is_on_the_sphere (chained (λ (l : List Position). l) ls) && all has_ends ls
is_paths_lem ls = rw (
  every_lem is_path (λ l. all is_on_the_sphere l && has_ends l) is_path_lem ls,
  every-and (λ l. all is_on_the_sphere l) has_ends ls,
  all-chained is_on_the_sphere (λ (l : List Position). l) ls,
)

are_areas_lem :
    (ps : List Polygon)
    → every is_area ps
      ≡ all is_on_the_sphere (chained collect_polygon ps) && all polygon_is_closed ps
are_areas_lem ps = rw (
  every_lem is_area (λ held. all is_on_the_sphere (collect_polygon held) && polygon_is_closed held)
      is_area_lem ps,
  every-and (λ held. all is_on_the_sphere (collect_polygon held)) polygon_is_closed ps,
  all-chained is_on_the_sphere collect_polygon ps,
)

are_points_lem : (ps : List Position) → every on_sphere ps ≡ all is_on_the_sphere ps && true
are_points_lem ps =
    rw (every_lem on_sphere is_on_the_sphere on_sphere_lem ps)
      (and_true_back (all is_on_the_sphere ps))

point_lem : (p : Position) → on_sphere p ≡ (is_on_the_sphere p && true) && true
point_lem p =
    on_sphere_lem p
    ∙ (and_true_back (is_on_the_sphere p) ∙ and_true_back (is_on_the_sphere p && true))

mutual
  unfolding is_proper all_proper are_on_the_sphere positions positions_in all

  proper_there : (held : Geometry) → is_proper held ≡ are_on_the_sphere held && is_proper held
  proper_there (Geometry.point p) =
      absorbed (on_sphere p) (is_on_the_sphere p && true) true (point_lem p)
  proper_there (Geometry.line path) =
      absorbed (is_path path) (all is_on_the_sphere path) (has_ends path) (is_path_lem path)
  proper_there (Geometry.polygon held) =
      absorbed (is_area held) (all is_on_the_sphere (collect_polygon held)) (polygon_is_closed held)
        (is_area_lem held)
  proper_there (Geometry.multi_point ps) =
      absorbed (every on_sphere ps) (all is_on_the_sphere ps) true (are_points_lem ps)
  proper_there (Geometry.multi_line ls) =
      absorbed (every is_path ls) (all is_on_the_sphere (chained (λ (l : List Position). l) ls))
        (all has_ends ls) (is_paths_lem ls)
  proper_there (Geometry.multi_polygon ps) =
      absorbed (every is_area ps) (all is_on_the_sphere (chained collect_polygon ps))
        (all polygon_is_closed ps) (are_areas_lem ps)
  proper_there (Geometry.collection shapes) = all_proper_there shapes

  all_proper_there :
      (shapes : Shapes)
      → all_proper shapes ≡ all is_on_the_sphere (positions_in shapes) && all_proper shapes
  all_proper_there no_shapes = refl
  all_proper_there (shape held rest) =
      rw (all-append is_on_the_sphere (positions held) (positions_in rest)) (
        and_both (proper_there held) (all_proper_there rest)
        ∙ shuffle (all is_on_the_sphere (positions held)) (is_proper held)
            (all is_on_the_sphere (positions_in rest)) (all_proper rest))

mutual
  unfolding is_well_formed all_well_formed are_on_the_sphere is_proper all_proper positions
      positions_in all

  judged : (held : Geometry) → is_well_formed held ≡ is_proper held
  judged (Geometry.point p) = guarded (is_on_the_sphere p && true) true ∙ sym (point_lem p)
  judged (Geometry.line path) =
      guarded (all is_on_the_sphere path) (has_ends path) ∙ sym (is_path_lem path)
  judged (Geometry.polygon held) =
      guarded (all is_on_the_sphere (collect_polygon held)) (polygon_is_closed held)
      ∙ sym (is_area_lem held)
  judged (Geometry.multi_point ps) =
      guarded (all is_on_the_sphere ps) true ∙ sym (are_points_lem ps)
  judged (Geometry.multi_line ls) =
      guarded (all is_on_the_sphere (chained (λ (l : List Position). l) ls)) (all has_ends ls)
      ∙ sym (is_paths_lem ls)
  judged (Geometry.multi_polygon ps) =
      guarded (all is_on_the_sphere (chained collect_polygon ps)) (all polygon_is_closed ps)
      ∙ sym (are_areas_lem ps)
  judged (Geometry.collection shapes) = rw (all_judged shapes) (
      guarded (are_on_the_sphere (Geometry.collection shapes)) (all_proper shapes)
      ∙ sym (all_proper_there shapes))

  all_judged : (shapes : Shapes) → all_well_formed shapes ≡ all_proper shapes
  all_judged no_shapes = refl
  all_judged (shape held rest) = and_both (judged held) (all_judged rest)

-- A shape is well-formed exactly if it is proper: each of its positions is on the sphere, each ring
-- of an area has at least four positions and ends where it begins, bit for bit, holes included, and each
-- line has at least two positions, however deep in collections they are.
pub is_well_formed_lem : (held : Geometry) → is_well_formed held ≡ is_proper held
is_well_formed_lem held = judged held
