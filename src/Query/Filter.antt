-- ===== src/Query/Filter.antt =====
-- src/query/filter.rs: conditions, and the text that they render to.
use tessaridb_sdk_rust.Common.{[], ◌∷◌, ◌++◌, Result, ok, bind as and_then}
use tessaridb_sdk_rust.Common.Utf8.{Text, literal}
use tessaridb_sdk_rust.Query.Binder.{Binder, bind}
use tessaridb_sdk_rust.Query.Fault.{BuildError}
use tessaridb_sdk_rust.Query.Names.{check_name}
use tessaridb_sdk_rust.Value.{Value}

pub data Compare : Type 0 where
  equal not_equal less less_or_equal greater greater_or_equal : Compare

unfoldable pub spelled : Compare → Text
spelled equal = literal "="
spelled not_equal = literal "!="
spelled less = literal "<"
spelled less_or_equal = literal "<="
spelled greater = literal ">"
spelled greater_or_equal = literal ">="

-- `Filter`, which wraps a `Node`.
pub data Filter : Type 0 where
  compare : Text → Compare → Value → Filter
  and : Filter → Filter → Filter
  or : Filter → Filter → Filter

unfoldable pub render : Filter → Binder → Result BuildError (Text × Binder)
render (compare field how value) b = and_then (check_name (literal "a field") field) λ _.
    (let (reference, later) = bind value b in
      ok (field ++ b' ' ∷ (spelled how ++ b' ' ∷ reference), later))
render (and left right) b = and_then (render left b) λ (l, middle).
    and_then (render right middle)
      λ (r, later). ok (b'(' ∷ (l ++ (literal " AND " ++ (r ++ b')' ∷ []))), later)
render (or left right) b = and_then (render left b) λ (l, middle).
    and_then (render right middle)
      λ (r, later). ok (b'(' ∷ (l ++ (literal " OR " ++ (r ++ b')' ∷ []))), later)
