-- ===== src/Query/Select.antt =====
-- src/query/select.rs: reading records.
use tessaridb_sdk_rust.Common.{
  ℕ, Option, none, some, List, [], ◌∷◌, ◌++◌, Result, ok, bind as and_then,
}
use tessaridb_sdk_rust.Common.Utf8.{Text, literal}
use tessaridb_sdk_rust.Query.Binder.{Binder, new}
use tessaridb_sdk_rust.Query.Decimal.{decimal}
use tessaridb_sdk_rust.Query.Fault.{BuildError, Query}
use tessaridb_sdk_rust.Query.Filter.{Filter, render as render_filter}
use tessaridb_sdk_rust.Query.Names.{check_name}
use tessaridb_sdk_rust.Query.Span.{check_span}

pub data Order : Type 0 where
  ascending descending : Order

unfoldable pub order_spelled : Order → Text
order_spelled ascending = literal "ASC"
order_spelled descending = literal "DESC"

-- Where an answer must come from.
pub data Answerer : Type 0 where
  any leader : Answerer

unfoldable pub answerer_spelled : Answerer → Text
answerer_spelled any = literal "ANY"
answerer_spelled leader = literal "LEADER"

pub data Projection : Type 0 where
  whole : Text → Projection
  lines : Text → ℕ → ℕ → Projection

unfoldable pub projection_field : Projection → Text
projection_field (whole name) = name
projection_field (lines name start count) = name

unfoldable pub render : Projection → Text
render (whole name) = name
render (lines name start count) =
    literal "string::lines("
    ++ (name
        ++ (literal ", "
            ++ (decimal start ++ (literal ", " ++ (decimal count ++ (literal ") AS " ++ name))))))

pub record Select : Type 0 where
  pub source : Text
  pub projection : List Projection
  pub filter : Option Filter
  pub order : List (Text × Order)
  pub start : Option ℕ
  pub limit : Option ℕ
  pub staleness : Option Text
  pub answered_by : Option Answerer

unfoldable pub from : Text → Select
from table = record {
  source = table;
  projection = [];
  filter = none;
  order = [];
  start = none;
  limit = none;
  staleness = none;
  answered_by = none;
}

-- `parts.join(", ")`
unfoldable pub join : List Text → Text
join [] = []
join (part ∷ []) = part
join (part ∷ next ∷ parts) = part ++ (literal ", " ++ join (next ∷ parts))

unfoldable pub check_fields : List Projection → Result BuildError (Unit {0})
check_fields [] = ok tt
check_fields (item ∷ items) =
    and_then (check_name (literal "a field") (projection_field item)) λ _. check_fields items

unfoldable pub render_all : List Projection → List Text
render_all [] = []
render_all (item ∷ items) = render item ∷ render_all items

unfoldable pub projected : List Projection → Result BuildError Text
projected [] = ok (literal "*")
projected (item ∷ items) =
    and_then (check_fields (item ∷ items)) λ _. ok (join (render_all (item ∷ items)))

unfoldable pub where_clause : Option Filter → Binder → Result BuildError (Text × Binder)
where_clause none binder = ok ([], binder)
where_clause (some filter) binder =
    and_then (render_filter filter binder)
      λ (rendered, later). ok (literal " WHERE " ++ rendered, later)

unfoldable pub order_parts : List (Text × Order) → Result BuildError (List Text)
order_parts [] = ok []
order_parts ((name, order) ∷ rest) =
    and_then (check_name (literal "a field") name)
      λ _. and_then (order_parts rest) λ parts. ok ((name ++ b' ' ∷ order_spelled order) ∷ parts)

unfoldable pub order_clause : List (Text × Order) → Result BuildError Text
order_clause [] = ok []
order_clause (first ∷ rest) =
    and_then (order_parts (first ∷ rest)) λ parts. ok (literal " ORDER BY " ++ join parts)

-- A count is a literal, behind its word.
unfoldable pub count_clause : Text → Option ℕ → Text
count_clause word none = []
count_clause word (some count) = word ++ decimal count

unfoldable pub staleness_clause : Option Text → Result BuildError Text
staleness_clause none = ok []
staleness_clause (some bound) = and_then (check_span bound) λ _. ok (literal " STALENESS " ++ bound)

unfoldable pub answered_clause : Option Answerer → Text
answered_clause none = []
answered_clause (some answerer) = literal " ANSWERED BY " ++ answerer_spelled answerer

unfoldable pub build : Select → Result BuildError Query
unfolding new
build s = and_then (check_name (literal "a table") s.source) λ _.
    and_then (projected s.projection) λ projection.
      and_then (where_clause s.filter new) λ (condition, binder).
        and_then (order_clause s.order) λ order.
          and_then (staleness_clause s.staleness) λ staleness. ok (record {
            script =
                literal "SELECT "
                ++ (projection
                    ++ (literal " FROM "
                        ++ (s.source
                            ++ (condition
                                ++ (order
                                    ++ (count_clause (literal " START ") s.start
                                        ++ (count_clause (literal " LIMIT ") s.limit
                                            ++ (staleness
                                                ++ (answered_clause s.answered_by
                                                    ++ b';' ∷ [])))))))));
            parameters = binder.parameters;
          })
