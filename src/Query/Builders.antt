-- ===== src/Query/Builders.antt =====
-- src/query/: the calls that a caller makes before `build`.
use tessaridb_sdk_rust.Common.{ℕ, none, some, [], ◌∷◌, ◌++◌, if◌then◌else◌, Result, ok, err}
use tessaridb_sdk_rust.Common.Utf8.{Text, literal}
use tessaridb_sdk_rust.Refusal.Class.{text_eq}
use tessaridb_sdk_rust.Query.Fault.{BuildError, not_an_answerer}
use tessaridb_sdk_rust.Query.Filter.{
  Filter, compare, equal, not_equal, less, less_or_equal, greater, greater_or_equal,
}
use tessaridb_sdk_rust.Query.Select.{Select, Projection, Order, Answerer, any, leader}
use tessaridb_sdk_rust.Query.Write.{Create, Update, Delete}
use tessaridb_sdk_rust.Value.{Value}

-- `field(name)` and a comparison on it.
unfoldable field_eq : Text → Value → Filter
field_eq name value = compare name equal value

unfoldable field_ne : Text → Value → Filter
field_ne name value = compare name not_equal value

unfoldable field_lt : Text → Value → Filter
field_lt name value = compare name less value

unfoldable field_le : Text → Value → Filter
field_le name value = compare name less_or_equal value

unfoldable field_gt : Text → Value → Filter
field_gt name value = compare name greater value

unfoldable field_ge : Text → Value → Filter
field_ge name value = compare name greater_or_equal value

unfoldable select_field : Text → Select → Select
select_field name s = record s { projection = s.projection ++ Projection.whole name ∷ [] }

unfoldable select_field_lines : Text → ℕ → ℕ → Select → Select
select_field_lines name start count s = record s {
  projection = s.projection ++ Projection.lines name start count ∷ [];
}

unfoldable select_filter : Filter → Select → Select
select_filter filter s = record s { filter = some filter }

unfoldable select_order_by : Text → Order → Select → Select
select_order_by name order s = record s { order = s.order ++ (name, order) ∷ [] }

unfoldable select_start : ℕ → Select → Select
select_start at_row s = record s { start = some at_row }

unfoldable select_limit : ℕ → Select → Select
select_limit count s = record s { limit = some count }

unfoldable select_staleness : Text → Select → Select
select_staleness bound s = record s { staleness = some bound }

unfoldable select_answered_by : Answerer → Select → Select
select_answered_by answerer s = record s { answered_by = some answerer }

-- `Answerer::try_from`
unfoldable answerer_of : Text → Result BuildError Answerer
answerer_of word =
    if text_eq word (literal "ANY")
    then ok any
    else if text_eq word (literal "LEADER")
    then ok leader
    else err (not_an_answerer word)

unfoldable create_record : Text → Value → Create
create_record table id = record { table = table; id = some id; fields = [] }

unfoldable create_in_table : Text → Create
create_in_table table = record { table = table; id = none; fields = [] }

unfoldable update_record : Text → Value → Update
update_record table id = record { table = table; id = id; fields = [] }

unfoldable delete_record : Text → Value → Delete
delete_record table id = record { table = table; id = id }
