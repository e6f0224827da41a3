-- ===== src/Examples/Query.antt =====
-- Statements built at concrete inputs.
use tessaridb_sdk_rust.Common.{◌≡◌, ◌↔◌, refl, none, some, [], ◌∷◌, ok, inr}
use tessaridb_sdk_rust.Common.SortedMap.{insert}
use tessaridb_sdk_rust.Common.Utf8.{literal, text_lt}
use tessaridb_sdk_rust.Query.Binder.{record_target, bind, parameter_name, new}
use tessaridb_sdk_rust.Query.Decimal.{decimal, decimal_from}
use tessaridb_sdk_rust.Query.Filter.{render, spelled}
use tessaridb_sdk_rust.Query.Names.{
  check_name, is_name, opens_name, is_letter, all_continue, continues_name, is_digit,
}
use tessaridb_sdk_rust.Query.Blind.{script_of, build_blind}
use tessaridb_sdk_rust.Query.Blind.Writes.{build_create_blind, build_update_blind}
use tessaridb_sdk_rust.Query.Fault.{Query}
use tessaridb_sdk_rust.Query.Filter.{compare, equal, greater, and}
use tessaridb_sdk_rust.Query.Plain.{IsOneStatement}
use tessaridb_sdk_rust.Query.Plain.Reads.{build-IsOneStatement}
use tessaridb_sdk_rust.Query.Plain.Writes.{build_write-IsOneStatement}
use tessaridb_sdk_rust.Query.Select.{
  Select, ascending, leader, whole, build, projected, check_fields, projection_field, where_clause,
  order_clause, order_parts, staleness_clause, answered_clause, answerer_spelled, count_clause,
  join, order_spelled, render as render_projection, render_all,
}
use tessaridb_sdk_rust.Query.Span.{
  check_span, spans, after_part, after_prefix, find_unit, first_of, goes_on, trim_digits,
}
use tessaridb_sdk_rust.Query.Span.Found.{check_span_iff}
use tessaridb_sdk_rust.Query.Span.Grammar.{IsSpan}
use tessaridb_sdk_rust.Query.Write.{
  Create, Update, Delete, build_create, build_update, build_delete,
}
use tessaridb_sdk_rust.Value.{Value}

-- A value that spells the end of a statement.
abbrev hostile : Value
hostile = Value.string (literal "'; DELETE users")

abbrev adults : Value → Select
adults name = record {
  source = literal "users";
  projection = whole (literal "name") ∷ [];
  filter =
      some (and (compare (literal "name") equal name) (compare (literal "age") greater Value.null));
  order = (literal "age", ascending) ∷ [];
  start = none;
  limit = some 10;
  staleness = some (literal "1h30m");
  answered_by = some leader;
}

build_blind_example : script_of (build (adults hostile)) ≡ script_of (build (adults Value.null))
build_blind_example = build_blind (adults hostile) (adults Value.null) refl

abbrev adults_query : Query
adults_query = record {
  script =
      literal
        "SELECT name FROM users WHERE (name = $p0 AND age > $p1) ORDER BY age ASC LIMIT 10 STALENESS 1h30m ANSWERED BY LEADER;";
  parameters = (literal "p0", hostile) ∷ (literal "p1", Value.null) ∷ [];
}

adults_built : build (adults hostile) ≡ ok adults_query
unfolding build check_name is_name opens_name is_letter all_continue continues_name is_digit bind
    parameter_name insert decimal decimal_from projected check_fields projection_field where_clause
    order_clause order_parts staleness_clause answered_clause answerer_spelled count_clause join
    order_spelled render_projection render_all render spelled new text_lt check_span spans
    after_part after_prefix find_unit first_of goes_on trim_digits
adults_built = refl

build-IsOneStatement_example : IsOneStatement adults_query
build-IsOneStatement_example = build-IsOneStatement (adults hostile) adults_query adults_built

check_span_iff_example : (check_span (literal "1h30m") ≡ ok tt) ↔ IsSpan (literal "1h30m")
check_span_iff_example = check_span_iff (literal "1h30m")

abbrev new_user : Value → Create
new_user name = record {
  table = literal "users";
  id = some hostile;
  fields = (literal "name", name) ∷ [];
}

build_create_blind_example :
    script_of (build_create (new_user hostile)) ≡ script_of (build_create (new_user Value.null))
build_create_blind_example = build_create_blind (new_user hostile) (new_user Value.null) refl

abbrev renamed : Value → Update
renamed name = record {
  table = literal "users";
  id = hostile;
  fields = (literal "name", name) ∷ [];
}

build_update_blind_example :
    script_of (build_update (renamed hostile)) ≡ script_of (build_update (renamed Value.null))
build_update_blind_example = build_update_blind (renamed hostile) (renamed Value.null) refl

abbrev gone_user : Value → Delete
gone_user id = record { table = literal "users"; id = id }

abbrev deletion : Query
deletion = record {
  script = literal "DELETE users:$p0;";
  parameters = (literal "p0", hostile) ∷ [];
}

deletion_built : build_delete (gone_user hostile) ≡ ok deletion
unfolding build_delete record_target check_name is_name opens_name is_letter all_continue
    continues_name is_digit bind parameter_name insert decimal decimal_from
deletion_built = refl

build_write-IsOneStatement_example : IsOneStatement deletion
build_write-IsOneStatement_example =
    build_write-IsOneStatement (new_user hostile) (renamed hostile) (gone_user hostile) deletion
      (inr (inr deletion_built))
