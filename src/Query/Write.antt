-- ===== src/Query/Write.antt =====
-- src/query/write.rs: creating, updating and deleting records.
use tessaridb_sdk_rust.Common.{
  Option, none, some, List, [], ◌∷◌, ◌++◌, Result, ok, err, bind as and_then,
}
use tessaridb_sdk_rust.Common.Utf8.{Text, literal}
use tessaridb_sdk_rust.Common.SortedMap.{insert, text_order}
use tessaridb_sdk_rust.Query.Binder.{Binder, new, bind, record_target}
use tessaridb_sdk_rust.Query.Fault.{BuildError, Query, incomplete}
use tessaridb_sdk_rust.Query.Names.{check_name}
use tessaridb_sdk_rust.Query.Select.{join}
use tessaridb_sdk_rust.Value.{Value}

pub record Create : Type 0 where
  pub table : Text
  pub id : Option Value
  pub fields : List (Text × Value)

pub record Update : Type 0 where
  pub table : Text
  pub id : Value
  pub fields : List (Text × Value)

pub record Delete : Type 0 where
  pub table : Text
  pub id : Value

unfoldable pub create_set : Text → Value → Create → Create
create_set name value c = record c { fields = insert name value c.fields }

unfoldable pub update_set : Text → Value → Update → Update
update_set name value u = record u { fields = insert name value u.fields }

-- Each field's name, `between`, and the reference to its value.
unfoldable pub assignments :
    Text → List (Text × Value) → Binder → Result BuildError (List Text × Binder)
assignments between [] b = ok ([], b)
assignments between ((name, value) ∷ rest) b = and_then (check_name (literal "a field") name) λ _.
    (let (reference, later) = bind value b in
      and_then (assignments between rest later)
        λ (parts, last). ok ((name ++ (between ++ reference)) ∷ parts, last))

unfoldable pub render_object : List (Text × Value) → Binder → Result BuildError (Text × Binder)
render_object fields b =
    and_then (assignments (literal ": ") fields b)
      λ (parts, later). ok (literal "{ " ++ (join parts ++ literal " }"), later)

-- A record of its own identity, or one that the node names.
unfoldable pub create_target : Text → Option Value → Binder → Result BuildError (Text × Binder)
create_target table (some id) b = record_target table id b
create_target table none b = and_then (check_name (literal "a table") table) λ _. ok (table, b)

unfoldable pub some_fields : Text → List (Text × Value) → Result BuildError (Unit {0})
some_fields what [] = err (incomplete what)
some_fields what (first ∷ rest) = ok tt

unfoldable pub build_create : Create → Result BuildError Query
unfolding new
build_create c = and_then (some_fields (literal "a create needs at least one field") c.fields) λ _.
    and_then (create_target c.table c.id new) λ (target, b).
      and_then (render_object c.fields b) λ (body, later). ok (record {
        script = literal "CREATE " ++ (target ++ (literal " = " ++ (body ++ b';' ∷ [])));
        parameters = later.parameters;
      })

unfoldable pub build_update : Update → Result BuildError Query
unfolding new
build_update u =
    and_then (some_fields (literal "an update needs at least one field to set") u.fields) λ _.
      and_then (record_target u.table u.id new) λ (target, b).
        and_then (assignments (literal " = ") u.fields b) λ (parts, later). ok (record {
          script = literal "UPDATE " ++ (target ++ (literal " SET " ++ (join parts ++ b';' ∷ [])));
          parameters = later.parameters;
        })

unfoldable pub build_delete : Delete → Result BuildError Query
unfolding new
build_delete d = and_then (record_target d.table d.id new) λ (target, later).
    ok (record {
      script = literal "DELETE " ++ (target ++ b';' ∷ []);
      parameters = later.parameters;
    })
