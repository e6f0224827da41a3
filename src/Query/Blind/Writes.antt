-- ===== src/Query/Blind/Writes.antt =====
-- src/query/write.rs: the text of a write does not depend on the values that it binds.
use tessaridb_sdk_rust.Common.{◌≡◌, refl, sym, ◌∙◌, ap, Option, none, some, List, [], ◌∷◌}
use tessaridb_sdk_rust.Common.Utf8.{Text, literal}
use tessaridb_sdk_rust.Query.Binder.{Binder, new, bind, record_target}
use tessaridb_sdk_rust.Query.Blind.{
  Agree, Agree-and_then, Agree-checked, Agree-bind, script_of, script_of-agreed, script_of-checked,
}
use tessaridb_sdk_rust.Query.Names.{check_name}
use tessaridb_sdk_rust.Query.Write.{
  Create, Update, Delete, assignments, render_object, create_target, some_fields, build_create,
  build_update, build_delete,
}
use tessaridb_sdk_rust.Value.{Value}

-- The same fields with every value replaced by null.
abbrev pub blank_fields : List (Text × Value) → List (Text × Value)
blank_fields [] = []
blank_fields ((name, value) ∷ rest) = (name, Value.null) ∷ blank_fields rest

abbrev blank_id : Option Value → Option Value
blank_id none = none
blank_id (some id) = some Value.null

assignments-blank :
    (between : Text) (fields : List (Text × Value)) (b c : Binder)
    → b.next ≡ c.next
    → Agree (assignments between fields b) (assignments between (blank_fields fields) c)
unfolding assignments
assignments-blank between [] b c h = (refl, h)
assignments-blank between ((name, value) ∷ rest) b c h =
    Agree-checked (check_name (literal "a field") name) _ _ λ _.
      (let (same, next) = Agree-bind value Value.null b c h in
        Agree-and_then (assignments between rest (bind value b).1)
          (assignments between (blank_fields rest) (bind Value.null c).1) _ _
          (assignments-blank between rest _ _ next) λ parts b' c' h'. (rw same, h'))

render_object-blank :
    (fields : List (Text × Value)) (b c : Binder)
    → b.next ≡ c.next
    → Agree (render_object fields b) (render_object (blank_fields fields) c)
unfolding render_object
render_object-blank fields b c h =
    Agree-and_then (assignments (literal ": ") fields b)
      (assignments (literal ": ") (blank_fields fields) c) _ _
      (assignments-blank (literal ": ") fields b c h) λ parts b' c' h'. (refl, h')

record_target-blank :
    (table : Text) (id : Value) (b c : Binder)
    → b.next ≡ c.next
    → Agree (record_target table id b) (record_target table Value.null c)
unfolding record_target
record_target-blank table id b c h =
    Agree-checked (check_name (literal "a table") table) _ _
      λ _. (let (same, next) = Agree-bind id Value.null b c h in (rw same, next))

create_target-blank :
    (table : Text) (id : Option Value) (b c : Binder)
    → b.next ≡ c.next
    → Agree (create_target table id b) (create_target table (blank_id id) c)
unfolding create_target
create_target-blank table (some id) b c h = record_target-blank table id b c h
create_target-blank table none b c h =
    Agree-checked (check_name (literal "a table") table) _ _ λ _. (refl, h)

-- The same write with every value, its identity's among them, replaced by null.
abbrev pub blank_create : Create → Create
blank_create c = record c { id = blank_id c.id; fields = blank_fields c.fields }

abbrev pub blank_update : Update → Update
blank_update u = record u { id = Value.null; fields = blank_fields u.fields }

abbrev pub blank_delete : Delete → Delete
blank_delete d = record d { id = Value.null }

some_fields-blank :
    (what : Text) (fields : List (Text × Value))
    → some_fields what fields ≡ some_fields what (blank_fields fields)
unfolding some_fields
some_fields-blank what [] = refl
some_fields-blank what (first ∷ rest) = refl

build_create-blank :
    (c : Create) → script_of (build_create c) ≡ script_of (build_create (blank_create c))
unfolding build_create
build_create-blank c =
    rw (← some_fields-blank (literal "a create needs at least one field") c.fields) (
      script_of-checked (some_fields (literal "a create needs at least one field") c.fields) _ _
        λ _.
          script_of-agreed (create_target c.table c.id new)
            (create_target c.table (blank_id c.id) new) _ _
            (create_target-blank c.table c.id new new refl)
            λ target b b' h.
              script_of-agreed (render_object c.fields b) (render_object (blank_fields c.fields) b')
                _ _ (render_object-blank c.fields b b' h) λ body later later' h'. refl)

build_update-blank :
    (u : Update) → script_of (build_update u) ≡ script_of (build_update (blank_update u))
unfolding build_update
build_update-blank u =
    rw (← some_fields-blank (literal "an update needs at least one field to set") u.fields) (
      script_of-checked (some_fields (literal "an update needs at least one field to set") u.fields)
        _ _
        λ _.
          script_of-agreed (record_target u.table u.id new) (record_target u.table Value.null new) _
            _ (record_target-blank u.table u.id new new refl)
            λ target b b' h.
              script_of-agreed (assignments (literal " = ") u.fields b)
                (assignments (literal " = ") (blank_fields u.fields) b') _ _
                (assignments-blank (literal " = ") u.fields b b' h) λ body later later' h'. refl)

build_delete-blank :
    (d : Delete) → script_of (build_delete d) ≡ script_of (build_delete (blank_delete d))
unfolding build_delete
build_delete-blank d =
    script_of-agreed (record_target d.table d.id new) (record_target d.table Value.null new) _ _
      (record_target-blank d.table d.id new new refl) λ target later later' h. refl

-- A value never reaches the text of a create: two that differ in their fields' values and in the
-- values of their identities alone have the same text, or are refused for the same reason.
pub build_create_blind :
    (c d : Create)
    → blank_create c ≡ blank_create d
    → script_of (build_create c) ≡ script_of (build_create d)
build_create_blind c d same =
    build_create-blank c ∙ (ap (λ x. script_of (build_create x)) same ∙ sym (build_create-blank d))

-- A value never reaches the text of an update: two that differ in their fields' values and in the
-- values of their identities alone have the same text, or are refused for the same reason.
pub build_update_blind :
    (u v : Update)
    → blank_update u ≡ blank_update v
    → script_of (build_update u) ≡ script_of (build_update v)
build_update_blind u v same =
    build_update-blank u ∙ (ap (λ x. script_of (build_update x)) same ∙ sym (build_update-blank v))

-- A value never reaches the text of a delete: two that differ in their identities alone have the
-- same text, or are refused for the same reason.
pub build_delete_blind :
    (d e : Delete)
    → blank_delete d ≡ blank_delete e
    → script_of (build_delete d) ≡ script_of (build_delete e)
build_delete_blind d e same =
    build_delete-blank d ∙ (ap (λ x. script_of (build_delete x)) same ∙ sym (build_delete-blank e))
