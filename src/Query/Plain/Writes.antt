-- ===== src/Query/Plain/Writes.antt =====
-- src/query/write.rs: a write is one statement.
use tessaridb_sdk_rust.Common.{
  ◌≡◌, refl, true, Option, none, some, List, [], ◌∷◌, ◌++◌, append_assoc, ok, ◌⊎◌, inl, inr,
}
use tessaridb_sdk_rust.Common.Utf8.{Text, literal}
use tessaridb_sdk_rust.Query.Binder.{Binder, new, bind, record_target}
use tessaridb_sdk_rust.Query.Fault.{Query}
use tessaridb_sdk_rust.Query.Names.{is_digit, is_letter, opens_name, continues_name, check_name}
use tessaridb_sdk_rust.Query.Plain.{
  among, is_word_byte, is_plain_byte, is_plain, is_plain-append, IsOneStatement, Gives,
  Gives-and_then, Gives-ok, Gives-of,
}
use tessaridb_sdk_rust.Query.Plain.Parts.{is_plain-check_name, IsRendered, is_plain-bind}
use tessaridb_sdk_rust.Query.Select.{join}
use tessaridb_sdk_rust.Query.Write.{
  Create, Update, Delete, assignments, render_object, create_target, some_fields, build_create,
  build_update, build_delete,
}
use tessaridb_sdk_rust.Value.{Value}
use tessaridb_sdk_rust.Query.Plain.Reads.{ArePlain, is_plain-join}

abbrev IsAssigned : List Text × Binder → Type 0
IsAssigned x = ArePlain x.0

Gives-record_target :
    (table : Text) (id : Value) (b : Binder) → Gives IsRendered (record_target table id b)
unfolding record_target is_plain is_plain_byte is_word_byte among continues_name is_digit opens_name
    is_letter
Gives-record_target table id b =
    Gives-and_then _ IsRendered (check_name (literal "a table") table) _
      (is_plain-check_name (literal "a table") table)
      λ _ good. simp (is_plain-append, good, is_plain-bind)

Gives-create_target :
    (table : Text) (id : Option Value) (b : Binder) → Gives IsRendered (create_target table id b)
unfolding create_target
Gives-create_target table (some id) b = Gives-record_target table id b
Gives-create_target table none b =
    Gives-and_then _ IsRendered (check_name (literal "a table") table) _
      (is_plain-check_name (literal "a table") table) λ _ good. good

Gives-assignments :
    (between : Text) (fields : List (Text × Value)) (b : Binder)
    → is_plain between ≡ true
    → Gives IsAssigned (assignments between fields b)
unfolding assignments
Gives-assignments between [] b h = tt
Gives-assignments between ((name, value) ∷ rest) b h =
    Gives-and_then _ IsAssigned (check_name (literal "a field") name) _
      (is_plain-check_name (literal "a field") name)
      λ _ good.
        Gives-and_then IsAssigned IsAssigned (assignments between rest (bind value b).1) _
          (Gives-assignments between rest (bind value b).1 h)
          λ parts later. (simp (is_plain-append, good, h, is_plain-bind), later)

Gives-render_object :
    (fields : List (Text × Value)) (b : Binder) → Gives IsRendered (render_object fields b)
unfolding render_object is_plain is_plain_byte is_word_byte among continues_name is_digit opens_name
    is_letter
Gives-render_object fields b =
    Gives-and_then IsAssigned IsRendered (assignments (literal ": ") fields b) _
      (Gives-assignments (literal ": ") fields b refl)
      λ parts good. simp (is_plain-append, is_plain-join parts.0 good)

Gives-build_create : (c : Create) → Gives IsOneStatement (build_create c)
unfolding build_create is_plain is_plain_byte is_word_byte among continues_name is_digit opens_name
    is_letter
Gives-build_create c =
    Gives-and_then (λ _. Unit {0}) IsOneStatement
      (some_fields (literal "a create needs at least one field") c.fields) _
      (Gives-of (λ _. Unit {0}) _ λ _ _. tt)
      λ _ _.
        Gives-and_then IsRendered IsOneStatement (create_target c.table c.id new) _
          (Gives-create_target c.table c.id new)
          λ target plain_target.
            Gives-and_then IsRendered IsOneStatement (render_object c.fields target.1) _
              (Gives-render_object c.fields target.1)
              λ body plain_body. (
                literal "CREATE " ++ (target.0 ++ (literal " = " ++ body.0)),
                simp append_assoc,
                simp (is_plain-append, plain_target, plain_body),
              )

Gives-build_update : (u : Update) → Gives IsOneStatement (build_update u)
unfolding build_update is_plain is_plain_byte is_word_byte among continues_name is_digit opens_name
    is_letter
Gives-build_update u =
    Gives-and_then (λ _. Unit {0}) IsOneStatement
      (some_fields (literal "an update needs at least one field to set") u.fields) _
      (Gives-of (λ _. Unit {0}) _ λ _ _. tt)
      λ _ _.
        Gives-and_then IsRendered IsOneStatement (record_target u.table u.id new) _
          (Gives-record_target u.table u.id new)
          λ target plain_target.
            Gives-and_then IsAssigned IsOneStatement (assignments (literal " = ") u.fields target.1)
              _ (Gives-assignments (literal " = ") u.fields target.1 refl)
              λ parts plain_parts. (
                literal "UPDATE " ++ (target.0 ++ (literal " SET " ++ join parts.0)),
                simp append_assoc,
                simp (is_plain-append, plain_target, is_plain-join parts.0 plain_parts),
              )

Gives-build_delete : (d : Delete) → Gives IsOneStatement (build_delete d)
unfolding build_delete is_plain is_plain_byte is_word_byte among continues_name is_digit opens_name
    is_letter
Gives-build_delete d =
    Gives-and_then IsRendered IsOneStatement (record_target d.table d.id new) _
      (Gives-record_target d.table d.id new)
      λ target plain_target.
        (literal "DELETE " ++ target.0, simp append_assoc, simp (is_plain-append, plain_target))

-- A built write is one statement: whatever strings a caller supplied as names or in values, the text
-- of a create, an update or a delete ends in its only semicolon and has no quote, no comment and no
-- byte outside ASCII.
pub build_write-IsOneStatement :
    (c : Create) (u : Update) (d : Delete) (q : Query)
    → (build_create c ≡ ok q) ⊎ ((build_update u ≡ ok q) ⊎ (build_delete d ≡ ok q))
    → IsOneStatement q
build_write-IsOneStatement c u d q (inl h) =
    Gives-ok IsOneStatement (build_create c) q (Gives-build_create c) h
build_write-IsOneStatement c u d q (inr (inl h)) =
    Gives-ok IsOneStatement (build_update u) q (Gives-build_update u) h
build_write-IsOneStatement c u d q (inr (inr h)) =
    Gives-ok IsOneStatement (build_delete d) q (Gives-build_delete d) h
