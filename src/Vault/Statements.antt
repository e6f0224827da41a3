-- ===== src/Vault/Statements.antt =====
-- src/vault/statements.rs: the statements that a vault handle sends.
use tessaridb_sdk_rust.Common.{
  ℕ, suc, Bool, true, false, Option, none, some, List, [], ◌∷◌, ◌++◌, Result, ok, bind as and_then,
  ltb, ◌==◌, if◌then◌else◌,
}
use tessaridb_sdk_rust.Common.Utf8.{Text, literal, text_lt}
use tessaridb_sdk_rust.Query.Decimal.{decimal}
use tessaridb_sdk_rust.Query.Fault.{BuildError}
use tessaridb_sdk_rust.Query.Names.{check_name}
use tessaridb_sdk_rust.Statement.{Rendered, tenancy_of}
use tessaridb_sdk_rust.Value.{Value}

abbrev pub most_ids : ℕ
most_ids = 10_000

unfoldable pub limit_refused : Option ℕ → Bool
limit_refused none = false
limit_refused (some limit) = if limit == 0 then true else ltb most_ids limit

pub record Statements : Type 0 where
  pub tenancy : Text
  pub vault : Text

unfoldable pub tenancy_for : Text → Text → Result BuildError Text
tenancy_for namespace database =
    and_then (check_name (literal "namespace") namespace) λ _.
      and_then (check_name (literal "database") database) λ _. ok (tenancy_of namespace database)

unfoldable pub audit_by : Text → Option Text → Result BuildError Text
audit_by tenancy none = ok (tenancy ++ literal "INFO FOR AUDIT;")
audit_by tenancy (some actor) =
    and_then (check_name (literal "actor") actor)
      λ _. ok (tenancy ++ (literal "INFO FOR AUDIT BY " ++ (actor ++ literal ";")))

unfoldable pub audit : Text → Text → Option Text → Result BuildError Text
unfolding tenancy_for audit_by
audit namespace database by =
    and_then (tenancy_for namespace database) λ tenancy. audit_by tenancy by

unfoldable pub all_checked : List Text → Result BuildError (Unit {0})
all_checked [] = ok tt
all_checked (name ∷ names) = and_then (check_name (literal "field") name) λ _. all_checked names

-- A sort by the bytes of the names: equal names are the same bytes, so that any sort gives this
-- list.
unfoldable pub placed : Text → List Text → List Text
placed name [] = name ∷ []
placed name (other ∷ rest) =
    let later = placed name rest in
    if text_lt other name then other ∷ later else name ∷ other ∷ rest

unfoldable pub sorted : List Text → List Text
unfolding placed
sorted [] = []
sorted (name ∷ names) = placed name (sorted names)

unfoldable pub quoted : List Text → List Text
quoted [] = []
quoted (name ∷ names) = (b'\'' ∷ (name ++ literal "'")) ∷ quoted names

unfoldable pub quoted_fields : List Text → Result BuildError (List Text)
unfolding all_checked sorted quoted
quoted_fields names = and_then (all_checked names) λ _. ok (quoted (sorted names))

-- `join(", ")`
unfoldable pub joined : List Text → Text
joined [] = []
joined (part ∷ []) = part
joined (part ∷ next ∷ rest) = part ++ (literal ", " ++ joined (next ∷ rest))

unfoldable pub new : Text → Text → Text → Result BuildError Statements
unfolding tenancy_for
new namespace database vault = and_then (tenancy_for namespace database) λ tenancy.
    and_then (check_name (literal "vault") vault)
      λ _. ok (record { tenancy = tenancy; vault = vault })

unfoldable pub after_clause : Text → Option Value → Text × List (Text × Value)
after_clause vault none = ([], [])
after_clause vault (some after) =
    (literal " AFTER " ++ (vault ++ literal ":$after"), (literal "after", after) ∷ [])

unfoldable pub limit_clause : Option ℕ → Text
limit_clause none = []
limit_clause (some limit) = literal " LIMIT " ++ decimal limit

unfoldable pub list : Statements → Option Value → Option ℕ → Rendered
unfolding after_clause limit_clause
list s after limit = (
  s.tenancy
      ++ (literal "INFO FOR VAULT "
          ++ (s.vault
              ++ (literal " RECORDS"
                  ++ ((after_clause s.vault after).0 ++ (limit_clause limit ++ literal ";"))))),
  (after_clause s.vault after).1,
)

-- Every field, or those that are named.
unfoldable pub which_fields : List Text → Result BuildError Text
unfolding quoted_fields joined
which_fields [] = ok (literal "*")
which_fields (f ∷ fs) = and_then (quoted_fields (f ∷ fs)) λ names. ok (joined names)

unfoldable pub reveal : Statements → Value → List Text → Result BuildError Rendered
unfolding which_fields
reveal s id fields = and_then (which_fields fields) λ which. ok (
  s.tenancy ++ (literal "REVEAL " ++ (which ++ (literal " FROM " ++ (s.vault ++ literal ":$id;")))),
  (literal "id", id) ∷ [],
)

unfoldable pub names_of : List (Text × Value) → List Text
names_of [] = []
names_of ((name, value) ∷ rest) = name ∷ names_of rest

unfoldable pub placed_field : Text → Value → List (Text × Value) → List (Text × Value)
placed_field name value [] = (name, value) ∷ []
placed_field name value ((other, held) ∷ rest) =
    let later = placed_field name value rest in
    if text_lt other name then (other, held) ∷ later else (name, value) ∷ (other, held) ∷ rest

unfoldable pub sorted_fields : List (Text × Value) → List (Text × Value)
unfolding placed_field
sorted_fields [] = []
sorted_fields ((name, value) ∷ rest) = placed_field name value (sorted_fields rest)

-- `format!("f{index}")`
unfoldable pub field_name : ℕ → Text
field_name index = b'f' ∷ decimal index

-- The loop over the names and the ordered fields together, from `index` on.
unfoldable pub pairs_from : ℕ → List Text → List (Text × Value) → List Text × List (Text × Value)
unfolding field_name
pairs_from index [] ordered = ([], [])
pairs_from index (name ∷ names) [] = ([], [])
pairs_from index (name ∷ names) ((key, value) ∷ rest) =
    let (pairs, given) = pairs_from (suc index) names rest in
    ((name ++ (literal ": $" ++ field_name index)) ∷ pairs, (field_name index, value) ∷ given)

unfoldable pub merge_script : Statements → List Text → Text
unfolding joined
merge_script s pairs =
    s.tenancy
    ++ (literal "UPSERT "
        ++ (s.vault ++ (literal ":$id MERGE { " ++ (joined pairs ++ literal " };"))))

unfoldable pub write : Statements → Value → List (Text × Value) → Result BuildError Rendered
unfolding quoted_fields names_of sorted_fields pairs_from merge_script
write s id fields = and_then (quoted_fields (names_of fields)) λ names.
    (let (pairs, given) = pairs_from 0 names (sorted_fields fields) in
      ok (merge_script s pairs, (literal "id", id) ∷ given))

unfoldable pub recipients : Statements → Value → Rendered
recipients s id = (
  s.tenancy ++ (literal "INFO FOR RECIPIENTS OF " ++ (s.vault ++ literal ":$id;")),
  (literal "id", id) ∷ [],
)

unfoldable pub add_recipient : Statements → Value → Text → List ℕ → Rendered
add_recipient s id name key = (
  s.tenancy ++ (literal "ADD RECIPIENT $name TO " ++ (s.vault ++ literal ":$id KEY $key;")),
  (literal "id", id) ∷ (literal "name", Value.string name) ∷ (literal "key", Value.bytes key) ∷ [],
)

unfoldable pub remove_recipient : Statements → Value → Text → Rendered
remove_recipient s id name = (
  s.tenancy ++ (literal "REMOVE RECIPIENT $name FROM " ++ (s.vault ++ literal ":$id;")),
  (literal "id", id) ∷ (literal "name", Value.string name) ∷ [],
)
