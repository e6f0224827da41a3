-- ===== src/Examples/Cache.antt =====
-- src/cache/ at concrete inputs.
use tessaridb_sdk_rust.Common.{◌≡◌, refl, true, [], ◌∷◌, ok}
use tessaridb_sdk_rust.Common.Utf8.{literal}
use tessaridb_sdk_rust.Cache.Statements
use tessaridb_sdk_rust.Cache.Statements.Bound.Every.{rendered_bound}
use tessaridb_sdk_rust.Cache.Statements.Calls.{Call, rendered}
use tessaridb_sdk_rust.Query.Names.{
  check_name, is_name, opens_name, all_continue, continues_name, is_digit, is_letter,
}
use tessaridb_sdk_rust.Statement.{tenancy_of}
use tessaridb_sdk_rust.Statement.References.{is_bound}
use tessaridb_sdk_rust.Value.{Value}

-- A cache.
abbrev cached : Statements.Statements
cached = record { tenancy = tenancy_of (literal "app") (literal "main"); space = literal "hot" }

cached-new : Statements.new (literal "app") (literal "main") (literal "hot") ≡ ok cached
unfolding Statements.new check_name is_name opens_name all_continue continues_name is_digit
    is_letter
cached-new = refl

abbrev pushing : Call
pushing =
    Call.hash_set (literal "$k")
      ((literal "$a", Value.null) ∷ (literal "b; DELETE hot", Value.null) ∷ [])

rendered_bound_example : is_bound (rendered cached pushing) ≡ true
rendered_bound_example =
    rendered_bound (literal "app") (literal "main") (literal "hot") cached cached-new pushing
