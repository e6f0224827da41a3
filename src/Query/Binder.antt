-- ===== src/Query/Binder.antt =====
-- src/query/mod.rs, `Binder`: values become parameters, and their references are what is written.
use tessaridb_sdk_rust.Common.{
  ℕ, ◌+◌, ◌-◌, ◌^◌, min, List, [], ◌∷◌, ◌++◌, Result, ok, bind as and_then,
}
use tessaridb_sdk_rust.Common.Utf8.{Text, literal}
use tessaridb_sdk_rust.Common.SortedMap.{insert, text_order}
use tessaridb_sdk_rust.Query.Decimal.{decimal}
use tessaridb_sdk_rust.Query.Fault.{BuildError}
use tessaridb_sdk_rust.Query.Names.{check_name}
use tessaridb_sdk_rust.Value.{Value}

pub record Binder : Type 0 where
  pub parameters : List (Text × Value)
  pub next : ℕ

unfoldable pub new : Binder
new = record { parameters = []; next = 0 }

-- `format!("p{}", self.next)`
unfoldable pub parameter_name : ℕ → Text
parameter_name n = b'p' ∷ decimal n

unfoldable pub bind : Value → Binder → Text × Binder
bind value b =
    let name = parameter_name b.next in
    (
      b'$' ∷ name,
      record { parameters = insert name value b.parameters; next = min (b.next + 1) (2 ^ 64 - 1) },
    )

unfoldable pub record_target : Text → Value → Binder → Result BuildError (Text × Binder)
record_target table id b =
    and_then (check_name (literal "a table") table)
      λ _. (let (reference, later) = bind id b in ok (table ++ b':' ∷ reference, later))
