-- ===== src/Query/Fault.antt =====
-- src/query/mod.rs: why a statement could not be built, and what a built one is.
use tessaridb_sdk_rust.Common.{ℕ, List}
use tessaridb_sdk_rust.Common.Utf8.{Text}
use tessaridb_sdk_rust.Value.{Value}

pub data BuildError : Type 0 where
  not_a_name : Text → Text → BuildError
  not_a_group_name : Text → BuildError
  not_a_worker_name : Text → BuildError
  not_a_count : ℕ → BuildError
  incomplete : Text → BuildError
  not_a_span : Text → BuildError
  not_an_answerer : Text → BuildError

pub record Query : Type 0 where
  pub script : Text
  pub parameters : List (Text × Value)
