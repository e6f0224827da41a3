-- ===== src/Wire/Settlement.antt =====
-- src/wire/redirect.rs: where a node sends a request.
use tessaridb_sdk_rust.Common.{ℕ, List}
use tessaridb_sdk_rust.Common.Utf8.{Text}

pub data Settlement : Type 0 where
  settled transient : Settlement

pub record Redirect : Type 0 where
  pub node : List ℕ
  pub epoch : ℕ
  pub settlement : Settlement
  pub endpoint : Text
