-- ===== src/Error.antt =====
-- src/error.rs: what can go wrong on a connection, as far as the modelled parts report it.
use tessaridb_sdk_rust.Common.{ℕ, Option, List}
use tessaridb_sdk_rust.Common.Utf8.{Text}
use tessaridb_sdk_rust.Codec.Fault.{EncodingFault}
use tessaridb_sdk_rust.Query.Fault.{BuildError}
use tessaridb_sdk_rust.Wire.Settlement.{Redirect}
use tessaridb_sdk_rust.Refusal.Class.{RefusalClass}

-- What an operating system's read or write reports: the stream ended inside `read_exact`, or any
-- other fault, by a number.
pub data IoFault : Type 0 where
  unexpected_eof : IoFault
  other : ℕ → IoFault

pub data Error : Type 0 where
  io : IoFault → Error
  not_this_protocol : Error
  wrong_version : ℕ → ℕ → Error
  unknown_frame : ℕ → Error
  too_large : ℕ → Error
  truncated : Error
  malformed : Error
  encoding : EncodingFault → Error
  refused : Text → Option RefusalClass → Error
  redirected : Redirect → Error
  redirect_loop : ℕ → Error
  stale_redirect : ℕ → ℕ → Error
  wrong_node : List ℕ → Error
  not_followable : Text → Error
  node_too_old : ℕ → ℕ → Error
  build : BuildError → Error
  not_a_cache_argument : Text → Error
  not_a_vault_argument : Text → Error
  http_refused : ℕ → Text → Option RefusalClass → Error
  not_an_event : Text → Error
  no_credential : Error
