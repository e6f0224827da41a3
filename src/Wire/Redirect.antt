-- ===== src/Wire/Redirect.antt =====
-- src/wire/redirect.rs: the `Elsewhere` frame.
pub mod RoundTrip
use tessaridb_sdk_rust.Common.{
  ℕ, List, ◌==◌, if◌then◌else◌, Result, ok, err, bind, pure, raise, ◌>>=◌,
}
use tessaridb_sdk_rust.Common.Utf8.{Text}
use tessaridb_sdk_rust.Error.{Error, malformed}
use tessaridb_sdk_rust.Wire.Settlement.{Settlement, settled, transient, Redirect}
use tessaridb_sdk_rust.Wire.Body.{Body, take, take_u8, take_u64, take_text}

unfoldable pub settlement_of : ℕ → Body Settlement
settlement_of byte =
    if byte == 1 then pure settled else if byte == 2 then pure transient else raise malformed

unfoldable pub take_redirect : Body Redirect
take_redirect = do
  node ← take 16
  epoch ← take_u64
  settlement ← take_u8 >>= settlement_of
  endpoint ← take_text
  pure (record { node = node; epoch = epoch; settlement = settlement; endpoint = endpoint })

-- Bytes after the endpoint are not looked at.
unfoldable pub decode : List ℕ → Result Error Redirect
decode body = bind (take_redirect body) λ (redirect, left). ok redirect
