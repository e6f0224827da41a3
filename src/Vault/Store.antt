-- ===== src/Vault/Store.antt =====
-- src/vault.rs, the calls of `Client`: the store's own vault and its trail of reads.
use tessaridb_sdk_rust.Common.{Option, none, some, List, Result, ok, err}
use tessaridb_sdk_rust.Common.Utf8.{Text, literal}
use tessaridb_sdk_rust.Cache.Containers.{list_of}
use tessaridb_sdk_rust.Cache.Space.{with_result}
use tessaridb_sdk_rust.Client.{Client}
use tessaridb_sdk_rust.Client.Follow.{get, last}
use tessaridb_sdk_rust.Client.Session.{run}
use tessaridb_sdk_rust.Client.VaultFrame.{vault_frame}
use tessaridb_sdk_rust.Error.{Error, malformed}
use tessaridb_sdk_rust.Statement.{Duration, built}
use tessaridb_sdk_rust.Value.{Value, entries}
use tessaridb_sdk_rust.Vault.Call.{Act, Place, body}
use tessaridb_sdk_rust.Vault.Statements.{audit}
use tessaridb_sdk_rust.Vault.Status.{VaultStatus, from_value}
use tessaridb_sdk_rust.Wire.Answer.{Answer}
use tessaridb_sdk_rust.Wire.Stream.{Stream, after}

-- `Some(Value::Array(entries))`
unfoldable pub array_of : Option Value → Result Error (List Value)
unfolding list_of
array_of (some (Value.array items)) = ok (list_of items)
array_of other = err malformed

unfoldable pub audit_of : Option Answer → Result Error (List Value)
unfolding array_of get
audit_of (some (Answer.value (Value.object report) names)) =
    array_of (get (entries report) (literal "audit"))
audit_of other = err malformed

module _ (net : Stream) {World Instant : Type 0}
    (dial : Text → World → Result Error (Client net.State) × World)
    (since_epoch : Duration → Option Instant) where
  unfoldable pub vault_act :
      Act
      → Option Place
      → Client net.State
      → Result Error (VaultStatus since_epoch) × Client net.State
  vault_act act place c =
      after (vault_frame net (body act place) c) λ held d. (from_value since_epoch held, d)

  unfoldable pub vault_status :
      Client net.State → Result Error (VaultStatus since_epoch) × Client net.State
  unfolding vault_act
  vault_status c = vault_act Act.status none c

  unfoldable pub unseal :
      Text → Client net.State → Result Error (VaultStatus since_epoch) × Client net.State
  unfolding vault_act
  unseal passphrase c = vault_act (Act.unseal passphrase) none c

  unfoldable pub seal : Client net.State → Result Error (VaultStatus since_epoch) × Client net.State
  unfolding vault_act
  seal c = vault_act Act.seal none c

  unfoldable pub change_passphrase :
      Text → Text → Client net.State → Result Error (VaultStatus since_epoch) × Client net.State
  unfolding vault_act
  change_passphrase current new c = vault_act (Act.change current new) none c

  unfoldable pub vault_audit :
      Text
      → Text
      → Option Text
      → Client net.State × World
      → Result Error (List Value) × (Client net.State × World)
  unfolding with_result audit_of last
  vault_audit namespace database by s =
      with_result (built (audit namespace database by)) s λ script.
        (let (answered, c, w) = run net dial script none s.0 s.1 in
          after (answered, (c, w)) λ answers t. (audit_of (last answers), t))
