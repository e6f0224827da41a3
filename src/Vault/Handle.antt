-- ===== src/Vault/Handle.antt =====
-- src/vault.rs, `Vault`: the records of one vault, and what its frame asks. The client and the network
-- around it are the state that the operations take.
use tessaridb_sdk_rust.Common.{
  ℕ, Option, none, some, List, [], ◌∷◌, Result, ok, err, bind as and_then, if◌then◌else◌,
}
use tessaridb_sdk_rust.Common.Utf8.{Text, literal}
use tessaridb_sdk_rust.Cache.Space.{with_result}
use tessaridb_sdk_rust.Client.{Client, requires_minor, keyed_minor}
use tessaridb_sdk_rust.Client.Follow.{get, last, send as send_request}
use tessaridb_sdk_rust.Client.Session.{run_with, with_parameters}
use tessaridb_sdk_rust.Client.VaultFrame.{status_value}
use tessaridb_sdk_rust.Error.{Error, malformed, not_a_vault_argument}
use tessaridb_sdk_rust.Query.Fault.{BuildError}
use tessaridb_sdk_rust.Statement.{Duration, Rendered, built}
use tessaridb_sdk_rust.Value.{Value, entries}
use tessaridb_sdk_rust.Vault.Call.{Act, Place}
use tessaridb_sdk_rust.Vault.Statements
use tessaridb_sdk_rust.Vault.Statements.{Statements, limit_refused}
use tessaridb_sdk_rust.Vault.Status.{VaultStatus}
use tessaridb_sdk_rust.Vault.Store.{vault_act, array_of}
use tessaridb_sdk_rust.Wire.Answer.{Answer}
use tessaridb_sdk_rust.Wire.Request
use tessaridb_sdk_rust.Wire.Stream.{Stream, after}

abbrev pub declare_minor : ℕ
declare_minor = 6

pub record Page : Type 0 where
  pub ids : List Value
  pub next : Option Value

-- The connection is in the state that the operations take; a key is its 32 bytes.
pub record Vault : Type 0 where
  pub statements : Statements
  pub namespace : Text
  pub database : Text
  pub name : Text
  pub key : Option (List ℕ)

unfoldable pub new : Text → Text → Text → Result BuildError Vault
new namespace database vault = and_then (Statements.new namespace database vault) λ statements.
    ok (record {
      statements = statements;
      namespace = namespace;
      database = database;
      name = vault;
      key = none;
    })

unfoldable pub presenting : List ℕ → Vault → Vault
presenting key v = record v { key = some key }

unfoldable pub place : Vault → Place
place v = record { namespace = v.namespace; database = v.database; vault = v.name }

-- `filter(|next| *next != Value::None)`
unfoldable pub next_of : Option Value → Option Value
next_of none = none
next_of (some Value.none) = none
next_of (some other) = some other

unfoldable pub page_of : Value → Result Error Page
unfolding next_of get
page_of (Value.object page) =
    and_then (array_of (get (entries page) (literal "records")))
      λ ids. ok (record { ids = ids; next = next_of (get (entries page) (literal "next")) })
page_of other = err malformed

unfoldable pub revealed_of : Value → Result Error (List (Text × Value))
revealed_of (Value.object fields) = ok (entries fields)
revealed_of other = err malformed

unfoldable pub key_of : Value → Result Error (List ℕ)
key_of (Value.bytes key) = ok key
key_of other = err malformed

unfoldable pub keys_of : List (Text × Value) → Result Error (List (Text × List ℕ))
unfolding key_of
keys_of [] = ok []
keys_of ((name, held) ∷ rest) =
    and_then (key_of held) λ key. and_then (keys_of rest) λ later. ok ((name, key) ∷ later)

unfoldable pub recipients_in : Option Value → Result Error (List (Text × List ℕ))
unfolding keys_of
recipients_in (some (Value.object held)) = keys_of (entries held)
recipients_in other = err malformed

unfoldable pub recipients_of : Value → Result Error (List (Text × List ℕ))
unfolding recipients_in get
recipients_of (Value.object report) = recipients_in (get (entries report) (literal "recipients"))
recipients_of other = err malformed

-- A write sets at least one field.
unfoldable pub some_fields : List (Text × Value) → Result Error (Unit {0})
some_fields [] = err (not_a_vault_argument (literal "a write sets at least one field"))
some_fields (f ∷ fs) = ok tt

module _ (net : Stream) {World Instant : Type 0}
    (dial : Text → World → Result Error (Client net.State) × World)
    (since_epoch : Duration → Option Instant) (v : Vault) where
  -- Of the client alone, and of the client and the network.
  abbrev Asked : Type 0
  Asked = Client net.State → Result Error (VaultStatus since_epoch) × Client net.State

  abbrev Done : Type 0 → Type 0
  Done A = Client net.State × World → Result Error A × (Client net.State × World)

  unfoldable pub act : Act → Asked
  act asked c = vault_act net dial since_epoch asked (some (place v)) c

  unfoldable pub status : Asked
  unfolding act
  status = act Act.status

  unfoldable pub unseal : Text → Asked
  unfolding act
  unseal passphrase = act (Act.unseal passphrase)

  unfoldable pub seal : Asked
  unfolding act
  seal = act Act.seal

  unfoldable pub change_passphrase : Text → Text → Asked
  unfolding act
  change_passphrase current new = act (Act.change current new)

  unfoldable pub declare : Text → Asked
  unfolding act with_result
  declare passphrase c =
      with_result (requires_minor c.peer_minor declare_minor) c λ _. act (Act.declare passphrase) c

  unfoldable pub declare_keyed : List ℕ → Asked
  unfolding act with_result
  declare_keyed key c =
      with_result (requires_minor c.peer_minor keyed_minor) c λ _. act (Act.declare_keyed key) c

  unfoldable pub change_key : List ℕ → List ℕ → Asked
  unfolding act with_result
  change_key current new c =
      with_result (requires_minor c.peer_minor keyed_minor) c
        λ _. act (Act.change_key current new) c

  -- With a key, the request carries it for this vault.
  unfoldable pub send_with : Option (List ℕ) → Rendered → Done (List Answer)
  unfolding with_parameters
  send_with none (script, given) s =
      let (answered, c, w) = run_with net dial script none given s.0 s.1 in (answered, (c, w))
  send_with (some key) (script, given) s =
      let request =
        with_parameters given
          (Request.presenting v.namespace v.database v.name key (Request.new script)) in
      let (answered, c, w) = send_request net dial request s.0 s.1 in (answered, (c, w))

  unfoldable pub send : Rendered → Done (List Answer)
  unfolding send_with
  send rendered s = send_with v.key rendered s

  unfoldable pub value : Rendered → Done Value
  unfolding send status_value last
  value rendered s = after (send rendered s) λ answers t. (status_value (last answers), t)

  unfoldable pub list : Option Value → Option ℕ → Done Page
  unfolding value page_of
  list from limit s =
      let listed =
        after (value (Statements.list v.statements from limit) s) λ held t. (page_of held, t) in
      if limit_refused limit
      then (err (not_a_vault_argument (literal "a listing asks for 1 to 10000 ids")), s)
      else listed

  unfoldable pub reveal : Value → List Text → Done (List (Text × Value))
  unfolding value with_result
  reveal id fields s =
      with_result (built (Statements.reveal v.statements id fields)) s
        λ rendered. after (value rendered s) λ held t. (revealed_of held, t)

  unfoldable pub write : Value → List (Text × Value) → Done (Unit {0})
  unfolding send with_result some_fields
  write id fields s = with_result (some_fields fields) s λ _.
      with_result (built (Statements.write v.statements id fields)) s
        λ rendered. after (send rendered s) λ _ t. (ok tt, t)

  unfoldable pub recipients : Value → Done (List (Text × List ℕ))
  unfolding value
  recipients id s =
      after (value (Statements.recipients v.statements id) s) λ held t. (recipients_of held, t)

  unfoldable pub add_recipient : Value → Text → List ℕ → Done (Unit {0})
  unfolding send
  add_recipient id name key s =
      after (send (Statements.add_recipient v.statements id name key) s) λ _ t. (ok tt, t)

  unfoldable pub remove_recipient : Value → Text → Done (Unit {0})
  unfolding send
  remove_recipient id name s =
      after (send (Statements.remove_recipient v.statements id name) s) λ _ t. (ok tt, t)
