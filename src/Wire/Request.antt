-- ===== src/Wire/Request.antt =====
-- src/wire/message.rs: what a client asks.
pub mod Reading
use tessaridb_sdk_rust.Common.{ℕ, Option, none, some, List, [], ◌∷◌, ◌++◌, length, put_each}
use tessaridb_sdk_rust.Common.Utf8.{Text}
use tessaridb_sdk_rust.Common.SortedMap.{insert, text_order}
use tessaridb_sdk_rust.Codec.Write.{count_of, encode as encode_value}
use tessaridb_sdk_rust.Value.{Value}
use tessaridb_sdk_rust.Wire.Body.{put_u32, put_text, put_bytes}

-- `VaultKey` is its 32 bytes.
pub record PresentedKey : Type 0 where
  pub namespace : Text
  pub database : Text
  pub vault : Text
  pub key : List ℕ

pub record Request : Type 0 where
  pub script : Text
  pub credentials : Option (Text × Text)
  pub parameters : List (Text × Value)
  pub keys : List PresentedKey

unfoldable pub new : Text → Request
new script = record { script = script; credentials = none; parameters = []; keys = [] }

unfoldable pub as_user : Text → Text → Request → Request
as_user name password r = record r { credentials = some (name, password) }

unfoldable pub bind : Text → Value → Request → Request
bind name value r = record r { parameters = insert name value r.parameters }

unfoldable pub presenting : Text → Text → Text → List ℕ → Request → Request
presenting namespace database vault key r = record r {
  keys =
      r.keys
      ++ record { namespace = namespace; database = database; vault = vault; key = key } ∷ [];
}

unfoldable pub put_credentials : Option (Text × Text) → List ℕ
put_credentials none = 0 ∷ []
put_credentials (some (name, password)) = 1 ∷ (put_text name ++ put_text password)

unfoldable pub put_parameter : Text × Value → List ℕ
put_parameter (name, value) = put_text name ++ put_bytes (encode_value value)

unfoldable pub put_key : PresentedKey → List ℕ
put_key k = put_text k.namespace ++ (put_text k.database ++ (put_text k.vault ++ k.key))

-- The keys follow the stream byte, and both only where there are keys.
unfoldable pub put_keys : List PresentedKey → List ℕ
put_keys [] = []
put_keys (k ∷ ks) = 0 ∷ (put_u32 (count_of (length (k ∷ ks))) ++ put_each put_key (k ∷ ks))

unfoldable pub encode : Request → List ℕ
unfolding put_credentials put_parameter put_key put_keys
encode r =
    put_text r.script
    ++ (put_credentials r.credentials
        ++ (put_u32 (count_of (length r.parameters))
            ++ (put_each put_parameter r.parameters ++ put_keys r.keys)))
