-- ===== src/Vault/Call.antt =====
-- src/vault/call.rs: the body of a vault frame.
pub mod Reading
use tessaridb_sdk_rust.Common.{ℕ, Option, none, some, List, [], ◌∷◌, ◌++◌}
use tessaridb_sdk_rust.Common.Utf8.{Text}
use tessaridb_sdk_rust.Wire.Body.{put_text}

-- A key is its 32 bytes.
pub data Act : Type 0 where
  status : Act
  unseal : Text → Act
  seal : Act
  change : Text → Text → Act
  declare : Text → Act
  declare_keyed : List ℕ → Act
  change_key : List ℕ → List ℕ → Act

pub record Place : Type 0 where
  pub namespace : Text
  pub database : Text
  pub vault : Text

unfoldable pub put_place : Option Place → List ℕ
put_place none = 0 ∷ []
put_place (some p) = 1 ∷ (put_text p.namespace ++ (put_text p.database ++ put_text p.vault))

unfoldable pub put_act : Act → List ℕ
put_act Act.status = 1 ∷ []
put_act (Act.unseal passphrase) = 2 ∷ put_text passphrase
put_act Act.seal = 3 ∷ []
put_act (Act.change current new) = 4 ∷ (put_text current ++ put_text new)
put_act (Act.declare passphrase) = 5 ∷ put_text passphrase
put_act (Act.declare_keyed key) = 6 ∷ key
put_act (Act.change_key current new) = 7 ∷ (current ++ new)

unfoldable pub body : Act → Option Place → List ℕ
unfolding put_place put_act
body act place = 0 ∷ (put_place place ++ put_act act)
