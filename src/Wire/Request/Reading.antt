-- ===== src/Wire/Request/Reading.antt =====
-- src/wire/message.rs, `Request::encode`, against the layout of a request frame as a node reads it.
use tessaridb_sdk_rust.Common.{
  ℕ, ◌≡◌, refl, Option, none, some, List, [], ◌∷◌, ◌++◌, append-nil, length, All, ◌==◌,
  if◌then◌else◌, ok, pure, ◌>>=◌, put_each, take_each, take_each-Reads, Reads, Reads-bind,
  Reads-map,
}
use tessaridb_sdk_rust.Common.Utf8.{Text}
use tessaridb_sdk_rust.Codec.Write.{count_of}
use tessaridb_sdk_rust.Value.{Value}
use tessaridb_sdk_rust.Value.Valid.{IsU32, IsShortText}
use tessaridb_sdk_rust.Wire.Body.{
  Body, put_u32, take, take_u8, take_u32, take_text, take_encoded, if_more,
}
use tessaridb_sdk_rust.Wire.Body.RoundTrip.{
  IsCarried, take-Reads_of, take_u8-Reads, take_count-Reads, take_text-Reads, take_encoded-Reads,
}
use tessaridb_sdk_rust.Wire.Request.{
  PresentedKey, Request, put_credentials, put_parameter, put_key, put_keys, encode,
}

-- A flag byte, and a name and a password behind it if it is not zero.
abbrev pub read_credentials : ℕ → Body (Option (Text × Text))
read_credentials flag =
    if flag == 0
    then pure none
    else (take_text >>= λ name. take_text >>= λ password. pure (some (name, password)))

abbrev pub read_parameter : Body (Text × Value)
read_parameter = take_text >>= λ name. take_encoded >>= λ value. pure (name, value)

abbrev pub read_key : Body PresentedKey
read_key = take_text >>= λ namespace. take_text >>= λ database. take_text >>= λ vault.
    take 32 >>= λ key.
    pure (record { namespace = namespace; database = database; vault = vault; key = key })

-- A stream byte and the keys, which a node reads only if they are there.
abbrev pub read_keys : Body (List PresentedKey)
read_keys = if_more [] (take_u8 >>= λ _. take_u32 >>= take_each read_key)

unfoldable pub read_request : Body Request
read_request = take_text >>= λ script. (take_u8 >>= read_credentials) >>= λ credentials.
    (take_u32 >>= take_each read_parameter) >>= λ parameters. read_keys >>= λ keys.
    pure
      (record { script = script; credentials = credentials; parameters = parameters; keys = keys })

abbrev pub AreCredentials : Option (Text × Text) → Type 0
AreCredentials none = Unit {0}
AreCredentials (some (name, password)) = IsShortText name × IsShortText password

abbrev pub IsKey : PresentedKey → Type 0
IsKey k =
    IsShortText k.namespace × IsShortText k.database × IsShortText k.vault × (length k.key ≡ 32)

pub record IsRequest (r : Request) : Type 0 where
  pub script : IsShortText r.script
  pub credentials : AreCredentials r.credentials
  pub few : IsU32 (length r.parameters)
  pub parameters : All (λ entry. IsShortText entry.0 × IsCarried entry.1) r.parameters
  pub few_keys : IsU32 (length r.keys)
  pub keys : All IsKey r.keys

read_credentials-Reads :
    (c : Option (Text × Text))
    → AreCredentials c
    → Reads (take_u8 >>= read_credentials) (put_credentials c) c
unfolding put_credentials
read_credentials-Reads none h = Reads-bind _ (take_u8-Reads 0) (record { reads = λ rest. refl })
read_credentials-Reads (some (name, password)) h = Reads-bind _ (take_u8-Reads 1) (
    Reads-bind _ (take_text-Reads name h.0)
      (Reads-map (λ p. some (name, p)) (take_text-Reads password h.1)))

read_parameter-Reads :
    (entry : Text × Value)
    → IsShortText entry.0 × IsCarried entry.1
    → Reads read_parameter (put_parameter entry) entry
unfolding put_parameter
read_parameter-Reads (name, value) h =
    Reads-bind _ (take_text-Reads name h.0)
      (Reads-map (λ v. (name, v)) (take_encoded-Reads value h.1))

read_key-Reads : (k : PresentedKey) → IsKey k → Reads read_key (put_key k) k
unfolding put_key
read_key-Reads k h = record {
  reads = λ rest.
      Reads.reads
        (Reads-bind _ (take_text-Reads k.namespace h.0) (
          Reads-bind _ (take_text-Reads k.database h.1) (
            Reads-bind _ (take_text-Reads k.vault h.2) (
              Reads-map
                (λ key.
                  let made : PresentedKey = record {
                    namespace = k.namespace;
                    database = k.database;
                    vault = k.vault;
                    key = key;
                  } in
                  made)
                (take-Reads_of 32 k.key h.3)))))
        rest;
}

read_keys-put_keys :
    (ks : List PresentedKey)
    → IsU32 (length ks)
    → All IsKey ks
    → read_keys (put_keys ks) ≡ ok (ks, [])
unfolding put_keys if_more
read_keys-put_keys [] few h = refl
read_keys-put_keys (k ∷ ks) few h =
    rw (append-nil (put_u32 (count_of (length (k ∷ ks))) ++ put_each put_key (k ∷ ks))) at (
      (Reads-bind (λ _. take_u32 >>= take_each read_key) (take_u8-Reads 0)
          (Reads-bind (take_each read_key) (take_count-Reads (length (k ∷ ks)) few)
            (take_each-Reads read_key put_key IsKey read_key-Reads (k ∷ ks) h))).reads
        [])

-- A node reads from a request's body the script, the credentials, every parameter with its value and
-- every key that the client put there, and nothing is left over.
pub read_request-encode : (r : Request) → IsRequest r → read_request (encode r) ≡ ok (r, [])
unfolding read_request encode
read_request-encode r h = rw (
  (take_text-Reads r.script h.script).reads _,
  (read_credentials-Reads r.credentials h.credentials).reads _,
  (take_count-Reads (length r.parameters) h.few).reads _,
  (take_each-Reads read_parameter put_parameter (λ entry. IsShortText entry.0 × IsCarried entry.1)
        read_parameter-Reads r.parameters h.parameters).reads
      _,
  read_keys-put_keys r.keys h.few_keys h.keys,
)
