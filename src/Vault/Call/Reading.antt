-- ===== src/Vault/Call/Reading.antt =====
-- src/vault/call.rs, `body`, against the layout of a vault frame as a node reads it.
use tessaridb_sdk_rust.Common.{
  ℕ, ◌≡◌, refl, Option, none, some, [], ◌++◌, append-nil, length, ◌==◌, if◌then◌else◌, ok, pure,
  raise, ◌>>=◌, Reads, Reads-bind, Reads-map,
}
use tessaridb_sdk_rust.Error.{malformed}
use tessaridb_sdk_rust.Value.Valid.{IsShortText}
use tessaridb_sdk_rust.Vault.Call.{Act, Place, put_place, put_act, body}
use tessaridb_sdk_rust.Wire.Body.{Body, take, take_u8, take_text}
use tessaridb_sdk_rust.Wire.Body.RoundTrip.{take-Reads_of, take_u8-Reads, take_text-Reads}

-- A flag byte, and the names of a vault behind it if it is not zero.
abbrev read_place : ℕ → Body (Option Place)
read_place flag =
    if flag == 0
    then pure none
    else (take_text >>= λ namespace. take_text >>= λ database. take_text >>= λ vault.
        pure (some (record { namespace = namespace; database = database; vault = vault })))

abbrev read_act : ℕ → Body Act
read_act tag =
    if tag == 1
    then pure Act.status
    else if tag == 2
    then (take_text >>= λ passphrase. pure (Act.unseal passphrase))
    else if tag == 3
    then pure Act.seal
    else if tag == 4
    then (take_text >>= λ current. take_text >>= λ new. pure (Act.change current new))
    else if tag == 5
    then (take_text >>= λ passphrase. pure (Act.declare passphrase))
    else if tag == 6
    then (take 32 >>= λ key. pure (Act.declare_keyed key))
    else if tag == 7
    then (take 32 >>= λ current. take 32 >>= λ new. pure (Act.change_key current new))
    else raise malformed

-- A stream byte, the place, and the act behind its tag.
unfoldable pub read_body : Body (Act × Option Place)
read_body = take_u8 >>= λ stream.
    (take_u8 >>= read_place) >>= λ place. (take_u8 >>= read_act) >>= λ act. pure (act, place)

abbrev pub IsPlace : Option Place → Type 0
IsPlace none = Unit {0}
IsPlace (some p) = IsShortText p.namespace × IsShortText p.database × IsShortText p.vault

-- Texts of at most 32 bits of length, and keys of 32 bytes.
abbrev pub IsAct : Act → Type 0
IsAct Act.status = Unit {0}
IsAct (Act.unseal passphrase) = IsShortText passphrase
IsAct Act.seal = Unit {0}
IsAct (Act.change current new) = IsShortText current × IsShortText new
IsAct (Act.declare passphrase) = IsShortText passphrase
IsAct (Act.declare_keyed key) = length key ≡ 32
IsAct (Act.change_key current new) = (length current ≡ 32) × (length new ≡ 32)

read_place-Reads : (p : Option Place) → IsPlace p → Reads (take_u8 >>= read_place) (put_place p) p
unfolding put_place
read_place-Reads none h = Reads-bind _ (take_u8-Reads 0) (record { reads = λ rest. refl })
read_place-Reads (some p) h = Reads-bind _ (take_u8-Reads 1) (record {
  reads = λ rest.
      Reads.reads
        (Reads-bind _ (take_text-Reads p.namespace h.0) (
          Reads-bind _ (take_text-Reads p.database h.1) (
            Reads-map
              (λ vault.
                let made : Place = record {
                  namespace = p.namespace;
                  database = p.database;
                  vault = vault;
                } in
                some made)
              (take_text-Reads p.vault h.2))))
        rest;
})

read_act-Reads : (act : Act) → IsAct act → Reads (take_u8 >>= read_act) (put_act act) act
unfolding put_act
read_act-Reads Act.status h = Reads-bind _ (take_u8-Reads 1) (record { reads = λ rest. refl })
read_act-Reads (Act.unseal passphrase) h =
    Reads-bind _ (take_u8-Reads 2) (Reads-map (λ p. Act.unseal p) (take_text-Reads passphrase h))
read_act-Reads Act.seal h = Reads-bind _ (take_u8-Reads 3) (record { reads = λ rest. refl })
read_act-Reads (Act.change current new) h = Reads-bind _ (take_u8-Reads 4) (
    Reads-bind _ (take_text-Reads current h.0)
      (Reads-map (λ n. Act.change current n) (take_text-Reads new h.1)))
read_act-Reads (Act.declare passphrase) h =
    Reads-bind _ (take_u8-Reads 5) (Reads-map (λ p. Act.declare p) (take_text-Reads passphrase h))
read_act-Reads (Act.declare_keyed key) h =
    Reads-bind _ (take_u8-Reads 6) (Reads-map (λ k. Act.declare_keyed k) (take-Reads_of 32 key h))
read_act-Reads (Act.change_key current new) h = Reads-bind _ (take_u8-Reads 7) (
    Reads-bind _ (take-Reads_of 32 current h.0)
      (Reads-map (λ n. Act.change_key current n) (take-Reads_of 32 new h.1)))

-- A node reads from a vault frame the act with its passphrases or keys, and the vault that it is on or
-- that it is on none, and nothing is left over.
pub read_body-body :
    (act : Act) (place : Option Place)
    → IsAct act
    → IsPlace place
    → read_body (body act place) ≡ ok ((act, place), [])
unfolding read_body body
read_body-body act place h k = rw (
  (take_u8-Reads 0).reads (put_place place ++ put_act act),
  (read_place-Reads place k).reads (put_act act),
  ← append-nil (put_act act),
  (read_act-Reads act h).reads [],
)
