-- ===== src/Wire/Redirect/RoundTrip.antt =====
-- src/wire/redirect.rs against the layout of an `Elsewhere` body.
use tessaridb_sdk_rust.Common.{
  ℕ, ◌≡◌, ◌≢◌, refl, List, [], ◌∷◌, ◌++◌, length, ok, err, ◌>>=◌, Reads, Reads-bind, Reads-map,
  eq-ne,
}
use tessaridb_sdk_rust.Common.Utf8.{Text}
use tessaridb_sdk_rust.Error.{malformed}
use tessaridb_sdk_rust.Value.Valid.{IsU64, IsShortText}
use tessaridb_sdk_rust.Wire.Body.{put_u64, put_text, take_u8}
use tessaridb_sdk_rust.Wire.Body.RoundTrip.{
  take_node-Reads, take_u8-Reads, take_u64-Reads, take_text-Reads,
}
use tessaridb_sdk_rust.Wire.Settlement.{Settlement, settled, transient, Redirect}
use tessaridb_sdk_rust.Wire.Redirect.{settlement_of, take_redirect, decode}

pub record IsRedirect (r : Redirect) : Type 0 where
  pub node : length r.node ≡ 16
  pub epoch : IsU64 r.epoch
  pub endpoint : IsShortText r.endpoint

abbrev pub settlement_byte : Settlement → ℕ
settlement_byte settled = 1
settlement_byte transient = 2

-- The layout that the protocol gives (§3.12), with any settlement byte.
unfoldable pub elsewhere_body : List ℕ → ℕ → ℕ → Text → List ℕ
elsewhere_body node epoch byte endpoint = node ++ (put_u64 epoch ++ byte ∷ put_text endpoint)

take_settlement-Reads :
    (s : Settlement) → Reads (take_u8 >>= settlement_of) (settlement_byte s ∷ []) s
unfolding settlement_of
take_settlement-Reads settled = Reads-bind _ (take_u8-Reads 1) (record { reads = λ rest. refl })
take_settlement-Reads transient = Reads-bind _ (take_u8-Reads 2) (record { reads = λ rest. refl })

take_redirect-Reads :
    (r : Redirect)
    → IsRedirect r
    → Reads take_redirect
        (elsewhere_body r.node r.epoch (settlement_byte r.settlement) r.endpoint)
        r
unfolding take_redirect elsewhere_body
take_redirect-Reads r h = Reads-bind _ (take_node-Reads r.node h.node) (
    Reads-bind _ (take_u64-Reads r.epoch h.epoch) (
      Reads-bind _ (take_settlement-Reads r.settlement) (
        Reads-map (λ endpoint. record r { endpoint = endpoint })
          (take_text-Reads r.endpoint h.endpoint))))

-- A redirect is read back, and bytes that a later protocol appends are ignored.
pub decode-elsewhere_body :
    (r : Redirect) (later : List ℕ)
    → IsRedirect r
    → decode (elsewhere_body r.node r.epoch (settlement_byte r.settlement) r.endpoint ++ later)
      ≡ ok r
unfolding decode
decode-elsewhere_body r later h = rw ((take_redirect-Reads r h).reads later)

-- A settlement byte other than 1 and 2 is malformed, whatever follows it.
pub decode_bad_settlement :
    (node : List ℕ) (epoch byte : ℕ) (later : List ℕ)
    → length node ≡ 16
    → IsU64 epoch
    → byte ≢ 1
    → byte ≢ 2
    → decode (node ++ (put_u64 epoch ++ byte ∷ later)) ≡ err malformed
unfolding decode take_redirect settlement_of
decode_bad_settlement node epoch byte later n e h k = rw (
  (take_node-Reads node n).reads _,
  (take_u64-Reads epoch e).reads _,
  (take_u8-Reads byte).reads later,
  eq-ne byte 1 h,
  eq-ne byte 2 k,
)
