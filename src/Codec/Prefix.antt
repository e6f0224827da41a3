-- ===== src/Codec/Prefix.antt =====
-- src/codec/write.rs: where an encoding ends is seen from its own bytes.
use tessaridb_sdk_rust.Common.{
  ℕ, ◌+◌, ◌≤◌, ◌≡◌, refl, sym, ◌∙◌, ap, List, [], ◌∷◌, ◌++◌, append-nil, Result, ok,
}
use tessaridb_sdk_rust.Codec.Write.{encode, put_varbytes}
use tessaridb_sdk_rust.Codec.Fault.{EncodingFault}
use tessaridb_sdk_rust.Codec.Reader.{take_varbytes}
use tessaridb_sdk_rust.Codec.Read.{decode, finish, max_depth}
use tessaridb_sdk_rust.Codec.RoundTrip.{
  take_varbytes-Reads, decode-encode-finish, decode-encode_alone,
}
use tessaridb_sdk_rust.Value.{Value}
use tessaridb_sdk_rust.Value.Valid.{IsValid, depth}

ok_injective : {A : Type 0} {a b : A} → ◌≡◌ {A = Result EncodingFault A} (ok a) (ok b) → a ≡ b
ok_injective e = cc

finish-ok : (v w : Value) (more : List ℕ) → finish v more ≡ ok w → (w ≡ v) × (more ≡ [])
unfolding finish
finish-ok v w [] h = (sym (ok_injective h), refl)
finish-ok v w (b ∷ bs) h = absurd cc

-- No encoding of a valid value of at most 129 levels starts with the encoding of another: one that
-- starts with it is it, of the same value.
pub encode_prefix_free :
    (v w : Value) (more : List ℕ)
    → IsValid v
    → IsValid w
    → depth v ≤ max_depth + 1
    → depth w ≤ max_depth + 1
    → encode w ≡ encode v ++ more
    → (w ≡ v) × (more ≡ [])
encode_prefix_free v w more hv hw dv dw same =
    finish-ok v w more (
      sym (decode-encode-finish v more hv dv)
      ∙ (ap decode (sym same) ∙ decode-encode_alone w hw dw))

-- No escaped block starts with the escaped block of other bytes: one that starts with it is it, of
-- the same bytes. So the block of a proper prefix does not start the block of the whole.
pub put_varbytes_prefix_free :
    (xs ys more : List ℕ) → put_varbytes ys ≡ put_varbytes xs ++ more → (ys ≡ xs) × (more ≡ [])
put_varbytes_prefix_free xs ys more same =
    let read_whole = rw (append-nil (put_varbytes ys)) at ((take_varbytes-Reads ys).reads []) in
    let both = sym read_whole ∙ (ap take_varbytes same ∙ (take_varbytes-Reads xs).reads more) in
    let pairs = ok_injective both in (ap (λ p. p.0) pairs, sym (ap (λ p. p.1) pairs))
